-- ===== src/AuthDb/Valid/Accounts.antt =====
-- The calls on accounts keep the store valid.
use mathlib.Core.Option.{some-injective}
use fxa_local_dev.Prelude.{
  ℕ, String, ◌≡◌, ◌⊎◌, refl, sym, ap, subst, ◌∙◌, inl, inr, Bool, true, ◌&&◌, Option, none, some,
  [], ◌∷◌, arith, str_eq, Bool-cases, Option-cases,
}
use fxa_local_dev.AuthDb.Table.{Table, get, keep}
use fxa_local_dev.AuthDb.Table.Laws.{IsTable, put-IsTable, keep-IsTable, get-keep}
use fxa_local_dev.AuthDb.Store.{Account, EmailEntry, UserToken, Store}
use fxa_local_dev.AuthDb.Links.{Linked-create, Linked-delete, Linked-emails, Linked-put, IsFrom}
use fxa_local_dev.AuthDb.OneEach.{keep-OneEach}
use fxa_local_dev.AuthDb.Accounts.{
  ResetData, create_account, delete_account, delete_by_uid, delete_tokens, reset_account,
  update_locale, verify_email, verify_entry,
}
use fxa_local_dev.AuthDb.Tokens.{forgot_password_verified}
use fxa_local_dev.AuthDb.Valid.{IsValid, if-IsValid, set_account-IsValid, with_account-IsValid}
use fxa_local_dev.AuthDb.Valid.Tokens.{
  create_account_reset_token-IsValid, delete_password_forgot_token-IsValid,
}

-- What is left of the addresses comes from what was there.
keep-IsFrom :
    (p : String → EmailEntry → Bool) (m : Table EmailEntry) → IsTable m → IsFrom (keep p m) m
keep-IsFrom p m h key e found = elim (Option-cases (get key m)) [
  | inl gone ↦ absurd (ground (arith, found, gone, get-keep p key m h))
  | inr (e', was) ↦ (e', was, ground (arith, found, was, get-keep p key m h))
]

-- What `verifyEmail` does to one entry.
verified_entry-IsFrom :
    (k : String) (e : EmailEntry) (m : Table EmailEntry)
    → IsFrom ((k, record e { is_verified = true }) ∷ m) ((k, e) ∷ m)
unfolding get
verified_entry-IsFrom k e m key e' found = elim (Bool-cases (str_eq k key)) [
  | inl here ↦ (
    e,
    ground (arith, here),
    ap (λ (x : EmailEntry). x.uid)
        (some-injective e' (record e { is_verified = true }) (sym found ∙ ground (arith, here))),
  )
  | inr there ↦ (e', ground (arith, there, found), refl)
]

cons-IsFrom :
    (k : String) (e : EmailEntry) (m m' : Table EmailEntry)
    → IsFrom m' m
    → IsFrom ((k, e) ∷ m') ((k, e) ∷ m)
unfolding get
cons-IsFrom k e m m' from key e' found = elim (Bool-cases (str_eq k key)) [
  | inl here ↦ (e', ground (arith, here, found), refl)
  | inr there ↦
      let (x, was, same) = from key e' (ground (arith, there, found)) in
      (x, ground (arith, there, was), same)
]

-- The entry that is verified is the first one or a later one.
verify_entry_cases :
    (uid code k : String) (x : EmailEntry) (m m' : Table EmailEntry)
    → verify_entry uid code ((k, x) ∷ m) ≡ some m'
    → ((k, record x { is_verified = true }) ∷ m ≡ m')
      ⊎ ((rest : Table EmailEntry) × (verify_entry uid code m ≡ some rest) × ((k, x) ∷ rest ≡ m'))
unfolding verify_entry
verify_entry_cases uid code k x m m' e =
    elim (Bool-cases (str_eq uid x.uid && str_eq x.email_code code)) [
      | inl hit ↦ inl (some-injective _ _ (ground (arith, hit, e)))
      | inr miss ↦ elim (Option-cases (verify_entry uid code m)) [
        | inl nothing ↦ absurd (ground (arith, miss, nothing, e))
        | inr (rest, found) ↦ inr (rest, found, some-injective _ _ (ground (arith, miss, found, e)))
      ]
    ]

verify_entry-IsFrom :
    (uid code : String) (m m' : Table EmailEntry) → verify_entry uid code m ≡ some m' → IsFrom m' m
unfolding verify_entry
verify_entry-IsFrom uid code [] m' e = cc
verify_entry-IsFrom uid code ((k, x) ∷ m) m' e = elim (verify_entry_cases uid code k x m m' e) [
  | inl here ↦ subst (λ t. IsFrom t ((k, x) ∷ m)) here (verified_entry-IsFrom k x m)
  | inr (rest, found, there) ↦
      subst (λ t. IsFrom t ((k, x) ∷ m)) there
        (cons-IsFrom k x m rest (verify_entry-IsFrom uid code m rest found))
]

verify_entry_absent :
    (uid code key : String) (m m' : Table EmailEntry)
    → verify_entry uid code m ≡ some m'
    → get key m ≡ none
    → get key m' ≡ none
verify_entry_absent uid code key m m' e gone = elim (Option-cases (get key m')) [
  | inl gone' ↦ gone'
  | inr (x, found) ↦
      absurd (ground (arith, gone, (verify_entry-IsFrom uid code m m' e key x found).1))
]

verify_entry-IsTable :
    (uid code : String) (m m' : Table EmailEntry)
    → verify_entry uid code m ≡ some m'
    → IsTable m
    → IsTable m'
unfolding verify_entry
verify_entry-IsTable uid code [] m' e h = cc
verify_entry-IsTable uid code ((k, x) ∷ m) m' e (new, h) =
    elim (verify_entry_cases uid code k x m m' e) [
      | inl here ↦ subst (λ t. IsTable t) here (new, h)
      | inr (rest, found, there) ↦
          subst (λ t. IsTable t) there
            (
              verify_entry_absent uid code k m rest found new,
              verify_entry-IsTable uid code m rest found h,
            )
    ]

module _ (s : Store) (v : IsValid s) where
  delete_tokens-IsValid : (uid : String) → IsValid (delete_tokens uid s)
  unfolding IsValid delete_tokens delete_by_uid
  delete_tokens-IsValid uid = (
    v.0,
    keep-OneEach (λ t. t.uid) _ s.password_forgot_tokens v.1,
    keep-OneEach (λ t. t.uid) _ s.password_change_tokens v.2,
    keep-OneEach (λ t. t.uid) _ s.account_reset_tokens v.3,
    v.4,
    keep-IsTable _ s.unverified_tokens v.5,
  )

  pub create_account-IsValid : (uid : String) (a : Account) → IsValid (create_account uid a s).1
  unfolding IsValid create_account
  create_account-IsValid uid a =
      if-IsValid _ _ _ (λ h. v)
        (λ free. (
          Linked-create uid (record a { devices = [] }) _ (ground (arith, free))
              (ground (arith, free)) refl v.0,
          v.1,
          v.2,
          v.3,
          put-IsTable _ _ s.emails v.4,
          v.5,
        ))

  pub update_locale-IsValid :
      (uid : String) (locale : Option String) → IsValid (update_locale uid locale s).1
  unfolding update_locale
  update_locale-IsValid uid locale =
      with_account-IsValid uid s _ v
        (λ a known. set_account-IsValid uid a (record a { locale = locale }) s known refl v)

  pub reset_account-IsValid : (uid : String) (new : ResetData) → IsValid (reset_account uid new s).1
  unfolding reset_account delete_tokens
  reset_account-IsValid uid new = with_account-IsValid uid s _ v (λ a known.
      set_account-IsValid uid a _ (delete_tokens uid s) known refl (delete_tokens-IsValid uid))

  pub delete_account-IsValid : (uid : String) → IsValid (delete_account uid s).1
  unfolding IsValid delete_account delete_tokens delete_by_uid
  delete_account-IsValid uid = with_account-IsValid uid s _ v (λ a known.
      let w = delete_tokens-IsValid uid in
      (
        Linked-emails _ (keep-IsFrom _ s.emails v.4) (Linked-delete uid a known v.0),
        w.1,
        w.2,
        w.3,
        keep-IsTable _ s.emails v.4,
        w.5,
      ))

  pub verify_email-IsValid :
      (now : ℕ) (uid : String) (code : Option String) → IsValid (verify_email now uid code s).1
  unfolding IsValid verify_email
  verify_email-IsValid now uid code = elim (Option-cases (get uid s.accounts)) [
    | inl unknown ↦ rw (unknown, verify_email) v
    | inr (a, known) ↦
        let c : String = elim code [ none ↦ a.email_code | some c ↦ c ] in
        elim (Option-cases (verify_entry uid c s.emails)) [
          | inl nothing ↦
              rw (known, nothing, verify_email) (set_account-IsValid uid a _ s known refl v)
          | inr (emails, found) ↦
              rw (known, found, verify_email)
                (
                  Linked-emails emails (verify_entry-IsFrom uid c s.emails emails found)
                      (Linked-put uid a _ known refl v.0),
                  v.1,
                  v.2,
                  v.3,
                  verify_entry-IsTable uid c s.emails emails found v.4,
                  v.5,
                )
        ]
  ]

pub forgot_password_verified-IsValid :
    (s : Store) (v : IsValid s) (now : ℕ) (id id' : String) (t : UserToken)
    → IsValid (forgot_password_verified now id id' t s).1
unfolding forgot_password_verified
forgot_password_verified-IsValid s v now id id' t =
    verify_email-IsValid _
      (create_account_reset_token-IsValid _ (delete_password_forgot_token-IsValid s v id) id' t) now
      t.uid none
