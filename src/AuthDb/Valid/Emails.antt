-- ===== src/AuthDb/Valid/Emails.antt =====
-- The calls on addresses keep the store valid.
use mathlib.Core.Option.{some-injective}
use fxa_local_dev.Prelude.{
  ℕ, String, ◌≡◌, refl, ap, sym, ◌∙◌, inl, inr, [], ◌∷◌, arith, str_eq, Bool-cases, Option-cases,
}
use fxa_local_dev.AuthDb.Table.{Table, get, remove, update_all}
use fxa_local_dev.AuthDb.Table.Laws.{
  IsTable, changed, get-update_all, put-IsTable, keep-IsTable, any-false, remove_cases,
}
use fxa_local_dev.AuthDb.Store.{EmailEntry, Store}
use fxa_local_dev.AuthDb.Links.{IsFrom, Linked-emails, Linked-put_email}
use fxa_local_dev.AuthDb.Emails.{
  account_record, clear_primary, create_email, delete_email, is_account_email, make_primary,
  set_primary_email, touch_profile,
}
use fxa_local_dev.AuthDb.Valid.{IsValid, if-IsValid, set_account-IsValid, with_account-IsValid}

pub touch_profile-IsValid :
    (now : ℕ) (uid : String) (s : Store) → IsValid s → IsValid (touch_profile now uid s).1
unfolding touch_profile
touch_profile-IsValid now uid s v =
    with_account-IsValid uid s _ v (λ a known. set_account-IsValid uid a _ s known refl v)

-- Entries that are changed in place stay with their accounts.
update_all-IsFrom :
    (f : String → EmailEntry → EmailEntry) (m : Table EmailEntry)
    → ((k : String) (e : EmailEntry) → (f k e).uid ≡ e.uid)
    → IsFrom (update_all f m) m
update_all-IsFrom f m same key e' found = elim (Option-cases (get key m)) [
  | inl gone ↦ absurd (ground (arith, found, gone, get-update_all f key m))
  | inr (e, was) ↦ (
    e,
    was,
    ap (λ (x : EmailEntry). x.uid)
          (some-injective e' (f key e)
            (sym found ∙ get-update_all f key m ∙ ap (changed (f key)) was))
        ∙ same key e,
  )
]

update_all-IsTable :
    (f : String → EmailEntry → EmailEntry) (m : Table EmailEntry)
    → IsTable m
    → IsTable (update_all f m)
unfolding IsValid update_all
update_all-IsTable f [] h = tt
update_all-IsTable f ((k, e) ∷ m) h =
    ground (arith, h, get-update_all f k m, update_all-IsTable f m h.1)

remove-IsFrom : (k : String) (m : Table EmailEntry) → IsFrom (remove k m) m
remove-IsFrom k m key e' found = (e', (remove_cases key k e' m found).1, refl)

clear_primary-uid : (uid key : String) (e : EmailEntry) → (clear_primary uid key e).uid ≡ e.uid
unfolding clear_primary
clear_primary-uid uid key e = ground arith

make_primary-uid : (email key : String) (e : EmailEntry) → (make_primary email key e).uid ≡ e.uid
unfolding make_primary
make_primary-uid email key e = ground arith

emails-IsTable : (s : Store) → IsValid s → IsTable s.emails
unfolding IsValid
emails-IsTable s v = v.4

module _ (s : Store) (v : IsValid s) where
  set_emails-IsValid :
      (emails : Table EmailEntry)
      → IsFrom emails s.emails
      → IsTable emails
      → IsValid (record s { emails = emails })
  unfolding IsValid
  set_emails-IsValid emails from h = (Linked-emails emails from v.0, v.1, v.2, v.3, h, v.5)

  pub create_email-IsValid : (uid : String) (e : EmailEntry) → IsValid (create_email uid e s).1
  unfolding IsValid create_email is_account_email
  create_email-IsValid uid e =
      if-IsValid _ _ _ (λ h. v)
        (λ free. (
          Linked-put_email e.normalized_email _
              (λ uid' a known.
                any-false (λ k a. str_eq a.normalized_email e.normalized_email) uid' a s.accounts
                  (ground (arith, free)) known)
              v.0,
          v.1,
          v.2,
          v.3,
          put-IsTable _ _ s.emails v.4,
          v.5,
        ))

  pub account_record-IsValid : (email : String) → IsValid (account_record email s).1
  unfolding account_record
  account_record-IsValid email = elim (Option-cases (get email s.emails)) [
    | inl unknown ↦ rw (unknown, account_record) v
    | inr (e, there) ↦
        rw (there, account_record)
          (with_account-IsValid e.uid s _ v
            (λ a known. set_account-IsValid e.uid a _ s known refl v))
  ]

  primary_emails-IsValid :
      (uid email : String)
      → IsValid (record s {
        emails = update_all (make_primary email) (update_all (clear_primary uid) s.emails);
      })
  primary_emails-IsValid uid email =
      set_emails-IsValid _
        (λ key e' found.
          let (e, there, same) =
            update_all-IsFrom (make_primary email) _ (make_primary-uid email) key e' found in
          let (e0, was, same0) =
            update_all-IsFrom (clear_primary uid) s.emails (clear_primary-uid uid) key e there in
          (e0, was, same ∙ same0))
        (update_all-IsTable (make_primary email) _
          (update_all-IsTable (clear_primary uid) s.emails (emails-IsTable s v)))

  pub set_primary_email-IsValid :
      (now : ℕ) (uid email : String) → IsValid (set_primary_email now uid email s).1
  unfolding set_primary_email
  set_primary_email-IsValid now uid email =
      if-IsValid _ _ _ (λ h. v)
        (λ h. touch_profile-IsValid now uid _ (primary_emails-IsValid uid email))

  remove_email-IsValid : (email : String) → IsValid (record s { emails = remove email s.emails })
  unfolding remove
  remove_email-IsValid email =
      set_emails-IsValid _ (remove-IsFrom email s.emails)
        (keep-IsTable _ s.emails (emails-IsTable s v))

  pub delete_email-IsValid :
      (now : ℕ) (uid email : String) → IsValid (delete_email now uid email s).1
  unfolding delete_email
  delete_email-IsValid now uid email = elim (Option-cases (get email s.emails)) [
    | inl unknown ↦ elim (Bool-cases (is_account_email email s)) [
      | inl used ↦ rw (unknown, used, delete_email) v
      | inr free ↦ rw (unknown, free, delete_email) (touch_profile-IsValid now uid s v)
    ]
    | inr (e, there) ↦ elim (Bool-cases e.is_primary) [
      | inl primary ↦ rw (there, primary, delete_email) v
      | inr other ↦ elim (Bool-cases (str_eq e.uid uid)) [
        | inl own ↦
            rw (there, other, own, delete_email)
              (touch_profile-IsValid now uid _ (remove_email-IsValid email))
        | inr foreign ↦ rw (there, other, foreign, delete_email) (touch_profile-IsValid now uid s v)
      ]
    ]
  ]
