-- ===== src/AuthDb/OneTime.antt =====
-- Codes of lib/db/mem.js that serve once.
use mathlib.Core.Option.{some-injective}
use fxa_local_dev.Prelude.{
  ℕ, String, ◌≡◌, refl, ap, sym, ◌∙◌, inl, inr, Bool, true, false, ◌+◌, ◌==◌, leb, Option, none,
  some, List, [], ◌∷◌, ◌++◌, arith, if◌then◌else◌, Bool-cases, Option-cases, length,
}
use fxa_local_dev.AuthDb.Table.{Table, get, put, remove}
use fxa_local_dev.AuthDb.Table.Laws.{get-put_self, remove_self}
use fxa_local_dev.AuthDb.Store.{
  Account, RecoveryCode, Reply, SigninCode, Store, err, not_found, ok, reject, with_account,
}
use fxa_local_dev.AuthDb.Codes.{
  consume_recovery_code, consume_signin_code, consume_unblock_code, create_signin_code,
  create_unblock_code, row_of, splice_match,
}

-- The account's only code is consumed.
consume_unblock_code-known :
    (uid code : String) (t : ℕ) (row : Table ℕ) (s : Store)
    → get uid s.unblock_codes ≡ some row
    → get code row ≡ some t
    → (t == 0) ≡ false
    → consume_unblock_code uid code s
      ≡ (ok t, record s { unblock_codes = put uid [] s.unblock_codes })
unfolding consume_unblock_code
consume_unblock_code-known uid code t row s stored there time =
    rw (stored, there, time, consume_unblock_code) refl

consume_unblock_code-empty :
    (uid code : String) (s : Store)
    → get uid s.unblock_codes ≡ some []
    → consume_unblock_code uid code s ≡ reject not_found s
unfolding consume_unblock_code get
consume_unblock_code-empty uid code s stored = rw (stored, consume_unblock_code) refl

-- An unblock code that is created at a time other than 0 gives that time when it is consumed, and
-- then the account has no code: neither this one nor any other is found.
pub consume-create_unblock_code :
    (now : ℕ) (uid code other : String) (s : Store)
    → (now == 0) ≡ false
    → let s1 = (create_unblock_code now uid code s).1 in
      let used = consume_unblock_code uid code s1 in
      (used.0 ≡ ok now) × (consume_unblock_code uid other used.1 ≡ reject not_found used.1)
unfolding create_unblock_code
consume-create_unblock_code now uid code other s time =
    let row = put code now (row_of (get uid s.unblock_codes)) in
    let s1 : Store = record s { unblock_codes = put uid row s.unblock_codes } in
    rw
      (consume_unblock_code-known uid code now row s1 (get-put_self uid row s.unblock_codes)
        (get-put_self code now _) time)
      (refl, consume_unblock_code-empty uid other _ (get-put_self uid [] s1.unblock_codes))

consume_signin_code-late :
    (max_age now : ℕ) (code : String) (c : SigninCode) (s : Store)
    → get code s.signin_codes ≡ some c
    → leb (c.created_at + max_age) now ≡ true
    → consume_signin_code max_age now code s ≡ reject not_found s
unfolding consume_signin_code
consume_signin_code-late max_age now code c s there late =
    rw (there, late, consume_signin_code) refl

consume_signin_code-early :
    (max_age now : ℕ) (code : String) (c : SigninCode) (a : Account) (s : Store)
    → get code s.signin_codes ≡ some c
    → leb (c.created_at + max_age) now ≡ false
    → get c.uid s.accounts ≡ some a
    → consume_signin_code max_age now code s
      ≡ (ok (a.email, c.flow_id), record s { signin_codes = remove code s.signin_codes })
unfolding consume_signin_code
consume_signin_code-early max_age now code c a s there early known =
    rw (there, early, known, consume_signin_code) refl

consume_signin_code-gone :
    (max_age now : ℕ) (code : String) (s : Store)
    → get code s.signin_codes ≡ none
    → (consume_signin_code max_age now code s).0 ≡ err not_found
unfolding consume_signin_code
consume_signin_code-gone max_age now code s gone = rw (gone, consume_signin_code) refl

-- A sign-in code of a known account gives the account's email and the flow id until its age reaches
-- the maximum, and no longer; once consumed it is not found.
pub consume-create_signin_code :
    (max_age now created_at : ℕ) (code uid : String) (flow : Option String) (a : Account)
    (s : Store)
    → get code s.signin_codes ≡ none
    → get uid s.accounts ≡ some a
    → let s1 = (create_signin_code code uid created_at flow s).1 in
      let used = consume_signin_code max_age now code s1 in
      (used.0 ≡ (if leb (created_at + max_age) now then err not_found else ok (a.email, flow)))
      × ((consume_signin_code max_age now code used.1).0 ≡ err not_found)
unfolding create_signin_code
consume-create_signin_code max_age now created_at code uid flow a s new known =
    let c : SigninCode = record { uid = uid; created_at = created_at; flow_id = flow } in
    let s1 : Store = record s { signin_codes = put code c s.signin_codes } in
    let there : get code s1.signin_codes ≡ some c = get-put_self code c s.signin_codes in
    elim (Bool-cases (leb (created_at + max_age) now)) [
      | inl late ↦
          rw
            (
              new,
              create_signin_code,
              consume_signin_code-late max_age now code c s1 there late,
              late,
            )
            (refl, ap (λ x. x.0) (consume_signin_code-late max_age now code c s1 there late))
      | inr early ↦
          rw
            (
              new,
              create_signin_code,
              consume_signin_code-early max_age now code c a s1 there early known,
              early,
            )
            (refl, consume_signin_code-gone max_age now code _ (remove_self code s1.signin_codes))
    ]

splice_match-some :
    (p : RecoveryCode → Bool) (codes rest : List RecoveryCode)
    → splice_match p codes ≡ some rest
    → (before after : List RecoveryCode) × (c : RecoveryCode) × (p c ≡ true)
      × (codes ≡ before ++ (c ∷ after))
      × (rest ≡ before ++ after)
unfolding splice_match
splice_match-some p [] rest e = cc
splice_match-some p (c ∷ cs) rest e = elim (Bool-cases (p c)) [
  | inl hit ↦ ([], cs, c, hit, refl, some-injective _ _ (ground (arith, hit, e)))
  | inr miss ↦ elim (Option-cases (splice_match p cs)) [
    | inl nothing ↦ absurd (ground (arith, miss, nothing, e))
    | inr (left, found) ↦
        let (before, after, d, hit, whole, split) = splice_match-some p cs left found in
        (
          c ∷ before,
          after,
          d,
          hit,
          ap (λ x. c ∷ x) whole,
          some-injective _ _ (ground (arith, miss, found, e)) ∙ ap (λ x. c ∷ x) split,
        )
  ]
]

pub consume_recovery_code-accepted :
    (compare : String → RecoveryCode → Bool) (uid code : String) (codes rest : List RecoveryCode)
    (a : Account) (s : Store)
    → get uid s.accounts ≡ some a
    → get uid s.recovery_codes ≡ some codes
    → splice_match (compare code) codes ≡ some rest
    → consume_recovery_code compare uid code s
      ≡ (ok (length rest), record s { recovery_codes = put uid rest s.recovery_codes })
unfolding consume_recovery_code with_account
consume_recovery_code-accepted compare uid code codes rest a s known there found =
    rw (known, there, found, consume_recovery_code, with_account) refl

consume_recovery_code-refused :
    (compare : String → RecoveryCode → Bool) (uid code : String) (codes : List RecoveryCode)
    (a : Account) (s : Store)
    → get uid s.accounts ≡ some a
    → get uid s.recovery_codes ≡ some codes
    → splice_match (compare code) codes ≡ none
    → (consume_recovery_code compare uid code s).0 ≡ err not_found
unfolding consume_recovery_code with_account
consume_recovery_code-refused compare uid code codes a s known there nothing =
    rw (known, there, nothing, consume_recovery_code, with_account) refl

consume_recovery_code-unknown :
    (compare : String → RecoveryCode → Bool) (uid code : String) (s : Store)
    → get uid s.accounts ≡ none
    → (consume_recovery_code compare uid code s).0 ≡ err not_found
unfolding consume_recovery_code with_account
consume_recovery_code-unknown compare uid code s unknown =
    rw (unknown, consume_recovery_code, with_account) refl

-- The codes that are left once one is accepted.
spliced :
    (compare : String → RecoveryCode → Bool) (uid code : String) (codes : List RecoveryCode) (n : ℕ)
    (s : Store)
    → get uid s.recovery_codes ≡ some codes
    → (consume_recovery_code compare uid code s).0 ≡ ok n
    → (rest : List RecoveryCode) × (splice_match (compare code) codes ≡ some rest)
      × (consume_recovery_code compare uid code s
          ≡ (ok (length rest), record s { recovery_codes = put uid rest s.recovery_codes }))
spliced compare uid code codes n s there answer = elim (Option-cases (get uid s.accounts)) [
  | inl unknown ↦
      absurd (ground (arith, answer, consume_recovery_code-unknown compare uid code s unknown))
  | inr (a, known) ↦ elim (Option-cases (splice_match (compare code) codes)) [
    | inl nothing ↦ absurd (
        ground (
          arith,
          answer,
          consume_recovery_code-refused compare uid code codes a s known there nothing,
        ))
    | inr (rest, found) ↦ (
      rest,
      found,
      consume_recovery_code-accepted compare uid code codes rest a s known there found,
    )
  ]
]

-- What an answer holds.
abbrev answered : {A : Type 0} → A → Reply A → A
answered d (ok a) = a
answered d (err e) = d

-- If a recovery code is accepted, it matches one of the account's codes; that one is taken out, the
-- others stay in order, and the answer is how many are left.
pub consume_recovery_code_lem :
    (compare : String → RecoveryCode → Bool) (uid code : String) (codes : List RecoveryCode) (n : ℕ)
    (s : Store)
    → get uid s.recovery_codes ≡ some codes
    → (consume_recovery_code compare uid code s).0 ≡ ok n
    → (before after : List RecoveryCode) × (c : RecoveryCode) × (compare code c ≡ true)
      × (codes ≡ before ++ (c ∷ after))
      × (get uid (consume_recovery_code compare uid code s).1.recovery_codes
          ≡ some (before ++ after))
      × (n ≡ length (before ++ after))
consume_recovery_code_lem compare uid code codes n s there answer =
    let (rest, found, result) = spliced compare uid code codes n s there answer in
    let (before, after, c, hit, whole, split) = splice_match-some (compare code) codes rest found in
    (
      before,
      after,
      c,
      hit,
      whole,
      ap (λ x. get uid x.1.recovery_codes) result
          ∙ get-put_self uid rest s.recovery_codes
          ∙ ap some split,
      ap (answered 0) (sym answer ∙ ap (λ x. x.0) result) ∙ ap length split,
    )
