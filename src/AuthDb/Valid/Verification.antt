-- ===== src/AuthDb/Valid/Verification.antt =====
-- The verification of tokens keeps the store valid.
use fxa_local_dev.Prelude.{ℕ, String, ◌≡◌, ◌⊎◌, refl, inl, inr, Bool-cases, Option-cases}
use fxa_local_dev.AuthDb.Table.{get}
use fxa_local_dev.AuthDb.Table.Laws.{keep-IsTable}
use fxa_local_dev.AuthDb.Store.{Answer, Reply, ok, err, Error, Store}
use fxa_local_dev.AuthDb.Reads.{session_token}
use fxa_local_dev.AuthDb.Verification.{
  find_code, is_expired, map_verification_method_type, set_method, verify_session,
  verify_token_code, verify_tokens, verify_tokens_with_method,
}
use fxa_local_dev.AuthDb.Valid.{IsValid, if-IsValid}

Reply-cases : {A : Type 0} (r : Reply A) → ((e : Error) × (r ≡ err e)) ⊎ ((a : A) × (r ≡ ok a))
Reply-cases (err e) = inl (e, refl)
Reply-cases (ok a) = inr (a, refl)

module _ (s : Store) (v : IsValid s) where
  pub verify_tokens-IsValid : (id uid : String) → IsValid (verify_tokens id uid s).1
  unfolding IsValid verify_tokens
  verify_tokens-IsValid id uid =
      if-IsValid _ _ _ (λ h. v)
        (λ h. (v.0, v.1, v.2, v.3, v.4, keep-IsTable _ s.unverified_tokens v.5))

  pub verify_token_code-IsValid :
      (hash : String → String) (now : ℕ) (code uid : String)
      → IsValid (verify_token_code hash now code uid s).1
  unfolding verify_token_code
  verify_token_code-IsValid hash now code uid =
      elim (Option-cases (find_code (hash code) s.unverified_tokens)) [
        | inl unknown ↦ rw (unknown, verify_token_code) v
        | inr (w, there) ↦ elim (Bool-cases (is_expired w.token_verification_code_expires_at now)) [
          | inl late ↦ rw (there, late, verify_token_code) v
          | inr early ↦
              rw (there, early, verify_token_code)
                (verify_tokens-IsValid w.token_verification_id uid)
        ]
      ]

  verify_session-IsValid : (id : String) → IsValid (verify_session id s).1
  unfolding verify_session
  verify_session-IsValid id = elim (Reply-cases (session_token id s).0) [
    | inl (e, failed) ↦ rw (failed, verify_session) v
    | inr (item, found) ↦ elim (Option-cases item.token_verification_id) [
      | inl verified ↦ rw (found, verified, verify_session) v
      | inr (w, unverified) ↦
          rw (found, unverified, verify_session) (verify_tokens-IsValid w item.uid)
    ]
  ]

set_method-IsValid :
    (now : ℕ) (id : String) (n : ℕ) (x : Answer (Unit {0}))
    → IsValid x.1
    → IsValid (set_method now id n x).1
unfolding IsValid set_method
set_method-IsValid now id n (err e, s) v = v
set_method-IsValid now id n (ok u, s) v = elim (Option-cases (get id s.session_tokens)) [
  | inl unknown ↦ rw (unknown, set_method) v
  | inr (t, there) ↦ rw (there, set_method) v
]

pub verify_tokens_with_method-IsValid :
    (now : ℕ) (id method : String) (s : Store)
    → IsValid s
    → IsValid (verify_tokens_with_method now id method s).1
unfolding verify_tokens_with_method
verify_tokens_with_method-IsValid now id method s v =
    elim (Option-cases (map_verification_method_type method)) [
      | inl unknown ↦ rw (unknown, verify_tokens_with_method) v
      | inr (n, known) ↦
          rw (known, verify_tokens_with_method)
            (set_method-IsValid now id n _ (verify_session-IsValid s v id))
    ]
