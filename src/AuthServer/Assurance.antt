-- ===== src/AuthServer/Assurance.antt =====
-- How well the owner of a session is authenticated once the store has verified it.
use mathlib.Core.Option.{some-injective}
use fxa_local_dev.Prelude.{
  ℕ, String, ◌≡◌, ◌⊎◌, refl, ap, ◌∙◌, inl, inr, true, false, ◌||◌, not, Option, none, some, arith,
  str_eq, str_eq_iff, if◌then◌else◌, Bool-cases, ◌==◌,
}
use fxa_local_dev.AuthDb.Table.{get, put}
use fxa_local_dev.AuthDb.Table.Laws.{any-false, get-put_self, only}
use fxa_local_dev.AuthDb.Store.{
  Account, Reply, SessionToken as StoredSession, Store, UnverifiedToken, err, ok,
}
use fxa_local_dev.AuthDb.Reads.{SessionItem, session_item, session_token}
use fxa_local_dev.AuthDb.Verification.{
  is_target, map_verification_method_type, set_method, verify_session, verify_tokens,
  verify_tokens_with_method,
}
use fxa_local_dev.AuthDb.Valid.{IsValid}
use fxa_local_dev.AuthDb.Unverified.{has_target, verify_tokens-targets, verify_tokens-sessions}
use fxa_local_dev.AuthServer.AuthMethods.{maximum_assurance_level, verification_method_to_amr}
use fxa_local_dev.AuthServer.Tokens.{
  TokenState, authentication_methods, authenticator_assurance_level, new_session_token, state,
  verification_method_value_of, verified,
}

-- The state and the assurance level of the session that the store shows.
abbrev pub standing : ℕ → Reply SessionItem → Reply (TokenState × Option ℕ)
standing max_age (ok item) =
    let t = new_session_token max_age item in ok (state t, authenticator_assurance_level t)
standing max_age (err e) = err e

-- The level that a method reaches.
abbrev pub level_of : String → ℕ
level_of method = if str_eq method "totp-2fa" || str_eq method "recovery-code" then 2 else 1

-- The methods that have a number.
method_cases :
    (n : ℕ) (method : String)
    → map_verification_method_type method ≡ some n
    → ((method ≡ "email-2fa") × (n ≡ 1))
      ⊎ (((method ≡ "totp-2fa") × (n ≡ 2)) ⊎ ((method ≡ "recovery-code") × (n ≡ 3)))
unfolding map_verification_method_type
method_cases n method known = elim (Bool-cases (str_eq method "email-2fa")) [
  | inl code ↦
      inl ((str_eq_iff method "email-2fa").0 code, some-injective _ _ (ground (arith, known, code)))
  | inr not_code ↦ elim (Bool-cases (str_eq method "totp-2fa")) [
    | inl totp ↦ inr (
        inl (
          (str_eq_iff method "totp-2fa").0 totp,
          some-injective _ _ (ground (arith, known, not_code, totp)),
        ))
    | inr not_totp ↦ elim (Bool-cases (str_eq method "recovery-code")) [
      | inl recovery ↦ inr (
          inr (
            (str_eq_iff method "recovery-code").0 recovery,
            some-injective _ _ (ground (arith, known, not_code, not_totp, recovery)),
          ))
      | inr not_recovery ↦ absurd (ground (arith, known, not_code, not_totp, not_recovery))
    ]
  ]
]

named_nonzero :
    (n : ℕ) (method : String) → map_verification_method_type method ≡ some n → (n == 0) ≡ false
named_nonzero n method known = elim (method_cases n method known) [
  | inl (is_method, is_n) ↦ rw is_n refl
  | inr (inl (is_method, is_n)) ↦ rw is_n refl
  | inr (inr (is_method, is_n)) ↦ rw is_n refl
]

-- The level of a session that shows no verification id, with the number of a method.
level_of_number :
    (max_age n : ℕ) (method : String) (item : SessionItem)
    → map_verification_method_type method ≡ some n
    → item.token_verification_id ≡ none
    → item.verification_method ≡ some n
    → standing max_age (ok item) ≡ ok (verified, some (level_of method))
unfolding new_session_token state authenticator_assurance_level authentication_methods
    verification_method_value_of verification_method_to_amr maximum_assurance_level
level_of_number max_age n method item known none_left stored = elim (method_cases n method known) [
  | inl (is_method, is_n) ↦
      rw (none_left, stored, is_n, is_method, authenticator_assurance_level) refl
  | inr (inl (is_method, is_n)) ↦
      rw (none_left, stored, is_n, is_method, authenticator_assurance_level) refl
  | inr (inr (is_method, is_n)) ↦
      rw (none_left, stored, is_n, is_method, authenticator_assurance_level) refl
]

session_token-item :
    (id : String) (t : StoredSession) (a : Account) (s : Store)
    → get id s.session_tokens ≡ some t
    → get t.uid s.accounts ≡ some a
    → (session_token id s).0 ≡ ok (session_item id t a (get id s.unverified_tokens) s)
unfolding session_token
session_token-item id t a s there known = rw (there, known, session_token) refl

verify_session-unverified :
    (id : String) (t : StoredSession) (a : Account) (w : UnverifiedToken) (s : Store)
    → get id s.session_tokens ≡ some t
    → get t.uid s.accounts ≡ some a
    → get id s.unverified_tokens ≡ some w
    → verify_session id s ≡ verify_tokens w.token_verification_id t.uid s
unfolding verify_session session_item
verify_session-unverified id t a w s there known unverified =
    rw (session_token-item id t a s there known, unverified, verify_session) refl

-- The session as the method leaves it.
abbrev pub with_method : ℕ → ℕ → StoredSession → StoredSession
with_method now n t = record t { verification_method = some n; verified_at = some now }

set_method-known :
    (now : ℕ) (id : String) (n : ℕ) (t : StoredSession) (s : Store)
    → get id s.session_tokens ≡ some t
    → set_method now id n (ok tt, s)
      ≡ (ok tt, record s { session_tokens = put id (with_method now n t) s.session_tokens })
unfolding set_method
set_method-known now id n t s there = rw (there, set_method) refl

standing-item :
    (max_age now n : ℕ) (id method : String) (t : StoredSession) (a : Account) (s : Store)
    → map_verification_method_type method ≡ some n
    → get id s.session_tokens ≡ some (with_method now n t)
    → get t.uid s.accounts ≡ some a
    → get id s.unverified_tokens ≡ none
    → standing max_age (session_token id s).0 ≡ ok (verified, some (level_of method))
unfolding session_item
standing-item max_age now n id method t a s named there known none_left =
    ap (standing max_age) (session_token-item id (with_method now n t) a s there known)
    ∙ level_of_number max_age n method _ named (rw none_left refl)
        (rw (named_nonzero n method named) refl)

module _ (now max_age n : ℕ) (id method : String) (t : StoredSession) (a : Account)
    (w : UnverifiedToken) (s : Store) where
  abbrev pub verified_store : Store
  verified_store = (verify_tokens w.token_verification_id t.uid s).1

  target : w.uid ≡ t.uid → is_target w.token_verification_id t.uid w ≡ true
  unfolding is_target
  target own = ground (
    arith,
    str_eq_iff w.token_verification_id w.token_verification_id,
    (str_eq_iff w.uid t.uid).1 own,
  )

  has_target_here :
      get id s.unverified_tokens ≡ some w
      → w.uid ≡ t.uid
      → has_target w.token_verification_id t.uid s.unverified_tokens ≡ true
  has_target_here unverified own =
      elim (Bool-cases (has_target w.token_verification_id t.uid s.unverified_tokens)) [
        | inl hit ↦ hit
        | inr miss ↦ absurd (
            ground (
              arith,
              target own,
              any-false (λ k x. is_target w.token_verification_id t.uid x) id w s.unverified_tokens
                  miss unverified,
            ))
      ]

  verified_tokens :
      IsValid s
      → get id s.unverified_tokens ≡ some w
      → w.uid ≡ t.uid
      → (verify_tokens w.token_verification_id t.uid s ≡ (ok tt, verified_store))
        × (get id verified_store.unverified_tokens ≡ none)
  verified_tokens v unverified own =
      let (answer, same, left) = verify_tokens-targets w.token_verification_id t.uid s id v in
      (
        ap (λ r. (r, verified_store)) (answer ∙ rw (has_target_here unverified own) refl),
        left
            ∙ ap (only (λ x. not (is_target w.token_verification_id t.uid x))) unverified
            ∙ ground (arith, target own),
      )

  -- The store once the session is verified by the method.
  abbrev pub signed_in : Store
  signed_in = record verified_store {
    session_tokens = put id (with_method now n t) verified_store.session_tokens;
  }

  pub verify_tokens_with_method-known :
      IsValid s
      → get id s.session_tokens ≡ some t
      → get t.uid s.accounts ≡ some a
      → get id s.unverified_tokens ≡ some w
      → w.uid ≡ t.uid
      → map_verification_method_type method ≡ some n
      → verify_tokens_with_method now id method s ≡ (ok tt, signed_in)
  unfolding verify_tokens_with_method
  verify_tokens_with_method-known v there known unverified own named =
      let kept = verify_tokens-sessions w.token_verification_id t.uid s in
      rw
        (
          named,
          verify_tokens_with_method,
          verify_session-unverified id t a w s there known unverified,
          (verified_tokens v unverified own).0,
          set_method-known now id n t verified_store (ap (get id) kept.1 ∙ there),
        )
        refl

  -- In a valid store, the verification of an unverified session of a known account by a known method
  -- succeeds; then the session that the store shows is verified, and its owner's assurance level is 2
  -- for a one-time password or a recovery code and 1 for a code by email.
  pub standing-verify_tokens_with_method :
      IsValid s
      → get id s.session_tokens ≡ some t
      → get t.uid s.accounts ≡ some a
      → get id s.unverified_tokens ≡ some w
      → w.uid ≡ t.uid
      → map_verification_method_type method ≡ some n
      → ((verify_tokens_with_method now id method s).0 ≡ ok tt)
        × (standing max_age (session_token id (verify_tokens_with_method now id method s).1).0
            ≡ ok (verified, some (level_of method)))
  standing-verify_tokens_with_method v there known unverified own named =
      let kept = verify_tokens-sessions w.token_verification_id t.uid s in
      rw (verify_tokens_with_method-known v there known unverified own named) (
        refl,
        standing-item max_age now n id method t a signed_in named
            (get-put_self id (with_method now n t) verified_store.session_tokens)
            (ap (get t.uid) kept.0 ∙ known) (verified_tokens v unverified own).1,
      )
