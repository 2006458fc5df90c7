-- ===== src/AuthDb/Unverified.antt =====
-- What `verifyTokens` of lib/db/mem.js does to the unverified tokens.
use fxa_local_dev.Prelude.{
  String, ◌≡◌, refl, inl, inr, Bool, false, not, ◌==◌, ◌∙◌, ap, subst, str_eq, ◌&&◌, ◌||◌, [], ◌∷◌,
  arith, if◌then◌else◌, Bool-cases, Option-cases,
}
use mathlib.Core.Path.{fun_ext}
use fxa_local_dev.AuthDb.Table.{Table, any, get}
use fxa_local_dev.AuthDb.Table.Laws.{any-false, get-keep, only}
use fxa_local_dev.AuthDb.Store.{Store, UnverifiedToken, err, not_found, ok}
use fxa_local_dev.AuthDb.Verification.{count_targets, is_target, verify_tokens}
use fxa_local_dev.AuthDb.Valid.{IsValid}

module _ (id uid : String) where
  -- Some unverified token is one of the account with the verification id.
  abbrev pub has_target : Table UnverifiedToken → Bool
  has_target = any (λ k w. is_target id uid w)

  count-has_target :
      (m : Table UnverifiedToken) → (count_targets id uid m == 0) ≡ not (has_target m)
  unfolding any count_targets
  count-has_target [] = refl
  count-has_target ((k, w) ∷ m) = ground (arith, count-has_target m)

  only_all :
      (m : Table UnverifiedToken) (k : String)
      → has_target m ≡ false
      → get k m ≡ only (λ w. not (is_target id uid w)) (get k m)
  only_all m k h = elim (Option-cases (get k m)) [
    | inl gone ↦ rw gone refl
    | inr (w, there) ↦ rw (there, any-false (λ k w. is_target id uid w) k w m h there) refl
  ]

  -- What `verifyTokens` does, by the test that it makes.
  pub verify_tokens-targets :
      (s : Store) (k : String)
      → IsValid s
      → ((verify_tokens id uid s).0
          ≡ (if has_target s.unverified_tokens then ok tt else err not_found))
        × ((if has_target s.unverified_tokens then s else (verify_tokens id uid s).1) ≡ s)
        × (get k (verify_tokens id uid s).1.unverified_tokens
            ≡ only (λ w. not (is_target id uid w)) (get k s.unverified_tokens))
  unfolding IsValid verify_tokens
  verify_tokens-targets s k v = elim (Bool-cases (has_target s.unverified_tokens)) [
    | inl some_target ↦
        rw (count-has_target s.unverified_tokens, some_target, verify_tokens)
          (refl, refl, get-keep (λ k w. not (is_target id uid w)) k s.unverified_tokens v.5)
    | inr no_target ↦
        rw (count-has_target s.unverified_tokens, no_target, verify_tokens)
          (refl, refl, only_all s.unverified_tokens k no_target)
  ]

  -- The token is of the account, and has the verification id.
  abbrev pub is_named : UnverifiedToken → Bool
  is_named w = str_eq w.uid uid && str_eq w.token_verification_id id

  abbrev pub named_in : Table UnverifiedToken → Bool
  named_in [] = false
  named_in ((k, w) ∷ m) = is_named w || named_in m

  target-named : (w : UnverifiedToken) → is_target id uid w ≡ is_named w
  unfolding is_target
  target-named w = ground arith

  has_target-named_in : (m : Table UnverifiedToken) → has_target m ≡ named_in m
  unfolding any
  has_target-named_in [] = refl
  has_target-named_in ((k, w) ∷ m) = ground (arith, target-named w, has_target-named_in m)

  -- In a valid store, `verifyTokens` succeeds just if some unverified token of the account has the
  -- verification id, and else changes nothing; such tokens are then no longer unverified, and every
  -- other token, those of other accounts with the same id included, is as it was.
  pub verify_tokens_lem :
      (s : Store) (k : String)
      → IsValid s
      → ((verify_tokens id uid s).0
          ≡ (if named_in s.unverified_tokens then ok tt else err not_found))
        × ((if named_in s.unverified_tokens then s else (verify_tokens id uid s).1) ≡ s)
        × (get k (verify_tokens id uid s).1.unverified_tokens
            ≡ only (λ w. not (is_named w)) (get k s.unverified_tokens))
  verify_tokens_lem s k v =
      let (answer, unchanged, kept) = verify_tokens-targets s k v in
      let same = has_target-named_in s.unverified_tokens in
      (
        answer ∙ rw same refl,
        subst (λ b. (if b then s else (verify_tokens id uid s).1) ≡ s) same unchanged,
        kept ∙ ap (λ f. only (λ w. not (f w)) (get k s.unverified_tokens)) (fun_ext target-named),
      )

  -- The call touches neither the accounts nor the sessions.
  pub verify_tokens-sessions :
      (s : Store)
      → ((verify_tokens id uid s).1.accounts ≡ s.accounts)
        × ((verify_tokens id uid s).1.session_tokens ≡ s.session_tokens)
  unfolding verify_tokens
  verify_tokens-sessions s = elim (Bool-cases (count_targets id uid s.unverified_tokens == 0)) [
    | inl nothing ↦ rw (nothing, verify_tokens) (refl, refl)
    | inr something ↦ rw (something, verify_tokens) (refl, refl)
  ]

  -- Nor the recovery codes.
  pub verify_tokens-recovery_codes :
      (s : Store) → (verify_tokens id uid s).1.recovery_codes ≡ s.recovery_codes
  unfolding verify_tokens
  verify_tokens-recovery_codes s =
      elim (Bool-cases (count_targets id uid s.unverified_tokens == 0)) [
        | inl nothing ↦ rw (nothing, verify_tokens) refl
        | inr something ↦ rw (something, verify_tokens) refl
      ]
