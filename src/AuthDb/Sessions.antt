-- ===== src/AuthDb/Sessions.antt =====
-- The life of a session in lib/db/mem.js: created, verified and deleted.
use fxa_local_dev.Prelude.{
  String, ◌≡◌, refl, ap, subst, ◌∙◌, inl, inr, true, not, Option, none, some, arith, str_eq_iff,
  Bool-cases, Option-cases,
}
use fxa_local_dev.AuthDb.Table.{get, put}
use fxa_local_dev.AuthDb.Table.Laws.{get-put_self, get-remove, only, any-false}
use fxa_local_dev.AuthDb.Store.{
  Account, Reply, SessionToken, Store, UnverifiedToken, done, err, not_found, ok, with_account,
}
use fxa_local_dev.AuthDb.Tokens.{
  NewSession, Verification, create_session_token, new_session, unverified_session,
}
use fxa_local_dev.AuthDb.Devices.{delete_session_token, drop_session}
use fxa_local_dev.AuthDb.Reads.{SessionItem, session_token, session_item}
use fxa_local_dev.AuthDb.Verification.{is_target, verify_tokens}
use fxa_local_dev.AuthDb.Valid.{IsValid}
use fxa_local_dev.AuthDb.Valid.Tokens.{create_session_token-IsValid}
use fxa_local_dev.AuthDb.Unverified.{has_target, verify_tokens-targets, verify_tokens-sessions}

-- The verification id that `sessionToken` shows, or its error.
abbrev pub verification_shown : Reply SessionItem → Reply (Option String)
verification_shown (ok item) = ok item.token_verification_id
verification_shown (err e) = err e

abbrev verification_of : Option UnverifiedToken → Option String
verification_of none = none
verification_of (some w) = some w.token_verification_id

session_token-known :
    (id : String) (t : SessionToken) (a : Account) (s : Store)
    → get id s.session_tokens ≡ some t
    → get t.uid s.accounts ≡ some a
    → verification_shown (session_token id s).0 ≡ ok (verification_of (get id s.unverified_tokens))
unfolding session_token session_item
session_token-known id t a s there known = elim (Option-cases (get id s.unverified_tokens)) [
  | inl verified ↦ rw (there, known, verified, session_token) refl
  | inr (w, unverified) ↦ rw (there, known, unverified, session_token) refl
]

session_token-unknown :
    (id : String) (s : Store)
    → get id s.session_tokens ≡ none
    → verification_shown (session_token id s).0 ≡ err not_found
unfolding session_token
session_token-unknown id s gone = rw (gone, session_token) refl

delete_session_token-gone :
    (id : String) (t : SessionToken) (a : Account) (s : Store)
    → get id s.session_tokens ≡ some t
    → get t.uid s.accounts ≡ some a
    → get id (delete_session_token id s).1.session_tokens ≡ none
unfolding delete_session_token with_account drop_session
delete_session_token-gone id t a s there known =
    rw (there, known, delete_session_token, with_account)
      (ground (arith, get-remove id id s.session_tokens, str_eq_iff id id))

module _ (hash : String → String) (id : String) (t : NewSession) (w : Verification)
    (s : Store) where
  abbrev created : Store
  created = record s {
    session_tokens = put id (new_session t) s.session_tokens;
    unverified_tokens = put id (unverified_session hash t w) s.unverified_tokens;
  }

  create-new :
      t.verification ≡ some w
      → get id s.session_tokens ≡ none
      → create_session_token hash id t s ≡ done created
  unfolding create_session_token
  create-new asked new = rw (new, asked, create_session_token) refl

  created_target : is_target w.token_verification_id t.uid (unverified_session hash t w) ≡ true
  unfolding is_target unverified_session
  created_target =
      ground
        (arith, str_eq_iff w.token_verification_id w.token_verification_id, str_eq_iff t.uid t.uid)

  created_unverified : get id created.unverified_tokens ≡ some (unverified_session hash t w)
  created_unverified = get-put_self id (unverified_session hash t w) s.unverified_tokens

  created-has_target : has_target w.token_verification_id t.uid created.unverified_tokens ≡ true
  created-has_target =
      elim (Bool-cases (has_target w.token_verification_id t.uid created.unverified_tokens)) [
        | inl hit ↦ hit
        | inr miss ↦ absurd (
            ground (
              arith,
              created_target,
              any-false (λ k x. is_target w.token_verification_id t.uid x) id
                  (unverified_session hash t w) created.unverified_tokens miss created_unverified,
            ))
      ]

  -- The store once the session is verified.
  abbrev verified : Store
  verified = (verify_tokens w.token_verification_id t.uid created).1

  verified_session : get id verified.session_tokens ≡ some (new_session t)
  verified_session =
      ap (get id) (verify_tokens-sessions w.token_verification_id t.uid created).1
      ∙ get-put_self id (new_session t) s.session_tokens

  verified_account :
      (a : Account) → get t.uid s.accounts ≡ some a → get t.uid verified.accounts ≡ some a
  verified_account a known =
      ap (get t.uid) (verify_tokens-sessions w.token_verification_id t.uid created).0 ∙ known

  verify-created :
      IsValid created
      → ((verify_tokens w.token_verification_id t.uid created).0 ≡ ok tt)
        × (get id verified.unverified_tokens ≡ none)
  verify-created v =
      let (answers, same, left) =
        verify_tokens-targets w.token_verification_id t.uid created id v in
      (
        answers ∙ rw created-has_target refl,
        left
            ∙ ap (only (λ x. not (is_target w.token_verification_id t.uid x))) created_unverified
            ∙ ground (arith, created_target),
      )

  -- In a valid store, a new session of a known account that is to be verified shows its verification
  -- id; `verifyTokens` with that id succeeds, and the session shows none; and once the session is
  -- deleted it is not found.
  pub verify-create_session :
      (a : Account)
      → IsValid s
      → t.verification ≡ some w
      → get id s.session_tokens ≡ none
      → get t.uid s.accounts ≡ some a
      → let s1 = (create_session_token hash id t s).1 in
        let verified = verify_tokens w.token_verification_id t.uid s1 in
        (verification_shown (session_token id s1).0 ≡ ok (some w.token_verification_id))
        × (verified.0 ≡ ok tt)
        × (verification_shown (session_token id verified.1).0 ≡ ok none)
        × (verification_shown (session_token id (delete_session_token id verified.1).1).0
            ≡ err not_found)
  unfolding new_session unverified_session
  verify-create_session a v asked new known =
      let v1 : IsValid created =
        subst (λ x. IsValid x.1) (create-new asked new)
          (create_session_token-IsValid s v hash id t) in
      let (answers, none_left) = verify-created v1 in
      rw (create-new asked new) (
        session_token-known id (new_session t) a created
              (get-put_self id (new_session t) s.session_tokens) known
            ∙ ap (λ x. ok (verification_of x)) created_unverified,
        answers,
        session_token-known id (new_session t) a verified verified_session
              (verified_account a known)
            ∙ ap (λ x. ok (verification_of x)) none_left,
        session_token-unknown id _ (
            delete_session_token-gone id (new_session t) a verified verified_session
              (verified_account a known)),
      )
