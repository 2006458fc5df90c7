-- ===== src/AuthServer/Recovery.antt =====
-- Signing in by a recovery code, from the route to the store.
use fxa_local_dev.Prelude.{
  ℕ, String, ◌≡◌, refl, ap, subst, ◌∙◌, inl, inr, Bool, true, false, some, List, length,
  if◌then◌else◌, Bool-cases,
}
use fxa_local_dev.AuthDb.Table.{get, put}
use fxa_local_dev.AuthDb.Table.Laws.{get-put_self}
use fxa_local_dev.AuthDb.Store.{
  Account, RecoveryCode, SessionToken as StoredSession, Store, UnverifiedToken, is_set, ok,
  with_account,
}
use fxa_local_dev.AuthDb.Accounts
use fxa_local_dev.AuthDb.Accounts.{AccountItem, filter_account}
use fxa_local_dev.AuthDb.Codes
use fxa_local_dev.AuthDb.Codes.{splice_match}
use fxa_local_dev.AuthDb.Reads.{session_token}
use fxa_local_dev.AuthDb.Verification.{map_verification_method_type}
use fxa_local_dev.AuthDb.Valid.{IsValid}
use fxa_local_dev.AuthDb.Valid.Codes.{consume_recovery_code-IsValid}
use fxa_local_dev.AuthDb.Unverified.{verify_tokens-sessions, verify_tokens-recovery_codes}
use fxa_local_dev.AuthDb.OneTime.{consume_recovery_code-accepted}
use fxa_local_dev.AuthServer.CustomsClient.{let_through}
use fxa_local_dev.AuthServer.Tokens.{SessionToken, verified}
use fxa_local_dev.AuthServer.Assurance.{
  signed_in, standing, standing-verify_tokens_with_method, verify_tokens_with_method-known,
}
use fxa_local_dev.AuthServer.Db
use fxa_local_dev.AuthServer.Db.{and_then, mail_failed, responds, throws, translate}
use fxa_local_dev.AuthServer.Routes.{notify, session_verify_recovery_code, verify_session}

notify-known :
    (mailed : Bool) (uid : String) (a : Account) (s : Store)
    → get uid s.accounts ≡ some a
    → notify mailed uid s ≡ ((if mailed then responds tt else throws mail_failed), s)
unfolding notify Db.account translate Accounts.account with_account and_then
notify-known true uid a s known = rw (known, with_account) refl
notify-known false uid a s known = rw (known, with_account) refl

module _ (compare_hash : String → RecoveryCode → Bool) (now max_age : ℕ) (mailed suspicious : Bool)
    (id code : String) (session : SessionToken) (codes rest : List RecoveryCode) (t : StoredSession)
    (a : Account) (w : UnverifiedToken) (s : Store) where
  abbrev consumed : Store
  consumed = record s { recovery_codes = put t.uid rest s.recovery_codes }

  -- The store once the session is verified too.
  abbrev recovered : Store
  recovered = signed_in now max_age 3 id "recovery-code" t a w consumed

  recovery_code_named : map_verification_method_type "recovery-code" ≡ some 3
  unfolding map_verification_method_type
  recovery_code_named = refl

  consumed-known :
      get t.uid s.accounts ≡ some a
      → get t.uid s.recovery_codes ≡ some codes
      → splice_match (compare_hash code) codes ≡ some rest
      → Codes.consume_recovery_code compare_hash t.uid code s ≡ (ok (length rest), consumed)
  consumed-known known stored matched =
      consume_recovery_code-accepted compare_hash t.uid code codes rest a s known stored matched

  db-consumed :
      get t.uid s.accounts ≡ some a
      → get t.uid s.recovery_codes ≡ some codes
      → splice_match (compare_hash code) codes ≡ some rest
      → Db.consume_recovery_code compare_hash t.uid code s ≡ (responds (length rest), consumed)
  unfolding Db.consume_recovery_code translate
  db-consumed known stored matched = rw (consumed-known known stored matched, translate) refl

  consumed-IsValid :
      IsValid s
      → get t.uid s.accounts ≡ some a
      → get t.uid s.recovery_codes ≡ some codes
      → splice_match (compare_hash code) codes ≡ some rest
      → IsValid consumed
  consumed-IsValid v known stored matched =
      subst (λ x. IsValid x.1) (consumed-known known stored matched)
        (consume_recovery_code-IsValid s v compare_hash t.uid code)

  module _ (v : IsValid consumed) (there : get id s.session_tokens ≡ some t)
      (known : get t.uid s.accounts ≡ some a) (unverified : get id s.unverified_tokens ≡ some w)
      (own : w.uid ≡ t.uid) where
    db-verified :
        is_set session.token_verification_id ≡ true
        → verify_session now id session consumed ≡ (responds tt, recovered)
    unfolding verify_session Db.verify_tokens_with_method translate
    db-verified asked =
        rw
          (
            asked,
            verify_tokens_with_method-known now max_age 3 id "recovery-code" t a w consumed v there
                known unverified own recovery_code_named,
            verify_session,
            translate,
          )
          refl

    recovered-account : get t.uid recovered.accounts ≡ some a
    recovered-account =
        ap (get t.uid) (verify_tokens-sessions w.token_verification_id t.uid consumed).0 ∙ known

    recovered-codes : get t.uid recovered.recovery_codes ≡ some rest
    recovered-codes =
        ap (get t.uid) (verify_tokens-recovery_codes w.token_verification_id t.uid consumed)
        ∙ get-put_self t.uid rest s.recovery_codes

    recovered-standing : standing max_age (session_token id recovered).0 ≡ ok (verified, some 2)
    recovered-standing =
        subst (λ x. standing max_age (session_token id x.1).0 ≡ ok (verified, some 2))
          (verify_tokens_with_method-known now max_age 3 id "recovery-code" t a w consumed v there
            known unverified own recovery_code_named)
          (standing-verify_tokens_with_method now max_age 3 id "recovery-code" t a w consumed v
            there known unverified own recovery_code_named).1

  -- In a valid store, a recovery code of the account of an unverified session, which the customs server
  -- lets through, verifies the session, at assurance level 2; the code that matched is taken out, and
  -- the response is how many are left, unless the mailer fails: then it is an error, with the session
  -- verified all the same.
  pub session_verify_recovery_code_lem :
      IsValid s
      → get id s.session_tokens ≡ some t
      → get t.uid s.accounts ≡ some a
      → get id s.unverified_tokens ≡ some w
      → w.uid ≡ t.uid
      → is_set session.token_verification_id ≡ true
      → get t.uid s.recovery_codes ≡ some codes
      → splice_match (compare_hash code) codes ≡ some rest
      → let result =
          session_verify_recovery_code
            (let_through suspicious)
            compare_hash
            now
            mailed
            t.uid
            id
            session
            code
            s in
        (result.0 ≡ (if mailed then responds (length rest) else throws mail_failed))
        × (standing max_age (session_token id result.1).0 ≡ ok (verified, some 2))
        × (get t.uid result.1.recovery_codes ≡ some rest)
  unfolding session_verify_recovery_code
  session_verify_recovery_code_lem v there known unverified own asked stored matched =
      let v' = consumed-IsValid v known stored matched in
      rw
        (
          db-consumed known stored matched,
          and_then,
          db-verified v' there known unverified own asked,
          notify-known mailed t.uid a recovered (recovered-account v' there known unverified own),
        )
        (elim (Bool-cases mailed) [
          | inl sent ↦ rw sent (
            refl,
            recovered-standing v' there known unverified own,
            recovered-codes v' there known unverified own,
          )
          | inr lost ↦ rw lost (
            refl,
            recovered-standing v' there known unverified own,
            recovered-codes v' there known unverified own,
          )
        ])
