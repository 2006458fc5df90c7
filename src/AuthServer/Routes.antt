-- ===== src/AuthServer/Routes.antt =====
-- lib/routes of fxa-auth-server: token-codes.js, signin-codes.js, recovery-codes.js, recovery-key.js,
-- and the rejection of a code in unblock-codes.js. The check of the customs client comes in as its
-- outcome; `mailed` is whether the mailer takes the notification. The schemas of the payloads, the log
-- and the metrics are left out.
use fxa_local_dev.Prelude.{
  ℕ, String, Bool, true, false, ◌&&◌, not, Option, none, some, List, str_eq, leb, if◌then◌else◌,
}
use fxa_local_dev.AuthDb.Store.{RecoveryCode, Store, is_set}
use fxa_local_dev.AuthServer.CustomsClient.{Outcome, let_through}
use fxa_local_dev.AuthServer.Tokens.{SessionToken, authenticator_assurance_level}
use fxa_local_dev.AuthServer.Db
use fxa_local_dev.AuthServer.Db.{
  Answered, Response, and_then, invalid_request_parameter, mail_failed, responds, stopped, throws,
  unverified_session,
}

-- `customs.check(...).then(...)`
unfoldable pub after_check : {A : Type 0} → Outcome → Store → (Store → Answered A) → Answered A
after_check (let_through suspicious) s f = f s
after_check outcome s f = (throws (stopped outcome), s)

-- `db.account(uid).then(account => mailer...)`
unfoldable pub notify : Bool → String → Store → Answered (Unit {0})
unfolding Db.account and_then
notify mailed uid s =
    and_then (Db.account uid s)
      (λ item s'. if mailed then (responds tt, s') else (throws mail_failed, s'))

-- POST /session/verify/token, for the account of the session; the payload may name an account too.
unfoldable pub session_verify_token :
    Outcome → (String → String) → ℕ → String → Option String → String → Store → Answered (Unit {0})
unfolding after_check Db.verify_token_code
session_verify_token checked hash now code payload_uid uid s = after_check checked s (λ s'.
    if (elim payload_uid [
      | none ↦ false
      | some other ↦ not (str_eq other "") && not (str_eq other uid)
    ])
    then (throws invalid_request_parameter, s')
    else Db.verify_token_code hash now code uid s')

-- POST /signinCodes/consume, of the code in hexadecimal
unfoldable pub signin_codes_consume : Outcome → ℕ → ℕ → String → Store → Answered String
unfolding after_check Db.consume_signin_code and_then
signin_codes_consume checked max_age now code s = after_check checked s (λ s'.
    and_then (Db.consume_signin_code max_age now code s')
      (λ (email, flow_id) s''. (responds email, s'')))

-- POST /account/login/reject_unblock_code, of the code in upper case
unfoldable pub reject_unblock_code : String → String → Store → Answered (Unit {0})
unfolding Db.consume_unblock_code and_then
reject_unblock_code uid code s =
    and_then (Db.consume_unblock_code uid code s) (λ time s'. (responds tt, s'))

-- `! level || level <= 1`
unfoldable pub is_low : Option ℕ → Bool
is_low none = true
is_low (some level) = leb level 1

-- GET /recoveryCodes
unfoldable pub recovery_codes :
    Bool → String → SessionToken → List String → List RecoveryCode → Store → Answered (List String)
unfolding is_low authenticator_assurance_level Db.replace_recovery_codes notify and_then
recovery_codes mailed uid session codes hashes s =
    if is_low (authenticator_assurance_level session)
    then (throws unverified_session, s)
    else and_then (Db.replace_recovery_codes uid codes hashes s)
        (λ shown s'. and_then (notify mailed uid s') (λ u s''. (responds shown, s'')))

-- `verifySession` of POST /session/verify/recoveryCode
unfoldable pub verify_session : ℕ → String → SessionToken → Store → Answered (Unit {0})
unfolding Db.verify_tokens_with_method
verify_session now id session s =
    if is_set session.token_verification_id
    then Db.verify_tokens_with_method now id "recovery-code" s
    else (responds tt, s)

-- POST /session/verify/recoveryCode
unfoldable pub session_verify_recovery_code :
    Outcome
    → (String → RecoveryCode → Bool)
    → ℕ
    → Bool
    → String
    → String
    → SessionToken
    → String
    → Store
    → Answered ℕ
unfolding after_check Db.consume_recovery_code verify_session notify and_then
session_verify_recovery_code checked compare_hash now mailed uid id session code s =
    after_check checked s (λ s0.
      and_then (Db.consume_recovery_code compare_hash uid code s0) (λ remaining s1.
        and_then (verify_session now id session s1)
          (λ u s2. and_then (notify mailed uid s2) (λ u s3. (responds remaining, s3)))))

-- POST /recoveryKey
unfoldable pub create_recovery_key :
    (String → String) → Bool → String → SessionToken → String → String → Store → Answered (Unit {0})
unfolding Db.create_recovery_key notify and_then
create_recovery_key hash mailed uid session recovery_key_id recovery_data s =
    if is_set session.token_verification_id
    then (throws unverified_session, s)
    else and_then (Db.create_recovery_key hash uid recovery_key_id recovery_data s)
        (λ u s'. notify mailed uid s')

-- GET /recoveryKey/{recoveryKeyId}
unfoldable pub get_recovery_key :
    Outcome → (String → String) → String → String → Store → Answered String
unfolding after_check Db.get_recovery_key and_then
get_recovery_key checked hash uid recovery_key_id s = after_check checked s (λ s'.
    and_then (Db.get_recovery_key hash uid recovery_key_id s')
      (λ key s''. (responds key.recovery_data, s'')))

-- DELETE /recoveryKey
unfoldable pub delete_recovery_key : Bool → String → SessionToken → Store → Answered (Unit {0})
unfolding Db.delete_recovery_key notify and_then
delete_recovery_key mailed uid session s =
    if is_set session.token_verification_id
    then (throws unverified_session, s)
    else and_then (Db.delete_recovery_key uid s) (λ u s'. notify mailed uid s')
