-- ===== src/AuthServer/Db.antt =====
-- lib/db.js of fxa-auth-server, the client of the store, for the calls of the routes modelled here:
-- each passes its arguments on and gives some errors of the store their own name.
use fxa_local_dev.Prelude.{ℕ, String, Bool, Option, List}
use fxa_local_dev.AuthDb.Store.{
  Answer, Error, RecoveryCode, RecoveryKey, Store, duplicate, err, expired_token_verification_code,
  not_found, ok, recovery_key_invalid,
}
use fxa_local_dev.AuthDb.Accounts
use fxa_local_dev.AuthDb.Accounts.{AccountItem}
use fxa_local_dev.AuthDb.Codes
use fxa_local_dev.AuthDb.Verification
use fxa_local_dev.AuthServer.CustomsClient.{Outcome}

-- What a route throws: errors of lib/error.js, what the customs client throws, an error of the store
-- that is passed on, and the failure of the mailer.
pub data RouteError : Type 0 where
  invalid_token_verification_code expired_token_code invalid_unblock_code : RouteError
  invalid_signin_code recovery_code_not_found recovery_key_exists : RouteError
  recovery_key_not_found recovery_key_refused unknown_account unverified_session : RouteError
  invalid_request_parameter mail_failed invalid_verification_code unauthenticated : RouteError
  stopped : Outcome → RouteError
  passed_on : Error → RouteError

-- What a promise of the auth server comes to, and the store then.
pub data Response (A : Type 0) : Type 0 where
  responds : A → Response A
  throws : RouteError → Response A

abbrev pub Answered : Type 0 → Type 0
Answered A = Response A × Store

-- `.catch(err => { ...; throw err })`
unfoldable pub translate : {A : Type 0} → (Error → RouteError) → Answer A → Answered A
translate rename (ok a, s) = (responds a, s)
translate rename (err e, s) = (throws (rename e), s)

-- `.then(...)`
unfoldable pub and_then : {A B : Type 0} → Answered A → (A → Store → Answered B) → Answered B
and_then (responds a, s) f = f a s
and_then (throws e, s) f = (throws e, s)

unfoldable pub token_code_error : Error → RouteError
token_code_error expired_token_verification_code = expired_token_code
token_code_error not_found = invalid_token_verification_code
token_code_error e = passed_on e

unfoldable pub verify_token_code :
    (String → String) → ℕ → String → String → Store → Answered (Unit {0})
unfolding translate token_code_error Verification.verify_token_code
verify_token_code hash now code uid s =
    translate token_code_error (Verification.verify_token_code hash now code uid s)

unfoldable pub verify_tokens_with_method : ℕ → String → String → Store → Answered (Unit {0})
unfolding translate Verification.verify_tokens_with_method
verify_tokens_with_method now id method s =
    translate passed_on (Verification.verify_tokens_with_method now id method s)

unfoldable pub unblock_error : Error → RouteError
unblock_error not_found = invalid_unblock_code
unblock_error e = passed_on e

unfoldable pub consume_unblock_code : String → String → Store → Answered ℕ
unfolding translate unblock_error Codes.consume_unblock_code
consume_unblock_code uid code s = translate unblock_error (Codes.consume_unblock_code uid code s)

unfoldable pub signin_error : Error → RouteError
signin_error not_found = invalid_signin_code
signin_error e = passed_on e

unfoldable pub consume_signin_code : ℕ → ℕ → String → Store → Answered (String × Option String)
unfolding translate signin_error Codes.consume_signin_code
consume_signin_code max_age now code s =
    translate signin_error (Codes.consume_signin_code max_age now code s)

unfoldable pub replace_recovery_codes :
    String → List String → List RecoveryCode → Store → Answered (List String)
unfolding translate Codes.replace_recovery_codes
replace_recovery_codes uid codes hashes s =
    translate passed_on (Codes.replace_recovery_codes uid codes hashes s)

unfoldable pub recovery_code_error : Error → RouteError
recovery_code_error not_found = recovery_code_not_found
recovery_code_error e = passed_on e

unfoldable pub consume_recovery_code :
    (String → RecoveryCode → Bool) → String → String → Store → Answered ℕ
unfolding translate recovery_code_error Codes.consume_recovery_code
consume_recovery_code compare_hash uid code s =
    translate recovery_code_error (Codes.consume_recovery_code compare_hash uid code s)

unfoldable pub create_key_error : Error → RouteError
create_key_error duplicate = recovery_key_exists
create_key_error e = passed_on e

unfoldable pub create_recovery_key :
    (String → String) → String → String → String → Store → Answered (Unit {0})
unfolding translate create_key_error Codes.create_recovery_key
create_recovery_key hash uid recovery_key_id recovery_data s =
    translate create_key_error (Codes.create_recovery_key hash uid recovery_key_id recovery_data s)

unfoldable pub get_key_error : Error → RouteError
get_key_error not_found = recovery_key_not_found
get_key_error recovery_key_invalid = recovery_key_refused
get_key_error e = passed_on e

unfoldable pub get_recovery_key : (String → String) → String → String → Store → Answered RecoveryKey
unfolding translate get_key_error Codes.get_recovery_key
get_recovery_key hash uid recovery_key_id s =
    translate get_key_error (Codes.get_recovery_key hash uid recovery_key_id s)

unfoldable pub delete_recovery_key : String → Store → Answered (Unit {0})
unfolding translate Codes.delete_recovery_key
delete_recovery_key uid s = translate passed_on (Codes.delete_recovery_key uid s)

unfoldable pub account_error : Error → RouteError
account_error not_found = unknown_account
account_error e = passed_on e

-- `account`, but for the addresses that it adds
unfoldable pub account : String → Store → Answered AccountItem
unfolding translate account_error Accounts.account
account uid s = translate account_error (Accounts.account uid s)
