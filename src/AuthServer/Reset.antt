-- ===== src/AuthServer/Reset.antt =====
-- POST /password/forgot/verify_code of lib/routes/password.js, with the authentication by the token
-- that lib/server.js makes, over the store. Metrics, the mail's text and its addresses
-- (`accountEmails`, which cannot fail) are left out.
use fxa_local_dev.Prelude.{
  ℕ, String, Bool, true, ◌&&◌, ◌||◌, none, some, List, [], ◌∷◌, str_eq, ltb, if◌then◌else◌,
}
use fxa_local_dev.AuthDb.Store.{
  PasswordForgotToken as StoredForgot, Store, Error, UserToken, err, not_found, ok,
}
use fxa_local_dev.AuthDb.Reads.{password_forgot_token}
use fxa_local_dev.AuthDb.Tokens
use fxa_local_dev.AuthServer.CustomsClient.{Outcome}
use fxa_local_dev.AuthServer.Tokens.{
  PasswordForgotToken, expired, fail_attempt, new_password_token, ttl,
}
use fxa_local_dev.AuthServer.Db.{
  Answered, Response, RouteError, and_then, invalid_verification_code, mail_failed, passed_on,
  responds, throws, translate, unauthenticated,
}
use fxa_local_dev.AuthServer.Routes.{after_check}

-- The token of a request, as `passwordForgotToken` of lib/db.js makes it of the store's answer.
pub record Forgot : Type 0 where
  pub stored : StoredForgot
  pub token : PasswordForgotToken

unfoldable pub new_forgot : ℕ → StoredForgot → Forgot
unfolding new_password_token
new_forgot lifetime t = record {
  stored = t;
  token = record {
    token = new_password_token lifetime (some t.uid) (some t.created_at);
    tries = t.tries;
  };
}

-- `wrapTokenNotFoundError`: an unknown token is an invalid one; other errors go on.
unfoldable pub token_not_found_error : Error → RouteError
token_not_found_error not_found = unauthenticated
token_not_found_error e = passed_on e

-- `makeCredentialFn`; `null`, for an expired token, leaves the request unauthenticated as well.
unfoldable pub forgot_credentials : ℕ → ℕ → String → Store → Response Forgot
unfolding password_forgot_token new_forgot expired token_not_found_error
forgot_credentials lifetime now id s = elim (password_forgot_token id s).0 [
  | err e ↦ throws (token_not_found_error e)
  | ok item ↦
      let f = new_forgot lifetime item.token in
      if expired f.token.token (some now) now then throws unauthenticated else responds f
]

-- `ttl() > 0`
unfoldable pub is_alive : ℕ → PasswordForgotToken → Bool
unfolding ttl
is_alive now t = elim (ttl t.token none now) [ none ↦ true | some seconds ↦ ltb 0 seconds ]

-- `failVerifyAttempt`
unfoldable pub fail_verify_attempt : String → PasswordForgotToken → Store → Answered (Unit {0})
unfolding fail_attempt translate Tokens.delete_password_forgot_token
    Tokens.update_password_forgot_token
fail_verify_attempt id t s =
    let (is_last, t') = fail_attempt t in
    if is_last
    then translate passed_on (Tokens.delete_password_forgot_token id s)
    else translate passed_on (Tokens.update_password_forgot_token id t'.tries s)

-- What a request brings, and the token that is made if it passes.
pub record Attempt : Type 0 where
  pub now : ℕ
  pub checked : Outcome
  pub code : String
  pub with_recovery_key : Bool
  pub mailed : Bool
  pub reset_token_id : String
  pub reset_token_data : String

unfoldable pub reset_token : Attempt → String → UserToken
reset_token q uid = record { token_data = q.reset_token_data; uid = uid; created_at = q.now }

-- The handler, for the token of the request
unfoldable pub forgot_verify : String → Attempt → Forgot → Store → Answered String
unfolding after_check is_alive reset_token translate Tokens.forgot_password_verified
    fail_verify_attempt and_then
forgot_verify id q f s = after_check q.checked s (λ s0.
    if str_eq f.stored.pass_code q.code && is_alive q.now f.token
    then and_then
        (translate passed_on (
          Tokens.forgot_password_verified q.now id q.reset_token_id (reset_token q f.stored.uid)
            s0))
        (λ u s1.
          if q.with_recovery_key || q.mailed
          then (responds q.reset_token_data, s1)
          else (throws mail_failed, s1))
    else and_then (fail_verify_attempt id f.token s0)
        (λ u s1. (throws invalid_verification_code, s1)))

-- The whole request
unfoldable pub forgot_verify_code : ℕ → String → Attempt → Store → Answered String
unfolding forgot_credentials forgot_verify
forgot_verify_code lifetime id q s = elim (forgot_credentials lifetime q.now id s) [
  | throws e ↦ (throws e, s)
  | responds f ↦ forgot_verify id q f s
]

-- Requests with the same token, one after the other
unfoldable pub forgot_verify_all : ℕ → String → List Attempt → Store → Store
unfolding forgot_verify_code
forgot_verify_all lifetime id [] s = s
forgot_verify_all lifetime id (q ∷ qs) s =
    forgot_verify_all lifetime id qs (forgot_verify_code lifetime id q s).1
