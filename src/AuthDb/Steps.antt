-- ===== src/AuthDb/Steps.antt =====
-- The calls of lib/db/mem.js that change the store, as one step each. `now` is the clock.
use fxa_local_dev.Prelude.{ℕ, String, Bool, Option, List, [], ◌∷◌}
use fxa_local_dev.AuthDb.Store.{
  Account, EmailEntry, EmailBounce, KeyFetchToken, PasswordForgotToken, UserToken, RecoveryCode,
  Store,
}
use fxa_local_dev.AuthDb.Accounts.{
  ResetData, create_account, reset_account, delete_account, update_locale, verify_email,
}
use fxa_local_dev.AuthDb.Tokens.{
  NewSession, SessionUpdate, create_session_token, create_key_fetch_token,
  create_password_forgot_token, create_password_change_token, delete_key_fetch_token,
  delete_account_reset_token, delete_password_forgot_token, delete_password_change_token,
  reset_account_tokens, forgot_password_verified, update_password_forgot_token,
  update_session_token,
}
use fxa_local_dev.AuthDb.Devices.{
  DeviceInfo, create_device, update_device, delete_session_token, delete_device,
}
use fxa_local_dev.AuthDb.Verification.{verify_tokens, verify_token_code, verify_tokens_with_method}
use fxa_local_dev.AuthDb.Emails.{
  create_email, account_record, set_primary_email, delete_email, create_email_bounce,
}
use fxa_local_dev.AuthDb.Codes.{
  create_unblock_code, consume_unblock_code, create_signin_code, consume_signin_code,
  create_totp_token, update_totp_token, delete_totp_token, replace_recovery_codes,
  consume_recovery_code, create_recovery_key, delete_recovery_key, create_verification_reminder,
  delete_reminder, fetch_reminders, create_security_event,
}

-- The hashes, the configuration and the package `ip`.
pub record Platform : Type 0 where
  pub create_hash : String → String
  pub compare_hash : String → RecoveryCode → Bool
  pub signin_codes_max_age : ℕ
  pub is_v4_format : String → Bool

pub data Call : Type 0 where
  account_created : String → Account → Call
  account_reset : String → ResetData → Call
  account_deleted : String → Call
  locale_updated : String → Option String → Call
  email_verified : ℕ → String → Option String → Call
  session_created : String → NewSession → Call
  session_updated : String → SessionUpdate → Call
  session_deleted : String → Call
  key_fetch_created : String → KeyFetchToken → Option String → Call
  key_fetch_deleted : String → Call
  forgot_created : String → PasswordForgotToken → Call
  forgot_updated : String → ℕ → Call
  forgot_deleted : String → Call
  forgot_verified : ℕ → String → String → UserToken → Call
  change_created : String → UserToken → Call
  change_deleted : String → Call
  reset_deleted : String → Call
  account_tokens_reset : String → Call
  device_created device_updated : String → String → DeviceInfo → Call
  device_deleted : String → String → Call
  tokens_verified : String → String → Call
  token_code_verified : ℕ → String → String → Call
  method_verified : ℕ → String → String → Call
  email_created : String → EmailEntry → Call
  record_read : String → Call
  primary_set email_deleted : ℕ → String → String → Call
  bounced : ℕ → EmailBounce → Call
  unblock_created : ℕ → String → String → Call
  unblock_consumed : String → String → Call
  signin_created : String → String → ℕ → Option String → Call
  signin_consumed : ℕ → String → Call
  totp_created : String → String → Option ℕ → Call
  totp_updated : ℕ → String → Bool → Bool → Call
  totp_deleted : ℕ → String → Call
  codes_replaced : String → List String → List RecoveryCode → Call
  code_consumed : String → String → Call
  key_created : String → String → String → Call
  key_deleted : String → Call
  reminder_created : ℕ → String → String → Call
  reminder_deleted : String → String → Call
  reminders_fetched : ℕ → ℕ → String → ℕ → Call
  event_created : ℕ → String → String → String → Option String → Call

unfoldable pub step : Platform → Call → Store → Store
step p (account_created uid a) s = (create_account uid a s).1
step p (account_reset uid new) s = (reset_account uid new s).1
step p (account_deleted uid) s = (delete_account uid s).1
step p (locale_updated uid locale) s = (update_locale uid locale s).1
step p (email_verified now uid code) s = (verify_email now uid code s).1
step p (session_created id t) s = (create_session_token p.create_hash id t s).1
step p (session_updated id u) s = (update_session_token id u s).1
step p (session_deleted id) s = (delete_session_token id s).1
step p (key_fetch_created id t v) s = (create_key_fetch_token id t v s).1
step p (key_fetch_deleted id) s = (delete_key_fetch_token id s).1
step p (forgot_created id t) s = (create_password_forgot_token id t s).1
step p (forgot_updated id tries) s = (update_password_forgot_token id tries s).1
step p (forgot_deleted id) s = (delete_password_forgot_token id s).1
step p (forgot_verified now id id' t) s = (forgot_password_verified now id id' t s).1
step p (change_created id t) s = (create_password_change_token id t s).1
step p (change_deleted id) s = (delete_password_change_token id s).1
step p (reset_deleted id) s = (delete_account_reset_token id s).1
step p (account_tokens_reset uid) s = (reset_account_tokens uid s).1
step p (device_created uid key i) s = (create_device uid key i s).1
step p (device_updated uid key i) s = (update_device uid key i s).1
step p (device_deleted uid key) s = (delete_device uid key s).1
step p (tokens_verified id uid) s = (verify_tokens id uid s).1
step p (token_code_verified now code uid) s = (verify_token_code p.create_hash now code uid s).1
step p (method_verified now id method) s = (verify_tokens_with_method now id method s).1
step p (email_created uid e) s = (create_email uid e s).1
step p (record_read email) s = (account_record email s).1
step p (primary_set now uid email) s = (set_primary_email now uid email s).1
step p (email_deleted now uid email) s = (delete_email now uid email s).1
step p (bounced now b) s = (create_email_bounce now b s).1
step p (unblock_created now uid code) s = (create_unblock_code now uid code s).1
step p (unblock_consumed uid code) s = (consume_unblock_code uid code s).1
step p (signin_created code uid t flow) s = (create_signin_code code uid t flow s).1
step p (signin_consumed now code) s = (consume_signin_code p.signin_codes_max_age now code s).1
step p (totp_created uid secret epoch) s = (create_totp_token uid secret epoch s).1
step p (totp_updated now uid v e) s = (update_totp_token now uid v e s).1
step p (totp_deleted now uid) s = (delete_totp_token now uid s).1
step p (codes_replaced uid codes hashes) s = (replace_recovery_codes uid codes hashes s).1
step p (code_consumed uid code) s = (consume_recovery_code p.compare_hash uid code s).1
step p (key_created uid id d) s = (create_recovery_key p.create_hash uid id d s).1
step p (key_deleted uid) s = (delete_recovery_key uid s).1
step p (reminder_created now uid kind) s = (create_verification_reminder now uid kind s).1
step p (reminder_deleted uid kind) s = record s { reminders = delete_reminder uid kind s.reminders }
step p (reminders_fetched now t kind limit) s = (fetch_reminders now t kind limit s).1
step p (event_created now addr name uid id) s =
    (create_security_event p.is_v4_format now addr name uid id s).1

-- Any calls, one after the other.
unfoldable pub run_calls : Platform → List Call → Store → Store
run_calls p [] s = s
run_calls p (c ∷ cs) s = run_calls p cs (step p c s)
