-- ===== src/AuthDb/Valid/Calls.antt =====
-- Any calls keep the store valid.
use fxa_local_dev.Prelude.{List, [], ◌∷◌}
use fxa_local_dev.AuthDb.Store.{Store, empty_store}
use fxa_local_dev.AuthDb.Steps.{
  Platform, Call, step, run_calls, account_created, account_reset, account_deleted, locale_updated,
  email_verified, session_created, session_updated, session_deleted, key_fetch_created,
  key_fetch_deleted, forgot_created, forgot_updated, forgot_deleted, forgot_verified,
  change_created, change_deleted, reset_deleted, account_tokens_reset, device_created,
  device_updated, device_deleted, tokens_verified, token_code_verified, method_verified,
  email_created, record_read, primary_set, email_deleted, bounced, unblock_created,
  unblock_consumed, signin_created, signin_consumed, totp_created, totp_updated, totp_deleted,
  codes_replaced, code_consumed, key_created, key_deleted, reminder_created, reminder_deleted,
  reminders_fetched, event_created,
}
use fxa_local_dev.AuthDb.Codes.{create_unblock_code, create_security_event}
use fxa_local_dev.AuthDb.Emails.{create_email_bounce}
use fxa_local_dev.AuthDb.Valid.{IsValid, empty_store-IsValid}
use fxa_local_dev.AuthDb.Valid.Accounts.{
  create_account-IsValid, reset_account-IsValid, delete_account-IsValid, update_locale-IsValid,
  verify_email-IsValid, forgot_password_verified-IsValid,
}
use fxa_local_dev.AuthDb.Valid.Tokens.{
  create_session_token-IsValid, update_session_token-IsValid, create_key_fetch_token-IsValid,
  delete_key_fetch_token-IsValid, create_password_forgot_token-IsValid,
  update_password_forgot_token-IsValid, delete_password_forgot_token-IsValid,
  create_password_change_token-IsValid, delete_password_change_token-IsValid,
  delete_account_reset_token-IsValid, reset_account_tokens-IsValid,
}
use fxa_local_dev.AuthDb.Valid.Devices.{
  delete_session_token-IsValid, create_device-IsValid, update_device-IsValid, delete_device-IsValid,
}
use fxa_local_dev.AuthDb.Valid.Verification.{
  verify_tokens-IsValid, verify_token_code-IsValid, verify_tokens_with_method-IsValid,
}
use fxa_local_dev.AuthDb.Valid.Emails.{
  create_email-IsValid, account_record-IsValid, set_primary_email-IsValid, delete_email-IsValid,
}
use fxa_local_dev.AuthDb.Valid.Codes.{
  consume_unblock_code-IsValid, create_signin_code-IsValid, consume_signin_code-IsValid,
  create_totp_token-IsValid, update_totp_token-IsValid, delete_totp_token-IsValid,
  replace_recovery_codes-IsValid, consume_recovery_code-IsValid, create_recovery_key-IsValid,
  delete_recovery_key-IsValid, create_verification_reminder-IsValid, fetch_reminders-IsValid,
}

pub step-IsValid : (p : Platform) (c : Call) (s : Store) → IsValid s → IsValid (step p c s)
unfolding IsValid step create_email_bounce create_unblock_code create_security_event
step-IsValid p (account_created uid a) s v = create_account-IsValid s v uid a
step-IsValid p (account_reset uid new) s v = reset_account-IsValid s v uid new
step-IsValid p (account_deleted uid) s v = delete_account-IsValid s v uid
step-IsValid p (locale_updated uid locale) s v = update_locale-IsValid s v uid locale
step-IsValid p (email_verified now uid code) s v = verify_email-IsValid s v now uid code
step-IsValid p (session_created id t) s v = create_session_token-IsValid s v p.create_hash id t
step-IsValid p (session_updated id u) s v = update_session_token-IsValid s v id u
step-IsValid p (session_deleted id) s v = delete_session_token-IsValid s v id
step-IsValid p (key_fetch_created id t w) s v = create_key_fetch_token-IsValid s v id t w
step-IsValid p (key_fetch_deleted id) s v = delete_key_fetch_token-IsValid s v id
step-IsValid p (forgot_created id t) s v = create_password_forgot_token-IsValid s v id t
step-IsValid p (forgot_updated id tries) s v = update_password_forgot_token-IsValid s v id tries
step-IsValid p (forgot_deleted id) s v = delete_password_forgot_token-IsValid s v id
step-IsValid p (forgot_verified now id id' t) s v =
    forgot_password_verified-IsValid s v now id id' t
step-IsValid p (change_created id t) s v = create_password_change_token-IsValid s v id t
step-IsValid p (change_deleted id) s v = delete_password_change_token-IsValid s v id
step-IsValid p (reset_deleted id) s v = delete_account_reset_token-IsValid s v id
step-IsValid p (account_tokens_reset uid) s v = reset_account_tokens-IsValid s v uid
step-IsValid p (device_created uid key i) s v = create_device-IsValid s v uid key i
step-IsValid p (device_updated uid key i) s v = update_device-IsValid s v uid key i
step-IsValid p (device_deleted uid key) s v = delete_device-IsValid uid key s v
step-IsValid p (tokens_verified id uid) s v = verify_tokens-IsValid s v id uid
step-IsValid p (token_code_verified now code uid) s v =
    verify_token_code-IsValid s v p.create_hash now code uid
step-IsValid p (method_verified now id method) s v =
    verify_tokens_with_method-IsValid now id method s v
step-IsValid p (email_created uid e) s v = create_email-IsValid s v uid e
step-IsValid p (record_read email) s v = account_record-IsValid s v email
step-IsValid p (primary_set now uid email) s v = set_primary_email-IsValid s v now uid email
step-IsValid p (email_deleted now uid email) s v = delete_email-IsValid s v now uid email
step-IsValid p (bounced now b) s v = v
step-IsValid p (unblock_created now uid code) s v = v
step-IsValid p (unblock_consumed uid code) s v = consume_unblock_code-IsValid s v uid code
step-IsValid p (signin_created code uid t flow) s v = create_signin_code-IsValid s v code uid t flow
step-IsValid p (signin_consumed now code) s v =
    consume_signin_code-IsValid s v p.signin_codes_max_age now code
step-IsValid p (totp_created uid secret epoch) s v = create_totp_token-IsValid s v uid secret epoch
step-IsValid p (totp_updated now uid b c) s v = update_totp_token-IsValid s v now uid b c
step-IsValid p (totp_deleted now uid) s v = delete_totp_token-IsValid s v now uid
step-IsValid p (codes_replaced uid codes hashes) s v =
    replace_recovery_codes-IsValid s v uid codes hashes
step-IsValid p (code_consumed uid code) s v =
    consume_recovery_code-IsValid s v p.compare_hash uid code
step-IsValid p (key_created uid id d) s v = create_recovery_key-IsValid s v p.create_hash uid id d
step-IsValid p (key_deleted uid) s v = delete_recovery_key-IsValid s v uid
step-IsValid p (reminder_created now uid kind) s v =
    create_verification_reminder-IsValid s v now uid kind
step-IsValid p (reminder_deleted uid kind) s v = v
step-IsValid p (reminders_fetched now t kind limit) s v =
    fetch_reminders-IsValid s v now t kind limit
step-IsValid p (event_created now addr name uid id) s v = v

calls-IsValid : (p : Platform) (cs : List Call) (s : Store) → IsValid s → IsValid (run_calls p cs s)
unfolding run_calls
calls-IsValid p [] s v = v
calls-IsValid p (c ∷ cs) s v = calls-IsValid p cs (step p c s) (step-IsValid p c s v)

pub run_calls-IsValid : (p : Platform) (cs : List Call) → IsValid (run_calls p cs empty_store)
run_calls-IsValid p cs = calls-IsValid p cs empty_store empty_store-IsValid
