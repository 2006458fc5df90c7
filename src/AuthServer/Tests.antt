-- ===== src/AuthServer/Tests.antt =====
-- Runs of the parts of the auth server at concrete inputs.
use fxa_local_dev.Prelude.{
  ℕ, ◌+◌, ◌-◌, ◌*◌, ◌≤◌, ◌<◌, ◌≡◌, refl, true, false, none, some, [], ◌∷◌, arith,
}
use fxa_local_dev.Customs.IpRecord
use fxa_local_dev.Customs.IpRecord.{IpRecord}
use fxa_local_dev.Customs.Server.{Env, found, write_ip}
use fxa_local_dev.Customs.Server.Ban.{stored_ip}
use fxa_local_dev.Customs.Server.Check as CustomsCheck
use fxa_local_dev.Customs.Server.Events.{ban_ip, block_ip, handle_ban}
use fxa_local_dev.Customs.Tests.Samples.{env, empty_cache, limits, request, run_check}
use fxa_local_dev.AuthDb.Table.{get, put}
use fxa_local_dev.AuthDb.Store.{
  Account, EmailBounce, Store, UnverifiedToken, UserAgent, empty_store, is_set, ok,
}
use fxa_local_dev.AuthDb.Accounts.{create_account}
use fxa_local_dev.AuthDb.Tokens.{
  NewSession, Verification, create_session_token, new_session, unverified_session,
}
use fxa_local_dev.AuthDb.Emails.{create_email_bounce, fetch_email_bounces}
use fxa_local_dev.AuthDb.Reads.{session_token}
use fxa_local_dev.AuthDb.Verification.{map_verification_method_type, verify_tokens_with_method}
use fxa_local_dev.AuthDb.Steps.{Platform, account_created, run_calls, session_created, step}
use fxa_local_dev.AuthDb.Valid.Calls.{run_calls-IsValid}
use fxa_local_dev.AuthDb.Codes.{replace_recovery_codes, splice_match}
use fxa_local_dev.AuthServer.Tokens.{SessionToken as AuthToken}
use fxa_local_dev.AuthServer.CustomsClient.{let_through}
use fxa_local_dev.AuthServer.Db.{responds}
use fxa_local_dev.AuthServer.Routes.{session_verify_recovery_code}
use fxa_local_dev.AuthServer.Recovery.{session_verify_recovery_code_lem}
use fxa_local_dev.Prelude.{false, str_eq, List}
use fxa_local_dev.AuthDb.Store.{RecoveryCode, with_account}
use fxa_local_dev.AuthDb.Steps.{Call, codes_replaced}
use fxa_local_dev.AuthServer.Bounces.{BounceRules, check_bounces, email_bounced_hard, tier_at}
use fxa_local_dev.AuthServer.Tallies.{
  check-create_email_bounce, check_bounces_exact, too_young, made_at,
}
use fxa_local_dev.AuthServer.Tokens.{expired, new_password_token, ttl, verified}
use fxa_local_dev.AuthServer.Lifetimes.{expired_exact}
use fxa_local_dev.AuthServer.Assurance.{standing, standing-verify_tokens_with_method}
use fxa_local_dev.AuthServer.CustomsClient.{answered, check}
use fxa_local_dev.AuthServer.Blocked.{banned_rejected, wait_of}
use fxa_local_dev.AuthDb.Store.{PasswordForgotToken as StoredForgot}
use fxa_local_dev.AuthDb.Tokens.{create_password_forgot_token}
use fxa_local_dev.AuthServer.Db.{throws, unauthenticated}
use fxa_local_dev.AuthServer.Reset.{Attempt, forgot_verify_all, forgot_verify_code}
use fxa_local_dev.AuthServer.Guesses.{guesses_end}

-- The tiers of the default configuration.
abbrev rules : BounceRules
rules = record {
  hard_tiers = (0, 86_400_000) ∷ (1, 31_536_000_000) ∷ [];
  soft_tiers = (0, 300_000) ∷ [];
  complaint_tiers = (0, 86_400_000) ∷ (1, 31_536_000_000) ∷ [];
}

abbrev hard_bounce : EmailBounce
hard_bounce = record { created_at = 0; email = "a@b.c"; bounce_type = 1; bounce_sub_type = 3 }

-- Two bounces: the first day is over to the millisecond for the later, the year is not for the other.
check_bounces_exact_example :
    is_set (
      check_bounces true rules 86_401_000
        (record hard_bounce { created_at = 1_000 } ∷ record hard_bounce { created_at = 500 } ∷ []))
    ≡ true
unfolding too_young made_at
check_bounces_exact_example =
    check_bounces_exact rules 86_401_000 true
      (record hard_bounce { created_at = 1_000 } ∷ record hard_bounce { created_at = 500 } ∷ [])

check-create_email_bounce_example :
    check_bounces true rules 86_400_999
      (fetch_email_bounces "a@b.c" (create_email_bounce 1000 hard_bounce empty_store).1)
    ≡ some (email_bounced_hard 1000)
unfolding tier_at
check-create_email_bounce_example =
    check-create_email_bounce rules 86_400_999 1000 86_400_000 hard_bounce empty_store refl refl
      (omega arith) (omega arith)

expired_exact_example :
    (seconds : ℕ) × (ttl (new_password_token 900_000 none (some 1000)) (some 901_000) 901_000
      ≡ some seconds)
    × (expired (new_password_token 900_000 none (some 1000)) (some 901_000) 901_000 ≡ true)
    × (901_000 - 901_000 ≤ seconds * 1000)
    × (seconds * 1000 < 901_000 - 901_000 + 1000)
expired_exact_example =
    expired_exact 900_000 1000 901_000 none (omega arith) (omega arith) (omega arith)

abbrev platform : Platform
platform = record {
  create_hash = λ text. text;
  compare_hash = λ code c. false;
  signin_codes_max_age = 1000;
  is_v4_format = λ addr. true;
}

abbrev account : Account
account = record {
  email = "a@b.c";
  normalized_email = "a@b.c";
  email_code = "01";
  email_verified = true;
  verify_hash = "aa";
  auth_salt = "bb";
  wrap_wrap_kb = "cc";
  verifier_set_at = 5;
  verifier_version = 1;
  created_at = 5;
  locale = none;
  profile_changed_at = none;
  keys_changed_at = none;
  primary_email = none;
  devices = [];
}

abbrev agent : UserAgent
agent = record {
  browser = some "Firefox";
  browser_version = none;
  os = none;
  os_version = none;
  device_type = none;
  form_factor = none;
}

abbrev verification : Verification
verification = record {
  token_verification_id = "77";
  token_verification_code = none;
  token_verification_code_expires_at = none;
}

abbrev session : NewSession
session = record {
  token_data = "dd";
  uid = "a1";
  created_at = 6;
  agent = agent;
  must_verify = true;
  verification = some verification;
}

abbrev store : Store
store =
    run_calls platform (account_created "a1" account ∷ session_created "10" session ∷ [])
      empty_store

abbrev waiting : UnverifiedToken
waiting = record {
  must_verify = true;
  token_verification_id = "77";
  token_verification_code_hash = none;
  token_verification_code_expires_at = none;
  uid = "a1";
}

standing-verify_tokens_with_method_example :
    ((verify_tokens_with_method 9 "10" "totp-2fa" store).0 ≡ ok tt)
    × (standing 0 (session_token "10" (verify_tokens_with_method 9 "10" "totp-2fa" store).1).0
        ≡ ok (verified, some 2))
unfolding run_calls step create_account create_session_token get put empty_store new_session
    unverified_session map_verification_method_type
standing-verify_tokens_with_method_example =
    standing-verify_tokens_with_method 9 0 2 "10" "totp-2fa" (new_session session) account waiting
      store
      (run_calls-IsValid platform
        (account_created "a1" account ∷ session_created "10" session ∷ []))
      refl refl refl refl refl

banned_ip : IpRecord
banned_ip = IpRecord.block limits 1_000_000_000 (IpRecord.parse none)

abbrev after_ban : Env
after_ban = record env {
  now = 1_000_600_000;
  mc = record empty_cache { get_ip = λ key. found (stored_ip banned_ip) };
}

banned_rejected_example :
    0
    < wait_of (
        check false "a@b.c" "192.0.2.1" "accountCreate"
          (answered (CustomsCheck.check after_ban [] request).response))
unfolding run_check block_ip handle_ban ban_ip write_ip banned_ip IpRecord.get_min_lifetime_ms
banned_rejected_example =
    banned_rejected env after_ban [] request banned_ip 86_400_000 refl refl (omega arith)
      (omega arith) refl refl refl

abbrev code_one : RecoveryCode
code_one = record { code_hash = "h1"; salt = "s1" }

abbrev code_two : RecoveryCode
code_two = record { code_hash = "h2"; salt = "s2" }

abbrev with_codes : List Call
with_codes =
    account_created "a1" account
    ∷ codes_replaced "a1" [] (code_one ∷ code_two ∷ [])
    ∷ session_created "10" session
    ∷ []

abbrev code_store : Store
code_store = run_calls platform with_codes empty_store

abbrev credentials : AuthToken
credentials = record {
  token = record { uid = some "a1"; lifetime = none; created_at = 6 };
  auth_at = 6;
  must_verify = true;
  token_verification_id = some "77";
  token_verified = false;
  verification_method_value = none;
}

session_verify_recovery_code_lem_example :
    let result =
      session_verify_recovery_code
        (let_through false)
        (λ code c. str_eq c.code_hash code)
        9
        true
        "a1"
        "10"
        credentials
        "h2"
        code_store in
    (result.0 ≡ responds 1)
    × (standing 0 (session_token "10" result.1).0 ≡ ok (verified, some 2))
    × (get "a1" result.1.recovery_codes ≡ some (code_one ∷ []))
unfolding run_calls step create_account replace_recovery_codes create_session_token get put
    empty_store with_account new_session unverified_session splice_match
session_verify_recovery_code_lem_example =
    session_verify_recovery_code_lem (λ code c. str_eq c.code_hash code) 9 0 true false "10" "h2"
      credentials (code_one ∷ code_two ∷ []) (code_one ∷ []) (new_session session) account waiting
      code_store (run_calls-IsValid platform with_codes) refl refl refl refl refl refl refl

abbrev forgot : StoredForgot
forgot = record { token_data = "ff"; uid = "a1"; pass_code = "1234"; tries = 3; created_at = 10 }

abbrev attempt : Attempt
attempt = record {
  now = 1000;
  checked = let_through false;
  code = "0000";
  with_recovery_key = false;
  mailed = true;
  reset_token_id = "e1";
  reset_token_data = "ee";
}

abbrev suspicious_attempt : Attempt
suspicious_attempt = record attempt { checked = let_through true }

abbrev forgot_store : Store
forgot_store = (create_password_forgot_token "f1" forgot store).1

guesses_end_example :
    let after =
      forgot_verify_all 900_000 "f1" (attempt ∷ suspicious_attempt ∷ attempt ∷ []) forgot_store in
    (get "f1" after.password_forgot_tokens ≡ none)
    × (forgot_verify_code 900_000 "f1" (record attempt { code = "1234" }) after
        ≡ (throws unauthenticated, after))
unfolding run_calls step create_account create_session_token create_password_forgot_token get put
    empty_store new_session unverified_session expired ttl new_password_token
guesses_end_example =
    guesses_end 900_000 "f1" forgot account (attempt ∷ suspicious_attempt ∷ attempt ∷ [])
      (record attempt { code = "1234" }) forgot_store refl refl
      ((refl, (false, refl), refl), ((refl, (true, refl), refl), ((refl, (false, refl), refl), tt)))
      (omega arith) (omega arith)
