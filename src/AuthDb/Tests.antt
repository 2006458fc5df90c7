-- ===== src/AuthDb/Tests.antt =====
-- Runs of the store of lib/db/mem.js on concrete accounts.
use fxa_local_dev.Prelude.{
  String, ◌≡◌, refl, true, false, not, none, some, List, [], ◌∷◌, str_eq, if◌then◌else◌,
}
use fxa_local_dev.AuthDb.Table.{any, get, put}
use fxa_local_dev.AuthDb.Table.Laws.{changed, only}
use fxa_local_dev.AuthDb.Store.{
  Account, EmailEntry, Store, UserAgent, empty_store, err, not_found, ok,
}
use fxa_local_dev.AuthDb.Accounts.{ResetData, create_account, delete_account}
use fxa_local_dev.AuthDb.Tokens.{NewSession, Verification, create_session_token, new_session}
use fxa_local_dev.AuthDb.Devices.{delete_session_token}
use fxa_local_dev.AuthDb.Reads.{session_token}
use fxa_local_dev.AuthDb.Verification.{verify_tokens}
use fxa_local_dev.AuthDb.Emails.{create_email, is_account_email, set_primary_email}
use fxa_local_dev.AuthDb.Codes.{consume_signin_code, create_signin_code}
use fxa_local_dev.AuthDb.Steps.{
  Call, Platform, account_created, email_created, run_calls, session_created, step,
}
use fxa_local_dev.AuthDb.Valid.{IsValid}
use fxa_local_dev.AuthDb.Valid.Calls.{run_calls-IsValid}
use fxa_local_dev.AuthDb.Deletion.{create-delete}
use fxa_local_dev.Prelude.{str_eq}
use fxa_local_dev.AuthDb.Unverified.{is_named, named_in, verify_tokens_lem}
use fxa_local_dev.AuthDb.Sessions.{verification_shown, verify-create_session}
use fxa_local_dev.AuthDb.OneTime.{consume-create_signin_code}
use fxa_local_dev.AuthDb.Primary.{chosen, set_primary_email_lem}

abbrev platform : Platform
platform = record {
  create_hash = λ text. text;
  compare_hash = λ code c. str_eq c.code_hash code;
  signin_codes_max_age = 1000;
  is_v4_format = λ addr. true;
}

abbrev new_account : String → String → Account
new_account email code = record {
  email = email;
  normalized_email = email;
  email_code = code;
  email_verified = true;
  verify_hash = "aa";
  auth_salt = "bb";
  wrap_wrap_kb = "cc";
  verifier_set_at = 5;
  verifier_version = 1;
  created_at = 5;
  locale = some "en";
  profile_changed_at = none;
  keys_changed_at = none;
  primary_email = none;
  devices = [];
}

abbrev ann : Account
ann = new_account "ann@example.org" "01"

abbrev bob : Account
bob = new_account "bob@example.org" "02"

abbrev agent : UserAgent
agent = record {
  browser = some "Firefox";
  browser_version = none;
  os = none;
  os_version = none;
  device_type = none;
  form_factor = none;
}

abbrev id_of_ann : Verification
id_of_ann = record {
  token_verification_id = "77";
  token_verification_code = none;
  token_verification_code_expires_at = none;
}

abbrev session_of : String → NewSession
session_of uid = record {
  token_data = "dd";
  uid = uid;
  created_at = 6;
  agent = agent;
  must_verify = true;
  verification = some id_of_ann;
}

abbrev second : EmailEntry
second = record {
  created_at = 7;
  email = "ann@example.com";
  email_code = "03";
  normalized_email = "ann@example.com";
  is_primary = false;
  is_verified = true;
  uid = "a1";
}

abbrev calls : List Call
calls =
    account_created "a1" ann
    ∷ account_created "b2" bob
    ∷ email_created "a1" second
    ∷ session_created "10" (session_of "a1")
    ∷ session_created "20" (session_of "b2")
    ∷ []

abbrev store : Store
store = run_calls platform calls empty_store

store-IsValid : IsValid store
store-IsValid = run_calls-IsValid platform calls

run_calls-IsValid_example : IsValid store
run_calls-IsValid_example = run_calls-IsValid platform calls

store-ann : get "a1" store.accounts ≡ some ann
unfolding run_calls step create_account create_email create_session_token get put empty_store
store-ann = refl

create-delete_example : (create_account "a1" ann (delete_account "a1" store).1).0 ≡ ok tt
create-delete_example = create-delete "a1" ann ann store store-IsValid store-ann refl

store-session : get "20" store.session_tokens ≡ some (new_session (session_of "b2"))
unfolding run_calls step create_account create_email create_session_token get put empty_store
    is_account_email any
store-session = refl

abbrev new_password : ResetData
new_password = record {
  verify_hash = "ee";
  auth_salt = "ff";
  wrap_wrap_kb = "00";
  verifier_set_at = 9;
  verifier_version = 1;
}

-- The session of another account waits for the same id.
verify_tokens_lem_example :
    ((verify_tokens "77" "a1" store).0
      ≡ (if named_in "77" "a1" store.unverified_tokens then ok tt else err not_found))
    × ((if named_in "77" "a1" store.unverified_tokens
          then store
          else (verify_tokens "77" "a1" store).1)
        ≡ store)
    × (get "20" (verify_tokens "77" "a1" store).1.unverified_tokens
        ≡ only (λ w. not (is_named "77" "a1" w)) (get "20" store.unverified_tokens))
verify_tokens_lem_example = verify_tokens_lem "77" "a1" store "20" store-IsValid

store-new : get "30" store.session_tokens ≡ none
unfolding run_calls step create_account create_email create_session_token get put empty_store
    is_account_email any
store-new = refl

verify-create_session_example :
    let s1 = (create_session_token (λ x. x) "30" (session_of "a1") store).1 in
    let verified = verify_tokens "77" "a1" s1 in
    (verification_shown (session_token "30" s1).0 ≡ ok (some "77"))
    × (verified.0 ≡ ok tt)
    × (verification_shown (session_token "30" verified.1).0 ≡ ok none)
    × (verification_shown (session_token "30" (delete_session_token "30" verified.1).1).0
        ≡ err not_found)
verify-create_session_example =
    verify-create_session (λ x. x) "30" (session_of "a1") id_of_ann store ann store-IsValid refl
      store-new store-ann

store-code : get "c0de" store.signin_codes ≡ none
unfolding run_calls step create_account create_email create_session_token get put empty_store
    is_account_email any
store-code = refl

consume-create_signin_code_example :
    let s1 = (create_signin_code "c0de" "a1" 50 (some "f1") store).1 in
    let used = consume_signin_code 1000 1049 "c0de" s1 in
    (used.0 ≡ ok ("ann@example.org", some "f1"))
    × ((consume_signin_code 1000 1049 "c0de" used.1).0 ≡ err not_found)
consume-create_signin_code_example =
    consume-create_signin_code 1000 1049 50 "c0de" "a1" (some "f1") ann store store-code store-ann

store-second : get "ann@example.com" store.emails ≡ some second
unfolding run_calls step create_account create_email create_session_token get put empty_store
    is_account_email any
store-second = refl

set_primary_email_lem_example :
    ((set_primary_email 8 "a1" "ann@example.com" store).0 ≡ ok tt)
    × (get "ann@example.org" (set_primary_email 8 "a1" "ann@example.com" store).1.emails
        ≡ changed
            (chosen "a1" "ann@example.com" "ann@example.org")
            (get "ann@example.org" store.emails))
set_primary_email_lem_example =
    set_primary_email_lem 8 "a1" "ann@example.com" "ann@example.org" second ann store store-second
      store-ann
