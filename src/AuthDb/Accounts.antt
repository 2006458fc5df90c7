-- ===== src/AuthDb/Accounts.antt =====
-- The methods of lib/db/mem.js on accounts.
use fxa_local_dev.Prelude.{
  ℕ, String, Bool, true, false, ◌&&◌, ◌||◌, not, Option, none, some, [], ◌∷◌, str_eq, if◌then◌else◌,
}
use fxa_local_dev.AuthDb.Table.{Table, get, put, keep, remove}
use fxa_local_dev.AuthDb.Store.{
  Account, EmailEntry, Store, Answer, ok, not_found, duplicate, incorrect_password, done, reject,
  with_account, or_else, is_set,
}

-- `deleteByUid`: every item has a uid.
unfoldable pub delete_by_uid {ℓ} : {V : Type ℓ} → (V → String) → String → Table V → Table V
unfolding keep
delete_by_uid uid_of uid = keep (λ k v. not (str_eq (uid_of v) uid))

-- What `createAccount` is given; a new account has no devices.
unfoldable pub create_account : String → Account → Store → Answer (Unit {0})
unfolding get put
create_account uid account s =
    if is_set (get uid s.accounts)
      || is_set (get account.normalized_email s.emails)
      || is_set (get account.normalized_email s.uid_by_normalized_email)
    then reject duplicate s
    else done (record s {
      accounts = put uid (record account { devices = [] }) s.accounts;
      uid_by_normalized_email = put account.normalized_email uid s.uid_by_normalized_email;
      emails =
          put account.normalized_email
            (record {
              created_at = account.created_at;
              email = account.email;
              email_code = account.email_code;
              normalized_email = account.normalized_email;
              is_primary = true;
              is_verified = account.email_verified;
              uid = uid;
            })
            s.emails;
    })

-- What `filterAccount` returns, as far as clients read it.
pub record AccountItem : Type 0 where
  pub email : String
  pub normalized_email : String
  pub email_verified : Bool
  pub verifier_set_at : ℕ
  pub created_at : ℕ
  pub locale : Option String
  pub profile_changed_at : ℕ
  pub keys_changed_at : ℕ

unfoldable pub filter_account : Account → AccountItem
filter_account a = record {
  email = a.email;
  normalized_email = a.normalized_email;
  email_verified = a.email_verified;
  verifier_set_at = a.verifier_set_at;
  created_at = a.created_at;
  locale = a.locale;
  profile_changed_at = or_else a.profile_changed_at (or_else (some a.verifier_set_at) a.created_at);
  keys_changed_at = or_else a.keys_changed_at (or_else (some a.verifier_set_at) a.created_at);
}

unfoldable pub account : String → Store → Answer AccountItem
unfolding with_account filter_account
account uid s = with_account uid s (λ a. (ok (filter_account a), s))

-- `emailRecord`, of an email in lower case
unfoldable pub email_record : String → Store → Answer AccountItem
unfolding with_account filter_account get
email_record email s = elim (get email s.uid_by_normalized_email) [
  | none ↦ reject not_found s
  | some uid ↦ with_account uid s (λ a. (ok (record (filter_account a) { locale = none }), s))
]

unfoldable pub account_exists : String → Store → Answer (Unit {0})
unfolding get
account_exists email s =
    if is_set (get email s.uid_by_normalized_email) then done s else reject not_found s

unfoldable pub check_password : String → String → Store → Answer String
unfolding get
check_password uid verify_hash s = elim (get uid s.accounts) [
  | none ↦ reject incorrect_password s
  | some a ↦ if str_eq a.verify_hash verify_hash then (ok uid, s) else reject incorrect_password s
]

-- The deletions that `resetAccount` and `deleteAccount` begin with.
unfoldable pub delete_tokens : String → Store → Store
unfolding delete_by_uid
delete_tokens uid s = record s {
  session_tokens = delete_by_uid (λ t. t.uid) uid s.session_tokens;
  key_fetch_tokens = delete_by_uid (λ t. t.uid) uid s.key_fetch_tokens;
  account_reset_tokens = delete_by_uid (λ t. t.uid) uid s.account_reset_tokens;
  password_change_tokens = delete_by_uid (λ t. t.uid) uid s.password_change_tokens;
  password_forgot_tokens = delete_by_uid (λ t. t.uid) uid s.password_forgot_tokens;
  unverified_tokens = delete_by_uid (λ t. t.uid) uid s.unverified_tokens;
}

pub record ResetData : Type 0 where
  pub verify_hash : String
  pub auth_salt : String
  pub wrap_wrap_kb : String
  pub verifier_set_at : ℕ
  pub verifier_version : ℕ

unfoldable pub reset_account : String → ResetData → Store → Answer (Unit {0})
unfolding with_account delete_tokens put
reset_account uid new s = with_account uid s (λ a.
    let s' = delete_tokens uid s in
    done (record s' {
      accounts =
          put uid
            (record a {
              verify_hash = new.verify_hash;
              auth_salt = new.auth_salt;
              wrap_wrap_kb = new.wrap_wrap_kb;
              verifier_set_at = new.verifier_set_at;
              verifier_version = new.verifier_version;
              profile_changed_at = some new.verifier_set_at;
              devices = [];
            })
            s.accounts;
    }))

unfoldable pub delete_account : String → Store → Answer (Unit {0})
unfolding with_account delete_tokens delete_by_uid remove
delete_account uid s = with_account uid s (λ a.
    let s' = delete_tokens uid s in
    done (record s' {
      emails = delete_by_uid (λ e. e.uid) uid s.emails;
      signin_codes = delete_by_uid (λ c. c.uid) uid s.signin_codes;
      uid_by_normalized_email = remove a.normalized_email s.uid_by_normalized_email;
      accounts = remove uid s.accounts;
      totp_tokens = remove uid s.totp_tokens;
      recovery_codes = remove uid s.recovery_codes;
      recovery_keys = remove uid s.recovery_keys;
      security_events = remove uid s.security_events;
    }))

unfoldable pub update_locale : String → Option String → Store → Answer (Unit {0})
unfolding with_account put
update_locale uid locale s =
    with_account uid s
      (λ a. done (record s { accounts = put uid (record a { locale = locale }) s.accounts }))

-- The loop of `verifyEmail` over `emails`: the first entry of the account with the code is verified.
unfoldable pub verify_entry : String → String → Table EmailEntry → Option (Table EmailEntry)
verify_entry uid code [] = none
verify_entry uid code ((k, e) ∷ m) = elim (str_eq uid e.uid && str_eq e.email_code code) [
  | true ↦ some ((k, record e { is_verified = true }) ∷ m)
  | false ↦ elim (verify_entry uid code m) [ none ↦ none | some m' ↦ some ((k, e) ∷ m') ]
]

-- `verifyEmail`; without a code it is the account's own. The account is changed in place.
unfoldable pub verify_email : ℕ → String → Option String → Store → Answer (Unit {0})
unfolding get put verify_entry
verify_email now uid email_code s = elim (get uid s.accounts) [
  | none ↦ done s
  | some a ↦
      let code : String = elim email_code [ none ↦ a.email_code | some c ↦ c ] in
      let a' = record a { email_verified = str_eq a.email_code code || a.email_verified } in
      elim (verify_entry uid code s.emails) [
        | none ↦ done (record s { accounts = put uid a' s.accounts })
        | some emails ↦ done (record s {
          accounts = put uid (record a' { profile_changed_at = some now }) s.accounts;
          emails = emails;
        })
      ]
]
