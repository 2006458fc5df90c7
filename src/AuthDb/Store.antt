-- ===== src/AuthDb/Store.antt =====
-- The data that lib/db/mem.js keeps. Buffers are their hexadecimal texts; an object that a caller
-- hands over has the fields that some method reads; a field that may be missing is an `Option`.
use fxa_local_dev.Prelude.{
  ℕ, String, Bool, true, false, Option, none, some, List, [], ◌==◌, if◌then◌else◌,
}
use fxa_local_dev.AuthDb.Table.{Table, get}

-- `SESSION_DEVICE_FIELDS`, but for `lastAccessTime`
pub record UserAgent : Type 0 where
  pub browser : Option String
  pub browser_version : Option String
  pub os : Option String
  pub os_version : Option String
  pub device_type : Option String
  pub form_factor : Option String

-- `DEVICE_FIELDS`, and what `updateDeviceRecord` adds from the session. `null` is `none`.
pub record Device : Type 0 where
  pub id : String
  pub session_token_id : Option String
  pub refresh_token_id : Option String
  pub name : Option String
  pub kind : Option String
  pub created_at : Option ℕ
  pub callback_url : Option String
  pub callback_public_key : Option String
  pub callback_auth_key : Option String
  pub callback_is_expired : Option Bool
  pub available_commands : Option String
  pub agent : Option UserAgent
  pub last_access_time : Option ℕ

pub record Account : Type 0 where
  pub email : String
  pub normalized_email : String
  pub email_code : String
  pub email_verified : Bool
  pub verify_hash : String
  pub auth_salt : String
  pub wrap_wrap_kb : String
  pub verifier_set_at : ℕ
  pub verifier_version : ℕ
  pub created_at : ℕ
  pub locale : Option String
  pub profile_changed_at : Option ℕ
  pub keys_changed_at : Option ℕ
  pub primary_email : Option String
  pub devices : Table Device

pub record SessionToken : Type 0 where
  pub token_data : String
  pub uid : String
  pub created_at : ℕ
  pub agent : UserAgent
  pub last_access_time : ℕ
  pub must_verify : Bool
  pub auth_at : Option ℕ
  pub verification_method : Option ℕ
  pub verified_at : Option ℕ
  pub device_key : Option String

pub record UnverifiedToken : Type 0 where
  pub must_verify : Bool
  pub token_verification_id : String
  pub token_verification_code_hash : Option String
  pub token_verification_code_expires_at : Option ℕ
  pub uid : String

pub record KeyFetchToken : Type 0 where
  pub auth_key : String
  pub uid : String
  pub key_bundle : String
  pub created_at : ℕ

-- A token of `passwordChangeTokens` or `accountResetTokens`.
pub record UserToken : Type 0 where
  pub token_data : String
  pub uid : String
  pub created_at : ℕ

pub record PasswordForgotToken : Type 0 where
  pub token_data : String
  pub uid : String
  pub pass_code : String
  pub tries : ℕ
  pub created_at : ℕ

pub record EmailEntry : Type 0 where
  pub created_at : ℕ
  pub email : String
  pub email_code : String
  pub normalized_email : String
  pub is_primary : Bool
  pub is_verified : Bool
  pub uid : String

pub record SigninCode : Type 0 where
  pub uid : String
  pub created_at : ℕ
  pub flow_id : Option String

pub record TotpToken : Type 0 where
  pub shared_secret : String
  pub epoch : ℕ
  pub verified : Bool
  pub enabled : Bool

pub record RecoveryCode : Type 0 where
  pub code_hash : String
  pub salt : String

pub record RecoveryKey : Type 0 where
  pub uid : String
  pub recovery_key_id_hash : String
  pub recovery_data : String

pub record Reminder : Type 0 where
  pub uid : String
  pub kind : String
  pub created_at : ℕ

pub record SecurityEvent : Type 0 where
  pub created_at : ℕ
  pub ip_addr : String
  pub name : String
  pub uid : String
  pub token_id : Option String
  pub verified : Bool

pub record EmailBounce : Type 0 where
  pub created_at : ℕ
  pub email : String
  pub bounce_type : ℕ
  pub bounce_sub_type : ℕ

-- The variables at the top of the file. A row of `unblockCodes` that was set to `null` is the empty
-- table: both hold no code.
pub record Store : Type 0 where
  pub accounts : Table Account
  pub uid_by_normalized_email : Table String
  pub session_tokens : Table SessionToken
  pub key_fetch_tokens : Table KeyFetchToken
  pub unverified_tokens : Table UnverifiedToken
  pub account_reset_tokens : Table UserToken
  pub password_change_tokens : Table UserToken
  pub password_forgot_tokens : Table PasswordForgotToken
  pub reminders : Table Reminder
  pub security_events : Table (List SecurityEvent)
  pub unblock_codes : Table (Table ℕ)
  pub email_bounces : Table (List EmailBounce)
  pub emails : Table EmailEntry
  pub signin_codes : Table SigninCode
  pub totp_tokens : Table TotpToken
  pub recovery_codes : Table (List RecoveryCode)
  pub recovery_keys : Table RecoveryKey
  pub devices_by_refresh_token_id : Table String

unfoldable pub empty_store : Store
empty_store = record {
  accounts = [];
  uid_by_normalized_email = [];
  session_tokens = [];
  key_fetch_tokens = [];
  unverified_tokens = [];
  account_reset_tokens = [];
  password_change_tokens = [];
  password_forgot_tokens = [];
  reminders = [];
  security_events = [];
  unblock_codes = [];
  email_bounces = [];
  emails = [];
  signin_codes = [];
  totp_tokens = [];
  recovery_codes = [];
  recovery_keys = [];
  devices_by_refresh_token_id = [];
}

-- The errors of db-server/lib/error.js that the store throws. `invalid_request` is a thrown check of arguments,
-- `type_error` the access to a field of `undefined`.
pub data Error : Type 0 where
  not_found duplicate incorrect_password expired_token_verification_code : Error
  cannot_delete_primary_email invalid_verification_method recovery_key_invalid : Error
  invalid_request type_error : Error

-- What the promise of a method comes to, and the store then.
pub data Reply (A : Type 0) : Type 0 where
  ok : A → Reply A
  err : Error → Reply A

abbrev pub Answer : Type 0 → Type 0
Answer A = Reply A × Store

-- `P.resolve({})`
abbrev pub done : Store → Answer (Unit {0})
done s = (ok tt, s)

abbrev pub reject : {A : Type 0} → Error → Store → Answer A
reject e s = (err e, s)

-- `getAccountByUid(uid).then(...)`
unfoldable pub with_account : {A : Type 0} → String → Store → (Account → Answer A) → Answer A
with_account uid s f = elim (get uid s.accounts) [ none ↦ reject not_found s | some a ↦ f a ]

-- `a || b` on times: `undefined` and 0 are falsy.
abbrev pub or_else : Option ℕ → ℕ → ℕ
or_else none d = d
or_else (some t) d = if t == 0 then d else t

-- `!! value`
abbrev pub is_set {ℓ} : {A : Type ℓ} → Option A → Bool
is_set none = false
is_set (some a) = true
