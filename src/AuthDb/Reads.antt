-- ===== src/AuthDb/Reads.antt =====
-- The methods of lib/db/mem.js that read tokens and addresses.
use fxa_local_dev.Prelude.{
  ℕ, String, Bool, true, false, ◌&&◌, ◌||◌, not, Option, none, some, List, [], ◌∷◌, ◌++◌, ◌==◌,
  str_eq, if◌then◌else◌,
}
use fxa_local_dev.AuthDb.Table.{Table, get}
use fxa_local_dev.AuthDb.Store.{
  UserAgent, Device, Account, SessionToken, UnverifiedToken, KeyFetchToken, UserToken,
  PasswordForgotToken, EmailEntry, Store, Answer, ok, err, not_found, type_error, reject, or_else,
}
use fxa_local_dev.AuthDb.Devices.{account_devices, find_device, is_key}

-- `accountEmails`: the entries of the account, the primary ones first. (`sort` is stable.)
unfoldable pub entries_of : String → Bool → Table EmailEntry → List EmailEntry
entries_of uid primary [] = []
entries_of uid primary ((k, e) ∷ m) =
    let rest = entries_of uid primary m in
    if str_eq e.uid uid && (if primary then e.is_primary else not e.is_primary)
    then e ∷ rest
    else rest

unfoldable pub account_emails : String → Store → List EmailEntry
unfolding entries_of
account_emails uid s = entries_of uid true s.emails ++ entries_of uid false s.emails

-- `emails.some(email => email.isPrimary)`, as the entry found
unfoldable pub primary_of : List EmailEntry → Option EmailEntry
primary_of [] = none
primary_of (e ∷ es) = if e.is_primary then some e else primary_of es

-- `text || null`
abbrev or_null_text : Option String → Option String
or_null_text none = none
or_null_text (some text) = if str_eq text "" then none else some text

unfoldable pub shown_agent : UserAgent → UserAgent
shown_agent a = record {
  browser = or_null_text a.browser;
  browser_version = or_null_text a.browser_version;
  os = or_null_text a.os;
  os_version = or_null_text a.os_version;
  device_type = or_null_text a.device_type;
  form_factor = or_null_text a.form_factor;
}

-- What `sessionToken` returns; `device` stands for the fields `device…`.
pub record SessionItem : Type 0 where
  pub token_data : String
  pub uid : String
  pub created_at : ℕ
  pub agent : UserAgent
  pub last_access_time : ℕ
  pub auth_at : ℕ
  pub verification_method : Option ℕ
  pub verified_at : Option ℕ
  pub must_verify : Bool
  pub verifier_set_at : ℕ
  pub profile_changed_at : ℕ
  pub keys_changed_at : ℕ
  pub locale : Option String
  pub account_created_at : ℕ
  pub token_verification_id : Option String
  pub token_verification_code_hash : Option String
  pub token_verification_code_expires_at : Option ℕ
  pub primary : Option EmailEntry
  pub device : Option Device

-- `value || null` on a number: 0 becomes `null`.
abbrev or_null : Option ℕ → Option ℕ
or_null none = none
or_null (some t) = if t == 0 then none else some t

unfoldable pub session_item :
    String → SessionToken → Account → Option UnverifiedToken → Store → SessionItem
unfolding shown_agent account_emails primary_of account_devices find_device
session_item id t a w s = record {
  token_data = t.token_data;
  uid = t.uid;
  created_at = t.created_at;
  agent = shown_agent t.agent;
  last_access_time = t.last_access_time;
  auth_at = or_else t.auth_at t.created_at;
  verification_method = or_null t.verification_method;
  verified_at = or_null t.verified_at;
  must_verify = t.must_verify || (elim w [ none ↦ false | some w ↦ w.must_verify ]);
  verifier_set_at = a.verifier_set_at;
  profile_changed_at = or_else a.profile_changed_at (or_else (some a.verifier_set_at) a.created_at);
  keys_changed_at = or_else a.keys_changed_at (or_else (some a.verifier_set_at) a.created_at);
  locale = a.locale;
  account_created_at = a.created_at;
  token_verification_id = elim w [ none ↦ none | some w ↦ some w.token_verification_id ];
  token_verification_code_hash = elim w [ none ↦ none | some w ↦ w.token_verification_code_hash ];
  token_verification_code_expires_at = elim w [
    | none ↦ none
    | some w ↦ w.token_verification_code_expires_at
  ];
  primary = primary_of (account_emails t.uid s);
  device = find_device (λ d. is_key d.session_token_id id) (account_devices t.uid s);
}

-- A session whose account is gone gives a TypeError.
unfoldable pub session_token : String → Store → Answer SessionItem
unfolding get session_item
session_token id s = elim (get id s.session_tokens) [
  | none ↦ reject not_found s
  | some t ↦ elim (get t.uid s.accounts) [
    | none ↦ reject type_error s
    | some a ↦ (ok (session_item id t a (get id s.unverified_tokens) s), s)
  ]
]

-- One entry of what `sessions` returns; `device` stands for the fields `device…`.
pub record SessionEntry : Type 0 where
  pub token_id : String
  pub uid : String
  pub created_at : ℕ
  pub agent : UserAgent
  pub last_access_time : ℕ
  pub auth_at : ℕ
  pub device : Option Device

unfoldable pub entries_of_sessions : String → List Device → Table SessionToken → List SessionEntry
unfolding shown_agent find_device
entries_of_sessions uid devices [] = []
entries_of_sessions uid devices ((k, t) ∷ m) =
    let rest = entries_of_sessions uid devices m in
    if str_eq t.uid uid
    then record {
      token_id = k;
      uid = t.uid;
      created_at = t.created_at;
      agent = shown_agent t.agent;
      last_access_time = t.last_access_time;
      auth_at = or_else t.auth_at t.created_at;
      device = find_device (λ d. is_key d.session_token_id k) devices;
    }
      ∷ rest
    else rest

unfoldable pub sessions : String → Store → List SessionEntry
unfolding account_devices entries_of_sessions
sessions uid s = entries_of_sessions uid (account_devices uid s) s.session_tokens

-- What `keyFetchToken` and the readers of the password tokens return: the token, and of its account
-- what they add.
pub record TokenItem (T : Type 0) : Type 0 where
  pub token : T
  pub email : String
  pub email_verified : Bool
  pub verifier_set_at : ℕ

-- The shape of these readers: the token or `notFound`, then the account or a TypeError.
unfoldable pub read_token :
    {T : Type 0} → (T → String) → String → Table T → Store → Answer (TokenItem T)
unfolding get
read_token uid_of id tokens s = elim (get id tokens) [
  | none ↦ reject not_found s
  | some t ↦ elim (get (uid_of t) s.accounts) [
    | none ↦ reject type_error s
    | some a ↦ (
      ok (record {
        token = t;
        email = a.email;
        email_verified = a.email_verified;
        verifier_set_at = a.verifier_set_at;
      }),
      s,
    )
  ]
]

unfoldable pub key_fetch_token : String → Store → Answer (TokenItem KeyFetchToken)
unfolding read_token
key_fetch_token id s = read_token (λ t. t.uid) id s.key_fetch_tokens s

-- `keyFetchTokenWithVerificationStatus`
unfoldable pub key_fetch_token_with_status :
    String → Store → Answer (TokenItem KeyFetchToken × Option String)
unfolding key_fetch_token get
key_fetch_token_with_status id s = elim (key_fetch_token id s).0 [
  | err e ↦ reject e s
  | ok item ↦ (
    ok (
      item,
      (elim (get id s.unverified_tokens) [ none ↦ none | some w ↦ some w.token_verification_id ]),
    ),
    s,
  )
]

unfoldable pub password_forgot_token : String → Store → Answer (TokenItem PasswordForgotToken)
unfolding read_token
password_forgot_token id s = read_token (λ t. t.uid) id s.password_forgot_tokens s

unfoldable pub password_change_token : String → Store → Answer (TokenItem UserToken)
unfolding read_token
password_change_token id s = read_token (λ t. t.uid) id s.password_change_tokens s

unfoldable pub account_reset_token : String → Store → Answer (TokenItem UserToken)
unfolding read_token
account_reset_token id s = read_token (λ t. t.uid) id s.account_reset_tokens s
