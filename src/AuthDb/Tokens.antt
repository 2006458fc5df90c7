-- ===== src/AuthDb/Tokens.antt =====
-- The methods of lib/db/mem.js that create, change and delete session tokens and the tokens of
-- passwords and keys. `create_hash` is the SHA-256 of lib/db/util.js.
use fxa_local_dev.Prelude.{ℕ, String, Bool, true, false, Option, none, some, if◌then◌else◌}
use fxa_local_dev.AuthDb.Table.{get, put, remove}
use fxa_local_dev.AuthDb.Store.{
  UserAgent, SessionToken, UnverifiedToken, KeyFetchToken, UserToken, PasswordForgotToken, Store,
  Answer, not_found, duplicate, done, reject, is_set,
}
use fxa_local_dev.AuthDb.Accounts.{delete_by_uid, verify_email}

-- What `createSessionToken` and `createKeyFetchToken` are given of the verification.
pub record Verification : Type 0 where
  pub token_verification_id : String
  pub token_verification_code : Option String
  pub token_verification_code_expires_at : Option ℕ

-- What `createSessionToken` is given; `verification` is missing if there is no
-- `tokenVerificationId`.
pub record NewSession : Type 0 where
  pub token_data : String
  pub uid : String
  pub created_at : ℕ
  pub agent : UserAgent
  pub must_verify : Bool
  pub verification : Option Verification

unfoldable pub new_session : NewSession → SessionToken
new_session t = record {
  token_data = t.token_data;
  uid = t.uid;
  created_at = t.created_at;
  agent = t.agent;
  last_access_time = t.created_at;
  must_verify = t.must_verify;
  auth_at = none;
  verification_method = none;
  verified_at = none;
  device_key = none;
}

module _ (create_hash : String → String) where
  unfoldable pub unverified_session : NewSession → Verification → UnverifiedToken
  unverified_session t v = record {
    must_verify = t.must_verify;
    token_verification_id = v.token_verification_id;
    token_verification_code_hash = elim v.token_verification_code [
      | none ↦ none
      | some code ↦ some (create_hash code)
    ];
    token_verification_code_expires_at = v.token_verification_code_expires_at;
    uid = t.uid;
  }

  unfoldable pub create_session_token : String → NewSession → Store → Answer (Unit {0})
  unfolding get put new_session unverified_session
  create_session_token token_id t s =
      if is_set (get token_id s.session_tokens)
      then reject duplicate s
      else done (record s {
        session_tokens = put token_id (new_session t) s.session_tokens;
        unverified_tokens = elim t.verification [
          | none ↦ s.unverified_tokens
          | some v ↦ put token_id (unverified_session t v) s.unverified_tokens
        ];
      })

-- `tokenVerificationId` is missing if the token needs no verification.
unfoldable pub create_key_fetch_token :
    String → KeyFetchToken → Option String → Store → Answer (Unit {0})
unfolding get put
create_key_fetch_token token_id t verification_id s =
    if is_set (get token_id s.key_fetch_tokens)
    then reject duplicate s
    else done (record s {
      key_fetch_tokens = put token_id t s.key_fetch_tokens;
      unverified_tokens = elim verification_id [
        | none ↦ s.unverified_tokens
        | some id ↦
            put token_id
              (record {
                must_verify = false;
                token_verification_id = id;
                token_verification_code_hash = none;
                token_verification_code_expires_at = none;
                uid = t.uid;
              })
              s.unverified_tokens
      ];
    })

unfoldable pub create_password_forgot_token :
    String → PasswordForgotToken → Store → Answer (Unit {0})
unfolding get put delete_by_uid
create_password_forgot_token token_id t s =
    if is_set (get token_id s.password_forgot_tokens)
    then reject duplicate s
    else done (record s {
      password_forgot_tokens =
          put token_id t (delete_by_uid (λ t'. t'.uid) t.uid s.password_forgot_tokens);
    })

unfoldable pub create_password_change_token : String → UserToken → Store → Answer (Unit {0})
unfolding get put delete_by_uid
create_password_change_token token_id t s =
    if is_set (get token_id s.password_change_tokens)
    then reject duplicate s
    else done (record s {
      password_change_tokens =
          put token_id t (delete_by_uid (λ t'. t'.uid) t.uid s.password_change_tokens);
    })

unfoldable pub delete_key_fetch_token : String → Store → Answer (Unit {0})
unfolding remove
delete_key_fetch_token token_id s = done (record s {
  unverified_tokens = remove token_id s.unverified_tokens;
  key_fetch_tokens = remove token_id s.key_fetch_tokens;
})

unfoldable pub delete_account_reset_token : String → Store → Answer (Unit {0})
unfolding remove
delete_account_reset_token token_id s =
    done (record s { account_reset_tokens = remove token_id s.account_reset_tokens })

unfoldable pub delete_password_forgot_token : String → Store → Answer (Unit {0})
unfolding remove
delete_password_forgot_token token_id s =
    done (record s { password_forgot_tokens = remove token_id s.password_forgot_tokens })

unfoldable pub delete_password_change_token : String → Store → Answer (Unit {0})
unfolding remove
delete_password_change_token token_id s =
    done (record s { password_change_tokens = remove token_id s.password_change_tokens })

unfoldable pub reset_account_tokens : String → Store → Answer (Unit {0})
unfolding delete_by_uid
reset_account_tokens uid s = done (record s {
  account_reset_tokens = delete_by_uid (λ t. t.uid) uid s.account_reset_tokens;
  password_change_tokens = delete_by_uid (λ t. t.uid) uid s.password_change_tokens;
  password_forgot_tokens = delete_by_uid (λ t. t.uid) uid s.password_forgot_tokens;
})

-- `createAccountResetToken` of `forgotPasswordVerified`
unfoldable pub create_account_reset_token : String → UserToken → Store → Store
unfolding delete_by_uid put
create_account_reset_token token_id t s = record s {
  account_reset_tokens = put token_id t (delete_by_uid (λ t'. t'.uid) t.uid s.account_reset_tokens);
}

-- `forgotPasswordVerified`: none of its three parts can fail.
unfoldable pub forgot_password_verified :
    ℕ → String → String → UserToken → Store → Answer (Unit {0})
unfolding delete_password_forgot_token create_account_reset_token verify_email
forgot_password_verified now token_id reset_token_id t s =
    verify_email now t.uid none
      (create_account_reset_token reset_token_id t (delete_password_forgot_token token_id s).1)

unfoldable pub update_password_forgot_token : String → ℕ → Store → Answer (Unit {0})
unfolding get put
update_password_forgot_token token_id tries s = elim (get token_id s.password_forgot_tokens) [
  | none ↦ reject not_found s
  | some t ↦ done (record s {
    password_forgot_tokens = put token_id (record t { tries = tries }) s.password_forgot_tokens;
  })
]

-- The `data` of `updateSessionToken`, which `Object.assign` copies field by field.
pub record SessionUpdate : Type 0 where
  pub agent : Option UserAgent
  pub last_access_time : Option ℕ
  pub auth_at : Option ℕ
  pub must_verify : Option Bool

abbrev pub assign {ℓ} : {A : Type ℓ} → A → Option A → A
assign a none = a
assign a (some b) = b

unfoldable pub update_session_token : String → SessionUpdate → Store → Answer (Unit {0})
unfolding get put
update_session_token token_id u s = elim (get token_id s.session_tokens) [
  | none ↦ reject not_found s
  | some t ↦ done (record s {
    session_tokens =
        put token_id
          (record t {
            agent = assign t.agent u.agent;
            last_access_time = assign t.last_access_time u.last_access_time;
            auth_at = elim u.auth_at [ none ↦ t.auth_at | some at ↦ some at ];
            must_verify = assign t.must_verify u.must_verify;
          })
          s.session_tokens;
    unverified_tokens = elim (get token_id s.unverified_tokens) [
      | none ↦ s.unverified_tokens
      | some w ↦
          if assign false u.must_verify
          then put token_id (record w { must_verify = true }) s.unverified_tokens
          else s.unverified_tokens
    ];
  })
]
