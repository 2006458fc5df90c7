-- ===== src/AuthServer/Tokens.antt =====
-- lib/tokens of fxa-auth-server: the lifetimes of tokens, and what a session token says of its
-- verification. The derivation of the keys from the seed is not modelled.
use fxa_local_dev.Prelude.{
  ℕ, ◌+◌, ◌-◌, ◌/◌, String, Bool, false, not, Option, none, some, List, [], ◌∷◌, ltb, ◌==◌,
  if◌then◌else◌,
}
use fxa_local_dev.AuthDb.Store.{is_set, or_else}
use fxa_local_dev.AuthDb.Reads.{SessionItem}
use fxa_local_dev.AuthServer.AuthMethods.{
  Amr, email, maximum_assurance_level, pwd, verification_method_to_amr,
}

-- The fields of `Token` but for the keys; the lifetime `Infinity` is `none`.
pub record Token : Type 0 where
  pub uid : Option String
  pub lifetime : Option ℕ
  pub created_at : ℕ

-- `details.lifetime || Infinity`
abbrev pub lifetime_or_infinity : Option ℕ → Option ℕ
lifetime_or_infinity none = none
lifetime_or_infinity (some t) = if t == 0 then none else some t

-- `Token`, of the details that it reads
unfoldable pub new_token : Option String → Option ℕ → Option ℕ → Token
new_token uid lifetime created_at = record {
  uid = uid;
  lifetime = lifetime_or_infinity lifetime;
  created_at = or_else created_at 0;
}

-- `asOf || Date.now()`
abbrev pub as_of_or_now : Option ℕ → ℕ → ℕ
as_of_or_now = or_else

-- `Math.max(Math.ceil((lifetime - (asOf - createdAt)) / 1000), 0)`, where `none` is `Infinity`
unfoldable pub ttl : Token → Option ℕ → ℕ → Option ℕ
ttl t as_of now = elim t.lifetime [
  | none ↦ none
  | some lifetime ↦ some (((lifetime + t.created_at) - as_of_or_now as_of now + 999) / 1000)
]

unfoldable pub expired : Token → Option ℕ → ℕ → Bool
unfolding ttl
expired t as_of now = elim (ttl t as_of now) [ none ↦ false | some seconds ↦ seconds == 0 ]

-- `AccountResetToken`, `PasswordChangeToken`: the lifetime is that of the configuration.
unfoldable pub new_password_token : ℕ → Option String → Option ℕ → Token
unfolding new_token
new_password_token lifetime uid created_at = new_token uid (some lifetime) created_at

-- `PasswordForgotToken`; 0 tries stands for `null` and for fewer.
pub record PasswordForgotToken : Type 0 where
  pub token : Token
  pub tries : ℕ

-- `PasswordForgotToken.create` at the time `now`
unfoldable pub create_password_forgot : ℕ → Option String → ℕ → PasswordForgotToken
unfolding new_password_token
create_password_forgot lifetime uid now = record {
  token = new_password_token lifetime uid (some now);
  tries = 3;
}

-- `failAttempt`
unfoldable pub fail_attempt : PasswordForgotToken → Bool × PasswordForgotToken
fail_attempt t = let t' = record t { tries = t.tries - 1 } in (ltb t'.tries 1, t')

-- What `SessionToken` keeps of the details that decide on its use.
pub record SessionToken : Type 0 where
  pub token : Token
  pub auth_at : ℕ
  pub must_verify : Bool
  pub token_verification_id : Option String
  pub token_verified : Bool
  pub verification_method_value : Option String

-- `VERIFICATION_METHODS.get(this.verificationMethod)`, where 0 has become `null`
unfoldable pub verification_method_value_of : Option ℕ → Option String
verification_method_value_of none = none
verification_method_value_of (some n) =
    if n == 1
    then some "email-2fa"
    else if n == 2
    then some "totp-2fa"
    else if n == 3
    then some "recovery-code"
    else none

-- `lifetime`, of a session: `MAX_AGE_WITHOUT_DEVICE && ! details.deviceId`
unfoldable pub session_lifetime : ℕ → Bool → Option ℕ
session_lifetime max_age_without_device has_device =
    if max_age_without_device == 0
    then none
    else if has_device
    then none
    else some max_age_without_device

-- `SessionToken`, of what the store answers
unfoldable pub new_session_token : ℕ → SessionItem → SessionToken
unfolding new_token session_lifetime verification_method_value_of
new_session_token max_age_without_device item = record {
  token = record (new_token (some item.uid) none (some item.created_at)) {
    lifetime = session_lifetime max_age_without_device (is_set item.device);
  };
  auth_at = item.auth_at;
  must_verify = item.must_verify;
  token_verification_id = item.token_verification_id;
  token_verified = not (is_set item.token_verification_id);
  verification_method_value = verification_method_value_of item.verification_method;
}

-- `lastAuthAt`
unfoldable pub last_auth_at : SessionToken → ℕ
last_auth_at t = (if t.auth_at == 0 then t.token.created_at else t.auth_at) / 1000

pub data TokenState : Type 0 where
  verified unverified : TokenState

unfoldable pub state : SessionToken → TokenState
state t = if t.token_verified then verified else unverified

-- `authenticationMethods`; `none` is the error for an unknown method.
unfoldable pub authentication_methods : SessionToken → Option (List Amr)
unfolding verification_method_to_amr
authentication_methods t = elim t.verification_method_value [
  | none ↦ some (if t.token_verified then pwd ∷ email ∷ [] else pwd ∷ [])
  | some method ↦ elim (verification_method_to_amr method) [
    | none ↦ none
    | some amr ↦ some (pwd ∷ amr ∷ [])
  ]
]

-- `authenticatorAssuranceLevel`
unfoldable pub authenticator_assurance_level : SessionToken → Option ℕ
unfolding authentication_methods maximum_assurance_level
authenticator_assurance_level t = elim (authentication_methods t) [
  | none ↦ none
  | some amrs ↦ some (maximum_assurance_level amrs)
]
