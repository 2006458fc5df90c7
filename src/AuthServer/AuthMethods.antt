-- ===== src/AuthServer/AuthMethods.antt =====
-- lib/authMethods.js of fxa-auth-server: how well a session's owner was authenticated. No method is
-- named like a member of `Object.prototype`.
use fxa_local_dev.Prelude.{
  ℕ, ◌+◌, String, Bool, true, false, ◌&&◌, ◌||◌, Option, none, some, List, [], ◌∷◌, str_eq,
  if◌then◌else◌,
}
use fxa_local_dev.AuthDb.Store.{Reply, TotpToken, err, not_found, ok}

-- The values of `METHOD_TO_AMR`, and 'pwd'
pub data Amr : Type 0 where
  pwd email otp : Amr

-- The values of `AMR_TO_TYPE`
pub data Factor : Type 0 where
  know have : Factor

unfoldable pub factor_of : Amr → Factor
factor_of pwd = know
factor_of email = know
factor_of otp = have

-- `verificationMethodToAMR`; `none` is the error for an unknown method.
unfoldable pub verification_method_to_amr : String → Option Amr
verification_method_to_amr method =
    if str_eq method "email" || str_eq method "email-captcha" || str_eq method "email-2fa"
    then some email
    else if str_eq method "totp-2fa" || str_eq method "recovery-code"
    then some otp
    else none

abbrev is_know : Factor → Bool
is_know know = true
is_know have = false

abbrev any_factor : (Factor → Bool) → List Amr → Bool
unfolding factor_of
any_factor p [] = false
any_factor p (amr ∷ amrs) = p (factor_of amr) || any_factor p amrs

abbrev is_have : Factor → Bool
is_have know = false
is_have have = true

-- `maximumAssuranceLevel`: the size of the set of factors.
unfoldable pub maximum_assurance_level : List Amr → ℕ
unfolding factor_of
maximum_assurance_level amrs =
    (if any_factor is_know amrs then 1 else 0) + (if any_factor is_have amrs then 1 else 0)

-- `availableAuthenticationMethods`, of what `totpToken` of the store answers
unfoldable pub available_authentication_methods : Reply TotpToken → Reply (List Amr)
available_authentication_methods (ok t) =
    ok (if t.verified && t.enabled then pwd ∷ email ∷ otp ∷ [] else pwd ∷ email ∷ [])
available_authentication_methods (err not_found) = ok (pwd ∷ email ∷ [])
available_authentication_methods (err e) = err e
