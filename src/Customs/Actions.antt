-- ===== src/Customs/Actions.antt =====
-- lib/actions.js. A table is an object literal whose values are `true`, so `TABLE[action]` is truthy
-- just when the table has the key or inherits it.
use fxa_local_dev.Prelude.{String, Bool, List, [], ◌∷◌}
use fxa_local_dev.Customs.Objects.{contains, has_key}

abbrev pub password_checking_action : List String
password_checking_action = "accountLogin" ∷ "accountDestroy" ∷ "passwordChange" ∷ []

abbrev pub code_verifying_action : List String
code_verifying_action =
    "recoveryEmailVerifyCode" ∷ "passwordForgotVerifyCode" ∷ "verifyRecoveryCode" ∷ []

abbrev pub account_status_action : List String
account_status_action =
    "accountCreate" ∷ "accountLogin" ∷ "accountDestroy" ∷ "passwordChange"
    ∷ "passwordForgotSendCode" ∷ "accountStatusCheck" ∷ "sendUnblockCode" ∷ "recoveryKeyExists" ∷ []

abbrev pub email_sending_action : List String
email_sending_action =
    "accountCreate" ∷ "createEmail" ∷ "recoveryEmailResendCode" ∷ "passwordForgotSendCode"
    ∷ "passwordForgotResendCode" ∷ "sendUnblockCode" ∷ []

abbrev pub sms_sending_action : List String
sms_sending_action = "connectDeviceSms" ∷ []

abbrev pub account_access_action : List String
account_access_action = "consumeSigninCode" ∷ []

unfoldable pub is_password_checking_action : String → Bool
is_password_checking_action action = has_key action password_checking_action

unfoldable pub is_code_verifying_action : String → Bool
is_code_verifying_action action = has_key action code_verifying_action

unfoldable pub is_account_status_action : String → Bool
is_account_status_action action = has_key action account_status_action

unfoldable pub is_email_sending_action : String → Bool
is_email_sending_action action = has_key action email_sending_action

unfoldable pub is_sms_sending_action : String → Bool
is_sms_sending_action action = has_key action sms_sending_action

-- This one is a `Set`, which inherits no keys.
unfoldable pub is_account_access_action : String → Bool
is_account_access_action action = contains action account_access_action
