-- ===== src/Customs/Tests/Records.antt =====
-- The records of accounts, addresses and rules.
use fxa_local_dev.Prelude.{
  ℕ, ◌+◌, ◌≤◌, ◌++◌, length, ◌<◌, ◌≡◌, refl, true, false, none, some, [], ◌∷◌, arith, ltb, Option,
  sym,
}
use fxa_local_dev.Customs.Time.{is_within, seconds_left}
use fxa_local_dev.Customs.Objects.{contains, has_key, inherited}
use fxa_local_dev.Customs.Window.Trim.{recent}
use fxa_local_dev.Customs.Actions.{
  is_password_checking_action, is_code_verifying_action, is_email_sending_action,
  is_sms_sending_action, is_account_access_action,
}
use fxa_local_dev.Customs.IpRecord.Accesses.{different}
use fxa_local_dev.Customs.Limiter.{run, whole_hit}
use fxa_local_dev.Customs.EmailRecord
use fxa_local_dev.Customs.EmailRecord.{EmailRecord}
use fxa_local_dev.Customs.EmailRecord.Verdict.{is_counted, update-Verdict}
use fxa_local_dev.Customs.EmailRecord.Penalty.{rate_limit_lasts, update_emails_exact}
use fxa_local_dev.Customs.EmailRecord.Shape.{IsShaped, parse-IsShaped, update-IsShaped}
use fxa_local_dev.Customs.IpEmailRecord
use fxa_local_dev.Customs.IpEmailRecord.{IpEmailRecord}
use fxa_local_dev.Customs.IpEmailRecord.Throttle.{add_bad_logins, bad_logins_throttle, reset_lifts}
use fxa_local_dev.Customs.IpRecord
use fxa_local_dev.Customs.IpRecord.{IpRecord}
use fxa_local_dev.Customs.IpRecord.Verdict.{update_verdict, account_access_exact}
use fxa_local_dev.Customs.IpRecord.Accesses.{over_accounts_exact}
use fxa_local_dev.Customs.Unique.Kept.{recent_users}
use fxa_local_dev.Customs.SmsRecord
use fxa_local_dev.Customs.SmsRecord.{SmsRecord}
use fxa_local_dev.Customs.SmsRecord.Refinement.{run-sms_update}
use fxa_local_dev.Customs.RuleRecord
use fxa_local_dev.Customs.RuleRecord.{Rule, RuleRecord}
use fxa_local_dev.Customs.RuleRecord.Refinement.{run-rule-update}
use fxa_local_dev.Customs.UidRecord
use fxa_local_dev.Customs.UidRecord.{UidRecord}
use fxa_local_dev.Customs.UidRecord.Bans.{add_count_limited}
use fxa_local_dev.Customs.Tests.Samples.{limits}

-- Two logins in a second, of which the second is one too many.
abbrev rule : Rule
rule = record {
  limits = record { max = 1; period_ms = 1000; rate_limit_interval_ms = 5000 };
  actions = "accountLogin" ∷ [];
}

run-rule-update_example :
    run
      (RuleRecord.update rule)
      (record { rl = none; hits = [] })
      ((10_000, "accountLogin") ∷ (10_400, "accountLogin") ∷ (11_500, "accountLogin") ∷ [])
    ≡ 0 ∷ 5 ∷ 4 ∷ []
unfolding run whole_hit recent is_within seconds_left contains
run-rule-update_example =
    run-rule-update rule 10_000 (record { rl = none; hits = [] })
      ((10_000, "accountLogin") ∷ (10_400, "accountLogin") ∷ (11_500, "accountLogin") ∷ []) (tt, tt)
      (omega arith, (omega arith, (omega arith, tt)))

run-sms_update_example :
    run
      (SmsRecord.update limits)
      (record { rl = none; sms = [] })
      ((10_000, "connectDeviceSms") ∷ (10_400, "accountLogin") ∷ [])
    ≡ 0 ∷ 0 ∷ []
unfolding run whole_hit recent is_within seconds_left contains has_key inherited limits
    is_sms_sending_action
run-sms_update_example =
    run-sms_update limits 10_000 (record { rl = none; sms = [] })
      ((10_000, "connectDeviceSms") ∷ (10_400, "accountLogin") ∷ []) (tt, tt)
      (omega arith, (omega arith, tt))

-- Three emails were sent to the account in the last minute.
abbrev busy : EmailRecord
busy = record EmailRecord.new { xs = 999_950_000 ∷ 999_960_000 ∷ 999_970_000 ∷ [] }

update-Verdict_example :
    ltb 0 (EmailRecord.update limits 1_000_000_000 "accountCreate" false busy).1
    ≡ EmailRecord.should_block limits 1_000_000_000
        (EmailRecord.update limits 1_000_000_000 "accountCreate" false busy).0
unfolding limits is_counted is_email_sending_action has_key contains inherited
    is_code_verifying_action
update-Verdict_example =
    update-Verdict limits 1_000_000_000 "accountCreate" false busy (omega arith) (omega arith) refl

update_emails_exact_example :
    ltb 0 (EmailRecord.update limits 1_000_000_000 "accountCreate" false busy).1 ≡ true
unfolding EmailRecord.new limits is_within recent EmailRecord.should_block is_email_sending_action
    is_code_verifying_action is_sms_sending_action has_key contains inherited
update_emails_exact_example =
    update_emails_exact limits 1_000_000_000 "accountCreate" false busy (omega arith) (omega arith)
      refl refl refl refl
      (
        (omega arith, (omega arith, (omega arith, tt))),
        ((omega arith, (omega arith, tt)), ((omega arith, tt), (tt, tt))),
      )

rate_limit_lasts_example :
    (EmailRecord.update limits 1_000_000_000 "accountCreate" true
      (EmailRecord.rate_limit limits 999_500_000 busy)).0
    ≡ record (EmailRecord.rate_limit limits 999_500_000 busy) { ub = busy.ub ++ 1_000_000_000 ∷ [] }
unfolding limits is_counted is_email_sending_action has_key contains inherited
    is_code_verifying_action EmailRecord.is_blocked EmailRecord.rate_limit is_within EmailRecord.new
rate_limit_lasts_example =
    (rate_limit_lasts limits 1_000_000_000 999_500_000 "accountCreate" true busy (omega arith) refl
      (omega arith)).0

update-IsShaped_example :
    let r' =
      (EmailRecord.update limits 1_000_000_100 "accountCreate" true (EmailRecord.parse none)).0 in
    let r'' = (EmailRecord.can_unblock limits 1_000_000_100 r').0 in
    IsShaped limits 1_000_000_100 r'
    × IsShaped limits 1_000_000_100 r''
    × (length r''.ub ≤ limits.max_unblock_attempts + 1)
update-IsShaped_example =
    update-IsShaped limits 1_000_000_000 1_000_000_100 "accountCreate" true (EmailRecord.parse none)
      (omega arith) (parse-IsShaped limits 1_000_000_000)

abbrev no_logins : IpEmailRecord
no_logins = record { rl = none; lf = [] }

bad_logins_throttle_example :
    0
    < (IpEmailRecord.update limits 1_000_000_000 "accountLogin"
        (add_bad_logins limits (999_950_000 ∷ 999_960_000 ∷ 999_970_000 ∷ []) no_logins)).1
unfolding limits is_password_checking_action has_key contains inherited
bad_logins_throttle_example =
    bad_logins_throttle limits 1_000_000_000 999_000_000
      (999_950_000 ∷ 999_960_000 ∷ 999_970_000 ∷ []) "accountLogin" no_logins (omega arith)
      (omega arith) (omega arith, (omega arith, (omega arith, tt)))
      (omega arith, (omega arith, (omega arith, tt))) (omega arith) (tt, tt)
      (omega arith, (omega arith, (omega arith, tt))) (omega arith) refl

abbrev two_logins : IpEmailRecord
two_logins = record { rl = none; lf = 999_950_000 ∷ 999_960_000 ∷ [] }

reset_lifts_example :
    (IpEmailRecord.update limits 1_000_000_000 "accountLogin"
      (IpEmailRecord.unblock_if_reset
        (some 999_980_000)
        (IpEmailRecord.rate_limit limits 999_970_000 two_logins)).0).1
    ≡ 0
reset_lifts_example =
    reset_lifts limits 1_000_000_000 999_970_000 999_980_000 "accountLogin" two_logins

-- Five accesses, all of them long past.
abbrev accessed : IpRecord
accessed = record (IpRecord.parse none) { aa = 1 ∷ 2 ∷ 3 ∷ 4 ∷ 5 ∷ [] }

account_access_exact_example :
    ltb 0 (IpRecord.update limits 1_000_000_000 "consumeSigninCode" "a@b.c" accessed).1 ≡ true
unfolding IpRecord.parse IpRecord.is_blocked is_within limits
account_access_exact_example =
    account_access_exact limits 1_000_000_000 "a@b.c" accessed (omega arith) (omega arith) refl

update_verdict_example :
    IpRecord.should_block limits 1_000_000_000
      (IpRecord.update limits 1_000_000_000 "accountLogin" "a@b.c" (IpRecord.parse none)).0
    ≡ ltb 0 (IpRecord.update limits 1_000_000_000 "accountLogin" "a@b.c" (IpRecord.parse none)).1
unfolding limits is_account_access_action has_key contains inherited
update_verdict_example = sym (
    update_verdict limits 1_000_000_000 "accountLogin" "a@b.c" (IpRecord.parse none) (omega arith)
      (omega arith) refl)

-- Three notifications before a ban.
abbrev notified : Option ℕ → UidRecord
notified banned = record {
  timestamps_by_action = ("devicesNotify", 999_970_000 ∷ 999_980_000 ∷ []) ∷ [];
  rate_limited_timestamp = banned;
}

-- Another action lifts the ban.
add_count_limited_example :
    (UidRecord.add_count limits 1_000_000_000 "accountLogin"
      (notified (some 999_990_000))).0.rate_limited_timestamp
    ≡ none
unfolding limits recent UidRecord.lookup UidRecord.is_rate_limited
add_count_limited_example =
    (add_count_limited limits 1_000_000_000 "accountLogin" (notified (some 999_990_000)) refl tt).1

-- One account twice, and another long ago.
abbrev verified : IpRecord
verified = record (IpRecord.parse none) {
  vc =
      record { t = 10_000; u = "a@b.c" }
      ∷ record { t = 999_970_000; u = "d@e.f" }
      ∷ record { t = 999_980_000; u = "d@e.f" }
      ∷ [];
}

over_accounts_exact_example :
    (IpRecord.is_over_verify_codes limits 1_000_000_000 verified).1 ≡ false
unfolding IpRecord.parse limits recent_users different inherited
over_accounts_exact_example =
    (over_accounts_exact limits 1_000_000_000 verified
      ((omega arith, (omega arith, tt)), ((omega arith, tt), (tt, tt))) tt).0
