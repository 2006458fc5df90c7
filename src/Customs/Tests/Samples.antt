-- ===== src/Customs/Tests/Samples.antt =====
-- The limits of the default configuration of lib/config/config.js, and environments.
use fxa_local_dev.Prelude.{true, false, none, [], ◌∷◌}
use fxa_local_dev.Customs.Objects.{contains, inherited, has_key}
use fxa_local_dev.Customs.Window.{trim}
use fxa_local_dev.Customs.Time.{is_within, seconds_left}
use fxa_local_dev.Customs.Actions.{
  is_password_checking_action, is_code_verifying_action, is_account_status_action,
  is_email_sending_action, is_sms_sending_action, is_account_access_action,
}
use fxa_local_dev.Customs.Unique.{trim_unique, count_unseen}
use fxa_local_dev.Customs.Weights.{weigh, total_weight}
use fxa_local_dev.Customs.Limits.{LimitsSettings, Limits, set_all}
use fxa_local_dev.Customs.EmailRecord
use fxa_local_dev.Customs.IpEmailRecord
use fxa_local_dev.Customs.IpRecord
use fxa_local_dev.Customs.SmsRecord
use fxa_local_dev.Customs.RuleRecord
use fxa_local_dev.Customs.Reputation.{rejected, get, is_block_below, is_suspect_below}
use fxa_local_dev.Customs.Allowed.{
  is_allowed, match_domain, is_allowed_email, after_at, has_line_end,
}
use fxa_local_dev.Customs.Rules.{RuleMap, lookup}
use fxa_local_dev.Customs.Server.{
  Env, Memcached, Handled, missing, all_succeed, set_records, fetch_ip, fetch_email, fetch_ip_email,
  fetch_sms, allow_whitelisted, optionally_report_ip,
}
use fxa_local_dev.Customs.Server.Check.{
  Request, judge, is_listed, settle, update_records, check_records,
  check_user_defined_rate_limit_rules, apply_rules, finish_rules, check_rules, check_rule, rule_key,
  apply_retries, max_of_array, create_response, handle_error, respond_to, then_rules, check,
}

abbrev pub settings : LimitsSettings
settings = record {
  block_interval_seconds = 86_400;
  rate_limit_interval_seconds = 900;
  max_emails = 3;
  max_bad_logins = 2;
  max_bad_logins_per_ip = 3;
  max_unblock_attempts = 5;
  max_verify_codes = 10;
  ip_rate_limit_interval_seconds = 900;
  ip_rate_limit_ban_duration_seconds = 900;
  max_account_status_check = 5;
  bad_login_errno_weights = (102, 2) ∷ (125, 4) ∷ (126, 2) ∷ [];
  uid_rate_limit = record {
    limit_interval_seconds = 900;
    ban_duration_seconds = 900;
    max_checks = 3;
  };
  sms_rate_limit = record { limit_interval_seconds = 1800; max_sms = 5 };
  max_account_access = 5;
}

unfoldable pub limits : Limits
unfolding set_all
limits = set_all settings

-- A memcached that knows nothing and takes everything.
abbrev pub empty_cache : Memcached
empty_cache = record {
  get_ip = λ key. missing;
  get_email = λ key. missing;
  get_ip_email = λ key. missing;
  get_sms = λ key. missing;
  get_uid = λ key. missing;
  get_rule = λ key. missing;
  set_succeeds = λ w. true;
}

unfoldable pub env : Env
unfolding limits
env = record {
  limits = limits;
  now = 1_000_000_000;
  record_lifetime_seconds = 900;
  rules = [];
  treat_everyone_with_suspicion = false;
  allowed = record { ips = []; domains = "restmail.dev" ∷ []; phone_numbers = [] };
  reputation = record {
    enable = false;
    enable_check = false;
    block_below = 50;
    suspect_below = 60;
  };
  reputation_of = λ ip. rejected;
  blocklist = none;
  to_lower_case = λ text. text;
  create_hash_hex = λ email ip. "hash";
  mc = empty_cache;
}

abbrev pub request : Request
request = record {
  email = "a@b.c";
  ip = "192.0.2.1";
  action = "accountCreate";
  has_unblock_code = false;
  phone_number = "";
}

-- `check`, opened all the way down
unfoldable pub run_check : Env → RuleMap → Request → Handled
unfolding check then_rules respond_to create_response handle_error
    check_user_defined_rate_limit_rules apply_rules finish_rules check_rules check_rule rule_key
    apply_retries max_of_array check_records update_records settle judge is_listed fetch_ip
    fetch_email fetch_ip_email fetch_sms set_records all_succeed allow_whitelisted
    optionally_report_ip lookup is_allowed is_allowed_email match_domain after_at has_line_end get
    is_block_below is_suspect_below has_key contains inherited trim is_within seconds_left
    trim_unique count_unseen weigh total_weight is_password_checking_action is_code_verifying_action
    is_account_status_action is_email_sending_action is_sms_sending_action is_account_access_action
    EmailRecord.update EmailRecord.parse EmailRecord.can_unblock IpEmailRecord.update
    IpEmailRecord.parse IpEmailRecord.unblock_if_reset IpRecord.update
    IpRecord.update_account_status IpRecord.update_verify_codes IpRecord.update_bad_logins
    IpRecord.update_sms IpRecord.update_account_access IpRecord.parse IpRecord.is_blocked
    IpRecord.retry_after SmsRecord.update SmsRecord.parse RuleRecord.update RuleRecord.new env
run_check = check
