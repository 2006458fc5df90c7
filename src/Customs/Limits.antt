-- ===== src/Customs/Limits.antt =====
-- `Limits.setAll` of lib/settings/limits.js: the configured limits, and the intervals in
-- milliseconds that it derives from those in seconds.
use fxa_local_dev.Prelude.{ℕ, ◌*◌, List}

pub record UidRateLimit : Type 0 where
  pub limit_interval_seconds : ℕ
  pub ban_duration_seconds : ℕ
  pub max_checks : ℕ

pub record SmsRateLimit : Type 0 where
  pub limit_interval_seconds : ℕ
  pub max_sms : ℕ

-- What `config.limits` and memcached hold.
pub record LimitsSettings : Type 0 where
  pub block_interval_seconds : ℕ
  pub rate_limit_interval_seconds : ℕ
  pub max_emails : ℕ
  pub max_bad_logins : ℕ
  pub max_bad_logins_per_ip : ℕ
  pub max_unblock_attempts : ℕ
  pub max_verify_codes : ℕ
  pub ip_rate_limit_interval_seconds : ℕ
  pub ip_rate_limit_ban_duration_seconds : ℕ
  pub max_account_status_check : ℕ
  pub bad_login_errno_weights : List (ℕ × ℕ)
  pub uid_rate_limit : UidRateLimit
  pub sms_rate_limit : SmsRateLimit
  pub max_account_access : ℕ

pub record Limits : Type 0 where
  pub block_interval_seconds : ℕ
  pub block_interval_ms : ℕ
  pub rate_limit_interval_seconds : ℕ
  pub rate_limit_interval_ms : ℕ
  pub max_emails : ℕ
  pub max_bad_logins : ℕ
  pub max_bad_logins_per_ip : ℕ
  pub max_unblock_attempts : ℕ
  pub max_verify_codes : ℕ
  pub ip_rate_limit_interval_seconds : ℕ
  pub ip_rate_limit_interval_ms : ℕ
  pub ip_rate_limit_ban_duration_seconds : ℕ
  pub ip_rate_limit_ban_duration_ms : ℕ
  pub max_account_status_check : ℕ
  pub bad_login_errno_weights : List (ℕ × ℕ)
  pub max_checks_per_uid : ℕ
  pub uid_rate_limit_ban_duration_ms : ℕ
  pub uid_rate_limit_interval_ms : ℕ
  pub max_sms : ℕ
  pub sms_rate_limit_interval_seconds : ℕ
  pub sms_rate_limit_interval_ms : ℕ
  pub max_account_access : ℕ

unfoldable pub set_all : LimitsSettings → Limits
set_all s = record {
  block_interval_seconds = s.block_interval_seconds;
  block_interval_ms = s.block_interval_seconds * 1000;
  rate_limit_interval_seconds = s.rate_limit_interval_seconds;
  rate_limit_interval_ms = s.rate_limit_interval_seconds * 1000;
  max_emails = s.max_emails;
  max_bad_logins = s.max_bad_logins;
  max_bad_logins_per_ip = s.max_bad_logins_per_ip;
  max_unblock_attempts = s.max_unblock_attempts;
  max_verify_codes = s.max_verify_codes;
  ip_rate_limit_interval_seconds = s.ip_rate_limit_interval_seconds;
  ip_rate_limit_interval_ms = s.ip_rate_limit_interval_seconds * 1000;
  ip_rate_limit_ban_duration_seconds = s.ip_rate_limit_ban_duration_seconds;
  ip_rate_limit_ban_duration_ms = s.ip_rate_limit_ban_duration_seconds * 1000;
  max_account_status_check = s.max_account_status_check;
  bad_login_errno_weights = s.bad_login_errno_weights;
  max_checks_per_uid = s.uid_rate_limit.max_checks;
  uid_rate_limit_ban_duration_ms = s.uid_rate_limit.ban_duration_seconds * 1000;
  uid_rate_limit_interval_ms = s.uid_rate_limit.limit_interval_seconds * 1000;
  max_sms = s.sms_rate_limit.max_sms;
  sms_rate_limit_interval_seconds = s.sms_rate_limit.limit_interval_seconds;
  sms_rate_limit_interval_ms = s.sms_rate_limit.limit_interval_seconds * 1000;
  max_account_access = s.max_account_access;
}
