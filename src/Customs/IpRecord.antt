-- ===== src/Customs/IpRecord.antt =====
-- lib/ip_record.js: what is remembered of one IP address.
pub mod Verdict
pub mod Accesses
use fxa_local_dev.Prelude.{
  ℕ, ◌+◌, String, Bool, ◌||◌, Option, none, some, List, [], ◌∷◌, ◌++◌, map, max, ltb, length, ◌==◌,
  if◌then◌else◌,
}
use fxa_local_dev.Customs.Time.{is_within, seconds_left}
use fxa_local_dev.Customs.Window.{trim}
use fxa_local_dev.Customs.Actions.{
  is_password_checking_action, is_code_verifying_action, is_account_status_action,
  is_sms_sending_action, is_account_access_action,
}
use fxa_local_dev.Customs.Limits.{Limits}
use fxa_local_dev.Customs.EmailRecord.{or_list}
use fxa_local_dev.Customs.Unique.{trim_unique, count_unseen}
use fxa_local_dev.Customs.Weights.{weigh, total_weight, exceeds}

abbrev pub errno_throttled : ℕ
errno_throttled = 114

-- `{ t, u }`: a time and an email address
pub record Access : Type 0 where
  pub t : ℕ
  pub u : String

-- `{ t, e, u }`: with the errno of the failed login
pub record BadLogin : Type 0 where
  pub t : ℕ
  pub e : ℕ
  pub u : String

-- `as` is a reserved word here: the account status checks are `status_checks`.
pub record IpRecord : Type 0 where
  pub bk : Option ℕ
  pub rl : Option ℕ
  pub lf : List BadLogin
  pub vc : List Access
  pub status_checks : List Access
  pub sms : List ℕ
  pub aa : List ℕ

pub record IpObject : Type 0 where
  pub bk : Option ℕ
  pub rl : Option ℕ
  pub lf : Option (List BadLogin)
  pub vc : Option (List Access)
  pub status_checks : Option (List Access)
  pub sms : Option (List ℕ)
  pub aa : Option (List ℕ)

unfoldable pub parse : Option IpObject → IpRecord
unfolding or_list
parse none = record {
  bk = none;
  rl = none;
  lf = [];
  vc = [];
  status_checks = [];
  sms = [];
  aa = [];
}
parse (some object) = record {
  bk = object.bk;
  rl = object.rl;
  lf = or_list object.lf [];
  vc = or_list object.vc [];
  status_checks = or_list object.status_checks [];
  sms = or_list object.sms [];
  aa = or_list object.aa [];
}

unfoldable pub get_min_lifetime_ms : Limits → ℕ
get_min_lifetime_ms limits =
    max limits.block_interval_ms
      (max limits.ip_rate_limit_interval_ms limits.ip_rate_limit_ban_duration_ms)

module _ (limits : Limits) (now : ℕ) where
  unfoldable pub trim_bad_logins : IpRecord → IpRecord
  trim_bad_logins r = record r {
    lf =
        trim_unique (λ (b : BadLogin). b.t) (λ b. b.u) now limits.ip_rate_limit_interval_ms
          limits.max_bad_logins_per_ip r.lf;
  }

  unfoldable pub is_over_bad_logins : IpRecord → IpRecord × Bool
  unfolding trim_bad_logins
  is_over_bad_logins r =
      let r' = trim_bad_logins r in
      let events = map (λ (b : BadLogin). (b.u, b.e)) r'.lf in
      (
        r',
        exceeds (total_weight (weigh limits.bad_login_errno_weights events []))
            limits.max_bad_logins_per_ip,
      )

  -- `errno || 999`
  unfoldable pub add_bad_login : String → ℕ → IpRecord → IpRecord
  unfolding trim_bad_logins
  add_bad_login email errno r =
      let r' = trim_bad_logins r in
      record r' {
        lf = r'.lf ++ (record { t = now; e = if errno == 0 then 999 else errno; u = email }) ∷ [];
      }

  abbrev trim_accesses : ℕ → List Access → List Access
  trim_accesses max_unique =
      trim_unique (λ (a : Access). a.t) (λ a. a.u) now limits.ip_rate_limit_interval_ms max_unique

  abbrev users : List Access → List String
  users = map (λ (a : Access). a.u)

  unfoldable pub trim_verify_codes : IpRecord → IpRecord
  trim_verify_codes r = record r { vc = trim_accesses limits.max_verify_codes r.vc }

  unfoldable pub is_over_verify_codes : IpRecord → IpRecord × Bool
  unfolding trim_verify_codes
  is_over_verify_codes r =
      let r' = trim_verify_codes r in
      (r', ltb limits.max_verify_codes (count_unseen [] (users r'.vc)))

  unfoldable pub add_verify_code : String → IpRecord → IpRecord
  unfolding trim_verify_codes
  add_verify_code email r =
      let r' = trim_verify_codes r in
      record r' { vc = r'.vc ++ (record { t = now; u = email }) ∷ [] }

  unfoldable pub trim_account_status : IpRecord → IpRecord
  trim_account_status r = record r {
    status_checks = trim_accesses limits.max_account_status_check r.status_checks;
  }

  unfoldable pub is_over_account_status_check : IpRecord → IpRecord × Bool
  unfolding trim_account_status
  is_over_account_status_check r =
      let r' = trim_account_status r in
      (r', ltb limits.max_account_status_check (count_unseen [] (users r'.status_checks)))

  unfoldable pub add_account_status_check : String → IpRecord → IpRecord
  unfolding trim_account_status
  add_account_status_check email r =
      let r' = trim_account_status r in
      record r' { status_checks = r'.status_checks ++ (record { t = now; u = email }) ∷ [] }

  unfoldable pub trim_sms_requests : IpRecord → IpRecord
  trim_sms_requests r = record r {
    sms = trim now limits.ip_rate_limit_interval_ms (limits.max_sms + 1) r.sms;
  }

  unfoldable pub is_over_sms_limit : IpRecord → IpRecord × Bool
  unfolding trim_sms_requests
  is_over_sms_limit r = let r' = trim_sms_requests r in (r', ltb limits.max_sms (length r'.sms))

  unfoldable pub add_sms_request : IpRecord → IpRecord
  add_sms_request r = record r { sms = r.sms ++ now ∷ [] }

  unfoldable pub add_account_access : IpRecord → IpRecord
  add_account_access r = record r { aa = r.aa ++ now ∷ [] }

  unfoldable pub is_over_account_access_limit : IpRecord → Bool
  is_over_account_access_limit r = ltb limits.max_account_access (length r.aa)

  unfoldable pub is_blocked : IpRecord → Bool
  is_blocked r = is_within r.bk limits.block_interval_ms now

  unfoldable pub is_rate_limited : IpRecord → Bool
  is_rate_limited r = is_within r.rl limits.ip_rate_limit_ban_duration_ms now

  unfoldable pub should_block : IpRecord → Bool
  unfolding is_blocked is_rate_limited
  should_block r = is_blocked r || is_rate_limited r

  unfoldable pub block : IpRecord → IpRecord
  block r = record r { bk = some now }

  unfoldable pub rate_limit : IpRecord → IpRecord
  rate_limit r = record r { rl = some now; status_checks = []; sms = []; aa = [] }

  unfoldable pub retry_after : IpRecord → ℕ
  retry_after r =
      max (seconds_left r.rl limits.ip_rate_limit_ban_duration_ms now)
        (seconds_left r.bk limits.block_interval_ms now)

  -- What follows the tests `isOver…` of `update`.
  unfoldable pub limit_if_over : IpRecord × Bool → IpRecord
  unfolding rate_limit
  limit_if_over (r, over) = if over then rate_limit r else r

  -- The block of `update` for account status actions.
  unfoldable pub update_account_status : String → String → IpRecord → IpRecord
  unfolding add_account_status_check is_over_account_status_check limit_if_over
  update_account_status action email r =
      if is_account_status_action action
      then limit_if_over (is_over_account_status_check (add_account_status_check email r))
      else r

  -- The block of `update` for code-checking actions.
  unfoldable pub update_verify_codes : String → String → IpRecord → IpRecord
  unfolding add_verify_code is_over_verify_codes limit_if_over
  update_verify_codes action email r =
      if is_code_verifying_action action
      then limit_if_over (is_over_verify_codes (add_verify_code email r))
      else r

  -- `isRateLimited() || isOverBadLogins()`, where the second call trims the list and is made only
  -- if the first is false; then a throttled attempt counts as a bad login.
  unfoldable pub count_throttled : String → IpRecord → IpRecord
  unfolding is_rate_limited is_over_bad_logins add_bad_login
  count_throttled email r =
      if is_rate_limited r
      then add_bad_login email errno_throttled r
      else let (r', over) = is_over_bad_logins r in
        if over then add_bad_login email errno_throttled r' else r'

  -- The block of `update` for password-checking actions.
  unfoldable pub update_bad_logins : String → String → IpRecord → IpRecord
  unfolding count_throttled is_over_bad_logins limit_if_over
  update_bad_logins action email r =
      if is_password_checking_action action
      then limit_if_over (is_over_bad_logins (count_throttled email r))
      else r

  -- The block of `update` for sms-sending actions.
  unfoldable pub update_sms : String → IpRecord → IpRecord
  unfolding add_sms_request is_over_sms_limit limit_if_over
  update_sms action r =
      if is_sms_sending_action action
      then limit_if_over (is_over_sms_limit (add_sms_request r))
      else r

  -- The block of `update` for account access actions, and the final `return`.
  unfoldable pub update_account_access : String → IpRecord → IpRecord × ℕ
  unfolding add_account_access is_over_account_access_limit rate_limit retry_after
  update_account_access action r =
      if is_account_access_action action
      then (let r' = add_account_access r in
          if is_over_account_access_limit r'
          then (rate_limit r', retry_after (rate_limit r'))
          else (r', 0))
      else (r, retry_after r)

  unfoldable pub update : String → String → IpRecord → IpRecord × ℕ
  update action email r =
      if is_blocked r
      then (r, retry_after r)
      else update_account_access action (
          update_sms action (
            update_bad_logins action email
              (update_verify_codes action email (update_account_status action email r))))
