-- ===== src/Customs/IpEmailRecord.antt =====
-- lib/ip_email_record.js: the failed logins from one IP address to one email address.
pub mod Throttle
use fxa_local_dev.Prelude.{
  ℕ, ◌+◌, String, Bool, true, false, Option, none, some, List, [], ◌∷◌, ◌++◌, ltb, length,
  if◌then◌else◌,
}
use fxa_local_dev.Customs.Time.{is_within, seconds_left}
use fxa_local_dev.Customs.Window.{trim}
use fxa_local_dev.Customs.Actions.{is_password_checking_action}
use fxa_local_dev.Customs.Limits.{Limits}
use fxa_local_dev.Customs.EmailRecord.{or_list}

pub record IpEmailRecord : Type 0 where
  pub rl : Option ℕ
  pub lf : List ℕ

pub record IpEmailObject : Type 0 where
  pub rl : Option ℕ
  pub lf : Option (List ℕ)

unfoldable pub parse : Option IpEmailObject → IpEmailRecord
unfolding or_list
parse none = record { rl = none; lf = [] }
parse (some object) = record { rl = object.rl; lf = or_list object.lf [] }

unfoldable pub get_min_lifetime_ms : Limits → ℕ
get_min_lifetime_ms limits = limits.rate_limit_interval_ms

-- `resetAt > this.rl`; a comparison with `undefined` is false.
abbrev later : Option ℕ → Option ℕ → Bool
later none rl = false
later (some reset_at) none = false
later (some reset_at) (some t) = ltb t reset_at

-- Both timestamps may be missing; the password was reset after the rate limit was set.
unfoldable pub unblock_if_reset : Option ℕ → IpEmailRecord → IpEmailRecord × Bool
unblock_if_reset reset_at r =
    if later reset_at r.rl then (record { rl = none; lf = [] }, true) else (r, false)

module _ (limits : Limits) (now : ℕ) where
  unfoldable pub trim_bad_logins : IpEmailRecord → IpEmailRecord
  trim_bad_logins r = record r {
    lf = trim now limits.rate_limit_interval_ms (limits.max_bad_logins + 1) r.lf;
  }

  unfoldable pub is_over_bad_logins : IpEmailRecord → IpEmailRecord × Bool
  unfolding trim_bad_logins
  is_over_bad_logins r =
      let r' = trim_bad_logins r in (r', ltb limits.max_bad_logins (length r'.lf))

  unfoldable pub add_bad_login : IpEmailRecord → IpEmailRecord
  unfolding trim_bad_logins
  add_bad_login r = let r' = trim_bad_logins r in record r' { lf = r'.lf ++ now ∷ [] }

  unfoldable pub is_rate_limited : IpEmailRecord → Bool
  is_rate_limited r = is_within r.rl limits.rate_limit_interval_ms now

  unfoldable pub should_block : IpEmailRecord → Bool
  unfolding is_rate_limited
  should_block r = is_rate_limited r

  unfoldable pub rate_limit : IpEmailRecord → IpEmailRecord
  rate_limit r = record { rl = some now; lf = [] }

  unfoldable pub retry_after : IpEmailRecord → ℕ
  retry_after r = seconds_left r.rl limits.rate_limit_interval_ms now

  -- What follows the test `isOverBadLogins` of `update`.
  unfoldable pub limit_if_over : IpEmailRecord × Bool → IpEmailRecord × ℕ
  unfolding rate_limit retry_after
  limit_if_over (r, over) = if over then (rate_limit r, retry_after (rate_limit r)) else (r, 0)

  unfoldable pub update : String → IpEmailRecord → IpEmailRecord × ℕ
  unfolding should_block retry_after is_over_bad_logins limit_if_over
  update action r =
      if is_password_checking_action action
      then if should_block r then (r, retry_after r) else limit_if_over (is_over_bad_logins r)
      else (r, 0)
