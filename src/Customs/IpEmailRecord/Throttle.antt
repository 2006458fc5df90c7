-- ===== src/Customs/IpEmailRecord/Throttle.antt =====
-- When lib/ip_email_record.js throttles logins from one address to one account, and what lifts it.
use fxa_local_dev.Prelude.{
  ℕ, ◌+◌, ◌≤◌, ◌<◌, String, ◌≡◌, true, false, some, List, [], ◌∷◌, min, arith, ltb, length,
  if◌then◌else◌, Ascending, All,
}
use fxa_local_dev.Customs.Time.{is_within, seconds_left-pos}
use fxa_local_dev.Customs.Window.{trim}
use fxa_local_dev.Customs.Window.Trim.{
  Fresh, recent, recent-Fresh, recent-append, length-trim, over_limit_iff, recent-trim_ge,
}
use fxa_local_dev.Customs.Window.Covers.{IsPast, IsPast-later, IsPast-push, trim-IsPast}
use fxa_local_dev.Customs.Actions.{is_password_checking_action}
use fxa_local_dev.Customs.Limits.{Limits}
use fxa_local_dev.Customs.IpEmailRecord.{
  IpEmailRecord, update, add_bad_login, is_rate_limited, rate_limit, retry_after, unblock_if_reset,
}

module _ (limits : Limits) (now : ℕ) where
  retry_after-pos :
      (r : IpEmailRecord) → is_rate_limited limits now r ≡ true → 0 < retry_after limits now r
  unfolding is_rate_limited retry_after
  retry_after-pos r h = seconds_left-pos r.rl limits.rate_limit_interval_ms now h

  is_rate_limited-rate_limit :
      (r : IpEmailRecord)
      → 0 < now
      → 0 < limits.rate_limit_interval_ms
      → is_rate_limited limits now (rate_limit limits now r) ≡ true
  unfolding is_rate_limited rate_limit is_within
  is_rate_limited-rate_limit r p i = ground arith

  -- A password-checking action is told to wait just when the pair is rate-limited already, or more
  -- than `maxBadLogins` failed logins lie within the interval; others are let through.
  pub update_throttle :
      (action : String) (r : IpEmailRecord)
      → 0 < now
      → 0 < limits.rate_limit_interval_ms
      → Ascending r.lf
      → ltb 0 (update limits now action r).1 ≡ (
          if is_password_checking_action action
          then if is_rate_limited limits now r
            then true
            else ltb limits.max_bad_logins (recent now limits.rate_limit_interval_ms r.lf)
          else false)
  unfolding update
  update_throttle action r p i asc = ground (
    arith,
    retry_after-pos r,
    retry_after-pos (rate_limit limits now r) (is_rate_limited-rate_limit r p i),
    over_limit_iff now limits.rate_limit_interval_ms limits.max_bad_logins r.lf asc,
  )

  -- A password reset after the rate limit was set lifts it, so that the next check is not throttled
  -- by what was counted before; after a reset at or before that time the check is answered as if
  -- there were none.
  pub reset_lifts :
      (t p : ℕ) (action : String) (r : IpEmailRecord)
      → (update limits now action (unblock_if_reset (some p) (rate_limit limits t r)).0).1
        ≡ (if ltb t p then 0 else (update limits now action (rate_limit limits t r)).1)
  unfolding update unblock_if_reset rate_limit is_within recent
  reset_lifts t p action r =
      ground
        (arith, length-trim now limits.rate_limit_interval_ms (limits.max_bad_logins + 1) [] tt)

-- Failed logins at these times, one after the other
unfoldable pub add_bad_logins : Limits → List ℕ → IpEmailRecord → IpEmailRecord
add_bad_logins limits [] r = r
add_bad_logins limits (t ∷ ts) r = add_bad_logins limits ts (add_bad_login limits t r)

-- The times climb from `start`.
abbrev pub Climbs : ℕ → List ℕ → Type 0
Climbs start [] = Unit
Climbs start (t ∷ ts) = (start ≤ t) × Climbs t ts

module _ (limits : Limits) (now : ℕ) where
  abbrev recent_logins : List ℕ → ℕ
  recent_logins = recent now limits.rate_limit_interval_ms

  -- One failed login adds one to those within the interval, up to the room for them.
  recent-add_bad_login :
      (t : ℕ) (r : IpEmailRecord)
      → t ≤ now
      → IsPast t r.lf
      → min (limits.max_bad_logins + 1) (recent_logins r.lf) + recent_logins (t ∷ [])
        ≤ recent_logins (add_bad_login limits t r).lf
  unfolding add_bad_login
  recent-add_bad_login t r le (asc, past) = omega (
    arith,
    recent-trim_ge t now limits.rate_limit_interval_ms (limits.max_bad_logins + 1) r.lf le asc,
    recent-append now limits.rate_limit_interval_ms
        (trim t limits.rate_limit_interval_ms (limits.max_bad_logins + 1) r.lf) (t ∷ []),
  )

  IsPast-add_bad_login :
      (t : ℕ) (r : IpEmailRecord) → IsPast t r.lf → IsPast t (add_bad_login limits t r).lf
  unfolding add_bad_login
  IsPast-add_bad_login t r past = IsPast-push t _ (trim-IsPast t _ _ r.lf past)

  recent-add_bad_logins :
      (start : ℕ) (ts : List ℕ) (r : IpEmailRecord)
      → Climbs start ts
      → All (λ t. t ≤ now) ts
      → start ≤ now
      → IsPast start r.lf
      → IsPast now (add_bad_logins limits ts r).lf
        × (min (limits.max_bad_logins + 1) (recent_logins r.lf + recent_logins ts)
            ≤ recent_logins (add_bad_logins limits ts r).lf)
  unfolding add_bad_logins recent
  recent-add_bad_logins start [] r c le h past = (IsPast-later start now r.lf h past, omega arith)
  recent-add_bad_logins start (t ∷ ts) r (s, c) (le, les) h past =
      let past' = IsPast-later start t r.lf s past in
      let (done, more) =
        recent-add_bad_logins t ts (add_bad_login limits t r) c les le
          (IsPast-add_bad_login t r past') in
      (done, omega (arith, more, recent-add_bad_login t r le past'))

  -- After more than `maxBadLogins` failed logins within the interval, whatever was counted before
  -- them, a check of a password is told to wait.
  pub bad_logins_throttle :
      (start : ℕ) (ts : List ℕ) (action : String) (r : IpEmailRecord)
      → 0 < now
      → 0 < limits.rate_limit_interval_ms
      → Climbs start ts
      → All (λ t. t ≤ now) ts
      → start ≤ now
      → IsPast start r.lf
      → All (Fresh now limits.rate_limit_interval_ms) ts
      → limits.max_bad_logins < length ts
      → is_password_checking_action action ≡ true
      → 0 < (update limits now action (add_bad_logins limits ts r)).1
  bad_logins_throttle start ts action r p i c le h past fresh many check =
      let (done, more) = recent-add_bad_logins start ts r c le h past in
      ground (
        arith,
        update_throttle limits now action (add_bad_logins limits ts r) p i done.0,
        more,
        recent-Fresh now limits.rate_limit_interval_ms ts fresh,
      )
