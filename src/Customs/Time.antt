-- ===== src/Customs/Time.antt =====
-- The clock arithmetic that every record of fxa-customs-server/lib shares. Times and intervals are
-- milliseconds; an absent timestamp is `undefined`. Differences are moved across the comparison,
-- since they may be negative: `now - t < interval` reads `now < t + interval`.
use fxa_local_dev.Prelude.{
  ℕ, ◌+◌, ◌-◌, ◌*◌, ◌/◌, ◌≤◌, ◌<◌, ◌≡◌, Bool, true, false, ◌&&◌, not, Option, none, some, arith,
  ltb, ◌==◌,
}

-- `t || 0`
unfoldable pub or_zero : Option ℕ → ℕ
or_zero none = 0
or_zero (some t) = t

-- `!!(t && (now - t < interval))`: a missing or zero timestamp is falsy.
unfoldable pub is_within : Option ℕ → ℕ → ℕ → Bool
is_within none interval now = false
is_within (some t) interval now = not (t == 0) && ltb now (t + interval)

-- `Math.max(0, Math.ceil(((t || 0) + interval - now) / 1000))`
unfoldable pub seconds_left : Option ℕ → ℕ → ℕ → ℕ
unfolding or_zero
seconds_left t interval now = (or_zero t + interval - now + 999) / 1000

-- While a ban lasts there is at least one second left of it.
pub seconds_left-pos :
    (t : Option ℕ) (interval now : ℕ)
    → is_within t interval now ≡ true
    → 0 < seconds_left t interval now
unfolding is_within seconds_left
seconds_left-pos none interval now h = ground arith
seconds_left-pos (some t) interval now h = ground arith

-- The seconds given reach the end of the ban, and exceed it by less than a second.
pub seconds_left_exact :
    (t interval now : ℕ)
    → now ≤ t + interval
    → (t + interval ≤ now + 1000 * seconds_left (some t) interval now)
      × (now + 1000 * seconds_left (some t) interval now < t + interval + 1000)
unfolding seconds_left
seconds_left_exact t interval now h = (omega arith, omega arith)

-- A ban that starts now holds for the interval, and no longer.
pub is_within_started :
    (t interval now : ℕ) → 0 < t → is_within (some t) interval now ≡ ltb now (t + interval)
unfolding is_within
is_within_started t interval now h = ground arith

pub is_within_early :
    (t interval now : ℕ) → 0 < t → now < t + interval → is_within (some t) interval now ≡ true
unfolding is_within
is_within_early t interval now h early = ground arith
