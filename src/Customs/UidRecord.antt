-- ===== src/Customs/UidRecord.antt =====
-- lib/uid_record.js: the checks of one signed-in account, by action. `timestampsByAction` is an
-- association list; actions named like a member of `Object.prototype` are not modelled here.
pub mod Bans
use fxa_local_dev.Prelude.{
  ℕ, ◌+◌, ◌-◌, String, Bool, false, ◌&&◌, not, Option, none, some, List, [], ◌∷◌, ◌++◌, max, ltb,
  ◌==◌, str_eq, length, if◌then◌else◌,
}
use fxa_local_dev.Customs.Time.{or_zero}
use fxa_local_dev.Customs.Window.{trim}
use fxa_local_dev.Customs.Limits.{Limits}

pub record UidRecord : Type 0 where
  pub timestamps_by_action : List (String × List ℕ)
  pub rate_limited_timestamp : Option ℕ

pub record UidObject : Type 0 where
  pub timestamps_by_action : Option (List (String × List ℕ))
  pub rate_limited_timestamp : Option ℕ

unfoldable pub parse : Option UidObject → UidRecord
parse none = record { timestamps_by_action = []; rate_limited_timestamp = none }
parse (some object) = record {
  timestamps_by_action = elim object.timestamps_by_action [ none ↦ [] | some m ↦ m ];
  rate_limited_timestamp = object.rate_limited_timestamp;
}

unfoldable pub get_min_lifetime_ms : Limits → ℕ
get_min_lifetime_ms limits =
    max limits.uid_rate_limit_interval_ms limits.uid_rate_limit_ban_duration_ms

-- `items[action]`, with the empty list for `undefined`: `_trim` makes no difference between them.
unfoldable pub lookup : String → List (String × List ℕ) → List ℕ
lookup action [] = []
lookup action ((a, ts) ∷ m) = if str_eq a action then ts else lookup action m

-- `items[action] = ts`
unfoldable pub insert : String → List ℕ → List (String × List ℕ) → List (String × List ℕ)
insert action ts [] = (action, ts) ∷ []
insert action ts ((a, old) ∷ m) =
    if str_eq a action then (a, ts) ∷ m else (a, old) ∷ insert action ts m

module _ (limits : Limits) (now : ℕ) where
  -- `_trim` goes on while `n < max`.
  unfoldable pub trim_counts : String → UidRecord → UidRecord
  trim_counts action r = record r {
    timestamps_by_action =
        insert action
          (trim now limits.uid_rate_limit_interval_ms limits.max_checks_per_uid
            (lookup action r.timestamps_by_action))
          r.timestamps_by_action;
  }

  unfoldable pub rate_limit : UidRecord → UidRecord
  rate_limit r = record r { rate_limited_timestamp = some now }

  -- In milliseconds. It is called with a timestamp set, and not after the ban has ended.
  unfoldable pub get_retry_after : UidRecord → ℕ
  unfolding or_zero
  get_retry_after r = or_zero r.rate_limited_timestamp + limits.uid_rate_limit_ban_duration_ms - now

  -- `t && (t + ban > now)`
  unfoldable pub is_banned_since : Option ℕ → Bool
  is_banned_since none = false
  is_banned_since (some t) = not (t == 0) && ltb now (t + limits.uid_rate_limit_ban_duration_ms)

  unfoldable pub is_rate_limited : UidRecord → Bool
  unfolding is_banned_since
  is_rate_limited r = is_banned_since r.rate_limited_timestamp

  unfoldable pub get_possible_retry_delay : String → UidRecord → UidRecord × ℕ
  unfolding is_rate_limited rate_limit get_retry_after
  get_possible_retry_delay action r =
      if ltb (length (lookup action r.timestamps_by_action)) limits.max_checks_per_uid
      then (record r { rate_limited_timestamp = none }, 0)
      else let r' = if is_rate_limited r then r else rate_limit r in (r', get_retry_after r')

  -- `this.timestampsByAction[action].push(timestamp)`
  unfoldable pub push_timestamp : String → UidRecord → UidRecord
  push_timestamp action r = record r {
    timestamps_by_action =
        insert action (lookup action r.timestamps_by_action ++ now ∷ []) r.timestamps_by_action;
  }

  unfoldable pub add_count : String → UidRecord → UidRecord × ℕ
  unfolding trim_counts push_timestamp is_rate_limited get_possible_retry_delay
  add_count action r =
      let r' = trim_counts action r in
      get_possible_retry_delay action (if is_rate_limited r' then r' else push_timestamp action r')
