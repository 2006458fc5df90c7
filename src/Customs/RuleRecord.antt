-- ===== src/Customs/RuleRecord.antt =====
-- lib/record.js: what is remembered under one user-defined rate limit rule of the configuration.
pub mod Refinement
use fxa_local_dev.Prelude.{
  ℕ, ◌+◌, String, Bool, Option, none, some, List, [], ◌∷◌, ◌++◌, ltb, length, if◌then◌else◌,
}
use fxa_local_dev.Customs.Time.{is_within, seconds_left}
use fxa_local_dev.Customs.Window.{trim}
use fxa_local_dev.Customs.Objects.{contains}
use fxa_local_dev.Customs.EmailRecord.{or_list}

-- `config.limits` of a rule
pub record RuleLimits : Type 0 where
  pub max : ℕ
  pub period_ms : ℕ
  pub rate_limit_interval_ms : ℕ

pub record Rule : Type 0 where
  pub limits : RuleLimits
  pub actions : List String

-- The fields of the source's record that change; `limits` and `actions` are those of its rule.
pub record RuleRecord : Type 0 where
  pub rl : Option ℕ
  pub hits : List ℕ

pub record RuleObject : Type 0 where
  pub rl : Option ℕ
  pub hits : Option (List ℕ)

unfoldable pub new : Option RuleObject → RuleRecord
unfolding or_list
new none = record { rl = none; hits = [] }
new (some object) = record { rl = object.rl; hits = or_list object.hits [] }

unfoldable pub get_min_lifetime_ms : RuleLimits → ℕ
get_min_lifetime_ms limits = limits.rate_limit_interval_ms

module _ (limits : RuleLimits) (now : ℕ) where
  unfoldable pub trim_hits : RuleRecord → RuleRecord
  trim_hits r = record r { hits = trim now limits.period_ms (limits.max + 1) r.hits }

  unfoldable pub is_over_limit : RuleRecord → RuleRecord × Bool
  unfolding trim_hits
  is_over_limit r = let r' = trim_hits r in (r', ltb limits.max (length r'.hits))

  unfoldable pub add_hit : RuleRecord → RuleRecord
  add_hit r = record r { hits = r.hits ++ now ∷ [] }

  unfoldable pub is_rate_limited : RuleRecord → Bool
  is_rate_limited r = is_within r.rl limits.rate_limit_interval_ms now

  unfoldable pub rate_limit : RuleRecord → RuleRecord
  rate_limit r = record { rl = some now; hits = [] }

  unfoldable pub retry_after : RuleRecord → ℕ
  retry_after r = seconds_left r.rl limits.rate_limit_interval_ms now

  -- What follows the test `isOverLimit` of `update`.
  unfoldable pub limit_if_over : RuleRecord × Bool → RuleRecord × ℕ
  unfolding rate_limit retry_after
  limit_if_over (r, over) = if over then (rate_limit r, retry_after (rate_limit r)) else (r, 0)

-- `this.actions.indexOf(action) > -1` is `contains`.
unfoldable pub update : Rule → ℕ → String → RuleRecord → RuleRecord × ℕ
unfolding is_rate_limited retry_after add_hit is_over_limit limit_if_over
update rule now action r =
    if contains action rule.actions
    then if is_rate_limited rule.limits now r
      then (r, retry_after rule.limits now r)
      else limit_if_over rule.limits now (is_over_limit rule.limits now (add_hit rule.limits now r))
    else (r, 0)
