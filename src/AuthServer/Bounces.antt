-- ===== src/AuthServer/Bounces.antt =====
-- lib/bounces.js of fxa-auth-server: whether an address may be sent another email. The bounces come
-- from the store, the latest first.
use fxa_local_dev.Prelude.{
  ℕ, suc, ◌+◌, Bool, true, false, Option, none, some, List, [], ◌∷◌, ltb, ◌==◌, if◌then◌else◌,
}
use fxa_local_dev.AuthDb.Store.{EmailBounce}

-- `BOUNCE_TYPE_HARD`, `BOUNCE_TYPE_SOFT` and `BOUNCE_TYPE_COMPLAINT`
pub data BounceType : Type 0 where
  hard soft complaint : BounceType

-- The types that `BOUNCE_RULES` has a key for.
unfoldable pub bounce_type_of : ℕ → Option BounceType
bounce_type_of n =
    if n == 1
    then some hard
    else if n == 2
    then some soft
    else if n == 3
    then some complaint
    else none

-- A rule set of the configuration: how long a tier lasts, by the number of bounces before.
abbrev pub Tiers : Type 0
Tiers = List (ℕ × ℕ)

unfoldable pub tier_at : ℕ → Tiers → Option ℕ
tier_at n [] = none
tier_at n ((count, tier) ∷ tiers) = if count == n then some tier else tier_at n tiers

-- `BOUNCE_RULES`
pub record BounceRules : Type 0 where
  pub hard_tiers : Tiers
  pub soft_tiers : Tiers
  pub complaint_tiers : Tiers

-- `BOUNCE_RULES[type]`
unfoldable pub tiers_of : BounceRules → BounceType → Tiers
tiers_of rules hard = rules.hard_tiers
tiers_of rules soft = rules.soft_tiers
tiers_of rules complaint = rules.complaint_tiers

pub record Tally : Type 0 where
  pub count : ℕ
  pub latest : ℕ

pub record Tallies : Type 0 where
  pub hard_tally : Tally
  pub soft_tally : Tally
  pub complaint_tally : Tally

unfoldable pub tally_of : Tallies → BounceType → Tally
tally_of ts hard = ts.hard_tally
tally_of ts soft = ts.soft_tally
tally_of ts complaint = ts.complaint_tally

unfoldable pub set_tally : BounceType → Tally → Tallies → Tallies
set_tally hard t ts = record ts { hard_tally = t }
set_tally soft t ts = record ts { soft_tally = t }
set_tally complaint t ts = record ts { complaint_tally = t }

abbrev pub no_tally : Tally
no_tally = record { count = 0; latest = 0 }

abbrev pub no_tallies : Tallies
no_tallies = record { hard_tally = no_tally; soft_tally = no_tally; complaint_tally = no_tally }

-- The errors of `ERRORS`, with the time of the latest bounce of the type.
pub data BounceError : Type 0 where
  email_bounced_hard email_bounced_soft email_complaint : ℕ → BounceError

unfoldable pub error_of : BounceType → ℕ → BounceError
error_of hard = email_bounced_hard
error_of soft = email_bounced_soft
error_of complaint = email_complaint

-- `tier && bounce.createdAt > now - tier`
unfoldable pub is_within_tier : Option ℕ → ℕ → ℕ → Bool
is_within_tier none created_at now = false
is_within_tier (some tier) created_at now = if tier == 0 then false else ltb now (created_at + tier)

-- `tally.latest`, once it is set
abbrev pub latest_of : Tally → ℕ → ℕ
latest_of t created_at = if t.latest == 0 then created_at else t.latest

-- The loop of `applyRules`; `none` is a return without an error.
unfoldable pub apply_from : BounceRules → ℕ → List EmailBounce → Tallies → Option BounceError
unfolding bounce_type_of tiers_of tier_at tally_of set_tally error_of is_within_tier
apply_from rules now [] ts = none
apply_from rules now (b ∷ bs) ts = elim (bounce_type_of b.bounce_type) [
  | none ↦ apply_from rules now bs ts
  | some type ↦
      let tally = tally_of ts type in
      let latest = latest_of tally b.created_at in
      elim (is_within_tier (tier_at tally.count (tiers_of rules type)) b.created_at now) [
        | true ↦ some (error_of type latest)
        | false ↦
            apply_from rules now bs
              (set_tally type (record { count = suc tally.count; latest = latest }) ts)
      ]
]

unfoldable pub apply_rules : BounceRules → ℕ → List EmailBounce → Option BounceError
unfolding apply_from
apply_rules rules now bounces = apply_from rules now bounces no_tallies

-- `check`, of the bounces that the store has of the address; `enabled` is `BOUNCES_ENABLED`.
unfoldable pub check_bounces : Bool → BounceRules → ℕ → List EmailBounce → Option BounceError
unfolding apply_rules
check_bounces enabled rules now bounces = if enabled then apply_rules rules now bounces else none
