-- ===== src/AuthServer/Tallies.antt =====
-- The tallies of lib/bounces.js amount to a test of each type of bounce by itself.
use fxa_local_dev.Prelude.{
  ℕ, suc, ◌+◌, ◌<◌, ◌≡◌, refl, inl, inr, Bool, true, false, ◌||◌, ◌&&◌, ltb, ◌==◌, some, List, [],
  ◌∷◌, arith, if◌then◌else◌, Bool-cases,
}
use fxa_local_dev.AuthDb.Table.{get}
use fxa_local_dev.AuthDb.Table.Laws.{get-put_self}
use fxa_local_dev.AuthDb.Store.{EmailBounce, Store, is_set}
use fxa_local_dev.AuthDb.Emails.{bounces_of, create_email_bounce, fetch_email_bounces}
use fxa_local_dev.AuthServer.Bounces.{
  error_of, BounceRules, BounceType, Tiers, apply_rules, bounce_type_of, check_bounces, complaint,
  email_bounced_hard, hard, is_within_tier, no_tallies, soft, tally_of, tier_at, tiers_of,
}
use fxa_local_dev.AuthServer.ByType.{
  is_of_type, times_of, is_over_from, apply_from_lem, apply_from-refused,
}

-- How long a bounce counts if `n` others come before it; 0 where the rules set no time.
unfoldable pub counts_for : ℕ → Tiers → ℕ
counts_for n [] = 0
counts_for n ((count, tier) ∷ tiers) = if count == n then tier else counts_for n tiers

-- The times of the bounces of the type with this number.
unfoldable pub made_at : ℕ → List EmailBounce → List ℕ
made_at type [] = []
made_at type (b ∷ bs) =
    let rest = made_at type bs in if b.bounce_type == type then b.created_at ∷ rest else rest

-- Whether one of the times is younger than a bounce counts for, `n` others being before the first.
unfoldable pub too_young : ℕ → Tiers → ℕ → List ℕ → Bool
unfolding counts_for
too_young now tiers n [] = false
too_young now tiers n (t ∷ ts) =
    let time = counts_for n tiers in
    (ltb 0 time && ltb now (t + time)) || too_young now tiers (suc n) ts

within-counts_for :
    (tiers : Tiers) (n t now : ℕ)
    → is_within_tier (tier_at n tiers) t now
      ≡ (ltb 0 (counts_for n tiers) && ltb now (t + counts_for n tiers))
unfolding is_within_tier tier_at counts_for
within-counts_for [] n t now = refl
within-counts_for ((count, tier) ∷ tiers) n t now = elim (Bool-cases (count == n)) [
  | inl here ↦ rw here (ground arith)
  | inr other ↦ rw other (within-counts_for tiers n t now)
]

over-too_young :
    (tiers : Tiers) (now n : ℕ) (ts : List ℕ)
    → is_over_from tiers now n ts ≡ too_young now tiers n ts
unfolding is_over_from too_young
over-too_young tiers now n [] = refl
over-too_young tiers now n (t ∷ ts) =
    ground (arith, within-counts_for tiers n t now, over-too_young tiers now (suc n) ts)

abbrev number_of : BounceType → ℕ
number_of hard = 1
number_of soft = 2
number_of complaint = 3

is_of_type-number_of :
    (type : BounceType) (n : ℕ) → is_of_type type (bounce_type_of n) ≡ (n == number_of type)
unfolding bounce_type_of
is_of_type-number_of hard n = ground arith
is_of_type-number_of soft n = ground arith
is_of_type-number_of complaint n = ground arith

times_of-made_at :
    (type : BounceType) (bs : List EmailBounce) → times_of type bs ≡ made_at (number_of type) bs
unfolding times_of made_at
times_of-made_at type [] = refl
times_of-made_at type (b ∷ bs) =
    rw (is_of_type-number_of type b.bounce_type, times_of-made_at type bs) refl

module _ (rules : BounceRules) (now : ℕ) where
  is_hard_type : (b : EmailBounce) → b.bounce_type ≡ 1 → bounce_type_of b.bounce_type ≡ some hard
  unfolding bounce_type_of
  is_hard_type b is_hard = rw is_hard refl

  within_first :
      (tier at : ℕ) → 0 < tier → now < at + tier → is_within_tier (some tier) at now ≡ true
  unfolding is_within_tier
  within_first tier at pos early = ground arith

  -- While the checks are enabled, an address is refused just if some bounce of type 1 (hard), 2 (soft)
  -- or 3 (complaint) is younger than the time that its rules set for the number of bounces of its
  -- type before it in the list, which is the latest first; an age that equals that time is old
  -- enough, and a number with no time, or with 0, refuses nothing. Else no address is.
  pub check_bounces_exact :
      (enabled : Bool) (bounces : List EmailBounce)
      → is_set (check_bounces enabled rules now bounces) ≡ (
          if enabled
          then too_young now rules.hard_tiers 0 (made_at 1 bounces)
            || too_young now rules.soft_tiers 0 (made_at 2 bounces)
            || too_young now rules.complaint_tiers 0 (made_at 3 bounces)
          else false)
  unfolding check_bounces apply_rules tiers_of
  check_bounces_exact true bounces =
      rw
        (
          ← over-too_young rules.hard_tiers now 0 (made_at 1 bounces),
          ← over-too_young rules.soft_tiers now 0 (made_at 2 bounces),
          ← over-too_young rules.complaint_tiers now 0 (made_at 3 bounces),
          ← times_of-made_at hard bounces,
          ← times_of-made_at soft bounces,
          ← times_of-made_at complaint bounces,
        )
        (apply_from_lem rules now bounces no_tallies)
  check_bounces_exact false bounces = refl

  -- A hard bounce that the store records is the first that it returns, so that the address is refused
  -- until the first tier after the bounce is over, with the time of the bounce.
  pub check-create_email_bounce :
      (at tier : ℕ) (b : EmailBounce) (s : Store)
      → b.bounce_type ≡ 1
      → tier_at 0 rules.hard_tiers ≡ some tier
      → 0 < tier
      → now < at + tier
      → check_bounces true rules now (fetch_email_bounces b.email (create_email_bounce at b s).1)
        ≡ some (email_bounced_hard at)
  unfolding check_bounces apply_rules fetch_email_bounces create_email_bounce tally_of tiers_of
      error_of
  check-create_email_bounce at tier b s is_hard first pos early =
      let b' : EmailBounce = record b { created_at = at } in
      let bs = bounces_of (get b.email s.email_bounces) in
      rw (get-put_self b.email (b' ∷ bs) s.email_bounces) (
        apply_from-refused rules now hard b' bs no_tallies (is_hard_type b is_hard)
          (rw first (within_first tier at pos early)))
