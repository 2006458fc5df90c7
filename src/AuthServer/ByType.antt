-- ===== src/AuthServer/ByType.antt =====
-- The loop of `applyRules` of lib/bounces.js, by the bounces of each type.
use fxa_local_dev.Prelude.{
  ℕ, suc, ◌≡◌, refl, inl, inr, Bool, true, false, ◌||◌, Option, none, some, List, [], ◌∷◌, arith,
  if◌then◌else◌, Bool-cases, Option-cases,
}
use fxa_local_dev.AuthDb.Store.{EmailBounce, is_set}
use fxa_local_dev.AuthServer.Bounces.{
  Tally, error_of, latest_of, BounceRules, BounceType, Tallies, Tiers, apply_from, bounce_type_of,
  complaint, hard, is_within_tier, set_tally, soft, tally_of, tier_at, tiers_of,
}

abbrev pub same_type : BounceType → BounceType → Bool
same_type hard hard = true
same_type soft soft = true
same_type complaint complaint = true
same_type hard soft = false
same_type hard complaint = false
same_type soft hard = false
same_type soft complaint = false
same_type complaint hard = false
same_type complaint soft = false

abbrev pub is_of_type : BounceType → Option BounceType → Bool
is_of_type type none = false
is_of_type type (some t) = same_type type t

-- The times of the bounces of one type, in their order.
unfoldable pub times_of : BounceType → List EmailBounce → List ℕ
unfolding bounce_type_of
times_of type [] = []
times_of type (b ∷ bs) =
    let rest = times_of type bs in
    if is_of_type type (bounce_type_of b.bounce_type) then b.created_at ∷ rest else rest

-- Whether some bounce lies within the tier of the number of bounces before it.
unfoldable pub is_over_from : Tiers → ℕ → ℕ → List ℕ → Bool
unfolding is_within_tier tier_at
is_over_from tiers now n [] = false
is_over_from tiers now n (t ∷ ts) =
    is_within_tier (tier_at n tiers) t now || is_over_from tiers now (suc n) ts

module _ (rules : BounceRules) (now : ℕ) where
  abbrev pub over : BounceType → ℕ → List EmailBounce → Bool
  over type n bs = is_over_from (tiers_of rules type) now n (times_of type bs)

  abbrev pub within : BounceType → EmailBounce → Tallies → Bool
  within type b ts =
      is_within_tier (tier_at (tally_of ts type).count (tiers_of rules type)) b.created_at now

  abbrev counted : BounceType → EmailBounce → Tallies → Tally
  counted type b ts = record {
    count = suc (tally_of ts type).count;
    latest = latest_of (tally_of ts type) b.created_at;
  }

  pub apply_from-refused :
      (type : BounceType) (b : EmailBounce) (bs : List EmailBounce) (ts : Tallies)
      → bounce_type_of b.bounce_type ≡ some type
      → within type b ts ≡ true
      → apply_from rules now (b ∷ bs) ts
        ≡ some (error_of type (latest_of (tally_of ts type) b.created_at))
  unfolding apply_from
  apply_from-refused type b bs ts known refused = rw (known, refused, apply_from) refl

  apply_from-passed :
      (type : BounceType) (b : EmailBounce) (bs : List EmailBounce) (ts : Tallies)
      → bounce_type_of b.bounce_type ≡ some type
      → within type b ts ≡ false
      → apply_from rules now (b ∷ bs) ts
        ≡ apply_from rules now bs (set_tally type (counted type b ts) ts)
  unfolding apply_from
  apply_from-passed type b bs ts known passed = rw (known, passed, apply_from) refl

  -- The loop refuses just if one of the three types does.
  abbrev pub IsTalliedAt : List EmailBounce → Tallies → Type 0
  IsTalliedAt bs ts = is_set (apply_from rules now bs ts) ≡ (
      over hard ts.hard_tally.count bs
      || over soft ts.soft_tally.count bs
      || over complaint ts.complaint_tally.count bs)

  abbrev pub IsTallied : List EmailBounce → Type 0
  IsTallied bs = (ts : Tallies) → IsTalliedAt bs ts

  tallied-hard :
      (b : EmailBounce) (bs : List EmailBounce) (ts : Tallies)
      → bounce_type_of b.bounce_type ≡ some hard
      → IsTallied bs
      → IsTalliedAt (b ∷ bs) ts
  unfolding times_of is_over_from tally_of set_tally tiers_of
  tallied-hard b bs ts known h = elim (Bool-cases (within hard b ts)) [
    | inl refused ↦
        rw (apply_from-refused hard b bs ts known refused, known, times_of, is_over_from)
          (ground (arith, refused))
    | inr passed ↦
        rw (apply_from-passed hard b bs ts known passed, known, times_of, is_over_from, passed)
          (h (set_tally hard (counted hard b ts) ts))
  ]

  tallied-soft :
      (b : EmailBounce) (bs : List EmailBounce) (ts : Tallies)
      → bounce_type_of b.bounce_type ≡ some soft
      → IsTallied bs
      → IsTalliedAt (b ∷ bs) ts
  unfolding times_of is_over_from tally_of set_tally tiers_of
  tallied-soft b bs ts known h = elim (Bool-cases (within soft b ts)) [
    | inl refused ↦
        rw (apply_from-refused soft b bs ts known refused, known, times_of, is_over_from)
          (ground (arith, refused))
    | inr passed ↦
        rw (apply_from-passed soft b bs ts known passed, known, times_of, is_over_from, passed)
          (h (set_tally soft (counted soft b ts) ts))
  ]

  tallied-complaint :
      (b : EmailBounce) (bs : List EmailBounce) (ts : Tallies)
      → bounce_type_of b.bounce_type ≡ some complaint
      → IsTallied bs
      → IsTalliedAt (b ∷ bs) ts
  unfolding times_of is_over_from tally_of set_tally tiers_of
  tallied-complaint b bs ts known h = elim (Bool-cases (within complaint b ts)) [
    | inl refused ↦
        rw (apply_from-refused complaint b bs ts known refused, known, times_of, is_over_from)
          (ground (arith, refused))
    | inr passed ↦
        rw (apply_from-passed complaint b bs ts known passed, known, times_of, is_over_from, passed)
          (h (set_tally complaint (counted complaint b ts) ts))
  ]

  tallied-other :
      (b : EmailBounce) (bs : List EmailBounce) (ts : Tallies)
      → bounce_type_of b.bounce_type ≡ none
      → IsTallied bs
      → IsTalliedAt (b ∷ bs) ts
  unfolding apply_from times_of
  tallied-other b bs ts unknown h = rw (unknown, apply_from, times_of) (h ts)

  pub apply_from_lem : (bs : List EmailBounce) → IsTallied bs
  unfolding apply_from times_of is_over_from
  apply_from_lem [] ts = refl
  apply_from_lem (b ∷ bs) ts = elim (Option-cases (bounce_type_of b.bounce_type)) [
    | inl unknown ↦ tallied-other b bs ts unknown (apply_from_lem bs)
    | inr (hard, known) ↦ tallied-hard b bs ts known (apply_from_lem bs)
    | inr (soft, known) ↦ tallied-soft b bs ts known (apply_from_lem bs)
    | inr (complaint, known) ↦ tallied-complaint b bs ts known (apply_from_lem bs)
  ]
