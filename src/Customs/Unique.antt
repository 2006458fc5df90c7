-- ===== src/Customs/Unique.antt =====
-- `_trim` and the counting loops of lib/ip_record.js: events that carry a time and a user, of which
-- only so many different users are kept and counted.
pub mod Distinct
pub mod Kept
use fxa_local_dev.Prelude.{
  ℕ, zero, suc, ◌+◌, String, Bool, false, ◌&&◌, Option, none, some, List, [], ◌∷◌, ltb, leb, ◌==◌,
  if◌then◌else◌, length, get_elem?, drop,
}
use fxa_local_dev.Customs.Objects.{has_key}

-- The loop of `isOverVerifyCodes` and `isOverAccountStatusCheck` over the users of the events;
-- `seen` is the object's own keys.
unfoldable pub count_unseen : List String → List String → ℕ
count_unseen seen [] = 0
count_unseen seen (u ∷ us) =
    let new = suc (count_unseen (u ∷ seen) us) in
    let rest = count_unseen seen us in if has_key u seen then rest else new

module _ {ℓ} {A : Type ℓ} (time : A → ℕ) (user : A → String) (now interval max_unique : ℕ) where
  -- `item.t > now - interval`; the loop does not read past the start of the list.
  is_fresh : Option A → Bool
  is_fresh none = false
  is_fresh (some item) = ltb now (time item + interval)

  user_of : Option A → String
  user_of none = ""
  user_of (some item) = user item

  -- The `while` loop, `i` being one more than in the source: the index of the first item to keep.
  -- It breaks at the start of the list.
  trim_unique_from : List A → ℕ → ℕ → List String → ℕ
  unfolding is_fresh user_of
  trim_unique_from items zero n seen = zero
  trim_unique_from items (suc i) n seen =
      let u = user_of (get_elem? items i) in
      let rest =
        trim_unique_from items i (if has_key u seen then n else suc n)
          (if has_key u seen then seen else u ∷ seen) in
      if is_fresh (get_elem? items i) && leb n max_unique then rest else suc i

  unfoldable pub trim_unique : List A → List A
  unfolding trim_unique_from
  trim_unique items =
      if length items == 0 then items else drop (trim_unique_from items (length items) 0 []) items
