-- ===== src/Customs/Window.antt =====
-- The loop by which the records of fxa-customs-server/lib forget old timestamps. It stands, copied,
-- in each record's `trim…` method; the records' definitions call it with their own limits.
pub mod Trim
pub mod Covers
use fxa_local_dev.Prelude.{
  ℕ, zero, suc, ◌+◌, Bool, false, ◌&&◌, Option, none, some, List, ltb, ◌==◌, if◌then◌else◌, length,
  get_elem?, drop,
}

-- `hit > now - interval`; a comparison with `undefined` is false.
is_fresh : ℕ → ℕ → Option ℕ → Bool
is_fresh now interval none = false
is_fresh now interval (some hit) = ltb now (hit + interval)

-- The `while` loop, `i` being one more than in the source: the index of the first item to keep.
-- `n < room` is the source's `n <= max` for `room = max + 1`.
trim_from : ℕ → ℕ → ℕ → List ℕ → ℕ → ℕ → ℕ
unfolding is_fresh
trim_from now interval room items zero n = zero
trim_from now interval room items (suc i) n =
    let rest = trim_from now interval room items i (n + 1) in
    if is_fresh now interval (get_elem? items i) && ltb n room then rest else suc i

unfoldable pub trim : ℕ → ℕ → ℕ → List ℕ → List ℕ
unfolding trim_from
trim now interval room items =
    if length items == 0
    then items
    else drop (trim_from now interval room items (length items) 0) items
