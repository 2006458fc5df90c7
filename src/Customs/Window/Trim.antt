-- ===== src/Customs/Window/Trim.antt =====
-- What `trim` keeps.
use fxa_local_dev.Prelude.{
  All-append_right, min, Ascending-append, subst, ℕ, zero, suc, ◌+◌, ◌≤◌, ◌<◌, ◌≡◌, ◌⊎◌, List, [],
  ◌∷◌, ◌++◌, arith, length, get_elem?, drop, take, All, All-map, Ascending, drop_at, Bool-cases,
  ltb, ◌&&◌, refl, inl, inr, length-drop, some, if◌then◌else◌, take-append-drop, drop-length,
  take-le-get_elem?, ap, sym, ◌∙◌,
}
use fxa_local_dev.Customs.Window.{trim_from, trim}

-- `x` lies within the interval that ends now.
abbrev pub Fresh : ℕ → ℕ → ℕ → Type 0
Fresh now interval x = now < x + interval

abbrev pub Stale : ℕ → ℕ → ℕ → Type 0
Stale now interval x = x + interval ≤ now

-- How many of the times lie within the interval that ends now.
unfoldable pub recent : ℕ → ℕ → List ℕ → ℕ
recent now interval [] = 0
recent now interval (x ∷ xs) = (if ltb now (x + interval) then 1 else 0) + recent now interval xs

pub recent-append :
    (now interval : ℕ) (xs ys : List ℕ)
    → recent now interval (xs ++ ys) ≡ recent now interval xs + recent now interval ys
unfolding recent
recent-append now interval [] ys = omega arith
recent-append now interval (x ∷ xs) ys = omega (arith, recent-append now interval xs ys)

pub recent-le-length : (now interval : ℕ) (xs : List ℕ) → recent now interval xs ≤ length xs
unfolding recent
recent-le-length now interval [] = omega arith
recent-le-length now interval (x ∷ xs) = ground (arith, recent-le-length now interval xs)

pub recent-Fresh :
    (now interval : ℕ) (xs : List ℕ)
    → All (Fresh now interval) xs
    → recent now interval xs ≡ length xs
unfolding recent
recent-Fresh now interval [] h = refl
recent-Fresh now interval (x ∷ xs) (p, h) = ground (arith, recent-Fresh now interval xs h)

pub recent-Stale :
    (now interval : ℕ) (xs : List ℕ) → All (Stale now interval) xs → recent now interval xs ≡ 0
unfolding recent
recent-Stale now interval [] h = refl
recent-Stale now interval (x ∷ xs) (p, h) = ground (arith, recent-Stale now interval xs h)

trim_lem :
    (now interval room : ℕ) (items : List ℕ)
    → trim now interval room items ≡ drop (trim_from now interval room items (length items) 0) items
unfolding trim trim_from
trim_lem now interval room [] = refl
trim_lem now interval room (x ∷ xs) = ground arith

module _ (now interval room : ℕ) (items : List ℕ) where
  -- Why the loop stopped at `k`: it came to the start, it filled the room, or the item before is
  -- stale.
  abbrev Stops : ℕ → Type 0
  Stops k =
      (k ≡ 0)
      ⊎ ((length items ≡ k + room)
          ⊎ ((j : ℕ) × (x : ℕ) × (k ≡ suc j) × (get_elem? items j ≡ some x) × (x + interval ≤ now)))

  abbrev Kept : ℕ → Type 0
  Kept k =
      All (Fresh now interval) (drop k items)
      × (k ≤ length items)
      × (length items ≤ k + room)
      × Stops k

  trim_from-Kept :
      (i n : ℕ)
      → i + n ≡ length items
      → n ≤ room
      → All (Fresh now interval) (drop i items)
      → Kept (trim_from now interval room items i n)
  unfolding trim_from
  trim_from-Kept zero n e le h = (h, omega arith, omega arith, inl refl)
  trim_from-Kept (suc i) n e le h =
      let (x, at, d) = drop_at i items (omega arith) in
      elim (Bool-cases (ltb now (x + interval) && ltb n room)) [
        | inl more ↦
            rw (at, more)
              (trim_from-Kept i (n + 1) (omega arith) (ground arith) (rw d (ground arith, h)))
        | inr stop ↦
            rw (at, stop)
              (
                h,
                omega arith,
                omega arith,
                elim (Bool-cases (ltb n room)) [
                  | inl room_left ↦ inr (inr (i, x, refl, at, ground arith))
                  | inr full ↦ inr (inl (ground arith))
                ],
              )
      ]

  trim-Kept : (k : ℕ) × (trim now interval room items ≡ drop k items) × Kept k
  trim-Kept = (
    trim_from now interval room items (length items) 0,
    trim_lem now interval room items,
    trim_from-Kept (length items) 0 (omega arith) (omega arith) (rw drop-length tt),
  )

  pub trim-Fresh : All (Fresh now interval) (trim now interval room items)
  trim-Fresh = let (k, e, kept) = trim-Kept in rw e kept.0

  pub length-trim-le : length (trim now interval room items) ≤ room
  length-trim-le = let (k, e, kept) = trim-Kept in rw e (omega (arith, kept.2, length-drop k items))

  -- What was forgotten, and that it was stale unless the room was filled.
  pub trim_split :
      Ascending items
      → (gone : List ℕ) × (items ≡ gone ++ trim now interval room items)
        × (All (Stale now interval) gone ⊎ (length (trim now interval room items) ≡ room))
  trim_split asc =
      let (k, e, kept) = trim-Kept in
      (
        take k items,
        rw e (sym (take-append-drop k items)),
        rw e (elim kept.3 [
          | inl start ↦ inl (rw start tt)
          | inr (inl full) ↦ inr (omega (arith, kept.1, length-drop k items))
          | inr (inr (j, x, at_k, at, stale)) ↦ inl (
              rw at_k (
                All-map (λ y le. omega arith) (take (suc j) items)
                  (take-le-get_elem? items j x asc at)))
        ]),
      )

-- On times from oldest to newest the trimmed list has as many times as lie within the interval,
-- the room being its limit.
pub length-trim :
    (now interval room : ℕ) (items : List ℕ)
    → Ascending items
    → length (trim now interval room items) ≡ min room (recent now interval items)
length-trim now interval room items asc =
    let (gone, e, why) = trim_split now interval room items asc in
    let kept = trim now interval room items in
    let counted : recent now interval items ≡ recent now interval gone + length kept =
      ap (recent now interval) e
      ∙ recent-append now interval gone kept
      ∙ ap (λ (t : ℕ). recent now interval gone + t)
          (recent-Fresh now interval kept (trim-Fresh now interval room items)) in
    elim why [
      | inl stale ↦ omega (
        arith,
        counted,
        recent-Stale now interval gone stale,
        length-trim-le now interval room items,
      )
      | inr full ↦ omega (arith, counted, full)
    ]

-- So a record is over its limit just when more times than the limit lie within the interval.
pub over_limit_iff :
    (now interval limit : ℕ) (items : List ℕ)
    → Ascending items
    → ltb limit (length (trim now interval (limit + 1) items))
      ≡ ltb limit (recent now interval items)
over_limit_iff now interval limit items asc =
    ground (arith, length-trim now interval (limit + 1) items asc)

pub trim-Ascending :
    (now interval room : ℕ) (items : List ℕ)
    → Ascending items
    → Ascending (trim now interval room items)
trim-Ascending now interval room items asc =
    let (gone, e, why) = trim_split now interval room items asc in
    (Ascending-append gone (trim now interval room items) (subst Ascending e asc)).1

-- Of two parts of an ascending list, the first is stale or the second is fresh.
recent_parts :
    (now interval : ℕ) (gone kept : List ℕ)
    → Ascending (gone ++ kept)
    → (recent now interval gone ≡ 0) ⊎ (recent now interval kept ≡ length kept)
unfolding recent
recent_parts now interval [] kept asc = inl refl
recent_parts now interval (x ∷ gone) kept (above, asc) =
    elim (Bool-cases (ltb now (x + interval))) [
      | inl fresh ↦ inr (
          recent-Fresh now interval kept (
            All-map (λ y le. ground (arith, fresh, le)) kept
              (All-append_right (λ y. x ≤ y) gone kept above)))
      | inr stale ↦ rw stale (elim (recent_parts now interval gone kept asc) [
        | inl none_fresh ↦ inl (omega arith)
        | inr all_fresh ↦ inr all_fresh
      ])
    ]

-- What is trimmed now is not missed later.
pub recent-trim_ge :
    (now later interval room : ℕ) (items : List ℕ)
    → now ≤ later
    → Ascending items
    → min room (recent later interval items) ≤ recent later interval (trim now interval room items)
recent-trim_ge now later interval room items h asc =
    let (gone, e, why) = trim_split now interval room items asc in
    let kept = trim now interval room items in
    let counted : recent later interval items
        ≡ recent later interval gone + recent later interval kept =
      ap (recent later interval) e ∙ recent-append later interval gone kept in
    elim why [
      | inl stale ↦ omega (
        arith,
        counted,
        recent-Stale later interval gone (All-map (λ x le. omega arith) gone stale),
      )
      | inr full ↦ elim (recent_parts later interval gone kept (subst Ascending e asc)) [
        | inl gone_stale ↦ omega (arith, counted)
        | inr kept_fresh ↦ omega (arith, kept_fresh, full)
      ]
    ]
