-- ===== src/Customs/Window/Covers.antt =====
-- To forget old times and to keep them all comes to the same: the step of the simulation that the
-- records share.
use fxa_local_dev.Prelude.{
  ℕ, ◌+◌, ◌≤◌, ◌≡◌, sym, ap, ◌∙◌, subst, false, List, [], ◌∷◌, ◌++◌, inl, inr, arith, ltb, length,
  All, All-append, All-map, All-append_right, Ascending, Ascending-append, Ascending-push,
}
use mathlib.Core.List.{append_assoc}
use fxa_local_dev.Customs.Window.{trim}
use fxa_local_dev.Customs.Window.Trim.{
  Stale, recent, recent-append, recent-Stale, over_limit_iff, trim_split, trim-Ascending,
}

-- `kept` is `whole` without some old times, all of which are stale by `now`.
abbrev pub Covers : ℕ → ℕ → List ℕ → List ℕ → Type 0
Covers now interval whole kept =
    (gone : List ℕ) × (whole ≡ gone ++ kept) × All (Stale now interval) gone

-- The times of a record stand in order, and none of them is later than `now`.
abbrev pub IsPast : ℕ → List ℕ → Type 0
IsPast now xs = Ascending xs × All (λ x. x ≤ now) xs

pub IsPast-push : (now : ℕ) (xs : List ℕ) → IsPast now xs → IsPast now (xs ++ now ∷ [])
IsPast-push now xs (asc, past) =
    (Ascending-push xs now past asc, All-append (λ x. x ≤ now) xs (now ∷ []) past (omega arith, tt))

pub IsPast-later : (now later : ℕ) (xs : List ℕ) → now ≤ later → IsPast now xs → IsPast later xs
IsPast-later now later xs h (asc, past) = (asc, All-map (λ x le. omega arith) xs past)

pub Covers-later :
    (now later interval : ℕ) (whole kept : List ℕ)
    → now ≤ later
    → Covers now interval whole kept
    → Covers later interval whole kept
Covers-later now later interval whole kept h (gone, e, stale) =
    (gone, e, All-map (λ x le. omega arith) gone stale)

module _ (now interval limit : ℕ) (whole kept : List ℕ) where
  kept-IsPast : IsPast now whole → Covers now interval whole kept → IsPast now kept
  kept-IsPast (asc, past) (gone, e, stale) = (
    (Ascending-append gone kept (subst Ascending e asc)).1,
    All-append_right (λ x. x ≤ now) gone kept (subst (All (λ x. x ≤ now)) e past),
  )

  -- After one more event the trimmed list is over the limit just when the whole list is.
  pub over_limit-Covers :
      IsPast now whole
      → Covers now interval whole kept
      → ltb limit (length (trim now interval (limit + 1) (kept ++ now ∷ [])))
        ≡ ltb limit (recent now interval (whole ++ now ∷ []))
  over_limit-Covers past (gone, e, stale) =
      over_limit_iff now interval limit (kept ++ now ∷ [])
        (IsPast-push now kept (kept-IsPast past (gone, e, stale))).0
      ∙ ap (ltb limit) (sym same)
    where
      same : recent now interval (whole ++ now ∷ []) ≡ recent now interval (kept ++ now ∷ [])
      same =
          ap (λ xs. recent now interval (xs ++ now ∷ [])) e
          ∙ ap (recent now interval) (append_assoc gone kept (now ∷ []))
          ∙ recent-append now interval gone (kept ++ now ∷ [])
          ∙ omega (arith, recent-Stale now interval gone stale)

  -- If it is not, the trimmed list still covers the whole one.
  pub trim-Covers :
      IsPast now whole
      → Covers now interval whole kept
      → ltb limit (length (trim now interval (limit + 1) (kept ++ now ∷ []))) ≡ false
      → Covers now interval (whole ++ now ∷ []) (trim now interval (limit + 1) (kept ++ now ∷ []))
  trim-Covers past (gone, e, stale) below =
      let (more, e', why) =
        trim_split now interval (limit + 1) (kept ++ now ∷ [])
          (IsPast-push now kept (kept-IsPast past (gone, e, stale))).0 in
      (
        gone ++ more,
        ap (λ xs. xs ++ now ∷ []) e
            ∙ append_assoc gone kept (now ∷ [])
            ∙ ap (◌++◌ gone) e'
            ∙ sym (append_assoc gone more _),
        elim why [
          | inl more_stale ↦ All-append (Stale now interval) gone more stale more_stale
          | inr full ↦ absurd (ground arith)
        ],
      )

pub trim-IsPast :
    (now interval room : ℕ) (xs : List ℕ) → IsPast now xs → IsPast now (trim now interval room xs)
trim-IsPast now interval room xs (asc, past) =
    let (gone, e, why) = trim_split now interval room xs asc in
    (
      trim-Ascending now interval room xs asc,
      All-append_right (λ x. x ≤ now) gone _ (subst (All (λ x. x ≤ now)) e past),
    )
