-- ===== src/AuthDb/Table/Laws.antt =====
-- What a table holds after each operation.
use mathlib.Core.Option.{some-injective}
use fxa_local_dev.Prelude.{
  ap, ◌⊎◌, String, ◌≡◌, refl, inl, inr, Bool, true, false, Option, none, some, [], ◌∷◌, arith,
  str_eq, str_eq_iff, if◌then◌else◌, Bool-cases,
}
use fxa_local_dev.AuthDb.Table.{Table, get, put, keep, remove, any, update_all}

-- The value, if it is one to keep.
abbrev pub only {ℓ} : {V : Type ℓ} → (V → Bool) → Option V → Option V
only p none = none
only p (some v) = if p v then some v else none

abbrev pub changed {ℓ} : {V : Type ℓ} → (V → V) → Option V → Option V
changed f none = none
changed f (some v) = some (f v)

module _ {ℓ} {V : Type ℓ} where
  -- No key stands twice.
  abbrev pub IsTable : Table V → Type ℓ
  IsTable [] = Unit
  IsTable ((k, v) ∷ m) = (get k m ≡ none) × IsTable m

  pub get-put :
      (j k : String) (v : V) (m : Table V)
      → get j (put k v m) ≡ (if str_eq k j then some v else get j m)
  unfolding get put
  get-put j k v [] = refl
  get-put j k v ((i, w) ∷ m) =
      ground (arith, str_eq_iff k j, str_eq_iff i k, str_eq_iff i j, get-put j k v m)

  pub put-IsTable : (k : String) (v : V) (m : Table V) → IsTable m → IsTable (put k v m)
  unfolding get put
  put-IsTable k v [] h = (refl, tt)
  put-IsTable k v ((i, w) ∷ m) h =
      ground (arith, str_eq_iff i k, get-put i k v m, put-IsTable k v m h.1, str_eq_iff k i)

  pub get-remove :
      (j k : String) (m : Table V) → get j (remove k m) ≡ (if str_eq k j then none else get j m)
  unfolding get remove keep
  get-remove j k [] = ground arith
  get-remove j k ((i, w) ∷ m) =
      ground (arith, str_eq_iff k j, str_eq_iff i k, str_eq_iff i j, get-remove j k m)

  pub get-keep-some :
      (p : String → V → Bool) (k : String) (v : V) (m : Table V)
      → get k m ≡ some v
      → p k v ≡ true
      → get k (keep p m) ≡ some v
  unfolding get keep
  get-keep-some p k v [] e h = e
  get-keep-some p k v ((i, w) ∷ m) e h = elim (Bool-cases (str_eq i k)) [
    | inl same ↦
        ground
          (arith, same, e, h, (str_eq_iff i k).0 same, ap (λ j. p j w) ((str_eq_iff i k).0 same))
    | inr other ↦ ground (arith, other, e, get-keep-some p k v m, h)
  ]

  pub keep_kept :
      (p : String → V → Bool) (k : String) (v : V) (m : Table V)
      → get k (keep p m) ≡ some v
      → p k v ≡ true
  unfolding get keep
  keep_kept p k v [] e = cc
  keep_kept p k v ((i, w) ∷ m) e = elim (Bool-cases (str_eq i k)) [
    | inl same ↦
        ground (arith, same, e, ap (λ j. p j w) ((str_eq_iff i k).0 same), keep_kept p k v m)
    | inr other ↦ ground (arith, other, e, keep_kept p k v m)
  ]

  pub get-keep-none :
      (p : String → V → Bool) (k : String) (m : Table V) → get k m ≡ none → get k (keep p m) ≡ none
  unfolding get keep
  get-keep-none p k [] e = refl
  get-keep-none p k ((i, w) ∷ m) e = ground (arith, e, get-keep-none p k m)

  pub keep-IsTable : (p : String → V → Bool) (m : Table V) → IsTable m → IsTable (keep p m)
  unfolding keep
  keep-IsTable p [] h = tt
  keep-IsTable p ((i, w) ∷ m) h = ground (arith, h, get-keep-none p i m h.0, keep-IsTable p m h.1)

  pub get-keep :
      (p : String → V → Bool) (k : String) (m : Table V)
      → IsTable m
      → get k (keep p m) ≡ only (p k) (get k m)
  unfolding get keep
  get-keep p k [] h = refl
  get-keep p k ((i, w) ∷ m) (new, h) = elim (Bool-cases (str_eq i k)) [
    | inl same ↦ ground (
      arith,
      same,
      new,
      ap (λ j. p j w) ((str_eq_iff i k).0 same),
      ap (λ j. get j m) ((str_eq_iff i k).0 same),
      get-keep-none p k m,
    )
    | inr other ↦ ground (arith, other, get-keep p k m h)
  ]

  pub get-update_all :
      (f : String → V → V) (k : String) (m : Table V)
      → get k (update_all f m) ≡ changed (f k) (get k m)
  unfolding get update_all
  get-update_all f k [] = refl
  get-update_all f k ((i, w) ∷ m) = elim (Bool-cases (str_eq i k)) [
    | inl same ↦ ground (arith, same, ap (λ j. f j w) ((str_eq_iff i k).0 same))
    | inr other ↦ ground (arith, other, get-update_all f k m)
  ]

  pub any-false :
      (p : String → V → Bool) (k : String) (v : V) (m : Table V)
      → any p m ≡ false
      → get k m ≡ some v
      → p k v ≡ false
  unfolding any get
  any-false p k v [] h e = cc
  any-false p k v ((i, w) ∷ m) h e = elim (Bool-cases (str_eq i k)) [
    | inl same ↦ ground (arith, same, h, e, ap (λ j. p j w) ((str_eq_iff i k).0 same))
    | inr other ↦ ground (arith, other, h, e, any-false p k v m)
  ]

  pub get-put_self : (k : String) (v : V) (m : Table V) → get k (put k v m) ≡ some v
  get-put_self k v m = ground (arith, get-put k k v m, str_eq_iff k k)

  pub remove_self : (k : String) (m : Table V) → get k (remove k m) ≡ none
  remove_self k m = ground (arith, get-remove k k m, str_eq_iff k k)

  -- What is found after `put` was put, or stood there under another key.
  pub put_cases :
      (j k : String) (v w : V) (m : Table V)
      → get j (put k v m) ≡ some w
      → ((k ≡ j) × (v ≡ w)) ⊎ ((str_eq k j ≡ false) × (get j m ≡ some w))
  put_cases j k v w m found = elim (Bool-cases (str_eq k j)) [
    | inl same ↦
        inl (
          (str_eq_iff k j).0 same,
          some-injective _ _ (ground (arith, same, found, get-put j k v m)),
        )
    | inr other ↦ inr (other, ground (arith, other, found, get-put j k v m))
  ]

  pub remove_cases :
      (j k : String) (w : V) (m : Table V)
      → get j (remove k m) ≡ some w
      → (str_eq k j ≡ false) × (get j m ≡ some w)
  remove_cases j k w m found = elim (Bool-cases (str_eq k j)) [
    | inl same ↦ absurd (ground (arith, same, found, get-remove j k m))
    | inr other ↦ (other, ground (arith, other, found, get-remove j k m))
  ]
