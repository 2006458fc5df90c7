-- ===== src/Prelude/Lists.antt =====
-- Lists measured and indexed by native numbers, under the library's names, and predicates on them.
use Prim.Native.Nat.{ℕ, zero, suc, ◌+◌, ◌-◌, ◌≤◌, ◌<◌}
use mathlib.Core.Path.{◌≡◌, refl, ap, subst}
use mathlib.Core.List.{List, [], ◌∷◌, ◌++◌}
use mathlib.Core.Option.{Option, none, some, some-injective}
use native.Mathlib.Omega.{arith}

module _ {ℓ} {A : Type ℓ} where
  abbrev pub length : List A → ℕ
  length [] = 0
  length (x ∷ xs) = suc (length xs)

  -- `xs[i]`, with `none` for `undefined`.
  abbrev pub get_elem? : List A → ℕ → Option A
  get_elem? [] i = none
  get_elem? (x ∷ xs) zero = some x
  get_elem? (x ∷ xs) (suc i) = get_elem? xs i

  -- `xs.slice(n)`.
  abbrev pub drop : ℕ → List A → List A
  drop zero xs = xs
  drop (suc n) [] = []
  drop (suc n) (x ∷ xs) = drop n xs

  abbrev pub take : ℕ → List A → List A
  take zero xs = []
  take (suc n) [] = []
  take (suc n) (x ∷ xs) = x ∷ take n xs

  pub length-append : (xs ys : List A) → length (xs ++ ys) ≡ length xs + length ys
  length-append [] ys = omega arith
  length-append (x ∷ xs) ys = omega (arith, length-append xs ys)

  pub length-drop : (n : ℕ) (xs : List A) → length (drop n xs) ≡ length xs - n
  length-drop zero xs = omega arith
  length-drop (suc n) [] = omega arith
  length-drop (suc n) (x ∷ xs) = omega (arith, length-drop n xs)

  pub drop-length : (xs : List A) → drop (length xs) xs ≡ []
  drop-length [] = refl
  drop-length (x ∷ xs) = drop-length xs

  pub take-append-drop : (n : ℕ) (xs : List A) → take n xs ++ drop n xs ≡ xs
  take-append-drop zero xs = refl
  take-append-drop (suc n) [] = refl
  take-append-drop (suc n) (x ∷ xs) = ap (◌∷◌ x) (take-append-drop n xs)

  -- An index in range names an element, which heads the rest of the list from there.
  pub drop_at :
      (i : ℕ) (xs : List A)
      → i < length xs
      → (x : A) × (get_elem? xs i ≡ some x) × (drop i xs ≡ x ∷ drop (suc i) xs)
  drop_at i [] h = absurd (omega arith)
  drop_at zero (x ∷ xs) h = (x, refl, refl)
  drop_at (suc i) (x ∷ xs) h = drop_at i xs (omega arith)

module _ {ℓ κ} {A : Type ℓ} (P : A → Type κ) where
  abbrev pub All : List A → Type κ
  All [] = Unit
  All (x ∷ xs) = P x × All xs

  pub All-append : (xs ys : List A) → All xs → All ys → All (xs ++ ys)
  All-append [] ys h k = k
  All-append (x ∷ xs) ys (p, h) k = (p, All-append xs ys h k)

  pub All-append_left : (xs ys : List A) → All (xs ++ ys) → All xs
  All-append_left [] ys h = tt
  All-append_left (x ∷ xs) ys (p, h) = (p, All-append_left xs ys h)

  pub All-append_right : (xs ys : List A) → All (xs ++ ys) → All ys
  All-append_right [] ys h = h
  All-append_right (x ∷ xs) ys (p, h) = All-append_right xs ys h

  pub All-drop : (n : ℕ) (xs : List A) → All xs → All (drop n xs)
  All-drop zero xs h = h
  All-drop (suc n) [] h = h
  All-drop (suc n) (x ∷ xs) (p, h) = All-drop n xs h

pub All-map {ℓ κ} :
    {A : Type ℓ} {P Q : A → Type κ} → ((a : A) → P a → Q a) → (xs : List A) → All P xs → All Q xs
All-map f [] h = tt
All-map f (x ∷ xs) (p, h) = (f x p, All-map f xs h)

-- From the oldest to the newest.
abbrev pub Ascending : List ℕ → Type 0
Ascending [] = Unit
Ascending (x ∷ xs) = All (λ y. x ≤ y) xs × Ascending xs

pub Ascending-append : (xs ys : List ℕ) → Ascending (xs ++ ys) → Ascending xs × Ascending ys
Ascending-append [] ys h = (tt, h)
Ascending-append (x ∷ xs) ys (p, h) =
    let rest = Ascending-append xs ys h in ((All-append_left (λ y. x ≤ y) xs ys p, rest.0), rest.1)

pub Ascending-drop : (n : ℕ) (xs : List ℕ) → Ascending xs → Ascending (drop n xs)
Ascending-drop zero xs h = h
Ascending-drop (suc n) [] h = h
Ascending-drop (suc n) (x ∷ xs) (p, h) = Ascending-drop n xs h

-- A time no earlier than all others may be pushed.
pub Ascending-push :
    (xs : List ℕ) (t : ℕ) → All (λ y. y ≤ t) xs → Ascending xs → Ascending (xs ++ t ∷ [])
Ascending-push [] t b h = (tt, tt)
Ascending-push (x ∷ xs) t (q, b) (p, h) =
    (All-append (λ y. x ≤ y) xs (t ∷ []) p (q, tt), Ascending-push xs t b h)

pub All-get_elem? {ℓ κ} :
    {A : Type ℓ} (P : A → Type κ) (xs : List A) (i : ℕ) {x : A}
    → All P xs
    → get_elem? xs i ≡ some x
    → P x
All-get_elem? P [] i h e = cc
All-get_elem? P (y ∷ xs) zero (p, h) e = subst P (some-injective _ _ e) p
All-get_elem? P (y ∷ xs) (suc i) (p, h) e = All-get_elem? P xs i h e

-- What stands before an element of an ascending list does not exceed it.
pub take-le-get_elem? :
    (xs : List ℕ) (i x : ℕ)
    → Ascending xs
    → get_elem? xs i ≡ some x
    → All (λ y. y ≤ x) (take (suc i) xs)
take-le-get_elem? [] i x h e = tt
take-le-get_elem? (y ∷ xs) zero x h e = (omega (arith, some-injective _ _ e), tt)
take-le-get_elem? (y ∷ xs) (suc i) x (p, h) e =
    (All-get_elem? (λ z. y ≤ z) xs i p e, take-le-get_elem? xs i x h e)
