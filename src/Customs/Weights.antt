-- ===== src/Customs/Weights.antt =====
-- The weighing of bad logins in `isOverBadLogins` of lib/ip_record.js: each user counts once, with
-- the greatest weight among his events.
use fxa_local_dev.Prelude.{
  ℕ, ◌+◌, String, Bool, false, Option, none, some, List, [], ◌∷◌, max, ltb, ◌==◌, str_eq,
  if◌then◌else◌,
}
use fxa_local_dev.Customs.Objects.{contains, inherited}

-- A JavaScript number that is a natural number, or `NaN`.
abbrev pub Number : Type 0
Number = Option ℕ

-- `Math.max(a, b)`
abbrev pub number_max : Number → Number → Number
number_max none b = none
number_max (some a) none = none
number_max (some a) (some b) = some (max a b)

abbrev pub number_add : Number → Number → Number
number_add none b = none
number_add (some a) none = none
number_add (some a) (some b) = some (a + b)

-- `a > limit`
abbrev pub exceeds : Number → ℕ → Bool
exceeds none limit = false
exceeds (some a) limit = ltb limit a

-- `limits.badLoginErrnoWeights[errno] || 1`
unfoldable pub errno_weight : List (ℕ × ℕ) → ℕ → ℕ
errno_weight [] errno = 1
errno_weight ((e, w) ∷ table) errno =
    if e == errno then (if w == 0 then 1 else w) else errno_weight table errno

-- `weights[user] || 0`, as a number: `NaN || 0` is 0, and an inherited function or object becomes
-- `NaN`.
unfoldable pub weight_of : String → List (String × Number) → Number
weight_of user [] = if contains user inherited then none else some 0
weight_of user ((u, w) ∷ weights) =
    if str_eq u user then elim w [ none ↦ some 0 | some n ↦ some n ] else weight_of user weights

-- `weights[user] = w`; to set `__proto__` to a number does nothing.
unfoldable pub set_weight : String → Number → List (String × Number) → List (String × Number)
set_weight user w [] = if str_eq user "__proto__" then [] else (user, w) ∷ []
set_weight user w ((u, old) ∷ weights) =
    if str_eq u user then (u, w) ∷ weights else (u, old) ∷ set_weight user w weights

-- The sum over `Object.keys(weights)`
unfoldable pub total_weight : List (String × Number) → Number
total_weight [] = some 0
total_weight ((u, w) ∷ weights) = number_add w (total_weight weights)

-- The `forEach` loop, over the users and errnos of the events
unfoldable pub weigh :
    List (ℕ × ℕ) → List (String × ℕ) → List (String × Number) → List (String × Number)
unfolding weight_of set_weight errno_weight
weigh table [] weights = weights
weigh table ((user, errno) ∷ events) weights = weigh table events (
    set_weight user (number_max (some (errno_weight table errno)) (weight_of user weights)) weights)
