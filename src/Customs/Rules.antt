-- ===== src/Customs/Rules.antt =====
-- `computeUserDefinedRules` of lib/server.js: which user-defined rules apply to an action.
use fxa_local_dev.Prelude.{
  ℕ, ◌+◌, String, Option, none, some, List, [], ◌∷◌, length, str_eq, if◌then◌else◌,
}
use fxa_local_dev.Customs.RuleRecord.{Rule}

-- A value of the map: an array of rule names, or the number that `items.push(key)` returns.
pub data RuleNames : Type 0 where
  names : List String → RuleNames
  number : ℕ → RuleNames

abbrev pub RuleMap : Type 0
RuleMap = List (String × RuleNames)

unfoldable pub lookup {ℓ} : {V : Type ℓ} → String → List (String × V) → Option V
lookup key [] = none
lookup key ((k, v) ∷ m) = if str_eq k key then some v else lookup key m

unfoldable pub insert {ℓ} : {V : Type ℓ} → String → V → List (String × V) → List (String × V)
insert key v [] = (key, v) ∷ []
insert key v ((k, w) ∷ m) = if str_eq k key then (k, v) ∷ m else (k, w) ∷ insert key v m

-- One round of the inner loop; `none` is the TypeError of `push` on a number.
unfoldable pub add_rule : String → RuleMap → String → Option RuleMap
unfolding lookup insert
add_rule key m action = elim (lookup action m) [
  | none ↦ some (insert action (names (key ∷ [])) m)
  | some (names items) ↦ some (insert action (number (length items + 1)) m)
  | some (number n) ↦ none
]

infixl 5 ◌>>=◌
abbrev pub ◌>>=◌ {ℓ κ} : {A : Type ℓ} {B : Type κ} → Option A → (A → Option B) → Option B
none >>= f = none
some a >>= f = f a

unfoldable pub add_actions : String → List String → RuleMap → Option RuleMap
unfolding add_rule
add_actions key [] m = some m
add_actions key (action ∷ actions) m = add_rule key m action >>= add_actions key actions

unfoldable pub compute_from : List (String × Rule) → RuleMap → Option RuleMap
unfolding add_actions
compute_from [] m = some m
compute_from ((key, rule) ∷ rules) m = add_actions key rule.actions m >>= compute_from rules

unfoldable pub compute_user_defined_rules : List (String × Rule) → Option RuleMap
unfolding compute_from
compute_user_defined_rules rules = compute_from rules []
