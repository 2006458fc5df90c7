-- ===== src/Customs/Server/RuleClash.antt =====
-- What `/check` does with an action that two user-defined rules name.
use fxa_local_dev.Prelude.{
  ℕ, suc, ◌+◌, ◌≤◌, subst, String, ◌≡◌, refl, ap, ◌∙◌, sym, inl, inr, true, false, ◌||◌, Option,
  some, none, List, [], ◌∷◌, arith, length, str_eq, str_eq_iff, if◌then◌else◌, Option-cases,
  Bool-cases,
}
use mathlib.Core.Option.{some-injective}
use fxa_local_dev.Customs.RuleRecord.{Rule}
use fxa_local_dev.Customs.Rules.{
  RuleMap, RuleNames, names, number, lookup, insert, add_rule, add_actions, compute_from,
  compute_user_defined_rules, ◌>>=◌,
}
use fxa_local_dev.Customs.Server.{Env, checked, is_missing}
use fxa_local_dev.Customs.Server.Check.{
  Request, Promise, resolved, rejected, apply_rules, check_user_defined_rate_limit_rules,
  then_rules, respond_to, handle_error, check,
}

-- How often an action is named: in a list of actions, and in all rules.
abbrev named_in : String → List String → ℕ
named_in action [] = 0
named_in action (a ∷ actions) =
    let rest = named_in action actions in if str_eq a action then suc rest else rest

abbrev pub times_named : String → List (String × Rule) → ℕ
times_named action [] = 0
times_named action ((key, rule) ∷ rules) = named_in action rule.actions + times_named action rules

-- What the map holds of an action that was named so often, without an error till then.
abbrev Holds : ℕ → Option RuleNames → Type 0
Holds n none = n ≡ 0
Holds n (some (names items)) = (n ≡ 1) × (length items ≡ 1)
Holds n (some (number k)) = (n ≡ 2) × (k ≡ 2)

lookup-insert :
    (j k : String) (v : RuleNames) (m : RuleMap)
    → lookup j (insert k v m) ≡ (if str_eq k j then some v else lookup j m)
unfolding lookup insert
lookup-insert j k v [] = refl
lookup-insert j k v ((i, w) ∷ m) =
    ground (arith, str_eq_iff k j, str_eq_iff i k, str_eq_iff i j, lookup-insert j k v m)

-- What a call of `push` makes of the entry.
abbrev pushed : String → Option RuleNames → Option RuleNames
pushed key none = some (names (key ∷ []))
pushed key (some (names items)) = some (number (length items + 1))
pushed key (some (number k)) = none

pushed-Holds :
    (key : String) (n : ℕ) (o : Option RuleNames) (r : RuleNames)
    → Holds n o
    → pushed key o ≡ some r
    → Holds (suc n) (some r)
pushed-Holds key n none r h e = subst (λ o. Holds (suc n) o) e (ap suc h, refl)
pushed-Holds key n (some (names items)) r h e =
    subst (λ o. Holds (suc n) o) e (omega (arith, h.0), omega (arith, h.1))
pushed-Holds key n (some (number k)) r h e = cc

abbrev inserted : String → RuleMap → Option RuleNames → Option RuleMap
inserted a m none = none
inserted a m (some r) = some (insert a r m)

add_rule_lem :
    (key a : String) (m : RuleMap) → add_rule key m a ≡ inserted a m (pushed key (lookup a m))
unfolding add_rule
add_rule_lem key a m = elim (Option-cases (lookup a m)) [
  | inl new ↦ rw (add_rule, new) refl
  | inr (names items, one) ↦ rw (add_rule, one) refl
  | inr (number k, two) ↦ rw (add_rule, two) refl
]

add_rule-Holds :
    (action key a : String) (n : ℕ) (m m' : RuleMap)
    → Holds n (lookup action m)
    → add_rule key m a ≡ some m'
    → Holds (if str_eq a action then suc n else n) (lookup action m')
add_rule-Holds action key a n m m' h e =
    let e' = sym (add_rule_lem key a m) ∙ e in
    elim (Option-cases (pushed key (lookup a m))) [
      | inl failed ↦ cc (sym e' ∙ ap (inserted a m) failed)
      | inr (r, put) ↦
          let is_m' : insert a r m ≡ m' = some-injective _ _ (sym (ap (inserted a m) put) ∙ e') in
          subst (λ w. Holds (if str_eq a action then suc n else n) (lookup action w)) is_m'
            (rw (lookup-insert action a r m) (elim (Bool-cases (str_eq a action)) [
              | inl same ↦ rw same (
                  pushed-Holds key n (lookup action m) r h
                    (ap (λ k. pushed key (lookup k m)) (sym ((str_eq_iff a action).0 same)) ∙ put))
              | inr other ↦ rw other h
            ]))
    ]

add_actions-Holds :
    (action key : String) (actions : List String) (n : ℕ) (m m' : RuleMap)
    → Holds n (lookup action m)
    → add_actions key actions m ≡ some m'
    → Holds (n + named_in action actions) (lookup action m')
unfolding add_actions
add_actions-Holds action key [] n m m' h e =
    subst (λ m. Holds (n + 0) (lookup action m)) (some-injective _ _ e)
      (subst (λ i. Holds i (lookup action m)) (omega arith) h)
add_actions-Holds action key (a ∷ actions) n m m' h e = elim (Option-cases (add_rule key m a)) [
  | inl failed ↦ cc (sym e ∙ ap (λ o. o >>= add_actions key actions) failed)
  | inr (m₁, e₁) ↦
      subst (λ i. Holds i (lookup action m')) (ground arith)
        (add_actions-Holds action key actions _ m₁ m' (add_rule-Holds action key a n m m₁ h e₁)
          (sym (ap (λ o. o >>= add_actions key actions) e₁) ∙ e))
]

compute_from-Holds :
    (action : String) (rules : List (String × Rule)) (n : ℕ) (m m' : RuleMap)
    → Holds n (lookup action m)
    → compute_from rules m ≡ some m'
    → Holds (n + times_named action rules) (lookup action m')
unfolding compute_from
compute_from-Holds action [] n m m' h e =
    subst (λ m. Holds (n + 0) (lookup action m)) (some-injective _ _ e)
      (subst (λ i. Holds i (lookup action m)) (omega arith) h)
compute_from-Holds action ((key, rule) ∷ rules) n m m' h e =
    elim (Option-cases (add_actions key rule.actions m)) [
      | inl failed ↦ cc (sym e ∙ ap (λ o. o >>= compute_from rules) failed)
      | inr (m₁, e₁) ↦
          subst (λ i. Holds i (lookup action m')) (omega arith)
            (compute_from-Holds action rules _ m₁ m'
              (add_actions-Holds action key rule.actions n m m₁ h e₁)
              (sym (ap (λ o. o >>= compute_from rules) e₁) ∙ e))
    ]

Holds-number : (n : ℕ) (o : Option RuleNames) → Holds n o → 2 ≤ n → o ≡ some (number 2)
Holds-number n none h two = absurd (omega (arith, h))
Holds-number n (some (names items)) (once, one) two = absurd (omega arith)
Holds-number n (some (number k)) (twice, is_two) two = ap (λ i. some (number i)) is_two

module _ (env : Env) (q : Request) (email : String) (m : RuleMap) where
  then_rules-number :
      (p : Promise)
      → lookup q.action m ≡ some (number 2)
      → (respond_to env q email (then_rules env q email m p)).response
        ≡ checked true env.limits.rate_limit_interval_seconds (some false) none
  unfolding respond_to then_rules check_user_defined_rate_limit_rules apply_rules handle_error
  then_rules-number (resolved result ws) e = rw (e, apply_rules) refl
  then_rules-number (rejected ws) e = refl

-- Where the rules name an action twice or more, whatever they are, and the server starts with them:
-- `push` returned a number that took the place of the array of their names, and the action is blocked
-- for every complete request, however few there were and whoever is allowed.
pub clash_blocks :
    (env : Env) (q : Request) (rules : List (String × Rule)) (m : RuleMap)
    → compute_user_defined_rules rules ≡ some m
    → 2 ≤ times_named q.action rules
    → (is_missing q.email || is_missing q.ip || is_missing q.action) ≡ false
    → (check env m q).response
      ≡ checked true env.limits.rate_limit_interval_seconds (some false) none
unfolding check compute_user_defined_rules lookup
clash_blocks env q rules m e twice complete =
    let held = compute_from-Holds q.action rules 0 [] m refl e in
    rw complete
      (then_rules-number env q _ m _ (Holds-number _ (lookup q.action m) held (omega arith)))
