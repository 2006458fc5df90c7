-- ===== src/Customs/Server/FailClosed.antt =====
-- What the checks of lib/server.js answer when memcached does not take a record: block.
use fxa_local_dev.Prelude.{
  ℕ, ◌==◌, String, ◌≡◌, refl, inl, inr, Bool, true, false, ◌||◌, Option, some, none, List, [], ◌∷◌,
  ◌++◌, arith, if◌then◌else◌, Bool-cases, Option-cases,
}
use fxa_local_dev.Customs.IpRecord
use fxa_local_dev.Customs.IpRecord.{IpRecord}
use fxa_local_dev.Customs.EmailRecord.{EmailRecord}
use fxa_local_dev.Customs.IpEmailRecord.{IpEmailRecord}
use fxa_local_dev.Customs.SmsRecord.{SmsRecord}
use fxa_local_dev.Customs.Rules.{RuleMap, RuleNames, names, number, lookup}
use fxa_local_dev.Customs.Server.{Env, Memcached, checked, Result, Write, all_succeed, is_missing}
use fxa_local_dev.Customs.Server.Check.{
  Request, Promise, resolved, rejected, Retries, all_done, stopped, settle, update_records,
  check_records, check_rule, check_rules, finish_rules, apply_rules,
  check_user_defined_rate_limit_rules, then_rules, is_listed, create_response, respond_to,
  handle_error, check,
}

all_succeed-append :
    (mc : Memcached) (ws : List Write) (w : Write)
    → all_succeed mc ws ≡ true
    → mc.set_succeeds w ≡ true
    → all_succeed mc (ws ++ w ∷ []) ≡ true
unfolding all_succeed
all_succeed-append mc [] w h k = ground (arith, k)
all_succeed-append mc (v ∷ ws) w h k = ground (arith, all_succeed-append mc ws w, h, k)

module _ (env : Env) (q : Request) (email : String) where
  -- A promise that is not rejected has had all its writes taken.
  abbrev IsHonest : Promise → Type 0
  IsHonest (resolved r ws) = all_succeed env.mc ws ≡ true
  IsHonest (rejected ws) = Unit

  if-IsHonest :
      (b : Bool) (r : Result) (ws : List Write)
      → (b ≡ true → all_succeed env.mc ws ≡ true)
      → IsHonest (if b then resolved r ws else rejected ws)
  if-IsHonest true r ws h = h refl
  if-IsHonest false r ws h = tt

  settle-IsHonest :
      (ir : IpRecord) (er : EmailRecord) (ier : IpEmailRecord) (sr : Option SmsRecord)
      (reputation : Option ℕ) (retry_after : ℕ) (listed : Bool)
      → IsHonest (settle env q email ir er ier sr reputation retry_after listed)
  unfolding settle
  settle-IsHonest ir er ier sr reputation retry_after listed = if-IsHonest _ _ _ (λ h. h)

  check_records-IsHonest :
      (ir : IpRecord) (er : EmailRecord) (ier : IpEmailRecord) (sr : Option SmsRecord)
      (reputation : Option ℕ)
      → IsHonest (check_records env q email ir er ier sr reputation)
  unfolding check_records update_records all_succeed
  check_records-IsHonest ir er ier sr reputation =
      elim (Bool-cases (IpRecord.is_blocked env.limits env.now ir)) [
        | inl blocked ↦ rw blocked refl
        | inr free ↦ rw free (elim (Option-cases (is_listed env q.ip)) [
          | inl throws ↦ rw (throws, update_records) tt
          | inr (listed, answers) ↦
              rw (answers, update_records) (settle-IsHonest _ _ _ _ _ _ listed)
        ])
      ]

  -- So with the retries of the rules.
  abbrev IsTaken : Retries → Type 0
  IsTaken (all_done ts ws) = all_succeed env.mc ws ≡ true
  IsTaken (stopped ws) = Unit

  check_rules-IsTaken :
      (rules : List String) (ts : List ℕ) (ws : List Write)
      → all_succeed env.mc ws ≡ true
      → IsTaken (check_rules env q email rules ts ws)
  unfolding check_rules
  check_rules-IsTaken [] ts ws h = h
  check_rules-IsTaken (name ∷ rest) ts ws h = elim (Option-cases (lookup name env.rules)) [
    | inl unknown ↦ rw (unknown, check_rules) tt
    | inr (rule, known) ↦
        let (w, t) = check_rule env q email name rule in
        rw (known, check_rules)
          (elim (Bool-cases (env.mc.set_succeeds w)) [
            | inl taken ↦ rw taken (
                check_rules-IsTaken rest (ts ++ t ∷ []) (ws ++ w ∷ [])
                  (all_succeed-append env.mc ws w h taken))
            | inr refused ↦ rw refused tt
          ])
  ]

  finish_rules-IsHonest :
      (result : Result) (rs : Retries) → IsTaken rs → IsHonest (finish_rules env q email result rs)
  unfolding finish_rules
  finish_rules-IsHonest result (all_done ts ws) h = h
  finish_rules-IsHonest result (stopped ws) h = tt

  apply_rules-IsHonest :
      (found : Option RuleNames) (result : Result) (ws : List Write)
      → all_succeed env.mc ws ≡ true
      → IsHonest (apply_rules env q email found result ws)
  unfolding apply_rules
  apply_rules-IsHonest none result ws h = h
  apply_rules-IsHonest (some (names [])) result ws h = h
  apply_rules-IsHonest (some (names (k ∷ ks))) result ws h =
      finish_rules-IsHonest result _ (check_rules-IsTaken (k ∷ ks) [] ws h)
  apply_rules-IsHonest (some (number n)) result ws h = elim (Bool-cases (n == 0)) [
    | inl zero_rules ↦ rw zero_rules h
    | inr more ↦ rw more tt
  ]

  then_rules-IsHonest :
      (m : RuleMap) (p : Promise) → IsHonest p → IsHonest (then_rules env q email m p)
  unfolding then_rules check_user_defined_rate_limit_rules
  then_rules-IsHonest m (resolved result ws) h = apply_rules-IsHonest _ result ws h
  then_rules-IsHonest m (rejected ws) h = tt

  respond_to-IsHonest :
      (p : Promise)
      → IsHonest p
      → all_succeed env.mc (respond_to env q email p).writes ≡ false
      → (respond_to env q email p).response
        ≡ checked true env.limits.rate_limit_interval_seconds (some false) none
  unfolding respond_to create_response handle_error
  respond_to-IsHonest (resolved result ws) h failed = cc
  respond_to-IsHonest (rejected ws) h failed = refl

-- If memcached refuses any record that `/check` writes, a user-defined rule's included, the action
-- is blocked for the rate limit interval, whoever asks.
pub check-fails_closed :
    (env : Env) (m : RuleMap) (q : Request)
    → all_succeed env.mc (check env m q).writes ≡ false
    → (check env m q).response
      ≡ checked true env.limits.rate_limit_interval_seconds (some false) none
unfolding check
check-fails_closed env m q =
    elim (Bool-cases (is_missing q.email || is_missing q.ip || is_missing q.action)) [
      | inl incomplete ↦ rw incomplete (unfold all_succeed in λ h. cc)
      | inr complete ↦ rw complete (
          respond_to-IsHonest env q _ _
            (then_rules-IsHonest env q _ m _ (check_records-IsHonest env q _ _ _ _ _ _)))
    ]
