-- ===== src/Customs/RuleRecord/Refinement.antt =====
-- lib/record.js is a rate limiter that remembers every event since the last ban.
use fxa_local_dev.Prelude.{ℕ, String, ◌≡◌, refl, ap₂, ◌∙◌, Bool, List, [], ◌∷◌, arith, ap}
use fxa_local_dev.Customs.Objects.{contains}
use fxa_local_dev.Customs.Window.Covers.{IsPast}
use fxa_local_dev.Customs.Limiter.{
  Limiter, Bounds, InOrder, run, whole_hit, trimmed_hit, step_of, run-Refines,
}
use fxa_local_dev.Customs.RuleRecord.{Rule, RuleRecord, update}

abbrev pub view : RuleRecord → Limiter
view r = record { rl = r.rl; hits = r.hits }

abbrev pub bounds : Rule → Bounds
bounds rule = record {
  limit = rule.limits.max;
  period = rule.limits.period_ms;
  ban = rule.limits.rate_limit_interval_ms;
}

abbrev pub counted : Rule → String → Bool
counted rule action = contains action rule.actions

module _ (rule : Rule) where
  view-update :
      (now : ℕ) (action : String) (r : RuleRecord)
      → (view (update rule now action r).0
          ≡ (step_of
              (bounds rule)
              (counted rule)
              (trimmed_hit (bounds rule))
              now
              action
              (view r)).0)
        × ((update rule now action r).1
            ≡ (step_of
                (bounds rule)
                (counted rule)
                (trimmed_hit (bounds rule))
                now
                action
                (view r)).1)
  unfolding update trimmed_hit
  view-update now action r = ground arith

  run-view :
      (r : RuleRecord) (s : Limiter) (requests : List (ℕ × String))
      → view r ≡ s
      → run (update rule) r requests
        ≡ run (step_of (bounds rule) (counted rule) (trimmed_hit (bounds rule))) s requests
  unfolding run
  run-view r s [] e = refl
  run-view r s ((t, action) ∷ rest) e =
      let (state, answer) = view-update t action r in
      let step = step_of (bounds rule) (counted rule) (trimmed_hit (bounds rule)) t action in
      ap₂ ◌∷◌ (answer ∙ ap (λ v. (step v).1) e)
        (run-view (update rule t action r).0 (step s).0 rest (state ∙ ap (λ v. (step v).0) e))

  -- From a record whose hits stand in order and lie in the past, any requests in the order of time
  -- are answered as by the limiter that forgets no hit until it bans: a counted action during a ban
  -- is told the rest of the ban, one with which more than `max` hits lie within the period starts a
  -- ban, and all else is let through.
  pub run-rule-update :
      (now : ℕ) (r : RuleRecord) (requests : List (ℕ × String))
      → IsPast now r.hits
      → InOrder now requests
      → run (update rule) r requests
        ≡ run (step_of (bounds rule) (counted rule) (whole_hit (bounds rule))) (view r) requests
  run-rule-update now r requests past order =
      run-view r (view r) requests refl
      ∙ run-Refines (bounds rule) (counted rule) now (view r) (view r) requests
          (record { rl = refl; past = past; covers = ([], refl, tt) }) order
