-- ===== src/Customs/SmsRecord/Refinement.antt =====
-- lib/sms_record.js is a rate limiter that remembers every event since the last ban.
use fxa_local_dev.Prelude.{ℕ, String, ◌≡◌, refl, ap₂, ◌∙◌, List, [], ◌∷◌, arith, ap}
use fxa_local_dev.Customs.Actions.{is_sms_sending_action}
use fxa_local_dev.Customs.Limits.{Limits}
use fxa_local_dev.Customs.Window.Covers.{IsPast}
use fxa_local_dev.Customs.Limiter.{
  Limiter, Bounds, InOrder, run, whole_hit, trimmed_hit, step_of, run-Refines,
}
use fxa_local_dev.Customs.SmsRecord.{SmsRecord, update}

abbrev pub view : SmsRecord → Limiter
view r = record { rl = r.rl; hits = r.sms }

abbrev pub bounds : Limits → Bounds
bounds limits = record {
  limit = limits.max_sms;
  period = limits.sms_rate_limit_interval_ms;
  ban = limits.sms_rate_limit_interval_ms;
}

module _ (limits : Limits) where
  view-update :
      (now : ℕ) (action : String) (r : SmsRecord)
      → (view (update limits now action r).0
          ≡ (step_of
              (bounds limits)
              is_sms_sending_action
              (trimmed_hit (bounds limits))
              now
              action
              (view r)).0)
        × ((update limits now action r).1
            ≡ (step_of
                (bounds limits)
                is_sms_sending_action
                (trimmed_hit (bounds limits))
                now
                action
                (view r)).1)
  unfolding update trimmed_hit
  view-update now action r = ground arith

  run-view :
      (r : SmsRecord) (s : Limiter) (requests : List (ℕ × String))
      → view r ≡ s
      → run (update limits) r requests
        ≡ run
            (step_of (bounds limits) is_sms_sending_action (trimmed_hit (bounds limits)))
            s
            requests
  unfolding run
  run-view r s [] e = refl
  run-view r s ((t, action) ∷ rest) e =
      let (state, answer) = view-update t action r in
      let step =
        step_of (bounds limits) is_sms_sending_action (trimmed_hit (bounds limits)) t action in
      ap₂ ◌∷◌ (answer ∙ ap (λ v. (step v).1) e)
        (run-view (update limits t action r).0 (step s).0 rest (state ∙ ap (λ v. (step v).0) e))

  -- From a record whose messages stand in order and lie in the past, any requests in the order of time
  -- are answered as by the limiter that forgets no message until it bans: an sms-sending action during a ban
  -- is told the rest of the ban, one with which more than `maxSms` messages lie within the interval starts a
  -- ban, and all else is let through.
  pub run-sms_update :
      (now : ℕ) (r : SmsRecord) (requests : List (ℕ × String))
      → IsPast now r.sms
      → InOrder now requests
      → run (update limits) r requests
        ≡ run
            (step_of (bounds limits) is_sms_sending_action (whole_hit (bounds limits)))
            (view r)
            requests
  run-sms_update now r requests past order =
      run-view r (view r) requests refl
      ∙ run-Refines (bounds limits) is_sms_sending_action now (view r) (view r) requests
          (record { rl = refl; past = past; covers = ([], refl, tt) }) order
