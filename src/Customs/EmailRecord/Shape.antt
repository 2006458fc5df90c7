-- ===== src/Customs/EmailRecord/Shape.antt =====
-- What holds of every record that `update` of lib/email_record.js has left: its times stand in order
-- and in the past, and the lists stay short.
use fxa_local_dev.Prelude.{
  Bool-cases, inl, inr, refl, ℕ, ◌+◌, ◌≤◌, String, ◌≡◌, Bool, true, false, [], ◌∷◌, ◌++◌, arith,
  length, if◌then◌else◌, none,
}
use fxa_local_dev.Customs.Time.{is_within}
use fxa_local_dev.Customs.Window.Trim.{length-trim-le}
use fxa_local_dev.Customs.Window.Covers.{IsPast, IsPast-later, IsPast-push, trim-IsPast}
use fxa_local_dev.Customs.Limits.{Limits}
use fxa_local_dev.Customs.Outcome.{Outcome, returns, continues, ◌>>=◌, finish}
use fxa_local_dev.Customs.EmailRecord.{
  EmailRecord, parse, should_block, retry_after, rate_limit, limit_if_over, update_verify_codes,
  update_emails, update_sms, update, add_unblock, add_hit, add_verify_code, add_sms_request,
  is_over_email_limit, is_over_verify_codes, is_over_sms_limit, can_unblock, trim_unblocks,
}

module _ (limits : Limits) where
  pub record IsShaped (now : ℕ) (r : EmailRecord) : Type 0 where
    pub past_vc : IsPast now r.vc
    pub past_xs : IsPast now r.xs
    pub past_sms : IsPast now r.sms
    pub past_ub : IsPast now r.ub
    pub few_vc : length r.vc ≤ limits.max_verify_codes + 1
    pub few_xs : length r.xs ≤ limits.max_emails
    pub few_sms : length r.sms ≤ limits.max_sms

  IsShaped-later :
      (now later : ℕ) (r : EmailRecord) → now ≤ later → IsShaped now r → IsShaped later r
  IsShaped-later now later r h s = record {
    past_vc = IsPast-later now later r.vc h s.past_vc;
    past_xs = IsPast-later now later r.xs h s.past_xs;
    past_sms = IsPast-later now later r.sms h s.past_sms;
    past_ub = IsPast-later now later r.ub h s.past_ub;
    few_vc = s.few_vc;
    few_xs = s.few_xs;
    few_sms = s.few_sms;
  }

  module _ (now : ℕ) where
    -- A rate limit empties the lists of emails and messages, and leaves the other two alone.
    rate_limit-IsShaped :
        (r : EmailRecord)
        → IsPast now r.vc
        → IsPast now r.ub
        → length r.vc ≤ limits.max_verify_codes + 1
        → IsShaped now (rate_limit limits now r)
    unfolding rate_limit
    rate_limit-IsShaped r past_vc past_ub few_vc = record {
      past_vc = past_vc;
      past_xs = (tt, tt);
      past_sms = (tt, tt);
      past_ub = past_ub;
      few_vc = few_vc;
      few_xs = omega arith;
      few_sms = omega arith;
    }

    abbrev Leaves : Outcome EmailRecord → Type 0
    Leaves (returns r t) = IsShaped now r
    Leaves (continues r) = IsShaped now r

    bind-Leaves :
        (o : Outcome EmailRecord) (f : EmailRecord → Outcome EmailRecord)
        → Leaves o
        → ((r : EmailRecord) → IsShaped now r → Leaves (f r))
        → Leaves (o >>= f)
    bind-Leaves (returns r t) f h k = h
    bind-Leaves (continues r) f h k = k r h

    finish-IsShaped : (o : Outcome EmailRecord) → Leaves o → IsShaped now (finish o).0
    finish-IsShaped (returns r t) h = h
    finish-IsShaped (continues r) h = h

    limit_if_over-Leaves :
        (over : Bool) (r : EmailRecord)
        → (over ≡ true → IsShaped now (rate_limit limits now r))
        → (over ≡ false → IsShaped now r)
        → Leaves (limit_if_over limits now (r, over))
    unfolding limit_if_over
    limit_if_over-Leaves true r limited counts = limited refl
    limit_if_over-Leaves false r limited counts = counts refl

    -- A block leaves the record's shape if its count does, over the limit or not.
    guarded-Leaves :
        (counted over : Bool) (r r' : EmailRecord)
        → IsShaped now r
        → (over ≡ true → IsShaped now (rate_limit limits now r'))
        → (over ≡ false → IsShaped now r')
        → Leaves (
            if counted
            then if should_block limits now r
              then returns r (retry_after limits now r)
              else limit_if_over limits now (r', over)
            else continues r)
    guarded-Leaves false over r r' s limited counts = s
    guarded-Leaves true over r r' s limited counts = elim (Bool-cases (should_block limits now r)) [
      | inl held ↦ rw held s
      | inr free ↦ rw free (limit_if_over-Leaves over r' limited counts)
    ]

    update_verify_codes-Leaves :
        (action : String) (r : EmailRecord)
        → IsShaped now r
        → Leaves (update_verify_codes limits now action r)
    unfolding update_verify_codes
    update_verify_codes-Leaves action r s =
        let interval = limits.rate_limit_interval_ms in
        let room = limits.max_verify_codes + 1 in
        let past =
          trim-IsPast now interval room (r.vc ++ now ∷ []) (IsPast-push now r.vc s.past_vc) in
        let few = length-trim-le now interval room (r.vc ++ now ∷ []) in
        guarded-Leaves _ _ r _ s
          (λ _.
            rate_limit-IsShaped (is_over_verify_codes limits now (add_verify_code limits now r)).0
              past s.past_ub few)
          (λ _. record {
            past_vc = past;
            past_xs = s.past_xs;
            past_sms = s.past_sms;
            past_ub = s.past_ub;
            few_vc = few;
            few_xs = s.few_xs;
            few_sms = s.few_sms;
          })

    update_emails-Leaves :
        (action : String) (r : EmailRecord)
        → IsShaped now r
        → Leaves (update_emails limits now action r)
    unfolding update_emails
    update_emails-Leaves action r s =
        guarded-Leaves _ _ r _ s
          (λ _.
            rate_limit-IsShaped (is_over_email_limit limits now (add_hit limits now r)).0 s.past_vc
              s.past_ub s.few_vc)
          (λ below. record {
            past_vc = s.past_vc;
            past_xs =
                trim-IsPast now limits.rate_limit_interval_ms (limits.max_emails + 1)
                  (r.xs ++ now ∷ []) (IsPast-push now r.xs s.past_xs);
            past_sms = s.past_sms;
            past_ub = s.past_ub;
            few_vc = s.few_vc;
            few_xs = ground (arith, below);
            few_sms = s.few_sms;
          })

    update_sms-Leaves :
        (action : String) (r : EmailRecord)
        → IsShaped now r
        → Leaves (update_sms limits now action r)
    unfolding update_sms
    update_sms-Leaves action r s =
        guarded-Leaves _ _ r _ s
          (λ _.
            rate_limit-IsShaped (is_over_sms_limit limits now (add_sms_request limits now r)).0
              s.past_vc s.past_ub s.few_vc)
          (λ below. record {
            past_vc = s.past_vc;
            past_xs = s.past_xs;
            past_sms =
                trim-IsPast now limits.rate_limit_interval_ms (limits.max_sms + 1)
                  (r.sms ++ now ∷ []) (IsPast-push now r.sms s.past_sms);
            past_ub = s.past_ub;
            few_vc = s.few_vc;
            few_xs = s.few_xs;
            few_sms = ground (arith, below);
          })

    unblocked-IsShaped :
        (unblock : Bool) (r : EmailRecord)
        → IsShaped now r
        → IsShaped now (if unblock then add_unblock limits now r else r)
    unfolding add_unblock
    unblocked-IsShaped false r s = s
    unblocked-IsShaped true r s = record {
      past_vc = s.past_vc;
      past_xs = s.past_xs;
      past_sms = s.past_sms;
      past_ub = IsPast-push now r.ub s.past_ub;
      few_vc = s.few_vc;
      few_xs = s.few_xs;
      few_sms = s.few_sms;
    }

    blocks-IsShaped :
        (action : String) (r : EmailRecord)
        → IsShaped now r
        → IsShaped now
            (finish (do
              r₂ ← update_verify_codes limits now action r
              r₃ ← update_emails limits now action r₂
              update_sms limits now action r₃)).0
    blocks-IsShaped action r s = finish-IsShaped _ (
        bind-Leaves _ _ (update_verify_codes-Leaves action r s)
          (λ r₂ s₂. bind-Leaves _ _ (update_emails-Leaves action r₂ s₂) (update_sms-Leaves action)))

  IsShaped-update :
      (now later : ℕ) (action : String) (unblock : Bool) (r : EmailRecord)
      → now ≤ later
      → IsShaped now r
      → IsShaped later (update limits later action unblock r).0
  unfolding update
  IsShaped-update now later action unblock r h s =
      let s' = IsShaped-later now later r h s in
      elim (Bool-cases (is_within r.bk limits.block_interval_ms later)) [
        | inl blocked ↦ rw blocked s'
        | inr free ↦
            rw free (blocks-IsShaped later action _ (unblocked-IsShaped later unblock r s'))
      ]

  can_unblock-IsShaped :
      (now : ℕ) (r : EmailRecord)
      → IsShaped now r
      → IsShaped now (can_unblock limits now r).0
        × (length (can_unblock limits now r).0.ub ≤ limits.max_unblock_attempts + 1)
  unfolding can_unblock trim_unblocks
  can_unblock-IsShaped now r s =
      let interval = limits.rate_limit_interval_ms in
      let room = limits.max_unblock_attempts + 1 in
      (
        record {
          past_vc = s.past_vc;
          past_xs = s.past_xs;
          past_sms = s.past_sms;
          past_ub = trim-IsPast now interval room r.ub s.past_ub;
          few_vc = s.few_vc;
          few_xs = s.few_xs;
          few_sms = s.few_sms;
        },
        length-trim-le now interval room r.ub,
      )

  -- Every `update`, at a time no earlier than those that the record remembers, leaves lists that
  -- stand in order and in the past, with no more emails and messages than their limits, and at most
  -- one code verification more than its limit. So does the `canUnblock` that `/check` calls after it,
  -- and then there is at most one unblock code more than its limit.
  pub update-IsShaped :
      (now later : ℕ) (action : String) (unblock : Bool) (r : EmailRecord)
      → now ≤ later
      → IsShaped now r
      → let r' = (update limits later action unblock r).0 in
        let r'' = (can_unblock limits later r').0 in
        IsShaped later r' × IsShaped later r'' × (length r''.ub ≤ limits.max_unblock_attempts + 1)
  update-IsShaped now later action unblock r h s =
      let s' = IsShaped-update now later action unblock r h s in
      let (s'', few) = can_unblock-IsShaped later _ s' in (s', s'', few)

  pub parse-IsShaped : (now : ℕ) → IsShaped now (parse none)
  unfolding parse
  parse-IsShaped now = record {
    past_vc = (tt, tt);
    past_xs = (tt, tt);
    past_sms = (tt, tt);
    past_ub = (tt, tt);
    few_vc = omega arith;
    few_xs = omega arith;
    few_sms = omega arith;
  }
