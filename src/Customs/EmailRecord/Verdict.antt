-- ===== src/Customs/EmailRecord/Verdict.antt =====
-- The verdict of `update` of lib/email_record.js and the state that it leaves.
use fxa_local_dev.Prelude.{
  ltb, subst, ℕ, ◌<◌, String, ◌≡◌, refl, ◌∙◌, inl, inr, Bool, true, false, ◌||◌, arith,
  if◌then◌else◌, Bool-cases,
}
use fxa_local_dev.Customs.Time.{is_within, seconds_left-pos}
use fxa_local_dev.Customs.Actions.{
  is_code_verifying_action, is_email_sending_action, is_sms_sending_action,
}
use fxa_local_dev.Customs.Limits.{Limits}
use fxa_local_dev.Customs.Outcome.{Outcome, returns, continues, ◌>>=◌, finish}
use fxa_local_dev.Customs.EmailRecord.{
  EmailRecord, should_block, retry_after, rate_limit, limit_if_over, update_verify_codes,
  update_emails, update_sms, update, add_unblock,
}

-- The actions that `update` counts.
unfoldable pub is_counted : String → Bool
is_counted action =
    is_code_verifying_action action
    || (is_email_sending_action action || is_sms_sending_action action)

module _ (limits : Limits) (now : ℕ) where
  pub retry_after-pos :
      (r : EmailRecord) → should_block limits now r ≡ true → 0 < retry_after limits now r
  unfolding should_block retry_after
  retry_after-pos r h = ground (
    arith,
    seconds_left-pos r.rl limits.rate_limit_interval_ms now,
    seconds_left-pos r.bk limits.block_interval_ms now,
  )

  pub should_block-rate_limit :
      (r : EmailRecord)
      → 0 < now
      → 0 < limits.rate_limit_interval_ms
      → should_block limits now (rate_limit limits now r) ≡ true
  unfolding should_block rate_limit is_within
  should_block-rate_limit r p i = ground arith

  -- What a block of `update` may do to a record: answer that it is blocked, with a wait, or go on
  -- with a record that is blocked if it was, which a counted action never is.
  abbrev Sound : Bool → EmailRecord → Outcome EmailRecord → Type 0
  Sound counted r (returns r' t) = (should_block limits now r' ≡ true) × (0 < t)
  Sound counted r (continues r') =
      (should_block limits now r' ≡ should_block limits now r)
      × (counted ≡ true → should_block limits now r ≡ false)

  limit_if_over-Sound :
      (r r' : EmailRecord) (over : Bool)
      → 0 < now
      → 0 < limits.rate_limit_interval_ms
      → should_block limits now r ≡ false
      → should_block limits now r' ≡ should_block limits now r
      → Sound true r (limit_if_over limits now (r', over))
  unfolding limit_if_over
  limit_if_over-Sound r r' true p i free same =
      let h = should_block-rate_limit r' p i in (h, retry_after-pos _ h)
  limit_if_over-Sound r r' false p i free same = (same, λ _. free)

  -- The shape of the three blocks.
  guarded-Sound :
      (counted over : Bool) (r r' : EmailRecord)
      → 0 < now
      → 0 < limits.rate_limit_interval_ms
      → should_block limits now r' ≡ should_block limits now r
      → Sound counted r (
          if counted
          then if should_block limits now r
            then returns r (retry_after limits now r)
            else limit_if_over limits now (r', over)
          else continues r)
  guarded-Sound false over r r' p i same = (refl, λ e. cc)
  guarded-Sound true over r r' p i same = elim (Bool-cases (should_block limits now r)) [
    | inl held ↦ rw held (held, retry_after-pos r held)
    | inr free ↦ rw free (limit_if_over-Sound r r' over p i free same)
  ]

  continue-Sound :
      (c c' : Bool) (r r' : EmailRecord) (o : Outcome EmailRecord)
      → Sound c r (continues r')
      → Sound c' r' o
      → Sound (c || c') r o
  continue-Sound c c' r r' (returns r'' t) h k = k
  continue-Sound c c' r r' (continues r'') h k = (k.0 ∙ h.0, λ e. ground (arith, h.0, h.1, k.1))

  bind-Sound :
      (c c' : Bool) (r : EmailRecord) (o : Outcome EmailRecord)
      (f : EmailRecord → Outcome EmailRecord)
      → Sound c r o
      → ((r' : EmailRecord) → Sound c' r' (f r'))
      → Sound (c || c') r (o >>= f)
  bind-Sound c c' r (returns r' t) f h k = h
  bind-Sound c c' r (continues r') f h k = continue-Sound c c' r r' (f r') h (k r')

  abbrev Verdict : EmailRecord × ℕ → Type 0
  Verdict (r, t) =
      (0 < t → should_block limits now r ≡ true) × (t ≡ 0 → should_block limits now r ≡ false)

  finish-Verdict : (r : EmailRecord) (o : Outcome EmailRecord) → Sound true r o → Verdict (finish o)
  finish-Verdict r (returns r' t) (held, pos) = (λ _. held, λ z. absurd (omega arith))
  finish-Verdict r (continues r') (same, free) = (λ z. absurd (omega arith), λ _. same ∙ free refl)

  blocks-Sound :
      (action : String) (r : EmailRecord)
      → 0 < now
      → 0 < limits.rate_limit_interval_ms
      → Sound (is_counted action) r (
          update_verify_codes limits now action r >>= λ r₂.
          update_emails limits now action r₂ >>= update_sms limits now action)
  unfolding is_counted update_verify_codes update_emails update_sms should_block
  blocks-Sound action r p i =
      bind-Sound _ _ r _ _ (guarded-Sound (is_code_verifying_action action) _ r _ p i refl) (λ r₂.
        bind-Sound _ _ r₂ _ _ (guarded-Sound (is_email_sending_action action) _ r₂ _ p i refl)
          (λ r₃. guarded-Sound (is_sms_sending_action action) _ r₃ _ p i refl))

  update_verdicts :
      (action : String) (unblock : Bool) (r : EmailRecord)
      → 0 < now
      → 0 < limits.rate_limit_interval_ms
      → is_counted action ≡ true
      → Verdict (update limits now action unblock r)
  unfolding update
  update_verdicts action unblock r p i counted =
      elim (Bool-cases (is_within r.bk limits.block_interval_ms now)) [
        | inl blocked ↦
            rw blocked
              (λ _. held blocked, λ z. absurd (ground (arith, retry_after-pos r (held blocked), z)))
        | inr free ↦ rw free (
            finish-Verdict unblocked _ (
              subst (λ c. Sound c unblocked (rest unblocked)) counted
                (blocks-Sound action unblocked p i)))
      ]
    where
      held : is_within r.bk limits.block_interval_ms now ≡ true → should_block limits now r ≡ true
      held h = ground (arith, h)

      unblocked : EmailRecord
      unblocked = if unblock then add_unblock limits now r else r

      rest : EmailRecord → Outcome EmailRecord
      rest r' = update_verify_codes limits now action r' >>= λ r₂.
          update_emails limits now action r₂ >>= update_sms limits now action

  -- A counted action is told to wait just when its email is blocked or rate-limited afterwards,
  -- the clock and the interval not being 0.
  pub update-Verdict :
      (action : String) (unblock : Bool) (r : EmailRecord)
      → 0 < now
      → 0 < limits.rate_limit_interval_ms
      → is_counted action ≡ true
      → ltb 0 (update limits now action unblock r).1
        ≡ should_block limits now (update limits now action unblock r).0
  update-Verdict action unblock r p i counted =
      ground (arith, update_verdicts action unblock r p i counted)
