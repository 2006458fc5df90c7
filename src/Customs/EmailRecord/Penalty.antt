-- ===== src/Customs/EmailRecord/Penalty.antt =====
-- How long a rate limit of lib/email_record.js lasts, and when one is set.
use fxa_local_dev.Prelude.{
  ℕ, ◌+◌, ◌*◌, ◌≤◌, ◌<◌, ap, String, ◌≡◌, ◌∙◌, Bool, true, false, ◌||◌, ◌&&◌, not, if◌then◌else◌,
  [], ◌∷◌, ◌++◌, arith, ltb, Ascending,
}
use fxa_local_dev.Customs.Time.{is_within, seconds_left_exact}
use fxa_local_dev.Customs.Window.Trim.{recent, over_limit_iff}
use fxa_local_dev.Customs.Actions.{
  is_code_verifying_action, is_email_sending_action, is_sms_sending_action,
}
use fxa_local_dev.Customs.Limits.{Limits}
use fxa_local_dev.Customs.EmailRecord.{
  EmailRecord, should_block, is_blocked, is_rate_limited, retry_after, rate_limit, update,
  add_unblock,
}
use fxa_local_dev.Customs.EmailRecord.Verdict.{is_counted, retry_after-pos, should_block-rate_limit}

module _ (limits : Limits) (now : ℕ) where
  -- The record with the time of an unblock code that came with the request, if it is not blocked.
  abbrev pub noted : Bool → EmailRecord → EmailRecord
  noted unblock r = record r {
    ub = if unblock && not (is_blocked limits now r) then r.ub ++ now ∷ [] else r.ub;
  }

  -- While a record is held, a counted action notes an unblock code and changes nothing else.
  update_held :
      (action : String) (unblock : Bool) (r : EmailRecord)
      → is_counted action ≡ true
      → should_block limits now r ≡ true
      → update limits now action unblock r ≡ (noted unblock r, retry_after limits now r)
  unfolding update is_counted add_unblock should_block is_blocked is_rate_limited retry_after
  update_held action false r counted held = ground arith
  update_held action true r counted held = ground arith

  should_block-limited :
      (t : ℕ) (r : EmailRecord)
      → 0 < t
      → should_block limits now (rate_limit limits t r)
        ≡ (ltb now (t + limits.rate_limit_interval_ms) || is_blocked limits now r)
  unfolding should_block rate_limit is_within
  should_block-limited t r pos = ground arith

  retry_after-limited :
      (t : ℕ) (r : EmailRecord)
      → now < t + limits.rate_limit_interval_ms
      → t + limits.rate_limit_interval_ms
        ≤ now + 1000 * retry_after limits now (rate_limit limits t r)
  unfolding retry_after rate_limit
  retry_after-limited t r early =
      omega (arith, (seconds_left_exact t limits.rate_limit_interval_ms now (omega arith)).0)

  -- A rate limit set at the time `t` holds until the interval is over: counted actions are told the
  -- rest of it, at least up to its end, and neither prolong it nor count; of the record they change
  -- nothing but to note an unblock code, if the record is not blocked.
  pub rate_limit_lasts :
      (t : ℕ) (action : String) (unblock : Bool) (r : EmailRecord)
      → 0 < t
      → is_counted action ≡ true
      → now < t + limits.rate_limit_interval_ms
      → ((update limits now action unblock (rate_limit limits t r)).0
          ≡ noted unblock (rate_limit limits t r))
        × (t + limits.rate_limit_interval_ms
            ≤ now + 1000 * (update limits now action unblock (rate_limit limits t r)).1)
  rate_limit_lasts t action unblock r pos counted early =
      let held =
        update_held action unblock (rate_limit limits t r) counted
          (should_block-limited t r pos ∙ ground (arith, early)) in
      (ap (λ u. u.0) held, rw held (retry_after-limited t r early))

  -- An email-sending action of no other kind, at an email that is not held and whose sent emails stand
  -- in order, is let through just when with it no more than `maxEmails` emails were sent within the
  -- interval; the clock and the interval are not 0.
  pub update_emails_exact :
      (action : String) (unblock : Bool) (r : EmailRecord)
      → 0 < now
      → 0 < limits.rate_limit_interval_ms
      → is_email_sending_action action ≡ true
      → is_code_verifying_action action ≡ false
      → is_sms_sending_action action ≡ false
      → should_block limits now r ≡ false
      → Ascending (r.xs ++ now ∷ [])
      → ltb 0 (update limits now action unblock r).1
        ≡ ltb limits.max_emails (recent now limits.rate_limit_interval_ms (r.xs ++ now ∷ []))
  unfolding update
  update_emails_exact action unblock r p i email no_code no_sms free asc = ground (
    arith,
    free,
    email,
    no_code,
    no_sms,
    over_limit_iff now limits.rate_limit_interval_ms limits.max_emails (r.xs ++ now ∷ []) asc,
    retry_after-pos limits now (rate_limit limits now r) (should_block-rate_limit limits now r p i),
  )
