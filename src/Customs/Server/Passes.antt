-- ===== src/Customs/Server/Passes.antt =====
-- What holds of the records when `/check` lets an action through.
use fxa_local_dev.Prelude.{
  ◌&&◌, not, ℕ, ◌≤◌, ◌<◌, String, ◌≡◌, refl, inl, inr, Bool, true, false, ◌||◌, Option, some, none,
  List, arith, Bool-cases, Option-cases,
}
use fxa_local_dev.Customs.IpRecord
use fxa_local_dev.Customs.IpRecord.{IpRecord}
use fxa_local_dev.Customs.IpRecord.Verdict.{update_verdict}
use fxa_local_dev.Customs.EmailRecord
use fxa_local_dev.Customs.EmailRecord.{EmailRecord}
use fxa_local_dev.Customs.EmailRecord.Verdict.{is_counted, update-Verdict}
use fxa_local_dev.Customs.IpEmailRecord.{IpEmailRecord}
use fxa_local_dev.Customs.SmsRecord.{SmsRecord}
use fxa_local_dev.Customs.Actions.{is_account_access_action}
use fxa_local_dev.Customs.Allowed.{is_allowed}
use fxa_local_dev.Customs.Rules.{RuleMap, lookup}
use fxa_local_dev.Customs.Reputation.{get}
use fxa_local_dev.Customs.Server.{
  Env, Response, checked, empty, status, Result, Write, is_missing, fetch_ip, fetch_email,
  allow_whitelisted,
}
use fxa_local_dev.Customs.Server.Check.{
  Request, Promise, resolved, rejected, judge, is_listed, settle, update_records, check_records,
  then_rules, apply_rules, check_user_defined_rate_limit_rules, create_response, handle_error,
  respond_to, phone, check,
}

-- The response advises to block, or is an error.
abbrev pub advises_block : Response → Bool
advises_block (checked block retry_after unblock suspect) = block
advises_block empty = false
advises_block (status code) = true

module _ (env : Env) (q : Request) (email : String) where
  abbrev pub Stranger : Type 0
  Stranger = is_allowed env.allowed q.ip (some email) (phone q) ≡ false

  create_response_block :
      (result : Result) (ws : List Write)
      → Stranger
      → advises_block (create_response env q email result ws).response ≡ result.block
  unfolding create_response allow_whitelisted
  create_response_block result ws h = ground (arith, h)

  pub settle_passes :
      (ir : IpRecord) (er : EmailRecord) (ier : IpEmailRecord) (sr : Option SmsRecord)
      (reputation : Option ℕ) (retry_after : ℕ) (listed : Bool)
      → Stranger
      → advises_block
          (respond_to env q email
            (settle env q email ir er ier sr reputation retry_after listed)).response
        ≡ false
      → (retry_after ≡ 0) × (listed ≡ false)
  unfolding settle respond_to handle_error judge create_response allow_whitelisted
  settle_passes ir er ier sr reputation retry_after listed h e = ground (arith, h, e)

  abbrev email_answer : EmailRecord → ℕ
  email_answer er = (EmailRecord.update env.limits env.now q.action q.has_unblock_code er).1

  abbrev ip_answer : IpRecord → ℕ
  ip_answer ir = (IpRecord.update env.limits env.now q.action email ir).1

  update_records_passes :
      (ir : IpRecord) (er : EmailRecord) (ier : IpEmailRecord) (sr : Option SmsRecord)
      (reputation : Option ℕ)
      → Stranger
      → advises_block
          (respond_to env q email (update_records env q email ir er ier sr reputation)).response
        ≡ false
      → (email_answer er ≡ 0) × (ip_answer ir ≡ 0)
  unfolding update_records respond_to handle_error
  update_records_passes ir er ier sr reputation st = elim (Option-cases (is_listed env q.ip)) [
    | inl throws ↦ rw (throws, update_records) (λ h. cc)
    | inr (listed, answers) ↦
        rw (answers, update_records)
          (λ h.
            let zero_retry = settle_passes _ _ _ _ reputation _ listed st h in
            (omega (arith, zero_retry.0), omega (arith, zero_retry.0)))
  ]

  check_records_passes :
      (ir : IpRecord) (er : EmailRecord) (ier : IpEmailRecord) (sr : Option SmsRecord)
      (reputation : Option ℕ)
      → Stranger
      → advises_block
          (respond_to env q email (check_records env q email ir er ier sr reputation)).response
        ≡ false
      → (email_answer er ≡ 0) × (ip_answer ir ≡ 0)
  unfolding check_records respond_to create_response allow_whitelisted
  check_records_passes ir er ier sr reputation st =
      elim (Bool-cases (IpRecord.is_blocked env.limits env.now ir)) [
        | inl blocked ↦ rw blocked (λ h. ground (arith, h, st))
        | inr free ↦ rw free (update_records_passes ir er ier sr reputation st)
      ]

  pub then_rules-none :
      (m : RuleMap) (p : Promise) → lookup q.action m ≡ none → then_rules env q email m p ≡ p
  unfolding then_rules check_user_defined_rate_limit_rules apply_rules
  then_rules-none m (resolved result ws) e = rw (e, apply_rules) refl
  then_rules-none m (rejected ws) e = refl

module _ (env : Env) (m : RuleMap) (q : Request) where
  abbrev email : String
  email = env.to_lower_case q.email

  pub check_answers :
      (is_missing q.email || is_missing q.ip || is_missing q.action) ≡ false
      → lookup q.action m ≡ none
      → is_allowed env.allowed q.ip (some email) (phone q) ≡ false
      → advises_block (check env m q).response ≡ false
      → (email_answer env q email (fetch_email env email) ≡ 0)
        × (ip_answer env q email (fetch_ip env q.ip) ≡ 0)
  unfolding check
  check_answers complete no_rules st = rw complete (
      rw (then_rules-none env q email m _ no_rules)
        (check_records_passes env q email _ _ _ _ (get env.reputation (env.reputation_of q.ip)) st))

  -- If `/check` lets through a complete request to which no user-defined rule applies and which is
  -- not allowed in any case, then the records as it leaves them hold nobody back: a counted action
  -- leaves the email neither blocked nor rate-limited, and an action that grants no account access
  -- leaves the IP address so. (The clock has passed the lengths of the bans.)
  pub check_passes :
      (is_missing q.email || is_missing q.ip || is_missing q.action) ≡ false
      → lookup q.action m ≡ none
      → is_allowed env.allowed q.ip (some email) (phone q) ≡ false
      → advises_block (check env m q).response ≡ false
      → 0 < env.now
      → 0 < env.limits.rate_limit_interval_ms
      → env.limits.block_interval_ms ≤ env.now
      → env.limits.ip_rate_limit_ban_duration_ms ≤ env.now
      → ((is_counted q.action
            && EmailRecord.should_block env.limits env.now
                (EmailRecord.update env.limits env.now q.action q.has_unblock_code
                  (fetch_email env email)).0)
          ≡ false)
        × ((not (is_account_access_action q.action)
              && IpRecord.should_block env.limits env.now
                  (IpRecord.update env.limits env.now q.action email (fetch_ip env q.ip)).0)
            ≡ false)
  check_passes complete no_rules st passes p i b k =
      let (email_zero, ip_zero) = check_answers complete no_rules st passes in
      (
        ground (
          arith,
          email_zero,
          update-Verdict env.limits env.now q.action q.has_unblock_code (fetch_email env email) p i,
        ),
        ground (
          arith,
          ip_zero,
          update_verdict env.limits env.now q.action email (fetch_ip env q.ip) b k,
        ),
      )
