-- ===== src/Customs/Server/Logins.antt =====
-- What failed logins mean for the checks that follow: the record of an address and an account in
-- `/check`.
use fxa_local_dev.Prelude.{
  ℕ, ◌<◌, String, ◌≡◌, inl, inr, Bool, true, false, ◌||◌, Option, some, none, arith, Bool-cases,
  Option-cases, Ascending,
}
use fxa_local_dev.Customs.Window.Trim.{recent}
use fxa_local_dev.Customs.IpRecord
use fxa_local_dev.Customs.IpRecord.{IpRecord}
use fxa_local_dev.Customs.EmailRecord
use fxa_local_dev.Customs.EmailRecord.{EmailRecord}
use fxa_local_dev.Customs.IpEmailRecord
use fxa_local_dev.Customs.IpEmailRecord.{IpEmailRecord}
use fxa_local_dev.Customs.IpEmailRecord.Throttle.{update_throttle}
use fxa_local_dev.Customs.SmsRecord.{SmsRecord}
use fxa_local_dev.Customs.Actions.{is_password_checking_action}
use fxa_local_dev.Customs.Limits.{Limits}
use fxa_local_dev.Customs.Allowed.{is_allowed}
use fxa_local_dev.Customs.Rules.{RuleMap, lookup}
use fxa_local_dev.Customs.Reputation.{get}
use fxa_local_dev.Customs.Server.{
  Env, is_missing, fetch_ip, fetch_email, fetch_ip_email, fetch_sms, Response, allow_whitelisted,
}
use fxa_local_dev.Customs.Server.Check.{
  Request, is_listed, update_records, check_records, create_response, handle_error, respond_to,
  phone, check,
}
use fxa_local_dev.Customs.Server.Passes.{advises_block, Stranger, settle_passes, then_rules-none}

pr-update :
    (limits : Limits) (now : ℕ) (action : String) (unblock : Bool) (r : EmailRecord)
    → (EmailRecord.update limits now action unblock r).0.pr ≡ r.pr
unfolding EmailRecord.update EmailRecord.add_unblock EmailRecord.update_verify_codes
    EmailRecord.update_emails EmailRecord.update_sms EmailRecord.limit_if_over
    EmailRecord.rate_limit EmailRecord.add_verify_code EmailRecord.add_hit
    EmailRecord.add_sms_request EmailRecord.is_over_verify_codes EmailRecord.is_over_email_limit
    EmailRecord.is_over_sms_limit EmailRecord.trim_hits EmailRecord.trim_verify_codes
    EmailRecord.trim_sms_requests
pr-update limits now action unblock r = ground arith

module _ (env : Env) (q : Request) (email : String) where
  abbrev pair_answer : IpEmailRecord → ℕ
  pair_answer ier = (IpEmailRecord.update env.limits env.now q.action ier).1

  -- Without a password reset the answer of the pair's record stands.
  update_records_pair :
      (ir : IpRecord) (er : EmailRecord) (ier : IpEmailRecord) (sr : Option SmsRecord)
      (reputation : Option ℕ)
      → Stranger env q email
      → er.pr ≡ none
      → advises_block
          (respond_to env q email (update_records env q email ir er ier sr reputation)).response
        ≡ false
      → pair_answer ier ≡ 0
  unfolding update_records respond_to handle_error IpEmailRecord.unblock_if_reset
  update_records_pair ir er ier sr reputation st no_reset =
      elim (Option-cases (is_listed env q.ip)) [
        | inl throws ↦ rw (throws, update_records) (λ h. cc)
        | inr (listed, answers) ↦
            rw
              (
                answers,
                update_records,
                pr-update env.limits env.now q.action q.has_unblock_code er,
                no_reset,
              )
              (λ h.
                let zero_retry = settle_passes env q email _ _ _ _ reputation _ listed st h in
                ground (arith, zero_retry.0))
      ]

  check_records_pair :
      (ir : IpRecord) (er : EmailRecord) (ier : IpEmailRecord) (sr : Option SmsRecord)
      (reputation : Option ℕ)
      → Stranger env q email
      → er.pr ≡ none
      → advises_block
          (respond_to env q email (check_records env q email ir er ier sr reputation)).response
        ≡ false
      → pair_answer ier ≡ 0
  unfolding check_records respond_to create_response allow_whitelisted
  check_records_pair ir er ier sr reputation st no_reset =
      elim (Bool-cases (IpRecord.is_blocked env.limits env.now ir)) [
        | inl blocked ↦ rw blocked (λ h. ground (arith, h, st))
        | inr free ↦ rw free (update_records_pair ir er ier sr reputation st no_reset)
      ]

module _ (env : Env) (m : RuleMap) (q : Request) where
  abbrev email : String
  email = env.to_lower_case q.email

  abbrev pair : IpEmailRecord
  pair = fetch_ip_email env q.ip email

  -- `/check` advises to block a complete request that checks a password of an account whose password
  -- was never reset, if more than `maxBadLogins` failed logins from the address to the account lie
  -- within the interval. (No user-defined rule applies, and the request is not allowed in any case.)
  pub bad_logins_blocked :
      (is_missing q.email || is_missing q.ip || is_missing q.action) ≡ false
      → lookup q.action m ≡ none
      → is_allowed env.allowed q.ip (some email) (phone q) ≡ false
      → (fetch_email env email).pr ≡ none
      → is_password_checking_action q.action ≡ true
      → 0 < env.now
      → 0 < env.limits.rate_limit_interval_ms
      → Ascending pair.lf
      → env.limits.max_bad_logins < recent env.now env.limits.rate_limit_interval_ms pair.lf
      → advises_block (check env m q).response ≡ true
  unfolding check
  bad_logins_blocked complete no_rules st no_reset login p i asc many = rw complete (
      rw (then_rules-none env q email m _ no_rules) (elim (Bool-cases (advises_block answer)) [
        | inl held ↦ held
        | inr passes ↦
            let zero_answer = check_records_pair env q email _ _ pair _ _ st no_reset passes in
            absurd (
              ground (
                arith,
                zero_answer,
                login,
                many,
                update_throttle env.limits env.now q.action pair p i asc,
              ))
      ]))
    where
      answer : Response
      answer =
          (respond_to env q email (
            check_records env q email (fetch_ip env q.ip) (fetch_email env email) pair
              (fetch_sms env q.phone_number)
              (get env.reputation (env.reputation_of q.ip)))).response
