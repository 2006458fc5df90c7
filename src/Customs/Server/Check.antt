-- ===== src/Customs/Server/Check.antt =====
-- The handler of `/check`.
use Prim.Native.String.{◌++◌ as string_append}
use fxa_local_dev.Prelude.{
  ℕ, String, Bool, true, false, ◌&&◌, ◌||◌, not, Option, none, some, List, [], ◌∷◌, ◌++◌, max, ltb,
  ◌==◌, if◌then◌else◌,
}
use fxa_local_dev.Customs.EmailRecord
use fxa_local_dev.Customs.EmailRecord.{EmailRecord}
use fxa_local_dev.Customs.IpEmailRecord
use fxa_local_dev.Customs.IpEmailRecord.{IpEmailRecord}
use fxa_local_dev.Customs.IpRecord
use fxa_local_dev.Customs.IpRecord.{IpRecord}
use fxa_local_dev.Customs.SmsRecord
use fxa_local_dev.Customs.SmsRecord.{SmsRecord}
use fxa_local_dev.Customs.RuleRecord
use fxa_local_dev.Customs.RuleRecord.{RuleRecord, Rule}
use fxa_local_dev.Customs.Reputation.{
  BlockReason, ip_in_blocklist, ip_bad_reputation, other, is_block_below, is_suspect_below, get,
}
use fxa_local_dev.Customs.Rules.{RuleMap, RuleNames, names, number, lookup}
use fxa_local_dev.Customs.Server.{
  Env, Handled, checked, status, Result, Write, set_rule, object_of, all_succeed, respond,
  is_missing, lifetime, set_records, fetch_ip, fetch_email, fetch_ip_email, fetch_sms,
  allow_whitelisted, optionally_report_ip,
}

-- The body of the request; a missing text is empty. Of the payload, only whether there is an
-- unblock code, and the phone number, are read.
pub record Request : Type 0 where
  pub email : String
  pub ip : String
  pub action : String
  pub has_unblock_code : Bool
  pub phone_number : String

-- A promise's value or its rejection, with the writes tried so far.
pub data Promise : Type 0 where
  resolved : Result → List Write → Promise
  rejected : List Write → Promise

abbrev update_sms : Env → String → Option SmsRecord → Option SmsRecord × ℕ
update_sms env action none = (none, 0)
update_sms env action (some r) =
    let (r', t) = SmsRecord.update env.limits env.now action r in (some r', t)

-- `retryAfter` and `block` as the records have them, then as the blocklist and the reputation of
-- the IP address change them.
unfoldable pub judge : Env → Option ℕ → IpRecord → Bool → ℕ → Bool × Option BlockReason × ℕ
judge env reputation ir listed retry_after =
    if is_block_below env.reputation reputation
    then (true, some ip_bad_reputation, IpRecord.retry_after env.limits env.now ir)
    else if listed
    then (true, some ip_in_blocklist, 0)
    else (ltb 0 retry_after, (if ltb 0 retry_after then some other else none), retry_after)

-- `config.ipBlocklist.enable && blockListManager.contains(ip)`, which may throw
unfoldable pub is_listed : Env → String → Option Bool
is_listed env ip = elim env.blocklist [ none ↦ some false | some contains ↦ contains ip ]

module _ (env : Env) (q : Request) (email : String) where
  unfoldable pub settle :
      IpRecord → EmailRecord → IpEmailRecord → Option SmsRecord → Option ℕ → ℕ → Bool → Promise
  settle ir er ier sr reputation retry_after listed =
      let (er', can_unblock) = EmailRecord.can_unblock env.limits env.now er in
      let (block, block_reason, retry_after') = judge env reputation ir listed retry_after in
      let writes = set_records env q.ip ir email er' ier q.phone_number sr in
      if all_succeed env.mc writes
      then resolved
          (record {
            block = block;
            block_reason = block_reason;
            retry_after = retry_after';
            unblock = some can_unblock;
            suspect =
                some
                  (env.treat_everyone_with_suspicion || is_suspect_below env.reputation reputation);
          })
          writes
      else rejected writes

  -- The part of `checkRecords` after the early return.
  unfoldable pub update_records :
      IpRecord → EmailRecord → IpEmailRecord → Option SmsRecord → Option ℕ → Promise
  update_records ir er ier sr reputation =
      let (er', block_email) =
        EmailRecord.update env.limits env.now q.action q.has_unblock_code er in
      let (ier', block_ip_email) = IpEmailRecord.update env.limits env.now q.action ier in
      let (ir', block_ip) = IpRecord.update env.limits env.now q.action email ir in
      let (sr', block_sms) = update_sms env q.action sr in
      let (ier'', reset) =
        if ltb 0 block_ip_email
        then IpEmailRecord.unblock_if_reset er'.pr ier'
        else (ier', false) in
      let retry_after =
        max (max (max block_email (if reset then 0 else block_ip_email)) block_ip) block_sms in
      elim (is_listed env q.ip) [
        | none ↦ rejected []
        | some listed ↦ settle ir' er' ier'' sr' reputation retry_after listed
      ]

  unfoldable pub check_records :
      IpRecord → EmailRecord → IpEmailRecord → Option SmsRecord → Option ℕ → Promise
  check_records ir er ier sr reputation =
      if IpRecord.is_blocked env.limits env.now ir
      then resolved
          (record {
            block = true;
            block_reason = none;
            retry_after = IpRecord.retry_after env.limits env.now ir;
            unblock = none;
            suspect = none;
          })
          []
      else update_records ir er ier sr reputation

-- `phoneNumber` is `undefined` where the payload has none.
abbrev pub phone : Request → Option String
phone q = if is_missing q.phone_number then none else some q.phone_number

-- `Math.max(retries)` of an array: the number of an array of one, 0 of the empty array, and else
-- `NaN`, which is `none`.
unfoldable pub max_of_array : List ℕ → Option ℕ
max_of_array [] = some 0
max_of_array (t ∷ []) = some t
max_of_array (t ∷ t' ∷ ts) = none

-- The retries of the rules, or a rejection, and the writes tried.
pub data Retries : Type 0 where
  all_done : List ℕ → List Write → Retries
  stopped : List Write → Retries

module _ (env : Env) (q : Request) (email : String) where
  unfoldable pub rule_key : String → String
  rule_key name = string_append (string_append name ":") (env.create_hash_hex email q.ip)

  -- One round of `P.each`: the write and the retry.
  unfoldable pub check_rule : String → Rule → Write × ℕ
  check_rule name rule =
      let r = RuleRecord.new (object_of (env.mc.get_rule (rule_key name))) in
      let (r', retry_after) = RuleRecord.update rule env.now q.action r in
      (
        set_rule (rule_key name) r' (lifetime env (RuleRecord.get_min_lifetime_ms rule.limits)),
        retry_after,
      )

  unfoldable pub check_rules : List String → List ℕ → List Write → Retries
  check_rules [] retries writes = all_done retries writes
  check_rules (name ∷ rest) retries writes = elim (lookup name env.rules) [
    | none ↦ stopped writes
    | some rule ↦
        let (w, t) = check_rule name rule in
        let go_on = check_rules rest (retries ++ t ∷ []) (writes ++ w ∷ []) in
        if env.mc.set_succeeds w then go_on else stopped (writes ++ w ∷ [])
  ]

  -- The last step of `checkUserDefinedRateLimitRules`: only a longer retry counts.
  unfoldable pub apply_retries : Result → Option ℕ → Result
  apply_retries result none = result
  apply_retries result (some max_retry) =
      if not (max_retry == 0) && ltb result.retry_after max_retry
      then record result { retry_after = max_retry; block = ltb 0 max_retry }
      else result

  unfoldable pub finish_rules : Result → Retries → Promise
  finish_rules result (all_done retries writes) =
      resolved (apply_retries result (max_of_array retries)) writes
  finish_rules result (stopped writes) = rejected writes

  -- The rules for the action may be none, an array, or a number. A number of 2 or more is truthy
  -- and has no length; `P.each` rejects it.
  unfoldable pub apply_rules : Option RuleNames → Result → List Write → Promise
  apply_rules none result writes = resolved result writes
  apply_rules (some (names [])) result writes = resolved result writes
  apply_rules (some (names (k ∷ ks))) result writes =
      finish_rules result (check_rules (k ∷ ks) [] writes)
  apply_rules (some (number n)) result writes =
      if n == 0 then resolved result writes else rejected writes

  unfoldable pub check_user_defined_rate_limit_rules : RuleMap → Result → List Write → Promise
  check_user_defined_rate_limit_rules computed_rules result writes =
      apply_rules (lookup q.action computed_rules) result writes

  unfoldable pub create_response : Result → List Write → Handled
  create_response result writes =
      let r = allow_whitelisted env result q.ip (some email) (phone q) in
      record {
        response = checked r.block r.retry_after r.unblock r.suspect;
        writes = writes;
        reports = optionally_report_ip r q.ip q.action;
      }

  unfoldable pub handle_error : List Write → Handled
  handle_error writes = record {
    response = checked true env.limits.rate_limit_interval_seconds (some false) none;
    writes = writes;
    reports = [];
  }

  -- `.then(createResponse, handleError)`
  unfoldable pub respond_to : Promise → Handled
  respond_to (resolved result writes) = create_response result writes
  respond_to (rejected writes) = handle_error writes

  -- `.then(checkUserDefinedRateLimitRules)`
  unfoldable pub then_rules : RuleMap → Promise → Promise
  then_rules computed_rules (resolved result writes) =
      check_user_defined_rate_limit_rules computed_rules result writes
  then_rules computed_rules (rejected writes) = rejected writes

-- `computed_rules` is what `computeUserDefinedRules` made of the configuration at the start.
unfoldable pub check : Env → RuleMap → Request → Handled
check env computed_rules q =
    if is_missing q.email || is_missing q.ip || is_missing q.action
    then respond (status 400)
    else let email = env.to_lower_case q.email in
      respond_to env q email (
        then_rules env q email computed_rules (
          check_records env q email (fetch_ip env q.ip) (fetch_email env email)
            (fetch_ip_email env q.ip email) (fetch_sms env q.phone_number)
            (get env.reputation (env.reputation_of q.ip))))
