-- ===== src/Customs/Server/Ban.antt =====
-- From a ban to the checks that it refuses: `/blockIp` and `/blockEmail`, then `/check`, with what
-- memcached hands back in between.
use fxa_local_dev.Prelude.{
  ℕ, ◌+◌, ◌<◌, String, ◌≡◌, refl, ap, ◌∙◌, true, false, ◌||◌, not, some, none, [], ◌∷◌, arith,
  if◌then◌else◌,
}
use fxa_local_dev.Customs.Time.{is_within, seconds_left-pos}
use fxa_local_dev.Customs.IpRecord
use fxa_local_dev.Customs.IpRecord.{IpRecord, IpObject}
use fxa_local_dev.Customs.EmailRecord
use fxa_local_dev.Customs.EmailRecord.{EmailRecord, EmailObject, or_list}
use fxa_local_dev.Customs.Allowed.{is_allowed}
use fxa_local_dev.Customs.Rules.{RuleMap, lookup}
use fxa_local_dev.Customs.Server.{
  Env, found, Response, checked, empty, status, set_ip, is_missing, fetch_ip, allow_whitelisted,
  write_ip,
}
use fxa_local_dev.Customs.Server.Events.{ban_ip, handle_ban, block_ip}
use fxa_local_dev.Customs.Server.Check.{
  Request, check_records, respond_to, create_response, phone, check,
}
use fxa_local_dev.Customs.Server.Passes.{advises_block, then_rules-none}

-- What memcached hands back for a record that was stored in it: the object with the same fields.
abbrev pub stored_ip : IpRecord → IpObject
stored_ip r = record {
  bk = r.bk;
  rl = r.rl;
  lf = some r.lf;
  vc = some r.vc;
  status_checks = some r.status_checks;
  sms = some r.sms;
  aa = some r.aa;
}

abbrev pub stored_email : EmailRecord → EmailObject
stored_email r = record {
  bk = r.bk;
  rl = r.rl;
  pr = r.pr;
  vc = some r.vc;
  xs = some r.xs;
  sms = some r.sms;
  ub = some r.ub;
}

-- To store a record and to parse what comes back changes nothing.
pub parse-stored_ip : (r : IpRecord) → IpRecord.parse (some (stored_ip r)) ≡ r
unfolding IpRecord.parse
parse-stored_ip r = refl

pub parse-stored_email : (r : EmailRecord) → EmailRecord.parse (some (stored_email r)) ≡ r
unfolding EmailRecord.parse
parse-stored_email r = refl

-- The record that `/blockIp` writes, unless memcached could not be read.
pub block_ip-writes :
    (env : Env) (ip : String) (r : IpRecord) (life : ℕ)
    → (block_ip env ip).writes ≡ set_ip ip r life ∷ []
    → r.bk ≡ some env.now
unfolding block_ip handle_ban ban_ip write_ip IpRecord.block IpRecord.parse
block_ip-writes env ip r life e = ground (arith, e)

module _ (env : Env) (m : RuleMap) (q : Request) where
  abbrev email : String
  email = env.to_lower_case q.email

  -- `/check` of a blocked address: nothing is written, and only the allowed pass.
  check_blocked :
      (is_missing q.email || is_missing q.ip || is_missing q.action) ≡ false
      → lookup q.action m ≡ none
      → IpRecord.is_blocked env.limits env.now (fetch_ip env q.ip) ≡ true
      → ((check env m q).writes ≡ [])
        × ((check env m q).response ≡ (
            if is_allowed env.allowed q.ip (some email) (phone q)
            then checked false
                (IpRecord.retry_after env.limits env.now (fetch_ip env q.ip))
                none
                (some false)
            else checked true
                (IpRecord.retry_after env.limits env.now (fetch_ip env q.ip))
                none
                none))
  unfolding check check_records respond_to create_response allow_whitelisted
  check_blocked complete no_rules blocked =
      rw (complete, then_rules-none env q email m _ no_rules, blocked, check_records)
        (refl, ground arith)

-- The wait that a response tells.
abbrev pub told : Response → ℕ
told (checked block retry_after unblock suspect) = retry_after
told empty = 0
told (status code) = 0

pub fetched :
    (env : Env) (ip : String) (r : IpRecord)
    → env.mc.get_ip ip ≡ found (stored_ip r)
    → fetch_ip env ip ≡ r
unfolding fetch_ip
fetched env ip r e = rw e (parse-stored_ip r)

pub still_blocked :
    (env : Env) (r : IpRecord) (t : ℕ)
    → r.bk ≡ some t
    → 0 < t
    → env.now < t + env.limits.block_interval_ms
    → (IpRecord.is_blocked env.limits env.now r ≡ true)
      × (0 < IpRecord.retry_after env.limits env.now r)
unfolding IpRecord.is_blocked IpRecord.retry_after is_within
still_blocked env r t e pos early = (
  rw e (ground arith),
  rw e (ground (arith, seconds_left-pos (some t) env.limits.block_interval_ms env.now)),
)

-- Once `/blockIp` has stored its record for an address, and as long as memcached hands that record
-- back and the block interval is not over, `/check` of the address advises to block and tells a
-- wait, unless the request is one that is always allowed; it writes nothing, so the email that was
-- tried is not penalised. (No user-defined rule applies to the action.)
pub ban_holds :
    (env later : Env) (m : RuleMap) (q : Request) (r : IpRecord) (life : ℕ)
    → (block_ip env q.ip).writes ≡ set_ip q.ip r life ∷ []
    → later.mc.get_ip q.ip ≡ found (stored_ip r)
    → 0 < env.now
    → later.now < env.now + later.limits.block_interval_ms
    → (is_missing q.email || is_missing q.ip || is_missing q.action) ≡ false
    → lookup q.action m ≡ none
    → ((check later m q).writes ≡ [])
      × (advises_block (check later m q).response
          ≡ not (is_allowed later.allowed q.ip (some (later.to_lower_case q.email)) (phone q)))
      × (0 < told (check later m q).response)
ban_holds env later m q r life wrote back pos early complete no_rules =
    let same = fetched later q.ip r back in
    let (blocked, wait) =
      still_blocked later r env.now (block_ip-writes env q.ip r life wrote) pos early in
    let (silent, answer) =
      check_blocked later m q complete no_rules
        (ap (IpRecord.is_blocked later.limits later.now) same ∙ blocked) in
    let wait' : 0 < IpRecord.retry_after later.limits later.now (fetch_ip later q.ip) =
      rw same wait in
    (silent, rw answer (ground arith), rw answer (ground (arith, wait')))
