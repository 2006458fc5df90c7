-- ===== src/Customs/Server/CheckIpOnly.antt =====
-- The handler of `/checkIpOnly`.
use fxa_local_dev.Prelude.{ℕ, String, true, ◌||◌, Option, none, some, [], ◌∷◌, if◌then◌else◌}
use fxa_local_dev.Customs.IpRecord
use fxa_local_dev.Customs.IpRecord.{IpRecord}
use fxa_local_dev.Customs.Reputation.{is_suspect_below, get}
use fxa_local_dev.Customs.Server.{
  Env, Handled, checked, status, all_succeed, respond, is_missing, write_ip, fetch_ip,
  allow_whitelisted, optionally_report_ip,
}
use fxa_local_dev.Customs.Server.Check.{Promise, resolved, rejected, judge, is_listed}

module _ (env : Env) (ip action : String) where
  -- The part of the check after the early return.
  unfoldable pub update_record : IpRecord → Option ℕ → Promise
  update_record ir reputation =
      let (ir', retry_after) = IpRecord.update env.limits env.now action "" ir in
      elim (is_listed env ip) [
        | none ↦ rejected []
        | some listed ↦
            let (block, block_reason, retry_after') = judge env reputation ir' listed retry_after in
            let writes = write_ip env ip ir' ∷ [] in
            if all_succeed env.mc writes
            then resolved
                (record {
                  block = block;
                  block_reason = block_reason;
                  retry_after = retry_after';
                  unblock = none;
                  suspect = some (
                      env.treat_everyone_with_suspicion
                      || is_suspect_below env.reputation reputation);
                })
                writes
            else rejected writes
      ]

  unfoldable pub check_record : IpRecord → Option ℕ → Promise
  check_record ir reputation =
      if IpRecord.is_blocked env.limits env.now ir
      then resolved
          (record {
            block = true;
            block_reason = none;
            retry_after = IpRecord.retry_after env.limits env.now ir;
            unblock = none;
            suspect = none;
          })
          []
      else update_record ir reputation

  unfoldable pub respond_to : Promise → Handled
  respond_to (resolved result writes) =
      let r = allow_whitelisted env result ip none none in
      record {
        response = checked r.block r.retry_after none r.suspect;
        writes = writes;
        reports = optionally_report_ip r ip action;
      }
  respond_to (rejected writes) = record {
    response = checked true env.limits.ip_rate_limit_interval_seconds none none;
    writes = writes;
    reports = [];
  }

unfoldable pub check_ip_only : Env → String → String → Handled
check_ip_only env ip action =
    if is_missing action || is_missing ip
    then respond (status 400)
    else respond_to env ip action
        (check_record env ip action (fetch_ip env ip) (get env.reputation (env.reputation_of ip)))
