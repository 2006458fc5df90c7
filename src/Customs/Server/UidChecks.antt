-- ===== src/Customs/Server/UidChecks.antt =====
-- What `/checkAuthenticated` answers.
use fxa_local_dev.Prelude.{
  ◌+◌, ◌<◌, String, ◌≡◌, not, true, false, ◌||◌, none, arith, ltb, Ascending, if◌then◌else◌,
}
use fxa_local_dev.Customs.Window.Trim.{recent}
use fxa_local_dev.Customs.UidRecord
use fxa_local_dev.Customs.UidRecord.{UidRecord}
use fxa_local_dev.Customs.UidRecord.Bans.{timestamps, add_count_exact}
use fxa_local_dev.Customs.Server.{Env, checked, is_missing, object_of, Write, write_uid}
use fxa_local_dev.Customs.Server.CheckAuthenticated.{check_authenticated, count_check, answer}

module _ (env : Env) (action ip uid : String) where
  abbrev fetched : UidRecord
  fetched = UidRecord.parse (object_of (env.mc.get_uid uid))

  abbrev written : Write
  written = write_uid env uid (UidRecord.add_count env.limits env.now action fetched).0

  -- A complete check of an account that is not limited, whose earlier checks stand in order, under a
  -- ban duration other than 0: it is let through just when with it fewer than `maxChecks` checks of
  -- the action lie within the interval; else it is blocked, and `retryAfter` is the ban's duration in
  -- milliseconds. If memcached refuses the record it is blocked, with `blockIntervalSeconds`.
  pub check_authenticated_exact :
      (is_missing action || is_missing ip || is_missing uid) ≡ false
      → UidRecord.is_rate_limited env.limits env.now fetched ≡ false
      → Ascending (timestamps env.limits env.now action fetched)
      → 0 < env.limits.uid_rate_limit_ban_duration_ms
      → (check_authenticated env action ip uid).response ≡ (
          if not (env.mc.set_succeeds written)
          then checked true env.limits.block_interval_seconds none none
          else if ltb
              (recent env.now env.limits.uid_rate_limit_interval_ms
                  (timestamps env.limits env.now action fetched)
                + 1)
              env.limits.max_checks_per_uid
          then checked false 0 none none
          else checked true env.limits.uid_rate_limit_ban_duration_ms none none)
  unfolding check_authenticated count_check answer
  check_authenticated_exact complete free asc ban =
      let exact = add_count_exact env.limits env.now action fetched free asc in
      rw complete (ground (arith, exact))
