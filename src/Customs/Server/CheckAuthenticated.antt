-- ===== src/Customs/Server/CheckAuthenticated.antt =====
-- The handler of `/checkAuthenticated`.
use Prim.Native.String.{◌++◌ as string_append}
use fxa_local_dev.Prelude.{ℕ, String, true, ◌||◌, none, List, [], ◌∷◌, ltb, if◌then◌else◌}
use fxa_local_dev.Customs.UidRecord
use fxa_local_dev.Customs.UidRecord.{UidRecord}
use fxa_local_dev.Customs.Server.{
  Env, Handled, checked, status, Write, object_of, respond, is_missing, write_uid,
}

module _ (env : Env) (action ip uid : String) where
  abbrev report : List (String × String)
  report = (ip, string_append "fxa:request.checkAuthenticated.block." action) ∷ []

  -- After the record was written, or could not be.
  unfoldable pub answer : ℕ → Write → Handled
  answer retry_after w =
      if env.mc.set_succeeds w
      then record {
        response = checked (ltb 0 retry_after) retry_after none none;
        writes = w ∷ [];
        reports = if ltb 0 retry_after then report else [];
      }
      else record {
        response = checked true env.limits.block_interval_seconds none none;
        writes = w ∷ [];
        reports = report;
      }

  unfoldable pub count_check : UidRecord → Handled
  count_check r =
      let (r', retry_after) = UidRecord.add_count env.limits env.now action r in
      answer retry_after (write_uid env uid r')

unfoldable pub check_authenticated : Env → String → String → String → Handled
check_authenticated env action ip uid =
    if is_missing action || is_missing ip || is_missing uid
    then respond (status 400)
    else count_check env action ip uid (UidRecord.parse (object_of (env.mc.get_uid uid)))
