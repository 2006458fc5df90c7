-- ===== src/Customs/Server/Events.antt =====
-- The handlers of lib/server.js that record what happened, `/failedLoginAttempt`, `/passwordReset`,
-- `/blockEmail` and `/blockIp`, and lib/bans/handler.js.
use fxa_local_dev.Prelude.{
  ℕ, String, Bool, false, ◌||◌, none, some, List, [], ◌∷◌, ◌==◌, if◌then◌else◌,
}
use fxa_local_dev.Customs.EmailRecord
use fxa_local_dev.Customs.EmailRecord.{EmailObject}
use fxa_local_dev.Customs.IpEmailRecord
use fxa_local_dev.Customs.IpRecord
use fxa_local_dev.Customs.IpRecord.{IpRecord, IpObject}
use fxa_local_dev.Customs.Server.{
  Env, Handled, Response, empty, status, Write, Reply, failed, missing, found, all_succeed, respond,
  is_missing, write_ip, write_email, set_records, fetch_ip, fetch_email, fetch_ip_email,
}

-- `res.send({})`, or status 500 if a write failed
abbrev sent_if : Bool → Response
sent_if ok = if ok then empty else status 500

-- `Number(req.body.errno) || 999` is given as 0 where the number is 0 or `NaN`.
unfoldable pub errno_of : ℕ → ℕ
errno_of errno = if errno == 0 then 999 else errno

unfoldable pub failed_login_attempt : Env → String → String → ℕ → Handled
failed_login_attempt env raw_email ip errno =
    if is_missing raw_email || is_missing ip
    then respond (status 400)
    else let email = env.to_lower_case raw_email in
      let ir = IpRecord.add_bad_login env.limits env.now email (errno_of errno) (fetch_ip env ip) in
      let ier = IpEmailRecord.add_bad_login env.limits env.now (fetch_ip_email env ip email) in
      let (ir', over) = IpRecord.is_over_bad_logins env.limits env.now ir in
      let writes = set_records env ip ir' email (fetch_email env email) ier "" none in
      record {
        response = sent_if (all_succeed env.mc writes);
        writes = writes;
        reports = if over then (ip, "fxa:request.failedLoginAttempt.isOverBadLogins") ∷ [] else [];
      }

unfoldable pub password_reset : Env → String → Handled
password_reset env raw_email =
    if is_missing raw_email
    then respond (status 400)
    else let email = env.to_lower_case raw_email in
      let w =
        write_email env email
          (EmailRecord.password_reset env.limits env.now (fetch_email env email)) in
      record { response = sent_if (env.mc.set_succeeds w); writes = w ∷ []; reports = [] }

-- A ban handler's callback: the writes tried, and whether there was no error.
abbrev pub Banned : Type 0
Banned = List Write × Bool

module _ (env : Env) where
  abbrev store : Write → Banned
  store w = (w ∷ [], env.mc.set_succeeds w)

  unfoldable pub ban_ip : String → Reply IpObject → Banned
  ban_ip ip failed = ([], false)
  ban_ip ip missing =
      store (write_ip env ip (IpRecord.block env.limits env.now (IpRecord.parse none)))
  ban_ip ip (found object) =
      store (write_ip env ip (IpRecord.block env.limits env.now (IpRecord.parse (some object))))

  unfoldable pub ban_email : String → Reply EmailObject → Banned
  ban_email email failed = ([], false)
  ban_email email missing =
      store (write_email env email (EmailRecord.block env.limits env.now (EmailRecord.parse none)))
  ban_email email (found object) = store (
      write_email env email
        (EmailRecord.block env.limits env.now (EmailRecord.parse (some object))))

  -- `handleBan` of the message `{ ban: { ip, email } }`, in which a missing text is empty
  unfoldable pub handle_ban : String → String → Banned
  handle_ban ip email =
      if is_missing ip
      then if is_missing email then ([], false) else ban_email email (env.mc.get_email email)
      else ban_ip ip (env.mc.get_ip ip)

  unfoldable pub block_email : String → Handled
  block_email raw_email =
      if is_missing raw_email
      then respond (status 400)
      else let (writes, ok) = handle_ban "" (env.to_lower_case raw_email) in
        record { response = sent_if ok; writes = writes; reports = [] }

  -- The report is made whether the ban succeeded or not.
  unfoldable pub block_ip : String → Handled
  block_ip ip =
      if is_missing ip
      then respond (status 400)
      else let (writes, ok) = handle_ban ip "" in
        record {
          response = sent_if ok;
          writes = writes;
          reports = (ip, "fxa:request.blockIp") ∷ [];
        }
