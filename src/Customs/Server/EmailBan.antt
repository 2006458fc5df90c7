-- ===== src/Customs/Server/EmailBan.antt =====
-- From `/blockEmail` to the checks that it refuses.
use fxa_local_dev.Prelude.{
  ℕ, ◌+◌, ◌<◌, String, ◌≡◌, inl, inr, true, false, ◌||◌, Bool, some, none, [], ◌∷◌, arith,
  Bool-cases,
}
use fxa_local_dev.Customs.Time.{is_within, is_within_early, seconds_left-pos}
use fxa_local_dev.Customs.EmailRecord
use fxa_local_dev.Customs.EmailRecord.{EmailRecord}
use fxa_local_dev.Customs.Allowed.{is_allowed}
use fxa_local_dev.Customs.Rules.{RuleMap, lookup}
use fxa_local_dev.Customs.Server.{Env, found, set_email, is_missing, fetch_email, write_email}
use fxa_local_dev.Customs.Server.Events.{ban_email, handle_ban, block_email}
use fxa_local_dev.Customs.Server.Check.{Request, phone, check}
use fxa_local_dev.Customs.Server.Passes.{advises_block, check_answers}
use fxa_local_dev.Customs.Server.Ban.{stored_email, parse-stored_email}

block_email-writes :
    (env : Env) (raw key : String) (r : EmailRecord) (life : ℕ)
    → (block_email env raw).writes ≡ set_email key r life ∷ []
    → r.bk ≡ some env.now
unfolding block_email handle_ban ban_email write_email EmailRecord.block EmailRecord.parse
block_email-writes env raw key r life e = ground (arith, e)

fetched :
    (env : Env) (email : String) (r : EmailRecord)
    → env.mc.get_email email ≡ found (stored_email r)
    → fetch_email env email ≡ r
unfolding fetch_email
fetched env email r e = rw e (parse-stored_email r)

-- A blocked email is told to wait, whatever the action.
update-blocked :
    (env : Env) (action : String) (unblock : Bool) (r : EmailRecord) (t : ℕ)
    → r.bk ≡ some t
    → 0 < t
    → env.now < t + env.limits.block_interval_ms
    → 0 < (EmailRecord.update env.limits env.now action unblock r).1
unfolding EmailRecord.update
update-blocked env action unblock r t e pos early =
    let interval = env.limits.block_interval_ms in
    let blocked : is_within r.bk interval env.now ≡ true =
      rw e (is_within_early t interval env.now pos early) in
    rw blocked (ground (arith, seconds_left-pos r.bk interval env.now blocked))

-- Once `/blockEmail` has stored its record for an address, and as long as memcached hands that
-- record back and the block interval is not over, `/check` of any action with the address advises to
-- block, from whatever IP address, unless the request is one that is always allowed. (No
-- user-defined rule applies to the action.)
pub email_ban_holds :
    (env later : Env) (m : RuleMap) (q : Request) (r : EmailRecord) (life : ℕ)
    → (block_email env q.email).writes ≡ set_email (env.to_lower_case q.email) r life ∷ []
    → later.mc.get_email (later.to_lower_case q.email) ≡ found (stored_email r)
    → 0 < env.now
    → later.now < env.now + later.limits.block_interval_ms
    → (is_missing q.email || is_missing q.ip || is_missing q.action) ≡ false
    → lookup q.action m ≡ none
    → is_allowed later.allowed q.ip (some (later.to_lower_case q.email)) (phone q) ≡ false
    → advises_block (check later m q).response ≡ true
email_ban_holds env later m q r life wrote back pos early complete no_rules Stranger =
    elim (Bool-cases (advises_block (check later m q).response)) [
      | inl held ↦ held
      | inr passes ↦
          let zero_answer = (check_answers later m q complete no_rules Stranger passes).0 in
          let same = fetched later (later.to_lower_case q.email) r back in
          absurd (
            omega (
              arith,
              update-blocked later q.action q.has_unblock_code r env.now
                  (block_email-writes env q.email _ r life wrote) pos early,
              rw same at zero_answer,
            ))
    ]
