-- ===== src/AuthServer/Blocked.antt =====
-- What the answers of the customs server do to a request of the auth server.
use fxa_local_dev.Prelude.{
  ℕ, ◌+◌, ◌<◌, ◌≡◌, refl, ap, ◌∙◌, inl, inr, true, false, ◌||◌, not, none, some, [], ◌∷◌, arith,
  ◌==◌, Bool-cases,
}
use fxa_local_dev.Customs.Allowed.{is_allowed}
use fxa_local_dev.Customs.Rules.{RuleMap, lookup}
use fxa_local_dev.Customs.IpRecord.{IpRecord}
use fxa_local_dev.Customs.Server.{Env, Response, checked, empty, found, is_missing, set_ip, status}
use fxa_local_dev.Customs.Server.Check.{Request, phone}
use fxa_local_dev.Customs.Server.Check
use fxa_local_dev.Customs.Server.Events.{block_ip}
use fxa_local_dev.Customs.Server.Passes.{advises_block}
use fxa_local_dev.Customs.Server.Ban.{ban_holds, stored_ip, told}
use fxa_local_dev.AuthServer.CustomsClient.{
  Outcome, answered, call, check, failed, handle_called, handle_customs_result, let_through,
  request_blocked, send_request, too_many_requests,
}

-- The wait of a request that is rejected with one, and 0 otherwise.
abbrev pub wait_of : Outcome → ℕ
wait_of (let_through b) = 0
wait_of (too_many_requests wait unblock) = wait
wait_of (request_blocked unblock) = 0
wait_of (failed e) = 0

-- A response that tells a wait and a block.
blocked_waits :
    (r : Response)
    → advises_block r ≡ true
    → 0 < told r
    → wait_of (handle_called (send_request (answered r))) ≡ told r
unfolding handle_called send_request handle_customs_result
blocked_waits (checked true wait unblock suspect) block pos = elim (Bool-cases (wait == 0)) [
  | inl no_wait ↦ absurd (ground (arith, no_wait, pos))
  | inr some_wait ↦ rw some_wait refl
]
blocked_waits (checked false wait unblock suspect) block pos = cc
blocked_waits empty block pos = cc
blocked_waits (status code) block pos = refl

-- After the customs server has banned an address, and while its record is what memcached returns, a
-- check of the auth server for a complete request from the address within the block interval ends
-- with a rejection that tells a wait, where no user-defined rule and no allow list applies.
pub banned_rejected :
    (env later : Env) (m : RuleMap) (q : Request) (r : IpRecord) (life : ℕ)
    → (block_ip env q.ip).writes ≡ set_ip q.ip r life ∷ []
    → later.mc.get_ip q.ip ≡ found (stored_ip r)
    → 0 < env.now
    → later.now < env.now + later.limits.block_interval_ms
    → (is_missing q.email || is_missing q.ip || is_missing q.action) ≡ false
    → lookup q.action m ≡ none
    → is_allowed later.allowed q.ip (some (later.to_lower_case q.email)) (phone q) ≡ false
    → 0 < wait_of (check false q.email q.ip q.action (answered (Check.check later m q).response))
unfolding check call
banned_rejected env later m q r life wrote back pos early complete no_rules not_allowed =
    let (silent, advice, wait) =
      ban_holds env later m q r life wrote back pos early complete no_rules in
    rw (complete, blocked_waits (Check.check later m q).response (advice ∙ ap not not_allowed) wait)
      wait
