-- ===== src/Customs/Server/IpOnly.antt =====
-- What `/checkIpOnly` answers: to an address that is banned, one that is let through, and when
-- memcached fails.
use fxa_local_dev.Prelude.{
  ℕ, ◌+◌, ◌≤◌, ◌<◌, String, ◌≡◌, refl, ap, ◌∙◌, inl, inr, true, false, ◌||◌, ◌&&◌, not, Option,
  some, none, [], ◌∷◌, arith, Bool-cases, Option-cases,
}
use fxa_local_dev.Customs.IpRecord
use fxa_local_dev.Customs.IpRecord.{IpRecord}
use fxa_local_dev.Customs.IpRecord.Verdict.{update_verdict}
use fxa_local_dev.Customs.Actions.{is_account_access_action}
use fxa_local_dev.Customs.Allowed.{is_allowed}
use fxa_local_dev.Customs.Reputation.{get}
use fxa_local_dev.Customs.Server.{
  Env, found, checked, set_ip, all_succeed, is_missing, fetch_ip, allow_whitelisted,
}
use fxa_local_dev.Customs.Server.Events.{block_ip}
use fxa_local_dev.Customs.Server.Check.{is_listed, judge}
use fxa_local_dev.Customs.Server.CheckIpOnly.{
  update_record, check_record, respond_to, check_ip_only,
}
use fxa_local_dev.Customs.Server.Passes.{advises_block}
use fxa_local_dev.Customs.Server.Ban.{stored_ip, fetched, still_blocked, block_ip-writes}

module _ (env : Env) (ip action : String) where
  update_record-fails_closed :
      (ir : IpRecord) (reputation : Option ℕ)
      → all_succeed env.mc
          (respond_to env ip action (update_record env ip action ir reputation)).writes
        ≡ false
      → (respond_to env ip action (update_record env ip action ir reputation)).response
        ≡ checked true env.limits.ip_rate_limit_interval_seconds none none
  unfolding update_record respond_to all_succeed
  update_record-fails_closed ir reputation = elim (Option-cases (is_listed env ip)) [
    | inl throws ↦ rw (throws, update_record) (λ h. refl)
    | inr (listed, answers) ↦ rw (answers, update_record) (λ h. ground (arith, h))
  ]

  -- If memcached refuses the record that `/checkIpOnly` writes, the action is blocked for the rate
  -- limit interval of addresses, whoever asks.
  pub check_ip_only-fails_closed :
      all_succeed env.mc (check_ip_only env ip action).writes ≡ false
      → (check_ip_only env ip action).response
        ≡ checked true env.limits.ip_rate_limit_interval_seconds none none
  unfolding check_ip_only check_record respond_to
  check_ip_only-fails_closed = elim (Bool-cases (is_missing action || is_missing ip)) [
    | inl incomplete ↦ rw incomplete (unfold all_succeed in λ h. cc)
    | inr complete ↦
        rw complete (elim (Bool-cases (IpRecord.is_blocked env.limits env.now (fetch_ip env ip))) [
          | inl blocked ↦ rw blocked (unfold all_succeed in λ h. cc)
          | inr free ↦ rw free (update_record-fails_closed (fetch_ip env ip) _)
        ])
  ]

  update_record_passes :
      (ir : IpRecord) (reputation : Option ℕ)
      → is_allowed env.allowed ip none none ≡ false
      → advises_block
          (respond_to env ip action (update_record env ip action ir reputation)).response
        ≡ false
      → ((IpRecord.update env.limits env.now action "" ir).1 ≡ 0) × (is_listed env ip ≡ some false)
  unfolding update_record respond_to judge allow_whitelisted
  update_record_passes ir reputation st = elim (Option-cases (is_listed env ip)) [
    | inl throws ↦ rw (throws, update_record) (λ h. cc)
    | inr (listed, answers) ↦ rw (answers, update_record) (λ h. ground (arith, h, st))
  ]

  -- If `/checkIpOnly` lets through a complete request of an address that is not allowed in any case,
  -- then the address is on no blocklist, and for an action that grants no account access its record
  -- as updated is neither blocked nor rate-limited. (The clock has passed the lengths of the bans.)
  pub check_ip_only_passes :
      (is_missing action || is_missing ip) ≡ false
      → is_allowed env.allowed ip none none ≡ false
      → advises_block (check_ip_only env ip action).response ≡ false
      → env.limits.block_interval_ms ≤ env.now
      → env.limits.ip_rate_limit_ban_duration_ms ≤ env.now
      → ((not (is_account_access_action action)
            && IpRecord.should_block env.limits env.now
                (IpRecord.update env.limits env.now action "" (fetch_ip env ip)).0)
          ≡ false)
        × (is_listed env ip ≡ some false)
  unfolding check_ip_only check_record respond_to allow_whitelisted
  check_ip_only_passes complete st passes b k =
      elim (Bool-cases (IpRecord.is_blocked env.limits env.now (fetch_ip env ip))) [
        | inl blocked ↦ ground (arith, passes, complete, blocked, st)
        | inr free ↦
            let (zero_retry, unlisted) =
              update_record_passes (fetch_ip env ip) (get env.reputation (env.reputation_of ip)) st
                (ground (arith, passes, complete, free)) in
            (
              ground (
                arith,
                zero_retry,
                update_verdict env.limits env.now action "" (fetch_ip env ip) b k,
              ),
              unlisted,
            )
      ]

  check_ip_only_blocked :
      (is_missing action || is_missing ip) ≡ false
      → IpRecord.is_blocked env.limits env.now (fetch_ip env ip) ≡ true
      → ((check_ip_only env ip action).writes ≡ [])
        × (advises_block (check_ip_only env ip action).response
            ≡ not (is_allowed env.allowed ip none none))
  unfolding check_ip_only check_record respond_to allow_whitelisted
  check_ip_only_blocked complete blocked = rw (complete, blocked, check_record) (refl, ground arith)

-- Once `/blockIp` has stored its record for an address, and as long as memcached hands that record
-- back and the block interval is not over, `/checkIpOnly` of the address writes nothing and advises
-- to block, unless the address is allowed.
pub ip_ban_holds :
    (env later : Env) (ip action : String) (r : IpRecord) (life : ℕ)
    → (block_ip env ip).writes ≡ set_ip ip r life ∷ []
    → later.mc.get_ip ip ≡ found (stored_ip r)
    → 0 < env.now
    → later.now < env.now + later.limits.block_interval_ms
    → (is_missing action || is_missing ip) ≡ false
    → ((check_ip_only later ip action).writes ≡ [])
      × (advises_block (check_ip_only later ip action).response
          ≡ not (is_allowed later.allowed ip none none))
ip_ban_holds env later ip action r life wrote back pos early complete =
    check_ip_only_blocked later ip action complete (
      ap (IpRecord.is_blocked later.limits later.now) (fetched later ip r back)
      ∙ (still_blocked later r env.now (block_ip-writes env ip r life wrote) pos early).0)
