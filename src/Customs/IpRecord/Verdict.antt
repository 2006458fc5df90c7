-- ===== src/Customs/IpRecord/Verdict.antt =====
-- The verdict of `update` of lib/ip_record.js and the state that it leaves.
use fxa_local_dev.Prelude.{
  length-append, ℕ, ◌+◌, ◌≤◌, ◌<◌, String, ◌≡◌, refl, inl, inr, true, false, Option, some, none,
  List, [], ◌∷◌, ◌++◌, arith, ltb, length, Bool-cases,
}
use fxa_local_dev.Customs.Time.{is_within, seconds_left, seconds_left-pos}
use fxa_local_dev.Customs.Actions.{
  is_account_access_action, is_account_status_action, is_code_verifying_action,
  is_password_checking_action, is_sms_sending_action,
}
use fxa_local_dev.Customs.Objects.{has_key, contains, inherited}
use fxa_local_dev.Customs.Limits.{Limits}
use fxa_local_dev.Customs.IpRecord.{
  IpRecord, update, update_account_status, update_verify_codes, update_bad_logins, update_sms,
  update_account_access, is_blocked, should_block, rate_limit, retry_after,
}

-- There is something left of a ban just while it lasts, from when the clock has passed its length.
seconds_left_iff :
    (t : Option ℕ) (interval now : ℕ)
    → interval ≤ now
    → ltb 0 (seconds_left t interval now) ≡ is_within t interval now
unfolding seconds_left is_within
seconds_left_iff none interval now h = ground arith
seconds_left_iff (some t) interval now h = ground arith

access_only :
    (is_account_access_action "consumeSigninCode" ≡ true)
    × (is_account_status_action "consumeSigninCode" ≡ false)
    × (is_code_verifying_action "consumeSigninCode" ≡ false)
    × (is_password_checking_action "consumeSigninCode" ≡ false)
    × (is_sms_sending_action "consumeSigninCode" ≡ false)
unfolding is_account_access_action is_account_status_action is_code_verifying_action
    is_password_checking_action is_sms_sending_action has_key contains inherited
access_only = (refl, refl, refl, refl, refl)

module _ (limits : Limits) (now : ℕ) where
  pub retry_after_iff :
      (r : IpRecord)
      → limits.block_interval_ms ≤ now
      → limits.ip_rate_limit_ban_duration_ms ≤ now
      → ltb 0 (retry_after limits now r) ≡ should_block limits now r
  unfolding retry_after should_block
  retry_after_iff r h k = ground (
    arith,
    seconds_left_iff r.rl limits.ip_rate_limit_ban_duration_ms now k,
    seconds_left_iff r.bk limits.block_interval_ms now h,
  )

  -- The record as it stands before the block for account accesses.
  abbrev counted : String → String → IpRecord → IpRecord
  counted action email r = update_sms limits now action (
      update_bad_logins limits now action email (
        update_verify_codes limits now action email
          (update_account_status limits now action email r)))

  update_no_access :
      (action : String) (r : IpRecord)
      → is_account_access_action action ≡ false
      → update_account_access limits now action r ≡ (r, retry_after limits now r)
  unfolding update_account_access
  update_no_access action r no_access = rw no_access refl

  -- An action that grants no account access is told to wait just when its address is blocked or
  -- rate-limited afterwards, the clock having passed the lengths of the bans.
  pub update_verdict :
      (action email : String) (r : IpRecord)
      → limits.block_interval_ms ≤ now
      → limits.ip_rate_limit_ban_duration_ms ≤ now
      → is_account_access_action action ≡ false
      → ltb 0 (update limits now action email r).1
        ≡ should_block limits now (update limits now action email r).0
  unfolding update
  update_verdict action email r h k no_access = elim (Bool-cases (is_blocked limits now r)) [
    | inl blocked ↦ rw (blocked, update) (retry_after_iff r h k)
    | inr free ↦
        rw (free, update, update_no_access action (counted action email r) no_access)
          (retry_after_iff (counted action email r) h k)
  ]

  retry_after_limited :
      (r : IpRecord)
      → 0 < now
      → 0 < limits.ip_rate_limit_ban_duration_ms
      → 0 < retry_after limits now (rate_limit limits now r)
  unfolding retry_after rate_limit is_within
  retry_after_limited r p i =
      ground (arith, seconds_left-pos (some now) limits.ip_rate_limit_ban_duration_ms now)

  counted_access : (email : String) (r : IpRecord) → counted "consumeSigninCode" email r ≡ r
  unfolding update_sms update_bad_logins update_verify_codes update_account_status
  counted_access email r = rw (access_only.1, access_only.2, access_only.3, access_only.4) refl

  length-push : (xs : List ℕ) (t : ℕ) → length (xs ++ t ∷ []) ≡ length xs + 1
  length-push xs t = length-append xs (t ∷ [])

  access_exact :
      (r : IpRecord)
      → 0 < now
      → 0 < limits.ip_rate_limit_ban_duration_ms
      → ltb 0 (update_account_access limits now "consumeSigninCode" r).1
        ≡ ltb limits.max_account_access (length r.aa + 1)
  unfolding update_account_access
  access_exact r p i = rw access_only.0 (
      ground
        (arith, length-push r.aa now, retry_after_limited (record r { aa = r.aa ++ now ∷ [] }) p i))

  -- An account access is counted without regard to the time: it is let through as long as no more
  -- than `maxAccountAccess` accesses were ever counted since the last rate limit.
  pub account_access_exact :
      (email : String) (r : IpRecord)
      → 0 < now
      → 0 < limits.ip_rate_limit_ban_duration_ms
      → is_blocked limits now r ≡ false
      → ltb 0 (update limits now "consumeSigninCode" email r).1
        ≡ ltb limits.max_account_access (length r.aa + 1)
  unfolding update
  account_access_exact email r p i free =
      rw (free, update, counted_access email r) (access_exact r p i)
