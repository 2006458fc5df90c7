-- ===== src/Customs/UidRecord/Bans.antt =====
-- What `addCount` of lib/uid_record.js allows, and what its bans come to.
use fxa_local_dev.Prelude.{
  ℕ, ◌+◌, String, ◌≡◌, refl, ap, ◌∙◌, Bool, true, false, none, List, [], ◌∷◌, ◌++◌, min, arith, ltb,
  length, str_eq, str_eq_iff, if◌then◌else◌, Ascending, length-append,
}
use text.Mathlib.TextPositions.{eq_refl}
use fxa_local_dev.Customs.Window.{trim}
use fxa_local_dev.Customs.Window.Trim.{recent, length-trim}
use fxa_local_dev.Customs.Limits.{Limits}
use fxa_local_dev.Customs.UidRecord.{
  UidRecord, lookup, insert, trim_counts, push_timestamp, is_rate_limited, get_possible_retry_delay,
  get_retry_after, add_count,
}

lookup-insert :
    (a a' : String) (ts : List ℕ) (m : List (String × List ℕ))
    → lookup a' (insert a ts m) ≡ (if str_eq a a' then ts else lookup a' m)
unfolding lookup insert
lookup-insert a a' ts [] = refl
lookup-insert a a' ts ((b, old) ∷ m) =
    ground (arith, str_eq_iff a a', str_eq_iff b a, str_eq_iff b a', lookup-insert a a' ts m)

lookup-insert_self :
    (a : String) (ts : List ℕ) (m : List (String × List ℕ)) → lookup a (insert a ts m) ≡ ts
lookup-insert_self a ts m = simp (lookup-insert, eq_refl)

module _ (limits : Limits) (now : ℕ) where
  abbrev pub timestamps : String → UidRecord → List ℕ
  timestamps action r = lookup action r.timestamps_by_action

  abbrev trimmed : String → UidRecord → List ℕ
  trimmed action r =
      trim now limits.uid_rate_limit_interval_ms limits.max_checks_per_uid (timestamps action r)

  timestamps-trim_counts :
      (action : String) (r : UidRecord)
      → timestamps action (trim_counts limits now action r) ≡ trimmed action r
  unfolding trim_counts
  timestamps-trim_counts action r = lookup-insert_self action _ r.timestamps_by_action

  timestamps-push :
      (action : String) (r : UidRecord)
      → timestamps action (push_timestamp limits now action r) ≡ timestamps action r ++ now ∷ []
  unfolding push_timestamp
  timestamps-push action r = lookup-insert_self action _ r.timestamps_by_action

  possible_delay :
      (action : String) (r : UidRecord)
      → is_rate_limited limits now r ≡ false
      → (get_possible_retry_delay limits now action r).1 ≡ (
          if ltb (length (timestamps action r)) limits.max_checks_per_uid
          then 0
          else limits.uid_rate_limit_ban_duration_ms)
  unfolding get_possible_retry_delay
  possible_delay action r free = ground arith

  length-pushed :
      (action : String) (r : UidRecord)
      → Ascending (timestamps action r)
      → length
          (timestamps action (push_timestamp limits now action (trim_counts limits now action r)))
        ≡ min limits.max_checks_per_uid
            (recent now limits.uid_rate_limit_interval_ms (timestamps action r))
          + 1
  length-pushed action r asc =
      rw (timestamps-push action (trim_counts limits now action r), timestamps-trim_counts action r)
        (omega (
          arith,
          length-append (trimmed action r) (now ∷ []),
          length-trim now limits.uid_rate_limit_interval_ms limits.max_checks_per_uid
              (timestamps action r) asc,
        ))

  -- A check of an account that is not limited is let through just when with it fewer than
  -- `maxChecks` checks of the action lie within the interval; else the account is told the whole
  -- ban.
  pub add_count_exact :
      (action : String) (r : UidRecord)
      → is_rate_limited limits now r ≡ false
      → Ascending (timestamps action r)
      → (add_count limits now action r).1 ≡ (
          if ltb
            (recent now limits.uid_rate_limit_interval_ms (timestamps action r) + 1)
            limits.max_checks_per_uid
          then 0
          else limits.uid_rate_limit_ban_duration_ms)
  unfolding add_count trim_counts push_timestamp
  add_count_exact action r free asc = rw free (
      possible_delay action (push_timestamp limits now action (trim_counts limits now action r))
        free
      ∙ ground (arith, length-pushed action r asc))

  -- Fewer than `maxChecks` checks of the action lie within the interval.
  abbrev few : String → UidRecord → Bool
  few action r =
      ltb (recent now limits.uid_rate_limit_interval_ms (timestamps action r))
        limits.max_checks_per_uid

  -- A check of a limited account is told the rest of the ban if `maxChecks` checks of the action lie
  -- within the interval; if fewer do, as those of another action may, it is let through and the ban
  -- is lifted.
  pub add_count_limited :
      (action : String) (r : UidRecord)
      → is_rate_limited limits now r ≡ true
      → Ascending (timestamps action r)
      → ((add_count limits now action r).1
          ≡ (if few action r then 0 else get_retry_after limits now r))
        × ((add_count limits now action r).0.rate_limited_timestamp
            ≡ (if few action r then none else r.rate_limited_timestamp))
  unfolding add_count
  add_count_limited action r held asc = ground (
    arith,
    held,
    ap length (timestamps-trim_counts action r),
    length-trim now limits.uid_rate_limit_interval_ms limits.max_checks_per_uid
        (timestamps action r) asc,
  )
