-- ===== src/Customs/EmailRecord.antt =====
-- lib/email_record.js: what is remembered of one email address. A method takes the limits and the
-- reading of the clock first, and returns the record as it leaves it.
pub mod Verdict
pub mod Shape
pub mod Penalty
use fxa_local_dev.Prelude.{
  ℕ, ◌+◌, String, Bool, ◌||◌, Option, none, some, List, [], ◌∷◌, ◌++◌, max, ltb, leb, length,
  if◌then◌else◌,
}
use fxa_local_dev.Customs.Time.{is_within, seconds_left}
use fxa_local_dev.Customs.Window.{trim}
use fxa_local_dev.Customs.Actions.{
  is_code_verifying_action, is_email_sending_action, is_sms_sending_action,
}
use fxa_local_dev.Customs.Limits.{Limits}
use fxa_local_dev.Customs.Outcome.{Outcome, returns, continues, ◌>>=◌, finish}

pub record EmailRecord : Type 0 where
  pub bk : Option ℕ
  pub rl : Option ℕ
  pub pr : Option ℕ
  pub vc : List ℕ
  pub xs : List ℕ
  pub sms : List ℕ
  pub ub : List ℕ

-- The object that memcached returns; a field may be missing.
pub record EmailObject : Type 0 where
  pub bk : Option ℕ
  pub rl : Option ℕ
  pub pr : Option ℕ
  pub vc : Option (List ℕ)
  pub xs : Option (List ℕ)
  pub sms : Option (List ℕ)
  pub ub : Option (List ℕ)

unfoldable pub new : EmailRecord
new = record { bk = none; rl = none; pr = none; vc = []; xs = []; sms = []; ub = [] }

-- `a || b` on lists, which are truthy
unfoldable pub or_list {ℓ} : {A : Type ℓ} → Option (List A) → List A → List A
or_list none d = d
or_list (some a) d = a

unfoldable pub parse : Option EmailObject → EmailRecord
unfolding new or_list
parse none = new
parse (some object) = record {
  bk = object.bk;
  rl = object.rl;
  pr = object.pr;
  vc = or_list object.vc new.vc;
  xs = or_list object.xs new.xs;
  sms = or_list object.sms new.sms;
  ub = or_list object.ub new.ub;
}

unfoldable pub get_min_lifetime_ms : Limits → ℕ
get_min_lifetime_ms limits = max limits.rate_limit_interval_ms limits.block_interval_ms

module _ (limits : Limits) (now : ℕ) where
  unfoldable pub trim_hits : EmailRecord → EmailRecord
  trim_hits r = record r {
    xs = trim now limits.rate_limit_interval_ms (limits.max_emails + 1) r.xs;
  }

  unfoldable pub is_over_email_limit : EmailRecord → EmailRecord × Bool
  unfolding trim_hits
  is_over_email_limit r = let r' = trim_hits r in (r', ltb limits.max_emails (length r'.xs))

  unfoldable pub add_hit : EmailRecord → EmailRecord
  add_hit r = record r { xs = r.xs ++ now ∷ [] }

  unfoldable pub trim_verify_codes : EmailRecord → EmailRecord
  trim_verify_codes r = record r {
    vc = trim now limits.rate_limit_interval_ms (limits.max_verify_codes + 1) r.vc;
  }

  unfoldable pub is_over_verify_codes : EmailRecord → EmailRecord × Bool
  unfolding trim_verify_codes
  is_over_verify_codes r =
      let r' = trim_verify_codes r in (r', ltb limits.max_verify_codes (length r'.vc))

  unfoldable pub add_verify_code : EmailRecord → EmailRecord
  add_verify_code r = record r { vc = r.vc ++ now ∷ [] }

  unfoldable pub trim_sms_requests : EmailRecord → EmailRecord
  trim_sms_requests r = record r {
    sms = trim now limits.rate_limit_interval_ms (limits.max_sms + 1) r.sms;
  }

  unfoldable pub is_over_sms_limit : EmailRecord → EmailRecord × Bool
  unfolding trim_sms_requests
  is_over_sms_limit r = let r' = trim_sms_requests r in (r', ltb limits.max_sms (length r'.sms))

  unfoldable pub add_sms_request : EmailRecord → EmailRecord
  add_sms_request r = record r { sms = r.sms ++ now ∷ [] }

  unfoldable pub add_unblock : EmailRecord → EmailRecord
  add_unblock r = record r { ub = r.ub ++ now ∷ [] }

  unfoldable pub trim_unblocks : EmailRecord → EmailRecord
  trim_unblocks r = record r {
    ub = trim now limits.rate_limit_interval_ms (limits.max_unblock_attempts + 1) r.ub;
  }

  unfoldable pub can_unblock : EmailRecord → EmailRecord × Bool
  unfolding trim_unblocks
  can_unblock r = let r' = trim_unblocks r in (r', leb (length r'.ub) limits.max_unblock_attempts)

  unfoldable pub is_rate_limited : EmailRecord → Bool
  is_rate_limited r = is_within r.rl limits.rate_limit_interval_ms now

  unfoldable pub is_blocked : EmailRecord → Bool
  is_blocked r = is_within r.bk limits.block_interval_ms now

  unfoldable pub should_block : EmailRecord → Bool
  unfolding is_rate_limited is_blocked
  should_block r = is_rate_limited r || is_blocked r

  unfoldable pub block : EmailRecord → EmailRecord
  block r = record r { bk = some now }

  unfoldable pub rate_limit : EmailRecord → EmailRecord
  rate_limit r = record r { rl = some now; xs = []; sms = [] }

  unfoldable pub password_reset : EmailRecord → EmailRecord
  password_reset r = record r { pr = some now }

  unfoldable pub retry_after : EmailRecord → ℕ
  retry_after r =
      max (seconds_left r.rl limits.rate_limit_interval_ms now)
        (seconds_left r.bk limits.block_interval_ms now)

  -- What follows the three `isOver…` tests of `update`.
  unfoldable pub limit_if_over : EmailRecord × Bool → Outcome EmailRecord
  unfolding rate_limit retry_after
  limit_if_over (r, over) =
      if over then returns (rate_limit r) (retry_after (rate_limit r)) else continues r

  -- The block of `update` for code-checking actions.
  unfoldable pub update_verify_codes : String → EmailRecord → Outcome EmailRecord
  unfolding should_block retry_after add_verify_code is_over_verify_codes limit_if_over
  update_verify_codes action r =
      if is_code_verifying_action action
      then if should_block r
        then returns r (retry_after r)
        else limit_if_over (is_over_verify_codes (add_verify_code r))
      else continues r

  -- The block of `update` for email-sending actions.
  unfoldable pub update_emails : String → EmailRecord → Outcome EmailRecord
  unfolding should_block retry_after add_hit is_over_email_limit limit_if_over
  update_emails action r =
      if is_email_sending_action action
      then if should_block r
        then returns r (retry_after r)
        else limit_if_over (is_over_email_limit (add_hit r))
      else continues r

  -- The block of `update` for sms-sending actions.
  unfoldable pub update_sms : String → EmailRecord → Outcome EmailRecord
  unfolding should_block retry_after add_sms_request is_over_sms_limit limit_if_over
  update_sms action r =
      if is_sms_sending_action action
      then if should_block r
        then returns r (retry_after r)
        else limit_if_over (is_over_sms_limit (add_sms_request r))
      else continues r

  unfoldable pub update : String → Bool → EmailRecord → EmailRecord × ℕ
  unfolding is_blocked retry_after add_unblock update_verify_codes update_emails update_sms
  update action unblock r =
      if is_blocked r
      then (r, retry_after r)
      else finish (do
        r₁ ← continues (if unblock then add_unblock r else r)
        r₂ ← update_verify_codes action r₁
        r₃ ← update_emails action r₂
        update_sms action r₃)
