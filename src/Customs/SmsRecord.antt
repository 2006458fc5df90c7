-- ===== src/Customs/SmsRecord.antt =====
-- lib/sms_record.js: the text messages sent to one phone number.
pub mod Refinement
use fxa_local_dev.Prelude.{
  ℕ, ◌+◌, String, Bool, Option, none, some, List, [], ◌∷◌, ◌++◌, ltb, length, if◌then◌else◌,
}
use fxa_local_dev.Customs.Time.{is_within, seconds_left}
use fxa_local_dev.Customs.Window.{trim}
use fxa_local_dev.Customs.Actions.{is_sms_sending_action}
use fxa_local_dev.Customs.Limits.{Limits}
use fxa_local_dev.Customs.EmailRecord.{or_list}

pub record SmsRecord : Type 0 where
  pub rl : Option ℕ
  pub sms : List ℕ

pub record SmsObject : Type 0 where
  pub rl : Option ℕ
  pub sms : Option (List ℕ)

unfoldable pub parse : Option SmsObject → SmsRecord
unfolding or_list
parse none = record { rl = none; sms = [] }
parse (some object) = record { rl = object.rl; sms = or_list object.sms [] }

unfoldable pub get_min_lifetime_ms : Limits → ℕ
get_min_lifetime_ms limits = limits.sms_rate_limit_interval_ms

module _ (limits : Limits) (now : ℕ) where
  unfoldable pub trim_hits : SmsRecord → SmsRecord
  trim_hits r = record r {
    sms = trim now limits.sms_rate_limit_interval_ms (limits.max_sms + 1) r.sms;
  }

  unfoldable pub is_over_sms_limit : SmsRecord → SmsRecord × Bool
  unfolding trim_hits
  is_over_sms_limit r = let r' = trim_hits r in (r', ltb limits.max_sms (length r'.sms))

  unfoldable pub add_hit : SmsRecord → SmsRecord
  add_hit r = record r { sms = r.sms ++ now ∷ [] }

  unfoldable pub is_rate_limited : SmsRecord → Bool
  is_rate_limited r = is_within r.rl limits.sms_rate_limit_interval_ms now

  unfoldable pub rate_limit : SmsRecord → SmsRecord
  rate_limit r = record { rl = some now; sms = [] }

  unfoldable pub retry_after : SmsRecord → ℕ
  retry_after r = seconds_left r.rl limits.sms_rate_limit_interval_ms now

  -- What follows the test `isOverSmsLimit` of `update`.
  unfoldable pub limit_if_over : SmsRecord × Bool → SmsRecord × ℕ
  unfolding rate_limit retry_after
  limit_if_over (r, over) = if over then (rate_limit r, retry_after (rate_limit r)) else (r, 0)

  unfoldable pub update : String → SmsRecord → SmsRecord × ℕ
  unfolding is_rate_limited retry_after add_hit is_over_sms_limit limit_if_over
  update action r =
      if is_sms_sending_action action
      then if is_rate_limited r
        then (r, retry_after r)
        else limit_if_over (is_over_sms_limit (add_hit r))
      else (r, 0)
