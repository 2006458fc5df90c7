-- ===== src/Customs/Server.antt =====
-- lib/server.js: what its request handlers share. memcached and the reputation service are not part
-- of the repository: what they answer during one request is part of the environment, and what is
-- asked of them is returned beside the response. All clock readings of a request are one.
pub mod Check
pub mod CheckIpOnly
pub mod CheckAuthenticated
pub mod Events
pub mod FailClosed
pub mod RuleClash
pub mod Passes
pub mod Ban
pub mod EmailBan
pub mod UidChecks
pub mod IpOnly
pub mod Logins
use Prim.Native.String.{◌++◌ as string_append}
use fxa_local_dev.Prelude.{
  ℕ, ◌*◌, String, Bool, true, false, ◌&&◌, ◌||◌, not, Option, none, some, List, [], ◌∷◌, ◌++◌, max,
  str_eq, if◌then◌else◌,
}
use fxa_local_dev.Customs.Limits.{Limits}
use fxa_local_dev.Customs.EmailRecord
use fxa_local_dev.Customs.EmailRecord.{EmailRecord, EmailObject}
use fxa_local_dev.Customs.IpEmailRecord
use fxa_local_dev.Customs.IpEmailRecord.{IpEmailRecord, IpEmailObject}
use fxa_local_dev.Customs.IpRecord
use fxa_local_dev.Customs.IpRecord.{IpRecord, IpObject}
use fxa_local_dev.Customs.SmsRecord
use fxa_local_dev.Customs.SmsRecord.{SmsRecord, SmsObject}
use fxa_local_dev.Customs.UidRecord
use fxa_local_dev.Customs.UidRecord.{UidRecord, UidObject}
use fxa_local_dev.Customs.RuleRecord.{RuleRecord, RuleObject, Rule}
use fxa_local_dev.Customs.Reputation.{ReputationConfig, ClientReply, BlockReason, ip_bad_reputation}
use fxa_local_dev.Customs.Allowed.{Allowed, is_allowed}

-- What `mc.get` yields: an error, nothing, or the object that was stored.
pub data Reply (A : Type 0) : Type 0 where
  failed missing : Reply A
  found : A → Reply A

-- `.then(parse, parse)`: an error has none of a record's fields, so it counts as no object.
abbrev pub object_of : {A : Type 0} → Reply A → Option A
object_of failed = none
object_of missing = none
object_of (found object) = some object

-- A call of `mc.set`: the key, the record, and the lifetime in milliseconds (the source gives it in
-- seconds, with a fraction where there is one).
pub data Write : Type 0 where
  set_ip : String → IpRecord → ℕ → Write
  set_email : String → EmailRecord → ℕ → Write
  set_ip_email : String → IpEmailRecord → ℕ → Write
  set_sms : String → SmsRecord → ℕ → Write
  set_uid : String → UidRecord → ℕ → Write
  set_rule : String → RuleRecord → ℕ → Write

pub record Memcached : Type 0 where
  pub get_ip : String → Reply IpObject
  pub get_email : String → Reply EmailObject
  pub get_ip_email : String → Reply IpEmailObject
  pub get_sms : String → Reply SmsObject
  pub get_uid : String → Reply UidObject
  pub get_rule : String → Reply RuleObject
  pub set_succeeds : Write → Bool

-- The configuration, the settings in force, the clock, and what third parties answer. The blocklist
-- is `none` if it is not enabled; an answer `none` of it is an exception. The case mapping and the
-- hash are those of the platform.
pub record Env : Type 0 where
  pub limits : Limits
  pub now : ℕ
  pub record_lifetime_seconds : ℕ
  pub rules : List (String × Rule)
  pub treat_everyone_with_suspicion : Bool
  pub allowed : Allowed
  pub reputation : ReputationConfig
  pub reputation_of : String → ClientReply
  pub blocklist : Option (String → Option Bool)
  pub to_lower_case : String → String
  pub create_hash_hex : String → String → String
  pub mc : Memcached

-- What is sent: the JSON of a check, where `none` is a field that is left out, an empty object, or
-- an error status.
pub data Response : Type 0 where
  checked : Bool → ℕ → Option Bool → Option Bool → Response
  empty : Response
  status : ℕ → Response

-- The result of a request: the response, the writes that were tried and the violations reported.
pub record Handled : Type 0 where
  pub response : Response
  pub writes : List Write
  pub reports : List (String × String)

abbrev pub respond : Response → Handled
respond r = record { response = r; writes = []; reports = [] }

-- The object that is passed along the promises of a check.
pub record Result : Type 0 where
  pub block : Bool
  pub block_reason : Option BlockReason
  pub retry_after : ℕ
  pub unblock : Option Bool
  pub suspect : Option Bool

-- `result.suspect` as a condition; `undefined` is falsy.
abbrev pub is_true : Option Bool → Bool
is_true none = false
is_true (some b) = b

-- `!text`, for a parameter that may be missing: a missing one is the empty text.
abbrev pub is_missing : String → Bool
is_missing text = str_eq text ""

unfoldable pub all_succeed : Memcached → List Write → Bool
all_succeed mc [] = true
all_succeed mc (w ∷ ws) = mc.set_succeeds w && all_succeed mc ws

module _ (env : Env) where
  -- `Math.max(recordLifetimeSeconds, record.getMinLifetimeMS() / 1000)`
  unfoldable pub lifetime : ℕ → ℕ
  lifetime min_lifetime_ms = max (env.record_lifetime_seconds * 1000) min_lifetime_ms

  unfoldable pub write_ip : String → IpRecord → Write
  unfolding lifetime
  write_ip ip r = set_ip ip r (lifetime (IpRecord.get_min_lifetime_ms env.limits))

  unfoldable pub write_email : String → EmailRecord → Write
  unfolding lifetime
  write_email email r = set_email email r (lifetime (EmailRecord.get_min_lifetime_ms env.limits))

  unfoldable pub write_ip_email : String → String → IpEmailRecord → Write
  unfolding lifetime
  write_ip_email ip email r =
      set_ip_email (string_append ip email) r
        (lifetime (IpEmailRecord.get_min_lifetime_ms env.limits))

  unfoldable pub write_sms : String → Option SmsRecord → List Write
  unfolding lifetime
  write_sms phone_number none = []
  write_sms phone_number (some r) =
      set_sms phone_number r (lifetime (SmsRecord.get_min_lifetime_ms env.limits)) ∷ []

  unfoldable pub write_uid : String → UidRecord → Write
  unfolding lifetime
  write_uid uid r = set_uid uid r (lifetime (UidRecord.get_min_lifetime_ms env.limits))

  -- `setRecords` with an email. The phone number has a record just when it was given.
  unfoldable pub set_records :
      String
      → IpRecord
      → String
      → EmailRecord
      → IpEmailRecord
      → String
      → Option SmsRecord
      → List Write
  unfolding write_ip write_email write_ip_email write_sms
  set_records ip ir email er ier phone_number sr =
      write_ip ip ir
      ∷ write_email email er
      ∷ write_ip_email ip email ier
      ∷ write_sms phone_number sr

  -- `fetchRecords`, one part for each record
  unfoldable pub fetch_ip : String → IpRecord
  fetch_ip ip = IpRecord.parse (object_of (env.mc.get_ip ip))

  unfoldable pub fetch_email : String → EmailRecord
  fetch_email email = EmailRecord.parse (object_of (env.mc.get_email email))

  unfoldable pub fetch_ip_email : String → String → IpEmailRecord
  fetch_ip_email ip email =
      IpEmailRecord.parse (object_of (env.mc.get_ip_email (string_append ip email)))

  unfoldable pub fetch_sms : String → Option SmsRecord
  fetch_sms phone_number =
      if is_missing phone_number
      then none
      else some (SmsRecord.parse (object_of (env.mc.get_sms phone_number)))

  -- `allowWhitelisted`; in `/checkIpOnly` there is no email and no phone number.
  unfoldable pub allow_whitelisted : Result → String → Option String → Option String → Result
  allow_whitelisted result ip email phone_number =
      if result.block || is_true result.suspect
      then if is_allowed env.allowed ip email phone_number
        then record result { block = false; suspect = some false }
        else result
      else result

abbrev pub is_bad_reputation : Option BlockReason → Bool
is_bad_reputation (some ip_bad_reputation) = true
is_bad_reputation _ = false

-- `optionallyReportIp`
unfoldable pub optionally_report_ip : Result → String → String → List (String × String)
optionally_report_ip result ip action =
    if result.block && not (is_bad_reputation result.block_reason)
    then (ip, string_append "fxa:request.check.block." action) ∷ []
    else []
