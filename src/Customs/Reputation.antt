-- ===== src/Customs/Reputation.antt =====
-- lib/reputationService.js and lib/block_reasons.js. The client of the reputation service is not
-- part of the repository; what it answers is an argument.
use fxa_local_dev.Prelude.{ℕ, Bool, false, ◌&&◌, Option, none, some, ltb, ◌==◌, if◌then◌else◌}

pub data BlockReason : Type 0 where
  ip_in_blocklist ip_bad_reputation other : BlockReason

-- `config.reputationService`
pub record ReputationConfig : Type 0 where
  pub enable : Bool
  pub enable_check : Bool
  pub block_below : ℕ
  pub suspect_below : ℕ

-- What `ipClient.get` yields: an HTTP response with the reputation in its body, if it has one, or a
-- rejection.
pub data ClientReply : Type 0 where
  response : ℕ → Option ℕ → ClientReply
  rejected : ClientReply

-- `reputation > 0 && reputation < limit`, where `null` and `false` compare as 0
unfoldable pub is_below : ℕ → Option ℕ → Bool
is_below limit none = false
is_below limit (some reputation) = ltb 0 reputation && ltb reputation limit

-- `get`: a reputation, or `null`
unfoldable pub get_reputation : ClientReply → Option ℕ
get_reputation (response status none) = none
get_reputation (response status (some reputation)) = if status == 200 then some reputation else none
get_reputation rejected = none

module _ (config : ReputationConfig) where
  -- The checks and the lookup are live only if both switches are on; else they are `alwaysFalse`.
  unfoldable pub is_block_below : Option ℕ → Bool
  unfolding is_below
  is_block_below reputation =
      config.enable && config.enable_check && is_below config.block_below reputation

  unfoldable pub is_suspect_below : Option ℕ → Bool
  unfolding is_below
  is_suspect_below reputation =
      config.enable && config.enable_check && is_below config.suspect_below reputation

  unfoldable pub get : ClientReply → Option ℕ
  unfolding get_reputation
  get reply = if config.enable && config.enable_check then get_reputation reply else none
