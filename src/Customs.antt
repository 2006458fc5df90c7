-- ===== src/Customs.antt =====
-- fxa-customs-server, which decides which requests of the auth server are let through.
pub mod Time
pub mod Window
pub mod Objects
pub mod Actions
pub mod Limits
pub mod Outcome
pub mod EmailRecord
pub mod IpEmailRecord
pub mod SmsRecord
pub mod RuleRecord
pub mod UidRecord
pub mod Unique
pub mod Weights
pub mod IpRecord
pub mod Reputation
pub mod Allowed
pub mod Rules
pub mod Server
pub mod Blocklist
pub mod Limiter
pub mod Settings
pub mod Tests
