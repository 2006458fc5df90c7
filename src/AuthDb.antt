-- ===== src/AuthDb.antt =====
-- fxa-auth-db-mysql: the store of accounts, as its implementation in memory has it.
pub mod Table
pub mod Store
pub mod Accounts
pub mod Tokens
pub mod Devices
pub mod Reads
pub mod Verification
pub mod Emails
pub mod Codes
pub mod Steps
pub mod Links
pub mod OneEach
pub mod Valid
pub mod Deletion
pub mod Unverified
pub mod Sessions
pub mod OneTime
pub mod Primary
mod Tests
