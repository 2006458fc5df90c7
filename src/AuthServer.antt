-- ===== src/AuthServer.antt =====
-- fxa-auth-server: parts that decide on requests, and that use the customs server and the store.
pub mod Bounces
pub mod ByType
pub mod Tallies
pub mod AuthMethods
pub mod Tokens
pub mod Lifetimes
pub mod Assurance
pub mod CustomsClient
pub mod Blocked
pub mod Db
pub mod Routes
pub mod Recovery
pub mod Reset
pub mod Guesses
mod Tests
