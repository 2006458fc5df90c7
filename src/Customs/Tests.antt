-- ===== src/Customs/Tests.antt =====
-- Runs of the customs server's code at concrete inputs, and the theorems at inputs that meet their
-- hypotheses.
pub mod Samples
mod Records
mod Requests
mod Lists
