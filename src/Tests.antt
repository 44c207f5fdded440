-- ===== src/Tests.antt =====
-- Runs of the models on small inputs, and the theorems at concrete inputs.
pub mod Commands
pub mod Accounts
pub mod Access
pub mod SignIn
pub mod Releases
pub mod Queue
pub mod RateLimit
pub mod Activity
pub mod Telemetry
pub mod Tracker
pub mod Sync
pub mod Quarantine
pub mod Lease
pub mod Guard
pub mod Policy
pub mod Deletion
pub mod Enrolment
