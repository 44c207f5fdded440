-- ===== src/Activity.antt =====
-- The activity sessions of api/main.go and api/app_names.go.
pub mod AppNames
pub mod Sessions
pub mod Chain
pub mod Shown
pub mod Coverage
pub mod Day
pub mod Presence
pub mod Clipped
pub mod Summary
pub mod Lease
pub mod Focus
