-- ===== src/Agent.antt =====
-- The agent on a device, agent/: its focus tracker, its registration, the loop that uploads its
-- queue, the guard around its collectors, and the quarantine of its host.
pub mod Tracker
pub mod Registration
pub mod Sync
pub mod Firewall
pub mod Guard
pub mod Quarantine
