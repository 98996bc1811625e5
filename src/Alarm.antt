-- ===== src/Alarm.antt =====
-- The alarm policy (src/evaluation/policy.py) and its online replay (the failure_monitor package).
pub mod Policy
pub mod Cooldown
pub mod Window
pub mod Replay
pub mod Metrics
pub mod Selection
mod Examples
