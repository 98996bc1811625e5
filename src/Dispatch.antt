-- ===== src/Dispatch.antt =====
-- scripts/run_campaign_parallel.py: the queue of a campaign over several worker slots.
pub mod Queue
pub mod Steps
pub mod Exactly
pub mod Caps
pub mod Waves
pub mod Phase
pub mod Drain
pub mod Ends
pub mod Outcome
pub mod Limits
mod Examples
