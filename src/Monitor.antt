-- ===== src/Monitor.antt =====
-- The online failure monitor (ros_ws/src/failure_monitor) and the causal features it shares with the
-- offline pipeline (src/features).
pub mod Causal
pub mod Buffer
pub mod Stream
pub mod State
pub mod Core
mod Examples
