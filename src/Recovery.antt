-- ===== src/Recovery.antt =====
-- The guarded recovery of src/recovery and of the ROS package recovery_manager.
pub mod Types
pub mod Guards
pub mod Selector
pub mod Manager
pub mod Execution
pub mod Costs
pub mod Node
pub mod Mission
pub mod Verification
mod Examples
