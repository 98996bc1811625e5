-- ===== src/Labels.antt =====
-- The labels of decision times (src/labels).
pub mod Windows
pub mod Operational
pub mod Motion
pub mod Precedence
mod Examples
mod EventExamples
