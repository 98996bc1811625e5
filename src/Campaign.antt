-- ===== src/Campaign.antt =====
-- Campaign manifests (src/experiments/campaigns.py).
pub mod Expansion
pub mod Documents
pub mod Phases
pub mod Admission
pub mod Pairing
