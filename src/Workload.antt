-- ===== src/Workload.antt =====
-- inferencesim/workload.py: model specifications, scenarios and deployments.
pub mod Moe
pub mod Model
pub mod Blocks
pub mod Layers
pub mod Examples
