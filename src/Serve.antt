-- ===== src/Serve.antt =====
-- inferencesim/serve.py: the serving loop of one replica, part by part.
pub mod Request
pub mod Kv
pub mod Footprint
pub mod State
pub mod Loop
pub mod Step
pub mod Ops
pub mod Rules
pub mod Accounting
pub mod Finish
pub mod Sound
pub mod Prefill
pub mod Batch
pub mod Conserve
pub mod Progress
pub mod Queue
pub mod Completion
pub mod Unfailed
pub mod Served
pub mod Reach
pub mod Chunk
pub mod Shed
pub mod Config
pub mod Grid
pub mod Setup
pub mod Checks
pub mod Arrivals
pub mod Runs
pub mod Examples
