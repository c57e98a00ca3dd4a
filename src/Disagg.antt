-- ===== src/Disagg.antt =====
-- inferencesim/serve.py: `serve_disagg`, serving with separate pools of prefill and decode replicas.
pub mod State
pub mod Prefill
pub mod Decode
pub mod Step
pub mod Place
pub mod Replicas
pub mod Rules
pub mod Dispatch
pub mod Events
pub mod Alters
pub mod Ends
pub mod Tokens
pub mod Moves
pub mod Wired
pub mod Course
pub mod Unfailed
pub mod Reach
pub mod Weights
pub mod Live
pub mod Reserve
pub mod Safe
pub mod Outcome
pub mod Setup
pub mod Served
pub mod Examples
