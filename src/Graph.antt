-- ===== src/Graph.antt =====
-- inferencesim/graph.py: the graph of a machine.
pub mod Names
pub mod Node
pub mod Links
pub mod Expand
pub mod Validate
pub mod Lookup
pub mod Wiring
pub mod Checked
pub mod Total
pub mod Aggregates
pub mod Dict
pub mod Serialise
pub mod RoundTrip
pub mod Derate
pub mod Examples
