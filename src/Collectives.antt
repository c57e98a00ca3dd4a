-- ===== src/Collectives.antt =====
-- inferencesim/collectives.py: collectives expanded to link transfers.
pub mod Ports
pub mod Ring
pub mod AllToAll
pub mod Graph
pub mod ClosedForm
pub mod Exchange
pub mod Examples
