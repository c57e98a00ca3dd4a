-- ===== src/Engine.antt =====
-- inferencesim/engine.py: the closed forms of the ring collectives.
pub mod Rings
pub mod Timing
pub mod Priced
pub mod Linked
pub mod Phases
pub mod Examples
use inferencesim.Prelude.{ℕ, ◌+◌, ◌-◌, ◌*◌, ◌/◌, ◌||◌, leb, ◌==◌, if◌then◌else◌}
use inferencesim.Hardware.{Link}

unfoldable pub ring_allreduce_time : (payload_bytes group_size : ℕ) → Link → ℕ
ring_allreduce_time payload_bytes group_size l =
    let steps = 2 * (group_size - 1) in
    if leb group_size 1 || payload_bytes == 0
    then 0
    else steps * payload_bytes / (group_size * l.bandwidth) + steps * l.latency_s

unfoldable pub ring_gather_time : (payload_bytes group_size : ℕ) → Link → ℕ
ring_gather_time payload_bytes group_size l =
    let steps = group_size - 1 in
    if leb group_size 1 || payload_bytes == 0
    then 0
    else steps * payload_bytes / (group_size * l.bandwidth) + steps * l.latency_s
