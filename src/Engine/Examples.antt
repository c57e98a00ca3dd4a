-- ===== src/Engine/Examples.antt =====
-- The closed forms and the roofline engine at small inputs.
use inferencesim.Prelude.{◌≡◌, ◌≤◌, refl, true, [], ◌∷◌, none, some, length, arith}
use inferencesim.Hardware.{
  Link, bf16, flops, first_rate, widening_from, make_node, make_system, total_chips, link_for_group,
  topology_for_group, effective_dram_bandwidth, least, quarter_bytes, stage_bandwidth,
}
use inferencesim.Hardware.Examples.{cluster}
use inferencesim.Workload.Model.{replica_chips}
use inferencesim.Ops.{allreduce}
use inferencesim.Ops.Lower.{Op, whole, comm_op}
use inferencesim.Ops.Passes.{embed, hidden_bytes}
use inferencesim.Ops.Examples.{windowed, two_by_two, uniform, a_round, a_round_lowers}
use inferencesim.Engine.{ring_allreduce_time, ring_gather_time}
use inferencesim.Engine.Timing.{
  Efficiency, is_part, make_efficiency, Phase, duration, compute_busy, mem_busy, comm_busy, link_of,
  for_deployment, scaled_link, payload_of, comm_timing, allreduce_time, over_rate, compute_seconds,
  mem_seconds, unit_timing, time_kind, time_op, lacks_link, run_phase,
}
use inferencesim.Engine.Linked.{HasBandwidth}
use inferencesim.Engine.Priced.{IsRated}
use inferencesim.Engine.Phases.{IsLowered, of_decode, run_phase-IsLowered, duration-busy}

abbrev wire : Link
wire = record { bandwidth = 5; latency_s = 3; power_w = 0 }

-- A gather takes half of the time of an allreduce.
halves : (ring_allreduce_time 100 4 wire ≡ 48) × (ring_gather_time 100 4 wire ≡ 24)
unfolding ring_allreduce_time ring_gather_time
halves = (refl, refl)

-- Nine parts of ten of the compute, eight of the memory, seven of the links.
abbrev pub derated : Efficiency
derated = record {
  compute_part = 9;
  memory_part = 8;
  collective_part = 7;
  op_overhead_s = 1;
  full = 10;
}

parts :
    (make_efficiency derated ≡ some derated)
    × (make_efficiency (record derated { memory_part = 0 }) ≡ none)
unfolding make_efficiency is_part
parts = (refl, refl)

powered : HasBandwidth cluster
unfolding effective_dram_bandwidth least stage_bandwidth
powered = record { dram = omega arith; interconnect = omega arith; network = omega arith }

rated : IsRated cluster.node.chip.compute two_by_two
unfolding flops first_rate widening_from
rated = record { weights = (100, refl, omega arith); activations = (100, refl, omega arith) }

lowered : IsLowered uniform windowed two_by_two a_round
lowered = of_decode (whole 7) (whole 10) a_round_lowers

run_phase-IsLowered_example :
    (ph : Phase) × (run_phase derated "decode" a_round cluster two_by_two ≡ some ph)
    × (ph.wall_time ≡ none)
    × (length ph.timings ≡ length a_round)
unfolding make_node make_system replica_chips total_chips
run_phase-IsLowered_example =
    run_phase-IsLowered derated "decode" uniform windowed two_by_two a_round cluster lowered refl
      refl (omega arith) rated powered parts.0

abbrev hidden : Op
hidden = comm_op "allreduce" allreduce bf16 6 (whole 40) none

abbrev head : Op
unfolding embed hidden_bytes
head = embed windowed (whole 7) two_by_two 1

abbrev measured : Phase
measured = record {
  name = "two";
  timings =
      record { op = hidden; time = 30; compute_time = 0; mem_time = 0; comm_time = 30 }
      ∷ record { op = head; time = 11; compute_time = 0; mem_time = 10; comm_time = 0 }
      ∷ [];
  wall_time = none;
}

two_ops : run_phase derated "two" (hidden ∷ head ∷ []) cluster two_by_two ≡ some measured
unfolding run_phase for_deployment link_of link_for_group topology_for_group total_chips
    replica_chips lacks_link time_op time_kind allreduce_time comm_timing compute_seconds
    mem_seconds unit_timing over_rate payload_of scaled_link ring_allreduce_time
    effective_dram_bandwidth least embed hidden_bytes comm_op whole quarter_bytes stage_bandwidth
two_ops = refl

duration-busy_example :
    (compute_busy measured ≤ duration measured true)
    × (mem_busy measured ≤ duration measured true)
    × (comm_busy measured ≤ duration measured true)
duration-busy_example =
    duration-busy derated "two" (hidden ∷ head ∷ []) cluster two_by_two measured true two_ops
