-- ===== src/Des/Agreement.antt =====
-- A dense model of six layers on one stage of two chips, simulated and priced.
use inferencesim.Prelude.{
  ℕ, true, List, ◌++◌, ◌≡◌, ◌≤◌, refl, [], ◌∷◌, none, some, inr, length, arith,
}
use inferencesim.Hardware.{
  effective_dram_bandwidth, least, stage_bandwidth, flops, first_rate, widening_from, total_chips,
  make_node, make_system, link_for_group, topology_for_group, ring, quarter_bytes,
}
use inferencesim.Hardware.Examples.{cluster, cable}
use inferencesim.Workload.Model.{ModelSpec, Deployment, replica_chips, n_swa_layers, swa_layers}
use inferencesim.Ops.{validate_deployment, is_moe, is_comm, allreduces_per_layer, cp_width}
use inferencesim.Ops.Lower.{
  Op, ratio, whole, attention_ops, attention_of, attention, kv_attention, linear, comm_op,
}
use inferencesim.Ops.Passes.{
  layer_ops, embed, lm_head, prefill_ops, cp_attention_ring, allreduce_op, hidden_bytes, ffn_ops,
  ffn_of, dense_ffn_ops, ffn_collective, pipeline_hops,
}
use inferencesim.Ops.Examples.{windowed, two_by_two, uniform}
use inferencesim.Collectives.Ports.{Port}
use inferencesim.Engine.Timing.{
  make_efficiency, is_part, CommContext, Phase, total_time, run_phase, for_deployment, link_of,
  scaled_link, payload_of,
}
use inferencesim.Engine.Linked.{HasBandwidth}
use inferencesim.Engine.Priced.{IsRated}
use inferencesim.Engine.Phases.{of_prefill, run_phase-IsLowered}
use inferencesim.Engine.Examples.{derated}
use inferencesim.Des.Costs.{prefill_phase, payload_named, link_bandwidth, round_even}
use inferencesim.Des.Lowered.{IsSerial}
use inferencesim.Des.Oracle.{HasWhole, prefill_phase-run_phase, prefill_phase-alone}

abbrev plain : ModelSpec
plain = record windowed { swa_window = none }

abbrev one_stage : Deployment
one_stage = record two_by_two { pp = 1 }

abbrev one_chip : Deployment
one_chip = record one_stage { tp = 1 }

-- The operations of a prompt of 7 tokens.
abbrev prompt_on : Deployment → List Op
unfolding whole
prompt_on dep =
    layer_ops uniform plain dep (ratio 7 1) (whole 7)
      (attention_ops plain (whole 1) 7 (whole 7) true dep 6 1
        ++ cp_attention_ring plain (whole 7) dep 6 1)
      0
    ++ embed plain (ratio 7 1) dep 1 ∷ lm_head plain (whole 1) dep 1 ∷ []

abbrev prompt : List Op
prompt = prompt_on one_stage

prompt_lowers : prefill_ops uniform plain 7 one_stage ≡ some prompt
unfolding prefill_ops validate_deployment is_moe whole cp_width
prompt_lowers = refl

abbrev wires : CommContext
wires = record {
  tp = 2;
  tp_link = some cable;
  a2a = 2;
  a2a_link = some cable;
  p2p_link = some cable;
  cp = 1;
  tp_topology = ring;
  a2a_topology = ring;
}

wired : for_deployment cluster one_stage ≡ some wires
unfolding for_deployment link_of link_for_group topology_for_group total_chips replica_chips
wired = refl

powered : HasBandwidth cluster
unfolding effective_dram_bandwidth least stage_bandwidth
powered = record { dram = omega arith; interconnect = omega arith; network = omega arith }

checked : make_efficiency derated ≡ some derated
unfolding make_efficiency is_part
checked = refl

rated : IsRated cluster.node.chip.compute one_stage
unfolding flops first_rate widening_from
rated = record { weights = (100, refl, omega arith); activations = (100, refl, omega arith) }

-- 112 bytes over two chips, at 14 bytes a tick.
whole_chunks : HasWhole derated wires prompt
unfolding payload_named link_bandwidth scaled_link payload_of whole layer_ops linear attention_ops
    attention_of attention kv_attention n_swa_layers swa_layers cp_attention_ring ffn_ops ffn_of
    dense_ffn_ops ffn_collective allreduce_op allreduces_per_layer comm_op hidden_bytes
    pipeline_hops embed lm_head is_comm is_moe quarter_bytes
whole_chunks = inr (omega arith, (4, refl))

serial : IsSerial plain one_stage
unfolding n_swa_layers swa_layers
serial = record { dense = refl; no_window = refl; one_stage = refl; one_group = refl }

-- A half is rounded to the even neighbour.
rounded : (round_even 5 2 ≡ 2) × (round_even 7 2 ≡ 4) × (round_even 8 3 ≡ 3)
unfolding round_even
rounded = (refl, refl, refl)

-- What the roofline engine makes of it.
priced :
    (ph : Phase) × (run_phase derated "prefill" prompt cluster one_stage ≡ some ph)
    × (ph.wall_time ≡ none)
    × (length ph.timings ≡ length prompt)
unfolding make_node make_system replica_chips total_chips
priced =
    run_phase-IsLowered derated "prefill" uniform plain one_stage prompt cluster
      (of_prefill 7 prompt_lowers) refl refl (omega arith) rated powered checked

abbrev in_order : Port → ℕ
in_order p = 0

prefill_phase-run_phase_example :
    (des : Phase) × (prefill_phase in_order derated prompt cluster one_stage ≡ some des)
    × (des.timings ≡ priced.0.timings)
    × (total_time priced.0 ≤ total_time des)
prefill_phase-run_phase_example =
    prefill_phase-run_phase in_order derated uniform plain one_stage 7 prompt cluster wires priced.0
      serial (omega arith) prompt_lowers wired whole_chunks priced.1

one_chip_lowers : prefill_ops uniform plain 7 one_chip ≡ some (prompt_on one_chip)
unfolding prefill_ops validate_deployment is_moe whole cp_width
one_chip_lowers = refl

abbrev no_wires : CommContext
no_wires = record wires { tp = 1; tp_link = none; a2a = 1; a2a_link = none; p2p_link = none }

not_wired : for_deployment cluster one_chip ≡ some no_wires
unfolding for_deployment link_of link_for_group topology_for_group total_chips replica_chips
not_wired = refl

alone-IsSerial : IsSerial plain one_chip
unfolding n_swa_layers swa_layers
alone-IsSerial = record { dense = refl; no_window = refl; one_stage = refl; one_group = refl }

alone-IsRated : IsRated cluster.node.chip.compute one_chip
unfolding flops first_rate widening_from
alone-IsRated = record {
  weights = (100, refl, omega arith);
  activations = (100, refl, omega arith);
}

priced_chip :
    (ph : Phase) × (run_phase derated "prefill" (prompt_on one_chip) cluster one_chip ≡ some ph)
    × (ph.wall_time ≡ none)
    × (length ph.timings ≡ length (prompt_on one_chip))
unfolding make_node make_system replica_chips total_chips
priced_chip =
    run_phase-IsLowered derated "prefill" uniform plain one_chip (prompt_on one_chip) cluster
      (of_prefill 7 one_chip_lowers) refl refl (omega arith) alone-IsRated powered checked

prefill_phase-alone_example :
    (des : Phase) × (prefill_phase in_order derated (prompt_on one_chip) cluster one_chip
      ≡ some des)
    × (des.timings ≡ priced_chip.0.timings)
    × (total_time des ≡ total_time priced_chip.0)
prefill_phase-alone_example =
    prefill_phase-alone in_order derated uniform plain one_chip 7 (prompt_on one_chip) cluster
      no_wires priced_chip.0 alone-IsSerial (omega arith) one_chip_lowers not_wired (omega arith)
      priced_chip.1
