-- ===== src/Hardware/Examples.antt =====
-- A small machine, and the theorems at concrete inputs.
use inferencesim.Prelude.{ℕ, ◌≡◌, refl, [], ◌∷◌, Option, none, some, arith}
use inferencesim.Hardware.{
  DType, fp4, bf16, fp32, Compute, flops, Memory, Link, memory, link, Chip, max_power_w, ring,
  all_to_all, Node, System, make_node, make_system, total_chips, system_cost_usd, crosses, exceeds,
  link_for_group, topology_for_group, first_rate, widening_from, stage_power,
}
use inferencesim.Hardware.Laws.{link_for_group_total}

abbrev half : DType → Option ℕ
half bf16 = some 100
half _ = none

abbrev tensor : Compute
tensor = record { peak_flops = half; power_w = 50 }

abbrev dram : Memory
dram = record { capacity_bytes = 80; bandwidth = 30; power_w = 10; latency_s = 2 }

abbrev pub cable : Link
cable = record { bandwidth = 20; latency_s = 1; power_w = 5 }

abbrev chip : Chip
chip = record {
  compute = tensor;
  dram = dram;
  on_chip_path = link cable ∷ memory dram ∷ [];
  idle_power_w = 7;
}

abbrev node : Node
node = record {
  chip = chip;
  n_chips = 8;
  interconnect = some cable;
  topology = ring;
  overhead_power_w = 0;
  cost_usd = 3;
}

abbrev pub cluster : System
cluster = record { node = node; n_nodes = 2; network = some cable; extra_cost_usd = 1 }

-- A format that is not supported runs at the rate of a wider one; a wide one has no rate.
widens : (flops tensor fp4 ≡ some 100) × (flops tensor fp32 ≡ none)
unfolding flops first_rate widening_from
widens = (refl, refl)

numbers : (max_power_w chip ≡ 82) × (system_cost_usd cluster ≡ 7) × (total_chips cluster ≡ 16)
unfolding max_power_w system_cost_usd total_chips stage_power
numbers = (refl, refl, refl)

groups : (link_for_group cluster 1 ≡ crosses none) × (link_for_group cluster 17 ≡ exceeds)
unfolding link_for_group total_chips
groups = (refl, refl)

wires : (topology_for_group cluster 8 ≡ ring) × (topology_for_group cluster 9 ≡ all_to_all)
unfolding topology_for_group
wires = (refl, refl)

link_for_group_total_example : (l : Link) × (link_for_group cluster 12 ≡ crosses (some l))
unfolding make_node make_system total_chips
link_for_group_total_example = link_for_group_total cluster 12 refl refl (omega arith) (omega arith)
