-- ===== src/Graph/Examples.antt =====
-- A machine as a graph of inferencesim/graph.py: a chip with four cores, one of them disabled, and two banks
-- of memory, beside a switch.
use inferencesim.Prelude.{◌>>=◌, map, ℕ, ◌≡◌, refl, true, false, List, [], ◌∷◌, some, none, sum}
use inferencesim.Hardware.{fp8, fp16}
use inferencesim.Graph.Names.{
  Name, plain, selected, one, slice, same_name, same_selector, split_endpoint, selector_indices,
  range, instance_name,
}
use inferencesim.Graph.Derate.{derate_node}
use inferencesim.Graph.Node.{
  derate_of, get_or, Node, NodeKind, compute, memory, switch, composite, Nodes, empty, single, nest,
  Edge, EdgePattern, interleave, all, Graph, unit, agg_bandwidth, agg_capacity,
}
use inferencesim.Graph.Links.{node, has_node, endpoint_base, endpoint_indices, edge_capacity}
use inferencesim.Graph.Expand.{
  concrete, find, instance_names, pairs, pairs_with, pair_at, wrapped, joined, instances,
  node_instances, expand_edge, expand,
}
use inferencesim.Graph.Validate.{
  validate, has_duplicates, graph_error, nodes_error, figures_error, derates_error, is_composite,
  ports_error, single_error, is_compute, is_falsy, is_memory, is_none, edges_error, edge_error,
  end_error, loop_error, same_base, selector_error,
}
use inferencesim.Graph.Wiring.{bandwidth_of, edge_capacity-expand_edge}
use inferencesim.Graph.Total.{expand-validate}
use inferencesim.Graph.Aggregates.{amount, agg-node_instances}
use inferencesim.Graph.Serialise.{to_dict, from_dict}
use inferencesim.Graph.RoundTrip.{from_dict-to_dict}

abbrev blank : Name → NodeKind → ℕ → Node ℕ
blank name kind count = record {
  name = name;
  kind = kind;
  count = count;
  peak_flops = none;
  capacity_bytes = none;
  bandwidth = none;
  latency_s = 0;
  derate = unit;
  instance_derates = [];
  dynamic_power_w = 0;
  idle_power_w = 0;
  role = "";
  ports = [];
  meta = [];
}

abbrev core : Node ℕ
core = record (blank (plain "core") compute 4) {
  peak_flops = some ((fp8, 100) ∷ (fp16, 50) ∷ []);
  instance_derates = (3, 0) ∷ [];
}

abbrev bank : Node ℕ
bank = record (blank (plain "bank") memory 2) {
  capacity_bytes = some 1000;
  bandwidth = some 8;
  instance_derates = (1, 500000) ∷ [];
}

abbrev link : Name → Name → EdgePattern → Edge
link src dst pattern = record {
  src = src;
  dst = dst;
  bandwidth = some 5;
  latency_s = 1;
  power_w = 0;
  count = 2;
  pattern = pattern;
  name = "";
}

abbrev chip : Nodes ℕ
chip = single core (single bank empty)

abbrev mesh : Edge
mesh = link (plain "core") (plain "bank") interleave

abbrev row : Edge
row = link (selected "core" (slice 0 2)) (selected "core" (slice 2 4)) all

abbrev machine : Graph ℕ
machine = record {
  name = "machine";
  nodes =
      nest (record (blank (plain "chip") composite 2) { ports = plain "bank" ∷ [] }) "chip" chip
        (mesh ∷ row ∷ []) []
        (single (record (blank (plain "switch") switch 1) { bandwidth = some 20 }) empty);
  edges = link (plain "chip") (plain "switch") interleave ∷ [];
  meta = ("version", 3) ∷ [];
}

no_duplicates : has_duplicates chip ≡ false
unfolding has_duplicates has_node same_name
no_duplicates = refl

abbrev core_link : ℕ → ℕ → Edge
core_link i j = link (selected "core" (one i)) (selected "core" (one j)) interleave

abbrev row_links : List Edge
row_links = core_link 0 2 ∷ core_link 0 3 ∷ core_link 1 2 ∷ core_link 1 3 ∷ []

row_expands : expand_edge chip (instances chip) row ≡ some row_links
unfolding expand_edge instances concrete has_node same_name endpoint_indices split_endpoint node
    selector_indices find range instance_names pairs pairs_with joined instance_name
row_expands = refl

machine_passes : validate machine ≡ none
unfolding validate graph_error has_duplicates has_node same_name nodes_error figures_error
    derates_error is_composite ports_error single_error is_compute is_falsy is_memory is_none
    edges_error edge_error end_error endpoint_base node range same_selector selector_indices
    split_endpoint loop_error same_base selector_error
machine_passes = refl

-- Selectors of one group that overlap pass, and wire an instance to itself.
abbrev overlap : Edge
overlap = link (selected "core" (slice 0 2)) (selected "core" (slice 0 4)) interleave

overlap_passes : edge_error chip overlap ≡ none
unfolding edge_error has_node same_name is_composite is_none end_error endpoint_base node
    same_selector selector_indices split_endpoint loop_error same_base selector_error
overlap_passes = refl

overlap_expands :
    expand_edge chip (instances chip) overlap
    ≡ some (core_link 0 0 ∷ core_link 1 1 ∷ core_link 0 2 ∷ core_link 1 3 ∷ [])
unfolding expand_edge instances concrete has_node same_name endpoint_indices split_endpoint node
    selector_indices find range instance_names pairs pair_at wrapped joined instance_name
overlap_expands = refl

edge_capacity-expand_edge_example :
    edge_capacity chip row ≡ some (some (sum bandwidth_of row_links))
edge_capacity-expand_edge_example =
    edge_capacity-expand_edge chip row 5 row_links no_duplicates refl row_expands

expand-validate_example : (g : Graph ℕ) × (expand true machine ≡ some g)
expand-validate_example = expand-validate true machine machine_passes

agg-node_instances_example :
    (agg_bandwidth bank
      ≡ (bank.bandwidth >>= λ _. some (sum (λ m. amount (agg_bandwidth m)) (node_instances bank))))
    × (agg_capacity bank ≡ (
        bank.capacity_bytes >>= λ _.
        some (sum (λ m. amount (agg_capacity m)) (node_instances bank))))
agg-node_instances_example = agg-node_instances bank

from_dict-to_dict_example : from_dict (to_dict machine) ≡ some machine
from_dict-to_dict_example = from_dict-to_dict machine (tt, (refl, (tt, tt)), (tt, tt))

-- A single node with an override of its own keeps it.
abbrev single_bank : Node ℕ
single_bank = record bank { count = 1; instance_derates = (0, 500000) ∷ [] }

override_stays : map (λ n. derate_of n 0) (derate_node (0 ∷ []) 0 single_bank ∷ []) ≡ 500000 ∷ []
unfolding derate_node derate_of get_or
override_stays = refl
