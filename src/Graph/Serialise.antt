-- ===== src/Graph/Serialise.antt =====
-- inferencesim/graph.py: the conversions of nodes, edges and graphs to dicts and back.
use text.Mathlib.Text.{◌==◌ as same_text}
use inferencesim.Prelude.{
  ℕ, List, [], ◌∷◌, Option, some, none, map, String, if◌then◌else◌, ◌>>=◌, traverse,
}
use inferencesim.Hardware.{DType}
use inferencesim.Graph.Node.{
  Node, Nodes, empty, single, nest, Edge, EdgePattern, interleave, all, Graph, unit,
}
use inferencesim.Graph.Dict.{
  Decimal, str, int, NodeDict, EdgeDict, NodeDicts, no_dicts, single_dict, nested_dict, GraphDict,
  format_text, kind_value, kind_of, pattern_value, pattern_of, dtype_value, dtype_of, unless,
  or_default, unless_blank, unless_empty,
}

unfoldable pub flops_to_dict : Option (List (DType × ℕ)) → Option (List (String × ℕ))
flops_to_dict none = none
flops_to_dict (some []) = none
flops_to_dict (some (f ∷ fs)) = some (map (λ (x : DType × ℕ). (dtype_value x.0, x.1)) (f ∷ fs))

unfoldable pub flop_from_dict : String × ℕ → Option (DType × ℕ)
flop_from_dict (k, v) = do d ← dtype_of k; some (d, v)

unfoldable pub flops_from_dict : Option (List (String × ℕ)) → Option (Option (List (DType × ℕ)))
flops_from_dict none = some none
flops_from_dict (some []) = some none
flops_from_dict (some (f ∷ fs)) = do flops ← traverse flop_from_dict (f ∷ fs); some (some flops)

unfoldable pub override_from_dict : Decimal × ℕ → Option (ℕ × ℕ)
override_from_dict (k, v) = do i ← int k; some (i, v)

-- `if e.pattern is not EdgePattern.INTERLEAVE`
unfoldable pub pattern_to_dict : EdgePattern → Option String
pattern_to_dict interleave = none
pattern_to_dict all = some (pattern_value all)

unfoldable pub edge_to_dict : Edge → EdgeDict
edge_to_dict e = record {
  src = some e.src;
  dst = some e.dst;
  bandwidth = e.bandwidth;
  latency_s = unless 0 e.latency_s;
  power_w = unless 0 e.power_w;
  name = unless_blank e.name;
  count = unless 1 e.count;
  pattern = pattern_to_dict e.pattern;
}

-- `none` is the KeyError or the ValueError.
unfoldable pub edge_from_dict : EdgeDict → Option Edge
edge_from_dict d = do
  src ← d.src
  dst ← d.dst
  pattern ← pattern_of (or_default d.pattern "interleave")
  some (record {
    src = src;
    dst = dst;
    bandwidth = d.bandwidth;
    latency_s = or_default d.latency_s 0;
    power_w = or_default d.power_w 0;
    count = or_default d.count 1;
    pattern = pattern;
    name = or_default d.name "";
  })

module _ {J : Type 0} where
  -- The fields but for `inner`.
  unfoldable pub node_to_dict : Node J → NodeDict J
  node_to_dict n = record {
    name = some n.name;
    kind = some (kind_value n.kind);
    count = unless 1 n.count;
    peak_flops = flops_to_dict n.peak_flops;
    capacity_bytes = n.capacity_bytes;
    bandwidth = n.bandwidth;
    latency_s = unless 0 n.latency_s;
    dynamic_power_w = unless 0 n.dynamic_power_w;
    idle_power_w = unless 0 n.idle_power_w;
    derate = unless unit n.derate;
    instance_derates = unless_empty (map (λ (x : ℕ × ℕ). (str x.0, x.1)) n.instance_derates);
    role = unless_blank n.role;
    ports = unless_empty n.ports;
    meta = unless_empty n.meta;
  }

  unfoldable pub node_from_dict : NodeDict J → Option (Node J)
  node_from_dict d = do
    name ← d.name
    text ← d.kind
    kind ← kind_of text
    flops ← flops_from_dict d.peak_flops
    overrides ← traverse override_from_dict (or_default d.instance_derates [])
    some (record {
      name = name;
      kind = kind;
      count = or_default d.count 1;
      peak_flops = flops;
      capacity_bytes = d.capacity_bytes;
      bandwidth = d.bandwidth;
      latency_s = or_default d.latency_s 0;
      derate = or_default d.derate unit;
      instance_derates = overrides;
      dynamic_power_w = or_default d.dynamic_power_w 0;
      idle_power_w = or_default d.idle_power_w 0;
      role = or_default d.role "";
      ports = or_default d.ports [];
      meta = or_default d.meta [];
    })

  unfoldable pub nodes_to_dict : Nodes J → NodeDicts J
  nodes_to_dict empty = no_dicts
  nodes_to_dict (single n rest) = single_dict (node_to_dict n) (nodes_to_dict rest)
  nodes_to_dict (nest n name nodes edges meta rest) =
      nested_dict (node_to_dict n) (some name) (some meta) (nodes_to_dict nodes)
        (some (map edge_to_dict edges)) (nodes_to_dict rest)

  unfoldable pub nodes_from_dict : NodeDicts J → Option (Nodes J)
  nodes_from_dict no_dicts = some empty
  nodes_from_dict (single_dict d rest) = do
    n ← node_from_dict d
    ns ← nodes_from_dict rest
    some (single n ns)
  nodes_from_dict (nested_dict d name meta nodes edges rest) = do
    n ← node_from_dict d
    inner_name ← name
    inner_nodes ← nodes_from_dict nodes
    inner_edges ← traverse edge_from_dict (or_default edges [])
    ns ← nodes_from_dict rest
    some (nest n inner_name inner_nodes inner_edges (or_default meta []) ns)

  unfoldable pub to_dict : Graph J → GraphDict J
  to_dict g = record {
    format = some format_text;
    name = some g.name;
    meta = some g.meta;
    nodes = nodes_to_dict g.nodes;
    edges = some (map edge_to_dict g.edges);
  }

  -- `none` is also the ValueError of another format.
  unfoldable pub from_dict : GraphDict J → Option (Graph J)
  from_dict d =
      if same_text (or_default d.format format_text) format_text
      then (do
        name ← d.name
        nodes ← nodes_from_dict d.nodes
        edges ← traverse edge_from_dict (or_default d.edges [])
        some (record { name = name; nodes = nodes; edges = edges; meta = or_default d.meta [] }))
      else none
