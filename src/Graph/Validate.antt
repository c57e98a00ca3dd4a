-- ===== src/Graph/Validate.antt =====
-- inferencesim/graph.py: `validate`. Its result is the first error that it raises, if there is one.
use inferencesim.Prelude.{
  ℕ, ◌≡◌, refl, sym, Bool, true, false, not, ◌&&◌, ◌||◌, List, [], ◌∷◌, Option, some, none,
  if◌then◌else◌, ltb,
}
use mathlib.Core.Option.{none-ne-some}
use inferencesim.Graph.Names.{Name, Selector, split_endpoint, same_name, selector_indices}
use inferencesim.Graph.Node.{
  Node, NodeKind, compute, memory, composite, Nodes, empty, single, nest, Edge, Graph, unit,
}
use inferencesim.Graph.Links.{node, has_node, endpoint_base}

pub data GraphError : Type 0 where
  duplicate_names bad_count bad_derate bad_instance bad_instance_derate : GraphError
  no_inner unknown_port not_composite no_peak_flops no_capacity : GraphError
  malformed_endpoint unknown_endpoint selected_composite selector_out_of_range : GraphError
  self_edge bad_edge_count : GraphError

-- `if b: raise error`, and what follows.
abbrev pub raise_if : Bool → GraphError → Option GraphError → Option GraphError
raise_if b error rest = if b then some error else rest

-- One part of the checks after another.
abbrev pub and_then : Option GraphError → Option GraphError → Option GraphError
and_then none rest = rest
and_then (some error) rest = some error

pub raise_if-none :
    (b : Bool) (error : GraphError) (rest : Option GraphError)
    → raise_if b error rest ≡ none
    → (b ≡ false) × (rest ≡ none)
raise_if-none true error rest h = absurd (none-ne-some error (sym h))
raise_if-none false error rest h = (refl, h)

pub and_then-none :
    (first rest : Option GraphError) → and_then first rest ≡ none → (first ≡ none) × (rest ≡ none)
and_then-none none rest h = (refl, h)
and_then-none (some error) rest h = absurd (none-ne-some error (sym h))

unfoldable pub is_composite : NodeKind → Bool
is_composite composite = true
is_composite _ = false

unfoldable pub is_compute : NodeKind → Bool
is_compute compute = true
is_compute _ = false

unfoldable pub is_memory : NodeKind → Bool
is_memory memory = true
is_memory _ = false

-- `not x` for a dict that may be None, and `x is None`.
unfoldable pub is_falsy : {A : Type 0} → Option (List A) → Bool
is_falsy none = true
is_falsy (some []) = true
is_falsy (some (_ ∷ _)) = false

unfoldable pub is_none : {A : Type 0} → Option A → Bool
is_none none = true
is_none (some _) = false

unfoldable pub derates_error : ℕ → List (ℕ × ℕ) → Option GraphError
derates_error count [] = none
derates_error count ((i, d) ∷ rest) =
    raise_if (not (ltb i count)) bad_instance
      (raise_if (ltb unit d) bad_instance_derate (derates_error count rest))

-- Two ends that are the same node, which two different selectors of it may be.
unfoldable pub loop_error : Edge → Option GraphError
loop_error e = elim (split_endpoint e.src) [
  | none ↦ some malformed_endpoint
  | some (_, src_sel) ↦ elim (split_endpoint e.dst) [
    | none ↦ some malformed_endpoint
    | some (_, dst_sel) ↦
        raise_if (is_none src_sel || (is_none dst_sel || same_name e.src e.dst)) self_edge none
  ]
]

unfoldable pub same_base : Option Name → Option Name → Bool
same_base (some a) (some b) = same_name a b
same_base _ _ = false

module _ {J : Type 0} where
  unfoldable pub has_duplicates : Nodes J → Bool
  has_duplicates empty = false
  has_duplicates (single n rest) = has_node rest n.name || has_duplicates rest
  has_duplicates (nest n _ _ _ _ rest) = has_node rest n.name || has_duplicates rest

  -- The checks of every node.
  unfoldable pub figures_error : Node J → Option GraphError
  figures_error n =
      raise_if (ltb n.count 1) bad_count
        (raise_if (ltb unit n.derate) bad_derate (derates_error n.count n.instance_derates))

  -- The checks of a node without an inner graph.
  unfoldable pub single_error : Node J → Option GraphError
  single_error n = raise_if (is_composite n.kind) no_inner (
      raise_if (is_compute n.kind && is_falsy n.peak_flops) no_peak_flops (
        raise_if (is_memory n.kind && (is_none n.capacity_bytes && is_none n.bandwidth)) no_capacity
          none))

  unfoldable pub ports_error : Nodes J → List Name → Option GraphError
  ports_error inner [] = none
  ports_error inner (p ∷ ps) = raise_if (not (has_node inner p)) unknown_port (ports_error inner ps)

  unfoldable pub selector_error : Node J → Option Selector → Option GraphError
  selector_error n sel =
      raise_if (not (is_none sel) && is_composite n.kind) selected_composite
        (elim (selector_indices sel n.count) [ none ↦ some selector_out_of_range | some _ ↦ none ])

  unfoldable pub end_error : Nodes J → Name → Option GraphError
  end_error nodes end = if has_node nodes end then none else elim (split_endpoint end) [
    | none ↦ some malformed_endpoint
    | some (base, sel) ↦ elim (node nodes (Name.plain base)) [
      | none ↦ some unknown_endpoint
      | some n ↦ selector_error n sel
    ]
  ]

  unfoldable pub edge_error : Nodes J → Edge → Option GraphError
  edge_error nodes e = and_then (end_error nodes e.src) (
      and_then (end_error nodes e.dst) (
        and_then
          (if same_base (endpoint_base nodes e.src) (endpoint_base nodes e.dst)
            then loop_error e
            else none)
          (raise_if (ltb e.count 1) bad_edge_count none)))

  unfoldable pub edges_error : Nodes J → List Edge → Option GraphError
  edges_error nodes [] = none
  edges_error nodes (e ∷ es) = and_then (edge_error nodes e) (edges_error nodes es)

  -- The checks of a graph, given what its nodes raise.
  unfoldable pub graph_error : Nodes J → Option GraphError → List Edge → Option GraphError
  graph_error nodes raised edges =
      raise_if (has_duplicates nodes) duplicate_names (and_then raised (edges_error nodes edges))

  -- The loop over the nodes.
  unfoldable pub nodes_error : Nodes J → Option GraphError
  nodes_error empty = none
  nodes_error (single n rest) =
      and_then (figures_error n) (and_then (single_error n) (nodes_error rest))
  nodes_error (nest n _ inner edges _ rest) = and_then (figures_error n) (
      raise_if (not (is_composite n.kind)) not_composite (
        and_then (ports_error inner n.ports)
          (and_then (graph_error inner (nodes_error inner) edges) (nodes_error rest))))

  unfoldable pub validate : Graph J → Option GraphError
  validate g = graph_error g.nodes (nodes_error g.nodes) g.edges
