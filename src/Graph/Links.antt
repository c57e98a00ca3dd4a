-- ===== src/Graph/Links.antt =====
-- inferencesim/graph.py: `node`, `has_node`, the width of an endpoint and the capacity of an edge.
use inferencesim.Prelude.{
  ℕ, ◌*◌, Bool, false, ◌||◌, List, Option, some, none, if◌then◌else◌, ◌>>=◌, length,
}
use inferencesim.Graph.Names.{Name, split_endpoint, same_name, selector_indices}
use inferencesim.Graph.Node.{Node, Nodes, empty, single, nest, Edge, n_links}

module _ {J : Type 0} where
  -- The first node of a name; `none` is the KeyError.
  unfoldable pub node : Nodes J → Name → Option (Node J)
  node empty name = none
  node (single n rest) name = if same_name n.name name then some n else node rest name
  node (nest n _ _ _ _ rest) name = if same_name n.name name then some n else node rest name

  unfoldable pub has_node : Nodes J → Name → Bool
  has_node empty name = false
  has_node (single n rest) name = same_name n.name name || has_node rest name
  has_node (nest n _ _ _ _ rest) name = same_name n.name name || has_node rest name

  -- A literal name wins over a selector.
  unfoldable pub endpoint_base : Nodes J → Name → Option Name
  endpoint_base nodes end =
      if has_node nodes end
      then some end
      else elim (split_endpoint end) [ none ↦ none | some (base, _) ↦ some (Name.plain base) ]

  -- `_selector_indices` of an endpoint that is not a literal name.
  unfoldable pub endpoint_indices : Nodes J → Name → Option (Name × List ℕ)
  endpoint_indices nodes end = do
    (base, sel) ← split_endpoint end
    n ← node nodes (Name.plain base)
    indices ← selector_indices sel n.count
    some (Name.plain base, indices)

  unfoldable pub endpoint_width : Nodes J → Name → Option ℕ
  endpoint_width nodes end =
      if has_node nodes end
      then (do n ← node nodes end; some n.count)
      else (do (_, indices) ← endpoint_indices nodes end; some (length indices))

  -- An error, or `none` for a capacity that is unconstrained.
  unfoldable pub edge_capacity : Nodes J → Edge → Option (Option ℕ)
  edge_capacity nodes e = elim e.bandwidth [
    | none ↦ some none
    | some b ↦ do
      s ← endpoint_width nodes e.src
      d ← endpoint_width nodes e.dst
      some (some (b * e.count * n_links e.pattern s d))
  ]
