-- ===== src/Graph/Total.antt =====
-- inferencesim/graph.py: a graph that passes `validate` expands.
use mathlib.Core.Option.{none-ne-some}
use inferencesim.Prelude.{
  ℕ, ◌%◌, ◌≡◌, ◌<◌, refl, sym, max, Bool, true, false, not, ◌&&◌, List, [], ◌∷◌, ◌++◌, Option, some,
  none, map, length, get_elem?, All, arith, Bool-cases, inl, inr, traverse-All, String,
}
use inferencesim.Graph.Names.{Name, Selector, split_endpoint, selector_indices, range}
use inferencesim.Graph.Node.{
  Node, Nodes, empty, single, nest, Edge, EdgePattern, interleave, all, Graph,
}
use inferencesim.Graph.Links.{node, has_node, endpoint_indices}
use inferencesim.Graph.Expand.{
  instances, concrete, pairs, pairs_with, pair_at, wrapped, joined, expand_edge, expand_edges,
  instance_names, first_instance, expand_nodes, expand, add_singles, add_nests, node_instances,
}
use inferencesim.Graph.Validate.{
  malformed_endpoint, unknown_endpoint, selector_out_of_range, raise_if-none, and_then-none,
  has_duplicates, nodes_error, end_error, selector_error, edge_error, edges_error, validate,
  is_none, is_composite,
}
use inferencesim.Graph.Lookup.{find-instances, length-instance_names}
use inferencesim.Graph.Checked.{
  get_elem?-some, indices-below, has-find, node-count, first_instances, graph_checks, nest_checks,
  single_checks,
}

pub mod_below : (i n : ℕ) → 0 < n → i % n < n
mod_below i n l = omega arith

wrapped-some :
    (names : List Name) (i : ℕ) → 0 < length names → (x : Name) × (wrapped names i ≡ some x)
unfolding wrapped
wrapped-some names i l = get_elem?-some names (i % length names) (mod_below i (length names) l)

all_pairs :
    (srcs dsts : List Name) (is : List ℕ)
    → 0 < length srcs
    → 0 < length dsts
    → All (λ i. (p : Name × Name) × (pair_at srcs dsts i ≡ some p)) is
unfolding pair_at
all_pairs srcs dsts [] l m = tt
all_pairs srcs dsts (i ∷ is) l m =
    let (s, at_src) = wrapped-some srcs i l in
    let (d, at_dst) = wrapped-some dsts i m in
    (((s, d), rw (at_src, at_dst) refl), all_pairs srcs dsts is l m)

pairs-some :
    (p : EdgePattern) (srcs dsts : List Name)
    → 0 < length srcs
    → 0 < length dsts
    → (ps : List (Name × Name)) × (pairs p srcs dsts ≡ some ps)
unfolding pairs
pairs-some all srcs dsts l m = (pairs_with srcs dsts, refl)
pairs-some interleave srcs dsts l m =
    let (ps, e, _) =
      traverse-All (pair_at srcs dsts) _
        (all_pairs srcs dsts (range 0 (max (length srcs) (length dsts))) l m) in
    (ps, e)

all_there :
    (names : List Name) (is : List ℕ) (count : ℕ)
    → length names ≡ count
    → All (λ i. i < count) is
    → All (λ i. (x : Name) × (get_elem? names i ≡ some x)) is
all_there names [] count e h = tt
all_there names (i ∷ is) count e (h, hs) =
    (get_elem?-some names i (omega arith), all_there names is count e hs)

module _ {J : Type 0} (nodes : Nodes J) (distinct : has_duplicates nodes ≡ false)
    (passed : nodes_error nodes ≡ none) where
  abbrev IsWired : Name → Type 0
  IsWired end =
      (names : List Name) × (concrete nodes (instances nodes) end ≡ some names) × (0 < length names)

  -- An endpoint that is a selector of a group.
  selected-IsWired :
      (end : Name) (text : String) (sel : Option Selector) (n : Node J) (is : List ℕ)
      → has_node nodes end ≡ false
      → split_endpoint end ≡ some (text, sel)
      → node nodes (Name.plain text) ≡ some n
      → selector_indices sel n.count ≡ some is
      → IsWired end
  unfolding concrete endpoint_indices
  selected-IsWired end text sel n is e at_text found chosen =
      let positive = node-count nodes (Name.plain text) n passed found in
      let (below, l) = indices-below sel n.count is chosen positive in
      let here = rw found at (find-instances nodes (Name.plain text) distinct) in
      let there = all_there (instance_names n) is n.count (length-instance_names n) below in
      let (names, picked, same_length) = traverse-All (get_elem? (instance_names n)) is there in
      (names, rw (e, at_text, found, chosen, here, picked) refl, omega (arith, l, same_length))

  chosen-IsWired :
      (end : Name) (text : String) (sel : Option Selector) (n : Node J) (o : Option (List ℕ))
      → has_node nodes end ≡ false
      → split_endpoint end ≡ some (text, sel)
      → node nodes (Name.plain text) ≡ some n
      → selector_indices sel n.count ≡ o
      → selector_error n sel ≡ none
      → IsWired end
  unfolding selector_error
  chosen-IsWired end text sel n none e at_text found chosen h =
      let (_, out) = raise_if-none (not (is_none sel) && is_composite n.kind) _ _ h in
      absurd (none-ne-some selector_out_of_range (sym (rw chosen at out)))
  chosen-IsWired end text sel n (some is) e at_text found chosen h =
      selected-IsWired end text sel n is e at_text found chosen

  found-IsWired :
      (end : Name) (text : String) (sel : Option Selector) (o : Option (Node J))
      → has_node nodes end ≡ false
      → split_endpoint end ≡ some (text, sel)
      → node nodes (Name.plain text) ≡ o
      → end_error nodes end ≡ none
      → IsWired end
  unfolding end_error
  found-IsWired end text sel none e at_text found h =
      absurd (none-ne-some unknown_endpoint (sym (rw (e, at_text, found) at h)))
  found-IsWired end text sel (some n) e at_text found h =
      chosen-IsWired end text sel n (selector_indices sel n.count) e at_text found refl
        (rw (e, at_text, found) at h)

  split-IsWired :
      (end : Name) (o : Option (String × Option Selector))
      → has_node nodes end ≡ false
      → split_endpoint end ≡ o
      → end_error nodes end ≡ none
      → IsWired end
  unfolding end_error
  split-IsWired end none e at_text h =
      absurd (none-ne-some malformed_endpoint (sym (rw (e, at_text) at h)))
  split-IsWired end (some (text, sel)) e at_text h =
      found-IsWired end text sel (node nodes (Name.plain text)) e at_text refl h

  end-IsWired : (end : Name) → end_error nodes end ≡ none → IsWired end
  unfolding concrete
  end-IsWired end h = elim (Bool-cases (has_node nodes end)) [
    | inl e ↦
        let (names, here, l) = has-find nodes end distinct passed e in (names, rw (e, here) refl, l)
    | inr e ↦ split-IsWired end (split_endpoint end) e refl h
  ]

  edge-expands :
      (e : Edge)
      → edge_error nodes e ≡ none
      → (links : List Edge) × (expand_edge nodes (instances nodes) e ≡ some links)
  unfolding edge_error expand_edge
  edge-expands e h =
      let (at_src, h1) = and_then-none (end_error nodes e.src) _ h in
      let (at_dst, _) = and_then-none (end_error nodes e.dst) _ h1 in
      let (srcs, src_names, l) = end-IsWired e.src at_src in
      let (dsts, dst_names, m) = end-IsWired e.dst at_dst in
      let (ps, paired) = pairs-some e.pattern srcs dsts l m in
      (map (joined e) ps, rw (src_names, dst_names, paired) refl)

  edges-expand :
      (es : List Edge)
      → edges_error nodes es ≡ none
      → (links : List Edge) × (expand_edges nodes (instances nodes) es ≡ some links)
  unfolding edges_error expand_edges
  edges-expand [] h = ([], refl)
  edges-expand (e ∷ es) h =
      let (here, later) = and_then-none (edge_error nodes e) (edges_error nodes es) h in
      let (links, expanded) = edge-expands e here in
      let (rest, all_expanded) = edges-expand es later in
      (links ++ rest, rw (expanded, all_expanded) refl)

module _ {J : Type 0} where
  nodes-expand :
      (deep : Bool) (nodes : Nodes J)
      → nodes_error nodes ≡ none
      → (ns : Nodes J) × (expand_nodes deep nodes ≡ some ns)
  unfolding expand_nodes
  nodes-expand deep empty h = (empty, refl)
  nodes-expand deep (single n rest) h =
      let (_, later) = single_checks n rest h in
      let (ns, e) = nodes-expand deep rest later in (add_singles (node_instances n) ns, rw e refl)
  nodes-expand false (nest n name inner edges meta rest) h =
      let (_, _, _, later) = nest_checks n name inner edges meta rest h in
      let (ns, e) = nodes-expand false rest later in
      let same : Graph J = record { name = name; nodes = inner; edges = edges; meta = meta } in
      (add_nests (node_instances n) same ns, rw e refl)
  nodes-expand true (nest n name inner edges meta rest) h =
      let (_, at_ports, inside, later) = nest_checks n name inner edges meta rest h in
      let (distinct, passed, at_edges) = graph_checks inner (nodes_error inner) edges inside in
      let (ns, e) = nodes-expand true rest later in
      let (inner', ei) = nodes-expand true inner passed in
      let (edges', ee) = edges-expand inner distinct passed edges at_edges in
      let (ports, ep, _) =
        traverse-All (first_instance (instances inner)) n.ports
          (first_instances inner n.ports distinct passed at_ports) in
      let inside : Graph J = record { name = name; nodes = inner'; edges = edges'; meta = meta } in
      (add_nests (node_instances (record n { ports = ports })) inside ns, rw (ei, ee, ep, e) refl)

-- A graph that passes `validate` expands, deep or not: `expand` raises no error.
pub expand-validate :
    {J : Type 0} (deep : Bool) (g : Graph J)
    → validate g ≡ none
    → (g' : Graph J) × (expand deep g ≡ some g')
unfolding validate expand
expand-validate deep g h =
    let (distinct, passed, at_edges) = graph_checks g.nodes (nodes_error g.nodes) g.edges h in
    let (nodes, e) = nodes-expand deep g.nodes passed in
    let (edges, ee) = edges-expand g.nodes distinct passed g.edges at_edges in
    (record { name = g.name; nodes = nodes; edges = edges; meta = g.meta }, rw (e, ee) refl)
