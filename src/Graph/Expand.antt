-- ===== src/Graph/Expand.antt =====
-- inferencesim/graph.py: `expand`, which makes single instances of the counted groups.
use inferencesim.Prelude.{
  ℕ, ◌%◌, max, Bool, true, false, List, [], ◌∷◌, ◌++◌, Option, some, none, map, if◌then◌else◌,
  ◌>>=◌, traverse, ◌==◌, length, get_elem?,
}
use inferencesim.Graph.Names.{Name, instance_name, same_name, range}
use inferencesim.Graph.Node.{
  Node, Nodes, empty, single, nest, Edge, EdgePattern, interleave, all, Graph, derate_of,
}
use inferencesim.Graph.Links.{has_node, endpoint_indices}

-- `instances`: the names of the instances of each node.
abbrev pub Instances : Type 0
Instances = List (Name × List Name)

-- An entry that is written later replaces an earlier one.
unfoldable pub find : Instances → Name → Option (List Name)
find [] name = none
find ((key, names) ∷ rest) name = elim (find rest name) [
  | some later ↦ some later
  | none ↦ if same_name key name then some names else none
]

module _ {J : Type 0} where
  unfoldable pub instance_names : Node J → List Name
  instance_names n =
      if n.count == 1 then n.name ∷ [] else map (instance_name n.name) (range 0 n.count)

  -- What the loop over the nodes writes to `instances`.
  unfoldable pub instances : Nodes J → Instances
  instances empty = []
  instances (single n rest) = (n.name, instance_names n) ∷ instances rest
  instances (nest n _ _ _ _ rest) = (n.name, instance_names n) ∷ instances rest

  -- The instances of a node; `base` is the node with the expanded inner graph's ports.
  unfoldable pub instance : Node J → Name → ℕ → Node J
  instance base name derate = record base {
    name = name;
    count = 1;
    derate = derate;
    instance_derates = [];
  }

  unfoldable pub node_instances : Node J → List (Node J)
  node_instances n =
      if n.count == 1
      then instance n n.name (derate_of n 0) ∷ []
      else map (λ i. instance n (instance_name n.name i) (derate_of n i)) (range 0 n.count)

  unfoldable pub add_singles : List (Node J) → Nodes J → Nodes J
  add_singles [] rest = rest
  add_singles (n ∷ ns) rest = single n (add_singles ns rest)

  unfoldable pub add_nests : List (Node J) → Graph J → Nodes J → Nodes J
  add_nests [] inner rest = rest
  add_nests (n ∷ ns) inner rest =
      nest n inner.name inner.nodes inner.edges inner.meta (add_nests ns inner rest)

  -- The names that an endpoint stands for.
  unfoldable pub concrete : Nodes J → Instances → Name → Option (List Name)
  concrete nodes found end = if has_node nodes end then find found end else (do
    (base, indices) ← endpoint_indices nodes end
    names ← find found base
    traverse (get_elem? names) indices)

-- `inner_instances.get(p, [p])[0]`; `none` is the IndexError.
unfoldable pub first_instance : Instances → Name → Option Name
first_instance inner p = elim (find inner p) [
  | none ↦ some p
  | some [] ↦ none
  | some (name ∷ _) ↦ some name
]

unfoldable pub pairs_with : List Name → List Name → List (Name × Name)
pairs_with [] dsts = []
pairs_with (s ∷ ss) dsts = map (λ d. (s, d)) dsts ++ pairs_with ss dsts

-- `srcs[i % len(srcs)]`; `none` is the ZeroDivisionError.
unfoldable pub wrapped : List Name → ℕ → Option Name
wrapped names i = get_elem? names (i % length names)

unfoldable pub pair_at : List Name → List Name → ℕ → Option (Name × Name)
pair_at srcs dsts i = do s ← wrapped srcs i; d ← wrapped dsts i; some (s, d)

unfoldable pub pairs : EdgePattern → List Name → List Name → Option (List (Name × Name))
pairs all srcs dsts = some (pairs_with srcs dsts)
pairs interleave srcs dsts =
    traverse (pair_at srcs dsts) (range 0 (max (length srcs) (length dsts)))

unfoldable pub joined : Edge → Name × Name → Edge
joined e (s, d) = record e { src = s; dst = d; pattern = interleave }

module _ {J : Type 0} where
  unfoldable pub expand_edge : Nodes J → Instances → Edge → Option (List Edge)
  expand_edge nodes found e = do
    srcs ← concrete nodes found e.src
    dsts ← concrete nodes found e.dst
    ps ← pairs e.pattern srcs dsts
    some (map (joined e) ps)

  unfoldable pub expand_edges : Nodes J → Instances → List Edge → Option (List Edge)
  expand_edges nodes found [] = some []
  expand_edges nodes found (e ∷ es) = do
    links ← expand_edge nodes found e
    rest ← expand_edges nodes found es
    some (links ++ rest)

  -- The loop over the nodes.
  unfoldable pub expand_nodes : Bool → Nodes J → Option (Nodes J)
  expand_nodes deep empty = some empty
  expand_nodes deep (single n rest) = do
    ns ← expand_nodes deep rest
    some (add_singles (node_instances n) ns)
  expand_nodes false (nest n name nodes edges meta rest) = do
    ns ← expand_nodes false rest
    let inner : Graph J = record { name = name; nodes = nodes; edges = edges; meta = meta }
    some (add_nests (node_instances n) inner ns)
  expand_nodes true (nest n name nodes edges meta rest) = do
    nodes' ← expand_nodes true nodes
    edges' ← expand_edges nodes (instances nodes) edges
    ports ← traverse (first_instance (instances nodes)) n.ports
    ns ← expand_nodes true rest
    let inner : Graph J = record { name = name; nodes = nodes'; edges = edges'; meta = meta }
    some (add_nests (node_instances (record n { ports = ports })) inner ns)

  -- `none` is an error of the endpoints.
  unfoldable pub expand : Bool → Graph J → Option (Graph J)
  expand deep g = do
    nodes ← expand_nodes deep g.nodes
    edges ← expand_edges g.nodes (instances g.nodes) g.edges
    some (record { name = g.name; nodes = nodes; edges = edges; meta = g.meta })
