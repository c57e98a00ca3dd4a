-- ===== src/Graph/Wiring.antt =====
-- inferencesim/graph.py: the links that an edge expands to, and the capacity of the edge.
use mathlib.Core.Option.{some-injective}
use inferencesim.Prelude.{
  ℕ, ◌*◌, ◌≡◌, refl, sym, ap, ◌∙◌, max, false, List, [], ◌∷◌, some, none, map, length,
  length-append, get_elem?, arith, Bool-cases, inl, inr, sum, bind-some, length-traverse,
}
use inferencesim.Graph.Names.{Name, range, length-range}
use inferencesim.Graph.Node.{Nodes, Edge, EdgePattern, interleave, all, n_links, pair_bandwidth}
use inferencesim.Graph.Links.{has_node, endpoint_indices, endpoint_width, edge_capacity}
use inferencesim.Graph.Expand.{
  find, instances, concrete, pairs, pairs_with, pair_at, joined, expand_edge, instance_names,
}
use inferencesim.Graph.Validate.{has_duplicates}
use inferencesim.Graph.Lookup.{node-some, find-instances, length-map, length-instance_names}

module _ {J : Type 0} where
  width-concrete :
      (nodes : Nodes J) (end : Name) (names : List Name)
      → has_duplicates nodes ≡ false
      → concrete nodes (instances nodes) end ≡ some names
      → endpoint_width nodes end ≡ some (length names)
  unfolding concrete endpoint_width
  width-concrete nodes end names d h = elim (Bool-cases (has_node nodes end)) [
    | inl e ↦
        let (n, found) = node-some nodes end e in
        let here : find (instances nodes) end ≡ some names = rw e at h in
        let known = sym (rw found at (find-instances nodes end d)) ∙ here in
        let counted =
          sym (length-instance_names n)
          ∙ ap length (some-injective (instance_names n) names known) in
        rw (e, found) (ap some counted)
    | inr e ↦
        let ((base, indices), at_base, h1) =
          bind-some (endpoint_indices nodes end) _ names (rw e at h) in
        let (all_names, found, h2) = bind-some (find (instances nodes) base) _ names h1 in
        rw (e, at_base) (ap some (sym (length-traverse (get_elem? all_names) indices names h2)))
  ]

length-pairs_with :
    (srcs dsts : List Name) → length (pairs_with srcs dsts) ≡ length srcs * length dsts
unfolding pairs_with
length-pairs_with [] dsts = omega arith
length-pairs_with (s ∷ ss) dsts =
    let rest = length-pairs_with ss dsts in
    grind (
      arith,
      length-append (map (λ d. (s, d)) dsts) (pairs_with ss dsts),
      length-map {B = Name × Name} (λ d. (s, d)) dsts,
      rest,
    )

length-pairs :
    (p : EdgePattern) (srcs dsts : List Name) (ps : List (Name × Name))
    → pairs p srcs dsts ≡ some ps
    → length ps ≡ n_links p (length srcs) (length dsts)
unfolding pairs n_links
length-pairs all srcs dsts ps h =
    ap length (sym (some-injective (pairs_with srcs dsts) ps h)) ∙ length-pairs_with srcs dsts
length-pairs interleave srcs dsts ps h =
    length-traverse (pair_at srcs dsts) (range 0 (max (length srcs) (length dsts))) ps h
    ∙ length-range 0 (max (length srcs) (length dsts))

-- The bandwidth of a link, 0 where it is unconstrained.
abbrev pub bandwidth_of : Edge → ℕ
bandwidth_of e = elim (pair_bandwidth e) [ none ↦ 0 | some b ↦ b ]

sum-joined :
    (e : Edge) (b : ℕ) (ps : List (Name × Name))
    → e.bandwidth ≡ some b
    → sum bandwidth_of (map (joined e) ps) ≡ b * e.count * length ps
unfolding joined pair_bandwidth
sum-joined e b [] h = omega arith
sum-joined e b (p ∷ ps) h =
    let rest = sum-joined e b ps h in
    let b' : bandwidth_of (joined e p) ≡ b * e.count = rw h refl in omega (arith, b', rest)

-- Where an edge of bounded bandwidth expands, in a graph without duplicate names, `edge_capacity` raises no
-- error, and the capacity of the grouped edge is that of the single links together.
pub edge_capacity-expand_edge :
    {J : Type 0} (nodes : Nodes J) (e : Edge) (b : ℕ) (links : List Edge)
    → has_duplicates nodes ≡ false
    → e.bandwidth ≡ some b
    → expand_edge nodes (instances nodes) e ≡ some links
    → edge_capacity nodes e ≡ some (some (sum bandwidth_of links))
unfolding expand_edge edge_capacity
edge_capacity-expand_edge nodes e b links d bounded h =
    let (srcs, at_src, h1) = bind-some (concrete nodes (instances nodes) e.src) _ links h in
    let (dsts, at_dst, h2) = bind-some (concrete nodes (instances nodes) e.dst) _ links h1 in
    let (ps, paired, h3) = bind-some (pairs e.pattern srcs dsts) _ links h2 in
    let total : sum bandwidth_of links
        ≡ b * e.count * n_links e.pattern (length srcs) (length dsts) =
      ap (sum bandwidth_of) (sym (some-injective (map (joined e) ps) links h3))
      ∙ sum-joined e b ps bounded
      ∙ ap (λ n. b * e.count * n) (length-pairs e.pattern srcs dsts ps paired) in
    rw
      (
        bounded,
        width-concrete nodes e.src srcs d at_src,
        width-concrete nodes e.dst dsts d at_dst,
        total,
      )
      refl
