-- ===== src/Graph/Checked.antt =====
-- inferencesim/graph.py: what `validate` has checked of a node, an endpoint and an edge.
use mathlib.Core.Option.{none-ne-some, some-injective}
use inferencesim.Prelude.{
  ℕ, zero, suc, ◌-◌, ◌≡◌, ◌≤◌, ◌<◌, refl, subst, Bool, true, false, not, ◌&&◌, List, [], String,
  ◌∷◌, Option, some, none, if◌then◌else◌, ltb, leb, length, get_elem?, All, arith, Bool-cases, inl,
  inr,
}
use inferencesim.Graph.Names.{
  Name, Selector, same_name, one, slice, selector_indices, range, length-range, range-below,
}
use inferencesim.Graph.Node.{Node, Nodes, empty, single, nest, Edge}
use inferencesim.Graph.Links.{node, has_node}
use inferencesim.Graph.Expand.{find, instances, instance_names, first_instance}
use inferencesim.Graph.Validate.{
  raise_if-none, and_then-none, has_duplicates, figures_error, nodes_error, graph_error,
  edges_error, ports_error, single_error, is_composite, GraphError,
}
use inferencesim.Graph.Lookup.{node-some, find-instances, length-instance_names}

pub get_elem?-some :
    {A : Type 0} (xs : List A) (i : ℕ) → i < length xs → (x : A) × (get_elem? xs i ≡ some x)
get_elem?-some [] i l = absurd (omega arith)
get_elem?-some (x ∷ xs) zero l = (x, refl)
get_elem?-some (x ∷ xs) (suc i) l = get_elem?-some xs i (omega arith)

All-imply :
    {A : Type 0} (P Q : A → Type 0) (xs : List A) → ((x : A) → P x → Q x) → All P xs → All Q xs
All-imply P Q [] h p = tt
All-imply P Q (x ∷ xs) h (p, ps) = (h x p, All-imply P Q xs h ps)

-- Indices in range select.
pub indices-below :
    (sel : Option Selector) (count : ℕ) (is : List ℕ)
    → selector_indices sel count ≡ some is
    → 0 < count
    → All (λ i. i < count) is × (0 < length is)
unfolding selector_indices
indices-below none count is h l =
    let e = some-injective (range 0 count) is h in
    rw (← e) (range-below 0 count count (omega arith), omega (arith, l, length-range 0 count))
indices-below (some (one i)) count is h l = elim (Bool-cases (ltb i count)) [
  | inl c ↦
      let e = some-injective (i ∷ []) is (rw c at h) in
      let below : i < count = ground arith in rw (← e) ((below, tt), omega arith)
  | inr c ↦ absurd (none-ne-some is (rw c at h))
]
indices-below (some (slice lo hi)) count is h l = elim (Bool-cases (ltb lo hi && leb hi count)) [
  | inl c ↦
      let e = some-injective (range lo (hi - lo)) is (rw c at h) in
      let inside : lo < hi = ground arith in
      let below : hi ≤ count = ground arith in
      rw (← e) (
        range-below lo (hi - lo) count (omega arith),
        omega (arith, inside, length-range lo (hi - lo)),
      )
  | inr c ↦ absurd (none-ne-some is (rw c at h))
]

module _ {J : Type 0} where
  positive_count : (n : Node J) → figures_error n ≡ none → 0 < n.count
  unfolding figures_error
  positive_count n h = let (c, _) = raise_if-none (ltb n.count 1) _ _ h in ground arith

  pub graph_checks :
      (nodes : Nodes J) (raised : Option GraphError) (edges : List Edge)
      → graph_error nodes raised edges ≡ none
      → (has_duplicates nodes ≡ false) × (raised ≡ none) × (edges_error nodes edges ≡ none)
  unfolding graph_error
  graph_checks nodes raised edges h =
      let (d, h1) = raise_if-none (has_duplicates nodes) _ _ h in
      let (r, es) = and_then-none raised (edges_error nodes edges) h1 in (d, r, es)

  pub nest_checks :
      (n : Node J) (name : String) (inner : Nodes J) (edges : List Edge) (meta : List (String × J))
      (rest : Nodes J)
      → nodes_error (nest n name inner edges meta rest) ≡ none
      → (figures_error n ≡ none)
        × (ports_error inner n.ports ≡ none)
        × (graph_error inner (nodes_error inner) edges ≡ none)
        × (nodes_error rest ≡ none)
  unfolding nodes_error
  nest_checks n name inner edges meta rest h =
      let (figures, h1) = and_then-none (figures_error n) _ h in
      let (_, h2) = raise_if-none (not (is_composite n.kind)) _ _ h1 in
      let (ports, h3) = and_then-none (ports_error inner n.ports) _ h2 in
      let (inside, r) =
        and_then-none (graph_error inner (nodes_error inner) edges) (nodes_error rest) h3 in
      (figures, ports, inside, r)

  pub single_checks :
      (n : Node J) (rest : Nodes J)
      → nodes_error (single n rest) ≡ none
      → (figures_error n ≡ none) × (nodes_error rest ≡ none)
  unfolding nodes_error
  single_checks n rest h =
      let (figures, h1) = and_then-none (figures_error n) _ h in
      (figures, (and_then-none (single_error n) (nodes_error rest) h1).1)

  found_count :
      (m n : Node J) (rest : Option (Node J)) (b : Bool)
      → figures_error m ≡ none
      → (if b then some m else rest) ≡ some n
      → (rest ≡ some n → 0 < n.count)
      → 0 < n.count
  found_count m n rest true f e h =
      subst (λ (x : Node J). 0 < x.count) (some-injective m n e) (positive_count m f)
  found_count m n rest false f e h = h e

  pub node-count :
      (nodes : Nodes J) (name : Name) (n : Node J)
      → nodes_error nodes ≡ none
      → node nodes name ≡ some n
      → 0 < n.count
  unfolding node
  node-count empty name n h e = absurd (none-ne-some n e)
  node-count (single m rest) name n h e =
      let (f, r) = single_checks m rest h in
      found_count m n (node rest name) (same_name m.name name) f e (node-count rest name n r)
  node-count (nest m inside inner edges meta rest) name n h e =
      let (f, _, _, r) = nest_checks m inside inner edges meta rest h in
      found_count m n (node rest name) (same_name m.name name) f e (node-count rest name n r)

  -- The instances of a node that is there.
  pub has-find :
      (nodes : Nodes J) (name : Name)
      → has_duplicates nodes ≡ false
      → nodes_error nodes ≡ none
      → has_node nodes name ≡ true
      → (names : List Name) × (find (instances nodes) name ≡ some names) × (0 < length names)
  has-find nodes name d h e =
      let (n, found) = node-some nodes name e in
      let here = rw found at (find-instances nodes name d) in
      let positive = node-count nodes name n h found in
      (instance_names n, here, omega (arith, length-instance_names n, positive))

  first_of :
      (nodes : Nodes J) (p : Name)
      → ((names : List Name) × (find (instances nodes) p ≡ some names) × (0 < length names))
      → (q : Name) × (first_instance (instances nodes) p ≡ some q)
  unfolding first_instance
  first_of nodes p ([], _, l) = absurd (omega arith)
  first_of nodes p (q ∷ _, found, _) = (q, rw (first_instance, found) refl)

  pub first_instances :
      (nodes : Nodes J) (ps : List Name)
      → has_duplicates nodes ≡ false
      → nodes_error nodes ≡ none
      → ports_error nodes ps ≡ none
      → All (λ p. (q : Name) × (first_instance (instances nodes) p ≡ some q)) ps
  unfolding ports_error
  first_instances nodes [] d h e = tt
  first_instances nodes (p ∷ ps) d h e =
      let (here, rest) = raise_if-none (not (has_node nodes p)) _ _ e in
      let there : has_node nodes p ≡ true = ground arith in
      let later = first_instances nodes ps d h rest in
      (first_of nodes p (has-find nodes p d h there), later)
