-- ===== src/Graph/Derate.antt =====
-- inferencesim/graph.py: `derate_instances`, which changes a node of the graph in place.
use inferencesim.Prelude.{
  ℕ, ◌≡◌, ◌≢◌, refl, Bool, true, false, ◌||◌, List, [], ◌∷◌, Option, some, none, if◌then◌else◌,
  ◌==◌, leb, ◌>>=◌, arith, Bool-cases, inl, inr,
}
use inferencesim.Graph.Names.{Name, split_endpoint, same_name, selector_indices, range}
use inferencesim.Graph.Node.{Node, Nodes, empty, single, nest, get_or, derate_of, unit}
use inferencesim.Graph.Links.{node, has_node}

-- `d[i] = v`
unfoldable pub put : ℕ → ℕ → List (ℕ × ℕ) → List (ℕ × ℕ)
put i v [] = (i, v) ∷ []
put i v ((j, w) ∷ rest) = if j == i then (j, v) ∷ rest else (j, w) ∷ put i v rest

unfoldable pub put_all : List ℕ → ℕ → List (ℕ × ℕ) → List (ℕ × ℕ)
put_all [] v d = d
put_all (i ∷ is) v d = put_all is v (put i v d)

module _ {J : Type 0} where
  -- The whole of a node that is alone, and otherwise the instances that are picked.
  unfoldable pub derate_node : List ℕ → ℕ → Node J → Node J
  derate_node is d n =
      if n.count == 1
      then record n { derate = d }
      else record n { instance_derates = put_all is d n.instance_derates }

  -- The first node of the name is changed.
  unfoldable pub update : Name → (Node J → Node J) → Nodes J → Nodes J
  update name f empty = empty
  update name f (single n rest) =
      if same_name n.name name then single (f n) rest else single n (update name f rest)
  update name f (nest n text nodes edges meta rest) =
      if same_name n.name name
      then nest (f n) text nodes edges meta rest
      else nest n text nodes edges meta (update name f rest)

  -- `none` is the KeyError or the ValueError.
  unfoldable pub derate_at : Nodes J → Name → ℕ → Option (Nodes J)
  derate_at nodes spec d =
      if has_node nodes spec
      then (do n ← node nodes spec; some (update spec (derate_node (range 0 n.count) d) nodes))
      else (do
        (base, sel) ← split_endpoint spec
        n ← node nodes (Name.plain base)
        is ← selector_indices sel n.count
        some (update (Name.plain base) (derate_node is d) nodes))

  unfoldable pub derate_instances : Nodes J → Name → ℕ → Option (Nodes J)
  derate_instances nodes spec d = if leb d unit then derate_at nodes spec d else none

either_way : (b : Bool) (v w x : ℕ) → (if b then v else x) ≡ (if b then v else (if b then w else x))
either_way true v w x = refl
either_way false v w x = refl

swap_tests :
    (i j k v w x : ℕ)
    → (k == i) ≡ false
    → (if k == j then w else (if i == j then v else x))
      ≡ (if i == j then v else (if k == j then w else x))
swap_tests i j k v w x e = ground arith

get_or-put :
    (i j v : ℕ) (d : List (ℕ × ℕ)) (default : ℕ)
    → get_or j (put i v d) default ≡ (if i == j then v else get_or j d default)
unfolding get_or put
get_or-put i j v [] default = refl
get_or-put i j v ((k, w) ∷ d) default =
    let rest = get_or-put i j v d default in
    elim (Bool-cases (k == i)) [
      | inl e ↦
          let same : k ≡ i = ground arith in
          rw (e, same) (either_way (i == j) v w (get_or j d default))
      | inr e ↦ rw (e, rest) (swap_tests i j k v w (get_or j d default) e)
    ]

one_value : (b : Bool) (v : ℕ) → (if b then v else v) ≡ v
one_value true v = refl
one_value false v = refl

abbrev is_in : ℕ → List ℕ → Bool
is_in j [] = false
is_in j (i ∷ is) = (i == j) || is_in j is

get_or-put_all :
    (j v : ℕ) (is : List ℕ) (d : List (ℕ × ℕ)) (default : ℕ)
    → get_or j (put_all is v d) default ≡ (if is_in j is then v else get_or j d default)
unfolding put_all
get_or-put_all j v [] d default = refl
get_or-put_all j v (i ∷ is) d default =
    let rest = get_or-put_all j v is (put i v d) default in
    let here = get_or-put i j v d default in
    elim (Bool-cases (i == j)) [
      | inl e ↦ rw (e, rest, here, e) (one_value (is_in j is) v)
      | inr e ↦ rw (e, rest, here, e) refl
    ]

-- In a group of several, the instances that are picked have the derate, and the others keep theirs.
pub derate_of-derate_node :
    {J : Type 0} (n : Node J) (is : List ℕ) (d i : ℕ)
    → n.count ≢ 1
    → derate_of (derate_node is d n) i ≡ (if is_in i is then d else derate_of n i)
unfolding derate_of derate_node
derate_of-derate_node n is d i several =
    let no : (n.count == 1) ≡ false = ground arith in
    rw no (get_or-put_all i d is n.instance_derates n.derate)
