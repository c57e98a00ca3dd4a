-- ===== src/Graph/Lookup.antt =====
-- inferencesim/graph.py: what is found under a name, and what `instances` has of it.
use mathlib.Core.Bool.{false≢true}
use text.Mathlib.TextEquality.{eq_iff}
use inferencesim.Prelude.{
  ℕ, suc, ◌≡◌, refl, sym, ap, ◌∙◌, subst, Bool, true, false, ◌&&◌, ◌||◌, List, [], ◌∷◌, Option,
  some, none, map, if◌then◌else◌, ◌==◌, length, arith, Bool-cases, inl, inr,
}
use inferencesim.Graph.Names.{
  Name, plain, starred, selected, indexed, malformed, one, slice, same_selector, same_name, range,
  length-range, instance_name,
}
use inferencesim.Graph.Node.{Node, Nodes, empty, single, nest}
use inferencesim.Graph.Links.{node, has_node}
use inferencesim.Graph.Expand.{find, instance_names, instances}
use inferencesim.Graph.Validate.{has_duplicates}

-- The names in brackets again are compared by their parts.
and-true : (a b : Bool) → (a && b) ≡ true → (a ≡ true) × (b ≡ true)
and-true true b h = (refl, h)
and-true false b h = absurd (false≢true h)

eq_nat : (a b : ℕ) → (a == b) ≡ true → a ≡ b
eq_nat a b h = ground arith

pub same_name_sound : (a b : Name) → same_name a b ≡ true → a ≡ b
unfolding same_name same_selector
same_name_sound (plain a) (plain b) h = ap plain ((eq_iff a b).0 h)
same_name_sound (starred a) (starred b) h = ap starred ((eq_iff a b).0 h)
same_name_sound (selected a (one i)) (selected b (one j)) h =
    let (p, q) = and-true _ _ h in
    ap (λ x. selected x (one i)) ((eq_iff a b).0 p) ∙ ap (λ k. selected b (one k)) (eq_nat i j q)
same_name_sound (selected a (slice i k)) (selected b (slice j l)) h =
    let (p, q) = and-true _ _ h in
    let (q1, q2) = and-true _ _ q in
    ap (λ x. selected x (slice i k)) ((eq_iff a b).0 p)
    ∙ ap (λ x. selected b (slice x k)) (eq_nat i j q1)
    ∙ ap (λ x. selected b (slice j x)) (eq_nat k l q2)
same_name_sound (indexed n i) (indexed m j) h =
    let (p, q) = and-true _ _ h in
    ap (λ x. indexed x i) (same_name_sound n m p) ∙ ap (λ k. indexed m k) (eq_nat i j q)
same_name_sound (malformed a) (malformed b) h = ap malformed ((eq_iff a b).0 h)
same_name_sound (selected a (one i)) (selected b (slice j k)) h =
    absurd (false≢true (and-true _ false h).1)
same_name_sound (selected a (slice i k)) (selected b (one j)) h =
    absurd (false≢true (and-true _ false h).1)
same_name_sound _ _ h = absurd (false≢true h)

or-false : (a b : Bool) → (a || b) ≡ false → (a ≡ false) × (b ≡ false)
or-false true b h = absurd (false≢true (sym h))
or-false false b h = (refl, h)

module _ {J : Type 0} where
  -- No name is looked up that is not there.
  pub node-some :
      (nodes : Nodes J) (name : Name)
      → has_node nodes name ≡ true
      → (n : Node J) × (node nodes name ≡ some n)
  unfolding node has_node
  node-some empty name h = absurd (false≢true h)
  node-some (single n rest) name h = elim (Bool-cases (same_name n.name name)) [
    | inl e ↦ (n, rw e refl)
    | inr e ↦ let (m, found) = node-some rest name (rw e at h) in (m, rw e found)
  ]
  node-some (nest n _ _ _ _ rest) name h = elim (Bool-cases (same_name n.name name)) [
    | inl e ↦ (n, rw e refl)
    | inr e ↦ let (m, found) = node-some rest name (rw e at h) in (m, rw e found)
  ]

  pub node-none :
      (nodes : Nodes J) (name : Name) → has_node nodes name ≡ false → node nodes name ≡ none
  unfolding node has_node
  node-none empty name h = refl
  node-none (single n rest) name h =
      let (p, q) = or-false (same_name n.name name) (has_node rest name) h in
      rw p (node-none rest name q)
  node-none (nest n _ _ _ _ rest) name h =
      let (p, q) = or-false (same_name n.name name) (has_node rest name) h in
      rw p (node-none rest name q)

  -- What `instances` has under a name.
  abbrev names_of : Option (Node J) → Option (List Name)
  names_of none = none
  names_of (some n) = some (instance_names n)

  later_or :
      (n : Node J) (b : Bool) (o : Option (Node J))
      → b ≡ false
      → elim (names_of o) as (λ _. Option (List Name)) [
        | some later ↦ some later
        | none ↦ if b then some (instance_names n) else none
      ]
        ≡ names_of (if b then some n else o)
  later_or n b none e = rw e refl
  later_or n b (some m) e = rw e refl

  find_later :
      (n : Node J) (rest : Nodes J) (name : Name)
      → has_node rest n.name ≡ false
      → find (instances rest) name ≡ names_of (node rest name)
      → find ((n.name, instance_names n) ∷ instances rest) name
        ≡ names_of (if same_name n.name name then some n else node rest name)
  unfolding find
  find_later n rest name d h = elim (Bool-cases (same_name n.name name)) [
    | inl e ↦
        let this = same_name_sound n.name name e in
        let gone = node-none rest name (subst (λ m. has_node rest m ≡ false) this d) in
        rw (find, h, gone, e) refl
    | inr e ↦ rw (find, h) (later_or n (same_name n.name name) (node rest name) e)
  ]

  pub find-instances :
      (nodes : Nodes J) (name : Name)
      → has_duplicates nodes ≡ false
      → find (instances nodes) name ≡ names_of (node nodes name)
  unfolding find instances node has_duplicates
  find-instances empty name d = refl
  find-instances (single n rest) name d =
      let (d1, d2) = or-false (has_node rest n.name) (has_duplicates rest) d in
      find_later n rest name d1 (find-instances rest name d2)
  find-instances (nest n _ _ _ _ rest) name d =
      let (d1, d2) = or-false (has_node rest n.name) (has_duplicates rest) d in
      find_later n rest name d1 (find-instances rest name d2)

pub length-map : {A B : Type 0} (f : A → B) (xs : List A) → length (map f xs) ≡ length xs
length-map f [] = refl
length-map f (x ∷ xs) = ap suc (length-map f xs)

pub length-instance_names : {J : Type 0} (n : Node J) → length (instance_names n) ≡ n.count
unfolding instance_names
length-instance_names n = elim (Bool-cases (n.count == 1)) [
  | inl e ↦ rw e (ground arith)
  | inr e ↦ rw e (length-map (instance_name n.name) (range 0 n.count) ∙ length-range 0 n.count)
]
