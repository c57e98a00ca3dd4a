-- ===== src/Graph/Aggregates.antt =====
-- inferencesim/graph.py: the figures of a group and those of its instances.
use inferencesim.Prelude.{
  ℕ, ◌+◌, ◌*◌, ◌≡◌, refl, sym, ap, ◌∙◌, List, [], ◌∷◌, Option, some, none, map, if◌then◌else◌, ◌==◌,
  ltb, length, sum, ◌>>=◌, filter, arith, Bool-cases, inl, inr,
}
use inferencesim.Graph.Names.{Name, instance_name, range}
use inferencesim.Graph.Node.{
  Node, get_or, derate_of, derates, effective_count, enabled_count, agg_bandwidth, agg_capacity,
}
use inferencesim.Graph.Expand.{instance, node_instances}

-- An aggregate, 0 where there is no such figure.
abbrev pub amount : Option ℕ → ℕ
amount none = 0
amount (some a) = a

-- 1 for an instance that does any work.
abbrev live : ℕ → ℕ
live d = if ltb 0 d then 1 else 0

length-filter-live : (ds : List ℕ) → length (filter (λ d. ltb 0 d) ds) ≡ sum live ds
length-filter-live [] = refl
length-filter-live (d ∷ ds) =
    let rest = length-filter-live ds in
    elim (Bool-cases (ltb 0 d)) [ inl e ↦ rw e (omega arith) | inr e ↦ rw e (omega arith) ]

sum-map :
    {A B : Type 0} (f : B → ℕ) (g : A → B) (xs : List A) → sum f (map g xs) ≡ sum (λ x. f (g x)) xs
sum-map f g [] = refl
sum-map f g (x ∷ xs) = ap (λ s. f (g x) + s) (sum-map f g xs)

sum-times : {A : Type 0} (b : ℕ) (f : A → ℕ) (xs : List A) → sum (λ x. b * f x) xs ≡ b * sum f xs
sum-times b f [] = omega arith
sum-times b f (x ∷ xs) = grind (arith, sum-times b f xs)

module _ {J : Type 0} (n : Node J) where
  bandwidth-some : (b : ℕ) → n.bandwidth ≡ some b → agg_bandwidth n ≡ some (b * effective_count n)
  unfolding agg_bandwidth
  bandwidth-some b h =
      ap
        (λ (o : Option ℕ). elim o as (λ _. Option ℕ) [
          | none ↦ none
          | some x ↦ some (x * effective_count n)
        ])
        h

  capacity-some : (c : ℕ) → n.capacity_bytes ≡ some c → agg_capacity n ≡ some (c * enabled_count n)
  unfolding agg_capacity
  capacity-some c h =
      ap
        (λ (o : Option ℕ). elim o as (λ _. Option ℕ) [
          | none ↦ none
          | some x ↦ some (x * enabled_count n)
        ])
        h

module _ {J : Type 0} (n : Node J) where
  effective-instance : (name : Name) (d : ℕ) → effective_count (instance n name d) ≡ d
  unfolding effective_count derates derate_of get_or instance range
  effective-instance name d = omega arith

  enabled-instance : (name : Name) (d : ℕ) → enabled_count (instance n name d) ≡ live d
  unfolding enabled_count derates derate_of get_or instance range
  enabled-instance name d = length-filter-live (d ∷ []) ∙ omega arith

  pointwise : (f g : ℕ → ℕ) → ((i : ℕ) → f i ≡ g i) → (is : List ℕ) → sum f is ≡ sum g is
  pointwise f g h [] = refl
  pointwise f g h (i ∷ is) = omega (arith, h i, pointwise f g h is)

  -- A figure that each instance has by its derate.
  sum-node_instances :
      (figure : Node J → ℕ) (weight : ℕ → ℕ) (b : ℕ)
      → ((name : Name) (d : ℕ) → figure (instance n name d) ≡ b * weight d)
      → sum figure (node_instances n) ≡ b * sum weight (derates n)
  unfolding node_instances derates range
  sum-node_instances figure weight b h = elim (Bool-cases (n.count == 1)) [
    | inl e ↦
        let single : n.count ≡ 1 = ground arith in
        let one = h n.name (derate_of n 0) in rw single (grind (arith, one))
    | inr e ↦
        let each = λ (i : ℕ). h (instance_name n.name i) (derate_of n i) in
        let is = range 0 n.count in
        rw e (
          sum-map figure (λ i. instance n (instance_name n.name i) (derate_of n i)) is
          ∙ pointwise _ (λ i. b * weight (derate_of n i)) each is
          ∙ sum-times b (λ i. weight (derate_of n i)) is
          ∙ ap (λ s. b * s) (sym (sum-map weight (derate_of n) is)))
  ]

  bandwidth-instance :
      (b : ℕ) (name : Name) (d : ℕ)
      → n.bandwidth ≡ some b
      → amount (agg_bandwidth (instance n name d)) ≡ b * d
  unfolding instance
  bandwidth-instance b name d h =
      ap amount (bandwidth-some (instance n name d) b h)
      ∙ ap (λ x. b * x) (effective-instance name d)

  capacity-instance :
      (c : ℕ) (name : Name) (d : ℕ)
      → n.capacity_bytes ≡ some c
      → amount (agg_capacity (instance n name d)) ≡ c * live d
  unfolding instance
  capacity-instance c name d h =
      ap amount (capacity-some (instance n name d) c h) ∙ ap (λ x. c * x) (enabled-instance name d)

module _ {J : Type 0} (n : Node J) where
  of_bandwidth :
      (o : Option ℕ)
      → n.bandwidth ≡ o
      → agg_bandwidth n ≡ (o >>= λ _. some (sum (λ m. amount (agg_bandwidth m)) (node_instances n)))
  unfolding effective_count agg_bandwidth
  of_bandwidth none h =
      ap
        (λ (o : Option ℕ). elim o as (λ _. Option ℕ) [
          | none ↦ none
          | some x ↦ some (x * effective_count n)
        ])
        h
  of_bandwidth (some b) h =
      bandwidth-some n b h
      ∙ ap some (
          sym (
            sum-node_instances n (λ m. amount (agg_bandwidth m)) (λ d. d) b
              (λ name d. bandwidth-instance n b name d h)))

  of_capacity :
      (o : Option ℕ)
      → n.capacity_bytes ≡ o
      → agg_capacity n ≡ (o >>= λ _. some (sum (λ m. amount (agg_capacity m)) (node_instances n)))
  unfolding enabled_count agg_capacity
  of_capacity none h =
      ap
        (λ (o : Option ℕ). elim o as (λ _. Option ℕ) [
          | none ↦ none
          | some x ↦ some (x * enabled_count n)
        ])
        h
  of_capacity (some c) h =
      let cap =
        sum-node_instances n (λ m. amount (agg_capacity m)) live c
          (λ name d. capacity-instance n c name d h) in
      capacity-some n c h ∙ ap some (ap (λ x. c * x) (length-filter-live (derates n)) ∙ sym cap)

-- The instances that `expand` makes of a node have together the aggregates of the node, with a derate of
-- its own for each instance: its bandwidth where it has one, and its capacity where it has one. Where it
-- has none there is no aggregate.
pub agg-node_instances :
    {J : Type 0} (n : Node J)
    → (agg_bandwidth n
        ≡ (n.bandwidth >>= λ _. some (sum (λ m. amount (agg_bandwidth m)) (node_instances n))))
      × (agg_capacity n ≡ (
          n.capacity_bytes >>= λ _. some (sum (λ m. amount (agg_capacity m)) (node_instances n))))
agg-node_instances n = (of_bandwidth n n.bandwidth refl, of_capacity n n.capacity_bytes refl)
