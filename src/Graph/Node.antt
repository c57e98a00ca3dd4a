-- ===== src/Graph/Node.antt =====
-- inferencesim/graph.py: `Node`, `Edge` and `Graph`, with the figures of a node. A derate is a number of
-- parts of `unit`, and `J` is the type of the values in `meta`, which are kept as they are.
use inferencesim.Prelude.{
  ℕ, ◌*◌, max, List, [], ◌∷◌, Option, some, none, map, String, if◌then◌else◌, ◌==◌, ltb, length,
  sum, filter,
}
use inferencesim.Hardware.{DType}
use inferencesim.Graph.Names.{Name, range}

pub data NodeKind : Type 0 where
  compute memory switch composite : NodeKind

-- A derate of 1.0.
abbrev pub unit : ℕ
unit = 1000000

-- The fields of `Node` but for `inner`.
pub record Node (J : Type 0) : Type 0 where
  pub name : Name
  pub kind : NodeKind
  pub count : ℕ
  pub peak_flops : Option (List (DType × ℕ))
  pub capacity_bytes : Option ℕ
  pub bandwidth : Option ℕ
  pub latency_s : ℕ
  pub derate : ℕ
  pub instance_derates : List (ℕ × ℕ)
  pub dynamic_power_w : ℕ
  pub idle_power_w : ℕ
  pub role : String
  pub ports : List Name
  pub meta : List (String × J)

pub data EdgePattern : Type 0 where
  interleave all : EdgePattern

pub record Edge : Type 0 where
  pub src : Name
  pub dst : Name
  pub bandwidth : Option ℕ
  pub latency_s : ℕ
  pub power_w : ℕ
  pub count : ℕ
  pub pattern : EdgePattern
  pub name : String

-- A list of nodes, each with an inner graph (its name, nodes, edges and meta) or without one.
pub data Nodes (J : Type 0) : Type 0 where
  empty : Nodes J
  single : Node J → Nodes J → Nodes J
  nest :
      Node J
      → (name : String) (nodes : Nodes J) (edges : List Edge) (meta : List (String × J)) → Nodes J
      → Nodes J

pub record Graph (J : Type 0) : Type 0 where
  pub name : String
  pub nodes : Nodes J
  pub edges : List Edge
  pub meta : List (String × J)

-- `d.get(i, default)`
unfoldable pub get_or : ℕ → List (ℕ × ℕ) → ℕ → ℕ
get_or i [] default = default
get_or i ((j, v) ∷ rest) default = if j == i then v else get_or i rest default

module _ {J : Type 0} where
  unfoldable pub derate_of : Node J → ℕ → ℕ
  derate_of n i = get_or i n.instance_derates n.derate

  unfoldable pub derates : Node J → List ℕ
  derates n = map (derate_of n) (range 0 n.count)

  -- In parts of `unit`.
  unfoldable pub effective_count : Node J → ℕ
  effective_count n = sum (λ d. d) (derates n)

  unfoldable pub enabled_count : Node J → ℕ
  enabled_count n = length (filter (λ d. ltb 0 d) (derates n))

  unfoldable pub agg_bandwidth : Node J → Option ℕ
  agg_bandwidth n = elim n.bandwidth [ none ↦ none | some b ↦ some (b * effective_count n) ]

  unfoldable pub agg_capacity : Node J → Option ℕ
  agg_capacity n = elim n.capacity_bytes [ none ↦ none | some c ↦ some (c * enabled_count n) ]

  unfoldable pub agg_flops : Node J → List (DType × ℕ)
  agg_flops n = elim n.peak_flops [
    | none ↦ []
    | some fs ↦ map (λ (f : DType × ℕ). (f.0, f.1 * effective_count n)) fs
  ]

-- The capacity of one connected pair.
unfoldable pub pair_bandwidth : Edge → Option ℕ
pair_bandwidth e = elim e.bandwidth [ none ↦ none | some b ↦ some (b * e.count) ]

unfoldable pub n_links : EdgePattern → ℕ → ℕ → ℕ
n_links all n_src n_dst = n_src * n_dst
n_links interleave n_src n_dst = max n_src n_dst
