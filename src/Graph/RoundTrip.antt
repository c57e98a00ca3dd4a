-- ===== src/Graph/RoundTrip.antt =====
-- inferencesim/graph.py: reading back what is written.
use mathlib.Core.Bool.{false≢true}
use text.Mathlib.Text.{◌==◌ as same_text}
use text.Mathlib.TextEquality.{eq_iff}
use inferencesim.Prelude.{
  ℕ, ◌≡◌, refl, sym, false, List, [], ◌∷◌, Option, some, none, map, String, arith, traverse,
  Bool-cases, inl, inr, is_empty,
}
use inferencesim.Hardware.{DType, fp4, int4, fp6, fp8, int8, fp16, bf16, tf32, fp32}
use inferencesim.Graph.Node.{
  Node, NodeKind, compute, memory, switch, composite, Nodes, empty, single, nest, Edge, EdgePattern,
  interleave, all, Graph, unit,
}
use inferencesim.Graph.Dict.{
  Decimal, str, int, kind_value, kind_of, pattern_value, pattern_of, dtype_value, dtype_of,
  dtype_among, unless, or_default, unless_blank, unless_empty,
}
use inferencesim.Graph.Serialise.{
  flops_to_dict, flop_from_dict, flops_from_dict, override_from_dict, pattern_to_dict, edge_to_dict,
  edge_from_dict, node_to_dict, node_from_dict, nodes_to_dict, nodes_from_dict, to_dict, from_dict,
}

or_default-unless : (default v : ℕ) → or_default (unless default v) default ≡ v
unfolding or_default unless
or_default-unless default v = ground arith

or_default-unless_blank : (s : String) → or_default (unless_blank s) "" ≡ s
unfolding or_default unless_blank
or_default-unless_blank s = elim (Bool-cases (same_text s "")) [
  | inl e ↦ rw e (sym ((eq_iff s "").0 e))
  | inr e ↦ rw e refl
]

or_default-unless_empty : {A : Type 0} (xs : List A) → or_default (unless_empty xs) [] ≡ xs
unfolding or_default unless_empty
or_default-unless_empty [] = refl
or_default-unless_empty (x ∷ xs) = refl

kind_of-kind_value : (k : NodeKind) → kind_of (kind_value k) ≡ some k
unfolding kind_of kind_value
kind_of-kind_value compute = refl
kind_of-kind_value memory = refl
kind_of-kind_value switch = refl
kind_of-kind_value composite = refl

pattern_of-pattern_to_dict :
    (p : EdgePattern) → pattern_of (or_default (pattern_to_dict p) "interleave") ≡ some p
unfolding pattern_of pattern_value or_default pattern_to_dict
pattern_of-pattern_to_dict interleave = refl
pattern_of-pattern_to_dict all = refl

dtype_of-dtype_value : (d : DType) → dtype_of (dtype_value d) ≡ some d
unfolding dtype_of dtype_value dtype_among
dtype_of-dtype_value fp4 = refl
dtype_of-dtype_value int4 = refl
dtype_of-dtype_value fp6 = refl
dtype_of-dtype_value fp8 = refl
dtype_of-dtype_value int8 = refl
dtype_of-dtype_value fp16 = refl
dtype_of-dtype_value bf16 = refl
dtype_of-dtype_value tf32 = refl
dtype_of-dtype_value fp32 = refl

traverse-map :
    {A B : Type 0} (f : A → B) (g : B → Option A) (xs : List A)
    → ((x : A) → g (f x) ≡ some x)
    → traverse g (map f xs) ≡ some xs
traverse-map f g [] h = refl
traverse-map f g (x ∷ xs) h = rw (h x, traverse-map f g xs h) refl

-- A table of rates that is there has a rate: an empty one is not written, and read as none.
abbrev pub IsFull : Option (List (DType × ℕ)) → Type 0
IsFull none = Unit
IsFull (some fs) = is_empty fs ≡ false

abbrev flop_to_dict : DType × ℕ → String × ℕ
flop_to_dict x = (dtype_value x.0, x.1)

flop-round_trip : (x : DType × ℕ) → flop_from_dict (flop_to_dict x) ≡ some x
unfolding flop_from_dict
flop-round_trip (d, v) = rw (dtype_of-dtype_value d) refl

flops-round_trip :
    (fs : Option (List (DType × ℕ))) → IsFull fs → flops_from_dict (flops_to_dict fs) ≡ some fs
unfolding flops_from_dict flops_to_dict flop_from_dict
flops-round_trip none h = refl
flops-round_trip (some []) h = absurd (false≢true (sym h))
flops-round_trip (some (f ∷ fs)) h =
    rw (traverse-map flop_to_dict flop_from_dict (f ∷ fs) flop-round_trip) refl

edge-round_trip : (e : Edge) → edge_from_dict (edge_to_dict e) ≡ some e
unfolding edge_from_dict edge_to_dict
edge-round_trip e =
    rw
      (
        pattern_of-pattern_to_dict e.pattern,
        or_default-unless 0 e.latency_s,
        or_default-unless 0 e.power_w,
        or_default-unless 1 e.count,
        or_default-unless_blank e.name,
      )
      refl

abbrev override_to_dict : ℕ × ℕ → Decimal × ℕ
override_to_dict x = (str x.0, x.1)

override-round_trip : (x : ℕ × ℕ) → override_from_dict (override_to_dict x) ≡ some x
unfolding override_from_dict int
override-round_trip x = refl

module _ {J : Type 0} where
  node-round_trip : (n : Node J) → IsFull n.peak_flops → node_from_dict (node_to_dict n) ≡ some n
  unfolding node_from_dict node_to_dict
  node-round_trip n h =
      rw
        (
          kind_of-kind_value n.kind,
          flops-round_trip n.peak_flops h,
          or_default-unless_empty (map override_to_dict n.instance_derates),
          traverse-map override_to_dict override_from_dict n.instance_derates override-round_trip,
          or_default-unless 1 n.count,
          or_default-unless 0 n.latency_s,
          or_default-unless unit n.derate,
          or_default-unless 0 n.dynamic_power_w,
          or_default-unless 0 n.idle_power_w,
          or_default-unless_blank n.role,
          or_default-unless_empty n.ports,
          or_default-unless_empty n.meta,
        )
        refl

  -- No node, at any depth, has an empty table of rates.
  abbrev pub IsWritten : Nodes J → Type 0
  IsWritten empty = Unit
  IsWritten (single n rest) = IsFull n.peak_flops × IsWritten rest
  IsWritten (nest n _ nodes _ _ rest) = IsFull n.peak_flops × IsWritten nodes × IsWritten rest

  nodes-round_trip :
      (nodes : Nodes J) → IsWritten nodes → nodes_from_dict (nodes_to_dict nodes) ≡ some nodes
  unfolding nodes_from_dict nodes_to_dict or_default
  nodes-round_trip empty h = refl
  nodes-round_trip (single n rest) (f, h) = rw (node-round_trip n f, nodes-round_trip rest h) refl
  nodes-round_trip (nest n name nodes edges meta rest) (f, hi, h) =
      rw
        (
          node-round_trip n f,
          nodes-round_trip nodes hi,
          traverse-map edge_to_dict edge_from_dict edges edge-round_trip,
          nodes-round_trip rest h,
        )
        refl

-- A graph whose tables of rates are not empty, at any depth, is read back from its dict as it was.
pub from_dict-to_dict :
    {J : Type 0} (g : Graph J) → IsWritten g.nodes → from_dict (to_dict g) ≡ some g
unfolding from_dict to_dict or_default
from_dict-to_dict g h =
    rw
      (nodes-round_trip g.nodes h, traverse-map edge_to_dict edge_from_dict g.edges edge-round_trip)
      refl
