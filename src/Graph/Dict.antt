-- ===== src/Graph/Dict.antt =====
-- inferencesim/graph.py: `to_dict` and `from_dict`. A dict with fixed keys is a record, of which a key that
-- is not there is `none`.
use text.Mathlib.Text.{◌==◌ as same_text}
use inferencesim.Prelude.{ℕ, List, [], ◌∷◌, Option, some, none, String, if◌then◌else◌, ◌==◌}
use inferencesim.Hardware.{DType, fp4, int4, fp6, fp8, int8, fp16, bf16, tf32, fp32}
use inferencesim.Graph.Names.{Name}
use inferencesim.Graph.Node.{
  NodeKind, compute, memory, switch, composite, EdgePattern, interleave, all,
}

-- A text that is a key of `instance_derates`: a number's, or another.
pub data Decimal : Type 0 where
  str : ℕ → Decimal
  other : String → Decimal

-- `int(k)`; `none` is the ValueError.
unfoldable pub int : Decimal → Option ℕ
int (str k) = some k
int (other s) = none

pub record NodeDict (J : Type 0) : Type 0 where
  pub name : Option Name
  pub kind : Option String
  pub count : Option ℕ
  pub peak_flops : Option (List (String × ℕ))
  pub capacity_bytes : Option ℕ
  pub bandwidth : Option ℕ
  pub latency_s : Option ℕ
  pub dynamic_power_w : Option ℕ
  pub idle_power_w : Option ℕ
  pub derate : Option ℕ
  pub instance_derates : Option (List (Decimal × ℕ))
  pub role : Option String
  pub ports : Option (List Name)
  pub meta : Option (List (String × J))

pub record EdgeDict : Type 0 where
  pub src : Option Name
  pub dst : Option Name
  pub bandwidth : Option ℕ
  pub latency_s : Option ℕ
  pub power_w : Option ℕ
  pub name : Option String
  pub count : Option ℕ
  pub pattern : Option String

-- The value of `nodes`, with the dict of an inner graph or without one.
pub data NodeDicts (J : Type 0) : Type 0 where
  no_dicts : NodeDicts J
  single_dict : NodeDict J → NodeDicts J → NodeDicts J
  nested_dict :
      NodeDict J
      → (name : Option String) (meta : Option (List (String × J))) (nodes : NodeDicts J)
        (edges : Option (List EdgeDict))
      → NodeDicts J
      → NodeDicts J

pub record GraphDict (J : Type 0) : Type 0 where
  pub format : Option String
  pub name : Option String
  pub meta : Option (List (String × J))
  pub nodes : NodeDicts J
  pub edges : Option (List EdgeDict)

-- `FORMAT`
abbrev pub format_text : String
format_text = "inferencesim-graph-v1"

unfoldable pub kind_value : NodeKind → String
kind_value compute = "compute"
kind_value memory = "memory"
kind_value switch = "switch"
kind_value composite = "composite"

-- `none` is the ValueError of an enum.
unfoldable pub kind_of : String → Option NodeKind
kind_of s =
    if same_text s "compute"
    then some compute
    else if same_text s "memory"
    then some memory
    else if same_text s "switch"
    then some switch
    else if same_text s "composite"
    then some composite
    else none

unfoldable pub pattern_value : EdgePattern → String
pattern_value interleave = "interleave"
pattern_value all = "all"

unfoldable pub pattern_of : String → Option EdgePattern
pattern_of s =
    if same_text s "interleave"
    then some interleave
    else if same_text s "all"
    then some all
    else none

unfoldable pub dtype_value : DType → String
dtype_value fp4 = "fp4"
dtype_value int4 = "int4"
dtype_value fp6 = "fp6"
dtype_value fp8 = "fp8"
dtype_value int8 = "int8"
dtype_value fp16 = "fp16"
dtype_value bf16 = "bf16"
dtype_value tf32 = "tf32"
dtype_value fp32 = "fp32"

-- The first format with the value.
unfoldable pub dtype_among : List DType → String → Option DType
dtype_among [] s = none
dtype_among (d ∷ ds) s = if same_text s (dtype_value d) then some d else dtype_among ds s

unfoldable pub dtype_of : String → Option DType
dtype_of s = dtype_among (fp4 ∷ int4 ∷ fp6 ∷ fp8 ∷ int8 ∷ fp16 ∷ bf16 ∷ tf32 ∷ fp32 ∷ []) s

-- A number that is written only where it is not the default, and read with it.
unfoldable pub unless : ℕ → ℕ → Option ℕ
unless default v = if v == default then none else some v

unfoldable pub or_default {ℓ} : {A : Type ℓ} → Option A → A → A
or_default none default = default
or_default (some v) default = v

-- `if n.role: d["role"] = n.role`, and the same for a list.
unfoldable pub unless_blank : String → Option String
unless_blank s = if same_text s "" then none else some s

unfoldable pub unless_empty : {A : Type 0} → List A → Option (List A)
unless_empty [] = none
unless_empty (x ∷ xs) = some (x ∷ xs)
