-- ===== src/Hardware.antt =====
-- inferencesim/hardware.py: the building blocks of a machine. Rates, powers and costs are whole
-- numbers of a unit, and the bytes of a number format are counted in quarters.
pub mod Laws
pub mod Examples
use inferencesim.Prelude.{
  ℕ, ◌+◌, ◌*◌, Bool, true, false, not, ◌&&◌, List, [], ◌∷◌, Option, none, some, leb, ltb,
  if◌then◌else◌, min, sum,
}
use inferencesim.Prelude

pub data DType : Type 0 where
  fp4 int4 fp6 fp8 int8 fp16 bf16 tf32 fp32 : DType

-- `_DTYPE_BYTES`, times four.
unfoldable pub quarter_bytes : DType → ℕ
quarter_bytes fp4 = 2
quarter_bytes int4 = 2
quarter_bytes fp6 = 3
quarter_bytes fp8 = 4
quarter_bytes int8 = 4
quarter_bytes fp16 = 8
quarter_bytes bf16 = 8
quarter_bytes tf32 = 16
quarter_bytes fp32 = 16

-- `_WIDENING_ORDER[start:]`, where `start` is the place of the format.
unfoldable pub widening_from : DType → List DType
widening_from fp4 = fp4 ∷ int4 ∷ fp6 ∷ fp8 ∷ int8 ∷ fp16 ∷ bf16 ∷ tf32 ∷ fp32 ∷ []
widening_from int4 = int4 ∷ fp6 ∷ fp8 ∷ int8 ∷ fp16 ∷ bf16 ∷ tf32 ∷ fp32 ∷ []
widening_from fp6 = fp6 ∷ fp8 ∷ int8 ∷ fp16 ∷ bf16 ∷ tf32 ∷ fp32 ∷ []
widening_from fp8 = fp8 ∷ int8 ∷ fp16 ∷ bf16 ∷ tf32 ∷ fp32 ∷ []
widening_from int8 = int8 ∷ fp16 ∷ bf16 ∷ tf32 ∷ fp32 ∷ []
widening_from fp16 = fp16 ∷ bf16 ∷ tf32 ∷ fp32 ∷ []
widening_from bf16 = bf16 ∷ tf32 ∷ fp32 ∷ []
widening_from tf32 = tf32 ∷ fp32 ∷ []
widening_from fp32 = fp32 ∷ []

pub record Compute : Type 0 where
  pub peak_flops : DType → Option ℕ
  pub power_w : ℕ

-- The `for` loop of `flops`.
unfoldable pub first_rate : (DType → Option ℕ) → List DType → Option ℕ
first_rate peak [] = none
first_rate peak (d ∷ ds) = elim (peak d) [ none ↦ first_rate peak ds | some r ↦ some r ]

-- `none` is the ValueError.
unfoldable pub flops : Compute → DType → Option ℕ
flops c d = first_rate c.peak_flops (widening_from d)

pub record Memory : Type 0 where
  pub capacity_bytes : ℕ
  pub bandwidth : ℕ
  pub power_w : ℕ
  pub latency_s : ℕ

pub record Link : Type 0 where
  pub bandwidth : ℕ
  pub latency_s : ℕ
  pub power_w : ℕ

pub data Stage : Type 0 where
  memory : Memory → Stage
  link : Link → Stage

unfoldable pub stage_bandwidth : Stage → ℕ
stage_bandwidth (memory m) = m.bandwidth
stage_bandwidth (link l) = l.bandwidth

unfoldable pub stage_power : Stage → ℕ
stage_power (memory m) = m.power_w
stage_power (link l) = l.power_w

pub record Chip : Type 0 where
  pub compute : Compute
  pub dram : Memory
  pub on_chip_path : List Stage
  pub idle_power_w : ℕ

-- `min` of a number and those of a list.
unfoldable pub least : ℕ → List ℕ → ℕ
least x [] = x
least x (y ∷ ys) = least (min x y) ys

unfoldable pub effective_dram_bandwidth : Chip → ℕ
effective_dram_bandwidth c = least c.dram.bandwidth (Prelude.map stage_bandwidth c.on_chip_path)

unfoldable pub max_power_w : Chip → ℕ
max_power_w c = c.idle_power_w + c.compute.power_w + c.dram.power_w + sum stage_power c.on_chip_path

pub data Topology : Type 0 where
  all_to_all ring mesh_2d : Topology

pub record Node : Type 0 where
  pub chip : Chip
  pub n_chips : ℕ
  pub interconnect : Option Link
  pub topology : Topology
  pub overhead_power_w : ℕ
  pub cost_usd : ℕ

pub record System : Type 0 where
  pub node : Node
  pub n_nodes : ℕ
  pub network : Option Link
  pub extra_cost_usd : ℕ

abbrev pub is_some : Option Link → Bool
is_some none = false
is_some (some l) = true

-- `Node.__post_init__`: `none` is the ValueError.
unfoldable pub make_node : Node → Option Node
make_node n = if ltb 1 n.n_chips && not (is_some n.interconnect) then none else some n

unfoldable pub make_system : System → Option System
make_system s = if ltb 1 s.n_nodes && not (is_some s.network) then none else some s

unfoldable pub total_chips : System → ℕ
total_chips s = s.n_nodes * s.node.n_chips

unfoldable pub system_cost_usd : System → ℕ
system_cost_usd s = s.n_nodes * s.node.cost_usd + s.extra_cost_usd

-- The link, which may be none, or the ValueError.
pub data GroupLink : Type 0 where
  crosses : Option Link → GroupLink
  exceeds : GroupLink

unfoldable pub link_for_group : System → ℕ → GroupLink
link_for_group s group_size =
    if leb group_size 1
    then crosses none
    else if ltb (total_chips s) group_size
    then exceeds
    else if leb group_size s.node.n_chips
    then crosses s.node.interconnect
    else crosses s.network

unfoldable pub topology_for_group : System → ℕ → Topology
topology_for_group s group_size =
    if leb group_size s.node.n_chips then s.node.topology else all_to_all
