-- ===== src/Des/Costs.antt =====
-- inferencesim/des.py: the costs of a layer and the ingredients of its collectives, read off the lowered
-- operations, and a phase, without a graph of the chip.
use text.Mathlib.Text.{◌==◌ as same_text}
use inferencesim.Prelude.{
  ℕ, ◌+◌, ◌*◌, ◌/◌, ◌%◌, max, Bool, true, false, ◌&&◌, ◌||◌, List, [], ◌∷◌, Option, none, some,
  String, ltb, if◌then◌else◌, sum, ◌>>=◌, traverse,
}
use inferencesim.Hardware.{Link, Chip, System}
use inferencesim.Workload.Model.{Deployment}
use inferencesim.Ops.{is_comm}
use inferencesim.Ops.Lower.{Op, Category, attention_work}
use inferencesim.Collectives.Ports.{Port}
use inferencesim.Collectives.AllToAll.{Weights}
use inferencesim.Engine.Timing.{
  Efficiency, Phase, CommContext, for_deployment, scaled_link, payload_of, time_op, lacks_link,
}
use inferencesim.Des.Stage.{LayerCosts, CommPlan}
use inferencesim.Des.Rounds.{prefill_wall, decode_wall}

-- What an operation is charged to; `skipped` is a collective that is not known.
pub data Bucket : Type 0 where
  to_attn to_ffn to_allreduce to_dispatch to_combine to_gather to_scatter to_cp_ring to_hop to_edge
        skipped :
      Bucket

abbrev pub is_among : String → List String → Bool
is_among s [] = false
is_among s (n ∷ ns) = same_text s n || is_among s ns

abbrev pub attn_names : List String
attn_names = "qkv_proj" ∷ "attention" ∷ "attention_swa" ∷ "out_proj" ∷ []

abbrev pub ffn_names : List String
ffn_names = "ffn" ∷ "moe_routed" ∷ "moe_shared" ∷ []

abbrev pub edge_names : List String
edge_names = "embed" ∷ "lm_head" ∷ []

unfoldable pub bucket_of : Op → Bucket
bucket_of op =
    if is_among op.name attn_names
    then to_attn
    else if is_among op.name ffn_names
    then to_ffn
    else if same_text op.name "allreduce"
    then to_allreduce
    else if same_text op.name "moe_dispatch"
    then to_dispatch
    else if same_text op.name "moe_combine"
    then to_combine
    else if same_text op.name "ffn_gather"
    then to_gather
    else if same_text op.name "ffn_scatter"
    then to_scatter
    else if same_text op.name "cp_kv_ring"
    then to_cp_ring
    else if same_text op.name "pp_hop"
    then to_hop
    else if is_among op.name edge_names
    then to_edge
    else if is_comm op.kind
    then skipped
    else to_ffn

unfoldable pub is_attention : Category → Bool
is_attention attention_work = true
is_attention _ = false

-- `one`: the time of one instance.
unfoldable pub time_once : Efficiency → Op → Chip → CommContext → Option ℕ
time_once e op chip comm = time_op e (record op { count = 1 }) chip comm >>= λ t. some t.time

-- The share of a layer in an attention operation of fewer instances than layers is rounded down.
unfoldable pub attn_share : Op → (n_layers one : ℕ) → ℕ
attn_share op n_layers one =
    if is_attention op.category then one * op.count / max n_layers 1 else one

unfoldable pub charge : Bucket → Op → ℕ → LayerCosts → LayerCosts
charge to_attn op one c = record c {
  attn = c.attn + attn_share op c.n_layers one;
  n_layers = if same_text op.name "qkv_proj" then op.count else c.n_layers;
}
charge to_ffn op one c = record c { ffn = c.ffn + one }
charge to_allreduce op one c = record c {
  allreduce_cost = one;
  n_allreduce = op.count / max c.n_layers 1;
}
charge to_dispatch op one c = record c { dispatch = one }
charge to_combine op one c = record c { combine = one }
charge to_gather op one c = record c { gather = one }
charge to_scatter op one c = record c { scatter = one }
charge to_cp_ring op one c = record c { cp_cost = one }
charge to_hop op one c = record c { hop = one }
charge to_edge op one c = record c { edge = c.edge + one }
charge skipped op one c = c

unfoldable pub is_skipped : Bucket → Bool
is_skipped skipped = true
is_skipped _ = false

unfoldable pub charge_op : Efficiency → Chip → CommContext → Op → LayerCosts → Option LayerCosts
charge_op e chip comm op c =
    if is_skipped (bucket_of op)
    then some c
    else (time_once e op chip comm >>= λ one. some (charge (bucket_of op) op one c))

unfoldable pub charge_all :
    Efficiency → Chip → CommContext → List Op → LayerCosts → Option LayerCosts
charge_all e chip comm [] c = some c
charge_all e chip comm (op ∷ ops) c = charge_op e chip comm op c >>= charge_all e chip comm ops

-- `round(a / b)`: to the even one of two neighbours as near.
unfoldable pub round_even : (a b : ℕ) → ℕ
round_even a b =
    if ltb (2 * (a % b)) b
    then a / b
    else if ltb b (2 * (a % b))
    then a / b + 1
    else a / b + a / b % 2

-- The defensive second loop.
unfoldable pub count_allreduces : List Op → LayerCosts → LayerCosts
count_allreduces [] c = c
count_allreduces (op ∷ ops) c = count_allreduces ops (
    if same_text op.name "allreduce" && ltb 0 c.n_layers
    then record c { n_allreduce = max 1 (round_even op.count c.n_layers) }
    else c)

abbrev pub no_costs : LayerCosts
no_costs = record {
  attn = 0;
  ffn = 0;
  allreduce_cost = 0;
  n_allreduce = 0;
  dispatch = 0;
  combine = 0;
  gather = 0;
  scatter = 0;
  cp_cost = 0;
  hop = 0;
  edge = 0;
  n_layers = 1;
}

-- `_costs`; `none` is an error of `time_op`.
unfoldable pub layer_costs : Efficiency → Chip → CommContext → List Op → Option LayerCosts
layer_costs e chip comm ops =
    charge_all e chip comm ops no_costs >>= λ c. some (count_allreduces ops c)

-- `payload.get(name, 0.0)`: the last operation of the name.
unfoldable pub payload_named : String → List Op → ℕ → ℕ
payload_named name [] found = found
payload_named name (op ∷ ops) found =
    payload_named name ops
      (if is_comm op.kind && same_text op.name name then payload_of op else found)

unfoldable pub link_bandwidth : Efficiency → Option Link → ℕ
link_bandwidth e none = 0
link_bandwidth e (some l) = (scaled_link e l).bandwidth

unfoldable pub link_latency : Option Link → ℕ
link_latency none = 0
link_latency (some l) = l.latency_s

unfoldable pub weights_of : Option (List ℕ) → Option Weights → Option Weights
weights_of none rest = rest
weights_of (some parts) rest = some (record { whole = sum (λ p. p) parts; parts = parts })

-- The weights of the first dispatch that has some.
unfoldable pub dispatch_weights : List Op → Option Weights
dispatch_weights [] = none
dispatch_weights (op ∷ ops) =
    let rest = dispatch_weights ops in
    if same_text op.name "moe_dispatch" then weights_of op.member_weights rest else rest

-- `_comm_plan`
unfoldable pub comm_plan : Efficiency → CommContext → List Op → CommPlan
comm_plan e comm ops = record {
  ar_group = comm.tp;
  ar_bytes = payload_named "allreduce" ops 0;
  ar_bw = link_bandwidth e comm.tp_link;
  ar_lat = link_latency comm.tp_link;
  ar_topo = comm.tp_topology;
  a2a_group = comm.a2a;
  dispatch_bytes = payload_named "moe_dispatch" ops 0;
  combine_bytes = payload_named "moe_combine" ops 0;
  ffn_gather_bytes = payload_named "ffn_gather" ops 0;
  ffn_scatter_bytes = payload_named "ffn_scatter" ops 0;
  a2a_bw = link_bandwidth e comm.a2a_link;
  a2a_lat = link_latency comm.a2a_link;
  a2a_topo = comm.a2a_topology;
  cp_group = comm.cp;
  cp_ring_bytes = payload_named "cp_kv_ring" ops 0;
  a2a_weights = dispatch_weights ops;
  hop_bytes = payload_named "pp_hop" ops 0;
  hop_bw = link_bandwidth e comm.p2p_link;
  hop_lat = link_latency comm.p2p_link;
}

-- `run_phase` on a prefill, and on a decode with `decode` for `_decode_wall`; `none` is one of its errors.
unfoldable pub des_phase :
    (wall_of : LayerCosts → CommPlan → Option ℕ)
    → Efficiency
    → String
    → List Op
    → System
    → Deployment
    → Option Phase
des_phase wall_of e name ops s dep = do
  comm ← for_deployment s dep
  timings ←
      (if ltb 1 dep.tp && lacks_link comm.tp_link
        then none
        else traverse (λ op. time_op e op s.node.chip comm) ops)
  costs ← layer_costs e s.node.chip comm ops
  wall ← wall_of costs (comm_plan e comm ops)
  some (record { name = name; timings = timings; wall_time = some wall })

-- The phase of a prefill.
unfoldable pub prefill_phase :
    (Port → ℕ) → Efficiency → List Op → System → Deployment → Option Phase
prefill_phase rank e ops s dep =
    des_phase (λ costs plan. prefill_wall rank e.op_overhead_s costs plan dep.pp) e "prefill" ops s
      dep

-- The phase of a decode in auto mode.
unfoldable pub decode_phase :
    (Port → ℕ)
    → (rtol_over rtol_under second max_rounds : ℕ) → Efficiency
    → List Op
    → System
    → Deployment
    → Option Phase
decode_phase rank rtol_over rtol_under second max_rounds e ops s dep =
    des_phase
      (λ costs plan.
        decode_wall rank e.op_overhead_s costs plan dep.pp rtol_over rtol_under second max_rounds
        >>= λ r. some r.wall)
      e "decode" ops s dep
