-- ===== src/Ops/Passes.antt =====
-- inferencesim/ops.py: the lowering of a decode round, of a prefill and of a chunk of one.
use inferencesim.Prelude.{
  ℕ, ◌+◌, ◌-◌, ◌*◌, Bool, true, false, ◌||◌, List, [], ◌∷◌, ◌++◌, Option, none, some, String, ltb,
  leb, ◌==◌, if◌then◌else◌, sum, ◌>>=◌,
}
use inferencesim.Hardware.{quarter_bytes}
use inferencesim.Workload.Moe.{MoeConfig, hot_member_factor, member_popularity}
use inferencesim.Workload.Model.{
  ModelSpec, Scenario, twice_mean_context, Deployment, attn_qkv_params, qkv_proj_out_dim,
  attn_out_params, out_proj_in_dim, expert_params, shared_expert_params, ffn_params_total,
}
use inferencesim.Ops.{
  compute, allreduce, alltoall, halfring, cp_ring, p2p, Fraction, validate_deployment, cp_width,
  allreduces_per_layer,
}
use inferencesim.Ops.Lower.{
  Op, Routing, head_work, linear_work, moe_work, ratio, whole, int_of, linear, kv_traffic,
  latent_traffic, attention_ops, comm_op,
}

-- What the context-parallel ring sends: the K and V, or the latents, of `tokens` tokens of one sequence.
unfoldable pub cp_ring_payload : ModelSpec → Fraction → Deployment → Fraction
cp_ring_payload m tokens dep = elim m.mla [
  | some a ↦ latent_traffic a dep (whole 1) tokens 1
  | none ↦ kv_traffic m dep (whole 1) tokens 1
]

unfoldable pub cp_attention_ring : ModelSpec → Fraction → Deployment → (count cp : ℕ) → List Op
cp_attention_ring m tokens dep count cp =
    if leb cp 1
    then []
    else comm_op "cp_kv_ring" cp_ring dep.kv_dtype count (cp_ring_payload m tokens dep) none ∷ []

-- The hidden states of `tokens` tokens, split over `shard` chips.
unfoldable pub hidden_bytes : ModelSpec → Fraction → Deployment → ℕ → Fraction
hidden_bytes m tokens dep shard =
    ratio (tokens.over * m.d_model * quarter_bytes dep.act_dtype) (tokens.under * 4 * shard)

unfoldable pub ffn_collective : String → ModelSpec → Fraction → Deployment → ℕ → List Op
ffn_collective name m tokens dep count =
    if leb dep.adp 1
    then []
    else comm_op name halfring dep.act_dtype count (hidden_bytes m tokens dep 1) none ∷ []

unfoldable pub dense_ffn_ops : ModelSpec → Fraction → Deployment → ℕ → List Op
dense_ffn_ops m tokens_total dep count =
    ffn_collective "ffn_gather" m tokens_total dep count
    ++ linear "ffn" tokens_total (ffn_params_total m) m.d_model m.d_model dep count linear_work none
        (some (dep.tp * dep.adp))
      ∷ ffn_collective "ffn_scatter" m tokens_total dep count

-- The routed experts: of the average chip, or of the hottest where the routing is skewed.
unfoldable pub routed_op : Routing → ModelSpec → MoeConfig → Fraction → Deployment → ℕ → Op
routed_op r m e tokens_total dep count =
    let shard = dep.tp * dep.ep in
    let n = int_of tokens_total in
    let hot = r.active_on 0 n shard in
    let tokens =
      if r.is_skewed
      then ratio (tokens_total.over * hot_member_factor e shard)
          (tokens_total.under * sum (λ p. p) e.popularity)
      else tokens_total in
    let wread =
      if r.is_skewed
      then ratio (hot.over * shard * expert_params m e) hot.under
      else ratio ((r.active n).over * expert_params m e) (r.active n).under in
    linear "moe_routed" tokens (e.top_k * expert_params m e) m.d_model m.d_model dep count moe_work
      (some wread) (some shard)

unfoldable pub exchange_ops : Routing → ModelSpec → MoeConfig → Fraction → Deployment → ℕ → List Op
exchange_ops r m e tokens dep count =
    let payload =
      ratio (tokens.over * e.top_k * m.d_model * quarter_bytes dep.act_dtype)
        (tokens.under * 4 * dep.tp) in
    let weights = if r.is_skewed then some (member_popularity e (dep.tp * dep.ep)) else none in
    if ltb 1 dep.ep
    then comm_op "moe_dispatch" alltoall dep.act_dtype count payload weights
      ∷ comm_op "moe_combine" alltoall dep.act_dtype count payload weights
      ∷ []
    else []

unfoldable pub shared_ops : ModelSpec → MoeConfig → Fraction → Deployment → ℕ → List Op
shared_ops m e tokens dep count =
    let params = shared_expert_params m e in
    if params == 0
    then []
    else linear "moe_shared" tokens params m.d_model m.d_model dep count moe_work none none ∷ []

unfoldable pub ffn_of :
    Option MoeConfig
    → Routing
    → ModelSpec
    → (tokens_per_group tokens_total : Fraction) → Deployment
    → ℕ
    → List Op
ffn_of none r m tokens_per_group tokens_total dep count = dense_ffn_ops m tokens_total dep count
ffn_of (some e) r m tokens_per_group tokens_total dep count =
    routed_op r m e tokens_total dep count ∷ exchange_ops r m e tokens_per_group dep count
    ++ shared_ops m e tokens_per_group dep count

unfoldable pub ffn_ops :
    Routing → ModelSpec → (tokens_per_group tokens_total : Fraction) → Deployment → ℕ → List Op
ffn_ops r m = ffn_of m.moe r m

unfoldable pub allreduce_op : Fraction → ModelSpec → Deployment → ℕ → Op
allreduce_op tokens m dep count =
    comm_op "allreduce" allreduce dep.act_dtype count (hidden_bytes m tokens dep 1) none

unfoldable pub pipeline_hops : Fraction → ModelSpec → Deployment → ℕ → List Op
pipeline_hops tokens m dep count =
    if leb dep.pp 1 || ltb count 1
    then []
    else comm_op "pp_hop" p2p dep.act_dtype count (hidden_bytes m tokens dep dep.tp) none ∷ []

unfoldable pub embed : ModelSpec → Fraction → Deployment → ℕ → Op
embed m tokens dep count = record {
  name = "embed";
  kind = compute;
  dtype = dep.weight_dtype;
  category = head_work;
  count = count;
  flops = whole 0;
  dram_read = ratio (tokens.over * m.d_model * quarter_bytes dep.weight_dtype) (tokens.under * 4);
  dram_write = hidden_bytes m tokens dep 1;
  comm_bytes = whole 0;
  member_weights = none;
}

unfoldable pub lm_head : ModelSpec → Fraction → Deployment → ℕ → Op
lm_head m tokens dep count =
    linear "lm_head" tokens (m.vocab_size * m.d_model) m.d_model m.vocab_size dep count head_work
      none none

-- What a layer does with its tokens, and the hops between stages; the attention stands between the two
-- projections.
unfoldable pub layer_ops :
    Routing
    → ModelSpec
    → Deployment
    → (per_group total : Fraction) (attention : List Op) (hops : ℕ) → List Op
layer_ops r m dep per_group total attention hops =
    linear "qkv_proj" per_group (attn_qkv_params m) m.d_model (qkv_proj_out_dim m) dep m.n_layers
        linear_work none none
      ∷ attention
    ++ linear "out_proj" per_group (attn_out_params m) (out_proj_in_dim m) m.d_model dep m.n_layers
        linear_work none none
      ∷ ffn_ops r m per_group total dep m.n_layers
    ++ allreduce_op per_group m dep (allreduces_per_layer m dep * m.n_layers)
      ∷ pipeline_hops per_group m dep hops

-- Sequences per attention group.
unfoldable pub group_share : Deployment → Fraction → Fraction
group_share dep batch = ratio batch.over (batch.under * (dep.pp * dep.ep * dep.adp))

unfoldable pub decode_attention_ops : ModelSpec → Deployment → (batch ctx : Fraction) → List Op
decode_attention_ops m dep batch ctx =
    attention_ops m (group_share dep batch) 1 ctx false dep m.n_layers 1

-- `none` is the ValueError.
unfoldable pub decode_ops :
    Routing → ModelSpec → Deployment → (batch ctx : Fraction) → Option (List Op)
decode_ops r m dep batch ctx = do
  _ ← validate_deployment m dep
  let b_att = group_share dep batch
  let b_tok = ratio batch.over (batch.under * dep.pp)
  some (
      layer_ops r m dep b_att b_tok (decode_attention_ops m dep batch ctx) dep.pp
      ++ embed m b_att dep dep.pp ∷ lm_head m b_att dep dep.pp ∷ [])

unfoldable pub decode_step_ops : Routing → ModelSpec → Scenario → Deployment → Option (List Op)
decode_step_ops r m s dep = decode_ops r m dep (whole s.batch) (ratio (twice_mean_context s) 2)

unfoldable pub prefill_ops : Routing → ModelSpec → ℕ → Deployment → Option (List Op)
prefill_ops r m n_prompt_tokens dep = do
  _ ← validate_deployment m dep
  let s = whole n_prompt_tokens
  let cp = cp_width m dep
  let s_grp = ratio n_prompt_tokens cp
  let attention =
      attention_ops m (whole 1) n_prompt_tokens s true dep m.n_layers cp
      ++ cp_attention_ring m s dep m.n_layers cp
  some (
      layer_ops r m dep s_grp s attention (dep.pp - 1)
      ++ embed m s_grp dep 1 ∷ lm_head m (whole 1) dep 1 ∷ [])

unfoldable pub prefill_chunk_ops :
    Routing
    → ModelSpec
    → Deployment
    → (chunk prior_context : ℕ) (produce_logits : Bool) → Option (List Op)
prefill_chunk_ops r m dep chunk prior_context produce_logits = do
  _ ← validate_deployment m dep
  let kv_len = whole (prior_context + chunk)
  let cp = cp_width m dep
  let chunk_grp = ratio chunk cp
  let attention =
      attention_ops m (whole 1) chunk kv_len false dep m.n_layers cp
      ++ cp_attention_ring m kv_len dep m.n_layers cp
  some (
      layer_ops r m dep chunk_grp (whole chunk) attention (dep.pp - 1)
      ++ embed m chunk_grp dep 1 ∷ (if produce_logits then lm_head m (whole 1) dep 1 ∷ [] else []))
