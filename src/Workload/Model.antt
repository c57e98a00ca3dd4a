-- ===== src/Workload/Model.antt =====
-- inferencesim/workload.py: `MLAConfig`, `ModelSpec`, `Scenario` and `Deployment`. Bytes are counted
-- in quarters, as those of a number format are.
use inferencesim.Prelude.{
  ℕ, ◌+◌, ◌-◌, ◌*◌, ◌/◌, Bool, true, false, Option, none, some, ltb, leb, ◌==◌, if◌then◌else◌,
  String,
}
use inferencesim.Hardware.{DType, quarter_bytes}
use inferencesim.Workload.Moe.{MoeConfig}

pub record MlaConfig : Type 0 where
  pub kv_lora_rank : ℕ
  pub qk_rope_head_dim : ℕ
  pub qk_nope_head_dim : ℕ
  pub v_head_dim : ℕ
  pub q_lora_rank : Option ℕ

unfoldable pub qk_head_dim : MlaConfig → ℕ
qk_head_dim m = m.qk_nope_head_dim + m.qk_rope_head_dim

unfoldable pub latent_dim : MlaConfig → ℕ
latent_dim m = m.kv_lora_rank + m.qk_rope_head_dim

pub record ModelSpec : Type 0 where
  pub name : String
  pub n_layers : ℕ
  pub d_model : ℕ
  pub n_heads : ℕ
  pub n_kv_heads : ℕ
  pub d_head : ℕ
  pub d_ff : ℕ
  pub vocab_size : ℕ
  pub gated_mlp : Bool
  pub moe : Option MoeConfig
  pub tied_embeddings : Bool
  pub swa_window : Option ℕ
  pub swa_every : ℕ
  pub mla : Option MlaConfig

-- `__post_init__`: `none` is the ValueError.
unfoldable pub checked : Option MlaConfig → Option ℕ → ℕ → Bool
checked (some m) (some w) every = false
checked none (some w) every = leb 1 every
checked _ none every = ltb every 1

unfoldable pub make_model : ModelSpec → Option ModelSpec
make_model m = if checked m.mla m.swa_window m.swa_every then some m else none

unfoldable pub swa_layers : Option ℕ → (every n_layers : ℕ) → ℕ
swa_layers none every n_layers = 0
swa_layers (some w) every n_layers = if ltb every 1 then 0 else (n_layers + every - 1) / every

unfoldable pub n_swa_layers : ModelSpec → ℕ
n_swa_layers m = swa_layers m.swa_window m.swa_every m.n_layers

unfoldable pub n_full_attn_layers : ModelSpec → ℕ
n_full_attn_layers m = m.n_layers - n_swa_layers m

unfoldable pub ffn_matrices : ModelSpec → ℕ
ffn_matrices m = if m.gated_mlp then 3 else 2

unfoldable pub dense_ffn_params : ModelSpec → ℕ
dense_ffn_params m = ffn_matrices m * m.d_model * m.d_ff

-- The query projection of latent attention; a rank of 0 is falsy and counts as none.
unfoldable pub query_params : (d_model n_heads head_dim : ℕ) → Option ℕ → ℕ
query_params d_model n_heads head_dim none = d_model * n_heads * head_dim
query_params d_model n_heads head_dim (some rank) =
    if rank == 0 then d_model * n_heads * head_dim else d_model * rank + rank * n_heads * head_dim

unfoldable pub qkv_params : ModelSpec → Option MlaConfig → ℕ
qkv_params m (some a) =
    query_params m.d_model m.n_heads (qk_head_dim a) a.q_lora_rank
    + m.d_model * latent_dim a
    + a.kv_lora_rank * m.n_heads * (a.qk_nope_head_dim + a.v_head_dim)
qkv_params m none = m.d_model * m.n_heads * m.d_head + 2 * m.d_model * m.n_kv_heads * m.d_head

unfoldable pub attn_qkv_params : ModelSpec → ℕ
attn_qkv_params m = qkv_params m m.mla

unfoldable pub out_proj_in_dim : ModelSpec → ℕ
out_proj_in_dim m = elim m.mla [ none ↦ m.n_heads * m.d_head | some a ↦ m.n_heads * a.v_head_dim ]

unfoldable pub attn_out_params : ModelSpec → ℕ
attn_out_params m = elim m.mla [
  | none ↦ m.n_heads * m.d_head * m.d_model
  | some a ↦ m.n_heads * a.v_head_dim * m.d_model
]

unfoldable pub qkv_proj_out_dim : ModelSpec → ℕ
qkv_proj_out_dim m = elim m.mla [
  | none ↦ (m.n_heads + 2 * m.n_kv_heads) * m.d_head
  | some a ↦ m.n_heads * qk_head_dim a + latent_dim a
]

unfoldable pub attn_params : ModelSpec → ℕ
attn_params m = attn_qkv_params m + attn_out_params m

unfoldable pub expert_params : ModelSpec → MoeConfig → ℕ
expert_params m e = ffn_matrices m * m.d_model * e.d_ff_expert

unfoldable pub shared_expert_params : ModelSpec → MoeConfig → ℕ
shared_expert_params m e =
    if e.d_ff_shared == 0 then 0 else ffn_matrices m * m.d_model * e.d_ff_shared

unfoldable pub ffn_params_total : ModelSpec → ℕ
ffn_params_total m = elim m.moe [
  | none ↦ ffn_matrices m * m.d_model * m.d_ff
  | some e ↦ e.n_experts * expert_params m e + shared_expert_params m e
]

unfoldable pub ffn_params_active : ModelSpec → ℕ
ffn_params_active m = elim m.moe [
  | none ↦ ffn_params_total m
  | some e ↦ e.top_k * expert_params m e + shared_expert_params m e
]

unfoldable pub embedding_params : ModelSpec → ℕ
embedding_params m = let n = m.vocab_size * m.d_model in if m.tied_embeddings then n else 2 * n

unfoldable pub n_dense_ffn_layers : ModelSpec → ℕ
n_dense_ffn_layers m = elim m.moe [ none ↦ 0 | some e ↦ e.n_dense_layers ]

-- `_whole_model_params`; the dense layers are at most all of them.
unfoldable pub whole_model_params : ModelSpec → (ffn_active : Bool) → ℕ
whole_model_params m ffn_active =
    let per_ffn = if ffn_active then ffn_params_active m else ffn_params_total m in
    let nd = n_dense_ffn_layers m in
    let layers =
      if nd == 0
      then m.n_layers * (attn_params m + per_ffn)
      else (m.n_layers - nd) * (attn_params m + per_ffn)
        + nd * (attn_params m + dense_ffn_params m) in
    layers + embedding_params m

unfoldable pub total_params : ModelSpec → ℕ
total_params m = whole_model_params m false

unfoldable pub active_params : ModelSpec → ℕ
active_params m = whole_model_params m true

unfoldable pub weight_bytes : ModelSpec → DType → ℕ
weight_bytes m d = total_params m * quarter_bytes d

unfoldable pub kv_bytes_per_token : ModelSpec → DType → ℕ
kv_bytes_per_token m d = elim m.mla [
  | none ↦ m.n_layers * 2 * m.n_kv_heads * m.d_head * quarter_bytes d
  | some a ↦ m.n_layers * latent_dim a * quarter_bytes d
]

pub record Scenario : Type 0 where
  pub batch : ℕ
  pub prompt_len : ℕ
  pub output_len : ℕ

-- Twice the mean, which is a half of a token where the output is odd.
unfoldable pub twice_mean_context : Scenario → ℕ
twice_mean_context s = 2 * s.prompt_len + s.output_len

unfoldable pub max_context : Scenario → ℕ
max_context s = s.prompt_len + s.output_len

pub record Deployment : Type 0 where
  pub tp : ℕ
  pub pp : ℕ
  pub ep : ℕ
  pub adp : ℕ
  pub weight_dtype : DType
  pub kv_dtype : DType
  pub act_dtype : DType
  pub cp_prefill : Bool
  pub overlap_comm : Bool

unfoldable pub replica_chips : Deployment → ℕ
replica_chips d = d.tp * d.pp * d.ep * d.adp
