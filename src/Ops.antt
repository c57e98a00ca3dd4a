-- ===== src/Ops.antt =====
-- inferencesim/ops.py: the kinds of operations, the check of a deployment, and the KV of a sequence
-- on a chip. A number of bytes is a fraction, its numerator and its denominator kept apart.
pub mod Lower
pub mod Passes
pub mod Reads
pub mod Scores
pub mod Chunks
pub mod Work
pub mod Examples
use inferencesim.Prelude.{
  ℕ, ◌+◌, ◌*◌, min, Bool, true, false, not, ◌&&◌, Option, none, some, ltb, ◌==◌, if◌then◌else◌,
}
use inferencesim.Hardware.{quarter_bytes}
use inferencesim.Workload.Moe.{MoeConfig}
use inferencesim.Workload.Model.{
  ModelSpec, MlaConfig, latent_dim, n_swa_layers, n_full_attn_layers, Deployment,
}

pub data OpKind : Type 0 where
  compute allreduce alltoall halfring cp_ring p2p : OpKind

unfoldable pub is_comm : OpKind → Bool
is_comm compute = false
is_comm _ = true

unfoldable pub is_moe : Option MoeConfig → Bool
is_moe none = false
is_moe (some e) = true

-- `none` is the ValueError.
unfoldable pub validate_deployment : ModelSpec → Deployment → Option Deployment
validate_deployment m dep =
    if ltb (min (min dep.tp dep.pp) (min dep.ep dep.adp)) 1
    then none
    else if ltb 1 dep.ep && not (is_moe m.moe)
    then none
    else if ltb 1 dep.adp && is_moe m.moe
    then none
    else some dep

pub record Fraction : Type 0 where
  pub over : ℕ
  pub under : ℕ

-- `swa_window or 0`
unfoldable pub window_of : Option ℕ → ℕ
window_of none = 0
window_of (some w) = w

-- The bytes of a layer's token, less the denominator.
unfoldable pub per_layer : ModelSpec → Deployment → ℕ
per_layer m dep = 2 * m.n_kv_heads * m.d_head * quarter_bytes dep.kv_dtype

unfoldable pub cached_layers : ModelSpec → ℕ → ℕ
cached_layers m n =
    if n_swa_layers m == 0
    then m.n_layers * n
    else n_full_attn_layers m * n + n_swa_layers m * min n (window_of m.swa_window)

unfoldable pub kv_fraction : ModelSpec → ℕ → Deployment → Option MlaConfig → Fraction
kv_fraction m n_tokens dep none = record {
  over = per_layer m dep * cached_layers m n_tokens;
  under = 4 * min dep.tp m.n_kv_heads * (dep.pp * dep.ep * dep.adp);
}
kv_fraction m n_tokens dep (some a) = record {
  over = m.n_layers * latent_dim a * quarter_bytes dep.kv_dtype * n_tokens;
  under = 4 * (dep.pp * dep.ep * dep.adp);
}

unfoldable pub kv_cache_bytes_per_chip : ModelSpec → ℕ → Deployment → Fraction
kv_cache_bytes_per_chip m n_tokens dep = kv_fraction m n_tokens dep m.mla

unfoldable pub cp_width : ModelSpec → Deployment → ℕ
cp_width m dep = if not (is_moe m.moe) && (dep.cp_prefill && ltb 1 dep.adp) then dep.adp else 1

unfoldable pub allreduces_per_layer : ModelSpec → Deployment → ℕ
allreduces_per_layer m dep =
    if is_moe m.moe && ltb 1 dep.ep then 1 else if not (is_moe m.moe) && ltb 1 dep.adp then 1 else 2
