-- ===== src/Simulate.antt =====
-- inferencesim/simulate.py: the weights on a chip and what else its memory holds. Bytes are counted in
-- quarters, and the weights on a chip are a fraction of them.
pub mod Weights
pub mod Examples
use inferencesim.Prelude.{ℕ, ◌+◌, ◌-◌, ◌*◌, Bool, Option, none, some, leb}
use inferencesim.Hardware.{quarter_bytes}
use inferencesim.Workload.Moe.{MoeConfig}
use inferencesim.Workload.Model.{
  ModelSpec, Deployment, attn_params, dense_ffn_params, expert_params, shared_expert_params,
  ffn_params_total, embedding_params,
}
use inferencesim.Ops.{Fraction}

-- The parameters on a chip, over a common denominator.
unfoldable pub weight_params : ModelSpec → Deployment → Option MoeConfig → Fraction
weight_params m dep none = record {
  over =
      embedding_params m * (dep.adp * dep.pp)
      + m.n_layers * attn_params m * dep.adp
      + m.n_layers * ffn_params_total m;
  under = dep.tp * dep.adp * dep.pp;
}
weight_params m dep (some e) =
    let moe_layers = m.n_layers - e.n_dense_layers in
    record {
      over =
          embedding_params m * (dep.ep * dep.pp)
          + m.n_layers * attn_params m * dep.ep
          + moe_layers * shared_expert_params m e * dep.ep
          + moe_layers * (e.n_experts * expert_params m e)
          + e.n_dense_layers * dense_ffn_params m * dep.ep;
      under = dep.tp * dep.ep * dep.pp;
    }

unfoldable pub weight_bytes_per_chip : ModelSpec → Deployment → Fraction
weight_bytes_per_chip m dep =
    let params = weight_params m dep m.moe in
    record { over = params.over * quarter_bytes dep.weight_dtype; under = params.under }

pub record MemoryUsage : Type 0 where
  pub weights : ℕ
  pub kv_cache : ℕ
  pub activations : ℕ
  pub capacity : ℕ

unfoldable pub total : MemoryUsage → ℕ
total u = u.weights + u.kv_cache + u.activations

unfoldable pub fits : MemoryUsage → Bool
fits u = leb (total u) u.capacity
