-- ===== src/Ops/Reads.antt =====
-- inferencesim/ops.py: what the attention of a decode round reads, against the KV cache on a chip.
use inferencesim.Prelude.{
  ℕ, ◌*◌, min, ◌≡◌, refl, false, List, [], ◌∷◌, Option, none, some, leb, ◌==◌, arith, Bool-cases,
  inl, inr,
}
use inferencesim.Workload.Model.{ModelSpec, MlaConfig, n_swa_layers, n_full_attn_layers, Deployment}
use inferencesim.Ops.{
  Fraction, window_of, per_layer, cached_layers, kv_fraction, kv_cache_bytes_per_chip,
}
use inferencesim.Ops.Lower.{
  Op, ratio, whole, plus, at_most, kv_traffic, kv_attention, attention, swa_attention,
  latent_traffic, mla_attention, attention_of, attention_ops,
}
use inferencesim.Ops.Passes.{group_share, decode_attention_ops}

-- Two fractions of one value.
abbrev pub IsSameRatio : Fraction → Fraction → Type 0
IsSameRatio p q = p.over * q.under ≡ q.over * p.under

-- What operations read together, each as often as it counts.
abbrev pub total_read : List Op → Fraction
total_read [] = whole 0
total_read (op ∷ ops) =
    plus (ratio (op.count * op.dram_read.over) op.dram_read.under) (total_read ops)

at_most-min : (n w : ℕ) → at_most (whole n) w ≡ whole (min n w)
unfolding at_most whole
at_most-min n w = elim (Bool-cases (leb (w * 1) n)) [
  | inl e ↦ let low : min n w ≡ w = ground arith in rw (e, low) refl
  | inr e ↦ let low : min n w ≡ n = ground arith in rw (e, low) refl
]

module _ (m : ModelSpec) (dep : Deployment) (batch : Fraction) (n : ℕ) where
  abbrev pub of_batch : Fraction → Fraction
  of_batch q = ratio (batch.over * q.over) (batch.under * q.under)

  reads :
      (o : Option MlaConfig)
      → IsSameRatio
          (total_read (attention_of o m (group_share dep batch) 1 (whole n) false dep m.n_layers 1))
          (of_batch (kv_fraction m n dep o))
  unfolding attention_of kv_fraction per_layer cached_layers mla_attention latent_traffic attention
      kv_attention kv_traffic swa_attention plus group_share whole
  reads (some a) = omega arith
  reads none = elim (Bool-cases (n_swa_layers m == 0)) [
    | inl e ↦ rw e (omega arith)
    | inr e ↦
        let low = at_most-min n (window_of m.swa_window) in
        elim (Bool-cases (n_full_attn_layers m == 0)) [
          | inl f ↦
              let no_full : n_full_attn_layers m ≡ 0 = ground arith in
              rw (e, f, low, no_full) (omega arith)
          | inr f ↦ rw (e, f, low) (omega arith)
        ]
  ]

-- A decode round reads from the DRAM of a chip what `kv_cache_bytes_per_chip` says that the chip holds
-- for the batch, whole or not: all of its KV cache, once, with latents, windows and neither.
pub decode_attention_ops-kv_cache_bytes_per_chip :
    (m : ModelSpec) (dep : Deployment) (batch : Fraction) (n : ℕ)
    → IsSameRatio
        (total_read (decode_attention_ops m dep batch (whole n)))
        (of_batch m dep batch n (kv_cache_bytes_per_chip m n dep))
unfolding decode_attention_ops attention_ops kv_cache_bytes_per_chip
decode_attention_ops-kv_cache_bytes_per_chip m dep batch n = reads m dep batch n m.mla
