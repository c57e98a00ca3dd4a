-- ===== src/Engine/Priced.antt =====
-- What the roofline engine needs to price an operation, and that the lowered operations of a valid
-- deployment have it.
use inferencesim.Prelude.{
  ℕ, ◌-◌, ◌*◌, ◌≡◌, ◌<◌, subst, Bool, true, false, ◌||◌, List, [], ◌∷◌, ◌++◌, Option, none, some,
  String, ltb, leb, ◌==◌, if_elim, All, All-append, arith, bind-some,
}
use mathlib.Core.Option.{some-injective}
use inferencesim.Hardware.{DType, Compute, flops}
use inferencesim.Workload.Moe.{MoeConfig}
use inferencesim.Workload.Model.{
  ModelSpec, MlaConfig, n_swa_layers, n_full_attn_layers, shared_expert_params, attn_qkv_params,
  qkv_proj_out_dim, attn_out_params, out_proj_in_dim, Deployment,
}
use inferencesim.Ops.{
  OpKind, compute, allreduce, alltoall, halfring, cp_ring, p2p, Fraction, cp_width,
  allreduces_per_layer, validate_deployment,
}
use inferencesim.Ops.Lower.{
  Op, Routing, ratio, whole, linear, linear_work, moe_work, kv_attention, attention, swa_attention,
  mla_attention, attention_of, attention_ops, comm_op,
}
use inferencesim.Ops.Passes.{
  cp_ring_payload, cp_attention_ring, ffn_collective, dense_ffn_ops, routed_op, exchange_ops,
  shared_ops, ffn_of, ffn_ops, allreduce_op, pipeline_hops, embed, lm_head, group_share, layer_ops,
  decode_attention_ops, decode_ops, prefill_ops, prefill_chunk_ops,
}

-- A compute unit that computes the formats of a deployment, at a rate.
pub record IsRated (c : Compute) (dep : Deployment) : Type 0 where
  pub weights : (r : ℕ) × (flops c dep.weight_dtype ≡ some r) × (0 < r)
  pub activations : (r : ℕ) × (flops c dep.act_dtype ≡ some r) × (0 < r)

module _ (c : Compute) (dep : Deployment) where
  -- A rate for the format of work on the chip, and a group of at least two chips for a message between
  -- two; an allreduce over one chip takes no time.
  abbrev pub Needs : OpKind → DType → Type 0
  Needs compute d = (r : ℕ) × (flops c d ≡ some r) × (0 < r)
  Needs allreduce d = Unit
  Needs alltoall d = 1 < dep.ep
  Needs halfring d = 1 < dep.adp
  Needs cp_ring d = 1 < dep.adp
  Needs p2p d = 1 < dep.pp

  abbrev pub IsPriced : Op → Type 0
  IsPriced op = Needs op.kind op.dtype

  attention_of-IsPriced :
      (o : Option MlaConfig) (m : ModelSpec) (n : Fraction) (q : ℕ) (kv : Fraction) (new : Bool)
      (count cp : ℕ)
      → IsRated c dep
      → All IsPriced (attention_of o m n q kv new dep count cp)
  unfolding attention_of mla_attention attention swa_attention kv_attention
  attention_of-IsPriced (some a) m n q kv new count cp h = (h.activations, tt)
  attention_of-IsPriced none m n q kv true count cp h =
      if_elim (All IsPriced) (n_swa_layers m == 0) (λ _. (h.activations, tt))
        (λ _.
          All-append IsPriced _ _
            (if_elim (All IsPriced) (n_full_attn_layers m == 0) (λ _. tt)
              (λ _. (h.activations, tt)))
            (h.activations, tt))
  attention_of-IsPriced none m n q kv false count cp h =
      if_elim (All IsPriced) (n_swa_layers m == 0) (λ _. (h.activations, tt))
        (λ _.
          All-append IsPriced _ _
            (if_elim (All IsPriced) (n_full_attn_layers m == 0) (λ _. tt)
              (λ _. (h.activations, tt)))
            (h.activations, tt))

  cp_ring-IsPriced :
      (m : ModelSpec) (tokens : Fraction) (count : ℕ)
      → All IsPriced (cp_attention_ring m tokens dep count (cp_width m dep))
  unfolding cp_attention_ring comm_op cp_width
  cp_ring-IsPriced m tokens count =
      if_elim (All IsPriced) (leb (cp_width m dep) 1) {x = []}
        {y = comm_op "cp_kv_ring" cp_ring dep.kv_dtype count (cp_ring_payload m tokens dep) none
          ∷ []}
        (λ _. tt) (λ e. (ground arith, tt))

  ffn_collective-IsPriced :
      (name : String) (m : ModelSpec) (tokens : Fraction) (count : ℕ)
      → All IsPriced (ffn_collective name m tokens dep count)
  unfolding ffn_collective comm_op
  ffn_collective-IsPriced name m tokens count =
      if_elim (All IsPriced) (leb dep.adp 1) (λ _. tt) (λ e. (ground arith, tt))

  ffn_of-IsPriced :
      (o : Option MoeConfig) (r : Routing) (m : ModelSpec) (g t : Fraction) (count : ℕ)
      → IsRated c dep
      → All IsPriced (ffn_of o r m g t dep count)
  unfolding ffn_of dense_ffn_ops routed_op exchange_ops shared_ops linear comm_op
  ffn_of-IsPriced none r m g t count h =
      All-append IsPriced _ _ (ffn_collective-IsPriced "ffn_gather" m t count)
        (h.weights, ffn_collective-IsPriced "ffn_scatter" m t count)
  ffn_of-IsPriced (some e) r m g t count h = (
    h.weights,
    All-append IsPriced _ _
        (if_elim (All IsPriced) (ltb 1 dep.ep) (λ c. (ground arith, (ground arith, tt))) (λ _. tt))
        (if_elim (All IsPriced) (shared_expert_params m e == 0) {x = []}
          {y = linear "moe_shared" g (shared_expert_params m e) m.d_model m.d_model dep count
              moe_work none none
            ∷ []}
          (λ _. tt) (λ _. (h.weights, tt))),
  )

  hops-IsPriced :
      (tokens : Fraction) (m : ModelSpec) (count : ℕ)
      → All IsPriced (pipeline_hops tokens m dep count)
  unfolding pipeline_hops comm_op
  hops-IsPriced tokens m count =
      if_elim (All IsPriced) (leb dep.pp 1 || ltb count 1) (λ _. tt) (λ e. (ground arith, tt))

  abbrev in_proj : ModelSpec → Fraction → Op
  in_proj m g =
      linear "qkv_proj" g (attn_qkv_params m) m.d_model (qkv_proj_out_dim m) dep m.n_layers
        linear_work none none

  abbrev out_proj : ModelSpec → Fraction → Op
  out_proj m g =
      linear "out_proj" g (attn_out_params m) (out_proj_in_dim m) m.d_model dep m.n_layers
        linear_work none none

  layer_ops-IsPriced :
      (r : Routing) (m : ModelSpec) (g t : Fraction) (att : List Op) (hops : ℕ)
      → IsRated c dep
      → All IsPriced att
      → All IsPriced (layer_ops r m dep g t att hops)
  unfolding layer_ops ffn_ops linear allreduce_op comm_op
  layer_ops-IsPriced r m g t att hops h a =
      let ffn = ffn_ops r m g t dep m.n_layers in
      let first = in_proj m g in
      let last = out_proj m g in
      All-append IsPriced ((first ∷ att) ++ (last ∷ ffn))
        (allreduce_op g m dep (allreduces_per_layer m dep * m.n_layers)
          ∷ pipeline_hops g m dep hops)
        (All-append IsPriced (first ∷ att) (last ∷ ffn) (h.weights, a)
          (h.weights, ffn_of-IsPriced m.moe r m g t m.n_layers h))
        (tt, hops-IsPriced g m hops)

  ends-IsPriced :
      (m : ModelSpec) (g t : Fraction) (n k : ℕ)
      → IsRated c dep
      → IsPriced (embed m g dep n) × IsPriced (lm_head m t dep k)
  unfolding embed lm_head linear
  ends-IsPriced m g t n k h = (h.weights, h.weights)

  -- The operations of a decode round, of a prefill and of a chunk have what they need.
  pub decode_ops-IsPriced :
      (r : Routing) (m : ModelSpec) (batch ctx : Fraction) (ops : List Op)
      → IsRated c dep
      → decode_ops r m dep batch ctx ≡ some ops
      → All IsPriced ops
  unfolding decode_ops decode_attention_ops attention_ops
  decode_ops-IsPriced r m batch ctx ops h e =
      let (d, v, e1) = bind-some (validate_deployment m dep) _ ops e in
      subst (All IsPriced) (some-injective _ ops e1) (
        All-append IsPriced _ _
          (layer_ops-IsPriced r m _ _ _ dep.pp h
            (attention_of-IsPriced m.mla m _ 1 ctx false m.n_layers 1 h))
          (let b = group_share dep batch in
            let (e, l) = ends-IsPriced m b b dep.pp dep.pp h in (e, (l, tt))))

  pub prefill_ops-IsPriced :
      (r : Routing) (m : ModelSpec) (n : ℕ) (ops : List Op)
      → IsRated c dep
      → prefill_ops r m n dep ≡ some ops
      → All IsPriced ops
  unfolding prefill_ops attention_ops
  prefill_ops-IsPriced r m n ops h e =
      let (d, v, e1) = bind-some (validate_deployment m dep) _ ops e in
      subst (All IsPriced) (some-injective _ ops e1) (
        All-append IsPriced _ _
          (layer_ops-IsPriced r m _ _ _ (dep.pp - 1) h (
            All-append IsPriced _ _
              (attention_of-IsPriced m.mla m _ n _ true m.n_layers (cp_width m dep) h)
              (cp_ring-IsPriced m _ m.n_layers)))
          (let (e, l) = ends-IsPriced m (ratio n (cp_width m dep)) (whole 1) 1 1 h in (e, (l, tt))))

  pub prefill_chunk_ops-IsPriced :
      (r : Routing) (m : ModelSpec) (chunk prior : ℕ) (logits : Bool) (ops : List Op)
      → IsRated c dep
      → prefill_chunk_ops r m dep chunk prior logits ≡ some ops
      → All IsPriced ops
  unfolding prefill_chunk_ops attention_ops
  prefill_chunk_ops-IsPriced r m chunk prior logits ops h e =
      let (d, v, e1) = bind-some (validate_deployment m dep) _ ops e in
      let (first, last) = ends-IsPriced m (ratio chunk (cp_width m dep)) (whole 1) 1 1 h in
      subst (All IsPriced) (some-injective _ ops e1) (
        All-append IsPriced _ _
          (layer_ops-IsPriced r m _ _ _ (dep.pp - 1) h (
            All-append IsPriced _ _
              (attention_of-IsPriced m.mla m _ chunk _ false m.n_layers (cp_width m dep) h)
              (cp_ring-IsPriced m _ m.n_layers)))
          (
            first,
            if_elim (All IsPriced) logits {x = lm_head m (whole 1) dep 1 ∷ []} {y = []}
                (λ _. (last, tt)) (λ _. tt),
          ))
