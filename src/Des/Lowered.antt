-- ===== src/Des/Lowered.antt =====
-- The operations of a prefill of a dense model on one stage.
use text.Mathlib.Text.{◌==◌ as same_text}
use mathlib.Core.Option.{some-injective}
use inferencesim.Prelude.{
  ℕ, ◌*◌, ◌-◌, ◌≡◌, refl, sym, ◌∙◌, Bool, true, false, List, [], ◌∷◌, ◌++◌, Option, none, some,
  arith, bind-some,
}
use inferencesim.Workload.Model.{
  ModelSpec, MlaConfig, Deployment, n_swa_layers, ffn_params_total, attn_qkv_params,
  qkv_proj_out_dim, attn_out_params, out_proj_in_dim,
}
use inferencesim.Ops.{
  is_comm, is_moe, Fraction, cp_width, allreduces_per_layer, validate_deployment,
}
use inferencesim.Ops.Lower.{
  Op, Routing, linear_work, ratio, whole, linear, attention, kv_attention, mla_attention,
  attention_of, attention_ops, comm_op,
}
use inferencesim.Ops.Passes.{
  cp_attention_ring, ffn_collective, dense_ffn_ops, ffn_of, ffn_ops, allreduce_op, pipeline_hops,
  embed, lm_head, layer_ops, prefill_ops,
}
use inferencesim.Des.Costs.{to_attn, to_ffn, bucket_of, is_attention}
use inferencesim.Des.Dense.{IsOp, DenseOps}

-- A dense model without windowed layers, on one stage and one attention group.
pub record IsSerial (m : ModelSpec) (dep : Deployment) : Type 0 where
  pub dense : m.moe ≡ none
  pub no_window : n_swa_layers m ≡ 0
  pub one_stage : dep.pp ≡ 1
  pub one_group : dep.adp ≡ 1

-- What can be read of an operation by itself.
IsOp-self :
    (op : Op)
    → is_comm op.kind ≡ same_text op.name "allreduce"
    → IsOp
        (bucket_of op)
        op.count
        (is_attention op.category)
        (same_text op.name "qkv_proj")
        (same_text op.name "allreduce")
        op
IsOp-self op s = record {
  bucket = refl;
  counted = refl;
  attending = refl;
  leading = refl;
  reducing = refl;
  sending = s;
}

one_attention :
    (o : Option MlaConfig) (m : ModelSpec) (n_seq : Fraction) (q_len : ℕ) (kv_len : Fraction)
    (causal : Bool) (dep : Deployment) (count cp : ℕ)
    → n_swa_layers m ≡ 0
    → (op : Op) × (attention_of o m n_seq q_len kv_len causal dep count cp ≡ op ∷ [])
      × IsOp to_attn count true false false op
unfolding attention_of mla_attention attention kv_attention bucket_of is_attention is_comm
one_attention none m n_seq q_len kv_len causal dep count cp w =
    (attention m n_seq q_len kv_len causal dep count cp, rw w refl, IsOp-self _ refl)
one_attention (some a) m n_seq q_len kv_len causal dep count cp w =
    (mla_attention a m n_seq q_len kv_len causal dep count cp, refl, IsOp-self _ refl)

module _ (r : Routing) (m : ModelSpec) (dep : Deployment) (h : IsSerial m dep) where
  dense_ffn :
      (per_group total : Fraction) (count : ℕ)
      → (op : Op) × (ffn_ops r m per_group total dep count ≡ op ∷ [])
        × IsOp to_ffn count false false false op
  unfolding ffn_ops ffn_of dense_ffn_ops ffn_collective linear bucket_of is_attention is_comm
  dense_ffn per_group total count = (
    linear "ffn" total (ffn_params_total m) m.d_model m.d_model dep count linear_work none
        (some (dep.tp * dep.adp)),
    rw (h.dense, h.one_group) refl,
    IsOp-self _ refl,
  )

  two_allreduces : allreduces_per_layer m dep ≡ 2
  unfolding allreduces_per_layer is_moe
  two_allreduces = rw (h.dense, h.one_group) refl

  one_context : cp_width m dep ≡ 1
  unfolding cp_width is_moe
  one_context = rw (h.dense, h.one_group) (ground arith)

  no_ring : (tokens : Fraction) → cp_attention_ring m tokens dep m.n_layers (cp_width m dep) ≡ []
  unfolding cp_attention_ring
  no_ring tokens = rw one_context refl

  no_hops : (tokens : Fraction) (count : ℕ) → pipeline_hops tokens m dep count ≡ []
  unfolding pipeline_hops
  no_hops tokens count = rw h.one_stage refl

  layer_ops-dense :
      (per_group total : Fraction) (attention : List Op) (hops : ℕ) (att ffn : Op) (tail : List Op)
      → attention ≡ att ∷ []
      → ffn_ops r m per_group total dep m.n_layers ≡ ffn ∷ []
      → layer_ops r m dep per_group total attention hops ++ tail
        ≡ linear "qkv_proj" per_group
            (attn_qkv_params m)
            m.d_model
            (qkv_proj_out_dim m)
            dep
            m.n_layers
            linear_work
            none
            none
          ∷ att
          ∷ linear "out_proj" per_group
              (attn_out_params m)
              (out_proj_in_dim m)
              m.d_model
              dep
              m.n_layers
              linear_work
              none
              none
          ∷ ffn
          ∷ allreduce_op per_group m dep (2 * m.n_layers)
          ∷ tail
  unfolding layer_ops
  layer_ops-dense per_group total attention hops att ffn tail a f =
      rw (a, f, no_hops per_group hops, two_allreduces) refl

  -- The operations of a prefill.
  pub prefill_ops-dense :
      (n : ℕ) (ops : List Op) → prefill_ops r m n dep ≡ some ops → DenseOps m.n_layers ops
  unfolding prefill_ops linear embed lm_head allreduce_op comm_op bucket_of is_attention is_comm
      attention_ops
  prefill_ops-dense n ops e =
      let (v, valid, q) = bind-some (validate_deployment m dep) _ ops e in
      let cp = cp_width m dep in
      let per_group = ratio n cp in
      let (att, a, is_att) =
        one_attention m.mla m (whole 1) n (whole n) true dep m.n_layers cp h.no_window in
      let (ffn, f, is_ffn) = dense_ffn per_group (whole n) m.n_layers in
      record {
        qkv =
            linear "qkv_proj" per_group (attn_qkv_params m) m.d_model (qkv_proj_out_dim m) dep
              m.n_layers linear_work none none;
        att = att;
        out =
            linear "out_proj" per_group (attn_out_params m) (out_proj_in_dim m) m.d_model dep
              m.n_layers linear_work none none;
        ffn = ffn;
        ar = allreduce_op per_group m dep (2 * m.n_layers);
        em = embed m per_group dep 1;
        hd = lm_head m (whole 1) dep 1;
        listed =
            sym (some-injective _ ops q)
            ∙ layer_ops-dense per_group (whole n) _ (dep.pp - 1) att ffn _
                (rw (a, no_ring (whole n)) refl) f;
        is_qkv = IsOp-self _ refl;
        is_att = is_att;
        is_out = IsOp-self _ refl;
        is_ffn = is_ffn;
        is_ar = IsOp-self _ refl;
        is_em = IsOp-self _ refl;
        is_hd = IsOp-self _ refl;
        ring = refl;
      }
