-- ===== src/Ops/Work.antt =====
-- inferencesim/ops.py: the work of the matrices in a decode round, over all chips.
use mathlib.Core.Option.{none-ne-some, some-injective}
use inferencesim.Prelude.{
  ℕ, ◌+◌, ◌*◌, min, ◌≡◌, ◌≤◌, refl, sym, ap, ◌∙◌, subst, Bool, true, false, ◌||◌, List, [], String,
  ◌∷◌, ◌++◌, Option, none, some, ltb, leb, ◌==◌, if◌then◌else◌, arith, Bool-cases, inl, inr, All,
  bind-some,
}
use inferencesim.Workload.Model.{
  ModelSpec, MlaConfig, n_swa_layers, n_full_attn_layers, Deployment, attn_qkv_params,
  qkv_proj_out_dim, attn_out_params, out_proj_in_dim, ffn_params_total, replica_chips,
}
use inferencesim.Ops.{Fraction, is_moe, validate_deployment, allreduces_per_layer}
use inferencesim.Ops.Lower.{
  Category, linear_work, Op, Routing, ratio, whole, plus, or_else, linear, kv_attention, attention,
  swa_attention, mla_attention, attention_of, attention_ops, comm_op,
}
use inferencesim.Ops.Passes.{
  ffn_collective, dense_ffn_ops, ffn_of, ffn_ops, allreduce_op, pipeline_hops, embed, lm_head,
  layer_ops, group_share, decode_attention_ops, decode_ops,
}
use inferencesim.Ops.Reads.{IsSameRatio}

abbrev is_linear : Category → Bool
is_linear linear_work = true
is_linear _ = false

-- The flops of the operations of the category `linear`, each as often as it counts.
abbrev pub linear_flops : List Op → Fraction
linear_flops [] = whole 0
linear_flops (op ∷ ops) =
    if is_linear op.category
    then plus (ratio (op.count * op.flops.over) op.flops.under) (linear_flops ops)
    else linear_flops ops

-- Operations of other categories do not count.
abbrev IsOther : List Op → Type 0
IsOther = All (λ (op : Op). is_linear op.category ≡ false)

linear_flops-append : (xs ys : List Op) → IsOther xs → linear_flops (xs ++ ys) ≡ linear_flops ys
linear_flops-append [] ys h = refl
linear_flops-append (x ∷ xs) ys (h, hs) = rw h (linear_flops-append xs ys hs)

swa-IsOther :
    (m : ModelSpec) (n_seq : Fraction) (q_len : ℕ) (kv_len : Fraction) (causal : Bool)
    (dep : Deployment) (count cp : ℕ)
    → is_linear (swa_attention m n_seq q_len kv_len causal dep count cp).category ≡ false
unfolding swa_attention kv_attention
swa-IsOther m n_seq q_len kv_len true dep count cp = refl
swa-IsOther m n_seq q_len kv_len false dep count cp = refl

linear_flops-tail : (xs ys : List Op) → IsOther ys → linear_flops (xs ++ ys) ≡ linear_flops xs
linear_flops-tail [] [] h = refl
linear_flops-tail [] (y ∷ ys) (h, hs) = rw h (linear_flops-tail [] ys hs)
linear_flops-tail (x ∷ xs) ys h = rw (linear_flops-tail xs ys h) refl

attention_of-IsOther :
    (o : Option MlaConfig) (m : ModelSpec) (n_seq : Fraction) (q_len : ℕ) (kv_len : Fraction)
    (causal : Bool) (dep : Deployment) (count cp : ℕ)
    → IsOther (attention_of o m n_seq q_len kv_len causal dep count cp)
unfolding attention_of mla_attention attention kv_attention
attention_of-IsOther (some a) m n_seq q_len kv_len causal dep count cp = (refl, tt)
attention_of-IsOther none m n_seq q_len kv_len causal dep count cp =
    let windows = swa-IsOther m n_seq q_len kv_len causal dep (n_swa_layers m) cp in
    elim (Bool-cases (n_swa_layers m == 0)) [
      | inl e ↦ rw e (refl, tt)
      | inr e ↦ elim (Bool-cases (n_full_attn_layers m == 0)) [
        | inl f ↦ rw (e, f) (windows, tt)
        | inr f ↦ rw (e, f) (refl, (windows, tt))
      ]
    ]

collective-IsOther :
    (name : String) (m : ModelSpec) (tokens : Fraction) (dep : Deployment) (count : ℕ)
    → IsOther (ffn_collective name m tokens dep count)
unfolding ffn_collective comm_op
collective-IsOther name m tokens dep count = elim (Bool-cases (leb dep.adp 1)) [
  | inl e ↦ rw e tt
  | inr e ↦ rw e (refl, tt)
]

hops-IsOther :
    (tokens : Fraction) (m : ModelSpec) (dep : Deployment) (count : ℕ)
    → IsOther (pipeline_hops tokens m dep count)
unfolding pipeline_hops comm_op
hops-IsOther tokens m dep count = elim (Bool-cases (leb dep.pp 1 || ltb count 1)) [
  | inl e ↦ rw e tt
  | inr e ↦ rw e (refl, tt)
]

-- One operation of the category, as often as it counts.
abbrev part : Op → Fraction
part op = ratio (op.count * op.flops.over) op.flops.under

dense-flops :
    (m : ModelSpec) (tokens : Fraction) (dep : Deployment) (count : ℕ)
    → linear_flops (dense_ffn_ops m tokens dep count)
      ≡ plus
          (part (
            linear "ffn" tokens
              (ffn_params_total m)
              m.d_model
              m.d_model
              dep
              count
              linear_work
              none
              (some (dep.tp * dep.adp))))
          (whole 0)
unfolding dense_ffn_ops linear
dense-flops m tokens dep count =
    let ffn =
      linear "ffn" tokens (ffn_params_total m) m.d_model m.d_model dep count linear_work none
        (some (dep.tp * dep.adp)) in
    let scatter = ffn_collective "ffn_scatter" m tokens dep count in
    linear_flops-append (ffn_collective "ffn_gather" m tokens dep count) (ffn ∷ scatter)
      (collective-IsOther "ffn_gather" m tokens dep count)
    ∙ ap (plus (part ffn))
        (linear_flops-tail [] scatter (collective-IsOther "ffn_scatter" m tokens dep count))

one_group :
    (m : ModelSpec) (dep d : Deployment)
    → m.moe ≡ none
    → validate_deployment m dep ≡ some d
    → dep.ep ≡ 1
unfolding validate_deployment is_moe
one_group m dep d h v =
    let dense : is_moe m.moe ≡ false = ap is_moe h in
    elim (Bool-cases (ltb (min (min dep.tp dep.pp) (min dep.ep dep.adp)) 1)) [
      | inl e ↦ absurd (none-ne-some d (rw e at v))
      | inr e ↦
          let positive : 1 ≤ dep.ep = ground arith in
          elim (Bool-cases (ltb 1 dep.ep)) [
            | inl f ↦ absurd (none-ne-some d (rw (e, f, dense) at v))
            | inr f ↦ ground arith
          ]
    ]

conserved :
    (bo bu tp pp adp L q o f : ℕ)
    → let g = bu * (pp * 1 * adp) in
      IsSameRatio
        (let s = plus (ratio (L * (2 * bo * q)) (g * tp)) (
            plus
              (ratio (L * (2 * bo * o)) (g * tp))
              (plus (ratio (L * (2 * bo * f)) (bu * pp * (tp * adp))) (whole 0))) in
          ratio (tp * pp * 1 * adp * s.over) s.under)
        (ratio (2 * bo * (L * (q + o + f))) bu)
unfolding plus whole
conserved bo bu tp pp adp L q o f = omega arith

conserved_at :
    (bo bu tp pp ep adp L q o f : ℕ)
    → ep ≡ 1
    → let g = bu * (pp * ep * adp) in
      IsSameRatio
        (let s = plus (ratio (L * (2 * bo * q)) (g * tp)) (
            plus
              (ratio (L * (2 * bo * o)) (g * tp))
              (plus (ratio (L * (2 * bo * f)) (bu * pp * (tp * adp))) (whole 0))) in
          ratio (tp * pp * ep * adp * s.over) s.under)
        (ratio (2 * bo * (L * (q + o + f))) bu)
conserved_at bo bu tp pp ep adp L q o f e = rw e (conserved bo bu tp pp adp L q o f)

module _ (r : Routing) (m : ModelSpec) (dep : Deployment) (group total : Fraction) where
  abbrev qkv_op : Op
  qkv_op =
      linear "qkv_proj" group (attn_qkv_params m) m.d_model (qkv_proj_out_dim m) dep m.n_layers
        linear_work none none

  abbrev out_op : Op
  out_op =
      linear "out_proj" group (attn_out_params m) (out_proj_in_dim m) m.d_model dep m.n_layers
        linear_work none none

  abbrev ffn_op : Op
  ffn_op =
      linear "ffn" total (ffn_params_total m) m.d_model m.d_model dep m.n_layers linear_work none
        (some (dep.tp * dep.adp))

  layer-flops :
      (att : List Op) (hops : ℕ)
      → IsOther att
      → m.moe ≡ none
      → linear_flops (layer_ops r m dep group total att hops)
        ≡ plus (part qkv_op) (plus (part out_op) (plus (part ffn_op) (whole 0)))
  unfolding layer_ops ffn_ops ffn_of linear allreduce_op comm_op
  layer-flops att hops other dense =
      let ffn = ffn_ops r m group total dep m.n_layers in
      let rest =
        allreduce_op group m dep (allreduces_per_layer m dep * m.n_layers)
        ∷ pipeline_hops group m dep hops in
      let is_dense : ffn ≡ dense_ffn_ops m total dep m.n_layers =
        ap (λ o. ffn_of o r m group total dep m.n_layers) dense in
      linear_flops-tail (qkv_op ∷ att ++ out_op ∷ ffn) rest (refl, hops-IsOther group m dep hops)
      ∙ ap (plus (part qkv_op)) (
          linear_flops-append att (out_op ∷ ffn) other
          ∙ ap (λ xs. plus (part out_op) (linear_flops xs)) is_dense
          ∙ ap (plus (part out_op)) (dense-flops m total dep m.n_layers))

-- Over all chips of a replica, the operations of the category `linear` in a decode round of a dense model
-- do two flops for each parameter of the layers and each sequence of the batch, whatever the deployment
-- that is valid: what is split over stages, groups and chips is neither lost nor done twice.
pub decode_ops-linear_flops :
    (r : Routing) (m : ModelSpec) (dep : Deployment) (batch ctx : Fraction) (ops : List Op)
    → m.moe ≡ none
    → decode_ops r m dep batch ctx ≡ some ops
    → IsSameRatio (ratio (replica_chips dep * (linear_flops ops).over) (linear_flops ops).under) (
        ratio
          (2
            * batch.over
            * (m.n_layers * (attn_qkv_params m + attn_out_params m + ffn_params_total m)))
          batch.under)
unfolding decode_ops decode_attention_ops attention_ops embed lm_head linear or_else group_share
    replica_chips
decode_ops-linear_flops r m dep batch ctx ops dense h =
    let (d, valid, h1) = bind-some (validate_deployment m dep) _ ops h in
    let one = one_group m dep d dense valid in
    let group = group_share dep batch in
    let total = ratio batch.over (batch.under * dep.pp) in
    let att = decode_attention_ops m dep batch ctx in
    let other = attention_of-IsOther m.mla m group 1 ctx false dep m.n_layers 1 in
    let layers = layer_ops r m dep group total att dep.pp in
    let work =
      ap linear_flops (sym (some-injective _ ops h1))
      ∙ linear_flops-tail layers (embed m group dep dep.pp ∷ lm_head m group dep dep.pp ∷ [])
          (refl, (refl, tt))
      ∙ layer-flops r m dep group total att dep.pp other dense in
    subst
      (λ (w : Fraction). IsSameRatio (ratio (replica_chips dep * w.over) w.under) (
        ratio
          (2
            * batch.over
            * (m.n_layers * (attn_qkv_params m + attn_out_params m + ffn_params_total m)))
          batch.under))
      (sym work)
      (conserved_at batch.over batch.under dep.tp dep.pp dep.ep dep.adp m.n_layers
        (attn_qkv_params m) (attn_out_params m) (ffn_params_total m) one)
