-- ===== src/Des/Dense.antt =====
-- The layer costs and the plan that des.py reads off the operations of a dense model.
use text.Mathlib.Text.{◌==◌ as same_text}
use native.Mathlib.Nat.{mul-div_cancel}
use inferencesim.Prelude.{
  String, ℕ, ◌+◌, ◌*◌, ◌/◌, ◌≡◌, ◌<◌, refl, ap, ◌∙◌, max, Bool, true, false, List, [], ◌∷◌, some,
  ltb, sum, All, arith, ◌>>=◌,
}
use inferencesim.Hardware.{Chip}
use inferencesim.Ops.{allreduce, is_comm}
use inferencesim.Ops.Lower.{Op}
use inferencesim.Engine.Timing.{Efficiency, CommContext, payload_of}
use inferencesim.Des.Stage.{LayerCosts}
use inferencesim.Des.Costs.{
  Bucket, to_attn, to_ffn, to_allreduce, to_edge, is_skipped, bucket_of, is_attention, attn_share,
  charge, charge_all, time_once, round_even, count_allreduces, no_costs, layer_costs, payload_named,
}
use inferencesim.Des.Charged.{one_of, HasOne, charge_all-cons, charge_all-nil, round_even-mul}

-- What `_costs` reads of an operation.
pub record IsOp (b : Bucket) (n : ℕ) (attends leads reduces : Bool) (op : Op) : Type 0 where
  pub bucket : bucket_of op ≡ b
  pub counted : op.count ≡ n
  pub attending : is_attention op.category ≡ attends
  pub leading : same_text op.name "qkv_proj" ≡ leads
  pub reducing : same_text op.name "allreduce" ≡ reduces
  pub sending : is_comm op.kind ≡ reduces

-- The operations of `layers` layers of a dense model on one stage, with two allreduces a layer.
pub record DenseOps (layers : ℕ) (ops : List Op) : Type 0 where
  pub qkv : Op
  pub att : Op
  pub out : Op
  pub ffn : Op
  pub ar : Op
  pub em : Op
  pub hd : Op
  pub listed : ops ≡ qkv ∷ att ∷ out ∷ ffn ∷ ar ∷ em ∷ hd ∷ []
  pub is_qkv : IsOp to_attn layers false true false qkv
  pub is_att : IsOp to_attn layers true false false att
  pub is_out : IsOp to_attn layers false false false out
  pub is_ffn : IsOp to_ffn layers false false false ffn
  pub is_ar : IsOp to_allreduce (2 * layers) false false true ar
  pub is_em : IsOp to_edge 1 false false false em
  pub is_hd : IsOp to_edge 1 false false false hd
  pub ring : ar.kind ≡ allreduce

module _ (op : Op) (ops : List Op) where
  count_other :
      (c : LayerCosts)
      → same_text op.name "allreduce" ≡ false
      → count_allreduces (op ∷ ops) c ≡ count_allreduces ops c
  unfolding count_allreduces
  count_other c q = rw q refl

  count_allreduce :
      (c : LayerCosts)
      → same_text op.name "allreduce" ≡ true
      → ltb 0 c.n_layers ≡ true
      → count_allreduces (op ∷ ops) c
        ≡ count_allreduces ops (record c { n_allreduce = max 1 (round_even op.count c.n_layers) })
  unfolding count_allreduces
  count_allreduce c q l = rw (q, l) refl

  other_payload :
      (name : String) (found : ℕ)
      → is_comm op.kind ≡ false
      → payload_named name (op ∷ ops) found ≡ payload_named name ops found
  unfolding payload_named
  other_payload name found q = rw q refl

  own_payload :
      (found : ℕ)
      → is_comm op.kind ≡ true
      → same_text op.name "allreduce" ≡ true
      → payload_named "allreduce" (op ∷ ops) found ≡ payload_named "allreduce" ops (payload_of op)
  unfolding payload_named
  own_payload found q r = rw (q, r) refl

count_none : (c : LayerCosts) → count_allreduces [] c ≡ c
unfolding count_allreduces
count_none c = refl

distribute :
    (n q a o f r m k : ℕ)
    → n * (q + a + o + (0 + f + 2 * r)) + (0 + m + k)
      ≡ n * q + (n * a + (n * o + (n * f + (2 * n * r + (1 * m + (1 * k + 0))))))
distribute n q a o f r m k = omega arith

no_payload : (found : ℕ) → payload_named "allreduce" [] found ≡ found
unfolding payload_named
no_payload found = refl

module _ (e : Efficiency) (chip : Chip) (comm : CommContext) (layers : ℕ) (ops : List Op)
    (d : DenseOps layers ops) where
  abbrev pub one : Op → ℕ
  one = one_of e chip comm

  -- After the first loop.
  abbrev pub charged : LayerCosts
  charged = charge to_edge d.hd (one d.hd) (
      charge to_edge d.em (one d.em) (
        charge to_allreduce d.ar (one d.ar) (
          charge to_ffn d.ffn (one d.ffn) (
            charge to_attn d.out (one d.out)
              (charge to_attn d.att (one d.att) (charge to_attn d.qkv (one d.qkv) no_costs))))))

  abbrev pub dense_costs : LayerCosts
  dense_costs = record charged { n_allreduce = max 1 (round_even d.ar.count charged.n_layers) }

  pub charged_layers : charged.n_layers ≡ layers
  unfolding charge
  charged_layers = rw (d.is_out.leading, d.is_att.leading, d.is_qkv.leading) d.is_qkv.counted

  pub some_layers : 0 < layers → ltb 0 charged.n_layers ≡ true
  some_layers h = ground (arith, charged_layers)

  charge_all-dense :
      All (HasOne e chip comm) ops → charge_all e chip comm ops no_costs ≡ some charged
  unfolding is_skipped
  charge_all-dense h =
      let (q, (a, (o, (f, (r, (m, (k, _))))))) = rw d.listed at h in
      ap (λ ops. charge_all e chip comm ops no_costs) d.listed
      ∙ charge_all-cons e chip comm to_attn d.qkv _ _ d.is_qkv.bucket refl q
      ∙ charge_all-cons e chip comm to_attn d.att _ _ d.is_att.bucket refl a
      ∙ charge_all-cons e chip comm to_attn d.out _ _ d.is_out.bucket refl o
      ∙ charge_all-cons e chip comm to_ffn d.ffn _ _ d.is_ffn.bucket refl f
      ∙ charge_all-cons e chip comm to_allreduce d.ar _ _ d.is_ar.bucket refl r
      ∙ charge_all-cons e chip comm to_edge d.em _ _ d.is_em.bucket refl m
      ∙ charge_all-cons e chip comm to_edge d.hd _ _ d.is_hd.bucket refl k
      ∙ charge_all-nil e chip comm charged

  count_allreduces-dense : 0 < layers → count_allreduces ops charged ≡ dense_costs
  count_allreduces-dense h =
      ap (λ ops. count_allreduces ops charged) d.listed
      ∙ count_other d.qkv _ _ d.is_qkv.reducing
      ∙ count_other d.att _ _ d.is_att.reducing
      ∙ count_other d.out _ _ d.is_out.reducing
      ∙ count_other d.ffn _ _ d.is_ffn.reducing
      ∙ count_allreduce d.ar _ _ d.is_ar.reducing (some_layers h)
      ∙ count_other d.em _ _ d.is_em.reducing
      ∙ count_other d.hd _ _ d.is_hd.reducing
      ∙ count_none dense_costs

  pub layer_costs-dense :
      0 < layers → All (HasOne e chip comm) ops → layer_costs e chip comm ops ≡ some dense_costs
  unfolding layer_costs
  layer_costs-dense h all =
      ap (λ c. c >>= λ c. some (count_allreduces ops c)) (charge_all-dense all)
      ∙ ap some (count_allreduces-dense h)

  pub round_dense : 0 < layers → dense_costs.n_allreduce ≡ 2
  round_dense h =
      ap (λ n. max 1 (round_even n charged.n_layers)) d.is_ar.counted
      ∙ ap (λ n. max 1 (round_even (2 * layers) n)) charged_layers
      ∙ ap (λ n. max 1 n) (round_even-mul 2 layers h)

  -- The shares of the attention, of which each layer has one.
  charged_attn : 0 < layers → charged.attn ≡ one d.qkv + one d.att + one d.out
  unfolding charge attn_share time_once
  charged_attn h =
      rw
        (
          d.is_qkv.attending, d.is_att.attending, d.is_out.attending, d.is_qkv.leading,
          d.is_qkv.counted, d.is_att.counted,
        )
        (omega (arith, shared (one d.att) layers h))
    where
      shared : (a n : ℕ) → 0 < n → a * n / max n 1 ≡ a
      shared a n h = let m : max n 1 ≡ n = omega arith in rw m (mul-div_cancel a h)

  -- The time of all the layers and of the edges is that of all instances.
  pub dense_total :
      0 < layers
      → layers
            * (dense_costs.attn
                + (dense_costs.ffn + dense_costs.n_allreduce * dense_costs.allreduce_cost))
          + dense_costs.edge
        ≡ sum (λ op. op.count * one op) ops
  unfolding charge
  dense_total h =
      rw
        (
          d.listed,
          charged_attn h,
          round_dense h,
          d.is_qkv.counted,
          d.is_att.counted,
          d.is_out.counted,
          d.is_ffn.counted,
          d.is_ar.counted,
          d.is_em.counted,
          d.is_hd.counted,
        )
        (distribute layers _ _ _ _ _ _ _)

  pub payload-dense : payload_named "allreduce" ops 0 ≡ payload_of d.ar
  payload-dense =
      ap (λ ops. payload_named "allreduce" ops 0) d.listed
      ∙ other_payload d.qkv _ "allreduce" 0 d.is_qkv.sending
      ∙ other_payload d.att _ "allreduce" 0 d.is_att.sending
      ∙ other_payload d.out _ "allreduce" 0 d.is_out.sending
      ∙ other_payload d.ffn _ "allreduce" 0 d.is_ffn.sending
      ∙ own_payload d.ar _ 0 d.is_ar.sending d.is_ar.reducing
      ∙ other_payload d.em _ "allreduce" _ d.is_em.sending
      ∙ other_payload d.hd _ "allreduce" _ d.is_hd.sending
      ∙ no_payload (payload_of d.ar)
