-- ===== src/Ops/Lower.antt =====
-- inferencesim/ops.py: the operations that a part of a layer is lowered to. Tokens, flops and bytes are
-- fractions. What the routing of experts gives by powers of floats is a parameter.
use inferencesim.Prelude.{
  ℕ, ◌+◌, ◌-◌, ◌*◌, ◌/◌, min, Bool, true, false, List, [], ◌∷◌, ◌++◌, Option, none, some, String,
  leb, ◌==◌, if◌then◌else◌,
}
use inferencesim.Hardware.{DType, quarter_bytes}
use inferencesim.Workload.Model.{
  ModelSpec, MlaConfig, qk_head_dim, latent_dim, n_swa_layers, n_full_attn_layers, Deployment,
}
use inferencesim.Ops.{OpKind, compute, Fraction, window_of}

pub data Category : Type 0 where
  linear_work attention_work moe_work head_work comm_work : Category

pub record Op : Type 0 where
  pub name : String
  pub kind : OpKind
  pub dtype : DType
  pub category : Category
  pub count : ℕ
  pub flops : Fraction
  pub dram_read : Fraction
  pub dram_write : Fraction
  pub comm_bytes : Fraction
  pub member_weights : Option (List ℕ)

-- What `expected_active_experts` and `expected_active_on_member` return, and whether the routing is skewed.
pub record Routing : Type 0 where
  pub is_skewed : Bool
  pub active : ℕ → Fraction
  pub active_on : (member tokens n_members : ℕ) → Fraction

abbrev pub ratio : ℕ → ℕ → Fraction
ratio a b = record { over = a; under = b }

unfoldable pub whole : ℕ → Fraction
whole a = ratio a 1

unfoldable pub plus : Fraction → Fraction → Fraction
plus p q = ratio (p.over * q.under + q.over * p.under) (p.under * q.under)

unfoldable pub int_of : Fraction → ℕ
int_of q = q.over / q.under

-- The lesser of a fraction and a number.
unfoldable pub at_most : Fraction → ℕ → Fraction
at_most q w = if leb (w * q.under) q.over then whole w else q

unfoldable pub or_else {ℓ} : {A : Type ℓ} → Option A → A → A
or_else none a = a
or_else (some b) a = b

unfoldable pub linear :
    (name : String) (tokens : Fraction) (params d_in d_out : ℕ)
    → Deployment
    → (count : ℕ) (category : Category) (weight_read : Option Fraction) (shard : Option ℕ) → Op
linear name tokens params d_in d_out dep count category weight_read shard =
    let s = or_else shard dep.tp in
    let wread = or_else weight_read (whole params) in
    let w = quarter_bytes dep.weight_dtype in
    let a = quarter_bytes dep.act_dtype in
    record {
      name = name;
      kind = compute;
      dtype = dep.weight_dtype;
      category = category;
      count = count;
      flops = ratio (2 * tokens.over * params) (tokens.under * s);
      dram_read =
          plus (ratio (wread.over * w) (wread.under * s * 4))
            (ratio (tokens.over * d_in * a) (tokens.under * 4));
      dram_write = ratio (tokens.over * d_out * a) (tokens.under * s * 4);
      comm_bytes = whole 0;
      member_weights = none;
    }

-- The bytes of the K and V of `tokens` for `n_seq` sequences in one layer, on a chip.
unfoldable pub kv_traffic : ModelSpec → Deployment → Fraction → Fraction → ℕ → Fraction
kv_traffic m dep n_seq tokens cp =
    ratio (n_seq.over * tokens.over * 2 * m.n_kv_heads * m.d_head * quarter_bytes dep.kv_dtype)
      (n_seq.under * tokens.under * min dep.tp m.n_kv_heads * 4 * cp)

-- `score_pairs` is twice the number of pairs of a query and a key.
unfoldable pub kv_attention :
    String
    → ModelSpec
    → Deployment
    → (n_seq score_pairs kv_tokens : Fraction) (q_len count cp : ℕ) → Op
kv_attention name m dep n_seq score_pairs kv_tokens q_len count cp = record {
  name = name;
  kind = compute;
  dtype = dep.act_dtype;
  category = attention_work;
  count = count;
  flops =
      ratio (n_seq.over * m.n_heads * 2 * score_pairs.over * m.d_head)
        (n_seq.under * dep.tp * score_pairs.under * cp);
  dram_read = kv_traffic m dep n_seq kv_tokens cp;
  dram_write = kv_traffic m dep n_seq (whole q_len) cp;
  comm_bytes = whole 0;
  member_weights = none;
}

-- `2 * frac`
unfoldable pub halves : Bool → ℕ
halves true = 1
halves false = 2

unfoldable pub attention :
    ModelSpec
    → (n_seq : Fraction) (q_len : ℕ) (kv_len : Fraction) (causal_new : Bool) → Deployment
    → (count cp : ℕ) → Op
attention m n_seq q_len kv_len causal_new dep count cp =
    kv_attention "attention" m dep n_seq
      (ratio (halves causal_new * q_len * kv_len.over) kv_len.under) kv_len q_len count cp

-- Twice the pairs of a banded causal square.
unfoldable pub banded_pairs : (q_len w : ℕ) → ℕ
banded_pairs q_len w = q_len * q_len - (q_len - w) * (q_len - w)

unfoldable pub swa_attention :
    ModelSpec
    → (n_seq : Fraction) (q_len : ℕ) (kv_len : Fraction) (causal_new : Bool) → Deployment
    → (count cp : ℕ) → Op
swa_attention m n_seq q_len kv_len true dep count cp =
    kv_attention "attention_swa" m dep n_seq (whole (banded_pairs q_len (window_of m.swa_window)))
      kv_len q_len count cp
swa_attention m n_seq q_len kv_len false dep count cp =
    let eff = at_most kv_len (window_of m.swa_window) in
    kv_attention "attention_swa" m dep n_seq (ratio (2 * q_len * eff.over) eff.under) eff q_len
      count cp

-- The bytes of the latents of `tokens` in one layer.
unfoldable pub latent_traffic : MlaConfig → Deployment → Fraction → Fraction → ℕ → Fraction
latent_traffic a dep n_seq tokens cp =
    ratio (n_seq.over * tokens.over * latent_dim a * quarter_bytes dep.kv_dtype)
      (n_seq.under * tokens.under * 4 * cp)

unfoldable pub mla_attention :
    MlaConfig
    → ModelSpec
    → (n_seq : Fraction) (q_len : ℕ) (kv_len : Fraction) (causal_new : Bool) → Deployment
    → (count cp : ℕ) → Op
mla_attention a m n_seq q_len kv_len causal_new dep count cp =
    let per_pos =
      if q_len == 1
      then 2 * a.kv_lora_rank + a.qk_rope_head_dim
      else qk_head_dim a + a.v_head_dim in
    record {
      name = "attention";
      kind = compute;
      dtype = dep.act_dtype;
      category = attention_work;
      count = count;
      flops =
          ratio (n_seq.over * m.n_heads * q_len * kv_len.over * halves causal_new * per_pos)
            (n_seq.under * dep.tp * kv_len.under * cp);
      dram_read = latent_traffic a dep n_seq kv_len cp;
      dram_write = latent_traffic a dep n_seq (whole q_len) cp;
      comm_bytes = whole 0;
      member_weights = none;
    }

-- With the kind of attention that the model has.
unfoldable pub attention_of :
    Option MlaConfig
    → ModelSpec
    → (n_seq : Fraction) (q_len : ℕ) (kv_len : Fraction) (causal_new : Bool) → Deployment
    → (count cp : ℕ) → List Op
attention_of (some a) m n_seq q_len kv_len causal_new dep count cp =
    mla_attention a m n_seq q_len kv_len causal_new dep count cp ∷ []
attention_of none m n_seq q_len kv_len causal_new dep count cp =
    let swa = n_swa_layers m in
    let full = n_full_attn_layers m in
    if swa == 0
    then attention m n_seq q_len kv_len causal_new dep count cp ∷ []
    else (if full == 0 then [] else attention m n_seq q_len kv_len causal_new dep full cp ∷ [])
      ++ swa_attention m n_seq q_len kv_len causal_new dep swa cp ∷ []

unfoldable pub attention_ops :
    ModelSpec
    → (n_seq : Fraction) (q_len : ℕ) (kv_len : Fraction) (causal_new : Bool) → Deployment
    → (count cp : ℕ) → List Op
attention_ops m = attention_of m.mla m

-- An operation of communication.
unfoldable pub comm_op : String → OpKind → DType → ℕ → Fraction → Option (List ℕ) → Op
comm_op name kind dtype count payload weights = record {
  name = name;
  kind = kind;
  dtype = dtype;
  category = comm_work;
  count = count;
  flops = whole 0;
  dram_read = whole 0;
  dram_write = whole 0;
  comm_bytes = payload;
  member_weights = weights;
}
