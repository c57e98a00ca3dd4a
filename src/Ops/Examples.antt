-- ===== src/Ops/Examples.antt =====
-- The lowering of inferencesim/ops.py on a small model, on two stages of two chips.
use inferencesim.Prelude.{
  sum, All, List, ◌++◌, ◌+◌, ◌*◌, ◌≡◌, refl, true, false, [], ◌∷◌, none, some, min,
}
use inferencesim.Hardware.{fp16, fp8}
use inferencesim.Workload.Model.{
  n_swa_layers, swa_layers, ModelSpec, Deployment, replica_chips, attn_qkv_params, attn_out_params,
  ffn_params_total,
}
use inferencesim.Ops.{validate_deployment, is_moe, kv_cache_bytes_per_chip}
use inferencesim.Ops.Lower.{Op, Routing, ratio, whole, banded_pairs}
use inferencesim.Ops.Passes.{
  group_share, layer_ops, embed, lm_head, decode_attention_ops, decode_ops, prefill_ops,
}
use inferencesim.Ops.Reads.{
  IsSameRatio, total_read, of_batch, decode_attention_ops-kv_cache_bytes_per_chip,
}
use inferencesim.Ops.Work.{linear_flops, decode_ops-linear_flops}
use inferencesim.Ops.Scores.{band, banded_pairs-band}
use inferencesim.Ops.Chunks.{attention_over, attention_under, chunk_passes, attention-chunked}

-- Every other layer has a window of four tokens.
abbrev pub windowed : ModelSpec
windowed = record {
  name = "windowed";
  n_layers = 6;
  d_model = 8;
  n_heads = 4;
  n_kv_heads = 2;
  d_head = 2;
  d_ff = 16;
  vocab_size = 32;
  gated_mlp = true;
  moe = none;
  tied_embeddings = true;
  swa_window = some 4;
  swa_every = 2;
  mla = none;
}

abbrev pub two_by_two : Deployment
two_by_two = record {
  tp = 2;
  pp = 2;
  ep = 1;
  adp = 1;
  weight_dtype = fp8;
  kv_dtype = fp8;
  act_dtype = fp16;
  cp_prefill = false;
  overlap_comm = false;
}

abbrev pub uniform : Routing
uniform = record {
  is_skewed = false;
  active = whole;
  active_on = λ member tokens n_members. whole tokens;
}

-- Experts on a model that has none.
no_experts : decode_ops uniform windowed (record two_by_two { ep = 2 }) (whole 3) (whole 10) ≡ none
unfolding decode_ops validate_deployment is_moe
no_experts = refl

banded_pairs-band_example : banded_pairs 10 4 + min 10 4 ≡ 2 * band 4 10
banded_pairs-band_example = banded_pairs-band 4 10

decode_attention_ops-kv_cache_bytes_per_chip_example :
    IsSameRatio
      (total_read (decode_attention_ops windowed two_by_two (ratio 7 2) (whole 10)))
      (of_batch windowed two_by_two (ratio 7 2) 10 (kv_cache_bytes_per_chip windowed 10 two_by_two))
decode_attention_ops-kv_cache_bytes_per_chip_example =
    decode_attention_ops-kv_cache_bytes_per_chip windowed two_by_two (ratio 7 2) 10

abbrev unwindowed : ModelSpec
unwindowed = record windowed { swa_window = none }

attention-chunked_example :
    let whole_prompt = prefill_ops uniform unwindowed 10 two_by_two in
    (sum attention_over (chunk_passes uniform unwindowed two_by_two 0 (4 ∷ 4 ∷ 2 ∷ []))
      ≡ attention_over whole_prompt + 6 * (4 * 2 * 36 * 2))
    × All
        (λ o. attention_under o ≡ attention_under whole_prompt)
        (chunk_passes uniform unwindowed two_by_two 0 (4 ∷ 4 ∷ 2 ∷ []))
unfolding validate_deployment is_moe n_swa_layers swa_layers
attention-chunked_example =
    attention-chunked uniform unwindowed two_by_two two_by_two (4 ∷ 4 ∷ 2 ∷ []) refl refl refl

-- A round of seven sequences at ten tokens each.
abbrev pub a_round : List Op
unfolding whole
a_round =
    let group = group_share two_by_two (whole 7) in
    layer_ops uniform windowed two_by_two group (ratio 7 (1 * 2))
      (decode_attention_ops windowed two_by_two (whole 7) (whole 10)) 2
    ++ embed windowed group two_by_two 2 ∷ lm_head windowed group two_by_two 2 ∷ []

pub a_round_lowers : decode_ops uniform windowed two_by_two (whole 7) (whole 10) ≡ some a_round
unfolding decode_ops validate_deployment is_moe whole
a_round_lowers = refl

decode_ops-linear_flops_example :
    IsSameRatio
      (ratio (replica_chips two_by_two * (linear_flops a_round).over) (linear_flops a_round).under)
      (ratio
        (2
          * 7
          * (6 * (attn_qkv_params windowed + attn_out_params windowed + ffn_params_total windowed)))
        1)
unfolding whole
decode_ops-linear_flops_example =
    decode_ops-linear_flops uniform windowed two_by_two (whole 7) (whole 10) a_round refl
      a_round_lowers
