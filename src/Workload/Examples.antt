-- ===== src/Workload/Examples.antt =====
-- A small model, and the theorems at concrete inputs.
use inferencesim.Prelude.{◌+◌, ◌≡◌, refl, true, false, [], ◌∷◌, none, some, if◌then◌else◌, arith}
use inferencesim.Workload.Moe.{
  MoeConfig, blocks_from, member_blocks, member_popularity, slice_sum, tokens_to_member,
}
use inferencesim.Workload.Model.{
  ModelSpec, checked, make_model, n_swa_layers, n_dense_ffn_layers, embedding_params, total_params,
}
use inferencesim.Workload.Blocks.{IsPartition, member_blocks-IsPartition}
use inferencesim.Workload.Layers.{
  sum_layers, is_windowed, layer_params, n_swa_layers-count, total_params-layers,
}

abbrev experts : MoeConfig
experts = record {
  n_experts = 7;
  top_k = 2;
  d_ff_expert = 3;
  d_ff_shared = 5;
  n_dense_layers = 1;
  popularity = 8 ∷ 6 ∷ 4 ∷ 2 ∷ 1 ∷ 1 ∷ 1 ∷ [];
}

-- Every other layer has a window.
abbrev pub small : ModelSpec
small = record {
  name = "small";
  n_layers = 5;
  d_model = 4;
  n_heads = 2;
  n_kv_heads = 1;
  d_head = 2;
  d_ff = 6;
  vocab_size = 10;
  gated_mlp = true;
  moe = some experts;
  tied_embeddings = false;
  swa_window = some 128;
  swa_every = 2;
  mla = none;
}

-- Three members own three, two and two experts.
owned : member_blocks experts 3 ≡ (0, 3) ∷ (3, 5) ∷ (5, 7) ∷ []
unfolding member_blocks blocks_from
owned = refl

shares : member_popularity experts 3 ≡ 18 ∷ 3 ∷ 2 ∷ []
unfolding member_popularity slice_sum member_blocks blocks_from
shares = refl

routed : (tokens_to_member experts 0 10 3 ≡ some 360) × (tokens_to_member experts 3 10 3 ≡ none)
unfolding tokens_to_member member_popularity slice_sum member_blocks blocks_from
routed = (refl, refl)

-- A window without a rule is refused.
refused : make_model (record small { swa_every = 0 }) ≡ none
unfolding make_model checked
refused = refl

member_blocks-IsPartition_example : IsPartition 2 0 7 (member_blocks experts 3)
member_blocks-IsPartition_example = member_blocks-IsPartition experts 3 (omega arith)

n_swa_layers-count_example :
    n_swa_layers small ≡ sum_layers (λ i. if is_windowed small i then 1 else 0) 5
unfolding make_model checked
n_swa_layers-count_example = n_swa_layers-count small refl

total_params-layers_example :
    total_params small ≡ sum_layers (layer_params small) 5 + embedding_params small
unfolding n_dense_ffn_layers
total_params-layers_example = total_params-layers small (omega arith)
