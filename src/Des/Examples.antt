-- ===== src/Des/Examples.antt =====
-- A pipeline of two stages with an allreduce in its three layers.
use inferencesim.Prelude.{
  ℕ, ◌+◌, ◌*◌, List, ◌/◌, ◌≡◌, refl, true, false, Option, none, some, [], ◌∷◌, sum, length, arith,
}
use inferencesim.Hardware.{all_to_all, ring}
use inferencesim.Collectives.Ports.{Port}
use inferencesim.Des.{split_layers, stages_from, split_layers-sum}
use inferencesim.Des.Stage.{
  LayerCosts, CommPlan, stage_tasks, with_key, stage_chain, then_build, build_if, repeat_build,
}
use inferencesim.Des.Rounds.{
  agrees, is_close, converge, first_rounds, decode_tasks, round_period, latest_end, round_end,
  last_of, end_of_warmup,
}
use inferencesim.Des.Whole.{IsRounds, decode_tasks-IsRounds}

split : split_layers 11 3 ≡ 4 ∷ 4 ∷ 3 ∷ []
unfolding split_layers stages_from
split = refl

-- All layers of a network are somewhere.
split_whole : (length (split_layers 11 3) ≡ 3) × (sum (λ x. x) (split_layers 11 3) ≡ 11)
split_whole = split_layers-sum 11 3 (omega arith)

abbrev layers : LayerCosts
layers = record {
  attn = 5;
  ffn = 7;
  allreduce_cost = 4;
  n_allreduce = 2;
  dispatch = 0;
  combine = 0;
  gather = 0;
  scatter = 0;
  cp_cost = 0;
  hop = 3;
  edge = 2;
  n_layers = 3;
}

abbrev links : CommPlan
links = record {
  ar_group = 2;
  ar_bytes = 40;
  ar_bw = 10;
  ar_lat = 1;
  ar_topo = ring;
  a2a_group = 1;
  dispatch_bytes = 0;
  combine_bytes = 0;
  ffn_gather_bytes = 0;
  ffn_scatter_bytes = 0;
  a2a_bw = 1;
  a2a_lat = 0;
  a2a_topo = all_to_all;
  cp_group = 1;
  cp_ring_bytes = 0;
  a2a_weights = none;
  hop_bytes = 20;
  hop_bw = 10;
  hop_lat = 1;
}

abbrev by_kind : Port → ℕ
by_kind p = 0

-- No layer, no edge and no key: the assertion of `_stage_tasks` fails.
empty_stage : stage_tasks 1 layers links 1 0 false false none [] ≡ none
unfolding stage_tasks with_key stage_chain then_build build_if repeat_build
empty_stage = refl

-- Three rounds that end at 10, 20 and 30. After one round of warm-up the period is 10. Without a
-- warm-up it is not the mean of 10 but 0: the index -1 is the last round's.
abbrev three_rounds : List (List ℕ)
three_rounds = (0 ∷ []) ∷ (1 ∷ []) ∷ (2 ∷ []) ∷ []

abbrev tenths : List ℕ
tenths = 10 ∷ 20 ∷ 30 ∷ []

period_after_warmup : round_period tenths three_rounds 1 ≡ some 10
unfolding round_period latest_end round_end last_of end_of_warmup
period_after_warmup = refl

period_without_warmup : round_period tenths three_rounds 0 ≡ some 0
unfolding round_period latest_end round_end last_of end_of_warmup
period_without_warmup = refl

-- The estimates 20, 12 and 12 settle at the third measurement.
abbrev settles : ℕ → Option ℕ
settles n = some (12 + 64 / n / n * 8)

settled :
    converge settles 1 1000 1 256 257 (first_rounds 2 256) none
    ≡ some (record { rounds_used = 32; converged = true; wall = 12 })
unfolding converge agrees is_close first_rounds
settled = refl

decode_tasks-IsRounds_example : IsRounds 4 2 [] (decode_tasks 1 layers links 2 4)
decode_tasks-IsRounds_example = decode_tasks-IsRounds 1 layers links 2 4 (omega arith) (omega arith)
