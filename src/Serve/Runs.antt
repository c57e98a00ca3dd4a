-- ===== src/Serve/Runs.antt =====
-- The token grid, percentiles and the transfer link on small inputs.
use inferencesim.Prelude.{ℕ, ◌≡◌, ◌<◌, subst, true, false, refl, List, [], ◌∷◌, none, some, arith}
use inferencesim.Hardware.Examples.{cluster}
use mathlib.Core.Option.{some-injective}
use inferencesim.Hardware.{bf16, fp8}
use inferencesim.Workload.Model.{Scenario, Deployment, make_model, checked}
use inferencesim.Workload.Examples.{small}
use inferencesim.Ops.{kv_cache_bytes_per_chip}
use inferencesim.Serve.Kv.{kv_bytes}
use inferencesim.Serve.Footprint.{kv_accounting, kv_accounting_agrees}
use inferencesim.Serve.Config.{
  ceil_grid, percentile, interpolate, kv_transfer_time, TransferOverride, latency_or,
  resolve_transfer,
}
use inferencesim.Serve.Request.{Req, new_req}
use inferencesim.Serve.State.{State}
use inferencesim.Serve.Step.{served}
use inferencesim.Serve.Conserve.{only}
use inferencesim.Serve.Served.{completed_weight}
use inferencesim.Serve.Examples.{reserving, trace}
use inferencesim.Prelude.{sum}
use inferencesim.Serve.Setup.{
  reserve, ServeConfig, is_set, is_zero, is_unknown, differ, same, first_error, config_error, batch,
  parallel_prompts, ended, never_fits, first_unfit, admit_requests, serve_requests, serve,
}
use inferencesim.Serve.Arrivals.{
  build_requests, numbered, length_of, order_from, insert, arrival_at,
}
use inferencesim.Hardware.{total_chips}
use inferencesim.Hardware.Examples.{cluster}
use inferencesim.Workload.Model.{Deployment, replica_chips}
use inferencesim.Ops.{validate_deployment, is_moe}
use inferencesim.Ops.Examples.{windowed, two_by_two}
use inferencesim.Serve.Checks.{IsRunnable, config_error-IsRunnable, serve_completes}

grids : (ceil_grid 130 64 ≡ 192) × (ceil_grid 130 1 ≡ 130)
unfolding ceil_grid
grids = (refl, refl)

abbrev values : List ℕ
values = 10 ∷ 20 ∷ 40 ∷ []

-- The 75th percentile of three values is halfway between the last two.
percentiles : (percentile values 50 ≡ some 20) × (percentile values 75 ≡ some 30)
unfolding percentile interpolate
percentiles = (refl, refl)

abbrev fixed : TransferOverride
fixed = record { transfer_bw = some 9; transfer_latency = none }

abbrev resolved : TransferOverride
resolved = record { transfer_bw = none; transfer_latency = some 4 }

transfers :
    (resolve_transfer cluster 1 fixed ≡ some (9, 0)) × (resolve_transfer cluster 1 resolved ≡ none)
unfolding resolve_transfer latency_or
transfers = (refl, refl)

priced : (kv_transfer_time 100 20 3 ≡ 8) × (kv_transfer_time 100 0 3 ≡ 3)
unfolding kv_transfer_time
priced = (refl, refl)

abbrev pub pair : Deployment
pair = record {
  tp = 2;
  pp = 1;
  ep = 1;
  adp = 1;
  weight_dtype = fp8;
  kv_dtype = bf16;
  act_dtype = bf16;
  cp_prefill = true;
  overlap_comm = false;
}

window_is_positive : (w : ℕ) → some 128 ≡ some w → 0 < w
window_is_positive w q = subst (λ x. 0 < x) (some-injective 128 w q) (omega arith)

kv_accounting_agrees_example :
    kv_bytes (kv_accounting small pair) 200 ≡ (kv_cache_bytes_per_chip small 200 pair).over
unfolding make_model checked
kv_accounting_agrees_example = kv_accounting_agrees small pair 200 refl window_is_positive

abbrev replayed : ServeConfig
replayed = record {
  arrival_rate = none;
  arrivals = some (3 ∷ 7 ∷ []);
  prompt_lens = some (5 ∷ 6 ∷ []);
  output_lens = none;
  max_batch = 2;
  kv_policy = reserve;
  kv_watermark = 95;
  whole = 100;
  prefill_chunk = none;
}

-- The first failing check decides.
wrong :
    (config_error (record replayed { max_batch = 0 }) ≡ some batch)
    × (config_error (record replayed { prompt_lens = some [] }) ≡ some parallel_prompts)
unfolding config_error first_error is_set is_zero is_unknown differ same
wrong = (refl, refl)

oversized : serve_requests (record reserving { kv_budget = 20 }) trace ≡ never_fits 0
unfolding serve_requests admit_requests first_unfit kv_bytes
oversized = refl

replayed-IsRunnable : IsRunnable replayed
unfolding config_error first_error is_set is_zero is_unknown differ same
replayed-IsRunnable = config_error-IsRunnable replayed refl

abbrev one_chip : Deployment
one_chip = record two_by_two { tp = 1; pp = 1 }

serve_completes_example :
    (t : State) × (serve windowed one_chip cluster reserving trace ≡ ended (served t))
    × (t.failed ≡ false)
    × ((i : ℕ) → completed_weight (only i) t ≡ sum (λ (r : Req). only i r.idx) trace)
unfolding kv_bytes validate_deployment is_moe total_chips replica_chips
serve_completes_example =
    serve_completes windowed one_chip one_chip cluster reserving trace refl refl (omega arith) refl
      refl (omega arith) (omega arith) (omega arith, (omega arith, (omega arith, tt)))

abbrev scenario : Scenario
scenario = record { batch = 2; prompt_len = 9; output_len = 4 }

-- The requests are numbered in the order of their arrival, those at one time in the order of the list.
replay :
    build_requests (5 ∷ 2 ∷ 5 ∷ []) (some (7 ∷ 8 ∷ 6 ∷ [])) none scenario
    ≡ some (new_req 0 2 8 4 ∷ new_req 1 5 7 4 ∷ new_req 2 5 6 4 ∷ [])
unfolding build_requests numbered length_of order_from insert arrival_at
replay = refl
