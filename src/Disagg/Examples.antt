-- ===== src/Disagg/Examples.antt =====
-- Runs of `serve_disagg` on a small trace, and the theorems at concrete inputs.
use native.Mathlib.Decide.{ℕ_discrete}
use inferencesim.Prelude.{
  ℕ, ◌+◌, ◌*◌, ◌≡◌, refl, true, false, List, [], ◌∷◌, Option, none, some, map, arith, All,
}
use inferencesim.Serve.Request.{Req, RequestRecord, new_req, record_of}
use inferencesim.Serve.Kv.{KvModel, kv_bytes, kv_grow}
use inferencesim.Serve.Config.{kv_transfer_time, TransferOverride, resolve_transfer, latency_or}
use inferencesim.Sched.Heap.{pop_min}
use inferencesim.Disagg.State.{
  holds, Pools, State, Event, begin, seed, table, copies, push, write, set_nth, for_range, earlier,
  arrival,
}
use inferencesim.Disagg.Prefill.{
  filled, start_prefill, prefill_on, prefill_at, dispatch_prefill, note_arrival, on_arrival, send,
  sent_on, on_prefill_done,
}
use inferencesim.Disagg.Decode.{
  latest_ref, first_token, preempted, full_fp, can_admit, admit_to_decode, preempt_from_decode,
  shed, overflows, note_forced, launch, iterate, start_decode_iter, best_of, admit_at, admissions,
  force_on, start_at, dispatch_decode, on_transfer_done, token, tokens, finish, finish_all,
  count_step, note_peak, end_batch, decode_step, on_decode_done,
}
use inferencesim.Disagg.Step.{
  on_event, unless_failed, handle, Ended, drained, raised, livelock, loop, loop_from, event_cap,
  disagg_loop,
}
use inferencesim.Hardware.{total_chips}
use inferencesim.Hardware.Examples.{cluster}
use inferencesim.Workload.Model.{Scenario, replica_chips}
use inferencesim.Workload.Examples.{small}
use inferencesim.Ops.{validate_deployment}
use inferencesim.Serve.Setup.{is_set}
use inferencesim.Serve.Arrivals.{
  DisaggConfig, build_requests, numbered, length_of, order_from, insert, arrival_at,
}
use inferencesim.Serve.Runs.{pair}
use inferencesim.Disagg.Place.{
  Place, arriving, queued, prefilling, moving, parked, decoding, finished, Course, IsAt,
}
use inferencesim.Disagg.Reach.{Reach, begun, turned, Reach-Course}
use inferencesim.Disagg.Reserve.{IsCommitted}
use inferencesim.Disagg.Outcome.{IsOutcome}
use inferencesim.Disagg.Setup.{
  ended, first_refusal, pool_chips, first_oversized, request_checks, run_pools, over_pools,
  checked_pools, serve_disagg,
}
use inferencesim.Disagg.Served.{serve_disagg-IsOutcome, Reach-IsCommitted}

abbrev kv : KvModel
kv = record { kv_per_token = 2; swa = false; window = 0; swa_share = 0 }

abbrev reserving : Pools
reserving = record {
  n_total = 3;
  max_batch = 2;
  on_demand = false;
  kv_budget = 40;
  usable = 40;
  eps = 0;
  kv = kv;
  transfer_bw = 8;
  transfer_lat = 1;
  iter_time = λ n context. 10 + context;
  prefill_cost = λ n. 5 * n;
  transfer_bytes = λ n. 4 * n;
}

-- A watermark that three requests pass, so that some are preempted.
abbrev tight : Pools
tight = record reserving { on_demand = true; usable = 26; max_batch = 3 }

abbrev trace : List Req
trace = new_req 0 3 5 6 ∷ new_req 1 4 5 6 ∷ new_req 2 4 4 2 ∷ []

abbrev idxs : Ended → List ℕ
idxs (drained s) = map (λ (r : RequestRecord). r.idx) s.completed
idxs raised = []
idxs livelock = []

abbrev preemptions : Ended → ℕ
preemptions (drained s) = s.stat.n_preempt
preemptions raised = 0
preemptions livelock = 0

reserving_run : idxs (disagg_loop reserving 1 1 trace) ≡ 0 ∷ 2 ∷ 1 ∷ []
unfolding disagg_loop loop loop_from handle unless_failed holds on_event on_arrival on_prefill_done
    sent_on on_transfer_done on_decode_done event_cap seed table copies push write set_nth for_range
    earlier pop_min filled start_prefill prefill_on prefill_at dispatch_prefill note_arrival send
    kv_transfer_time kv_bytes kv_grow latest_ref first_token preempted can_admit admit_to_decode
    preempt_from_decode shed overflows note_forced launch iterate start_decode_iter best_of admit_at
    admissions force_on start_at dispatch_decode token tokens finish finish_all count_step note_peak
    end_batch decode_step record_of ℕ_discrete
reserving_run = refl

-- On demand, a preempted request is prefilled and moved again.
tight_run :
    (idxs (disagg_loop tight 1 1 trace) ≡ 0 ∷ 2 ∷ 1 ∷ [])
    × (preemptions (disagg_loop tight 1 1 trace) ≡ 2)
unfolding disagg_loop loop loop_from handle unless_failed holds on_event on_arrival on_prefill_done
    sent_on on_transfer_done on_decode_done event_cap seed table copies push write set_nth for_range
    earlier pop_min filled start_prefill prefill_on prefill_at dispatch_prefill note_arrival send
    kv_transfer_time kv_bytes kv_grow latest_ref first_token preempted can_admit admit_to_decode
    preempt_from_decode shed overflows note_forced launch iterate start_decode_iter best_of admit_at
    admissions force_on start_at dispatch_decode token tokens finish finish_all count_step note_peak
    end_batch decode_step record_of ℕ_discrete
tight_run = (refl, refl)

abbrev first : State
first = begin trace 1 1

abbrev of_option : Option State → State
of_option none = first
of_option (some s) = s

abbrev last_event : Event
last_event = record { when = 4; seq = 2; tag = arrival; ref = 2 }

abbrev others : List Event
others =
    record { when = 4; seq = 1; tag = arrival; ref = 1 }
    ∷ record { when = 3; seq = 0; tag = arrival; ref = 0 }
    ∷ []

-- The state after the first arrival.
abbrev second : State
second = of_option (handle reserving last_event others first)

first-heap : first.heap ≡ last_event ∷ others
unfolding seed push
first-heap = refl

arrived : handle reserving last_event others first ≡ some second
unfolding handle unless_failed holds on_event on_arrival seed table copies push write set_nth
    for_range earlier pop_min start_prefill prefill_on prefill_at dispatch_prefill note_arrival
arrived = refl

IsAt-start : IsAt 0 arriving first
unfolding seed push copies
IsAt-start arriving = refl
IsAt-start queued = refl
IsAt-start prefilling = refl
IsAt-start moving = refl
IsAt-start parked = refl
IsAt-start decoding = refl
IsAt-start finished = refl

reached : Reach reserving 1 1 trace second
reached = turned begun first-heap arrived

Reach-Course_example : (x : Place) × Course arriving x × IsAt 2 x second
Reach-Course_example =
    Reach-Course reserving 1 1 trace (refl, (refl, (refl, tt))) reached 2 (omega arith)

Reach-IsCommitted_example :
    All (IsCommitted reserving (full_fp reserving (table trace))) second.dreps
unfolding first_oversized table kv_bytes
Reach-IsCommitted_example =
    Reach-IsCommitted reserving 1 1 trace second (refl, (refl, (refl, tt))) (omega arith) refl
      reached

abbrev pools : DisaggConfig
pools = record { n_prefill_replicas = 1; n_decode_replicas = 1 }

abbrev fixed : TransferOverride
fixed = record { transfer_bw = some 8; transfer_latency = some 1 }

abbrev lengths : Scenario
lengths = record { batch = 2; prompt_len = 5; output_len = 6 }

abbrev linked : Pools
linked = record reserving { transfer_bw = 8; transfer_lat = 1 }

made :
    build_requests (3 ∷ 4 ∷ 4 ∷ []) (some (5 ∷ 5 ∷ 4 ∷ [])) (some (6 ∷ 6 ∷ 2 ∷ [])) lengths
    ≡ some trace
unfolding build_requests numbered length_of order_from insert arrival_at
made = refl

runs :
    serve_disagg cluster small pair pair pools fixed none reserving trace
    ≡ ended (disagg_loop linked 1 1 trace)
unfolding serve_disagg checked_pools first_refusal over_pools run_pools request_checks
    first_oversized pool_chips is_set validate_deployment resolve_transfer latency_or table kv_bytes
    replica_chips total_chips
runs = refl

serve_disagg-IsOutcome_example :
    (l : ℕ × ℕ) × IsOutcome
      (record reserving { n_total = 3; transfer_bw = l.0; transfer_lat = l.1 })
      1
      1
      trace
      (disagg_loop linked 1 1 trace)
serve_disagg-IsOutcome_example =
    serve_disagg-IsOutcome cluster small pair pair pools fixed none reserving (3 ∷ 4 ∷ 4 ∷ [])
      (some (5 ∷ 5 ∷ 4 ∷ [])) (some (6 ∷ 6 ∷ 2 ∷ [])) lengths trace (disagg_loop linked 1 1 trace)
      made runs
