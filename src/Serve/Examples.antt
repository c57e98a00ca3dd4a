-- ===== src/Serve/Examples.antt =====
-- Runs of the serving loop on small traces, and the theorems at concrete inputs.
use inferencesim.Prelude.{
  ℕ, ◌+◌, ◌*◌, ◌≡◌, ◌≤◌, refl, ◌⊎◌, inl, true, false, List, [], ◌∷◌, none, some, map, sum, length,
  arith,
}
use inferencesim.Serve.Request.{
  Req, RequestRecord, new_req, Req-discrete, oldest, latest, complete_prefill, record_of,
}
use inferencesim.Serve.Kv.{KvModel, kv_bytes, kv_grow, kv_bytes-suc}
use inferencesim.Serve.State.{Replica, State, start}
use inferencesim.Serve.Loop.{
  decoders, full_fp, intake, arrive, admission, admit, force_admit, can_admit, prefiller,
  latest_decoder, preempt, step_decoders, done_decoders, finish_all, finish,
}
use inferencesim.Serve.Step.{
  Turn, next, halt, iteration, queue, work, Outcome, served, livelock, serve_loop, shed,
  advance_prefiller, run, is_idle, idle, exclusive, prefill_step, make_room, fill, decode_step,
  shed_for, overflows, note_forced, decode_batch, peaks, iter_cap,
}
use inferencesim.Serve.Accounting.{resident, IsAccounted}
use inferencesim.Serve.Served.{completed_weight, serve_loop-served}
use inferencesim.Serve.Conserve.{tally, only}
use inferencesim.Serve.Reach.{
  Reach, begun, turned, IsGuarded, Reach-kv_used, Reach-reserve, Reach-tally,
}
use inferencesim.Serve.Chunk.{IsFront, advance_prefiller-IsAccounted, advance_prefiller_drifts}
use inferencesim.Serve.Shed.{shed_fits}

abbrev gqa : KvModel
gqa = record { kv_per_token = 2; swa = false; window = 0; swa_share = 0 }

-- Half of the layers have a window of four tokens.
abbrev windowed : KvModel
windowed = record { kv_per_token = 2; swa = true; window = 4; swa_share = 1 }

abbrev tight : Replica
tight = record {
  max_batch = 2;
  on_demand = true;
  prefill_first = true;
  prefill_chunk = none;
  kv_budget = 40;
  usable = 30;
  eps = 0;
  kv = gqa;
  iter_time = λ n context. 10 + context;
  prefill_cost = λ n. 5 * n;
  chunk_cost = λ size prior last. 5 * size + prior;
}

abbrev pub reserving : Replica
reserving = record tight { on_demand = false }

abbrev sliding : Replica
sliding = record tight { kv = windowed; prefill_chunk = some 3 }

abbrev pub trace : List Req
trace = new_req 0 3 5 6 ∷ new_req 1 4 5 6 ∷ new_req 2 4 4 2 ∷ []

abbrev idxs : Outcome → List ℕ
idxs (served s) = map (λ (r : RequestRecord). r.idx) s.completed
idxs livelock = []

abbrev preempted : Outcome → ℕ
preempted (served s) = s.n_preempt
preempted livelock = 0

-- On demand, two preemptions let the short request overtake.
tight_run :
    (idxs (serve_loop tight trace) ≡ 0 ∷ 2 ∷ 1 ∷ []) × (preempted (serve_loop tight trace) ≡ 2)
unfolding serve_loop run iteration queue intake arrive admission admit force_admit can_admit
    kv_bytes prefiller oldest is_idle idle work exclusive prefill_step make_room latest_decoder
    latest preempt fill complete_prefill decode_step shed_for shed overflows note_forced
    decode_batch step_decoders kv_grow done_decoders finish_all finish record_of peaks iter_cap
    Req-discrete
tight_run = (refl, refl)

abbrev after : Turn → State
after (next s) = s
after (halt s) = s

-- The clock jumps to the first arrival, the request is prefilled, and its first token follows.
abbrev s1 : State
s1 = after (iteration reserving (start trace))

abbrev s2 : State
s2 = after (iteration reserving s1)

abbrev s3 : State
s3 = after (iteration reserving s2)

reach3 : Reach reserving trace s3
unfolding iteration queue intake arrive admission admit force_admit can_admit kv_bytes prefiller
    oldest is_idle idle work exclusive prefill_step fill complete_prefill Req-discrete
reach3 = turned (turned (turned begun refl) refl) refl

-- The budget holds one full footprint.
one_runs : length s3.running ≡ 1
unfolding iteration queue intake arrive admission admit force_admit can_admit kv_bytes prefiller
    oldest is_idle idle work exclusive prefill_step fill complete_prefill Req-discrete decode_step
    peaks finish_all done_decoders decode_batch step_decoders shed_for
one_runs = refl

guarded : IsGuarded reserving trace
unfolding kv_bytes
guarded = record {
  slots = omega arith;
  model = record { share_le = omega arith };
  exclusive_only = refl;
  guard = omega arith;
}

serve_loop-served_example :
    (t : State) × (serve_loop reserving trace ≡ served t)
    × ((i : ℕ) → completed_weight (only i) t ≡ sum (λ (r : Req). only i r.idx) trace)
serve_loop-served_example = serve_loop-served reserving trace refl refl (omega arith)

Reach-kv_used_example :
    (s3.kv_used ≡ sum (resident reserving) s3.running) × (length s3.running ≤ reserving.max_batch)
Reach-kv_used_example = Reach-kv_used reserving trace guarded reach3

Reach-reserve_example :
    (s3.kv_reserved ≡ sum (full_fp reserving) s3.running)
    × (s3.n_preempt ≡ 0)
    × (s3.kv_reserved ≤ 40)
    × (s3.kv_used ≤ s3.kv_reserved)
    × (s3.peak_kv ≤ 40)
Reach-reserve_example = Reach-reserve reserving trace guarded refl reach3

Reach-tally_example : tally (only 1) s3 ≡ sum (λ (r : Req). only 1 r.idx) trace
Reach-tally_example = Reach-tally reserving trace refl reach3 1

kv_bytes-suc_example : kv_bytes windowed (5 + 1) ≡ kv_bytes windowed 5 + kv_grow windowed 5
kv_bytes-suc_example = kv_bytes-suc windowed 5 (record { share_le = omega arith })

abbrev crowd : State
crowd = record (start []) {
  running =
      record (new_req 0 0 9 6) { needs_prefill = false; context = 9 }
      ∷ record (new_req 1 0 5 6) { needs_prefill = false; context = 5 }
      ∷ [];
  kv_used = 28;
}

shed_fits_example :
    let t = shed tight 2 1 0 crowd in
    (length (decoders t) ≤ 1) ⊎ (t.kv_used + (length (decoders t) + 0) * 2 ≤ 30)
shed_fits_example = shed_fits tight 1 0 crowd

-- A prompt of twelve tokens, of which six are prefilled, past the window of four.
abbrev front : Req
front = record (new_req 0 0 12 3) { prefill_done = 6; context = 6 }

abbrev half_way : KvModel → State
half_way k = record (start []) { running = front ∷ []; kv_used = kv_bytes k 6 }

front-IsFront : (k : KvModel) → IsFront (record sliding { kv = k }) 3 front (half_way k)
front-IsFront k = record {
  some_tokens = omega arith;
  within = omega arith;
  held = refl;
  runs = inl refl;
}

advance_prefiller-IsAccounted_example :
    IsAccounted
      (record sliding { kv = gqa })
      (advance_prefiller (record sliding { kv = gqa }) 3 (some front) (half_way gqa))
unfolding kv_bytes
advance_prefiller-IsAccounted_example =
    advance_prefiller-IsAccounted (record sliding { kv = gqa }) 3 front (half_way gqa)
      (front-IsFront gqa) refl refl

advance_prefiller_drifts_example :
    let t = advance_prefiller sliding 3 (some front) (half_way windowed) in
    t.kv_used ≡ sum (resident sliding) t.running + 3 * 1
unfolding kv_bytes
advance_prefiller_drifts_example =
    advance_prefiller_drifts sliding 3 front (half_way windowed) (front-IsFront windowed)
      (record { share_le = omega arith }) refl (omega arith) refl
