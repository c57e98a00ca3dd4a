-- ===== src/Disagg/Decode.antt =====
-- inferencesim/serve.py: the decode pool of `serve_disagg`, and the events `transfer_done` and
-- `decode_done`.
use native.Mathlib.Decide.{ℕ_discrete}
use inferencesim.Prelude.{
  ℕ, zero, suc, ◌+◌, ◌-◌, ◌*◌, max, Bool, true, false, not, ◌&&◌, ◌||◌, List, [], ◌∷◌, ◌++◌, Option,
  none, some, if◌then◌else◌, ◌==◌, get_elem?, length, ltb, leb, sum, filter, remove, is_empty,
}
use inferencesim.Serve.Request.{Req, reset, emit, record_of}
use inferencesim.Serve.Kv.{kv_bytes, kv_grow}
use inferencesim.Disagg.State.{
  Pools, DecodeReplica, State, decode_done, push, write, holds, with_drep, for_range,
}
use inferencesim.Disagg.Prefill.{dispatch_prefill}

-- `max(rs, key=idx)`: the first of the greatest.
unfoldable pub latest_ref : (ℕ → Req) → List ℕ → Option ℕ
latest_ref reqs [] = none
latest_ref reqs (r ∷ rs) = elim (latest_ref reqs rs) [
  | none ↦ some r
  | some v ↦ if ltb (reqs r).idx (reqs v).idx then some v else some r
]

-- What the first delivery of a request's KV writes; a later one writes nothing.
unfoldable pub first_token : ℕ → Req → Req
first_token now r = if r.started then r else record r {
  started = true;
  ttft = now - r.arrival;
  first_token_time = now;
  last_emit = now;
}

unfoldable pub preempted : Req → Req
preempted r = record (reset r) { preemptions = r.preemptions + 1 }

abbrev pub each_drep : (ℕ → Option DecodeReplica → State → State) → State → State
each_drep body s = for_range (λ i t. body i (get_elem? t.dreps i) t) (length s.dreps) 0 s

abbrev pub clear_victims : State → State
clear_victims s = record s { stat = record s.stat { victims = false } }

-- A request stands in a batch once, so that the test after all the tokens is the one after its own.
abbrev pub is_done : (ℕ → Req) → ℕ → Bool
is_done reqs r = leb (reqs r).output_len (reqs r).gen

-- `best_i < 0 or len(dr.running) < best_load`
abbrev pub lighter : Option (ℕ × ℕ) → DecodeReplica → Bool
lighter none dr = true
lighter (some (i, load)) dr = ltb (length dr.running) load

module _ (p : Pools) where
  abbrev pub resident : (ℕ → Req) → ℕ → ℕ
  resident reqs r = kv_bytes p.kv (reqs r).context

  abbrev pub full_fp : (ℕ → Req) → ℕ → ℕ
  full_fp reqs r = kv_bytes p.kv ((reqs r).prompt_len + (reqs r).output_len)

  unfoldable pub can_admit : (ℕ → Req) → DecodeReplica → ℕ → Bool
  can_admit reqs dr r =
      if leb p.max_batch (length dr.running)
      then false
      else if p.on_demand
      then leb (sum (resident reqs) dr.running + resident reqs r) (p.usable + p.eps)
      else leb (dr.kv_reserved + full_fp reqs r) (p.kv_budget + p.eps)

  unfoldable pub admit_to_decode : ℕ → DecodeReplica → ℕ → State → State
  admit_to_decode i dr r s =
      let running = dr.running ++ r ∷ [] in
      let kv_used = dr.kv_used + resident s.reqs r in
      with_drep i
        (record dr {
          running = running;
          kv_used = kv_used;
          kv_reserved = if p.on_demand then dr.kv_reserved else dr.kv_reserved + full_fp s.reqs r;
        })
        (record s {
          stat = record s.stat {
            peak_kv = max s.stat.peak_kv kv_used;
            peak_batch = max s.stat.peak_batch (length running);
          };
        })

  unfoldable pub preempt_from_decode : ℕ → DecodeReplica → ℕ → State → State
  preempt_from_decode i dr v s =
      with_drep i
        (record dr {
          kv_used = dr.kv_used - resident s.reqs v;
          running = remove ℕ_discrete v dr.running;
        })
        (record s {
          reqs = write v preempted s.reqs;
          waiting_prefill = v ∷ s.waiting_prefill;
          stat = record s.stat { n_preempt = s.stat.n_preempt + 1; victims = true };
          failed = s.failed || not (holds v dr.running);
        })

  -- More than `least` requests run, and a token of each would pass the watermark.
  unfoldable pub overflows : DecodeReplica → Bool
  overflows dr =
      ltb 1 (length dr.running)
      && ltb (p.usable + p.eps) (dr.kv_used + length dr.running * p.kv.kv_per_token)

  -- The `while` loop that preempts, with fuel for each request that runs.
  unfoldable pub shed : ℕ → ℕ → Option DecodeReplica → State → State
  shed zero i o s = s
  shed (suc fuel) i none s = s
  shed (suc fuel) i (some dr) s =
      let rest : State = elim (latest_ref s.reqs dr.running) [
        | none ↦ s
        | some v ↦ let t = preempt_from_decode i dr v s in shed fuel i (get_elem? t.dreps i) t
      ] in
      if overflows dr then rest else s

  unfoldable pub note_forced : DecodeReplica → State → State
  note_forced dr s =
      if length dr.running == 1 && ltb (p.usable + p.eps) (dr.kv_used + p.kv.kv_per_token)
      then record s { stat = record s.stat { forced = s.stat.forced + 1 } }
      else s

  -- The batch of an iteration is a copy of the running requests.
  unfoldable pub launch : ℕ → ℕ → DecodeReplica → State → State
  launch now i dr s =
      let n = length dr.running in
      let cost = p.iter_time n (sum (λ r. (s.reqs r).context) dr.running) in
      push (now + cost) decode_done i (
        with_drep i (record dr { iter_batch = dr.running; iterating = true; iter_start = now })
          (record s { stat = record s.stat { peak_batch = max s.stat.peak_batch n } }))

  unfoldable pub iterate : ℕ → ℕ → Option DecodeReplica → State → State
  iterate now i none s = s
  iterate now i (some dr) s =
      let t = if p.on_demand then note_forced dr s else s in
      if is_empty dr.running then t else launch now i dr t

  unfoldable pub start_decode_iter : ℕ → ℕ → DecodeReplica → State → State
  start_decode_iter now i dr s =
      let t = if p.on_demand then shed (length dr.running) i (some dr) s else s in
      iterate now i (get_elem? t.dreps i) t

  -- The least loaded of the replicas from number `i` on with room for `r`, the first of several;
  -- `best` is the best of those before with its load.
  unfoldable pub best_of : (ℕ → Req) → ℕ → List DecodeReplica → ℕ → Option (ℕ × ℕ) → Option (ℕ × ℕ)
  best_of reqs r [] i best = best
  best_of reqs r (dr ∷ ds) i best =
      best_of reqs r ds (i + 1)
        (if can_admit reqs dr r && lighter best dr then some (i, length dr.running) else best)

  unfoldable pub admit_at : ℕ → Option DecodeReplica → ℕ → List ℕ → State → State
  admit_at i none r rs s = s
  admit_at i (some dr) r rs s = admit_to_decode i dr r (record s { waiting_decode = rs })

  -- `while waiting_decode`
  unfoldable pub admissions : List ℕ → State → State
  admissions [] s = s
  admissions (r ∷ rs) s = elim (best_of s.reqs r s.dreps 0 none) [
    | none ↦ s
    | some (i, load) ↦ admissions rs (admit_at i (get_elem? s.dreps i) r rs s)
  ]

  -- The head of the queue goes to a replica on which nothing runs.
  unfoldable pub force_on : ℕ → Option DecodeReplica → List ℕ → State → State
  force_on i o [] s = s
  force_on i none (r ∷ rs) s = s
  force_on i (some dr) (r ∷ rs) s = if is_empty dr.running then admit_at i (some dr) r rs s else s

  unfoldable pub start_at : ℕ → ℕ → Option DecodeReplica → State → State
  start_at now i none s = s
  start_at now i (some dr) s =
      if not (is_empty dr.running) && not dr.iterating then start_decode_iter now i dr s else s

  unfoldable pub dispatch_decode : ℕ → State → State
  dispatch_decode now s =
      let admitted = admissions s.waiting_decode s in
      let forced = each_drep (λ i o t. force_on i o t.waiting_decode t) admitted in
      let started = each_drep (start_at now) (clear_victims forced) in
      if started.stat.victims then dispatch_prefill p now started else started

  -- `none` is the IndexError of `reqs_in[ref]`.
  unfoldable pub on_transfer_done : ℕ → ℕ → State → Option State
  on_transfer_done now r s =
      if ltb r p.n_total
      then some (
          dispatch_decode now (record s {
            reqs = write r (first_token now) s.reqs;
            waiting_decode = s.waiting_decode ++ r ∷ [];
          }))
      else none

  -- A token of the request `r` of the batch of the replica `i`.
  unfoldable pub token : ℕ → ℕ → DecodeReplica → ℕ → State → State
  token now i dr r s =
      with_drep i (record dr { kv_used = dr.kv_used + kv_grow p.kv (s.reqs r).context })
        (record s {
          reqs = write r (emit now) s.reqs;
          gaps = s.gaps ++ ((now - (s.reqs r).last_emit) ∷ []);
        })

  unfoldable pub tokens : ℕ → ℕ → List ℕ → State → State
  tokens now i [] s = s
  tokens now i (r ∷ rs) s =
      tokens now i rs (elim (get_elem? s.dreps i) [ none ↦ s | some dr ↦ token now i dr r s ])

  -- The replica without the finished request `r`.
  abbrev pub released : (ℕ → Req) → ℕ → DecodeReplica → DecodeReplica
  released reqs r dr = record dr {
    running = remove ℕ_discrete r dr.running;
    kv_used = dr.kv_used - resident reqs r;
    kv_reserved = if p.on_demand then dr.kv_reserved else dr.kv_reserved - full_fp reqs r;
  }

  unfoldable pub finish : ℕ → ℕ → DecodeReplica → ℕ → State → State
  finish now i dr r s = with_drep i (released s.reqs r dr) (record s {
    completed = s.completed ++ record_of now (s.reqs r) ∷ [];
    failed = s.failed || not (holds r dr.running);
  })

  unfoldable pub finish_all : ℕ → ℕ → List ℕ → State → State
  finish_all now i [] s = s
  finish_all now i (r ∷ rs) s =
      finish_all now i rs (elim (get_elem? s.dreps i) [ none ↦ s | some dr ↦ finish now i dr r s ])

  -- The counters of a decode step, and its time.
  unfoldable pub count_step : ℕ → ℕ → DecodeReplica → State → State
  count_step now i dr s =
      with_drep i (record dr { busy_total = dr.busy_total + (now - dr.iter_start) })
        (record s {
          batch_samples = s.batch_samples ++ length dr.iter_batch ∷ [];
          stat = record s.stat { n_decode = s.stat.n_decode + 1 };
        })

  unfoldable pub note_peak : Option DecodeReplica → State → State
  note_peak none s = s
  note_peak (some dr) s = record s {
    stat = record s.stat { peak_kv = max s.stat.peak_kv dr.kv_used };
  }

  unfoldable pub end_batch : ℕ → Option DecodeReplica → State → State
  end_batch i none s = s
  end_batch i (some dr) s = with_drep i (record dr { iterating = false; iter_batch = [] }) s

  -- The handler of `decode_done`, up to the dispatch.
  unfoldable pub decode_step : ℕ → ℕ → DecodeReplica → State → State
  decode_step now i dr s =
      let stepped = tokens now i dr.iter_batch (count_step now i dr s) in
      let peaked = note_peak (get_elem? stepped.dreps i) stepped in
      let left = finish_all now i (filter (is_done peaked.reqs) dr.iter_batch) peaked in
      end_batch i (get_elem? left.dreps i) left

  -- `none` is the IndexError of `dreps[ref]`.
  unfoldable pub on_decode_done : ℕ → ℕ → Option DecodeReplica → State → Option State
  on_decode_done now i none s = none
  on_decode_done now i (some dr) s = some (dispatch_decode now (decode_step now i dr s))
