-- ===== src/Serve/Step.antt =====
-- inferencesim/serve.py: one iteration of the event loop of `serve`, and the loop.
use inferencesim.Prelude.{
  ℕ, zero, suc, ◌+◌, ◌-◌, ◌*◌, max, min, ◌≡◌, ap, Bool, false, not, ◌&&◌, ◌||◌, List, [], ◌∷◌, ◌++◌,
  Option, none, some, ltb, leb, ◌==◌, if◌then◌else◌, length, is_empty, sum, replace,
}
use inferencesim.Serve.Request.{Req, Req-discrete, prefill_target, complete_prefill, latest}
use inferencesim.Serve.State.{Replica, State, start}
use inferencesim.Serve.Loop.{
  decoders, bytes, preempt, latest_decoder, finish_all, step_decoders, done_decoders, intake,
  admission, force_admit, prefiller,
}

unfoldable pub note_forced : Bool → State → State
note_forced b s = if b then record s { forced_over_budget = s.forced_over_budget + 1 } else s

unfoldable pub peaks : State → State
peaks s = record s {
  peak_kv = max s.peak_kv s.kv_used;
  peak_batch = max s.peak_batch (length s.running);
}

-- A chunk of the prompt of `f`, with the tokens that are left.
unfoldable pub chunk_size : ℕ → Option Req → ℕ
chunk_size k none = 0
chunk_size k (some f) = min k (prefill_target f - f.prefill_done)

unfoldable pub chunk_done : ℕ → ℕ → Req → Req
chunk_done clock size f =
    let f' : Req = record f {
      prefill_done = f.prefill_done + size;
      context = f.prefill_done + size;
    } in
    if leb (prefill_target f) (f.prefill_done + size) then complete_prefill clock f' else f'

-- How an iteration ends: the loop goes on, or breaks.
pub data Turn : Type 0 where
  next : State → Turn
  halt : State → Turn

state_of : Turn → State
state_of (next s) = s
state_of (halt s) = s

pub next-injective : {s t : State} → next s ≡ next t → s ≡ t
unfolding state_of
next-injective e = ap state_of e

pub halt-injective : {s t : State} → halt s ≡ halt t → s ≡ t
unfolding state_of
halt-injective e = ap state_of e

-- Nothing can run: the clock goes to the next arrival, and without one the loop breaks.
unfoldable pub idle : List Req → State → Turn
idle [] s = halt s
idle (r ∷ rs) s = next (record s { clock = max s.clock r.arrival })

unfoldable pub is_idle : Option Req → State → Bool
is_idle none s = is_empty (decoders s)
is_idle (some r) s = false

module _ (p : Replica) where
  -- `while kv_used + need > usable + _EPS`, before an exclusive prefill of `r`.
  unfoldable pub make_room : ℕ → Req → ℕ → State → State
  make_room zero r need s = s
  make_room (suc fuel) r need s =
      let rest : State = elim (latest_decoder p r s) [
        | none ↦ s
        | some v ↦ make_room fuel r need (preempt p v s)
      ] in
      if ltb (p.usable + p.eps) (s.kv_used + need) then rest else s

  -- More than `least` decoders, and a step of them with `extra` tokens beside would overflow.
  unfoldable pub overflows : ℕ → ℕ → State → Bool
  overflows least extra s =
      ltb least (length (decoders s))
      && ltb (p.usable + p.eps) (s.kv_used + (length (decoders s) + extra) * p.kv.kv_per_token)

  -- The `while` loop that preempts the latest decoder before a decode step.
  unfoldable pub shed : ℕ → ℕ → ℕ → State → State
  shed zero least extra s = s
  shed (suc fuel) least extra s =
      let rest : State = elim (latest (decoders s)) [
        | none ↦ s
        | some v ↦ shed fuel least extra (preempt p v s)
      ] in
      if overflows least extra s then rest else s

  -- An exclusive prefill of `r`, once there is room.
  unfoldable pub fill : Req → State → State
  fill r s =
      let clock = s.clock + p.prefill_cost (prefill_target r) in
      let kv_used = s.kv_used + bytes p (prefill_target r) in
      record s {
        clock = clock;
        n_prefill = s.n_prefill + 1;
        kv_used = kv_used;
        running = replace Req-discrete r (complete_prefill clock r) s.running;
        peak_kv = max s.peak_kv kv_used;
        peak_batch = max s.peak_batch (length s.running);
      }

  unfoldable pub prefill_step : Req → State → State
  prefill_step r s =
      let roomy =
        if p.on_demand then make_room (length s.running) r (bytes p (prefill_target r)) s else s in
      fill r roomy

  -- The decoders' part of an iteration that takes `cost`: the clock, the counters, the tokens.
  unfoldable pub decode_batch : ℕ → State → State
  decode_batch cost s = step_decoders p (record s {
    clock = s.clock + cost;
    n_decode = s.n_decode + 1;
    batch_samples = s.batch_samples ++ length (decoders s) ∷ [];
  })

  -- The room for a decode step, which only `on_demand` makes. `forced` is the source's test for a
  -- step that runs over the watermark all the same.
  unfoldable pub shed_for : ℕ → ℕ → (State → Bool) → State → State
  shed_for least extra forced s =
      if p.on_demand
      then (let s' = shed (length s.running) least extra s in note_forced (forced s') s')
      else s

  abbrev pub step_cost : State → ℕ
  step_cost s = p.iter_time (length (decoders s)) (sum (λ (r : Req). r.context) (decoders s))

  unfoldable pub decode_step : State → State
  decode_step s =
      let shorn =
        shed_for 1 0
          (λ s'.
            length (decoders s') == 1 && ltb (p.usable + p.eps) (s'.kv_used + p.kv.kv_per_token))
          s in
      let stepped = decode_batch (step_cost shorn) shorn in
      peaks (finish_all p (done_decoders stepped) stepped)

  -- The cost of the chunk; the flag says whether it ends the prompt.
  unfoldable pub chunk_price : ℕ → Option Req → ℕ
  chunk_price size none = 0
  chunk_price size (some f) =
      if size == 0
      then 0
      else p.chunk_cost size f.prefill_done (f.prefill_done + size == prefill_target f)

  unfoldable pub advance_prefiller : ℕ → Option Req → State → State
  advance_prefiller size none s = s
  advance_prefiller size (some f) s = if size == 0 then s else record s {
    n_prefill = s.n_prefill + 1;
    kv_used = s.kv_used + size * p.kv.kv_per_token;
    running = replace Req-discrete f (chunk_done s.clock size f) s.running;
  }

  -- Chunked prefill: a chunk of the prompt beside a decode step.
  unfoldable pub chunk_step : ℕ → Option Req → State → State
  chunk_step k front s =
      let size = chunk_size k front in
      let shorn =
        shed_for 0 size
          (λ s'.
            is_empty (decoders s')
            && not (size == 0)
            && ltb (p.usable + p.eps) (s'.kv_used + size * p.kv.kv_per_token))
          s in
      let none_left = is_empty (decoders shorn) in
      let cost = (if none_left then 0 else step_cost shorn) + chunk_price size front in
      let stepped =
        if none_left
        then record shorn { clock = shorn.clock + cost }
        else decode_batch cost shorn in
      let finished = if none_left then [] else done_decoders stepped in
      let filled = advance_prefiller size front stepped in
      let peaked = record filled { peak_kv = max filled.peak_kv filled.kv_used } in
      let left = finish_all p finished peaked in
      record left { peak_batch = max left.peak_batch (length left.running) }

  -- The queue's part of an iteration.
  unfoldable pub queue : State → State
  queue s =
      let taken = intake s.incoming s in
      let let_in = admission p taken.waiting taken in force_admit p let_in.waiting let_in

  unfoldable pub exclusive : Option Req → State → State
  exclusive none s = decode_step s
  exclusive (some r) s =
      if p.prefill_first || is_empty (decoders s) then prefill_step r s else decode_step s

  unfoldable pub work : Option Req → State → State
  work front s = elim p.prefill_chunk [ none ↦ exclusive front s | some k ↦ chunk_step k front s ]

  -- The body of the `while` loop.
  unfoldable pub iteration : State → Turn
  iteration s =
      let s' = queue s in
      let front = prefiller s' in
      if is_idle front s' then idle s'.incoming s' else next (work front s')

-- A run returns its last state, or raises the error of the iteration budget.
pub data Outcome : Type 0 where
  served : State → Outcome
  livelock : Outcome

module _ (p : Replica) (n_total : ℕ) where
  -- `while len(completed) < n_total`, with the iterations that the budget leaves.
  unfoldable pub run : ℕ → State → Outcome
  run zero s = if ltb (length s.completed) n_total then livelock else served s
  run (suc left) s =
      let rest : Outcome = elim (iteration p s) [ halt t ↦ served t | next t ↦ run left t ] in
      if ltb (length s.completed) n_total then rest else served s

unfoldable pub iter_cap : List Req → ℕ
iter_cap reqs = 1000 * length reqs + 50 * sum (λ (r : Req). r.prompt_len + r.output_len) reqs

-- The event loop of `serve` on its requests.
unfoldable pub serve_loop : Replica → List Req → Outcome
serve_loop p reqs = run p (length reqs) (iter_cap reqs) (start reqs)
