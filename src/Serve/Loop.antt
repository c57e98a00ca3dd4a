-- ===== src/Serve/Loop.antt =====
-- inferencesim/serve.py: the event loop of `serve`. The closures over its local variables are
-- functions of the state.
use mathlib.Core.Logic.{ite}
use inferencesim.Prelude.{
  ℕ, ◌+◌, ◌-◌, Bool, true, false, not, ◌&&◌, ◌||◌, List, [], ◌∷◌, ◌++◌, map, Option, ltb, leb,
  if◌then◌else◌, length, is_empty, filter, sum, remove,
}
use inferencesim.Serve.Request.{
  Req, Req-discrete, prefill_target, reset, emit, record_of, latest, oldest,
}
use inferencesim.Serve.Kv.{kv_bytes, kv_grow}
use inferencesim.Serve.State.{Replica, State}

abbrev pub is_decoder : Req → Bool
is_decoder r = not r.needs_prefill

abbrev pub decoders : State → List Req
decoders s = filter is_decoder s.running

abbrev pub is_done : Req → Bool
is_done r = is_decoder r && leb r.output_len r.gen

-- The decoders that `step_decoders` returns, after their token.
unfoldable pub done_decoders : State → List Req
done_decoders s = filter is_done s.running

-- Whether a request is in a list: where it is not, `remove` raises.
unfoldable pub holds : Req → List Req → Bool
holds r [] = false
holds r (x ∷ xs) = let rest = holds r xs in ite (Req-discrete x r) true rest

-- An in-progress prefill first, else the oldest pending request.
unfoldable pub prefiller : State → Option Req
prefiller s =
    let pending = filter (λ (r : Req). r.needs_prefill) s.running in
    let in_progress = filter (λ (r : Req). ltb 0 r.prefill_done) pending in
    oldest (if is_empty in_progress then pending else in_progress)

-- The next request, followed by `rs`, has arrived.
unfoldable pub arrive : Req → List Req → State → State
arrive r rs s = record s {
  incoming = rs;
  waiting = s.waiting ++ r ∷ [];
  backlog_at_last_arrival = if is_empty rs then length s.waiting + 1 else s.backlog_at_last_arrival;
}

unfoldable pub intake : List Req → State → State
intake [] s = s
intake (r ∷ rs) s =
    let rest = intake rs (arrive r rs s) in if leb r.arrival s.clock then rest else s

module _ (p : Replica) where
  abbrev pub bytes : ℕ → ℕ
  bytes = kv_bytes p.kv

  abbrev pub full_fp : Req → ℕ
  full_fp r = bytes (r.prompt_len + r.output_len)

  -- What admission under `on_demand` charges a running request.
  abbrev pub commitment : Req → ℕ
  commitment x = bytes (if x.needs_prefill then prefill_target x else x.context)

  unfoldable pub can_admit : State → Req → Bool
  can_admit s r =
      if leb p.max_batch (length s.running)
      then false
      else if p.on_demand
      then leb (sum commitment s.running + bytes (prefill_target r)) (p.usable + p.eps)
      else leb (s.kv_reserved + full_fp r) (p.kv_budget + p.eps)

  unfoldable pub preempt : Req → State → State
  preempt victim s = record s {
    kv_used = s.kv_used - bytes victim.context;
    running = remove Req-discrete victim s.running;
    waiting = record (reset victim) { preemptions = victim.preemptions + 1 } ∷ s.waiting;
    n_preempt = s.n_preempt + 1;
    failed = s.failed || not (holds victim s.running);
  }

  -- The candidates are the decoders; `exclude` is the prefiller.
  unfoldable pub latest_decoder : Req → State → Option Req
  latest_decoder exclude s =
      latest (filter (λ r. is_decoder r && ite (Req-discrete r exclude) false true) s.running)

  unfoldable pub finish : Req → State → State
  finish r s = record s {
    completed = s.completed ++ record_of s.clock r ∷ [];
    running = remove Req-discrete r s.running;
    kv_used = s.kv_used - bytes r.context;
    kv_reserved = if p.on_demand then s.kv_reserved else s.kv_reserved - full_fp r;
    failed = s.failed || not (holds r s.running);
  }

  unfoldable pub finish_all : List Req → State → State
  finish_all [] s = s
  finish_all (r ∷ rs) s = finish_all rs (finish r s)

  -- Every running decoder emits one token. The rounds of the source's loop do not read one another's
  -- writes, so each list is written at once.
  unfoldable pub step_decoders : State → State
  step_decoders s = record s {
    running = map (λ r. if is_decoder r then emit s.clock r else r) s.running;
    gaps = s.gaps ++ map (λ (r : Req). s.clock - r.last_emit) (decoders s);
    kv_used = s.kv_used + sum (λ r. kv_grow p.kv r.context) (decoders s);
  }

  -- The head of the queue, followed by `rs`, starts to run.
  unfoldable pub admit : Req → List Req → State → State
  admit r rs s = record s {
    waiting = rs;
    running = s.running ++ reset r ∷ [];
    kv_reserved = if p.on_demand then s.kv_reserved else s.kv_reserved + full_fp r;
  }

  unfoldable pub admission : List Req → State → State
  admission [] s = s
  admission (r ∷ rs) s = let rest = admission rs (admit r rs s) in if can_admit s r then rest else s

  -- `if not running and waiting`: the head runs alone.
  unfoldable pub force_admit : List Req → State → State
  force_admit [] s = s
  force_admit (r ∷ rs) s = if is_empty s.running then admit r rs s else s
