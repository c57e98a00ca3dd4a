-- ===== src/Disagg/Step.antt =====
-- inferencesim/serve.py: one event of `serve_disagg`, and the event loop.
use inferencesim.Prelude.{
  ℕ, zero, suc, ◌+◌, ◌*◌, List, [], ◌∷◌, Option, none, some, ltb, length, if◌then◌else◌, sum,
  get_elem?,
}
use inferencesim.Serve.Request.{Req}
use inferencesim.Sched.Heap.{pop_min}
use inferencesim.Disagg.State.{
  Pools, State, Event, Tag, arrival, prefill_done, transfer_done, decode_done, earlier, begin,
}
use inferencesim.Disagg.Prefill.{on_arrival, on_prefill_done}
use inferencesim.Disagg.Decode.{on_transfer_done, on_decode_done}

-- An event in which `remove` has raised is an error.
unfoldable pub unless_failed : Option State → Option State
unless_failed none = none
unless_failed (some t) = if t.failed then none else some t

module _ (p : Pools) where
  unfoldable pub on_event : Tag → ℕ → ℕ → State → Option State
  on_event arrival now i s = on_arrival p now i s
  on_event prefill_done now i s = on_prefill_done p now i (get_elem? s.preps i) s
  on_event transfer_done now i s = on_transfer_done p now i s
  on_event decode_done now i s = on_decode_done p now i (get_elem? s.dreps i) s

  -- The body of the loop, on a heap with the entry `e` and the entries `es`.
  unfoldable pub handle : Event → List Event → State → Option State
  handle e es s =
      let (first, rest) = pop_min earlier e es in
      unless_failed (on_event first.tag first.when first.ref (record s { heap = rest }))

-- How the loop ends: in a state, with an error of an event, or with the error of the event budget.
pub data Ended : Type 0 where
  drained : State → Ended
  raised livelock : Ended

module _ (p : Pools) where
  -- `while len(completed) < n_total and heap`, with the events that the budget leaves.
  unfoldable pub loop_from : (State → Ended) → Option State → Ended
  loop_from next none = raised
  loop_from next (some t) = next t

  unfoldable pub loop : ℕ → List Event → State → Ended
  loop left [] s = drained s
  loop zero (e ∷ es) s = if ltb (length s.completed) p.n_total then livelock else drained s
  loop (suc left) (e ∷ es) s =
      let rest = loop_from (λ t. loop left t.heap t) (handle p e es s) in
      if ltb (length s.completed) p.n_total then rest else drained s

unfoldable pub event_cap : List Req → ℕ
event_cap reqs_in =
    1000 * length reqs_in + 200 * sum (λ (r : Req). r.prompt_len + r.output_len) reqs_in

-- The event loop of `serve_disagg` on its requests, with `n_p` and `n_d` replicas.
unfoldable pub disagg_loop : Pools → (n_p n_d : ℕ) → List Req → Ended
disagg_loop p n_p n_d reqs_in = let s = begin reqs_in n_p n_d in loop p (event_cap reqs_in) s.heap s
