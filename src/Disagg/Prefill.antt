-- ===== src/Disagg/Prefill.antt =====
-- inferencesim/serve.py: the prefill pool of `serve_disagg`, and the events `arrival`, `prefill_done`.
use inferencesim.Prelude.{
  ℕ, ◌+◌, ◌-◌, false, List, [], ◌∷◌, ◌++◌, Option, none, some, if◌then◌else◌, ◌==◌, get_elem?,
  length, ltb,
}
use inferencesim.Serve.Request.{Req, reset, prefill_target}
use inferencesim.Serve.Config.{kv_transfer_time}
use inferencesim.Disagg.State.{
  Pools, PrefillReplica, State, prefill_done, transfer_done, push, write, with_prep, for_range,
}

-- What the end of a prefill writes: the KV is rebuilt, and the transfer counts until the first token.
unfoldable pub filled : ℕ → Req → Req
filled tdelay r =
    let delay = if r.started then r.transfer_delay else tdelay in
    record r { needs_prefill = false; context = prefill_target r; transfer_delay = delay }

module _ (p : Pools) where
  -- The head of the queue starts on the replica `i`, which is `pr`.
  unfoldable pub start_prefill : ℕ → ℕ → PrefillReplica → ℕ → List ℕ → State → State
  start_prefill now i pr r rest s =
      push (now + p.prefill_cost (prefill_target (s.reqs r))) prefill_done i (
        with_prep i (record pr { current = some r; since = now })
          (record s {
            waiting_prefill = rest;
            reqs = write r reset s.reqs;
            stat = record s.stat { n_prefill = s.stat.n_prefill + 1 };
          }))

  unfoldable pub prefill_on : ℕ → ℕ → PrefillReplica → Option ℕ → List ℕ → State → State
  prefill_on now i pr (some q) rs s = s
  prefill_on now i pr none [] s = s
  prefill_on now i pr none (r ∷ rs) s = start_prefill now i pr r rs s

  unfoldable pub prefill_at : ℕ → ℕ → Option PrefillReplica → State → State
  prefill_at now i none s = s
  prefill_at now i (some pr) s = prefill_on now i pr pr.current s.waiting_prefill s

  -- The loop's `break` leaves replicas for which nothing waits.
  unfoldable pub dispatch_prefill : ℕ → State → State
  dispatch_prefill now s =
      for_range (λ i t. prefill_at now i (get_elem? t.preps i) t) (length s.preps) 0 s

  unfoldable pub note_arrival : State → State
  note_arrival s =
      let seen = s.stat.arrivals_seen + 1 in
      let backlog =
        if seen == p.n_total
        then length s.waiting_prefill + length s.waiting_decode
        else s.stat.backlog in
      record s { stat = record s.stat { arrivals_seen = seen; backlog = backlog } }

  -- `none` is the IndexError of `reqs_in[ref]`.
  unfoldable pub on_arrival : ℕ → ℕ → State → Option State
  on_arrival now r s =
      if ltb r p.n_total
      then some (
          dispatch_prefill now
            (note_arrival (record s { waiting_prefill = s.waiting_prefill ++ r ∷ [] })))
      else none

  -- The request `r` leaves the replica `i`, which is `pr`, and its KV starts to move.
  unfoldable pub send : ℕ → ℕ → PrefillReplica → ℕ → State → State
  send now i pr r s =
      let tbytes = p.transfer_bytes (prefill_target (s.reqs r)) in
      let tdelay = kv_transfer_time tbytes p.transfer_bw p.transfer_lat in
      push (now + tdelay) transfer_done (s.reqs r).idx (
        with_prep i (record pr { current = none; busy_total = pr.busy_total + (now - pr.since) })
          (record s {
            reqs = write r (filled tdelay) s.reqs;
            transfer_delays = s.transfer_delays ++ tdelay ∷ [];
            stat = record s.stat { transfer_total = s.stat.transfer_total + tbytes };
          }))

  -- `none` is the AssertionError of a replica without a request.
  unfoldable pub sent_on : ℕ → ℕ → PrefillReplica → Option ℕ → State → Option State
  sent_on now i pr none s = none
  sent_on now i pr (some r) s = some (dispatch_prefill now (send now i pr r s))

  -- `none` is the IndexError of `preps[ref]`.
  unfoldable pub on_prefill_done : ℕ → ℕ → Option PrefillReplica → State → Option State
  on_prefill_done now i none s = none
  on_prefill_done now i (some pr) s = sent_on now i pr pr.current s
