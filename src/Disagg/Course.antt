-- ===== src/Disagg/Course.antt =====
-- The handlers of `serve_disagg` one by one: the way that a request goes in each.
use inferencesim.Prelude.{
  ℕ, ◌+◌, ◌≡◌, refl, sym, ap, ◌∙◌, subst, List, [], ◌∷◌, ◌++◌, some, sum-append, arith, get_elem?,
  filter, All,
}
use inferencesim.Serve.Request.{Req}
use inferencesim.Disagg.State.{
  Pools, PrefillReplica, DecodeReplica, State, Event, arrival, prefill_done, transfer_done,
  decode_done, write, push,
}
use inferencesim.Disagg.Prefill.{note_arrival, send, filled}
use inferencesim.Disagg.Decode.{first_token, decode_step}
use inferencesim.Disagg.Place.{
  arriving, queued, prefilling, moving, parked, decoding, finished, Way, arrive, deliver,
  arriving_weight, moving_weight, held, view, Moved, Still, still, moved, chain,
}
use inferencesim.Disagg.Replicas.{sum-set_nth, All-set_nth, All-get_elem?}
use inferencesim.Disagg.Rules.{IsPopped, Rules}
use inferencesim.Disagg.Moves.{finished-Flow}
use inferencesim.Disagg.Alters.{write_keeps, sum_same}
use inferencesim.Disagg.Tokens.{decode_step_lem}
use inferencesim.Disagg.Wired.{
  IsBatched, Removable-batch, Goes, first_token-idx, Goes-start, Goes-admit, Goes-preempt,
  Goes-note, Goes-launch, Goes-clear,
}

module _ (p : Pools) where
  module _ (e : Event) (rest : List Event) (s : State) (o : IsPopped s e rest) where
    -- What the heap without the event weighs.
    arriving_of :
        (w : ℕ → ℕ)
        → arriving_weight w e.tag e.ref + view w (record s { heap = rest }) arriving
          ≡ view w s arriving
    arriving_of w = o.sum_eq (λ (x : Event). arriving_weight w x.tag x.ref)

    moving_of :
        (w : ℕ → ℕ)
        → moving_weight w e.tag e.ref + view w (record s { heap = rest }) moving ≡ view w s moving
    moving_of w = o.sum_eq (λ (x : Event). moving_weight w x.tag x.ref)

    Goes-arrival :
        e.tag ≡ arrival
        → Goes s (
            note_arrival p
              (record s { heap = rest; waiting_prefill = s.waiting_prefill ++ e.ref ∷ [] }))
    unfolding note_arrival
    Goes-arrival q h = (
      moved arriving queued e.ref arrive goes,
      record { numbered = h.numbered; batched = h.batched },
    )
      where
        goes : Moved arriving queued e.ref s (
            note_arrival p
              (record s { heap = rest; waiting_prefill = s.waiting_prefill ++ e.ref ∷ [] }))
        goes w arriving =
            let k = arriving_of w in
            let l = ap (λ g. arriving_weight w g e.ref) q in omega (arith, k, l)
        goes w queued = omega (arith, sum-append w s.waiting_prefill (e.ref ∷ []))
        goes w prefilling = refl
        goes w moving =
            let k = moving_of w in
            let l = ap (λ g. moving_weight w g e.ref) q in omega (arith, k, l)
        goes w parked = refl
        goes w decoding = refl
        goes w finished = refl

    Goes-send :
        (pr : PrefillReplica) (r : ℕ)
        → e.tag ≡ prefill_done
        → get_elem? s.preps e.ref ≡ some pr
        → pr.current ≡ some r
        → Goes s (send p e.when e.ref pr r (record s { heap = rest }))
    unfolding send push
    Goes-send pr r q g c h = (
      moved prefilling moving r Way.send goes,
      record {
        numbered = λ j.
            write_keeps (λ (x : Req). x.idx) r _ s.reqs j (λ x. unfold filled in refl)
            ∙ h.numbered j;
        batched = h.batched;
      },
    )
      where
        goes : Moved prefilling moving r s (send p e.when e.ref pr r (record s { heap = rest }))
        goes w arriving =
            let k = arriving_of w in
            let l = ap (λ g. arriving_weight w g e.ref) q in omega (arith, k, l)
        goes w queued = refl
        goes w prefilling =
            let x = ap (held w) c in
            let k : view w (send p e.when e.ref pr r (record s { heap = rest })) prefilling
                  + held w pr.current
                ≡ view w s prefilling + 0 =
              sum-set_nth (λ (x : PrefillReplica). held w x.current) s.preps e.ref _ pr g in
            omega (arith, k, x)
        goes w moving =
            let k = moving_of w in
            let l = ap (λ g. moving_weight w g e.ref) q in
            let n = ap w (h.numbered r) in omega (arith, k, l, n)
        goes w parked = refl
        goes w decoding = refl
        goes w finished = refl

    Goes-deliver :
        e.tag ≡ transfer_done
        → Goes s (record s {
          heap = rest;
          reqs = write e.ref (first_token e.when) s.reqs;
          waiting_decode = s.waiting_decode ++ e.ref ∷ [];
        })
    Goes-deliver q h = (
      moved moving parked e.ref deliver goes,
      record {
        numbered = λ j.
            write_keeps (λ (x : Req). x.idx) e.ref (first_token e.when) s.reqs j
              (first_token-idx e.when)
            ∙ h.numbered j;
        batched = h.batched;
      },
    )
      where
        goes : Moved moving parked e.ref s (record s {
          heap = rest;
          reqs = write e.ref (first_token e.when) s.reqs;
          waiting_decode = s.waiting_decode ++ e.ref ∷ [];
        })
        goes w arriving =
            let k = arriving_of w in
            let l = ap (λ g. arriving_weight w g e.ref) q in omega (arith, k, l)
        goes w queued = refl
        goes w prefilling = refl
        goes w moving =
            let k = moving_of w in
            let l = ap (λ g. moving_weight w g e.ref) q in omega (arith, k, l)
        goes w parked = omega (arith, sum-append w s.waiting_decode (e.ref ∷ []))
        goes w decoding = refl
        goes w finished = refl

    Goes-decode :
        (dr : DecodeReplica)
        → e.tag ≡ decode_done
        → get_elem? s.dreps e.ref ≡ some dr
        → Goes s (decode_step p e.when e.ref dr (record s { heap = rest }))
    Goes-decode dr q g h =
        let s' : State = record s { heap = rest } in
        let t = decode_step p e.when e.ref dr s' in
        let (f, d, x) = decode_step_lem p e.when e.ref dr s' g in
        let b = All-get_elem? IsBatched s.dreps e.ref dr h.batched g in
        let done = filter f dr.iter_batch in
        let part = Removable-batch dr f b in
        (
          chain (still popped) (
              finished-Flow e.ref done dr d s' t g part x.alters x.running_eq (λ w. omega (
                arith,
                x.completed_eq w,
                sum_same (λ r. w (s.reqs r).idx) w done (λ r. ap w (h.numbered r)),
              ))),
          record {
            numbered = λ r. x.alters.idx_eq r ∙ h.numbered r;
            batched = subst (All IsBatched) (sym x.alters.dreps_eq) (
                All-set_nth IsBatched s.dreps e.ref d h.batched (record {
                  joined = d.running;
                  split = ap (λ xs. xs ++ d.running) (sym x.batch_eq);
                  at_rest = λ _. x.batch_eq;
                }));
          },
        )
      where
        popped : Still s (record s { heap = rest })
        popped w arriving =
            let k = arriving_of w in
            let l = ap (λ g. arriving_weight w g e.ref) q in omega (arith, k, l)
        popped w queued = refl
        popped w prefilling = refl
        popped w moving =
            let k = moving_of w in
            let l = ap (λ g. moving_weight w g e.ref) q in omega (arith, k, l)
        popped w parked = refl
        popped w decoding = refl
        popped w finished = refl

  pub Goes-Rules : Rules p Goes
  Goes-Rules = record {
    same = λ s h. (still (λ w z. refl), h);
    trans = λ s t u f g h. let (a, b) = f h in let (c, d) = g b in (chain a c, d);
    at_start = Goes-start p;
    at_admit = λ i dr r rs s g q c. Goes-admit p i dr r rs s g q;
    at_preempt = λ i dr v s g d n m. Goes-preempt p i dr v s g n m;
    at_note = Goes-note p;
    at_launch = λ now i dr s g n c. Goes-launch p now i dr s g;
    at_clear = Goes-clear p;
    at_arrival = Goes-arrival;
    at_send = λ e rest pr r s o q g c. Goes-send e rest s o pr r q g c;
    at_deliver = Goes-deliver;
    at_decode = λ e rest dr s o q g. Goes-decode e rest s o dr q g;
  }
