-- ===== src/Disagg/Live.antt =====
-- The heap of `serve_disagg` against its pools: an event `prefill_done` for each replica that prefills,
-- and an event `decode_done` for each that iterates.
use inferencesim.Prelude.{
  ℕ, ◌+◌, ◌≡◌, refl, sym, ap, ◌∙◌, true, false, List, [], ◌∷◌, ◌++◌, none, some, sum, arith,
  get_elem?, if◌then◌else◌, ◌==◌, if_elim, length, ltb, ◌&&◌,
}
use mathlib.Core.Option.{some-injective}
use inferencesim.Serve.Conserve.{only}
use inferencesim.Disagg.State.{
  Pools, PrefillReplica, DecodeReplica, State, Event, arrival, prefill_done, transfer_done,
  decode_done, write, push,
}
use inferencesim.Disagg.Prefill.{start_prefill, note_arrival, send}
use inferencesim.Disagg.Decode.{
  first_token, admit_to_decode, preempt_from_decode, note_forced, launch, decode_step,
}
use inferencesim.Disagg.Rules.{IsPopped, Rules}
use inferencesim.Disagg.Tokens.{decode_step_lem}
use inferencesim.Disagg.Weights.{
  sum_at-set_nth, sum_at-find, same_pool, filling_weight, iterating_weight, is_filling, filling_at,
  iterating_at, filling_events, iterating_events, IsLive, Lives, sum_at,
}

module _ (p : Pools) where
  Lives-start :
      (now i : ℕ) (pr : PrefillReplica) (r : ℕ) (rs : List ℕ) (s : State)
      → get_elem? s.preps i ≡ some pr
      → pr.current ≡ none
      → Lives s (start_prefill p now i pr r rs s)
  unfolding start_prefill push
  Lives-start now i pr r rs s g n h = record {
    filling_eq = λ w.
        let k : sum_at (filling_at w) 0 (start_prefill p now i pr r rs s).preps
              + filling_at w (0 + i) pr
            ≡ sum_at (filling_at w) 0 s.preps + w (0 + i) =
          sum_at-set_nth (filling_at w) 0 s.preps i _ pr g in
        let l : filling_at w (0 + i) pr ≡ 0 = ap (λ c. if is_filling c then w (0 + i) else 0) n in
        let m : w (0 + i) ≡ w i = ap w (omega arith) in
        let q = h.filling_eq w in omega (arith, k, l, m, q);
    iterating_eq = λ w. omega (arith, h.iterating_eq w);
  }

  Lives-admit :
      (i : ℕ) (dr : DecodeReplica) (r : ℕ) (rs : List ℕ) (s : State)
      → get_elem? s.dreps i ≡ some dr
      → Lives s (admit_to_decode p i dr r (record s { waiting_decode = rs }))
  unfolding admit_to_decode
  Lives-admit i dr r rs s g h = record {
    filling_eq = h.filling_eq;
    iterating_eq = λ w. h.iterating_eq w ∙ sym (same_pool w s.dreps i _ dr g refl);
  }

  Lives-preempt :
      (i : ℕ) (dr : DecodeReplica) (v : ℕ) (s : State)
      → get_elem? s.dreps i ≡ some dr
      → Lives s (preempt_from_decode p i dr v s)
  unfolding preempt_from_decode
  Lives-preempt i dr v s g h = record {
    filling_eq = h.filling_eq;
    iterating_eq = λ w. h.iterating_eq w ∙ sym (same_pool w s.dreps i _ dr g refl);
  }

  Lives-note : (dr : DecodeReplica) (s : State) → Lives s (note_forced p dr s)
  unfolding note_forced
  Lives-note dr s =
      if_elim (Lives s)
        (length dr.running == 1 && ltb (p.usable + p.eps) (dr.kv_used + p.kv.kv_per_token))
        {x = record s { stat = record s.stat { forced = s.stat.forced + 1 } }}
        (λ c h. record { filling_eq = h.filling_eq; iterating_eq = h.iterating_eq }) (λ c h. h)

  Lives-launch :
      (now i : ℕ) (dr : DecodeReplica) (s : State)
      → get_elem? s.dreps i ≡ some dr
      → dr.iterating ≡ false
      → Lives s (launch p now i dr s)
  unfolding launch push
  Lives-launch now i dr s g n h = record {
    filling_eq = λ w. omega (arith, h.filling_eq w);
    iterating_eq = λ w.
        let k : sum_at (iterating_at w) 0 (launch p now i dr s).dreps + iterating_at w (0 + i) dr
            ≡ sum_at (iterating_at w) 0 s.dreps + w (0 + i) =
          sum_at-set_nth (iterating_at w) 0 s.dreps i _ dr g in
        let l : iterating_at w (0 + i) dr ≡ 0 = ap (λ b. if b then w (0 + i) else 0) n in
        let m : w (0 + i) ≡ w i = ap w (omega arith) in
        let q = h.iterating_eq w in omega (arith, k, l, m, q);
  }

  module _ (e : Event) (rest : List Event) (s : State) (o : IsPopped s e rest) where
    filling_of :
        (w : ℕ → ℕ)
        → filling_weight w e.tag e.ref + filling_events w (record s { heap = rest })
          ≡ filling_events w s
    filling_of w = o.sum_eq (λ (x : Event). filling_weight w x.tag x.ref)

    iterating_of :
        (w : ℕ → ℕ)
        → iterating_weight w e.tag e.ref + iterating_events w (record s { heap = rest })
          ≡ iterating_events w s
    iterating_of w = o.sum_eq (λ (x : Event). iterating_weight w x.tag x.ref)

    -- An event of a request off the heap.
    Lives-rest :
        ((w : ℕ → ℕ) → filling_weight w e.tag e.ref ≡ 0)
        → ((w : ℕ → ℕ) → iterating_weight w e.tag e.ref ≡ 0)
        → Lives s (record s { heap = rest })
    Lives-rest f g h = record {
      filling_eq = λ w. omega (arith, f w, filling_of w, h.filling_eq w);
      iterating_eq = λ w. omega (arith, g w, iterating_of w, h.iterating_eq w);
    }

    Lives-arrival :
        e.tag ≡ arrival
        → Lives s (
            note_arrival p
              (record s { heap = rest; waiting_prefill = s.waiting_prefill ++ e.ref ∷ [] }))
    unfolding note_arrival
    Lives-arrival q h =
        let k =
          Lives-rest (λ w. ap (λ g. filling_weight w g e.ref) q)
            (λ w. ap (λ g. iterating_weight w g e.ref) q) h in
        record { filling_eq = k.filling_eq; iterating_eq = k.iterating_eq }

    Lives-deliver :
        e.tag ≡ transfer_done
        → Lives s (record s {
          heap = rest;
          reqs = write e.ref (first_token e.when) s.reqs;
          waiting_decode = s.waiting_decode ++ e.ref ∷ [];
        })
    Lives-deliver q h =
        let k =
          Lives-rest (λ w. ap (λ g. filling_weight w g e.ref) q)
            (λ w. ap (λ g. iterating_weight w g e.ref) q) h in
        record { filling_eq = k.filling_eq; iterating_eq = k.iterating_eq }

    Lives-send :
        (pr : PrefillReplica) (r : ℕ)
        → e.tag ≡ prefill_done
        → get_elem? s.preps e.ref ≡ some pr
        → pr.current ≡ some r
        → Lives s (send p e.when e.ref pr r (record s { heap = rest }))
    unfolding send push
    Lives-send pr r q g c h = record {
      filling_eq = λ w.
          let k : sum_at (filling_at w) 0
                  (send p e.when e.ref pr r (record s { heap = rest })).preps
                + filling_at w (0 + e.ref) pr
              ≡ sum_at (filling_at w) 0 s.preps + 0 =
            sum_at-set_nth (filling_at w) 0 s.preps e.ref _ pr g in
          let l : filling_at w (0 + e.ref) pr ≡ w (0 + e.ref) =
            ap (λ c. if is_filling c then w (0 + e.ref) else 0) c in
          let m : w (0 + e.ref) ≡ w e.ref = ap w (omega arith) in
          let n = ap (λ g. filling_weight w g e.ref) q in
          omega (arith, k, l, m, n, filling_of w, h.filling_eq w);
      iterating_eq = λ w.
          let n = ap (λ g. iterating_weight w g e.ref) q in
          omega (arith, n, iterating_of w, h.iterating_eq w);
    }

    -- A replica whose event `decode_done` is on the heap iterates.
    pub event-iterating :
        e.tag ≡ decode_done
        → IsLive s
        → (dr : DecodeReplica) × (get_elem? s.dreps e.ref ≡ some dr) × (dr.iterating ≡ true)
    event-iterating q h =
        let k = iterating_of (only e.ref) in
        let l = h.iterating_eq (only e.ref) in
        let n = ap (λ g. iterating_weight (only e.ref) g e.ref) q in
        let one : only e.ref e.ref ≡ 1 = ground arith in
        sum_at-find (λ (d : DecodeReplica). d.iterating) e.ref e.ref 0 s.dreps (omega arith)
          (omega (arith, k, l, n, one))

    -- A replica whose event `prefill_done` is on the heap has a request.
    pub event-filling :
        e.tag ≡ prefill_done
        → IsLive s
        → (pr : PrefillReplica) × (get_elem? s.preps e.ref ≡ some pr)
          × (is_filling pr.current ≡ true)
    event-filling q h =
        let k = filling_of (only e.ref) in
        let l = h.filling_eq (only e.ref) in
        let n = ap (λ g. filling_weight (only e.ref) g e.ref) q in
        let one : only e.ref e.ref ≡ 1 = ground arith in
        sum_at-find (λ (pr : PrefillReplica). is_filling pr.current) e.ref e.ref 0 s.preps
          (omega arith) (omega (arith, k, l, n, one))

    Lives-decode :
        (dr : DecodeReplica)
        → e.tag ≡ decode_done
        → get_elem? s.dreps e.ref ≡ some dr
        → Lives s (decode_step p e.when e.ref dr (record s { heap = rest }))
    Lives-decode dr q g h =
        let s' : State = record s { heap = rest } in
        let (f, d, x) = decode_step_lem p e.when e.ref dr s' g in
        let (d0, g0, turning) = event-iterating q h in
        let same : dr ≡ d0 = some-injective dr d0 (sym g ∙ g0) in
        let on : dr.iterating ≡ true = ap (λ (y : DecodeReplica). y.iterating) same ∙ turning in
        record {
          filling_eq = λ w.
              let n = ap (λ g. filling_weight w g e.ref) q in
              let a = ap (sum (λ (y : Event). filling_weight w y.tag y.ref)) x.alters.heap_eq in
              let b = ap (sum_at (filling_at w) 0) x.alters.preps_eq in
              omega (arith, n, a, b, filling_of w, h.filling_eq w);
          iterating_eq = λ w.
              let n = ap (λ g. iterating_weight w g e.ref) q in
              let a = ap (sum (λ (y : Event). iterating_weight w y.tag y.ref)) x.alters.heap_eq in
              let b = ap (sum_at (iterating_at w) 0) x.alters.dreps_eq in
              let k = sum_at-set_nth (iterating_at w) 0 s.dreps e.ref d dr g in
              let l : iterating_at w (0 + e.ref) dr ≡ w (0 + e.ref) =
                ap (λ b. if b then w (0 + e.ref) else 0) on in
              let m : iterating_at w (0 + e.ref) d ≡ 0 =
                ap (λ b. if b then w (0 + e.ref) else 0) x.iterating_eq in
              let u : w (0 + e.ref) ≡ w e.ref = ap w (omega arith) in
              omega (arith, n, a, b, k, l, m, u, iterating_of w, h.iterating_eq w);
        }

  pub Lives-Rules : Rules p Lives
  Lives-Rules = record {
    same = λ s h. h;
    trans = λ s t u f g h. g (f h);
    at_start = λ now i pr r rs s g n q. Lives-start now i pr r rs s g n;
    at_admit = λ i dr r rs s g q c. Lives-admit i dr r rs s g;
    at_preempt = λ i dr v s g d n m. Lives-preempt i dr v s g;
    at_note = Lives-note;
    at_launch = λ now i dr s g n c. Lives-launch now i dr s g n;
    at_clear = λ s h. record { filling_eq = h.filling_eq; iterating_eq = h.iterating_eq };
    at_arrival = Lives-arrival;
    at_send = λ e rest pr r s o q g c. Lives-send e rest s o pr r q g c;
    at_deliver = Lives-deliver;
    at_decode = λ e rest dr s o q g. Lives-decode e rest s o dr q g;
  }
