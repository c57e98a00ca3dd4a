-- ===== src/Disagg/Rules.antt =====
-- Rules for the event loop of `serve_disagg`: what relates the states before and after each elementary
-- operation, and is transitive, relates the states before and after an event.
use inferencesim.Prelude.{
  ℕ, ◌+◌, ◌≡◌, ap, sym, ◌∙◌, true, false, List, [], ◌∷◌, ◌++◌, none, some, In, sum, get_elem?,
  is_empty, ◌⊎◌, All, subst,
}
use inferencesim.Sched.Heap.{pop_min, pop_min-sum, All-pop_min}
use inferencesim.Disagg.State.{
  Pools, PrefillReplica, DecodeReplica, State, Event, arrival, prefill_done, transfer_done,
  decode_done, earlier, write,
}
use inferencesim.Disagg.Prefill.{start_prefill, note_arrival, send}
use inferencesim.Disagg.Decode.{
  first_token, can_admit, admit_to_decode, preempt_from_decode, note_forced, launch, clear_victims,
  decode_step,
}

-- The earliest event `e` is off the heap, and `rest` is left.
pub record IsPopped (s : State) (e : Event) (rest : List Event) : Type 1 where
  pub sum_eq : (f : Event → ℕ) → f e + sum f rest ≡ sum f s.heap
  pub all_of : (P : Event → Type 0) → All P s.heap → P e × All P rest

pub popped_lem :
    (e : Event) (es : List Event) (s : State)
    → s.heap ≡ e ∷ es
    → IsPopped s (pop_min earlier e es).0 (pop_min earlier e es).1
popped_lem e es s w = record {
  sum_eq = λ f. pop_min-sum earlier f e es ∙ sym (ap (sum f) w);
  all_of = λ P a. let b = subst (All P) w a in All-pop_min earlier P e es b.0 b.1;
}

pub record Rules (p : Pools) (R : State → State → Type 0) : Type 1 where
  pub same : (s : State) → R s s
  pub trans : (s t u : State) → R s t → R t u → R s u
  pub at_start :
      (now i : ℕ) (pr : PrefillReplica) (r : ℕ) (rs : List ℕ) (s : State)
      → get_elem? s.preps i ≡ some pr
      → pr.current ≡ none
      → s.waiting_prefill ≡ r ∷ rs
      → R s (start_prefill p now i pr r rs s)
  pub at_admit :
      (i : ℕ) (dr : DecodeReplica) (r : ℕ) (rs : List ℕ) (s : State)
      → get_elem? s.dreps i ≡ some dr
      → s.waiting_decode ≡ r ∷ rs
      → (can_admit p s.reqs dr r ≡ true) ⊎ (is_empty dr.running ≡ true)
      → R s (admit_to_decode p i dr r (record s { waiting_decode = rs }))
  pub at_preempt :
      (i : ℕ) (dr : DecodeReplica) (v : ℕ) (s : State)
      → get_elem? s.dreps i ≡ some dr
      → p.on_demand ≡ true
      → dr.iterating ≡ false
      → In v dr.running
      → R s (preempt_from_decode p i dr v s)
  pub at_note : (dr : DecodeReplica) (s : State) → R s (note_forced p dr s)
  pub at_launch :
      (now i : ℕ) (dr : DecodeReplica) (s : State)
      → get_elem? s.dreps i ≡ some dr
      → dr.iterating ≡ false
      → is_empty dr.running ≡ false
      → R s (launch p now i dr s)
  pub at_clear : (s : State) → R s (clear_victims s)
  pub at_arrival :
      (e : Event) (rest : List Event) (s : State)
      → IsPopped s e rest
      → e.tag ≡ arrival
      → R s (
          note_arrival p
            (record s { heap = rest; waiting_prefill = s.waiting_prefill ++ e.ref ∷ [] }))
  pub at_send :
      (e : Event) (rest : List Event) (pr : PrefillReplica) (r : ℕ) (s : State)
      → IsPopped s e rest
      → e.tag ≡ prefill_done
      → get_elem? s.preps e.ref ≡ some pr
      → pr.current ≡ some r
      → R s (send p e.when e.ref pr r (record s { heap = rest }))
  pub at_deliver :
      (e : Event) (rest : List Event) (s : State)
      → IsPopped s e rest
      → e.tag ≡ transfer_done
      → R s (record s {
        heap = rest;
        reqs = write e.ref (first_token e.when) s.reqs;
        waiting_decode = s.waiting_decode ++ e.ref ∷ [];
      })
  pub at_decode :
      (e : Event) (rest : List Event) (dr : DecodeReplica) (s : State)
      → IsPopped s e rest
      → e.tag ≡ decode_done
      → get_elem? s.dreps e.ref ≡ some dr
      → R s (decode_step p e.when e.ref dr (record s { heap = rest }))
