-- ===== src/Disagg/Events.antt =====
-- The rule of `Rules` for an event of `serve_disagg`.
use inferencesim.Prelude.{
  Bool, true, if◌then◌else◌, ap, sym, ◌∙◌, false, ℕ, ◌≡◌, refl, List, ◌∷◌, Option, none, some, ltb,
  Option-cases, if_elim, get_elem?, inl, inr, subst,
}
use mathlib.Core.Option.{none-ne-some, some-injective}
use inferencesim.Sched.Heap.{pop_min}
use inferencesim.Disagg.State.{
  Pools, PrefillReplica, State, Event, Tag, arrival, prefill_done, transfer_done, decode_done,
  earlier,
}
use inferencesim.Disagg.Prefill.{on_arrival, sent_on, on_prefill_done}
use inferencesim.Disagg.Decode.{on_transfer_done, on_decode_done}
use inferencesim.Disagg.Step.{on_event, unless_failed, handle}
use inferencesim.Disagg.Rules.{Rules, IsPopped, popped_lem}
use inferencesim.Disagg.Dispatch.{dispatch_prefill_rule, dispatch_decode_rule}

settled :
    (b : Bool) (u t : State)
    → (if b then none else some u) ≡ some t
    → (some u ≡ some t) × (b ≡ false)
settled true u t h = absurd (none-ne-some t h)
settled false u t h = (h, refl)

-- An event that is handled has come to its end.
pub unless_failed-some :
    (o : Option State) (t : State) → unless_failed o ≡ some t → (o ≡ some t) × (t.failed ≡ false)
unfolding unless_failed
unless_failed-some none t h = absurd (none-ne-some t h)
unless_failed-some (some u) t h =
    let (e, f) = settled u.failed u t h in
    (e, sym (ap (λ (x : State). x.failed) (some-injective u t e)) ∙ f)

module _ (p : Pools) (R : State → State → Type 0) (k : Rules p R) where
  on_arrival_rule :
      (e : Event) (rest : List Event) (s t : State)
      → IsPopped s e rest
      → e.tag ≡ arrival
      → on_arrival p e.when e.ref (record s { heap = rest }) ≡ some t
      → R s t
  unfolding on_arrival
  on_arrival_rule e rest s t o g =
      if_elim (λ (x : Option State). x ≡ some t → R s t) (ltb e.ref p.n_total)
        (λ c q.
          subst (R s) (some-injective _ t q)
            (k.trans _ _ _ (k.at_arrival e rest s o g) (dispatch_prefill_rule p R k e.when _)))
        (λ c q. absurd (none-ne-some t q))

  sent_on_rule :
      (e : Event) (rest : List Event) (pr : PrefillReplica) (o : Option ℕ) (s t : State)
      → IsPopped s e rest
      → e.tag ≡ prefill_done
      → get_elem? s.preps e.ref ≡ some pr
      → pr.current ≡ o
      → sent_on p e.when e.ref pr o (record s { heap = rest }) ≡ some t
      → R s t
  unfolding sent_on
  sent_on_rule e rest pr none s t o g n c h = absurd (none-ne-some t h)
  sent_on_rule e rest pr (some r) s t o g n c h =
      subst (R s) (some-injective _ t h)
        (k.trans _ _ _ (k.at_send e rest pr r s o g n c) (dispatch_prefill_rule p R k e.when _))

  on_prefill_done_rule :
      (e : Event) (rest : List Event) (s t : State)
      → IsPopped s e rest
      → e.tag ≡ prefill_done
      → on_prefill_done p e.when e.ref (get_elem? s.preps e.ref) (record s { heap = rest }) ≡ some t
      → R s t
  unfolding on_prefill_done
  on_prefill_done_rule e rest s t o g h = elim (Option-cases (get_elem? s.preps e.ref)) [
    | inl n ↦ absurd (none-ne-some t (rw n at h))
    | inr (pr, n) ↦ sent_on_rule e rest pr pr.current s t o g n refl (rw n at h)
  ]

  on_transfer_done_rule :
      (e : Event) (rest : List Event) (s t : State)
      → IsPopped s e rest
      → e.tag ≡ transfer_done
      → on_transfer_done p e.when e.ref (record s { heap = rest }) ≡ some t
      → R s t
  unfolding on_transfer_done
  on_transfer_done_rule e rest s t o g =
      if_elim (λ (x : Option State). x ≡ some t → R s t) (ltb e.ref p.n_total)
        (λ c q.
          subst (R s) (some-injective _ t q)
            (k.trans _ _ _ (k.at_deliver e rest s o g) (dispatch_decode_rule p R k e.when _)))
        (λ c q. absurd (none-ne-some t q))

  on_decode_done_rule :
      (e : Event) (rest : List Event) (s t : State)
      → IsPopped s e rest
      → e.tag ≡ decode_done
      → on_decode_done p e.when e.ref (get_elem? s.dreps e.ref) (record s { heap = rest }) ≡ some t
      → R s t
  unfolding on_decode_done
  on_decode_done_rule e rest s t o g h = elim (Option-cases (get_elem? s.dreps e.ref)) [
    | inl n ↦ absurd (none-ne-some t (rw n at h))
    | inr (dr, n) ↦
        subst (R s) (some-injective _ t (rw n at h))
          (k.trans _ _ _ (k.at_decode e rest dr s o g n) (dispatch_decode_rule p R k e.when _))
  ]

  pub on_event_rule :
      (g : Tag) (e : Event) (rest : List Event) (s t : State)
      → IsPopped s e rest
      → e.tag ≡ g
      → on_event p g e.when e.ref (record s { heap = rest }) ≡ some t
      → R s t
  unfolding on_event
  on_event_rule arrival e rest s t o g h = on_arrival_rule e rest s t o g h
  on_event_rule prefill_done e rest s t o g h = on_prefill_done_rule e rest s t o g h
  on_event_rule transfer_done e rest s t o g h = on_transfer_done_rule e rest s t o g h
  on_event_rule decode_done e rest s t o g h = on_decode_done_rule e rest s t o g h

  pub handle_rule :
      (e : Event) (es : List Event) (s t : State)
      → s.heap ≡ e ∷ es
      → handle p e es s ≡ some t
      → R s t
  unfolding handle
  handle_rule e es s t w h =
      on_event_rule _ (pop_min earlier e es).0 (pop_min earlier e es).1 s t (popped_lem e es s w)
        refl (unless_failed-some _ t h).0
