-- ===== src/Disagg/Safe.antt =====
-- What holds in every state that the event loop of `serve_disagg` reaches.
use inferencesim.Prelude.{
  ℕ, zero, suc, ◌+◌, ◌≡◌, ◌≤◌, ◌<◌, refl, sym, ap, ◌∙◌, subst, Bool, true, false, List, [], ◌∷◌,
  Option, none, some, sum, length, arith, All, if◌then◌else◌, ltb,
}
use inferencesim.Serve.Request.{Req}
use inferencesim.Sched.Heap.{pop_min}
use inferencesim.Disagg.State.{
  Pools, State, Event, Tag, arrival, prefill_done, transfer_done, decode_done, begin, idle_state,
  earlier, copies, new_prep, new_drep, table,
}
use inferencesim.Disagg.Prefill.{on_arrival, sent_on, on_prefill_done}
use inferencesim.Disagg.Decode.{full_fp, on_transfer_done, on_decode_done}
use inferencesim.Disagg.Step.{on_event, unless_failed, handle}
use inferencesim.Disagg.Place.{
  Place, arriving, queued, prefilling, moving, parked, decoding, finished, arriving_weight,
  moving_weight, view, here, Flow, still, moved, chain,
}
use inferencesim.Disagg.Rules.{IsPopped, popped_lem}
use inferencesim.Disagg.Events.{handle_rule, on_event_rule, unless_failed-some}
use inferencesim.Disagg.Unfailed.{Stays, Stays-Rules}
use inferencesim.Disagg.Wired.{Goes, IsWired}
use inferencesim.Disagg.Course.{Goes-Rules}
use inferencesim.Disagg.Weights.{
  IsLive, Lives, sum_at, is_filling, filling_weight, iterating_weight, filling_at, iterating_at,
}
use inferencesim.Disagg.Live.{Lives-Rules, event-iterating, event-filling}
use inferencesim.Disagg.Reserve.{IsCommitted, IsKept, Keeps, Keeps-Rules}
use inferencesim.Disagg.Reach.{
  Reach, begun, turned, IsNumbered, IsSeeded, seed_lem, All-copies, sum_zero, view-begin,
  Reach-IsWired,
}

-- The sum of a weight over the requests at all places.
abbrev pub all_places : (ℕ → ℕ) → State → ℕ
all_places w s =
    view w s arriving
    + view w s queued
    + view w s prefilling
    + view w s moving
    + view w s parked
    + view w s decoding
    + view w s finished

here_total :
    (x : Place) (k : ℕ)
    → here x arriving k
        + here x queued k
        + here x prefilling k
        + here x moving k
        + here x parked k
        + here x decoding k
        + here x finished k
      ≡ k
here_total arriving k = omega arith
here_total queued k = omega arith
here_total prefilling k = omega arith
here_total moving k = omega arith
here_total parked k = omega arith
here_total decoding k = omega arith
here_total finished k = omega arith

all_places-Flow : (w : ℕ → ℕ) (s t : State) → Flow s t → all_places w t ≡ all_places w s
all_places-Flow w s t (still m) = omega (
  arith,
  m w arriving,
  m w queued,
  m w prefilling,
  m w moving,
  m w parked,
  m w decoding,
  m w finished,
)
all_places-Flow w s t (chain {t = u} f g) = all_places-Flow w u t g ∙ all_places-Flow w s u f
all_places-Flow w s t (moved x y r way m) = omega (
  arith,
  m w arriving,
  m w queued,
  m w prefilling,
  m w moving,
  m w parked,
  m w decoding,
  m w finished,
  here_total x (w r),
  here_total y (w r),
)

-- The weight of the numbers that are no request's.
abbrev past : ℕ → ℕ → ℕ
past n i = if ltb i n then 0 else 1

sum-past :
    (n k : ℕ) (rs : List Req)
    → IsNumbered k rs
    → k + length rs ≤ n
    → sum (λ (r : Req). past n r.idx) rs ≡ 0
sum-past n k [] h l = refl
sum-past n k (r ∷ rs) (h, hs) l =
    let q = sum-past n (k + 1) rs hs (omega arith) in
    let b : r.idx < n = omega arith in ground (arith, q, b)

sum_at-copies :
    {A : Type 0} (f : ℕ → A → ℕ) (n k : ℕ) (x : A)
    → ((j : ℕ) → f j x ≡ 0)
    → sum_at f k (copies n x) ≡ 0
unfolding copies
sum_at-copies f zero k x h = refl
sum_at-copies f (suc n) k x h = omega (arith, h k, sum_at-copies f n (k + 1) x h)

below : (i n : ℕ) → past n i ≡ 0 → ltb i n ≡ true
below i n h = ground arith

some_if :
    {A : Type 0} {b : Bool} (x : A) → b ≡ true → (t : A) × ((if b then some x else none) ≡ some t)
some_if x e = (x, rw e refl)

filled_some : (o : Option ℕ) → is_filling o ≡ true → (r : ℕ) × (o ≡ some r)
filled_some none h = cc
filled_some (some r) h = (r, refl)

module _ (p : Pools) (n_p n_d : ℕ) (reqs_in : List Req) (n : IsNumbered 0 reqs_in) where
  abbrev first : State
  first = begin reqs_in n_p n_d

  seeded : IsSeeded reqs_in (idle_state reqs_in n_p n_d) first
  seeded = seed_lem reqs_in (idle_state reqs_in n_p n_d)

  IsLive-begin : IsLive first
  IsLive-begin = record {
    filling_eq = λ w.
        let h =
          seeded.heap_sum (λ (e : Event). filling_weight w e.tag e.ref) (λ _. 0)
            (λ e q. ap (λ g. filling_weight w g e.ref) q) in
        let k = ap (sum_at (filling_at w) 0) seeded.preps_eq in
        omega
          (arith, h, k, sum_zero reqs_in, sum_at-copies (filling_at w) n_p 0 new_prep (λ j. refl));
    iterating_eq = λ w.
        let h =
          seeded.heap_sum (λ (e : Event). iterating_weight w e.tag e.ref) (λ _. 0)
            (λ e q. ap (λ g. iterating_weight w g e.ref) q) in
        let k = ap (sum_at (iterating_at w) 0) seeded.dreps_eq in
        omega (
          arith,
          h,
          k,
          sum_zero reqs_in,
          sum_at-copies (iterating_at w) n_d 0 new_drep (λ j. refl),
        );
  }

  Reach-IsLive : {s : State} → Reach p n_p n_d reqs_in s → IsLive s
  Reach-IsLive begun = IsLive-begin
  Reach-IsLive (turned {s} {t} {e} {es} r w h) =
      handle_rule p Lives (Lives-Rules p) e es s t w h (Reach-IsLive r)

  start_past : all_places (past (length reqs_in)) first ≡ 0
  start_past =
      let w = past (length reqs_in) in
      let v = view-begin p n_p n_d reqs_in n w in
      omega (
        arith,
        v arriving,
        v queued,
        v prefilling,
        v moving,
        v parked,
        v decoding,
        v finished,
        sum-past (length reqs_in) 0 reqs_in n (omega arith),
      )

  Reach-past : {s : State} → Reach p n_p n_d reqs_in s → all_places (past (length reqs_in)) s ≡ 0
  Reach-past begun = start_past
  Reach-past (turned {s} {t} {e} {es} r w h) =
      all_places-Flow (past (length reqs_in)) s t
        (handle_rule p Goes (Goes-Rules p) e es s t w h (Reach-IsWired p n_p n_d reqs_in n r)).0
      ∙ Reach-past r

  event_some :
      (g : Tag) (e : Event) (rest : List Event) (s : State)
      → p.n_total ≡ length reqs_in
      → IsPopped s e rest
      → e.tag ≡ g
      → IsLive s
      → all_places (past (length reqs_in)) s ≡ 0
      → (t : State) × (on_event p g e.when e.ref (record s { heap = rest }) ≡ some t)
  unfolding on_event on_arrival on_prefill_done sent_on on_transfer_done on_decode_done
  event_some arrival e rest s l o q h z =
      let k = o.sum_eq (λ (x : Event). arriving_weight (past (length reqs_in)) x.tag x.ref) in
      let m = ap (λ g. arriving_weight (past (length reqs_in)) g e.ref) q in
      let b : ltb e.ref p.n_total ≡ true = rw l (below e.ref (length reqs_in) (omega arith)) in
      some_if _ b
  event_some prefill_done e rest s l o q h z =
      let (pr, g, c) = event-filling p e rest s o q h in
      let (r, d) = filled_some pr.current c in
      subst
        (λ x. (t : State) × (on_prefill_done p e.when e.ref x (record s { heap = rest }) ≡ some t))
        (sym g)
        (subst
          (λ x. (t : State) × (sent_on p e.when e.ref pr x (record s { heap = rest }) ≡ some t))
          (sym d) (_, refl))
  event_some transfer_done e rest s l o q h z =
      let k = o.sum_eq (λ (x : Event). moving_weight (past (length reqs_in)) x.tag x.ref) in
      let m = ap (λ g. moving_weight (past (length reqs_in)) g e.ref) q in
      let b : ltb e.ref p.n_total ≡ true = rw l (below e.ref (length reqs_in) (omega arith)) in
      some_if _ b
  event_some decode_done e rest s l o q h z =
      let (dr, g, c) = event-iterating p e rest s o q h in
      subst
        (λ x. (t : State) × (on_decode_done p e.when e.ref x (record s { heap = rest }) ≡ some t))
        (sym g) (_, refl)

  Reach-unfailed : {s : State} → Reach p n_p n_d reqs_in s → s.failed ≡ false
  Reach-unfailed begun = seeded.failed_eq
  Reach-unfailed (turned {s} {t} {e} {es} r w h) = unfold handle in (unless_failed-some _ t h).1

  settled :
      (o : Option State) (t : State) → o ≡ some t → t.failed ≡ false → unless_failed o ≡ some t
  unfolding unless_failed
  settled o t e f = rw e (rw f refl)

  -- No event raises: in every state that the loop reaches, whose heap has the entry `e` and the entries
  -- `es`, the next event is handled. A request that it names is there, and the replica of a
  -- `prefill_done` has a request. A request that is removed from a replica runs there. The requests are numbered in
  -- their order, and there are `n_total`.
  pub handle-some :
      (e : Event) (es : List Event) (s : State)
      → p.n_total ≡ length reqs_in
      → Reach p n_p n_d reqs_in s
      → s.heap ≡ e ∷ es
      → (t : State) × (handle p e es s ≡ some t)
  unfolding handle
  handle-some e es s l r w =
      let first = (pop_min earlier e es).0 in
      let rest = (pop_min earlier e es).1 in
      let o = popped_lem e es s w in
      let (t, q) = event_some _ first rest s l o refl (Reach-IsLive r) (Reach-past r) in
      let (f, _) =
        on_event_rule p Stays (Stays-Rules p) first.tag first rest s t o refl q
          (Reach-IsWired p n_p n_d reqs_in n r) in
      (t, settled _ t q (f ∙ Reach-unfailed r))

IsKept-begin :
    (p : Pools) (full : ℕ → ℕ) (n_p n_d : ℕ) (reqs_in : List Req)
    → ((r : ℕ) → full_fp p (table reqs_in) r ≡ full r)
    → IsKept p full (begin reqs_in n_p n_d)
IsKept-begin p full n_p n_d reqs_in f =
    let h = seed_lem reqs_in (idle_state reqs_in n_p n_d) in
    record {
      lens = λ r. ap (λ (reqs : ℕ → Req). full_fp p reqs r) h.reqs_eq ∙ f r;
      committed = subst (All (IsCommitted p full)) (sym h.dreps_eq) (
          All-copies (IsCommitted p full) n_d new_drep
            (record { capacity = omega arith; reserved = λ d. refl; within = λ d. omega arith }));
    }

-- The invariant of the commitments, with the guard as a bound on every footprint.
pub Reach-IsKept :
    (p : Pools) (n_p n_d : ℕ) (reqs_in : List Req) {s : State}
    → IsNumbered 0 reqs_in
    → 0 < p.max_batch
    → ((r : ℕ) → full_fp p (table reqs_in) r ≤ p.kv_budget + p.eps)
    → Reach p n_p n_d reqs_in s
    → IsKept p (full_fp p (table reqs_in)) s
Reach-IsKept p n_p n_d reqs_in n b g r = (kept r).1
  where
    full : ℕ → ℕ
    full = full_fp p (table reqs_in)

    kept : {s : State} → Reach p n_p n_d reqs_in s → IsWired s × IsKept p full s
    kept begun =
        (Reach-IsWired p n_p n_d reqs_in n begun, IsKept-begin p full n_p n_d reqs_in (λ r. refl))
    kept (turned {s} {t} {e} {es} r w h) =
        handle_rule p (Keeps p full b g) (Keeps-Rules p full b g) e es s t w h (kept r)
