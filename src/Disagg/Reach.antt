-- ===== src/Disagg/Reach.antt =====
-- The states that the event loop of `serve_disagg` passes through, and the course of each request.
use inferencesim.Prelude.{
  ℕ, zero, suc, ◌+◌, ◌≡◌, ◌≤◌, ◌<◌, refl, sym, ap, ◌∙◌, subst, List, [], ◌∷◌, some, sum, length,
  arith, get_elem?, All, ◌==◌, option_elim, Bool-cases, inl, inr,
}
use mathlib.Core.Option.{none-ne-some, some-injective}
use inferencesim.Serve.Request.{Req}
use inferencesim.Serve.Conserve.{only}
use inferencesim.Disagg.State.{
  Pools, State, Event, DecodeReplica, PrefillReplica, begin, seed, idle_state, table, copies, push,
  new_drep, new_prep, arrival,
}
use inferencesim.Disagg.Step.{handle}
use inferencesim.Disagg.Place.{
  Place, arriving, queued, prefilling, moving, parked, decoding, finished, Course, stop,
  Course-trans, arriving_weight, moving_weight, held, view, here, IsAt, IsAt-Flow,
}
use inferencesim.Disagg.Events.{handle_rule}
use inferencesim.Disagg.Wired.{IsWired, IsBatched, Goes}
use inferencesim.Disagg.Course.{Goes-Rules}

-- The requests of a run are numbered from `k` on, in their order.
abbrev pub IsNumbered : ℕ → List Req → Type 0
IsNumbered k [] = Unit
IsNumbered k (r ∷ rs) = (r.idx ≡ k) × IsNumbered (k + 1) rs

-- The loop has come to a state after some events.
pub data Reach (p : Pools) (n_p n_d : ℕ) (reqs_in : List Req) : State → Type 0 where
  begun : Reach p n_p n_d reqs_in (begin reqs_in n_p n_d)
  turned :
      {s t : State} {e : Event} {es : List Event}
      → Reach p n_p n_d reqs_in s
      → s.heap ≡ e ∷ es
      → handle p e es s ≡ some t
      → Reach p n_p n_d reqs_in t

-- The start of the loop seeds the heap, and nothing else.
pub record IsSeeded (rs : List Req) (s t : State) : Type 1 where
  pub reqs_eq : t.reqs ≡ s.reqs
  pub preps_eq : t.preps ≡ s.preps
  pub dreps_eq : t.dreps ≡ s.dreps
  pub prefill_eq : t.waiting_prefill ≡ s.waiting_prefill
  pub decode_eq : t.waiting_decode ≡ s.waiting_decode
  pub completed_eq : t.completed ≡ s.completed
  pub stat_eq : t.stat ≡ s.stat
  pub failed_eq : t.failed ≡ s.failed
  pub heap_sum :
      (f : Event → ℕ) (g : ℕ → ℕ)
      → ((e : Event) → e.tag ≡ arrival → f e ≡ g e.ref)
      → sum f t.heap ≡ sum (λ (r : Req). g r.idx) rs + sum f s.heap
  pub heap_all :
      (P : Event → Type 0)
      → All P s.heap
      → All (λ (r : Req). (e : Event) → e.tag ≡ arrival → e.ref ≡ r.idx → P e) rs
      → All P t.heap

pub seed_lem : (rs : List Req) (s : State) → IsSeeded rs s (seed rs s)
unfolding seed push
seed_lem [] s = record {
  reqs_eq = refl;
  preps_eq = refl;
  dreps_eq = refl;
  prefill_eq = refl;
  decode_eq = refl;
  completed_eq = refl;
  stat_eq = refl;
  failed_eq = refl;
  heap_sum = λ f g h. omega arith;
  heap_all = λ P a b. a;
}
seed_lem (r ∷ rs) s =
    let h = seed_lem rs (push r.arrival arrival r.idx s) in
    record {
      reqs_eq = h.reqs_eq;
      preps_eq = h.preps_eq;
      dreps_eq = h.dreps_eq;
      prefill_eq = h.prefill_eq;
      decode_eq = h.decode_eq;
      completed_eq = h.completed_eq;
      stat_eq = h.stat_eq;
      failed_eq = h.failed_eq;
      heap_sum = λ f g k.
          let a = h.heap_sum f g k in
          let b =
            k (record { when = r.arrival; seq = s.next_seq; tag = arrival; ref = r.idx }) refl in
          omega (arith, a, b);
      heap_all = λ P a b. h.heap_all P (b.0 _ refl refl, a) b.1;
    }

pub All-copies : {A : Type 0} (P : A → Type 0) (n : ℕ) (x : A) → P x → All P (copies n x)
unfolding copies
All-copies P zero x h = tt
All-copies P (suc n) x h = (h, All-copies P n x h)

sum-copies_zero : {A : Type 0} (f : A → ℕ) (n : ℕ) (x : A) → f x ≡ 0 → sum f (copies n x) ≡ 0
unfolding copies
sum-copies_zero f zero x h = refl
sum-copies_zero f (suc n) x h = omega (arith, h, sum-copies_zero f n x h)

numbered-get_elem? :
    (k : ℕ) (rs : List Req) (i : ℕ) (r : Req)
    → IsNumbered k rs
    → get_elem? rs i ≡ some r
    → r.idx ≡ k + i
numbered-get_elem? k [] i r h e = absurd (none-ne-some r e)
numbered-get_elem? k (x ∷ rs) zero r (h, hs) e =
    let q = ap (λ (y : Req). y.idx) (some-injective x r e) in omega (arith, q, h)
numbered-get_elem? k (x ∷ rs) (suc i) r (h, hs) e =
    omega (arith, numbered-get_elem? (k + 1) rs i r hs e)

table-idx : (rs : List Req) → IsNumbered 0 rs → (i : ℕ) → (table rs i).idx ≡ i
unfolding table
table-idx rs h i =
    option_elim (λ (r : Req). r.idx ≡ i) (get_elem? rs i) (λ e. refl)
      (λ r e. omega (arith, numbered-get_elem? 0 rs i r h e))

sum-only_less :
    (i k : ℕ) (rs : List Req) → IsNumbered k rs → i < k → sum (λ (r : Req). only i r.idx) rs ≡ 0
sum-only_less i k [] h a = refl
sum-only_less i k (r ∷ rs) (h, hs) a =
    let l = sum-only_less i (k + 1) rs hs (omega arith) in ground (arith, l, h)

-- A number below the number of the requests stands among theirs once.
pub sum-only :
    (i k : ℕ) (rs : List Req)
    → IsNumbered k rs
    → k ≤ i
    → i < k + length rs
    → sum (λ (r : Req). only i r.idx) rs ≡ 1
sum-only i k [] h a b = absurd (omega arith)
sum-only i k (r ∷ rs) (h, hs) a b = elim (Bool-cases (i == k)) [
  | inl e ↦
      let q : i ≡ k = ground arith in
      let l = sum-only_less i (k + 1) rs hs (omega arith) in ground (arith, l, h)
  | inr e ↦
      let q : k + 1 ≤ i = ground arith in
      let l = sum-only i (k + 1) rs hs q (omega arith) in ground (arith, l, h)
]

pub sum_zero : (rs : List Req) → sum (λ (r : Req). 0) rs ≡ 0
sum_zero [] = refl
sum_zero (r ∷ rs) = omega (arith, sum_zero rs)

module _ (p : Pools) (n_p n_d : ℕ) (reqs_in : List Req) (n : IsNumbered 0 reqs_in) where
  IsWired-begin : IsWired (begin reqs_in n_p n_d)
  IsWired-begin =
      let h = seed_lem reqs_in (idle_state reqs_in n_p n_d) in
      record {
        numbered = λ r. ap (λ (f : ℕ → Req). (f r).idx) h.reqs_eq ∙ table-idx reqs_in n r;
        batched = subst (All IsBatched) (sym h.dreps_eq) (
            All-copies IsBatched n_d new_drep
              (record { joined = []; split = refl; at_rest = λ e. refl }));
      }

  pub Reach-IsWired : {s : State} → Reach p n_p n_d reqs_in s → IsWired s
  Reach-IsWired begun = IsWired-begin
  Reach-IsWired (turned {s} {t} {e} {es} r w h) =
      (handle_rule p Goes (Goes-Rules p) e es s t w h (Reach-IsWired r)).1

  -- At the start all requests are arriving.
  pub view-begin :
      (w : ℕ → ℕ) (z : Place)
      → view w (begin reqs_in n_p n_d) z ≡ here arriving z (sum (λ (r : Req). w r.idx) reqs_in)
  view-begin w z = at (seed_lem reqs_in (idle_state reqs_in n_p n_d)) z
    where
      at :
          IsSeeded reqs_in (idle_state reqs_in n_p n_d) (begin reqs_in n_p n_d)
          → (z : Place)
          → view w (begin reqs_in n_p n_d) z ≡ here arriving z (sum (λ (r : Req). w r.idx) reqs_in)
      at h arriving =
          let k =
            h.heap_sum (λ (e : Event). arriving_weight w e.tag e.ref) w
              (λ e q. ap (λ g. arriving_weight w g e.ref) q) in
          omega (arith, k)
      at h queued = ap (sum w) h.prefill_eq
      at h prefilling =
          ap (sum _) h.preps_eq
          ∙ sum-copies_zero (λ (pr : PrefillReplica). held w pr.current) n_p new_prep refl
      at h moving =
          let k =
            h.heap_sum (λ (e : Event). moving_weight w e.tag e.ref) (λ _. 0)
              (λ e q. ap (λ g. moving_weight w g e.ref) q) in
          omega (arith, k, sum_zero reqs_in)
      at h parked = ap (sum w) h.decode_eq
      at h decoding =
          ap (sum _) h.dreps_eq
          ∙ sum-copies_zero (λ (dr : DecodeReplica). sum w dr.running) n_d new_drep refl
      at h finished = ap (sum _) h.completed_eq

  IsAt-begin : (i : ℕ) → i < length reqs_in → IsAt i arriving (begin reqs_in n_p n_d)
  IsAt-begin i l z =
      view-begin (only i) z
      ∙ ap (here arriving z) (sum-only i 0 reqs_in n (omega arith) (omega arith))

  -- Each event that the loop handles takes every request along a course of the seven places, of no or
  -- more ways: where a request stood at the place `x` alone before it, it stands at one place `y`
  -- alone after it, and ways lead from `x` to `y`. The requests are numbered in their order.
  handle-Course :
      (e : Event) (es : List Event) (s t : State)
      → Reach p n_p n_d reqs_in s
      → s.heap ≡ e ∷ es
      → handle p e es s ≡ some t
      → (i : ℕ) (x : Place) → IsAt i x s
      → (y : Place) × Course x y × IsAt i y t
  handle-Course e es s t r w h i x a =
      IsAt-Flow i x s t (handle_rule p Goes (Goes-Rules p) e es s t w h (Reach-IsWired r)).0 a

  -- No request is lost or is in two places: in every state that the loop reaches, each request of the
  -- run is at one place alone, to which a course leads from its arrival. The requests are numbered in
  -- their order.
  pub Reach-Course :
      {s : State}
      → Reach p n_p n_d reqs_in s
      → (i : ℕ) → i < length reqs_in
      → (x : Place) × Course arriving x × IsAt i x s
  Reach-Course begun i l = (arriving, stop, IsAt-begin i l)
  Reach-Course (turned {s} {t} {e} {es} r w h) i l =
      let (x, c, a) = Reach-Course r i l in
      let (y, d, b) = handle-Course e es s t r w h i x a in (y, Course-trans c d, b)
