-- ===== src/Serve/Batch.antt =====
-- The invariant of the serving loop across a decode step, and all of its operations.
use inferencesim.Prelude.{
  ℕ, ◌+◌, ◌≡◌, ◌≤◌, ◌<◌, refl, ap, sym, subst, Bool, false, not, List, [], ◌∷◌, map, if◌then◌else◌,
  length, filter, sum, arith, ◌∙◌, All, Bool-cases, inl, inr, Removable-filter,
}
use inferencesim.Serve.Request.{Req, Req-discrete, emit}
use inferencesim.Serve.Kv.{IsKvModel}
use inferencesim.Serve.State.{Replica, State}
use inferencesim.Serve.Loop.{is_decoder, full_fp, finish_all, step_decoders, done_decoders, is_done}
use inferencesim.Serve.Step.{decode_batch, peaks}
use inferencesim.Serve.Rules.{Keeps}
use inferencesim.Serve.Accounting.{IsAccounted, finish_all-IsAccounted, step_decoders-IsAccounted}
use inferencesim.Serve.Finish.{
  SameQueue, finish_all-SameQueue, running-finish_done, finish_all-reserved,
}
use inferencesim.Serve.Sound.{
  IsTracked, Fits, IsReserved, IsSound, resident-le-fulls, Sound-arrive, Sound-admit, Sound-preempt,
  Sound-forced, Sound-clock,
}
use inferencesim.Serve.Prefill.{Sound-fill}

abbrev pub tick : ℕ → Req → Req
tick clock r = if is_decoder r then emit clock r else r

tick-IsTracked : (t : ℕ) (r : Req) → IsTracked r → is_done (tick t r) ≡ false → IsTracked (tick t r)
tick-IsTracked t r h d = ground (arith, h.decoding, h.gen_le, h.pending)

-- The requests that run on after a token are tracked.
ticked-IsTracked :
    (t : ℕ) (rs : List Req)
    → All IsTracked rs
    → All IsTracked (filter (λ r. not (is_done r)) (map (tick t) rs))
ticked-IsTracked t [] h = tt
ticked-IsTracked t (r ∷ rs) (h, hs) = elim (Bool-cases (is_done (tick t r))) [
  | inl d ↦ rw d (ticked-IsTracked t rs hs)
  | inr d ↦ rw d (tick-IsTracked t r h d, ticked-IsTracked t rs hs)
]

module _ (p : Replica) where
  pub decode_batch-running :
      (cost : ℕ) (s : State)
      → (decode_batch p cost s).running ≡ map (tick (s.clock + cost)) s.running
  unfolding decode_batch step_decoders
  decode_batch-running cost s = refl

  -- What is left of the running requests after a decode step.
  abbrev pub survivors : ℕ → State → List Req
  survivors cost s = filter (λ r. not (is_done r)) (map (tick (s.clock + cost)) s.running)

  abbrev pub after_decode : ℕ → State → State
  after_decode cost s =
      let stepped = decode_batch p cost s in finish_all p (done_decoders stepped) stepped

  pub after_decode-running :
      (cost : ℕ) (s : State) → (after_decode cost s).running ≡ survivors cost s
  after_decode-running cost s =
      running-finish_done p (decode_batch p cost s)
      ∙ ap (filter (λ r. not (is_done r))) (decode_batch-running cost s)

  pub after_decode-SameQueue :
      (cost : ℕ) (s : State) → SameQueue (record s { clock = s.clock + cost }) (after_decode cost s)
  unfolding decode_batch step_decoders
  after_decode-SameQueue cost s =
      let h =
        finish_all-SameQueue p (done_decoders (decode_batch p cost s)) (decode_batch p cost s) in
      record {
        incoming_eq = h.incoming_eq;
        waiting_eq = h.waiting_eq;
        clock_eq = h.clock_eq;
        preempt_eq = h.preempt_eq;
        peak_kv_eq = h.peak_kv_eq;
      }

  after_decode-IsAccounted :
      (cost : ℕ) (s : State)
      → IsKvModel p.kv
      → IsAccounted p s
      → IsAccounted p (after_decode cost s)
  after_decode-IsAccounted cost s v h =
      finish_all-IsAccounted p _ (decode_batch p cost s)
        (unfold done_decoders in
          Removable-filter Req-discrete is_done (decode_batch p cost s).running)
        (unfold decode_batch in step_decoders-IsAccounted p _ v h)

  survivors-Fits :
      (t : ℕ) (rs : List Req)
      → All (Fits p) rs
      → All (Fits p) (filter (λ r. not (is_done r)) (map (tick t) rs))
  survivors-Fits t [] h = tt
  survivors-Fits t (r ∷ rs) (h, hs) = elim (Bool-cases (is_done (tick t r))) [
    | inl d ↦ rw d (survivors-Fits t rs hs)
    | inr d ↦ rw d (ground arith, survivors-Fits t rs hs)
  ]

  -- Tokens change no full footprint, and what is left of the requests has no more than all.
  sum-tick :
      (f : Req → ℕ) (t : ℕ) (rs : List Req)
      → ((r : Req) → f (emit t r) ≡ f r)
      → sum f (map (tick t) rs) ≡ sum f rs
  sum-tick f t [] h = refl
  sum-tick f t (r ∷ rs) h = ground (arith, h r, sum-tick f t rs h)

  sum-filter-le : (f : Req → ℕ) (q : Req → Bool) (rs : List Req) → sum f (filter q rs) ≤ sum f rs
  sum-filter-le f q [] = omega arith
  sum-filter-le f q (r ∷ rs) = ground (arith, sum-filter-le f q rs)

  survivors-le :
      (f : Req → ℕ) (t : ℕ) (rs : List Req)
      → ((r : Req) → f (emit t r) ≡ f r)
      → sum f (filter (λ r. not (is_done r)) (map (tick t) rs)) ≤ sum f rs
  survivors-le f t rs h =
      omega (arith, sum-tick f t rs h, sum-filter-le f (λ r. not (is_done r)) (map (tick t) rs))

  after_decode-IsReserved :
      (cost : ℕ) (s : State)
      → IsKvModel p.kv
      → p.on_demand ≡ false
      → IsAccounted p (after_decode cost s)
      → All IsTracked (after_decode cost s).running
      → IsReserved p s
      → IsReserved p (peaks (after_decode cost s))
  unfolding peaks
  after_decode-IsReserved cost s v d a t k =
      let st = decode_batch p cost s in
      let fin = after_decode cost s in
      let q = after_decode-SameQueue cost s in
      let same : sum (full_fp p) st.running ≡ sum (full_fp p) s.running =
        ap (sum (full_fp p)) (decode_batch-running cost s)
        ∙ sum-tick (full_fp p) (s.clock + cost) s.running (λ r. refl) in
      let committed : fin.kv_reserved ≡ sum (full_fp p) fin.running =
        finish_all-reserved p (done_decoders st) st d
          (unfold done_decoders in Removable-filter Req-discrete is_done st.running)
          (unfold decode_batch step_decoders in k.reserved ∙ sym same) in
      let less : sum (full_fp p) fin.running ≤ sum (full_fp p) s.running =
        rw (after_decode-running cost s)
          (survivors-le (full_fp p) (s.clock + cost) s.running (λ r. refl)) in
      record {
        reserved = committed;
        within = omega (arith, k.within, k.reserved);
        no_preempt = q.preempt_eq ∙ k.no_preempt;
        peak = omega (
          arith,
          k.peak,
          k.within,
          k.reserved,
          q.peak_kv_eq,
          resident-le-fulls p fin.running v t,
        );
      }

  length-eq-sum : (rs : List Req) → length rs ≡ sum (λ _. 1) rs
  length-eq-sum [] = refl
  length-eq-sum (r ∷ rs) = omega (arith, length-eq-sum rs)

  Sound-decode :
      (cost : ℕ) (s : State)
      → IsKvModel p.kv
      → IsSound p s
      → IsSound p (peaks (after_decode cost s))
  unfolding peaks
  Sound-decode cost s v h =
      let q = after_decode-SameQueue cost s in
      let e = sym (after_decode-running cost s) in
      let acc = after_decode-IsAccounted cost s v h.accounted in
      let run = subst (All IsTracked) e (ticked-IsTracked (s.clock + cost) s.running h.tracked) in
      record {
        coming = subst (All (Fits p)) (sym q.incoming_eq) h.coming;
        queued = subst (All (Fits p)) (sym q.waiting_eq) h.queued;
        fits = subst (All (Fits p)) e (survivors-Fits (s.clock + cost) s.running h.fits);
        tracked = run;
        accounted = acc;
        capacity = rw (after_decode-running cost s) (
            omega (
              arith,
              h.capacity,
              length-eq-sum s.running,
              length-eq-sum (survivors cost s),
              survivors-le (λ _. 1) (s.clock + cost) s.running (λ r. refl),
            ));
        reserve = λ d. after_decode-IsReserved cost s v d acc run (h.reserve d);
      }

  -- With at least one slot, every elementary operation keeps the invariant.
  pub IsSound-Keeps : IsKvModel p.kv → 0 < p.max_batch → Keeps p (IsSound p)
  IsSound-Keeps v b = record {
    at_arrive = Sound-arrive p;
    at_admit = λ r rs s e c h. Sound-admit p r rs s b e c h;
    at_preempt = λ w s d m q h. Sound-preempt p w s d m h;
    at_forced = Sound-forced p;
    at_fill = λ r s m f h. Sound-fill p r s v m f h;
    at_decode = λ cost s h. Sound-decode cost s v h;
    at_clock = λ t s le h. Sound-clock p t s h;
  }
