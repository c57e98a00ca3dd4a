-- ===== src/Serve/Completion.antt =====
-- The end of the event loop of `serve` under the reserve policy: lemmas on its iterations.
use inferencesim.Prelude.{
  ℕ, ◌+◌, ◌*◌, ◌≡◌, ◌≤◌, ◌<◌, refl, ap, subst, Bool, true, false, ◌||◌, List, [], ◌∷◌, length,
  arith, In, inl, inr, is_empty, leb, le→leb, max, if_elim, option_elim, Option, none, some,
}
use inferencesim.Serve.Request.{Req}
use inferencesim.Serve.State.{Replica, State}
use inferencesim.Serve.Loop.{decoders, prefiller}
use inferencesim.Serve.Step.{
  fill, note_forced, peaks, idle, is_idle, Turn, next, halt, next-injective, halt-injective, queue,
  shed_for, step_cost, decode_step, prefill_step, exclusive, work, iteration,
}
use inferencesim.Serve.Rules.{Keeps, queue_keeps}
use inferencesim.Serve.Ops.{In-prefiller}
use inferencesim.Serve.Progress.{
  effort, away, away_mono, effort-arrive, effort-admit, effort-fill, effort-decode,
}
use inferencesim.Serve.Batch.{after_decode}
use inferencesim.Serve.Queue.{due, queue-not_due, queue-busy, is_idle-nil, decoders_of_work}

right_false : (a b : Bool) → (a || b) ≡ false → b ≡ false
right_false a b h = ground arith

-- The clock's jump to the next arrival counts.
jump :
    (r : Req) (rs : List Req) (s : State)
    → s.incoming ≡ r ∷ rs
    → leb r.arrival s.clock ≡ false
    → effort (record s { clock = max s.clock r.arrival }) < effort s
jump r rs s e d =
    let c = max s.clock r.arrival in
    let a = ap (away s.clock) e in
    let b = ap (away c) e in
    let before : away s.clock (r ∷ rs) ≡ 2 + 2 * length rs = rw d refl in
    let after : away c (r ∷ rs) ≡ 1 + 2 * length rs = rw (le→leb r.arrival c (omega arith)) refl in
    omega (arith, a, b)

idle-halt : (rs : List Req) (s t : State) → idle rs s ≡ halt t → (rs ≡ []) × (s ≡ t)
unfolding idle
idle-halt [] s t e = (refl, halt-injective e)
idle-halt (r ∷ rs) s t e = cc

module _ (p : Replica) (reserve : p.on_demand ≡ false) where
  effort-Keeps : (n : ℕ) → Keeps p (λ s. effort s ≤ n)
  unfolding note_forced
  effort-Keeps n = record {
    at_arrive = λ r rs s e a h. omega (arith, effort-arrive p r rs s e a);
    at_admit = λ r rs s e c h. omega (arith, effort-admit p r rs s e);
    at_preempt = λ v s d m q h. cc;
    at_forced = elim [ true ↦ λ s h. h | false ↦ λ s h. h ];
    at_fill = λ r s m f h. omega (arith, effort-fill p r s m f);
    at_decode = λ cost s h. omega (arith, effort-decode p cost s);
    at_clock = λ t s le h. omega (arith, away_mono s.clock t s.incoming le);
  }

  queue-effort : (s : State) → effort (queue p s) ≤ effort s
  queue-effort s =
      queue_keeps p (λ t. effort t ≤ effort s) (effort-Keeps (effort s)) s (omega arith)

  -- Without preemption there is nothing to shed.
  shed_for-eq :
      (least extra : ℕ) (forced : State → Bool) (s : State) → shed_for p least extra forced s ≡ s
  unfolding shed_for
  shed_for-eq least extra forced s =
      if_elim (λ (t : State). t ≡ s) p.on_demand (λ d. cc) (λ d. refl)

  decode-effort :
      (s t : State)
      → t ≡ s
      → 0 < length (decoders s)
      → effort (peaks (after_decode p (step_cost p t) t)) < effort s
  decode-effort s t e h = rw e (omega (arith, effort-decode p (step_cost p s) s))

  decode_step-effort : (s : State) → 0 < length (decoders s) → effort (decode_step p s) < effort s
  unfolding decode_step
  decode_step-effort s h = decode-effort s _ (shed_for-eq 1 0 _ s) h

  prefill_step-effort :
      (r : Req) (s : State)
      → In r s.running
      → r.needs_prefill ≡ true
      → effort (prefill_step p r s) < effort s
  unfolding prefill_step
  prefill_step-effort r s m f =
      if_elim (λ (t : State). effort (fill p r t) < effort s) p.on_demand (λ d. cc)
        (λ d. effort-fill p r s m f)

  exclusive-effort :
      (front : Option Req) (s : State)
      → prefiller s ≡ front
      → is_idle front s ≡ false
      → effort (exclusive p front s) < effort s
  unfolding exclusive
  exclusive-effort none s e b = decode_step-effort s (decoders_of_work none s b (inl refl))
  exclusive-effort (some r) s e b =
      let (m, f) = In-prefiller s r e in
      if_elim (λ (t : State). effort t < effort s) (p.prefill_first || is_empty (decoders s))
        (λ c. prefill_step-effort r s m f)
        (λ c. decode_step-effort s (
          decoders_of_work (some r) s b
            (inr (right_false p.prefill_first (is_empty (decoders s)) c))))

  idle-effort :
      (rs : List Req) (s s' : State)
      → s.incoming ≡ rs
      → due s.clock rs ≡ false
      → idle rs s ≡ next s'
      → effort s' < effort s
  unfolding idle
  idle-effort [] s s' e d h = cc
  idle-effort (r ∷ rs) s s' e d h =
      let q : effort (record s { clock = max s.clock r.arrival }) < effort s = jump r rs s e d in
      subst (λ (t : State). effort t < effort s) (next-injective h) q

  module _ (exclusive_only : p.prefill_chunk ≡ none) where
    work-effort :
        (front : Option Req) (s : State)
        → prefiller s ≡ front
        → is_idle front s ≡ false
        → effort (work p front s) < effort s
    unfolding work
    work-effort front s e b =
        option_elim (λ (t : State). effort t < effort s) p.prefill_chunk
          (λ _. exclusive-effort front s e b) (λ k y. cc)

    pub iteration-effort : (s s' : State) → iteration p s ≡ next s' → effort s' < effort s
    unfolding iteration
    iteration-effort s s' =
        let t = queue p s in
        let front = prefiller t in
        if_elim (λ (o : Turn). o ≡ next s' → effort s' < effort s) (is_idle front t)
          (λ c e.
            omega (arith, queue-effort s, idle-effort t.incoming t s' refl (queue-not_due p s) e))
          (λ c e.
            let q = work-effort front t refl c in
            let h : effort (work p front t) < effort s = omega (arith, queue-effort s) in
            subst (λ (u : State). effort u < effort s) (next-injective e) h)

    -- The loop breaks off only when nothing arrives, waits or runs.
    pub record IsEmpty (s : State) : Type 0 where
      pub incoming_nil : s.incoming ≡ []
      pub waiting_nil : s.waiting ≡ []
      pub running_nil : s.running ≡ []

    pub iteration-halt :
        (s t : State) → iteration p s ≡ halt t → (queue p s ≡ t) × IsEmpty (queue p s)
    unfolding iteration
    iteration-halt s u =
        let t = queue p s in
        if_elim (λ (o : Turn). o ≡ halt u → (t ≡ u) × IsEmpty t) (is_idle (prefiller t) t)
          (λ c e.
            let run = is_idle-nil t c in
            let (nil, same) = idle-halt t.incoming t u e in
            (
              same,
              record { incoming_nil = nil; waiting_nil = queue-busy p s run; running_nil = run },
            ))
          (λ c e. cc)
