-- ===== src/Serve/Queue.antt =====
-- Lemmas on the queue's part of an iteration of `serve`.
use inferencesim.Prelude.{
  ℕ, ◌≡◌, ◌<◌, ◌⊎◌, refl, ap, ◌∙◌, Bool, true, false, List, [], ◌∷◌, if◌then◌else◌, length,
  length-append, arith, inl, inr, is_empty, leb, if_elim, Option, none, some, filter, ltb,
}
use inferencesim.Serve.Request.{Req, reset, oldest}
use inferencesim.Serve.State.{Replica, State}
use inferencesim.Serve.Loop.{
  can_admit, is_decoder, decoders, admit, arrive, intake, admission, force_admit, prefiller,
}
use inferencesim.Serve.Step.{queue, is_idle}

abbrev pub due : ℕ → List Req → Bool
due clock [] = false
due clock (r ∷ rs) = leb r.arrival clock

-- After the intake the next request is not due.
intake-not_due :
    (rs : List Req) (s : State)
    → s.incoming ≡ rs
    → (due s.clock (intake rs s).incoming ≡ false) × ((intake rs s).clock ≡ s.clock)
unfolding intake arrive
intake-not_due [] s e = (rw e, refl)
intake-not_due (r ∷ rs) s e =
    let Q : State → Type 0 = λ t. (due s.clock t.incoming ≡ false) × (t.clock ≡ s.clock) in
    if_elim Q (leb r.arrival s.clock) (λ c. intake-not_due rs (arrive r rs s) refl)
      (λ c. (rw e c, refl))

pub record SameArrivals (s t : State) : Type 0 where
  pub incoming_eq : t.incoming ≡ s.incoming
  pub clock_eq : t.clock ≡ s.clock

module _ (p : Replica) where
  admission-SameArrivals : (rs : List Req) (s : State) → SameArrivals s (admission p rs s)
  unfolding admission admit
  admission-SameArrivals [] s = record { incoming_eq = refl; clock_eq = refl }
  admission-SameArrivals (r ∷ rs) s =
      if_elim (SameArrivals s) (can_admit p s r)
        (λ c.
          let h = admission-SameArrivals rs (admit p r rs s) in
          record { incoming_eq = h.incoming_eq; clock_eq = h.clock_eq })
        (λ c. record { incoming_eq = refl; clock_eq = refl })

  force_admit-SameArrivals : (rs : List Req) (s : State) → SameArrivals s (force_admit p rs s)
  unfolding force_admit admit
  force_admit-SameArrivals [] s = record { incoming_eq = refl; clock_eq = refl }
  force_admit-SameArrivals (r ∷ rs) s =
      if_elim (SameArrivals s) (is_empty s.running)
        (λ c. record { incoming_eq = refl; clock_eq = refl })
        (λ c. record { incoming_eq = refl; clock_eq = refl })

  pub queue-not_due : (s : State) → due (queue p s).clock (queue p s).incoming ≡ false
  unfolding queue
  queue-not_due s =
      let taken = intake s.incoming s in
      let let_in = admission p taken.waiting taken in
      let (q, c) = intake-not_due s.incoming s refl in
      let a = admission-SameArrivals taken.waiting taken in
      let f = force_admit-SameArrivals let_in.waiting let_in in
      rw (f.clock_eq ∙ a.clock_eq ∙ c) (rw (f.incoming_eq ∙ a.incoming_eq) q)

  force_admit-busy :
      (rs : List Req) (s : State)
      → s.waiting ≡ rs
      → (force_admit p rs s).running ≡ []
      → (force_admit p rs s).waiting ≡ []
  unfolding force_admit admit
  force_admit-busy [] s e h = e
  force_admit-busy (r ∷ rs) s e h = absurd (runs h)
    where
      runs : (force_admit p (r ∷ rs) s).running ≡ [] → ⊥
      runs =
          if_elim (λ (t : State). t.running ≡ [] → ⊥) (is_empty s.running)
            (λ c h. let z = ap length h in omega (arith, z, length-append s.running (reset r ∷ [])))
            (λ c h. let z = ap is_empty h in ground arith)

  pub queue-busy : (s : State) → (queue p s).running ≡ [] → (queue p s).waiting ≡ []
  unfolding queue
  queue-busy s = force_admit-busy _ _ refl

oldest-ne-none : (r : Req) (rs : List Req) → oldest (r ∷ rs) ≡ none → ⊥
unfolding oldest
oldest-ne-none r rs e = ground arith

filter-split :
    (rs : List Req)
    → filter is_decoder rs ≡ []
    → filter (λ (r : Req). r.needs_prefill) rs ≡ []
    → rs ≡ []
filter-split [] d f = refl
filter-split (r ∷ rs) d f = ground arith

oldest-none : (rs : List Req) → oldest rs ≡ none → rs ≡ []
oldest-none [] e = refl
oldest-none (r ∷ rs) e = absurd (oldest-ne-none r rs e)

choice-nil : (ps qs : List Req) → oldest (if is_empty qs then ps else qs) ≡ none → ps ≡ []
choice-nil ps [] e = oldest-none ps e
choice-nil ps (q ∷ qs) e = absurd (oldest-ne-none q qs e)

nil_of_empty : (rs : List Req) → is_empty rs ≡ true → rs ≡ []
nil_of_empty [] e = refl
nil_of_empty (r ∷ rs) e = cc

is_idle_lem : (o : Option Req) (s : State) → is_idle o s ≡ true → (o ≡ none) × (decoders s ≡ [])
unfolding is_idle
is_idle_lem none s h = (refl, nil_of_empty _ h)
is_idle_lem (some r) s h = cc

prefiller-none :
    (s : State) → prefiller s ≡ none → filter (λ (r : Req). r.needs_prefill) s.running ≡ []
unfolding prefiller
prefiller-none s e =
    let pending : List Req = filter (λ (r : Req). r.needs_prefill) s.running in
    choice-nil pending (filter (λ (r : Req). ltb 0 r.prefill_done) pending) e

length-pos : (rs : List Req) → is_empty rs ≡ false → 0 < length rs
length-pos [] e = cc
length-pos (r ∷ rs) e = omega arith

-- With no prefiller and no decoder, nothing runs.
pub is_idle-nil : (s : State) → is_idle (prefiller s) s ≡ true → s.running ≡ []
is_idle-nil s h =
    let (a, b) = is_idle_lem (prefiller s) s h in filter-split s.running b (prefiller-none s a)

-- The decode step of the exclusive loop has a decoder.
pub decoders_of_work :
    (o : Option Req) (s : State)
    → is_idle o s ≡ false
    → (o ≡ none) ⊎ (is_empty (decoders s) ≡ false)
    → 0 < length (decoders s)
unfolding is_idle
decoders_of_work none s h c = length-pos (decoders s) h
decoders_of_work (some r) s h (inl c) = cc
decoders_of_work (some r) s h (inr c) = length-pos (decoders s) c
