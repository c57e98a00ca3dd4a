-- ===== src/Disagg/Outcome.antt =====
-- How the event loop of `serve_disagg` ends.
use inferencesim.Prelude.{
  ℕ, zero, suc, ◌≡◌, ◌≤◌, refl, List, [], ◌∷◌, length, arith, ltb, ◌⊎◌, inl, inr, if_elim,
}
use inferencesim.Serve.Request.{Req}
use inferencesim.Disagg.State.{Pools, State, Event, begin}
use inferencesim.Disagg.Step.{Ended, drained, livelock, loop, loop_from, disagg_loop, event_cap}
use inferencesim.Disagg.Reach.{Reach, begun, turned, IsNumbered}
use inferencesim.Disagg.Safe.{handle-some}

module _ (p : Pools) (n_p n_d : ℕ) (reqs_in : List Req) where
  -- The loop ends with the error of its event budget, or in a state that it reaches in which all
  -- requests have completed or no event is left.
  abbrev pub IsOutcome : Ended → Type 0
  IsOutcome o =
      (o ≡ livelock)
      ⊎ ((t : State) × (o ≡ drained t)
          × Reach p n_p n_d reqs_in t
          × ((t.heap ≡ []) ⊎ (p.n_total ≤ length t.completed)))

  loop-IsOutcome :
      (left : ℕ) (es : List Event) (s : State)
      → IsNumbered 0 reqs_in
      → p.n_total ≡ length reqs_in
      → Reach p n_p n_d reqs_in s
      → s.heap ≡ es
      → IsOutcome (loop p left es s)
  unfolding loop loop_from
  loop-IsOutcome left [] s n l r w = inr (s, refl, r, inl w)
  loop-IsOutcome zero (e ∷ es) s n l r w =
      if_elim IsOutcome (ltb (length s.completed) p.n_total) (λ c. inl refl)
        (λ c. inr (s, refl, r, inr (ground arith)))
  loop-IsOutcome (suc left) (e ∷ es) s n l r w =
      let (t, h) = handle-some p n_p n_d reqs_in n e es s l r w in
      let next = loop-IsOutcome left t.heap t n l (turned r w h) refl in
      if_elim IsOutcome (ltb (length s.completed) p.n_total) (λ c. rw h next)
        (λ c. inr (s, refl, r, inr (ground arith)))

  pub disagg_loop-IsOutcome :
      IsNumbered 0 reqs_in → p.n_total ≡ length reqs_in → IsOutcome (disagg_loop p n_p n_d reqs_in)
  unfolding disagg_loop
  disagg_loop-IsOutcome n l =
      loop-IsOutcome (event_cap reqs_in) _ (begin reqs_in n_p n_d) n l begun refl
