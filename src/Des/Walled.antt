-- ===== src/Des/Walled.antt =====
-- The prefill of des.py on one stage, whose tasks are one chain.
use inferencesim.Prelude.{
  ℕ, ◌+◌, ◌*◌, ◌≡◌, ◌≤◌, ◌<◌, refl, ap, subst, true, false, [], ◌∷◌, Option, none, some, arith,
  length, inl, inr, Bool-cases,
}
use inferencesim.Sched.Valid.{schedule-IsSchedule}
use inferencesim.Sched.Busy.{le-greatest_of}
use inferencesim.Sched.Worked.{schedule_le_work}
use inferencesim.Sched.Critical.{schedule-times}
use inferencesim.Collectives.Ports.{Port, Port-discrete}
use inferencesim.Collectives.Ring.{Tasks, deps_on}
use inferencesim.Collectives.Graph.{Below}
use inferencesim.Collectives.ClosedForm.{ready_of}
use inferencesim.Des.{split_layers, stages_from}
use inferencesim.Des.Stage.{
  LayerCosts, CommPlan, stage_chain, with_key, stage_tasks, build_if, costs,
}
use inferencesim.Des.Rounds.{walk, prefill_tasks, prefill_wall, prefill_hops, undeclared}
use inferencesim.Des.Grown.{stage_chain-Grows}
use inferencesim.Des.Keyed.{IsKey, stage_chain-IsKey}
use inferencesim.Des.Measured.{IsDense, stage_chain-Takes}
use inferencesim.Des.Serial.{ends, worked, on_unit-ends, on_unit-worked}

-- A deployment on one stage has all its layers there.
one_split : (n : ℕ) → split_layers n 1 ≡ n ∷ []
unfolding split_layers stages_from
one_split n = ap (λ x. x ∷ []) (ground arith)

key_of : (o : Option ℕ) → IsKey o → (k : ℕ) × (o ≡ some k)
key_of none i = absurd i
key_of (some k) i = (k, refl)

module _ (oh : ℕ) (c : LayerCosts) (plan : CommPlan) where
  abbrev chain : Tasks × Option ℕ
  chain = stage_chain oh c plan 0 c.n_layers true true none []

  no_hop : prefill_hops oh c plan 1 0 ≡ false
  no_hop = elim (Bool-cases (costs c.hop)) [ inl h ↦ rw h refl | inr h ↦ rw h refl ]

  one_walk :
      (k : ℕ) → chain.1 ≡ some k → prefill_tasks oh c plan 1 ≡ some (chain.0, (some k, some k))
  unfolding prefill_tasks walk stage_tasks with_key build_if
  one_walk k q = rw (one_split c.n_layers) (rw q (rw no_hop refl))

  abbrev pub serial_time : ℕ
  serial_time = c.n_layers * (c.attn + (c.ffn + c.n_allreduce * c.allreduce_cost)) + c.edge

  -- The prefill on one stage ends, not before its operations one after the other would, and not after
  -- its tasks one after the other.
  pub prefill_wall-serial :
      (rank : Port → ℕ)
      → IsDense ends oh c plan
      → 0 < c.n_layers
      → (wall : ℕ) × (prefill_wall rank oh c plan 1 ≡ some wall)
        × (serial_time ≤ wall)
        × (wall ≤ worked none chain.0)
  unfolding prefill_wall
  prefill_wall-serial rank dense h =
      let (k, q) =
        key_of chain.1 (stage_chain-IsKey oh c plan 0 c.n_layers true true none [] (inr h)) in
      let grown = stage_chain-Grows oh c plan 0 c.n_layers true true none [] tt tt in
      let below : Below (length chain.0) (k ∷ []) =
        subst (λ o. Below (length chain.0) (deps_on o)) q grown.below in
      let takes = stage_chain-Takes ends on_unit-ends oh c plan dense 0 c.n_layers none [] tt tt in
      let at_end : ready_of chain.0 (k ∷ []) ≡ 0 + serial_time =
        subst (λ o. ready_of chain.0 (deps_on o) ≡ 0 + serial_time) q takes in
      let (r, run, valid, end) =
        schedule-IsSchedule Port-discrete rank undeclared chain.0 grown.graph (λ p. refl) in
      let late =
        schedule-times Port-discrete rank undeclared chain.0 grown.graph (λ p. refl) r run k
          below.0 in
      (
        r.makespan,
        rw (one_walk k q) (rw run refl),
        omega (arith, at_end, late, end, le-greatest_of r.finish k),
        schedule_le_work Port-discrete rank undeclared chain.0 grown.graph (λ p. refl) r run,
      )

  pub work_of_chain : IsDense worked oh c plan → worked none chain.0 ≡ serial_time
  work_of_chain dense =
      omega
        (arith, stage_chain-Takes worked on_unit-worked oh c plan dense 0 c.n_layers none [] tt tt)
