-- ===== src/Des/Converge.antt =====
-- The growing number of rounds of des.py's auto mode comes to an end, and every measurement in it to a
-- period.
use inferencesim.Prelude.{
  ◌⊎◌, ℕ, ◌*◌, ◌≡◌, ◌≤◌, ◌<◌, refl, min, true, false, Option, none, some, [], ◌>>=◌,
}
use inferencesim.Sched.Valid.{schedule-IsSchedule}
use inferencesim.Sched.Loop.{schedule}
use inferencesim.Collectives.Ports.{Port, Port-discrete}
use inferencesim.Collectives.Ring.{Tasks}
use inferencesim.Des.Stage.{LayerCosts, CommPlan}
use inferencesim.Des.Rounds.{Convergence, is_close, prefill_wall, measure, undeclared}
use inferencesim.Des.Whole.{prefill_tasks-IsWalk}
use inferencesim.Des.Built.{IsWalk}

module _ (measure : ℕ → Option ℕ) (over under second max_rounds : ℕ) where
  -- The estimate before `n` rounds is measured over half as many, as far as that many are allowed.
  abbrev HasPrev : (n : ℕ) → Option ℕ → Type 0
  HasPrev n none = Unit
  HasPrev n (some prev_est) =
      (half : ℕ) × (measure half ≡ some prev_est) × (n ≡ min (half * 2) max_rounds)

  -- Two estimates in a row that agree.
  abbrev pub Settles : (n wall : ℕ) → Type 0
  Settles n wall =
      (half prev_est : ℕ) × (measure half ≡ some prev_est)
      × (n ≡ min (half * 2) max_rounds)
      × (is_close over under second wall prev_est ≡ true)

  -- How the loop stops: with two estimates in a row that agree or with all the rounds that are allowed,
  -- and with the period that its last rounds measure.
  abbrev pub IsOutcome : Option Convergence → Type 0
  IsOutcome none = ⊥
  IsOutcome (some r) =
      (((r.converged ≡ true) × Settles r.rounds_used r.wall)
        ⊎ ((r.converged ≡ false) × (r.rounds_used ≡ max_rounds)))
      × (r.rounds_used ≤ max_rounds)
      × (measure r.rounds_used ≡ some r.wall)

module _ (rank : Port → ℕ) (oh : ℕ) (c : LayerCosts) (plan : CommPlan) (pp : ℕ) where
  built-some :
      (built : Option (Tasks × (Option ℕ × Option ℕ)))
      → IsWalk oh c plan pp [] built
      → (wall : ℕ) × ((built >>= λ built.
            schedule Port-discrete rank undeclared built.0 >>= λ r. some r.makespan)
          ≡ some wall)
  built-some none i = absurd i
  built-some (some (tasks, (prev, end_key))) (g, b, k) =
      let (r, run, valid, _) =
        schedule-IsSchedule Port-discrete rank undeclared tasks g.graph (λ p. refl) in
      (r.makespan, rw run refl)

  -- A prefill of a stage and a layer at least comes to a makespan.
  prefill_wall-some :
      0 < pp → 0 < c.n_layers → (wall : ℕ) × (prefill_wall rank oh c plan pp ≡ some wall)
  unfolding prefill_wall
  prefill_wall-some hp hn = built-some _ (prefill_tasks-IsWalk oh c plan pp hp hn)
