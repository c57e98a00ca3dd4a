-- ===== src/Sched/Examples.antt =====
-- Runs of the event loop of inferencesim/sched.py.
use native.Mathlib.Decide.{ℕ_discrete}
use inferencesim.Prelude.{
  ◌*◌, max, ℕ, ◌≡◌, ◌≤◌, refl, true, false, List, [], ◌∷◌, Option, some, none, sum, arith,
}
use inferencesim.Sched.Task.{Task, IsGraph}
use inferencesim.Sched.Times.{time_at, times}
use inferencesim.Sched.Heap.{pop_min, set_at, set_on}
use inferencesim.Sched.Schedule.{
  Resource, ScheduleResult, initial, ready_heap_of, missing_of, earlier, serve_fifo, free_times,
  replicate, occupy, add_busy, advance, bump, children, greatest_of, keys_below, least_slot, nearer,
  next_departure, notify, put_flow, release, serve_shared,
}
use inferencesim.Sched.Loop.{
  schedule, rounds, round, choose, fresh, take_ready, dispatch, serve_task, comes_first, depart,
  insert_key, is_stale, leaving, release_all, result, sooner, sorted, without,
}
use inferencesim.Sched.Valid.{IsSchedule, schedule-IsSchedule}
use inferencesim.Sched.Critical.{schedule-times}
use inferencesim.Sched.Worked.{schedule_le_work}
use inferencesim.Sched.Busy.{schedule-busy}
use inferencesim.Sched.Spent.{share}
use inferencesim.Sched.Limited.{schedule_capacity, running_at}

abbrev task : ℕ → ℕ → ℕ → List ℕ → Task ℕ
task key resource duration deps = record {
  key = key;
  resource = resource;
  duration = duration;
  deps = deps;
  label = "";
}

-- Two tasks for one server, and a third that waits for both.
abbrev fork : List (Task ℕ)
fork = task 0 0 3 [] ∷ task 1 0 4 [] ∷ task 2 1 5 (0 ∷ 1 ∷ []) ∷ []

abbrev one_server : ℕ → Resource
one_server r = record { servers = 1; shared = false }

abbrev halves : ℕ → Resource
halves r = record { servers = 1; shared = true }

abbrev cycle : List (Task ℕ)
cycle = task 0 0 3 (1 ∷ []) ∷ task 1 0 4 (0 ∷ []) ∷ []

abbrev ends : Option (ScheduleResult ℕ) → List ℕ
ends none = []
ends (some r) = r.finish

abbrev run : (ℕ → Resource) → List (Task ℕ) → Option (ScheduleResult ℕ)
run = schedule ℕ_discrete (λ r. r)

fork_ends : ends (run one_server fork) ≡ 3 ∷ 7 ∷ 12 ∷ []
unfolding schedule ℕ_discrete pop_min set_at set_on rounds round choose fresh take_ready dispatch
    serve_task comes_first depart insert_key is_stale leaving release_all result sooner sorted
    without initial ready_heap_of missing_of earlier serve_fifo free_times replicate occupy add_busy
    advance bump children greatest_of keys_below least_slot nearer next_departure notify put_flow
    release serve_shared
fork_ends = refl

fork_is_shared : ends (run halves (task 0 0 2 [] ∷ task 1 0 4 [] ∷ [])) ≡ 4 ∷ 6 ∷ []
unfolding schedule ℕ_discrete pop_min set_at set_on rounds round choose fresh take_ready dispatch
    serve_task comes_first depart insert_key is_stale leaving release_all result sooner sorted
    without initial ready_heap_of missing_of earlier serve_fifo free_times replicate occupy add_busy
    advance bump children greatest_of keys_below least_slot nearer next_departure notify put_flow
    release serve_shared
fork_is_shared = refl

cycle_is_an_error : run one_server cycle ≡ none
unfolding schedule ℕ_discrete rounds initial round choose fresh take_ready ready_heap_of missing_of
    set_at
cycle_is_an_error = refl

fork-IsGraph : IsGraph fork
fork-IsGraph = (refl, tt, (refl, tt, (refl, (omega arith, (omega arith, tt)), tt)))

schedule-IsSchedule_example :
    (r : ScheduleResult ℕ) × (schedule ℕ_discrete (λ r. r) one_server fork ≡ some r)
    × IsSchedule fork r
    × (r.makespan ≡ greatest_of r.finish)
schedule-IsSchedule_example =
    schedule-IsSchedule ℕ_discrete (λ r. r) one_server fork fork-IsGraph (λ _. refl)

schedule-times_example : (r : ScheduleResult ℕ) × (time_at (times fork) 2 ≤ time_at r.finish 2)
schedule-times_example =
    let (r, run, _, _) =
      schedule-IsSchedule ℕ_discrete (λ r. r) one_server fork fork-IsGraph (λ _. refl) in
    (
      r,
      schedule-times ℕ_discrete (λ r. r) one_server fork fork-IsGraph (λ _. refl) r run 2
          (omega arith),
    )

schedule_le_work_example : (r : ScheduleResult ℕ) × (r.makespan ≤ sum (λ t. t.duration) fork)
schedule_le_work_example =
    let (r, run, _, _) =
      schedule-IsSchedule ℕ_discrete (λ r. r) one_server fork fork-IsGraph (λ _. refl) in
    (r, schedule_le_work ℕ_discrete (λ r. r) one_server fork fork-IsGraph (λ _. refl) r run)

schedule_capacity_example :
    (r : ScheduleResult ℕ) × (running_at ℕ_discrete r 0 2 fork ≤ max 1 (one_server 0).servers)
schedule_capacity_example =
    let (r, run, _, _) =
      schedule-IsSchedule ℕ_discrete (λ r. r) one_server fork fork-IsGraph (λ _. refl) in
    (r, schedule_capacity ℕ_discrete (λ r. r) one_server fork fork-IsGraph (λ _. refl) r run 0 2)

schedule-busy_example :
    (r : ScheduleResult ℕ) × (r.busy 0 ≡ sum (share ℕ_discrete 0) fork)
    × (r.busy 0 ≤ max 1 (one_server 0).servers * r.makespan)
schedule-busy_example =
    let (r, run, _, _) =
      schedule-IsSchedule ℕ_discrete (λ r. r) one_server fork fork-IsGraph (λ _. refl) in
    let (own, most) =
      schedule-busy ℕ_discrete (λ r. r) one_server fork fork-IsGraph (λ _. refl) r run 0 in
    (r, own, most)
