-- ===== src/Sched/Worked.antt =====
-- A schedule on resources with slots against the work of its tasks.
use mathlib.Core.Option.{some-injective}
use inferencesim.Prelude.{
  ℕ, zero, suc, ◌+◌, ◌≡◌, ◌≤◌, sym, ◌∙◌, subst, false, List, some, map, sum, length, arith,
}
use inferencesim.Sched.Task.{Task, IsGraph}
use inferencesim.Sched.Schedule.{Resource, ScheduleResult, keys_below, greatest_of}
use inferencesim.Sched.Loop.{schedule, result}
use inferencesim.Sched.Within.{work}
use inferencesim.Sched.Children.{key-lt}
use inferencesim.Sched.Busy.{work_by-all}
use inferencesim.Sched.Valid.{end, ended, all_ended, schedule-end}

greatest_of-le :
    (f : ℕ → ℕ) (w n left : ℕ) → ((k : ℕ) → f k ≤ w) → greatest_of (map f (keys_below n left)) ≤ w
unfolding greatest_of keys_below
greatest_of-le f w n zero h = omega arith
greatest_of-le f w n (suc left) h = omega (arith, h n, greatest_of-le f w (n + 1) left h)

-- On resources with slots, the schedule of tasks whose keys are their indices, and of which each
-- depends on earlier ones only, takes no longer than its
-- tasks one after the other.
pub schedule_le_work :
    {R : Type 0} (same : Discrete R) (rank : R → ℕ) (resources : R → Resource)
    (tasks : List (Task R))
    → IsGraph tasks
    → ((r : R) → (resources r).shared ≡ false)
    → (r : ScheduleResult R) → schedule same rank resources tasks ≡ some r
    → r.makespan ≤ sum (λ t. t.duration) tasks
unfolding result
schedule_le_work same rank resources tasks g serial r run =
    let s = end same rank resources tasks g serial in
    let (o, all) = ended same rank resources tasks g serial in
    let done = all_ended same rank resources tasks g serial in
    let whole =
      work_by-all (λ t. t.duration) o.done tasks (λ t i. done t.key (key-lt tasks t g i)) in
    let same_result =
      some-injective _ r (sym (schedule-end same rank resources tasks g serial) ∙ run) in
    let most = greatest_of-le s.finish (work o.done tasks) 0 (length tasks) o.within.finish in
    subst (λ (u : ScheduleResult _). u.makespan ≤ sum (λ t. t.duration) tasks) same_result
      (omega (arith, whole, most))
