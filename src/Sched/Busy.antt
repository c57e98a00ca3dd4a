-- ===== src/Sched/Busy.antt =====
-- What the resources of a schedule were busy, against the durations of the tasks and the makespan.
use mathlib.Core.Option.{some-injective}
use inferencesim.Prelude.{
  ℕ, zero, suc, ◌*◌, ◌≡◌, ◌≤◌, refl, sym, ◌∙◌, subst, max, true, false, Bool, List, [], ◌∷◌, some,
  sum, length, In, inl, inr, arith,
}
use inferencesim.Sched.Task.{Task, IsGraph}
use inferencesim.Sched.Times.{time_at}
use inferencesim.Sched.Schedule.{Resource, ScheduleResult, greatest_of}
use inferencesim.Sched.Loop.{schedule, result}
use inferencesim.Sched.Within.{AllWithin, work_by}
use inferencesim.Sched.Capacity.{slot_count}
use inferencesim.Sched.Spent.{share}
use inferencesim.Sched.Children.{key-lt}
use inferencesim.Sched.Valid.{end, ended, all_ended, schedule-end, time_at-all}

pub le-greatest_of : (xs : List ℕ) (k : ℕ) → time_at xs k ≤ greatest_of xs
unfolding greatest_of
le-greatest_of [] k = omega arith
le-greatest_of (x ∷ xs) zero = omega arith
le-greatest_of (x ∷ xs) (suc k) = omega (arith, le-greatest_of xs k)

-- Everything is done.
pub work_by-all :
    {R : Type 0} (w : Task R → ℕ) (done : ℕ → Bool) (ts : List (Task R))
    → ((t : Task R) → In t ts → done t.key ≡ true)
    → work_by w done ts ≡ sum w ts
work_by-all w done [] h = refl
work_by-all w done (t ∷ ts) h =
    let own = h t (inl refl) in
    let rest = work_by-all w done ts (λ u i. h u (inr i)) in rw (own, rest) refl

-- Slots that are all free by `w` sum up to no more than that for each.
sum-slots : (w n : ℕ) (xs : List ℕ) → AllWithin w xs → slot_count xs ≤ n → sum (λ x. x) xs ≤ n * w
sum-slots w n [] a l = omega arith
sum-slots w zero (x ∷ xs) a l = absurd (omega arith)
sum-slots w (suc n) (x ∷ xs) (a, rest) l = omega (arith, sum-slots w n xs rest (omega arith))

-- On resources with slots, in the schedule of tasks whose keys are their indices, and of which each
-- depends on earlier ones only, every resource was busy
-- for exactly the durations of its tasks together, and that is at most the makespan times the number
-- of its servers, which is at least one.
pub schedule-busy :
    {R : Type 0} (same : Discrete R) (rank : R → ℕ) (resources : R → Resource)
    (tasks : List (Task R))
    → IsGraph tasks
    → ((r : R) → (resources r).shared ≡ false)
    → (r : ScheduleResult R) → schedule same rank resources tasks ≡ some r
    → (q : R)
    → (r.busy q ≡ sum (share same q) tasks) × (r.busy q ≤ max 1 (resources q).servers * r.makespan)
unfolding result
schedule-busy same rank resources tasks g serial r run q =
    let s = end same rank resources tasks g serial in
    let (o, all) = ended same rank resources tasks g serial in
    let done = all_ended same rank resources tasks g serial in
    let same_result =
      some-injective _ r (sym (schedule-end same rank resources tasks g serial) ∙ run) in
    let finishes = (result same rank resources (length tasks) s).finish in
    let slots = o.spent.within (greatest_of finishes) (λ t i d. omega (
      arith,
      time_at-all s.finish (length tasks) t.key (key-lt tasks t g i),
      le-greatest_of finishes t.key,
    )) in
    subst
      (λ (u : ScheduleResult _).
        (u.busy q ≡ sum (share same q) tasks)
        × (u.busy q ≤ max 1 (resources q).servers * u.makespan))
      same_result
      (
        o.spent.busy q
            ∙ work_by-all (share same q) o.done tasks (λ t i. done t.key (key-lt tasks t g i)),
        omega (
          arith,
          o.spent.used q,
          sum-slots (greatest_of finishes) (max 1 (resources q).servers) (s.slots q) (slots q)
              (o.capped.few q),
        ),
      )
