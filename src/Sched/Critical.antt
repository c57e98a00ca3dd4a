-- ===== src/Sched/Critical.antt =====
-- inferencesim/sched.py: no schedule of a graph of tasks is faster than its critical path.
use mathlib.Core.List.{foldl}
use mathlib.Core.Option.{some-injective}
use inferencesim.Prelude.{
  ℕ, zero, suc, ◌+◌, ◌≡◌, ◌≢◌, ◌≤◌, ◌<◌, sym, ◌∙◌, subst, false, List, [], ◌∷◌, some, length,
  length-append, All, arith, Bool-cases, inl, inr, ◌==◌,
}
use inferencesim.Sched.Task.{Task, IsGraph, IsGraphFrom}
use inferencesim.Sched.Times.{
  time_at, times, length-times, then_task, ready, time_at-append, time_at-last,
}
use inferencesim.Sched.Schedule.{Resource, ScheduleResult, greatest_of}
use inferencesim.Sched.Loop.{schedule}
use inferencesim.Sched.Valid.{IsSchedule, schedule-IsSchedule}

apart : (k n : ℕ) → (k == n) ≡ false → k ≢ n
apart k n c = ground arith

greatest-time_at : (xs : List ℕ) (k : ℕ) → k < length xs → time_at xs k ≤ greatest_of xs
unfolding greatest_of
greatest-time_at [] k l = absurd (omega arith)
greatest-time_at (x ∷ xs) zero l = omega arith
greatest-time_at (x ∷ xs) (suc k) l = omega (arith, greatest-time_at xs k (omega arith))

-- A list of times that is nowhere later than another.
abbrev IsBefore : List ℕ → List ℕ → Type 0
IsBefore xs ys = (k : ℕ) → k < length xs → time_at xs k ≤ time_at ys k

ready-IsBefore :
    (xs ys ds : List ℕ) (b : ℕ)
    → IsBefore xs ys
    → All (λ d. d < length xs) ds
    → All (λ d. time_at ys d ≤ b) ds
    → ready xs ds ≤ b
ready-IsBefore xs ys [] b h l u = omega arith
ready-IsBefore xs ys (d ∷ ds) b h (l, ls) (u, us) =
    omega (arith, h d l, ready-IsBefore xs ys ds b h ls us)

module _ {R : Type 0} where
  then_task-IsBefore :
      (r : ScheduleResult R) (acc : List ℕ) (t : Task R)
      → IsBefore acc r.finish
      → t.key ≡ length acc
      → All (λ d. d < length acc) t.deps
      → time_at r.finish t.key ≡ time_at r.start t.key + t.duration
      → All (λ d. time_at r.finish d ≤ time_at r.start t.key) t.deps
      → IsBefore (then_task acc t) r.finish
  then_task-IsBefore r acc t h e ds ends waits k l =
      let done = ready-IsBefore acc r.finish t.deps (time_at r.start t.key) h ds waits in
      let work = ready acc t.deps + t.duration in
      let longer = length-append acc (work ∷ []) in
      elim (Bool-cases (k == length acc)) [
        | inl c ↦
            let here : k ≡ length acc = ground arith in
            let last = time_at-last acc work k here in
            let same_key : t.key ≡ k = e ∙ sym here in
            let moved =
              subst (λ j. time_at r.finish j ≡ time_at r.start t.key + t.duration) same_key ends in
            rw last (omega (arith, moved, done))
        | inr c ↦
            let below : k < length acc = omega (arith, l, longer, apart k (length acc) c) in
            rw (time_at-append acc (work ∷ []) k below) (h k below)
      ]

  foldl-IsBefore :
      (r : ScheduleResult R) (acc : List ℕ) (ts : List (Task R))
      → IsBefore acc r.finish
      → IsGraphFrom (length acc) ts
      → IsSchedule ts r
      → IsBefore (foldl then_task acc ts) r.finish
  foldl-IsBefore r acc [] h g s = h
  foldl-IsBefore r acc (t ∷ ts) h (e, ds, g) ((ends, waits), s) =
      let longer : length acc + 1 ≡ length (then_task acc t) =
        omega (arith, length-append acc ((ready acc t.deps + t.duration) ∷ [])) in
      let g' = subst (λ n. IsGraphFrom n ts) longer g in
      foldl-IsBefore r (then_task acc t) ts (then_task-IsBefore r acc t h e ds ends waits) g' s

-- On resources with slots, where the keys of the tasks are their indices, and each depends on earlier
-- ones only, no task ends before the time at which it would end if no two tasks waited for one
-- resource: what `schedule` returns is nowhere faster than `times`.
pub schedule-times :
    {R : Type 0} (same : Discrete R) (rank : R → ℕ) (resources : R → Resource)
    (tasks : List (Task R))
    → IsGraph tasks
    → ((r : R) → (resources r).shared ≡ false)
    → (r : ScheduleResult R) → schedule same rank resources tasks ≡ some r
    → (k : ℕ) → k < length tasks
    → time_at (times tasks) k ≤ time_at r.finish k
unfolding times
schedule-times same rank resources tasks g serial r run k l =
    let (r', run', valid, _) = schedule-IsSchedule same rank resources tasks g serial in
    let agree : r' ≡ r = some-injective r' r (sym run' ∙ run) in
    let valid' = subst (λ u. IsSchedule tasks u) agree valid in
    foldl-IsBefore r [] tasks (λ j h. absurd (omega arith)) g valid' k
      (omega (arith, l, length-times tasks))
