-- ===== src/Sched/Limited.antt =====
-- A schedule on resources with slots against the number of the slots.
use mathlib.Core.Option.{some-injective}
use inferencesim.Prelude.{
  ℕ, ◌≡◌, ◌≤◌, refl, sym, ◌∙◌, subst, max, true, false, Bool, List, [], ◌∷◌, some, sum, length, In,
  inl, inr, arith,
}
use inferencesim.Sched.Task.{Task, IsGraph}
use inferencesim.Sched.Times.{time_at}
use inferencesim.Sched.Schedule.{Resource, ScheduleResult}
use inferencesim.Sched.Loop.{schedule, result}
use inferencesim.Sched.Capacity.{runs, running, taken_le}
use inferencesim.Sched.Children.{key-lt}
use inferencesim.Sched.Valid.{end, ended, all_ended, schedule-end, time_at-all}

-- How many tasks of `q` have started by `now` and have not ended.
abbrev pub running_at : {R : Type 0} → Discrete R → ScheduleResult R → R → ℕ → List (Task R) → ℕ
running_at same r q now =
    sum (λ t. runs same q now (time_at r.start t.key) (time_at r.finish t.key) t)

running_all :
    {R : Type 0} (same : Discrete R) (r : ScheduleResult R) (q : R) (now : ℕ) (start finish : ℕ → ℕ)
    (done : ℕ → Bool) (ts : List (Task R))
    → ((t : Task R)
        → In t ts
        → (done t.key ≡ true)
          × (time_at r.start t.key ≡ start t.key)
          × (time_at r.finish t.key ≡ finish t.key))
    → running_at same r q now ts ≡ running same start finish done q now ts
running_all same r q now start finish done [] h = refl
running_all same r q now start finish done (t ∷ ts) h =
    let (d, s, f) = h t (inl refl) in
    rw (d, s, f, running_all same r q now start finish done ts (λ u i. h u (inr i))) refl

-- On resources with slots, in the schedule of tasks whose keys are their indices, and of which each
-- depends on earlier ones only, no resource ever runs
-- more tasks at a time than it has servers, of which it has at least one.
pub schedule_capacity :
    {R : Type 0} (same : Discrete R) (rank : R → ℕ) (resources : R → Resource)
    (tasks : List (Task R))
    → IsGraph tasks
    → ((r : R) → (resources r).shared ≡ false)
    → (r : ScheduleResult R) → schedule same rank resources tasks ≡ some r
    → (q : R) (now : ℕ) → running_at same r q now tasks ≤ max 1 (resources q).servers
unfolding result
schedule_capacity same rank resources tasks g serial r run q now =
    let s = end same rank resources tasks g serial in
    let (o, all) = ended same rank resources tasks g serial in
    let same_result =
      some-injective _ r (sym (schedule-end same rank resources tasks g serial) ∙ run) in
    let counted =
      running_all same (result same rank resources (length tasks) s) q now s.start s.finish o.done
        tasks
        (λ t i.
          let l = key-lt tasks t g i in
          (
            all_ended same rank resources tasks g serial t.key l,
            time_at-all s.start (length tasks) t.key l,
            time_at-all s.finish (length tasks) t.key l,
          )) in
    subst (λ (u : ScheduleResult _). running_at same u q now tasks ≤ max 1 (resources q).servers)
      same_result
      (omega (arith, counted, o.capped.slots q now, taken_le now (s.slots q), o.capped.few q))
