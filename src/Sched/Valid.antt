-- ===== src/Sched/Valid.antt =====
-- The event loop of `schedule` on a graph of tasks whose resources have slots: it ends, and what it
-- returns is a schedule.
use mathlib.Core.Bool.{false≢true}
use mathlib.Core.Option.{some-injective}
use inferencesim.Prelude.{
  subst, ℕ, zero, suc, ◌+◌, ◌*◌, ◌≡◌, ◌≤◌, ◌<◌, refl, sym, ap, ◌∙◌, true, false, List, [], ◌∷◌,
  some, map, ◌==◌, ltb, length, All, In, inl, inr, arith, Bool-cases,
}
use inferencesim.Sched.Task.{Task, IsGraph}
use inferencesim.Sched.Times.{time_at}
use inferencesim.Sched.Schedule.{
  Resource, Schedule, ScheduleResult, initial, missing_of, keys_below, greatest_of,
}
use inferencesim.Sched.Loop.{rounds, result, schedule}
use inferencesim.Sched.Count.{undone_start, total_le, total_start, total_full}
use inferencesim.Sched.Children.{missing_of-length, key-lt, deps-lt}
use inferencesim.Sched.Within.{work}
use mathlib.Core.Logic.{ite}
use inferencesim.Sched.Fifo.{IsOpen, round_open, round_serial}
use inferencesim.Sched.First.{
  ready_at_first, known_at_first, zero_at_first, idle_at_first, nothing_done, started_ready,
  one_phase,
}

module _ {R : Type 0} where
  pub All-of :
      (P : Task R → Type 0) (ts : List (Task R)) → ((t : Task R) → In t ts → P t) → All P ts
  All-of P [] h = tt
  All-of P (t ∷ ts) h = (h t (inl refl), All-of P ts (λ u i. h u (inr i)))

All-below : (P : ℕ → Type 0) (ds : List ℕ) → ((d : ℕ) → In d ds → P d) → All P ds
All-below P [] h = tt
All-below P (d ∷ ds) h = (h d (inl refl), All-below P ds (λ x i. h x (inr i)))

time_at-keys :
    (f : ℕ → ℕ) (n left k : ℕ) → k < left → time_at (map f (keys_below n left)) k ≡ f (n + k)
unfolding keys_below
time_at-keys f n zero k l = absurd (omega arith)
time_at-keys f n (suc left) zero l = ap f (omega arith)
time_at-keys f n (suc left) (suc k) l =
    let shift : n + 1 + k ≡ n + suc k = omega arith in
    time_at-keys f (n + 1) left k (omega arith) ∙ ap f shift

pub time_at-all : (f : ℕ → ℕ) (n k : ℕ) → k < n → time_at (map f (keys_below 0 n)) k ≡ f k
time_at-all f n k l =
    let from_zero : 0 + k ≡ k = omega arith in time_at-keys f 0 n k l ∙ ap f from_zero

module _ {R : Type 0} (same : Discrete R) (rank : R → ℕ) (resources : R → Resource)
    (tasks : List (Task R)) (g : IsGraph tasks)
    (serial : (r : R) → (resources r).shared ≡ false) where
  initial-IsOpen : IsOpen same rank resources tasks (initial tasks)
  unfolding initial
  initial-IsOpen = record {
    done = λ _. false;
    latest = 0;
    books = record {
      missing = λ t m. omega (arith, missing_of-length 0 tasks (λ _. 0) t g m, undone_start t.deps);
      phase = λ t m. omega (
        arith,
        ready_at_first 0 (missing_of tasks (λ _. 0)) tasks t g m,
        one_phase (missing_of tasks (λ _. 0) t.key),
      );
      known =
          known_at_first (length tasks) (missing_of tasks (λ _. 0)) tasks
            (λ t m. key-lt tasks t g m);
      counted = sym (total_start (length tasks));
      ready_by = λ t d m i f. absurd (false≢true f);
      entries = started_ready tasks _;
      ends = λ t m f. absurd (false≢true f);
      waits = λ t d m i f. absurd (false≢true f);
    };
    no_departures = refl;
    within = record {
      slots = λ r. tt;
      heap = zero_at_first (work (λ _. false) tasks) (missing_of tasks (λ _. 0)) tasks;
      ready_at = λ k. omega arith;
      finish = λ k. omega arith;
    };
    capped = record { slots = λ q now. idle_at_first same q now tasks; few = λ q. omega arith };
    spent = record {
      busy = λ q. sym (nothing_done (λ t. ite (same q t.resource) t.duration 0) tasks);
      used = λ q. omega arith;
      within = λ w h q. tt;
    };
  }

  rounds-end :
      (fuel : ℕ) (s : Schedule R)
      → IsOpen same rank resources tasks s
      → length tasks ≤ s.completed + fuel
      → let end = rounds same rank resources tasks fuel s in
        IsOpen same rank resources tasks end × (end.completed ≡ length tasks)
  unfolding rounds
  rounds-end zero s o l = (o, omega (arith, o.books.counted, total_le o.done (length tasks)))
  rounds-end (suc fuel) s o l = elim (Bool-cases (ltb s.completed (length tasks))) [
    | inl c ↦
        let lt : s.completed < length tasks = ground arith in
        let (s', turn, kept, more) =
          round_serial same rank resources tasks g serial s o s.ready_heap refl lt in
        let go = round_open same rank resources tasks s o.no_departures ∙ turn in
        let (fin, all) = rounds-end fuel s' kept (omega arith) in rw (c, go) (fin, all)
    | inr c ↦
        let ge : length tasks ≤ s.completed = ground arith in
        let done : s.completed ≡ length tasks =
          omega (arith, o.books.counted, total_le o.done (length tasks)) in
        rw c (o, done)
  ]

  pub end : Schedule R
  end = rounds same rank resources tasks (2 * length tasks) (initial tasks)

  pub ended : IsOpen same rank resources tasks end × (end.completed ≡ length tasks)
  unfolding end
  ended = rounds-end (2 * length tasks) (initial tasks) initial-IsOpen (omega arith)

  -- Everything is done at the end.
  pub all_ended : (k : ℕ) → k < length tasks → ended.0.done k ≡ true
  all_ended k l = total_full ended.0.done (length tasks) k (sym ended.0.books.counted ∙ ended.1) l

  -- `schedule` returns the times of the end.
  pub schedule-end :
      schedule same rank resources tasks ≡ some (result same rank resources (length tasks) end)
  unfolding schedule end
  schedule-end =
      let at_end : (end.completed == length tasks) ≡ true = ground (arith, ended.1) in
      rw at_end refl

length-keys : (f : ℕ → ℕ) (n left : ℕ) → length (map f (keys_below n left)) ≡ left
unfolding keys_below
length-keys f n zero = refl
length-keys f n (suc left) = omega (arith, length-keys f (n + 1) left)

-- There is an end for each task.
pub length-finish :
    {R : Type 0} (same : Discrete R) (rank : R → ℕ) (resources : R → Resource)
    (tasks : List (Task R))
    → IsGraph tasks
    → ((r : R) → (resources r).shared ≡ false)
    → (r : ScheduleResult R) → schedule same rank resources tasks ≡ some r
    → length r.finish ≡ length tasks
unfolding result
length-finish same rank resources tasks g serial r run =
    let s = end same rank resources tasks g serial in
    let same_result =
      some-injective _ r (sym (schedule-end same rank resources tasks g serial) ∙ run) in
    subst (λ (u : ScheduleResult _). length u.finish ≡ length tasks) same_result
      (length-keys s.finish 0 (length tasks))

-- Every task ends its duration after it starts, and starts after all that it depends on has ended.
abbrev pub IsSchedule : {R : Type 0} → List (Task R) → ScheduleResult R → Type 0
IsSchedule tasks r =
    All
      (λ t.
        (time_at r.finish t.key ≡ time_at r.start t.key + t.duration)
        × All (λ d. time_at r.finish d ≤ time_at r.start t.key) t.deps)
      tasks

-- On resources with slots, a list of tasks whose keys are their indices, and of which each depends on
-- earlier ones only, is scheduled to its end: `schedule` raises
-- no error, and in what it returns every task ends its duration after it starts, and starts after all
-- that it depends on has ended; the makespan is the latest end.
pub schedule-IsSchedule :
    {R : Type 0} (same : Discrete R) (rank : R → ℕ) (resources : R → Resource)
    (tasks : List (Task R))
    → IsGraph tasks
    → ((r : R) → (resources r).shared ≡ false)
    → (r : ScheduleResult R) × (schedule same rank resources tasks ≡ some r)
      × IsSchedule tasks r
      × (r.makespan ≡ greatest_of r.finish)
unfolding result
schedule-IsSchedule same rank resources tasks g serial =
    let s = end same rank resources tasks g serial in
    let (o, all) = ended same rank resources tasks g serial in
    let done = all_ended same rank resources tasks g serial in
    let finish_at = time_at-all s.finish (length tasks) in
    let start_at = time_at-all s.start (length tasks) in
    (
      result same rank resources (length tasks) s,
      schedule-end same rank resources tasks g serial,
      All-of _ tasks (λ t m.
          let l = key-lt tasks t g m in
          (
            rw (finish_at t.key l, start_at t.key l) (o.books.ends t m (done t.key l)),
            All-below _ t.deps (λ d i.
                let before : d < length tasks = omega (arith, l, deps-lt 0 tasks t d g m i) in
                rw (finish_at d before, start_at t.key l) (o.books.waits t d m i (done t.key l))),
          )),
      refl,
    )
