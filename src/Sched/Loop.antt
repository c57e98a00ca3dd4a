-- ===== src/Sched/Loop.antt =====
-- inferencesim/sched.py: the rounds of the event loop of `schedule`, and `schedule`. `rank` is the order
-- of the names of resources, which breaks ties between departures.
use inferencesim.Prelude.{
  ℕ, zero, suc, ◌*◌, Bool, true, not, ◌&&◌, ◌||◌, List, [], ◌∷◌, map, Option, none, some, ltb, leb,
  ◌==◌, if◌then◌else◌, length, filter, is_empty, get_elem?,
}
use inferencesim.Sched.Task.{Task}
use inferencesim.Sched.Heap.{pop_min, set_on}
use inferencesim.Sched.Schedule.{
  Resource, Ready, Departure, Schedule, ScheduleResult, earlier, nearer, keys_below, greatest_of,
  initial, release, free_times, serve_fifo, advance, next_departure, bump, serve_shared,
}

-- In the order of the keys.
unfoldable pub insert_key : ℕ → List ℕ → List ℕ
insert_key k [] = k ∷ []
insert_key k (j ∷ js) = if leb k j then k ∷ j ∷ js else j ∷ insert_key k js

unfoldable pub sorted : List ℕ → List ℕ
sorted [] = []
sorted (k ∷ ks) = insert_key k (sorted ks)

-- The flows whose work is done, or else the nearest to its end.
unfoldable pub leaving : List Ready → List ℕ
leaving [] = []
leaving (e ∷ es) =
    let done = sorted (map (λ (x : Ready). x.0) (filter (λ (x : Ready). x.1 == 0) (e ∷ es))) in
    if is_empty done then (pop_min nearer e es).0.0 ∷ [] else done

-- `del act[k]` for each of the keys.
unfoldable pub without : List ℕ → List Ready → List Ready
without [] es = es
without (k ∷ ks) es = without ks (filter (λ (e : Ready). not (e.0 == k)) es)

unfoldable pub release_all : {R : Type 0} → List (Task R) → ℕ → List ℕ → Schedule R → Schedule R
release_all tasks when [] s = s
release_all tasks when (k ∷ ks) s = release_all tasks when ks (release tasks k when s)

-- How a round ends: with the next state, or because nothing is left to run.
pub data Round (R : Type 0) : Type 0 where
  next : Schedule R → Round R
  stuck : Round R

module _ {R : Type 0} (same : Discrete R) (rank : R → ℕ) (resources : R → Resource) where
  unfoldable pub sooner : Departure R → Departure R → Bool
  sooner d e =
      ltb d.time e.time
      || (d.time == e.time
          && (ltb (rank d.name) (rank e.name)
              || (rank d.name == rank e.name && leb d.epoch_of e.epoch_of)))

  unfoldable pub is_stale : Schedule R → Departure R → Bool
  is_stale s d = not (d.epoch_of == s.epoch d.name) || is_empty (s.active d.name)

  -- The loop that drops stale departures, with as many rounds as there are entries: the first that is
  -- not stale, and the entries behind it.
  unfoldable pub fresh : ℕ → Schedule R → List (Departure R) → List (Departure R)
  fresh fuel s [] = []
  fresh zero s (d ∷ ds) = d ∷ ds
  fresh (suc fuel) s (d ∷ ds) =
      let (m, rest) = pop_min sooner d ds in
      let later = fresh fuel s rest in if is_stale s m then later else m ∷ rest

  -- A departure on a shared resource.
  unfoldable pub depart : List (Task R) → Departure R → List (Departure R) → Schedule R → Schedule R
  depart tasks d rest s =
      let now = advance same d.name d.time (record s { dep_heap = rest }) in
      let gone = leaving (now.active d.name) in
      let left = bump same d.name (record now {
        active = set_on same now.active d.name (without gone (now.active d.name));
      }) in
      next_departure same d.name (release_all tasks d.time gone left)

  -- The task `k`, ready at `rt`, is given to its resource.
  unfoldable pub serve_task : List (Task R) → ℕ → ℕ → Task R → Schedule R → Schedule R
  serve_task tasks rt k t s =
      let r = resources t.resource in
      if r.shared
      then serve_shared same rt k t s
      else serve_fifo same tasks rt k (free_times same r (s.slots t.resource)) t s

  -- `stuck` stands for the IndexError of a key that is none.
  unfoldable pub dispatch : List (Task R) → ℕ → Option (Task R) → ℕ → Schedule R → Round R
  dispatch tasks rt none k s = stuck
  dispatch tasks rt (some t) k s = next (serve_task tasks rt k t s)

  unfoldable pub take_ready : List (Task R) → List Ready → Schedule R → Round R
  take_ready tasks [] s = stuck
  take_ready tasks (e ∷ es) s =
      let ((rt, k), rest) = pop_min earlier e es in
      dispatch tasks rt (get_elem? tasks k) k (record s { ready_heap = rest })

  -- A departure comes first if no task is ready before it.
  unfoldable pub comes_first : ℕ → List Ready → Bool
  comes_first time [] = true
  comes_first time (e ∷ es) = leb time (pop_min earlier e es).0.0

  unfoldable pub choose : List (Task R) → List (Departure R) → Schedule R → Round R
  choose tasks [] s = take_ready tasks s.ready_heap s
  choose tasks (d ∷ ds) s =
      if comes_first d.time s.ready_heap
      then next (depart tasks d ds s)
      else take_ready tasks s.ready_heap s

  -- The body of the `while` loop.
  unfoldable pub round : List (Task R) → Schedule R → Round R
  round tasks s =
      let waiting = fresh (length s.dep_heap) s s.dep_heap in
      choose tasks waiting (record s { dep_heap = waiting })

  -- `while completed < n`, and the state in which it ends.
  unfoldable pub rounds : List (Task R) → ℕ → Schedule R → Schedule R
  rounds tasks zero s = s
  rounds tasks (suc fuel) s =
      let rest : Schedule R = elim (round tasks s) [ stuck ↦ s | next t ↦ rounds tasks fuel t ] in
      if ltb s.completed (length tasks) then rest else s

  unfoldable pub result : ℕ → Schedule R → ScheduleResult R
  result n s =
      let ends = map s.finish (keys_below 0 n) in
      record {
        finish = ends;
        start = map s.start (keys_below 0 n);
        busy = s.busy;
        makespan = greatest_of ends;
      }

  -- Each task is served once and departs at most once, so that there are at most `2 * n` rounds.
  -- `none` is the ValueError of a cycle.
  unfoldable pub schedule : List (Task R) → Option (ScheduleResult R)
  schedule tasks =
      let n = length tasks in
      let end = rounds tasks (2 * n) (initial tasks) in
      if end.completed == n then some (result n end) else none
