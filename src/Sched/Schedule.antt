-- ===== src/Sched/Schedule.antt =====
-- inferencesim/sched.py: `schedule`, the event loop over a graph of tasks. Times are whole ticks, and a
-- shared resource's work is divided by its flows with a quotient that is rounded down.
use mathlib.Core.List.{foldl}
use inferencesim.Prelude.{
  ℕ, zero, suc, ◌+◌, ◌-◌, ◌*◌, ◌/◌, max, Bool, not, ◌&&◌, ◌||◌, List, [], ◌∷◌, ◌++◌, map, Option,
  none, some, ltb, leb, ◌==◌, if◌then◌else◌, length, filter, is_empty,
}
use inferencesim.Sched.Task.{Task}
use inferencesim.Sched.Heap.{pop_min, set_at, set_on}

pub record Resource : Type 0 where
  pub servers : ℕ
  pub shared : Bool

-- An entry of the ready heap, and one of the heap of departures.
abbrev pub Ready : Type 0
Ready = ℕ × ℕ

pub record Departure (R : Type 0) : Type 0 where
  pub time : ℕ
  pub name : R
  pub epoch_of : ℕ

-- The variables of the event loop. A list of slots that is not there yet is empty.
pub record Schedule (R : Type 0) : Type 0 where
  pub start : ℕ → ℕ
  pub finish : ℕ → ℕ
  pub ready_at : ℕ → ℕ
  pub missing : ℕ → ℕ
  pub busy : R → ℕ
  pub completed : ℕ
  pub slots : R → List ℕ
  pub active : R → List Ready
  pub last : R → ℕ
  pub epoch : R → ℕ
  pub ready_heap : List Ready
  pub dep_heap : List (Departure R)

pub record ScheduleResult (R : Type 0) : Type 0 where
  pub finish : List ℕ
  pub start : List ℕ
  pub busy : R → ℕ
  pub makespan : ℕ

-- A fraction of the makespan; there is none without one.
unfoldable pub utilization : {R : Type 0} → ScheduleResult R → R → Option (ℕ × ℕ)
utilization r name = if r.makespan == 0 then none else some (r.busy name, r.makespan)

-- The order of the ready heap: by time, then by key.
unfoldable pub earlier : Ready → Ready → Bool
earlier (t, k) (u, j) = ltb t u || (t == u && leb k j)

unfoldable pub least_slot : ℕ → ℕ → Bool
least_slot a b = leb a b

-- `remaining` and then the key, for the flow that is nearest to its end.
unfoldable pub nearer : Ready → Ready → Bool
nearer (k, a) (j, b) = ltb a b || (a == b && leb k j)

unfoldable pub replicate : ℕ → ℕ → List ℕ
replicate zero x = []
replicate (suc n) x = x ∷ replicate n x

unfoldable pub keys_below : ℕ → ℕ → List ℕ
keys_below n zero = []
keys_below n (suc left) = n ∷ keys_below (n + 1) left

unfoldable pub greatest_of : List ℕ → ℕ
greatest_of [] = 0
greatest_of (x ∷ xs) = max x (greatest_of xs)

module _ {R : Type 0} where
  -- `children[k]`: a task stands in it as often as it depends on `k`.
  unfoldable pub children : List (Task R) → ℕ → List ℕ
  children [] k = []
  children (t ∷ ts) k = map (λ _. t.key) (filter (λ d. d == k) t.deps) ++ children ts k

  unfoldable pub missing_of : List (Task R) → (ℕ → ℕ) → ℕ → ℕ
  missing_of [] m = m
  missing_of (t ∷ ts) m = missing_of ts (set_at m t.key (length t.deps))

  unfoldable pub ready_heap_of : (ℕ → ℕ) → List (Task R) → List Ready
  ready_heap_of m [] = []
  ready_heap_of m (t ∷ ts) =
      if m t.key == 0 then (0, t.key) ∷ ready_heap_of m ts else ready_heap_of m ts

  unfoldable pub initial : List (Task R) → Schedule R
  initial tasks = record {
    start = λ _. 0;
    finish = λ _. 0;
    ready_at = λ _. 0;
    missing = missing_of tasks (λ _. 0);
    busy = λ _. 0;
    completed = 0;
    slots = λ _. [];
    active = λ _. [];
    last = λ _. 0;
    epoch = λ _. 0;
    ready_heap = ready_heap_of (missing_of tasks (λ _. 0)) tasks;
    dep_heap = [];
  }

  -- One round of the loop of `release` over the children.
  unfoldable pub notify : ℕ → Schedule R → ℕ → Schedule R
  notify when s c =
      let at = max (s.ready_at c) when in
      let left = s.missing c - 1 in
      record s {
        ready_at = set_at s.ready_at c at;
        missing = set_at s.missing c left;
        ready_heap = if left == 0 then (at, c) ∷ s.ready_heap else s.ready_heap;
      }

  unfoldable pub release : List (Task R) → ℕ → ℕ → Schedule R → Schedule R
  release tasks k when s =
      foldl (notify when)
        (record s { finish = set_at s.finish k when; completed = s.completed + 1 })
        (children tasks k)

module _ {R : Type 0} (same : Discrete R) where
  unfoldable pub add_busy : R → ℕ → Schedule R → Schedule R
  add_busy name x s = record s { busy = set_on same s.busy name (s.busy name + x) }

  -- A task on a resource with slots: it starts when it is ready and a slot is free.
  unfoldable pub occupy : List (Task R) → ℕ → ℕ → ℕ → List ℕ → Task R → Schedule R → Schedule R
  occupy tasks rt k slot rest t s =
      let st = if ltb slot rt then rt else slot in
      let held = record s {
        slots = set_on same s.slots t.resource ((st + t.duration) ∷ rest);
        start = set_at s.start k st;
      } in
      release tasks k (st + t.duration) (add_busy t.resource t.duration held)

  -- The free times of the slots, which are there from the first task on.
  unfoldable pub free_times : Resource → List ℕ → List ℕ
  free_times r [] = replicate (max 1 r.servers) 0
  free_times r (x ∷ xs) = x ∷ xs

  -- `heappop` of the slots, of which there is at least one.
  unfoldable pub serve_fifo : List (Task R) → ℕ → ℕ → List ℕ → Task R → Schedule R → Schedule R
  serve_fifo tasks rt k [] t s = s
  serve_fifo tasks rt k (x ∷ xs) t s =
      let (slot, rest) = pop_min least_slot x xs in occupy tasks rt k slot rest t s

  unfoldable pub advance : R → ℕ → Schedule R → Schedule R
  advance name now s =
      let dt = now - s.last name in
      let per = dt / length (s.active name) in
      let worked =
        if ltb 0 dt && not (is_empty (s.active name))
        then add_busy name dt (record s {
          active =
              set_on same s.active name (map (λ (e : Ready). (e.0, e.1 - per)) (s.active name));
        })
        else s in
      record worked { last = set_on same worked.last name now }

  -- The flow that ends first, as the entry that it departs by.
  unfoldable pub next_departure : R → Schedule R → Schedule R
  next_departure name s = elim (s.active name) [
    | [] ↦ s
    | e ∷ es ↦
        let (first, _) = pop_min nearer e es in
        record s {
          dep_heap =
              record {
                time = s.last name + first.1 * length (s.active name);
                name = name;
                epoch_of = s.epoch name;
              }
              ∷ s.dep_heap;
        }
  ]

  unfoldable pub bump : R → Schedule R → Schedule R
  bump name s = record s { epoch = set_on same s.epoch name (s.epoch name + 1) }

  -- `active[name][k] = duration`
  unfoldable pub put_flow : ℕ → ℕ → List Ready → List Ready
  put_flow k d es = filter (λ (e : Ready). not (e.0 == k)) es ++ (k, d) ∷ []

  unfoldable pub serve_shared : ℕ → ℕ → Task R → Schedule R → Schedule R
  serve_shared rt k t s =
      let now = advance t.resource rt s in
      let joined = record now {
        active = set_on same now.active t.resource (put_flow k t.duration (now.active t.resource));
        start = set_at now.start k rt;
      } in
      next_departure t.resource (bump t.resource joined)
