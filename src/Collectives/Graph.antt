-- ===== src/Collectives/Graph.antt =====
-- The graphs that the builders of inferencesim/collectives.py leave.
use inferencesim.Prelude.{
  ℕ, zero, suc, ◌+◌, ◌-◌, ◌*◌, ◌/◌, ◌≤◌, ◌<◌, Bool, true, false, List, [], ◌∷◌, ◌++◌, Option, some,
  if◌then◌else◌, length, All, All-append, arith, String,
}
use inferencesim.Hardware.{Topology, all_to_all, ring, mesh_2d}
use inferencesim.Sched.Task.{IsGraph, add, add-IsGraph, length-add, key-add}
use inferencesim.Collectives.Ports.{Port, bar, out, egress}
use inferencesim.Collectives.Ring.{
  Tasks, deps_on, Fabric, is_trivial, sends, ring_step, ring_steps, ring_pass, closed_form,
  on_fabric, ring_allreduce, half_ring, allreduce_on, allreduce,
}

abbrev pub Below : ℕ → List ℕ → Type 0
Below n = All (λ d. d < n)

-- A graph that has grown from `n` tasks, with keys into it.
pub record IsGrown (n : ℕ) (tasks : Tasks) (keys : List ℕ) : Type 0 where
  pub graph : IsGraph tasks
  pub longer : n ≤ length tasks
  pub below : Below (length tasks) keys

pub Below-mono : (n m : ℕ) (ds : List ℕ) → n ≤ m → Below n ds → Below m ds
Below-mono n m [] h b = tt
Below-mono n m (d ∷ ds) h (b, bs) = (omega arith, Below-mono n m ds h bs)

-- One more task on a grown graph; `more` are other keys to carry on.
pub IsGrown-add :
    (n : ℕ) (tasks : Tasks) (r : Port) (duration : ℕ) (deps more : List ℕ) (label : String)
    → IsGraph tasks
    → n ≤ length tasks
    → Below (length tasks) deps
    → Below (length tasks) more
    → let (tasks', k) = add tasks r duration deps label in IsGrown n tasks' (k ∷ more)
IsGrown-add n tasks r duration deps more label g h d m = record {
  graph = add-IsGraph tasks r duration deps label g d;
  longer = omega (arith, length-add tasks r duration deps label);
  below = (
    omega (arith, length-add tasks r duration deps label, key-add tasks r duration deps label),
    Below-mono (length tasks) _ more (omega (arith, length-add tasks r duration deps label)) m,
  );
}

-- The same graph, seen as grown from itself, from fewer tasks, or with other keys.
pub here :
    (tasks : Tasks) (ks : List ℕ)
    → IsGraph tasks
    → Below (length tasks) ks
    → IsGrown (length tasks) tasks ks
here tasks ks g b = record { graph = g; longer = omega arith; below = b }

pub IsGrown-trans :
    (n m : ℕ) (tasks : Tasks) (ks : List ℕ) → n ≤ m → IsGrown m tasks ks → IsGrown n tasks ks
IsGrown-trans n m tasks ks h g = record {
  graph = g.graph;
  longer = omega (arith, g.longer);
  below = g.below;
}

IsGrown-cons :
    (n m k : ℕ) (tasks : Tasks) (ks : List ℕ)
    → n ≤ m
    → k < m
    → IsGrown m tasks ks
    → IsGrown n tasks (k ∷ ks)
IsGrown-cons n m k tasks ks h b g = record {
  graph = g.graph;
  longer = omega (arith, g.longer);
  below = (omega (arith, g.longer), g.below);
}

-- Keys into a graph stay keys into what grows from it.
IsGrown-keys :
    (n m : ℕ) (tasks : Tasks) (ks more : List ℕ)
    → Below m more
    → IsGrown m tasks ks
    → IsGrown m tasks (more ++ ks)
IsGrown-keys n m tasks ks more b g = record {
  graph = g.graph;
  longer = g.longer;
  below =
      All-append (λ d. d < length tasks) more ks (Below-mono m (length tasks) more g.longer b)
        g.below;
}

abbrev pub Grows : (Option ℕ → Tasks → Tasks × Option ℕ) → Type 0
Grows build =
    (entry : Option ℕ) (tasks : Tasks)
    → IsGraph tasks
    → Below (length tasks) (deps_on entry)
    → IsGrown (length tasks) (build entry tasks).0 (deps_on (build entry tasks).1)

-- The early return gives the tasks and the entry back.
pub guarded-IsGrown :
    (b : Bool) (build : Option ℕ → Tasks → Tasks × Option ℕ)
    → Grows build
    → Grows (λ entry tasks. if b then (tasks, entry) else build entry tasks)
guarded-IsGrown true build h entry tasks g b = here tasks (deps_on entry) g b
guarded-IsGrown false build h entry tasks g b = h entry tasks g b

module _ (f : Fabric) where
  sends-IsGrown :
      (left i occ : ℕ) (deps : List ℕ) (tasks : Tasks)
      → IsGraph tasks
      → Below (length tasks) deps
      → let (tasks', ks) = sends f left i occ deps tasks in IsGrown (length tasks) tasks' ks
  unfolding sends
  sends-IsGrown zero i occ deps tasks g b = here tasks [] g tt
  sends-IsGrown (suc left) i occ deps tasks g b =
      let r = egress f.prefix i f.topology in
      let one = IsGrown-add (length tasks) tasks r occ deps deps f.label g (omega arith) b b in
      let tasks' = (add tasks r occ deps f.label).0 in
      IsGrown-cons (length tasks) (length tasks') _ _ _ one.longer one.below.0
        (sends-IsGrown left (i + 1) occ deps tasks' one.graph one.below.1)

  pub ring_step-IsGrown :
      (inst occ : ℕ) (prev : Option ℕ) (tasks : Tasks)
      → IsGraph tasks
      → Below (length tasks) (deps_on prev)
      → let (tasks', k) = ring_step f inst occ prev tasks in IsGrown (length tasks) tasks' (k ∷ [])
  unfolding ring_step
  ring_step-IsGrown inst occ prev tasks g b =
      let sent = sends-IsGrown f.group 0 occ (deps_on prev) tasks g b in
      IsGrown-add (length tasks) _ (bar f.prefix inst) f.lat _ [] f.label sent.graph sent.longer
        sent.below tt

  ring_steps-IsGrown :
      (steps inst occ : ℕ) (prev : Option ℕ) (tasks : Tasks)
      → IsGraph tasks
      → Below (length tasks) (deps_on prev)
      → let (tasks', k) = ring_steps f steps inst occ prev tasks in
        IsGrown (length tasks) tasks' (deps_on k)
  unfolding ring_steps
  ring_steps-IsGrown zero inst occ prev tasks g b = here tasks (deps_on prev) g b
  ring_steps-IsGrown (suc steps) inst occ prev tasks g b =
      let one = ring_step-IsGrown inst occ prev tasks g b in
      let (tasks', k) = ring_step f inst occ prev tasks in
      IsGrown-trans (length tasks) (length tasks') _ _ one.longer
        (ring_steps-IsGrown steps inst occ (some k) tasks' one.graph one.below)

  closed_form-IsGrown :
      (steps payload : ℕ) (entry : Option ℕ) (tasks : Tasks)
      → IsGraph tasks
      → Below (length tasks) (deps_on entry)
      → let (tasks', k) = closed_form f steps payload entry tasks in
        IsGrown (length tasks) tasks' (deps_on k)
  unfolding closed_form
  closed_form-IsGrown steps payload entry tasks g b =
      let one =
        IsGrown-add (length tasks) tasks (out f.prefix 0) (steps * payload / (f.group * f.bw))
          (deps_on entry) [] f.label g (omega arith) b tt in
      IsGrown-add (length tasks) _ (bar f.prefix _) (steps * f.lat) _ [] f.label one.graph
        one.longer one.below tt

  ring_pass-IsGrown :
      (steps payload : ℕ) (entry : Option ℕ) (tasks : Tasks)
      → IsGraph tasks
      → Below (length tasks) (deps_on entry)
      → let (tasks', k) = ring_pass f steps payload entry tasks in
        IsGrown (length tasks) tasks' (deps_on k)
  unfolding ring_pass
  ring_pass-IsGrown steps payload entry tasks g b =
      ring_steps-IsGrown steps (length tasks) (payload / (f.group * f.bw)) entry tasks g b

  on_fabric-IsGrown : (t : Topology) (steps payload : ℕ) → Grows (on_fabric f t steps payload)
  unfolding on_fabric
  on_fabric-IsGrown mesh_2d steps payload = closed_form-IsGrown steps payload
  on_fabric-IsGrown all_to_all steps payload = ring_pass-IsGrown steps payload
  on_fabric-IsGrown ring steps payload = ring_pass-IsGrown steps payload

  -- From a graph of tasks and an entry that is a key into it, an allgather or reduce-scatter leaves a
  -- graph, no shorter, and an exit that is a key into it.
  pub half_ring-IsGrown :
      (payload : ℕ) (entry : Option ℕ) (tasks : Tasks)
      → IsGraph tasks
      → Below (length tasks) (deps_on entry)
      → let (tasks', k) = half_ring f payload entry tasks in
        IsGrown (length tasks) tasks' (deps_on k)
  unfolding half_ring
  half_ring-IsGrown payload =
      guarded-IsGrown (is_trivial f payload) _ (on_fabric-IsGrown f.topology (f.group - 1) payload)

  ring_allreduce-IsGrown : (payload : ℕ) → Grows (ring_allreduce f payload)
  unfolding ring_allreduce
  ring_allreduce-IsGrown payload =
      guarded-IsGrown (is_trivial f payload) _ (ring_pass-IsGrown (2 * (f.group - 1)) payload)

  allreduce_on-IsGrown : (t : Topology) (payload : ℕ) → Grows (allreduce_on f t payload)
  unfolding allreduce_on
  allreduce_on-IsGrown mesh_2d payload = closed_form-IsGrown (2 * (f.group - 1)) payload
  allreduce_on-IsGrown all_to_all payload = ring_allreduce-IsGrown payload
  allreduce_on-IsGrown ring payload = ring_allreduce-IsGrown payload

  -- From a graph of tasks and an entry that is a key into it, an allreduce on any fabric leaves a
  -- graph, no shorter, and an exit that is a key into it.
  pub allreduce-IsGrown :
      (payload : ℕ) (entry : Option ℕ) (tasks : Tasks)
      → IsGraph tasks
      → Below (length tasks) (deps_on entry)
      → let (tasks', k) = allreduce f payload entry tasks in
        IsGrown (length tasks) tasks' (deps_on k)
  unfolding allreduce
  allreduce-IsGrown payload =
      guarded-IsGrown (is_trivial f payload) _ (allreduce_on-IsGrown f.topology payload)
