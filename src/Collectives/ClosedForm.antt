-- ===== src/Collectives/ClosedForm.antt =====
-- Without contention a ring collective takes what its closed form says.
use inferencesim.Prelude.{
  ℕ, zero, suc, ◌+◌, ◌-◌, ◌*◌, ◌/◌, ◌≡◌, ◌<◌, refl, sym, ◌∙◌, false, List, [], ◌∷◌, Option, some,
  length, arith, String,
}
use inferencesim.Sched.Task.{IsGraph, add, length-add, key-add}
use inferencesim.Sched.Times.{
  times, times-add, length-times, time_at, ready, time_at-last, ready-append,
}
use inferencesim.Collectives.Ports.{Port, bar, egress}
use inferencesim.Collectives.Ring.{
  Tasks, deps_on, Fabric, is_trivial, sends, ring_step, ring_steps, ring_pass, ring_allreduce,
}
use inferencesim.Collectives.Graph.{Below, ring_step-IsGrown}

-- When the keys have finished.
abbrev pub ready_of : Tasks → List ℕ → ℕ
ready_of tasks = ready (times tasks)

Below-times :
    (tasks : Tasks) (ds : List ℕ) → Below (length tasks) ds → Below (length (times tasks)) ds
Below-times tasks [] h = tt
Below-times tasks (d ∷ ds) (h, hs) = (omega (arith, length-times tasks), Below-times tasks ds hs)

module _ (tasks : Tasks) (r : Port) (duration : ℕ) (deps : List ℕ) (label : String) where
  -- The time of the task that is added.
  pub time-add :
      time_at (times (add tasks r duration deps label).0) (length tasks)
      ≡ ready_of tasks deps + duration
  time-add = rw times-add (time_at-last (times tasks) _ (length tasks) (sym (length-times tasks)))

  -- The others keep theirs.
  pub ready-add :
      (ds : List ℕ)
      → Below (length tasks) ds
      → ready_of (add tasks r duration deps label).0 ds ≡ ready_of tasks ds
  ready-add ds h = rw times-add (ready-append (times tasks) _ ds (Below-times tasks ds h))

Below-suc : (n : ℕ) (ds : List ℕ) → Below n ds → Below (n + 1) ds
Below-suc n [] h = tt
Below-suc n (d ∷ ds) (h, hs) = (omega arith, Below-suc n ds hs)

module _ (f : Fabric) where
  sends-ready :
      (left i occ : ℕ) (deps ds : List ℕ) (tasks : Tasks)
      → Below (length tasks) ds
      → ready_of (sends f left i occ deps tasks).0 ds ≡ ready_of tasks ds
  unfolding sends
  sends-ready zero i occ deps ds tasks b = refl
  sends-ready (suc left) i occ deps ds tasks b =
      let r = egress f.prefix i f.topology in
      let tasks' = (add tasks r occ deps f.label).0 in
      let e : length tasks' ≡ length tasks + 1 = length-add tasks r occ deps f.label in
      sends-ready left (i + 1) occ deps ds tasks' (rw e (Below-suc (length tasks) ds b))
      ∙ ready-add tasks r occ deps f.label ds b

  first-send :
      (left i occ : ℕ) (deps : List ℕ) (tasks : Tasks)
      → Below (length tasks) deps
      → let (tasks', k) = add tasks (egress f.prefix i f.topology) occ deps f.label in
        time_at (times (sends f left (i + 1) occ deps tasks').0) k ≡ ready_of tasks deps + occ
  first-send left i occ deps tasks b =
      let r = egress f.prefix i f.topology in
      let (tasks', k) = add tasks r occ deps f.label in
      let e : length tasks' ≡ length tasks + 1 = length-add tasks r occ deps f.label in
      let ek : k ≡ length tasks = key-add tasks r occ deps f.label in
      let kept = sends-ready left (i + 1) occ deps (k ∷ []) tasks' (omega arith, tt) in
      let own : time_at (times tasks') k ≡ ready_of tasks deps + occ =
        rw ek (time-add tasks r occ deps f.label) in
      omega arith

  -- All the sends of a step finish at once.
  sends-times :
      (left i occ : ℕ) (deps : List ℕ) (tasks : Tasks)
      → Below (length tasks) deps
      → let (tasks', ks) = sends f (suc left) i occ deps tasks in
        ready_of tasks' ks ≡ ready_of tasks deps + occ
  unfolding sends
  sends-times zero i occ deps tasks b = omega (arith, first-send zero i occ deps tasks b)
  sends-times (suc left) i occ deps tasks b =
      let r = egress f.prefix i f.topology in
      let tasks' = (add tasks r occ deps f.label).0 in
      let e : length tasks' ≡ length tasks + 1 = length-add tasks r occ deps f.label in
      omega (
        arith,
        first-send (suc left) i occ deps tasks b,
        sends-times left (i + 1) occ deps tasks' (rw e (Below-suc (length tasks) deps b)),
        ready-add tasks r occ deps f.label deps b,
      )

  sends-times_pos :
      (left i occ : ℕ) (deps : List ℕ) (tasks : Tasks)
      → 0 < left
      → Below (length tasks) deps
      → let (tasks', ks) = sends f left i occ deps tasks in
        ready_of tasks' ks ≡ ready_of tasks deps + occ
  sends-times_pos zero i occ deps tasks h b = absurd (omega arith)
  sends-times_pos (suc left) i occ deps tasks h b = sends-times left i occ deps tasks b

  -- A step takes the occupancy of one send and one latency.
  ring_step-time :
      (inst occ : ℕ) (prev : Option ℕ) (tasks : Tasks)
      → 0 < f.group
      → IsGraph tasks
      → Below (length tasks) (deps_on prev)
      → let (tasks', k) = ring_step f inst occ prev tasks in
        ready_of tasks' (k ∷ []) ≡ ready_of tasks (deps_on prev) + (occ + f.lat)
  unfolding ring_step add
  ring_step-time inst occ prev tasks g w b =
      let (tasks', ks) = sends f f.group 0 occ (deps_on prev) tasks in
      omega (
        arith,
        time-add tasks' (bar f.prefix inst) f.lat ks f.label,
        key-add tasks' (bar f.prefix inst) f.lat ks f.label,
        sends-times_pos f.group 0 occ (deps_on prev) tasks g b,
      )

  -- The whole pass, from the time at which its entry has finished.
  ring_steps-time :
      (steps inst occ : ℕ) (prev : Option ℕ) (tasks : Tasks)
      → 0 < f.group
      → IsGraph tasks
      → Below (length tasks) (deps_on prev)
      → let (tasks', k) = ring_steps f steps inst occ prev tasks in
        ready_of tasks' (deps_on k) ≡ ready_of tasks (deps_on prev) + steps * (occ + f.lat)
  unfolding ring_steps
  ring_steps-time zero inst occ prev tasks g w b = omega arith
  ring_steps-time (suc steps) inst occ prev tasks g w b =
      let (tasks', k) = ring_step f inst occ prev tasks in
      let one = ring_step-IsGrown f inst occ prev tasks w b in
      omega (
        arith,
        ring_step-time inst occ prev tasks g w b,
        ring_steps-time steps inst occ (some k) tasks' g one.graph one.below,
      )

  pub ring_pass-time :
      (steps payload : ℕ) (entry : Option ℕ) (tasks : Tasks)
      → 0 < f.group
      → IsGraph tasks
      → Below (length tasks) (deps_on entry)
      → let (tasks', k) = ring_pass f steps payload entry tasks in
        ready_of tasks' (deps_on k)
        ≡ ready_of tasks (deps_on entry) + steps * (payload / (f.group * f.bw) + f.lat)
  unfolding ring_pass
  ring_pass-time steps payload entry tasks g w b =
      ring_steps-time steps (length tasks) (payload / (f.group * f.bw)) entry tasks g w b

  -- Without contention, an allreduce of a payload over at least two chips on a ring or a switched
  -- fabric ends 2 (g - 1) (payload / (g bw) + latency) after its entry, each quotient a whole number
  -- of ticks.
  pub ring_allreduce-time :
      (payload : ℕ) (entry : Option ℕ) (tasks : Tasks)
      → is_trivial f payload ≡ false
      → IsGraph tasks
      → Below (length tasks) (deps_on entry)
      → let (tasks', k) = ring_allreduce f payload entry tasks in
        ready_of tasks' (deps_on k)
        ≡ ready_of tasks (deps_on entry) + 2 * (f.group - 1) * (payload / (f.group * f.bw) + f.lat)
  unfolding ring_allreduce
  ring_allreduce-time payload entry tasks c w b =
      rw c (ring_pass-time (2 * (f.group - 1)) payload entry tasks (ground arith) w b)
