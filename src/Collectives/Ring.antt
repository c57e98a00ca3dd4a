-- ===== src/Collectives/Ring.antt =====
-- inferencesim/collectives.py: the ring collectives. `tasks` is passed on, and a builder returns it
-- with the key to chain on. Bandwidths are positive; a quotient is rounded down to a whole tick.
use inferencesim.Prelude.{
  ℕ, zero, suc, ◌+◌, ◌-◌, ◌*◌, ◌/◌, ◌||◌, Bool, List, [], ◌∷◌, Option, none, some, leb, ◌==◌,
  if◌then◌else◌, length, String,
}
use inferencesim.Hardware.{Topology, mesh_2d}
use inferencesim.Sched.Task.{Task, add}
use inferencesim.Collectives.Ports.{Port, bar, out, egress}

abbrev pub Tasks : Type 0
Tasks = List (Task Port)

-- `[prev] if prev is not None else []`
abbrev pub deps_on : Option ℕ → List ℕ
deps_on none = []
deps_on (some k) = k ∷ []

-- What the calls of one collective share.
pub record Fabric : Type 0 where
  pub group : ℕ
  pub bw : ℕ
  pub lat : ℕ
  pub topology : Topology
  pub prefix : ℕ
  pub label : String

module _ (f : Fabric) where
  -- One send of each of the members `i`, …, `i + left - 1`.
  unfoldable pub sends : (left i occ : ℕ) → List ℕ → Tasks → Tasks × List ℕ
  sends zero i occ deps tasks = (tasks, [])
  sends (suc left) i occ deps tasks =
      let (tasks', k) = add tasks (egress f.prefix i f.topology) occ deps f.label in
      let (tasks'', ks) = sends left (i + 1) occ deps tasks' in (tasks'', k ∷ ks)

  -- One step of the ring: the sends, and the barrier that joins them.
  unfoldable pub ring_step : (inst occ : ℕ) → Option ℕ → Tasks → Tasks × ℕ
  ring_step inst occ prev tasks =
      let (tasks', ks) = sends f.group 0 occ (deps_on prev) tasks in
      add tasks' (bar f.prefix inst) f.lat ks f.label

  unfoldable pub ring_steps : (steps inst occ : ℕ) → Option ℕ → Tasks → Tasks × Option ℕ
  ring_steps zero inst occ prev tasks = (tasks, prev)
  ring_steps (suc steps) inst occ prev tasks =
      let (tasks', k) = ring_step inst occ prev tasks in ring_steps steps inst occ (some k) tasks'

  unfoldable pub ring_pass : (steps payload : ℕ) → Option ℕ → Tasks → Tasks × Option ℕ
  ring_pass steps payload entry tasks =
      ring_steps steps (length tasks) (payload / (f.group * f.bw)) entry tasks

  -- The fallback of a mesh: the occupancy on one port, the latency on a barrier.
  unfoldable pub closed_form : (steps payload : ℕ) → Option ℕ → Tasks → Tasks × Option ℕ
  closed_form steps payload entry tasks =
      let (tasks', occ) =
        add tasks (out f.prefix 0) (steps * payload / (f.group * f.bw)) (deps_on entry) f.label in
      let (tasks'', k) =
        add tasks' (bar f.prefix (length tasks')) (steps * f.lat) (occ ∷ []) f.label in
      (tasks'', some k)

  -- `group <= 1 or payload <= 0.0`: nothing to send.
  abbrev pub is_trivial : ℕ → Bool
  is_trivial payload = leb f.group 1 || payload == 0

  unfoldable pub ring_allreduce : ℕ → Option ℕ → Tasks → Tasks × Option ℕ
  ring_allreduce payload entry tasks =
      if is_trivial payload
      then (tasks, entry)
      else ring_pass (2 * (f.group - 1)) payload entry tasks

  -- On a mesh the closed form, elsewhere the ring.
  unfoldable pub on_fabric : Topology → (steps payload : ℕ) → Option ℕ → Tasks → Tasks × Option ℕ
  on_fabric mesh_2d steps payload entry tasks = closed_form steps payload entry tasks
  on_fabric _ steps payload entry tasks = ring_pass steps payload entry tasks

  unfoldable pub half_ring : ℕ → Option ℕ → Tasks → Tasks × Option ℕ
  half_ring payload entry tasks =
      if is_trivial payload
      then (tasks, entry)
      else on_fabric f.topology (f.group - 1) payload entry tasks

  unfoldable pub allreduce_on : Topology → ℕ → Option ℕ → Tasks → Tasks × Option ℕ
  allreduce_on mesh_2d payload entry tasks = closed_form (2 * (f.group - 1)) payload entry tasks
  allreduce_on _ payload entry tasks = ring_allreduce payload entry tasks

  unfoldable pub allreduce : ℕ → Option ℕ → Tasks → Tasks × Option ℕ
  allreduce payload entry tasks =
      if is_trivial payload then (tasks, entry) else allreduce_on f.topology payload entry tasks
