-- ===== src/Collectives/AllToAll.antt =====
-- inferencesim/collectives.py: the all-to-all. A share of the routing is a number of parts of a
-- whole, in place of a float between 0 and 1.
use inferencesim.Prelude.{
  ℕ, zero, suc, ◌+◌, ◌-◌, ◌*◌, ◌/◌, ◌%◌, Bool, true, false, List, [], ◌∷◌, ◌++◌, Option, none, some,
  leb, ◌==◌, if◌then◌else◌, length,
}
use inferencesim.Hardware.{Topology, all_to_all, ring, mesh_2d}
use inferencesim.Sched.Task.{add}
use inferencesim.Sched.Times.{time_at}
use inferencesim.Collectives.Ports.{Port, bar, prop, out, ingress_port, cw, ccw}
use inferencesim.Collectives.Ring.{Tasks, deps_on, Fabric, is_trivial}

-- The popularity of the members, and on which end of a message it bears.
pub data WeightOn : Type 0 where
  src dest : WeightOn

pub record Weights : Type 0 where
  pub whole : ℕ
  pub parts : List ℕ

-- The bytes from `s` to `r`.
unfoldable pub msg_sizes : (group comm_bytes : ℕ) → Option Weights → WeightOn → (s r : ℕ) → ℕ
msg_sizes group comm_bytes none on s r = comm_bytes / (group - 1)
msg_sizes group comm_bytes (some w) src s r =
    group * comm_bytes * time_at w.parts s / ((group - 1) * w.whole)
msg_sizes group comm_bytes (some w) dest s r =
    group * comm_bytes * time_at w.parts r / ((group - 1) * w.whole)

module _ (f : Fabric) (size : ℕ → ℕ → ℕ) where
  -- The messages of the sender `s` from `step` on, each on its egress and on the receiver's ingress.
  unfoldable pub messages : (left step s : ℕ) → List ℕ → List ℕ → Tasks → Tasks × List ℕ
  messages zero step s deps finals tasks = (tasks, finals)
  messages (suc left) step s deps finals tasks =
      let r = (s + step) % f.group in
      let occ = size s r / f.bw in
      let (sent, k) = add tasks (out f.prefix s) occ deps f.label in
      let (got, k') = add sent (ingress_port f.prefix r) occ (k ∷ []) f.label in
      messages left (step + 1) s (k ∷ []) (finals ++ k' ∷ []) got

  unfoldable pub senders : (left s : ℕ) → List ℕ → List ℕ → Tasks → Tasks × List ℕ
  senders zero s base finals tasks = (tasks, finals)
  senders (suc left) s base finals tasks =
      let (tasks', finals') = messages (f.group - 1) 1 s base finals tasks in
      senders left (s + 1) base finals' tasks'

  unfoldable pub a2a_switched : Option ℕ → Tasks → Tasks × Option ℕ
  a2a_switched entry tasks =
      let (tasks', finals) = senders f.group 0 (deps_on entry) [] tasks in
      let (tasks'', k) = add tasks' (bar f.prefix (length tasks)) f.lat finals f.label in
      (tasks'', some k)

  -- The way of a message round the ring: clockwise, and how many hops.
  unfoldable pub route : (i j : ℕ) → Bool × ℕ
  route i j =
      let cw_dist = (j + f.group - i) % f.group in
      let ccw_dist = (i + f.group - j) % f.group in
      if leb cw_dist ccw_dist then (true, cw_dist) else (false, ccw_dist)

  -- The cable of hop `h` from `i`.
  unfoldable pub hop_port : Bool → (i h : ℕ) → Port
  hop_port true i h = cw f.prefix ((i + h) % f.group)
  hop_port false i h = ccw f.prefix ((i + f.group - h) % f.group)

  unfoldable pub hops : (left h inst i j : ℕ) → Bool → List ℕ → Tasks → Tasks × List ℕ
  hops zero h inst i j clockwise deps tasks = (tasks, deps)
  hops (suc left) h inst i j clockwise deps tasks =
      let (sent, k) = add tasks (hop_port clockwise i h) (size i j / f.bw) deps f.label in
      let (got, k') = add sent (prop f.prefix inst i j) f.lat (k ∷ []) f.label in
      hops left (h + 1) inst i j clockwise (k' ∷ []) got

  unfoldable pub receivers : (left j inst i : ℕ) → List ℕ → List ℕ → Tasks → Tasks × List ℕ
  receivers zero j inst i base finals tasks = (tasks, finals)
  receivers (suc left) j inst i base finals tasks =
      let (clockwise, dist) = route i j in
      let (tasks', last) =
        if i == j then (tasks, []) else hops dist 0 inst i j clockwise base tasks in
      receivers left (j + 1) inst i base (finals ++ last) tasks'

  unfoldable pub ring_senders : (left i inst : ℕ) → List ℕ → List ℕ → Tasks → Tasks × List ℕ
  ring_senders zero i inst base finals tasks = (tasks, finals)
  ring_senders (suc left) i inst base finals tasks =
      let (tasks', finals') = receivers f.group 0 inst i base finals tasks in
      ring_senders left (i + 1) inst base finals' tasks'

  unfoldable pub a2a_ring : Option ℕ → Tasks → Tasks × Option ℕ
  a2a_ring entry tasks =
      let inst = length tasks in
      let (tasks', finals) = ring_senders f.group 0 inst (deps_on entry) [] tasks in
      let (tasks'', k) = add tasks' (bar f.prefix inst) 0 finals f.label in (tasks'', some k)

-- A mesh falls back to the occupancy of one port and one latency.
unfoldable pub a2a_mesh : Fabric → ℕ → Option ℕ → Tasks → Tasks × Option ℕ
a2a_mesh f comm_bytes entry tasks =
    let (tasks', occ) = add tasks (out f.prefix 0) (comm_bytes / f.bw) (deps_on entry) f.label in
    let (tasks'', k) = add tasks' (bar f.prefix (length tasks')) f.lat (occ ∷ []) f.label in
    (tasks'', some k)

unfoldable pub a2a_on :
    Topology → Fabric → ℕ → Option Weights → WeightOn → Option ℕ → Tasks → Tasks × Option ℕ
a2a_on ring f comm_bytes w on entry tasks =
    a2a_ring f (msg_sizes f.group comm_bytes w on) entry tasks
a2a_on mesh_2d f comm_bytes w on entry tasks = a2a_mesh f comm_bytes entry tasks
a2a_on all_to_all f comm_bytes w on entry tasks =
    a2a_switched f (msg_sizes f.group comm_bytes w on) entry tasks

unfoldable pub all_to_all_tasks :
    Fabric → ℕ → Option Weights → WeightOn → Option ℕ → Tasks → Tasks × Option ℕ
all_to_all_tasks f comm_bytes w on entry tasks =
    if is_trivial f comm_bytes
    then (tasks, entry)
    else a2a_on f.topology f comm_bytes w on entry tasks
