-- ===== src/Collectives/Exchange.antt =====
-- The builders of the all-to-all leave a graph of tasks, on every fabric.
use inferencesim.Prelude.{
  ℕ, zero, suc, ◌+◌, ◌-◌, ◌/◌, ◌%◌, ◌<◌, Bool, List, [], ◌∷◌, ◌++◌, Option, ◌==◌, if◌then◌else◌,
  length, All-append, arith, if_elim,
}
use inferencesim.Hardware.{Topology, all_to_all, ring, mesh_2d}
use inferencesim.Sched.Task.{IsGraph, add}
use inferencesim.Collectives.Ports.{bar, prop, out, ingress_port}
use inferencesim.Collectives.Ring.{Tasks, deps_on, Fabric, is_trivial}
use inferencesim.Collectives.AllToAll.{
  Weights, WeightOn, msg_sizes, messages, senders, a2a_switched, route, hop_port, hops, receivers,
  ring_senders, a2a_ring, a2a_mesh, a2a_on, all_to_all_tasks,
}
use inferencesim.Collectives.Graph.{
  Below, Below-mono, IsGrown, here, IsGrown-add, IsGrown-trans, Grows, guarded-IsGrown,
}

-- Keys that are carried along: those to depend on, and the last ones of finished messages.
snoc : (n : ℕ) (ks : List ℕ) (k : ℕ) → Below n ks → k < n → Below n (ks ++ k ∷ [])
snoc n ks k b h = All-append (λ d. d < n) ks (k ∷ []) b (h, tt)

module _ (f : Fabric) (size : ℕ → ℕ → ℕ) where
  messages-IsGrown :
      (left step s : ℕ) (deps finals : List ℕ) (tasks : Tasks)
      → IsGraph tasks
      → Below (length tasks) deps
      → Below (length tasks) finals
      → let (tasks', ks) = messages f size left step s deps finals tasks in
        IsGrown (length tasks) tasks' ks
  unfolding messages
  messages-IsGrown zero step s deps finals tasks g d b = here tasks finals g b
  messages-IsGrown (suc left) step s deps finals tasks g d b =
      let r = (s + step) % f.group in
      let occ = size s r / f.bw in
      let n = length tasks in
      let one = IsGrown-add n tasks (out f.prefix s) occ deps finals f.label g (omega arith) d b in
      let (sent, k) = add tasks (out f.prefix s) occ deps f.label in
      let two =
        IsGrown-add n sent (ingress_port f.prefix r) occ (k ∷ []) (k ∷ finals) f.label one.graph
          one.longer (one.below.0, tt) one.below in
      let (got, k') = add sent (ingress_port f.prefix r) occ (k ∷ []) f.label in
      IsGrown-trans n (length got) _ _ two.longer (
        messages-IsGrown left (step + 1) s (k ∷ []) (finals ++ k' ∷ []) got two.graph
          (two.below.1.0, tt) (snoc (length got) finals k' two.below.1.1 two.below.0))

  senders-IsGrown :
      (left s : ℕ) (base finals : List ℕ) (tasks : Tasks)
      → IsGraph tasks
      → Below (length tasks) base
      → Below (length tasks) finals
      → let (tasks', ks) = senders f size left s base finals tasks in
        IsGrown (length tasks) tasks' ks
  unfolding senders
  senders-IsGrown zero s base finals tasks g d b = here tasks finals g b
  senders-IsGrown (suc left) s base finals tasks g d b =
      let one = messages-IsGrown (f.group - 1) 1 s base finals tasks g d b in
      let (tasks', finals') = messages f size (f.group - 1) 1 s base finals tasks in
      IsGrown-trans (length tasks) (length tasks') _ _ one.longer (
        senders-IsGrown left (s + 1) base finals' tasks' one.graph
          (Below-mono (length tasks) (length tasks') base one.longer d) one.below)

  a2a_switched-IsGrown : Grows (a2a_switched f size)
  unfolding a2a_switched
  a2a_switched-IsGrown entry tasks g b =
      let one = senders-IsGrown f.group 0 (deps_on entry) [] tasks g b tt in
      IsGrown-add (length tasks) _ (bar f.prefix (length tasks)) f.lat _ [] f.label one.graph
        one.longer one.below tt

  hops-IsGrown :
      (left h inst i j : ℕ) (clockwise : Bool) (deps : List ℕ) (tasks : Tasks)
      → IsGraph tasks
      → Below (length tasks) deps
      → let (tasks', ks) = hops f size left h inst i j clockwise deps tasks in
        IsGrown (length tasks) tasks' ks
  unfolding hops
  hops-IsGrown zero h inst i j clockwise deps tasks g b = here tasks deps g b
  hops-IsGrown (suc left) h inst i j clockwise deps tasks g b =
      let n = length tasks in
      let port = hop_port f size clockwise i h in
      let occ = size i j / f.bw in
      let one = IsGrown-add n tasks port occ deps [] f.label g (omega arith) b tt in
      let (sent, k) = add tasks port occ deps f.label in
      let two =
        IsGrown-add n sent (prop f.prefix inst i j) f.lat (k ∷ []) [] f.label one.graph one.longer
          one.below tt in
      let (got, k') = add sent (prop f.prefix inst i j) f.lat (k ∷ []) f.label in
      IsGrown-trans n (length got) _ _ two.longer
        (hops-IsGrown left (h + 1) inst i j clockwise (k' ∷ []) got two.graph two.below)

  receivers-IsGrown :
      (left j inst i : ℕ) (base finals : List ℕ) (tasks : Tasks)
      → IsGraph tasks
      → Below (length tasks) base
      → Below (length tasks) finals
      → let (tasks', ks) = receivers f size left j inst i base finals tasks in
        IsGrown (length tasks) tasks' ks
  unfolding receivers
  receivers-IsGrown zero j inst i base finals tasks g d b = here tasks finals g b
  receivers-IsGrown (suc left) j inst i base finals tasks g d b =
      let way = route f size i j in
      let Q : Tasks × List ℕ → Type 0 = λ r. IsGrown (length tasks) r.0 r.1 in
      let sent = if i == j then (tasks, []) else hops f size way.1 0 inst i j way.0 base tasks in
      let one : Q sent =
        if_elim Q (i == j) (λ _. here tasks [] g tt)
          (λ _. hops-IsGrown way.1 0 inst i j way.0 base tasks g d) in
      let m = length sent.0 in
      IsGrown-trans (length tasks) m _ _ one.longer (
        receivers-IsGrown left (j + 1) inst i base (finals ++ sent.1) sent.0 one.graph
          (Below-mono (length tasks) m base one.longer d)
          (All-append (λ k. k < m) finals sent.1 (Below-mono (length tasks) m finals one.longer b)
            one.below))

  ring_senders-IsGrown :
      (left i inst : ℕ) (base finals : List ℕ) (tasks : Tasks)
      → IsGraph tasks
      → Below (length tasks) base
      → Below (length tasks) finals
      → let (tasks', ks) = ring_senders f size left i inst base finals tasks in
        IsGrown (length tasks) tasks' ks
  unfolding ring_senders
  ring_senders-IsGrown zero i inst base finals tasks g d b = here tasks finals g b
  ring_senders-IsGrown (suc left) i inst base finals tasks g d b =
      let one = receivers-IsGrown f.group 0 inst i base finals tasks g d b in
      let (tasks', finals') = receivers f size f.group 0 inst i base finals tasks in
      IsGrown-trans (length tasks) (length tasks') _ _ one.longer (
        ring_senders-IsGrown left (i + 1) inst base finals' tasks' one.graph
          (Below-mono (length tasks) (length tasks') base one.longer d) one.below)

  a2a_ring-IsGrown : Grows (a2a_ring f size)
  unfolding a2a_ring
  a2a_ring-IsGrown entry tasks g b =
      let one = ring_senders-IsGrown f.group 0 (length tasks) (deps_on entry) [] tasks g b tt in
      IsGrown-add (length tasks) _ (bar f.prefix (length tasks)) 0 _ [] f.label one.graph one.longer
        one.below tt

module _ (f : Fabric) (comm_bytes : ℕ) (w : Option Weights) (on : WeightOn) where
  a2a_mesh-IsGrown : Grows (a2a_mesh f comm_bytes)
  unfolding a2a_mesh
  a2a_mesh-IsGrown entry tasks g b =
      let one =
        IsGrown-add (length tasks) tasks (out f.prefix 0) (comm_bytes / f.bw) (deps_on entry) []
          f.label g (omega arith) b tt in
      IsGrown-add (length tasks) _ (bar f.prefix _) f.lat _ [] f.label one.graph one.longer
        one.below tt

  a2a_on-IsGrown : (t : Topology) → Grows (a2a_on t f comm_bytes w on)
  unfolding a2a_on
  a2a_on-IsGrown ring = a2a_ring-IsGrown f (msg_sizes f.group comm_bytes w on)
  a2a_on-IsGrown mesh_2d = a2a_mesh-IsGrown
  a2a_on-IsGrown all_to_all = a2a_switched-IsGrown f (msg_sizes f.group comm_bytes w on)

  -- From a graph of tasks and an entry that is a key into it, an all-to-all on any fabric, with even
  -- or skewed messages, leaves a graph, no shorter, and an exit that is a key into it.
  pub all_to_all_tasks-IsGrown :
      (entry : Option ℕ) (tasks : Tasks)
      → IsGraph tasks
      → Below (length tasks) (deps_on entry)
      → let (tasks', k) = all_to_all_tasks f comm_bytes w on entry tasks in
        IsGrown (length tasks) tasks' (deps_on k)
  unfolding all_to_all_tasks
  all_to_all_tasks-IsGrown = guarded-IsGrown (is_trivial f comm_bytes) _ (a2a_on-IsGrown f.topology)
