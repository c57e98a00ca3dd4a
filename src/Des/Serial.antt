-- ===== src/Des/Serial.antt =====
-- The tasks of a stage: when they end without contention, and their work.
use inferencesim.Prelude.{
  ℕ, ◌+◌, ◌-◌, ◌*◌, ◌/◌, ◌≡◌, ◌<◌, refl, true, false, [], ◌∷◌, length, arith, String, sum,
}
use inferencesim.Hardware.{Link, Topology, ring, all_to_all, mesh_2d}
use inferencesim.Sched.Task.{add, key-add, load-add}
use inferencesim.Collectives.Ports.{bar, out, unit}
use inferencesim.Collectives.Ring.{
  deps_on, Fabric, is_trivial, closed_form, allreduce_on, allreduce,
}
use inferencesim.Collectives.ClosedForm.{ready_of, time-add}
use inferencesim.Engine.{ring_allreduce_time}
use inferencesim.Engine.Rings.{ring_allreduce_time_agrees}
use inferencesim.Des.Measured.{Measure, Takes, guarded-Takes}
use inferencesim.Des.Stage.{on_unit}

-- When what is built ends, without contention.
abbrev pub ends : Measure
ends entry tasks = ready_of tasks (deps_on entry)

-- What all tasks take, one after the other.
abbrev pub worked : Measure
worked entry tasks = sum (λ t. t.duration) tasks

pub on_unit-ends :
    (s duration : ℕ) (label : String) → Takes ends (on_unit s duration label) duration
unfolding on_unit add
on_unit-ends s duration label entry tasks g w = omega (
  arith,
  time-add tasks (unit s) duration (deps_on entry) label,
  key-add tasks (unit s) duration (deps_on entry) label,
)

pub on_unit-worked :
    (s duration : ℕ) (label : String) → Takes worked (on_unit s duration label) duration
unfolding on_unit
on_unit-worked s duration label entry tasks g w =
    load-add (λ _. true) tasks (unit s) duration (deps_on entry) label

module _ (f : Fabric) where
  closed_form-Takes :
      (steps payload : ℕ)
      → Takes ends
          (closed_form f steps payload)
          (steps * payload / (f.group * f.bw) + steps * f.lat)
  unfolding closed_form add
  closed_form-Takes steps payload entry tasks g w =
      let d = steps * payload / (f.group * f.bw) in
      let r = out f.prefix 0 in
      let (tasks', occ) = add tasks r d (deps_on entry) f.label in
      omega (
        arith,
        time-add tasks r d (deps_on entry) f.label,
        key-add tasks r d (deps_on entry) f.label,
        time-add tasks' (bar f.prefix (length tasks')) (steps * f.lat) (occ ∷ []) f.label,
        key-add tasks' (bar f.prefix (length tasks')) (steps * f.lat) (occ ∷ []) f.label,
      )

  module _ (l : Link) (chunk : ℕ) (b : l.bandwidth ≡ f.bw) (t : l.latency_s ≡ f.lat)
      (pos : 0 < f.bw) where
    abbrev whole_chunks : ℕ
    whole_chunks = chunk * (f.group * f.bw)

    allreduce_on-Takes :
        (topo : Topology)
        → is_trivial f whole_chunks ≡ false
        → Takes ends (allreduce_on f topo whole_chunks) (ring_allreduce_time whole_chunks f.group l)
    unfolding allreduce_on ring_allreduce_time
    allreduce_on-Takes ring c entry tasks g w =
        ring_allreduce_time_agrees f l chunk entry tasks b t pos g w
    allreduce_on-Takes all_to_all c entry tasks g w =
        ring_allreduce_time_agrees f l chunk entry tasks b t pos g w
    allreduce_on-Takes mesh_2d c entry tasks g w =
        let same = closed_form_time c in
        omega (arith, same, closed_form-Takes (2 * (f.group - 1)) whole_chunks entry tasks g w)
      where
        closed_form_time :
            is_trivial f whole_chunks ≡ false
            → ring_allreduce_time whole_chunks f.group l
              ≡ 2 * (f.group - 1) * whole_chunks / (f.group * f.bw) + 2 * (f.group - 1) * f.lat
        closed_form_time c = rw (b, t, c) refl

    trivial_free : is_trivial f whole_chunks ≡ true → ring_allreduce_time whole_chunks f.group l ≡ 0
    unfolding ring_allreduce_time
    trivial_free c = rw c refl

    -- If the chunks of the payload take a whole number of ticks, on any fabric.
    pub allreduce-Takes :
        Takes ends (allreduce f whole_chunks) (ring_allreduce_time whole_chunks f.group l)
    unfolding allreduce
    allreduce-Takes =
        guarded-Takes ends (is_trivial f whole_chunks) _ _ trivial_free
          (allreduce_on-Takes f.topology)
