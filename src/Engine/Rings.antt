-- ===== src/Engine/Rings.antt =====
-- The ring collectives against the closed forms of inferencesim/engine.py.
use native.Mathlib.Nat.{mul-div_cancel}
use inferencesim.Prelude.{
  ℕ, zero, suc, ◌+◌, ◌-◌, ◌*◌, ◌/◌, ◌≡◌, ◌<◌, refl, ◌∙◌, sym, ap, true, Option, length, arith,
  Bool-cases, inl, inr,
}
use inferencesim.Hardware.{Link}
use inferencesim.Sched.Task.{IsGraph}
use inferencesim.Collectives.Ring.{Tasks, deps_on, Fabric, is_trivial, ring_allreduce}
use inferencesim.Collectives.Graph.{Below}
use inferencesim.Collectives.ClosedForm.{ready_of, ring_allreduce-time}
use inferencesim.Engine.{ring_allreduce_time}

-- `steps` transfers of a payload that the group divides.
divided : (steps chunk d : ℕ) → 0 < d → steps * (chunk * d) / d ≡ steps * (chunk * d / d)
divided steps chunk d h =
    let flat : steps * (chunk * d) ≡ steps * chunk * d = omega arith in
    ap (λ x. x / d) flat
    ∙ mul-div_cancel (steps * chunk) h
    ∙ ap (λ x. steps * x) (sym (mul-div_cancel chunk h))

product_pos : (a b : ℕ) → 0 < a → 0 < b → 0 < a * b
product_pos zero b h k = absurd (omega arith)
product_pos (suc a) zero h k = absurd (omega arith)
product_pos (suc a) (suc b) h k = omega arith

-- The early return takes no time.
trivial_time :
    (f : Fabric) (payload : ℕ) (entry : Option ℕ) (tasks : Tasks)
    → is_trivial f payload ≡ true
    → let (tasks', k) = ring_allreduce f payload entry tasks in
      ready_of tasks' (deps_on k) ≡ ready_of tasks (deps_on entry)
unfolding ring_allreduce
trivial_time f payload entry tasks c = rw c refl

-- If the chunks of the payload take a whole number of ticks, the expanded allreduce takes, without
-- contention, exactly the time that the analytic engine gives it, the early return included.
pub ring_allreduce_time_agrees :
    (f : Fabric) (l : Link) (chunk : ℕ) (entry : Option ℕ) (tasks : Tasks)
    → l.bandwidth ≡ f.bw
    → l.latency_s ≡ f.lat
    → 0 < f.bw
    → IsGraph tasks
    → Below (length tasks) (deps_on entry)
    → let payload = chunk * (f.group * f.bw) in
      let (tasks', k) = ring_allreduce f payload entry tasks in
      ready_of tasks' (deps_on k)
      ≡ ready_of tasks (deps_on entry) + ring_allreduce_time payload f.group l
unfolding ring_allreduce_time
ring_allreduce_time_agrees f l chunk entry tasks b t pos g w =
    elim (Bool-cases (is_trivial f (chunk * (f.group * f.bw)))) [
      | inl c ↦
          let same = trivial_time f (chunk * (f.group * f.bw)) entry tasks c in
          rw (b, t, c) (omega (arith, same))
      | inr c ↦
          let several : 1 < f.group = ground arith in
          let shares = product_pos f.group f.bw (omega arith) pos in
          let time = ring_allreduce-time f (chunk * (f.group * f.bw)) entry tasks c g w in
          let steps = divided (2 * (f.group - 1)) chunk (f.group * f.bw) shares in
          rw (b, t, c) (omega (arith, time, steps))
    ]
