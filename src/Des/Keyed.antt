-- ===== src/Des/Keyed.antt =====
-- The tasks that des.py builds for a stage end with a key to chain on.
use inferencesim.Prelude.{
  ◌⊎◌, ℕ, zero, suc, ◌<◌, Bool, true, false, ◌&&◌, Option, none, some, if◌then◌else◌, String, inl,
  inr, arith,
}
use inferencesim.Hardware.{Topology, ring, mesh_2d, all_to_all}
use inferencesim.Collectives.Ring.{
  Tasks, Fabric, is_trivial, ring_steps, ring_pass, closed_form, on_fabric, ring_allreduce,
  half_ring, allreduce_on, allreduce,
}
use inferencesim.Collectives.AllToAll.{
  Weights, WeightOn, dest, src, a2a_on, a2a_ring, a2a_mesh, a2a_switched, all_to_all_tasks,
}
use inferencesim.Des.Stage.{
  LayerCosts, CommPlan, Build, then_build, build_if, repeat_build, on_unit, costs, launched,
  stage_allreduce, stage_all_to_all, stage_half_ring, stage_cp_ring, after_attention, layer,
  stage_chain, fly, occupy_link, emit_hop,
}

abbrev pub IsKey : Option ℕ → Type 0
IsKey none = ⊥
IsKey (some k) = Unit

-- From a key, a builder comes to a key.
abbrev pub Leads : Build → Type 0
Leads b = (prev : Option ℕ) (tasks : Tasks) → IsKey prev → IsKey (b prev tasks).1

guarded-Leads :
    (c : Bool) (b : Build)
    → Leads b
    → Leads (λ prev tasks. if c then (tasks, prev) else b prev tasks)
guarded-Leads true b h prev tasks k = k
guarded-Leads false b h prev tasks k = h prev tasks k

module _ (f : Fabric) where
  ring_steps-Leads : (steps inst occ : ℕ) → Leads (ring_steps f steps inst occ)
  unfolding ring_steps
  ring_steps-Leads zero inst occ prev tasks k = k
  ring_steps-Leads (suc steps) inst occ prev tasks k = ring_steps-Leads steps inst occ _ _ tt

  ring_pass-Leads : (steps payload : ℕ) → Leads (ring_pass f steps payload)
  unfolding ring_pass
  ring_pass-Leads steps payload prev tasks k = ring_steps-Leads steps _ _ prev tasks k

  closed_form-Leads : (steps payload : ℕ) → Leads (closed_form f steps payload)
  unfolding closed_form
  closed_form-Leads steps payload prev tasks k = tt

  on_fabric-Leads : (t : Topology) (steps payload : ℕ) → Leads (on_fabric f t steps payload)
  unfolding on_fabric
  on_fabric-Leads mesh_2d steps payload = closed_form-Leads steps payload
  on_fabric-Leads all_to_all steps payload = ring_pass-Leads steps payload
  on_fabric-Leads ring steps payload = ring_pass-Leads steps payload

  half_ring-Leads : (payload : ℕ) → Leads (half_ring f payload)
  unfolding half_ring
  half_ring-Leads payload =
      guarded-Leads (is_trivial f payload) _ (on_fabric-Leads f.topology _ payload)

  ring_allreduce-Leads : (payload : ℕ) → Leads (ring_allreduce f payload)
  unfolding ring_allreduce
  ring_allreduce-Leads payload = guarded-Leads (is_trivial f payload) _ (ring_pass-Leads _ payload)

  allreduce_on-Leads : (t : Topology) (payload : ℕ) → Leads (allreduce_on f t payload)
  unfolding allreduce_on
  allreduce_on-Leads mesh_2d payload = closed_form-Leads _ payload
  allreduce_on-Leads all_to_all payload = ring_allreduce-Leads payload
  allreduce_on-Leads ring payload = ring_allreduce-Leads payload

  allreduce-Leads : (payload : ℕ) → Leads (allreduce f payload)
  unfolding allreduce
  allreduce-Leads payload =
      guarded-Leads (is_trivial f payload) _ (allreduce_on-Leads f.topology payload)

  a2a_on-Leads :
      (t : Topology) (payload : ℕ) (w : Option Weights) (on : WeightOn)
      → Leads (a2a_on t f payload w on)
  unfolding a2a_on a2a_ring a2a_mesh a2a_switched
  a2a_on-Leads mesh_2d payload w on prev tasks k = tt
  a2a_on-Leads all_to_all payload w on prev tasks k = tt
  a2a_on-Leads ring payload w on prev tasks k = tt

  all_to_all_tasks-Leads :
      (payload : ℕ) (w : Option Weights) (on : WeightOn) → Leads (all_to_all_tasks f payload w on)
  unfolding all_to_all_tasks
  all_to_all_tasks-Leads payload w on =
      guarded-Leads (is_trivial f payload) _ (a2a_on-Leads f.topology payload w on)

then_build-Leads : (a b : Build) → Leads a → Leads b → Leads (then_build a b)
unfolding then_build
then_build-Leads a b ha hb prev tasks k = hb _ _ (ha prev tasks k)

pub build_if-Leads : (c : Bool) (b : Build) → Leads b → Leads (build_if c b)
unfolding build_if
build_if-Leads true b h prev tasks k = h prev tasks k
build_if-Leads false b h prev tasks k = k

repeat_build-Leads : (n : ℕ) (b : Build) → Leads b → Leads (repeat_build n b)
unfolding repeat_build
repeat_build-Leads zero b h prev tasks k = k
repeat_build-Leads (suc n) b h prev tasks k = repeat_build-Leads n b h _ _ (h prev tasks k)

on_unit-IsKey :
    (s duration : ℕ) (label : String) (prev : Option ℕ) (tasks : Tasks)
    → IsKey (on_unit s duration label prev tasks).1
unfolding on_unit
on_unit-IsKey s duration label prev tasks = tt

on_unit-Leads : (s duration : ℕ) (label : String) → Leads (on_unit s duration label)
on_unit-Leads s duration label prev tasks k = on_unit-IsKey s duration label prev tasks

module _ (oh : ℕ) (c : LayerCosts) (plan : CommPlan) where
  launched-Leads : (s : ℕ) (b : Build) → Leads b → Leads (launched oh c plan s b)
  unfolding launched
  launched-Leads s b h =
      then_build-Leads b _ h (build_if-Leads (costs oh) _ (on_unit-Leads s oh "oh"))

  stage_allreduce-Leads : (s : ℕ) → Leads (stage_allreduce oh c plan s)
  unfolding stage_allreduce
  stage_allreduce-Leads s = launched-Leads s _ (allreduce-Leads _ plan.ar_bytes)

  stage_all_to_all-Leads :
      (s payload : ℕ) (on : WeightOn) → Leads (stage_all_to_all oh c plan s payload on)
  unfolding stage_all_to_all
  stage_all_to_all-Leads s payload on =
      launched-Leads s _ (all_to_all_tasks-Leads _ payload plan.a2a_weights on)

  stage_half_ring-Leads :
      (s payload : ℕ) (name : String) → Leads (stage_half_ring oh c plan s payload name)
  unfolding stage_half_ring
  stage_half_ring-Leads s payload name = launched-Leads s _ (half_ring-Leads _ payload)

  stage_cp_ring-Leads : (s : ℕ) → Leads (stage_cp_ring oh c plan s)
  unfolding stage_cp_ring
  stage_cp_ring-Leads s = launched-Leads s _ (half_ring-Leads _ plan.cp_ring_bytes)

  after_attention-Leads : (s : ℕ) → Leads (after_attention oh c plan s)
  unfolding after_attention
  after_attention-Leads s = then_build-Leads _ _ (build_if-Leads _ _ (stage_cp_ring-Leads s)) (
      then_build-Leads _ _ (build_if-Leads _ _ (stage_allreduce-Leads s)) (
        then_build-Leads _ _ (build_if-Leads _ _ (stage_all_to_all-Leads s _ dest)) (
          then_build-Leads _ _ (build_if-Leads _ _ (stage_half_ring-Leads s _ _)) (
            then_build-Leads _ _ (on_unit-Leads s c.ffn "ffn") (
              then_build-Leads _ _ (build_if-Leads _ _ (stage_half_ring-Leads s _ _)) (
                then_build-Leads _ _ (build_if-Leads _ _ (stage_all_to_all-Leads s _ src))
                  (build_if-Leads _ _ (stage_allreduce-Leads s))))))))

  layer-IsKey : (s : ℕ) (prev : Option ℕ) (tasks : Tasks) → IsKey (layer oh c plan s prev tasks).1
  unfolding layer then_build
  layer-IsKey s prev tasks = after_attention-Leads s _ _ (on_unit-IsKey s c.attn "attn" prev tasks)

  more_layers-IsKey :
      (n s : ℕ) (prev : Option ℕ) (tasks : Tasks)
      → IsKey (repeat_build (suc n) (layer oh c plan s) prev tasks).1
  unfolding repeat_build
  more_layers-IsKey n s prev tasks =
      repeat_build-Leads n _ (λ p ts q. layer-IsKey s p ts) _ _ (layer-IsKey s prev tasks)

  layers-IsKey :
      (n s : ℕ) (prev : Option ℕ) (tasks : Tasks)
      → IsKey prev ⊎ (0 < n)
      → IsKey (repeat_build n (layer oh c plan s) prev tasks).1
  layers-IsKey n s prev tasks (inl k) =
      repeat_build-Leads n _ (λ p ts q. layer-IsKey s p ts) prev tasks k
  layers-IsKey zero s prev tasks (inr l) = absurd (omega (arith, l))
  layers-IsKey (suc n) s prev tasks (inr l) = more_layers-IsKey n s prev tasks

  -- With a key to start from, or with a layer, a stage ends with a key.
  pub stage_chain-IsKey :
      (s n : ℕ) (is_first is_last : Bool) (prev : Option ℕ) (tasks : Tasks)
      → IsKey prev ⊎ (0 < n)
      → IsKey (stage_chain oh c plan s n is_first is_last prev tasks).1
  unfolding stage_chain then_build
  stage_chain-IsKey s n is_first is_last prev tasks h =
      let first = build_if (is_first && costs c.edge) (on_unit s 0 "embed") in
      let start : IsKey (first prev tasks).1 ⊎ (0 < n) = elim h [
        | inl k ↦
            inl
              (build_if-Leads (is_first && costs c.edge) _ (on_unit-Leads s 0 "embed") prev tasks k)
        | inr l ↦ inr l
      ] in
      build_if-Leads (is_last && costs c.edge) _ (on_unit-Leads s c.edge "head") _ _
        (layers-IsKey n s _ _ start)

  pub emit_hop-Leads : (s : ℕ) → Leads (emit_hop oh c plan s)
  unfolding emit_hop fly occupy_link
  emit_hop-Leads s =
      launched-Leads s _ (then_build-Leads _ _ (λ p ts k. tt) (build_if-Leads _ _ (λ p ts k. tt)))
