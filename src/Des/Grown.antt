-- ===== src/Des/Grown.antt =====
-- The tasks that des.py builds are graphs.
use inferencesim.Prelude.{ℕ, zero, suc, Bool, true, false, [], length, arith, String}
use inferencesim.Collectives.Ports.{unit}
use inferencesim.Collectives.Ring.{deps_on}
use inferencesim.Collectives.AllToAll.{WeightOn, dest, src}
use inferencesim.Collectives.Graph.{
  IsGrown-add, IsGrown-trans, here, Grows, allreduce-IsGrown, half_ring-IsGrown,
}
use inferencesim.Collectives.Exchange.{all_to_all_tasks-IsGrown}
use inferencesim.Des.Stage.{
  LayerCosts, CommPlan, Build, then_build, build_if, repeat_build, on_unit, costs, launched,
  stage_allreduce, stage_all_to_all, stage_half_ring, stage_cp_ring, after_attention, layer,
  stage_chain, fly, occupy_link, emit_hop,
}

pub then_build-Grows : (a b : Build) → Grows a → Grows b → Grows (then_build a b)
unfolding then_build
then_build-Grows a b ga gb entry tasks g k =
    let one = ga entry tasks g k in
    IsGrown-trans (length tasks) _ _ _ one.longer (gb _ _ one.graph one.below)

pub build_if-Grows : (c : Bool) (b : Build) → Grows b → Grows (build_if c b)
unfolding build_if
build_if-Grows true b gb entry tasks g k = gb entry tasks g k
build_if-Grows false b gb entry tasks g k = here tasks (deps_on entry) g k

pub repeat_build-Grows : (n : ℕ) (b : Build) → Grows b → Grows (repeat_build n b)
unfolding repeat_build
repeat_build-Grows zero b gb entry tasks g k = here tasks (deps_on entry) g k
repeat_build-Grows (suc n) b gb entry tasks g k =
    let one = gb entry tasks g k in
    IsGrown-trans (length tasks) _ _ _ one.longer
      (repeat_build-Grows n b gb _ _ one.graph one.below)

pub on_unit-Grows : (s duration : ℕ) (label : String) → Grows (on_unit s duration label)
unfolding on_unit
on_unit-Grows s duration label entry tasks g k =
    IsGrown-add (length tasks) tasks (unit s) duration (deps_on entry) [] label g (omega arith) k tt

module _ (oh : ℕ) (c : LayerCosts) (plan : CommPlan) where
  launched-Grows : (s : ℕ) (b : Build) → Grows b → Grows (launched oh c plan s b)
  unfolding launched
  launched-Grows s b gb =
      then_build-Grows b (build_if (costs oh) (on_unit s oh "oh")) gb
        (build_if-Grows (costs oh) (on_unit s oh "oh") (on_unit-Grows s oh "oh"))

  pub stage_allreduce-Grows : (s : ℕ) → Grows (stage_allreduce oh c plan s)
  unfolding stage_allreduce
  stage_allreduce-Grows s = launched-Grows s _ (allreduce-IsGrown _ plan.ar_bytes)

  pub stage_all_to_all-Grows :
      (s payload : ℕ) (on : WeightOn) → Grows (stage_all_to_all oh c plan s payload on)
  unfolding stage_all_to_all
  stage_all_to_all-Grows s payload on =
      launched-Grows s _ (all_to_all_tasks-IsGrown _ payload plan.a2a_weights on)

  pub stage_half_ring-Grows :
      (s payload : ℕ) (name : String) → Grows (stage_half_ring oh c plan s payload name)
  unfolding stage_half_ring
  stage_half_ring-Grows s payload name = launched-Grows s _ (half_ring-IsGrown _ payload)

  pub stage_cp_ring-Grows : (s : ℕ) → Grows (stage_cp_ring oh c plan s)
  unfolding stage_cp_ring
  stage_cp_ring-Grows s = launched-Grows s _ (half_ring-IsGrown _ plan.cp_ring_bytes)

  pub after_attention-Grows : (s : ℕ) → Grows (after_attention oh c plan s)
  unfolding after_attention
  after_attention-Grows s = then_build-Grows _ _ (build_if-Grows _ _ (stage_cp_ring-Grows s)) (
      then_build-Grows _ _ (build_if-Grows _ _ (stage_allreduce-Grows s)) (
        then_build-Grows _ _ (build_if-Grows _ _ (stage_all_to_all-Grows s _ dest)) (
          then_build-Grows _ _ (build_if-Grows _ _ (stage_half_ring-Grows s _ _)) (
            then_build-Grows _ _ (on_unit-Grows s c.ffn "ffn") (
              then_build-Grows _ _ (build_if-Grows _ _ (stage_half_ring-Grows s _ _)) (
                then_build-Grows _ _ (build_if-Grows _ _ (stage_all_to_all-Grows s _ src))
                  (build_if-Grows _ _ (stage_allreduce-Grows s))))))))

  pub layer-Grows : (s : ℕ) → Grows (layer oh c plan s)
  unfolding layer
  layer-Grows s = then_build-Grows _ _ (on_unit-Grows s c.attn "attn") (after_attention-Grows s)

  pub stage_chain-Grows :
      (s n : ℕ) (is_first is_last : Bool) → Grows (stage_chain oh c plan s n is_first is_last)
  unfolding stage_chain
  stage_chain-Grows s n is_first is_last =
      then_build-Grows _ _ (build_if-Grows _ _ (on_unit-Grows s 0 "embed")) (
        then_build-Grows _ _ (repeat_build-Grows n _ (layer-Grows s))
          (build_if-Grows _ _ (on_unit-Grows s c.edge "head")))

  fly-Grows : (s : ℕ) → Grows (fly oh c plan s)
  unfolding fly
  fly-Grows s entry tasks g k =
      IsGrown-add (length tasks) tasks _ plan.hop_lat (deps_on entry) [] "hop" g (omega arith) k tt

  occupy_link-Grows : (s : ℕ) → Grows (occupy_link oh c plan s)
  unfolding occupy_link
  occupy_link-Grows s entry tasks g k =
      IsGrown-add (length tasks) tasks _ _ (deps_on entry) [] "hop" g (omega arith) k tt

  pub emit_hop-Grows : (s : ℕ) → Grows (emit_hop oh c plan s)
  unfolding emit_hop
  emit_hop-Grows s =
      launched-Grows s _
        (then_build-Grows _ _ (occupy_link-Grows s) (build_if-Grows _ _ (fly-Grows s)))
