-- ===== src/Des/Stage.antt =====
-- inferencesim/des.py: the tasks of a stage of the pipeline. A builder takes the key to chain on, if
-- there is one, and the tasks, and returns the tasks with the next key. The label of a task is the last
-- word of the source's.
use inferencesim.Prelude.{
  ℕ, zero, suc, ◌/◌, Bool, not, ◌&&◌, Option, none, some, String, leb, ltb, ◌==◌, if◌then◌else◌,
  length,
}
use inferencesim.Hardware.{Topology}
use inferencesim.Sched.Task.{add}
use inferencesim.Collectives.Ports.{unit, prop_h, egress}
use inferencesim.Collectives.Ring.{Tasks, deps_on, Fabric, allreduce, half_ring}
use inferencesim.Collectives.AllToAll.{Weights, WeightOn, dest, src, all_to_all_tasks}

-- `_LayerCosts`
pub record LayerCosts : Type 0 where
  pub attn : ℕ
  pub ffn : ℕ
  pub allreduce_cost : ℕ
  pub n_allreduce : ℕ
  pub dispatch : ℕ
  pub combine : ℕ
  pub gather : ℕ
  pub scatter : ℕ
  pub cp_cost : ℕ
  pub hop : ℕ
  pub edge : ℕ
  pub n_layers : ℕ

-- `_CommPlan`
pub record CommPlan : Type 0 where
  pub ar_group : ℕ
  pub ar_bytes : ℕ
  pub ar_bw : ℕ
  pub ar_lat : ℕ
  pub ar_topo : Topology
  pub a2a_group : ℕ
  pub dispatch_bytes : ℕ
  pub combine_bytes : ℕ
  pub ffn_gather_bytes : ℕ
  pub ffn_scatter_bytes : ℕ
  pub a2a_bw : ℕ
  pub a2a_lat : ℕ
  pub a2a_topo : Topology
  pub cp_group : ℕ
  pub cp_ring_bytes : ℕ
  pub a2a_weights : Option Weights
  pub hop_bytes : ℕ
  pub hop_bw : ℕ
  pub hop_lat : ℕ

abbrev pub Build : Type 0
Build = Option ℕ → Tasks → Tasks × Option ℕ

-- One builder, then the other.
unfoldable pub then_build : Build → Build → Build
then_build a b prev tasks = let (tasks', k) = a prev tasks in b k tasks'

unfoldable pub build_if : Bool → Build → Build
build_if c b prev tasks = if c then b prev tasks else (tasks, prev)

unfoldable pub repeat_build : ℕ → Build → Build
repeat_build zero b prev tasks = (tasks, prev)
repeat_build (suc n) b prev tasks = let (tasks', k) = b prev tasks in repeat_build n b k tasks'

unfoldable pub on_unit : (stage duration : ℕ) → String → Build
on_unit s duration label prev tasks =
    let (tasks', k) = add tasks (unit s) duration (deps_on prev) label in (tasks', some k)

-- A cost of 0 is a false condition.
unfoldable pub costs : ℕ → Bool
costs n = not (n == 0)

module _ (oh : ℕ) (c : LayerCosts) (plan : CommPlan) where
  -- The overhead of an operation's launch, after its collective.
  unfoldable pub launched : (stage : ℕ) → Build → Build
  launched s b = then_build b (build_if (costs oh) (on_unit s oh "oh"))

  abbrev pub ar_fabric : ℕ → Fabric
  ar_fabric s = record {
    group = plan.ar_group;
    bw = plan.ar_bw;
    lat = plan.ar_lat;
    topology = plan.ar_topo;
    prefix = s;
    label = "ar";
  }

  abbrev pub array_fabric : (s group : ℕ) → String → Fabric
  array_fabric s group label = record {
    group = group;
    bw = plan.a2a_bw;
    lat = plan.a2a_lat;
    topology = plan.a2a_topo;
    prefix = s;
    label = label;
  }

  unfoldable pub stage_allreduce : ℕ → Build
  stage_allreduce s = launched s (allreduce (ar_fabric s) plan.ar_bytes)

  unfoldable pub stage_all_to_all : (s payload : ℕ) → WeightOn → Build
  stage_all_to_all s payload on =
      launched s
        (all_to_all_tasks (array_fabric s plan.a2a_group "a2a") payload plan.a2a_weights on)

  unfoldable pub stage_half_ring : (s payload : ℕ) → String → Build
  stage_half_ring s payload name =
      launched s (half_ring (array_fabric s plan.a2a_group name) payload)

  unfoldable pub stage_cp_ring : ℕ → Build
  stage_cp_ring s =
      launched s (half_ring (array_fabric s plan.cp_group "cp_ring") plan.cp_ring_bytes)

  -- The body of the loop over the layers, after its attention.
  unfoldable pub after_attention : ℕ → Build
  after_attention s = then_build (build_if (costs c.cp_cost) (stage_cp_ring s)) (
      then_build (build_if (leb 2 c.n_allreduce && costs c.allreduce_cost) (stage_allreduce s)) (
        then_build (build_if (costs c.dispatch) (stage_all_to_all s plan.dispatch_bytes dest)) (
          then_build
            (build_if (costs c.gather) (stage_half_ring s plan.ffn_gather_bytes "ffn_gather"))
            (then_build (on_unit s c.ffn "ffn") (
              then_build
                (build_if (costs c.scatter)
                  (stage_half_ring s plan.ffn_scatter_bytes "ffn_scatter"))
                (then_build (build_if (costs c.combine) (stage_all_to_all s plan.combine_bytes src))
                  (build_if (leb 1 c.n_allreduce && costs c.allreduce_cost)
                    (stage_allreduce s))))))))

  unfoldable pub layer : ℕ → Build
  layer s = then_build (on_unit s c.attn "attn") (after_attention s)

  unfoldable pub stage_chain : (s n_layers_here : ℕ) (is_first is_last : Bool) → Build
  stage_chain s n_layers_here is_first is_last =
      then_build (build_if (is_first && costs c.edge) (on_unit s 0 "embed")) (
        then_build (repeat_build n_layers_here (layer s))
          (build_if (is_last && costs c.edge) (on_unit s c.edge "head")))

  -- `assert prev_key is not None`
  unfoldable pub with_key : Tasks × Option ℕ → Option (Tasks × ℕ)
  with_key (tasks, none) = none
  with_key (tasks, some k) = some (tasks, k)

  -- `_stage_tasks`: `none` is the AssertionError.
  unfoldable pub stage_tasks :
      (s n_layers_here : ℕ) (is_first is_last : Bool) → Option ℕ → Tasks → Option (Tasks × ℕ)
  stage_tasks s n_layers_here is_first is_last prev tasks =
      with_key (stage_chain s n_layers_here is_first is_last prev tasks)

  -- The occupancy of the link, then the flight.
  unfoldable pub fly : ℕ → Build
  fly s prev tasks =
      let (tasks', k) = add tasks (prop_h s (length tasks)) plan.hop_lat (deps_on prev) "hop" in
      (tasks', some k)

  unfoldable pub occupy_link : ℕ → Build
  occupy_link s prev tasks =
      let occ = if plan.hop_bw == 0 then 0 else plan.hop_bytes / plan.hop_bw in
      let (tasks', k) = add tasks (egress s 0 plan.ar_topo) occ (deps_on prev) "hop" in
      (tasks', some k)

  -- `_emit_hop`
  unfoldable pub emit_hop : ℕ → Build
  emit_hop s = launched s (then_build (occupy_link s) (build_if (ltb 0 plan.hop_lat) (fly s)))
