-- ===== src/Des/Measured.antt =====
-- What the tasks of a dense stage add up to.
use inferencesim.Prelude.{
  ℕ, zero, suc, ◌+◌, ◌*◌, ◌≡◌, ◌≤◌, refl, Bool, true, false, ◌&&◌, Option, leb, if◌then◌else◌,
  length, arith, String,
}
use inferencesim.Sched.Task.{IsGraph}
use inferencesim.Collectives.Ring.{Tasks, deps_on, Fabric, allreduce}
use inferencesim.Collectives.Graph.{Below, Grows, allreduce-IsGrown}
use inferencesim.Des.Stage.{
  LayerCosts, CommPlan, Build, then_build, build_if, repeat_build, on_unit, costs, launched,
  ar_fabric, stage_allreduce, after_attention, layer, stage_chain,
}
use inferencesim.Des.Grown.{
  build_if-Grows, on_unit-Grows, repeat_build-Grows, layer-Grows, stage_allreduce-Grows,
  stage_all_to_all-Grows, stage_half_ring-Grows, stage_cp_ring-Grows,
}
use inferencesim.Collectives.AllToAll.{dest, src}

-- A number of tasks and of what is chained on them.
abbrev pub Measure : Type 0
Measure = Option ℕ → Tasks → ℕ

-- What is built adds `d`.
abbrev pub Takes : Measure → Build → ℕ → Type 0
Takes m b d =
    (entry : Option ℕ) (tasks : Tasks)
    → IsGraph tasks
    → Below (length tasks) (deps_on entry)
    → m (b entry tasks).1 (b entry tasks).0 ≡ m entry tasks + d

module _ (m : Measure) where
  then_build-Takes :
      (a b : Build) (d d' : ℕ)
      → Grows a
      → Takes m a d
      → Takes m b d'
      → Takes m (then_build a b) (d + d')
  unfolding then_build
  then_build-Takes a b d d' grows ta tb entry tasks g w =
      let one = grows entry tasks g w in
      omega (arith, ta entry tasks g w, tb (a entry tasks).1 (a entry tasks).0 one.graph one.below)

  build_if-Takes :
      (c : Bool) (b : Build) (d : ℕ) → Takes m b d → Takes m (build_if c b) (if c then d else 0)
  unfolding build_if
  build_if-Takes true b d tb entry tasks g w = tb entry tasks g w
  build_if-Takes false b d tb entry tasks g w = omega arith

  repeat_build-Takes :
      (n : ℕ) (b : Build) (d : ℕ) → Grows b → Takes m b d → Takes m (repeat_build n b) (n * d)
  unfolding repeat_build
  repeat_build-Takes zero b d grows tb entry tasks g w = omega arith
  repeat_build-Takes (suc n) b d grows tb entry tasks g w =
      let one = grows entry tasks g w in
      omega (
        arith,
        tb entry tasks g w,
        repeat_build-Takes n b d grows tb (b entry tasks).1 (b entry tasks).0 one.graph one.below,
      )

  Takes-eq : (b : Build) (d d' : ℕ) → d ≡ d' → Takes m b d → Takes m b d'
  Takes-eq b d d' e tb entry tasks g w = omega (arith, e, tb entry tasks g w)

  -- A cost of 0 is left out, and takes as long.
  costs-Takes : (b : Build) (d : ℕ) → Takes m b d → Takes m (build_if (costs d) b) d
  unfolding costs
  costs-Takes b d tb =
      Takes-eq (build_if (costs d) b) (if costs d then d else 0) d (ground arith)
        (build_if-Takes (costs d) b d tb)

  -- The early return takes no time.
  pub guarded-Takes :
      (c : Bool) (b : Build) (d : ℕ)
      → (c ≡ true → d ≡ 0)
      → (c ≡ false → Takes m b d)
      → Takes m (λ entry tasks. if c then (tasks, entry) else b entry tasks) d
  guarded-Takes true b d free tb entry tasks g w = omega (arith, free refl)
  guarded-Takes false b d free tb entry tasks g w = tb refl entry tasks g w

  -- One chip has nothing to send.
  pub alone-Takes :
      (f : Fabric) (payload : ℕ) → leb f.group 1 ≡ true → Takes m (allreduce f payload) 0
  unfolding allreduce
  alone-Takes f payload c entry tasks g w = rw c (omega arith)

-- What the time of a dense stage is made of: no exchange, no gather and no ring of the prompt, and at
-- most two allreduces a layer, each with the overhead of its launch.
pub record IsDense (m : Measure) (oh : ℕ) (c : LayerCosts) (plan : CommPlan) : Type 0 where
  pub no_dispatch : c.dispatch ≡ 0
  pub no_combine : c.combine ≡ 0
  pub no_gather : c.gather ≡ 0
  pub no_scatter : c.scatter ≡ 0
  pub no_cp : c.cp_cost ≡ 0
  pub few : c.n_allreduce ≤ 2
  pub reduced : ℕ
  pub reduce_takes : (s : ℕ) → Takes m (allreduce (ar_fabric oh c plan s) plan.ar_bytes) reduced
  pub reduce_costs : c.allreduce_cost ≡ reduced + oh

module _ (m : Measure)
    (adds : (s duration : ℕ) (label : String) → Takes m (on_unit s duration label) duration)
    (oh : ℕ) (c : LayerCosts) (plan : CommPlan) (dense : IsDense m oh c plan) where
  stage_allreduce-Takes : (s : ℕ) → Takes m (stage_allreduce oh c plan s) c.allreduce_cost
  unfolding stage_allreduce launched
  stage_allreduce-Takes s =
      Takes-eq m _ (dense.reduced + oh) c.allreduce_cost (omega (arith, dense.reduce_costs)) (
        then_build-Takes m _ _ dense.reduced oh (allreduce-IsGrown _ plan.ar_bytes)
          (dense.reduce_takes s) (costs-Takes m _ oh (adds s oh "oh")))

  reduce_if-Takes :
      (k s : ℕ)
      → Takes m
          (build_if (leb k c.n_allreduce && costs c.allreduce_cost) (stage_allreduce oh c plan s))
          (if leb k c.n_allreduce then c.allreduce_cost else 0)
  unfolding costs
  reduce_if-Takes k s =
      Takes-eq m _ (if leb k c.n_allreduce && costs c.allreduce_cost then c.allreduce_cost else 0) _
        (ground arith) (build_if-Takes m _ _ c.allreduce_cost (stage_allreduce-Takes s))

  never-Takes : (d : ℕ) (b : Build) → d ≡ 0 → Takes m (build_if (costs d) b) 0
  unfolding build_if costs
  never-Takes d b e entry tasks g w = rw e (omega arith)

  -- The layer, whose sum is in the order of its parts.
  after_attention-Takes :
      (s : ℕ) → Takes m (after_attention oh c plan s) (c.ffn + c.n_allreduce * c.allreduce_cost)
  unfolding after_attention
  after_attention-Takes s =
      let reduced = λ (k : ℕ). if leb k c.n_allreduce then c.allreduce_cost else 0 in
      Takes-eq m _ (0 + (reduced 2 + (0 + (0 + (c.ffn + (0 + (0 + reduced 1))))))) _
        (several c.n_allreduce c.allreduce_cost dense.few)
        (then_build-Takes m _ _ _ _ (build_if-Grows _ _ (stage_cp_ring-Grows oh c plan s))
          (never-Takes c.cp_cost _ dense.no_cp)
          (then_build-Takes m _ _ _ _ (build_if-Grows _ _ (stage_allreduce-Grows oh c plan s))
            (reduce_if-Takes 2 s)
            (then_build-Takes m _ _ _ _
              (build_if-Grows _ _ (stage_all_to_all-Grows oh c plan s _ dest))
              (never-Takes c.dispatch _ dense.no_dispatch)
              (then_build-Takes m _ _ _ _
                (build_if-Grows _ _ (stage_half_ring-Grows oh c plan s _ _))
                (never-Takes c.gather _ dense.no_gather)
                (then_build-Takes m _ _ _ _ (on_unit-Grows s c.ffn "ffn") (adds s c.ffn "ffn") (
                  then_build-Takes m _ _ _ _
                    (build_if-Grows _ _ (stage_half_ring-Grows oh c plan s _ _))
                    (never-Takes c.scatter _ dense.no_scatter)
                    (then_build-Takes m _ _ _ _
                      (build_if-Grows _ _ (stage_all_to_all-Grows oh c plan s _ src))
                      (never-Takes c.combine _ dense.no_combine) (reduce_if-Takes 1 s))))))))
    where
      several :
          (n cost : ℕ)
          → n ≤ 2
          → 0
              + ((if leb 2 n then cost else 0)
                  + (0 + (0 + (c.ffn + (0 + (0 + (if leb 1 n then cost else 0)))))))
            ≡ c.ffn + n * cost
      several zero cost h = omega arith
      several (suc zero) cost h = omega arith
      several (suc (suc zero)) cost h = omega arith
      several (suc (suc (suc n))) cost h = absurd (omega arith)

  layer-Takes :
      (s : ℕ) → Takes m (layer oh c plan s) (c.attn + (c.ffn + c.n_allreduce * c.allreduce_cost))
  unfolding layer
  layer-Takes s =
      then_build-Takes m _ _ _ _ (on_unit-Grows s c.attn "attn") (adds s c.attn "attn")
        (after_attention-Takes s)

  -- Without contention the chain of a whole dense model takes its layers and its edges.
  pub stage_chain-Takes :
      (s n : ℕ)
      → Takes m
          (stage_chain oh c plan s n true true)
          (n * (c.attn + (c.ffn + c.n_allreduce * c.allreduce_cost)) + c.edge)
  unfolding stage_chain
  stage_chain-Takes s n =
      Takes-eq m _
        ((if costs c.edge then 0 else 0)
          + (n * (c.attn + (c.ffn + c.n_allreduce * c.allreduce_cost)) + c.edge))
        _ (ground arith)
        (then_build-Takes m _ _ _ _ (build_if-Grows _ _ (on_unit-Grows s 0 "embed"))
          (build_if-Takes m (costs c.edge) _ 0 (adds s 0 "embed"))
          (then_build-Takes m _ _ _ _ (repeat_build-Grows n _ (layer-Grows oh c plan s))
            (repeat_build-Takes m n _ _ (layer-Grows oh c plan s) (layer-Takes s))
            (costs-Takes m _ c.edge (adds s c.edge "head"))))
