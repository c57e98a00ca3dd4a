-- ===== src/Des/Oracle.antt =====
-- On one stage, the pipeline simulation against the roofline engine.
use mathlib.Core.Option.{none-ne-some, some-injective}
use inferencesim.Prelude.{
  ℕ, ◌+◌, ◌*◌, ◌≡◌, ◌≤◌, ◌<◌, refl, sym, ap, ◌∙◌, subst, Bool, true, false, ◌&&◌, List, Option,
  none, some, ltb, if◌then◌else◌, arith, bind-some, All, sum, inl,
}
use inferencesim.Hardware.{Chip, System, link_for_group}
use inferencesim.Workload.Model.{ModelSpec, Deployment, replica_chips}
use inferencesim.Ops.{allreduce}
use inferencesim.Ops.Lower.{Op, Routing}
use inferencesim.Ops.Passes.{prefill_ops}
use inferencesim.Collectives.Ports.{Port}
use inferencesim.Collectives.Ring as Ring
use inferencesim.Collectives.Ring.{Tasks, deps_on, Fabric}
use inferencesim.Engine.Timing.{
  Efficiency, CommContext, Phase, OpTiming, for_deployment, link_of, allreduce_time, payload_of,
  comm_timing, time_op, time_kind, total_time, run_phase, lacks_link,
}
use inferencesim.Des.Stage.{LayerCosts, Build, ar_fabric}
use inferencesim.Des.Rounds.{prefill_wall}
use inferencesim.Des.Costs.{
  link_bandwidth, time_once, layer_costs, comm_plan, charge, payload_named, des_phase,
  prefill_phase,
}
use inferencesim.Des.Measured.{Measure, Takes, IsDense}
use inferencesim.Des.Serial.{ends, worked}
use inferencesim.Des.Reduced.{IsWhole, reduce-Takes, alone-Takes_reduced}
use inferencesim.Des.Walled.{prefill_wall-serial, work_of_chain}
use inferencesim.Des.Charged.{one_of, HasOne, traverse-HasOne}
use inferencesim.Des.Dense.{
  DenseOps, dense_costs, layer_costs-dense, dense_total, payload-dense, round_dense, charged_layers,
}
use inferencesim.Des.Lowered.{IsSerial, prefill_ops-dense}

-- The chunks of the allreduce take a whole number of ticks, or nothing is sent.
abbrev pub HasWhole : Efficiency → CommContext → List Op → Type 0
HasWhole e comm ops =
    IsWhole comm.tp (link_bandwidth e comm.tp_link) (payload_named "allreduce" ops 0)

module _ (e : Efficiency) (chip : Chip) (comm : CommContext) where
  -- The cost of an allreduce is its expansion's time and the overhead of its launch.
  once-allreduce :
      (op : Op) (one : ℕ)
      → op.kind ≡ allreduce
      → time_once e op chip comm ≡ some one
      → (x : ℕ) × (allreduce_time e op comm.tp comm.tp_link ≡ some x) × (one ≡ x + e.op_overhead_s)
  unfolding time_once time_op time_kind allreduce_time payload_of comm_timing
  once-allreduce op one k h =
      let (t, a, b) = bind-some (time_op e (record op { count = 1 }) chip comm) _ one h in
      let (x, c, d) = bind-some (allreduce_time e op comm.tp comm.tp_link) _ t (rw k at a) in
      (
        x,
        c,
        sym (some-injective t.time one b)
            ∙ ap (λ (u : OpTiming). u.time) (sym (some-injective _ t d))
            ∙ omega arith,
      )

  module _ (layers : ℕ) (ops : List Op) (d : DenseOps layers ops) where
    abbrev costs_of : LayerCosts
    costs_of = dense_costs e chip comm layers ops d

    abbrev reduction : ℕ → Build
    reduction s =
        Ring.allreduce (ar_fabric e.op_overhead_s costs_of (comm_plan e comm ops) s)
          (payload_named "allreduce" ops 0)

    costs-IsDense :
        (m : Measure)
        → 0 < layers
        → HasOne e chip comm d.ar
        → ((s x : ℕ)
            → allreduce_time e d.ar comm.tp comm.tp_link ≡ some x
            → Takes m (reduction s) x)
        → IsDense m e.op_overhead_s costs_of (comm_plan e comm ops)
    unfolding charge comm_plan
    costs-IsDense m h o reduce =
        let (x, takes, cost) = once-allreduce d.ar (one_of e chip comm d.ar) d.ring o in
        record {
          no_dispatch = refl;
          no_combine = refl;
          no_gather = refl;
          no_scatter = refl;
          no_cp = refl;
          few = omega (arith, round_dense e chip comm layers ops d h);
          reduced = x;
          reduce_takes = λ s. reduce s x takes;
          reduce_costs = cost;
        }

    whole-IsDense :
        0 < layers
        → HasOne e chip comm d.ar
        → HasWhole e comm ops
        → IsDense ends e.op_overhead_s costs_of (comm_plan e comm ops)
    unfolding comm_plan
    whole-IsDense h o w = costs-IsDense ends h o (λ s x q.
        reduce-Takes e d.ar (ar_fabric e.op_overhead_s costs_of (comm_plan e comm ops) s)
          (payload_named "allreduce" ops 0) (sym (payload-dense e chip comm layers ops d))
          comm.tp_link x refl refl w q)

    alone-IsDense :
        0 < layers
        → HasOne e chip comm d.ar
        → comm.tp ≤ 1
        → IsDense worked e.op_overhead_s costs_of (comm_plan e comm ops)
    unfolding comm_plan
    alone-IsDense h o few = costs-IsDense worked h o (λ s x q.
        alone-Takes_reduced e d.ar (ar_fabric e.op_overhead_s costs_of (comm_plan e comm ops) s)
          (payload_named "allreduce" ops 0) comm.tp_link x q worked few)

    ar_HasOne : All (HasOne e chip comm) ops → HasOne e chip comm d.ar
    ar_HasOne h = let (q, (a, (o, (f, (r, _))))) = rw d.listed at h in r

    -- The costs that are read off the operations, and the wall that their tasks give.
    pub dense_wall :
        (rank : Port → ℕ) (pp : ℕ)
        → pp ≡ 1
        → 0 < layers
        → All (HasOne e chip comm) ops
        → HasWhole e comm ops
        → (c : LayerCosts) × (wall : ℕ) × (layer_costs e chip comm ops ≡ some c)
          × (prefill_wall rank e.op_overhead_s c (comm_plan e comm ops) pp ≡ some wall)
          × (sum (λ op. op.count * one_of e chip comm op) ops ≤ wall)
          × (comm.tp ≤ 1 → wall ≤ sum (λ op. op.count * one_of e chip comm op) ops)
    dense_wall rank pp one_stage h all w =
        let n = charged_layers e chip comm layers ops d in
        let (wall, ends, ge, le) =
          prefill_wall-serial e.op_overhead_s costs_of (comm_plan e comm ops) rank
            (whole-IsDense h (ar_HasOne all) w) (omega (arith, n, h)) in
        let same =
          ap
            (λ n.
              n * (costs_of.attn + (costs_of.ffn + costs_of.n_allreduce * costs_of.allreduce_cost))
              + costs_of.edge)
            n
          ∙ dense_total e chip comm layers ops d h in
        (
          costs_of,
          wall,
          layer_costs-dense e chip comm layers ops d h all,
          rw one_stage ends,
          omega (arith, same, ge),
          λ few.
              let dense = alone-IsDense h (ar_HasOne all) few in
              omega (
                arith,
                same,
                le,
                work_of_chain e.op_overhead_s costs_of (comm_plan e comm ops) dense,
              ),
        )

guard-some :
    {A : Type 0} (c : Bool) (o : Option A) (a : A)
    → (if c then none else o) ≡ some a
    → (c ≡ false) × (o ≡ some a)
guard-some true o a h = absurd (none-ne-some a h)
guard-some false o a h = (refl, h)

comm_tp :
    (s : System) (dep : Deployment) (comm : CommContext)
    → for_deployment s dep ≡ some comm
    → comm.tp ≡ dep.tp
unfolding for_deployment
comm_tp s dep comm h =
    let group = dep.tp * dep.ep * dep.adp in
    let (tp_link, _, h1) = bind-some (link_of (link_for_group s dep.tp)) _ comm h in
    let (a2a_link, _, h2) = bind-some (link_of (link_for_group s group)) _ comm h1 in
    let (p2p_link, _, h3) = bind-some (link_of (link_for_group s (replica_chips dep))) _ comm h2 in
    ap (λ (c : CommContext). c.tp) (sym (some-injective _ comm h3))

module _ (rank : Port → ℕ) (e : Efficiency) (r : Routing) (m : ModelSpec) (dep : Deployment) (n : ℕ)
    (ops : List Op) (s : System) (comm : CommContext) (roofline : Phase) (h : IsSerial m dep)
    (some_layer : 0 < m.n_layers) (lowered : prefill_ops r m n dep ≡ some ops)
    (fd : for_deployment s dep ≡ some comm) where
  simulated :
      HasWhole e comm ops
      → run_phase e "prefill" ops s dep ≡ some roofline
      → (des : Phase) × (prefill_phase rank e ops s dep ≡ some des)
        × (des.timings ≡ roofline.timings)
        × (total_time roofline ≤ total_time des)
        × (comm.tp ≤ 1 → total_time des ≤ total_time roofline)
  unfolding run_phase prefill_phase des_phase total_time
  simulated w run =
      let chip = s.node.chip in
      let d = prefill_ops-dense r m dep h n ops lowered in
      let (ts, guarded, q) = bind-some _ _ roofline (rw fd at run) in
      let (linked, timed) = guard-some (ltb 1 dep.tp && lacks_link comm.tp_link) _ ts guarded in
      let (all, total) = traverse-HasOne e chip comm ops ts timed in
      let (c, wall, read, ends, ge, le) =
        dense_wall e chip comm m.n_layers ops d rank dep.pp h.one_stage some_layer all w in
      let priced = some-injective _ roofline q in
      (
        record { name = "prefill"; timings = ts; wall_time = some wall },
        rw (fd, guarded) (rw read (rw ends refl)),
        ap (λ (ph : Phase). ph.timings) priced,
        subst (λ ph. total_time ph ≤ wall) priced (omega (arith, total, ge)),
        λ few. subst (λ ph. wall ≤ total_time ph) priced (omega (arith, total, le few)),
      )

  -- On one stage and one attention group, the pipeline simulation is never faster than the roofline
  -- engine: for the prefill of a dense model without windowed layers, with a layer at least, whatever
  -- the efficiencies, if the roofline engine prices the operations, and the chunks of their allreduce
  -- take a whole number of ticks or there is no tensor parallelism, the simulation raises no error,
  -- times each operation as the roofline engine does, and its wall is no less than the sum of these
  -- times.
  pub prefill_phase-run_phase :
      HasWhole e comm ops
      → run_phase e "prefill" ops s dep ≡ some roofline
      → (des : Phase) × (prefill_phase rank e ops s dep ≡ some des)
        × (des.timings ≡ roofline.timings)
        × (total_time roofline ≤ total_time des)
  prefill_phase-run_phase w run =
      let (des, ends, same, ge, _) = simulated w run in (des, ends, same, ge)

  -- Without tensor parallelism, on one stage and one attention group, the two engines agree: for the
  -- prefill of a dense model without windowed layers, with a layer at least, whatever the efficiencies,
  -- if the roofline engine prices the operations, the simulation raises no error, times each operation
  -- as the roofline engine does, and its wall is exactly the sum of these times.
  pub prefill_phase-alone :
      dep.tp ≤ 1
      → run_phase e "prefill" ops s dep ≡ some roofline
      → (des : Phase) × (prefill_phase rank e ops s dep ≡ some des)
        × (des.timings ≡ roofline.timings)
        × (total_time des ≡ total_time roofline)
  prefill_phase-alone one_chip run =
      let few : comm.tp ≤ 1 = omega (arith, comm_tp s dep comm fd) in
      let (des, ends, same, ge, le) = simulated (inl few) run in
      (des, ends, same, omega (arith, ge, le few))
