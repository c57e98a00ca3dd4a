-- ===== src/Engine/Phases.antt =====
-- Phases of the roofline engine: those of the lowered operations are priced, and no part of a chip is
-- busy for longer than its phase takes.
use inferencesim.Prelude.{
  ℕ, ◌+◌, max, ◌≡◌, ◌≤◌, refl, ap, subst, Bool, true, false, ◌&&◌, List, [], ◌∷◌, none, some,
  String, ltb, if◌then◌else◌, sum, All, arith, bind-some, traverse, length, Bool-cases, inl, inr,
}
use mathlib.Core.Option.{none-ne-some, some-injective}
use native.Mathlib.Nat.{mul-le-mul_left}
use inferencesim.Hardware.{Chip, System, make_node, make_system, total_chips}
use inferencesim.Workload.Model.{ModelSpec, Deployment, replica_chips}
use inferencesim.Ops.{
  OpKind, compute, allreduce, alltoall, halfring, cp_ring, p2p, is_comm, Fraction,
  validate_deployment,
}
use inferencesim.Ops.Lower.{Op, Routing}
use inferencesim.Ops.Passes.{decode_ops, prefill_ops, prefill_chunk_ops}
use inferencesim.Engine.Timing.{
  make_efficiency, Efficiency, OpTiming, Phase, CommContext, time_of, comm_part, duration,
  compute_busy, mem_busy, comm_busy, for_deployment, allreduce_time, gather_time, stream_time,
  compute_seconds, comm_timing, unit_timing, mem_seconds, time_kind, time_op, lacks_link, run_phase,
}
use inferencesim.Engine.Priced.{
  IsRated, IsPriced, decode_ops-IsPriced, prefill_ops-IsPriced, prefill_chunk_ops-IsPriced,
}
use inferencesim.Engine.Linked.{HasBandwidth, IsSized, validate_deployment-IsSized, run_phase-some}

-- The operations of a decode round, of a prefill or of a chunk.
pub data IsLowered (r : Routing) (m : ModelSpec) (dep : Deployment) (ops : List Op) : Type 0 where
  of_decode :
      (batch ctx : Fraction) → decode_ops r m dep batch ctx ≡ some ops → IsLowered r m dep ops
  of_prefill : (n : ℕ) → prefill_ops r m n dep ≡ some ops → IsLowered r m dep ops
  of_chunk :
      (chunk prior : ℕ) (logits : Bool)
      → prefill_chunk_ops r m dep chunk prior logits ≡ some ops
      → IsLowered r m dep ops

module _ (r : Routing) (m : ModelSpec) (dep : Deployment) (ops : List Op) where
  lowered-IsSized : IsLowered r m dep ops → IsSized dep
  unfolding decode_ops prefill_ops prefill_chunk_ops
  lowered-IsSized (of_decode batch ctx e) =
      let (d, v, _) = bind-some (validate_deployment m dep) _ ops e in
      validate_deployment-IsSized m dep d v
  lowered-IsSized (of_prefill n e) =
      let (d, v, _) = bind-some (validate_deployment m dep) _ ops e in
      validate_deployment-IsSized m dep d v
  lowered-IsSized (of_chunk chunk prior logits e) =
      let (d, v, _) = bind-some (validate_deployment m dep) _ ops e in
      validate_deployment-IsSized m dep d v

  lowered-IsPriced :
      (s : System)
      → IsRated s.node.chip.compute dep
      → IsLowered r m dep ops
      → All (IsPriced s.node.chip.compute dep) ops
  lowered-IsPriced s h (of_decode batch ctx e) =
      decode_ops-IsPriced s.node.chip.compute dep r m batch ctx ops h e
  lowered-IsPriced s h (of_prefill n e) = prefill_ops-IsPriced s.node.chip.compute dep r m n ops h e
  lowered-IsPriced s h (of_chunk chunk prior logits e) =
      prefill_chunk_ops-IsPriced s.node.chip.compute dep r m chunk prior logits ops h e

-- What the lowering makes, the roofline engine prices: on a checked system that holds a replica of the
-- deployment, whose chips compute the formats of its weights and activations, at a rate that is not 0,
-- whose DRAM and links have a bandwidth that is not 0, and with checked efficiencies, a phase of the
-- operations of a decode round, of a prefill or of a chunk raises no error, and times each operation.
pub run_phase-IsLowered :
    (e : Efficiency) (name : String) (r : Routing) (m : ModelSpec) (dep : Deployment)
    (ops : List Op) (s : System)
    → IsLowered r m dep ops
    → make_node s.node ≡ some s.node
    → make_system s ≡ some s
    → replica_chips dep ≤ total_chips s
    → IsRated s.node.chip.compute dep
    → HasBandwidth s
    → make_efficiency e ≡ some e
    → (ph : Phase) × (run_phase e name ops s dep ≡ some ph)
      × (ph.wall_time ≡ none)
      × (length ph.timings ≡ length ops)
run_phase-IsLowered e name r m dep ops s l n y t h b f =
    run_phase-some e name ops s dep n y b f (lowered-IsSized r m dep ops l) t
      (lowered-IsPriced r m dep ops s h l)

-- A timing of communication, or one of work on the chip.
abbrev IsRoofline : OpTiming → Type 0
IsRoofline t =
    if is_comm t.op.kind
    then (t.comm_time ≡ t.time) × (t.compute_time ≡ 0) × (t.mem_time ≡ 0)
    else (t.comm_time ≡ 0) × (t.compute_time ≤ t.time) × (t.mem_time ≤ t.time)

comm_timing-IsRoofline :
    (e : Efficiency) (op : Op) (one : ℕ)
    → is_comm op.kind ≡ true
    → IsRoofline (comm_timing e op one)
unfolding comm_timing
comm_timing-IsRoofline e op one c = rw c (refl, refl, refl)

unit_timing-IsRoofline :
    (e : Efficiency) (op : Op) (a b : ℕ)
    → is_comm op.kind ≡ false
    → IsRoofline (unit_timing e op a b)
unfolding unit_timing
unit_timing-IsRoofline e op a b c = rw c (
  refl,
  mul-le-mul_left {m = a} {n = max a b + e.op_overhead_s} op.count (omega arith),
  mul-le-mul_left {m = b} {n = max a b + e.op_overhead_s} op.count (omega arith),
)

module _ (e : Efficiency) (chip : Chip) (comm : CommContext) where
  time_kind-IsRoofline :
      (k : OpKind) (op : Op) (t : OpTiming)
      → op.kind ≡ k
      → time_kind k e op chip comm ≡ some t
      → IsRoofline t
  unfolding time_kind is_comm
  time_kind-IsRoofline compute op t q h =
      let (a, _, w) = bind-some (compute_seconds e op chip) _ t h in
      let (b, _, v) = bind-some (mem_seconds e op chip) _ t w in
      subst IsRoofline (some-injective _ t v) (unit_timing-IsRoofline e op a b (ap is_comm q))
  time_kind-IsRoofline allreduce op t q h =
      let (a, _, w) = bind-some (allreduce_time e op comm.tp comm.tp_link) _ t h in
      subst IsRoofline (some-injective _ t w) (comm_timing-IsRoofline e op a (ap is_comm q))
  time_kind-IsRoofline alltoall op t q h =
      let (a, _, w) = bind-some (stream_time e op comm.a2a_link) _ t h in
      subst IsRoofline (some-injective _ t w) (comm_timing-IsRoofline e op a (ap is_comm q))
  time_kind-IsRoofline halfring op t q h =
      let (a, _, w) = bind-some (gather_time e op comm.a2a comm.a2a_link) _ t h in
      subst IsRoofline (some-injective _ t w) (comm_timing-IsRoofline e op a (ap is_comm q))
  time_kind-IsRoofline cp_ring op t q h =
      let (a, _, w) = bind-some (gather_time e op comm.cp comm.a2a_link) _ t h in
      subst IsRoofline (some-injective _ t w) (comm_timing-IsRoofline e op a (ap is_comm q))
  time_kind-IsRoofline p2p op t q h =
      let (a, _, w) = bind-some (stream_time e op comm.p2p_link) _ t h in
      subst IsRoofline (some-injective _ t w) (comm_timing-IsRoofline e op a (ap is_comm q))

  timings-IsRoofline :
      (ops : List Op) (ts : List OpTiming)
      → traverse (λ op. time_op e op chip comm) ops ≡ some ts
      → All IsRoofline ts
  timings-IsRoofline [] ts h = subst (All IsRoofline) (some-injective [] ts h) tt
  timings-IsRoofline (op ∷ ops) ts h =
      let (t, a, h1) = bind-some (time_op e op chip comm) _ ts h in
      let (us, b, h2) = bind-some (traverse (λ o. time_op e o chip comm) ops) _ ts h1 in
      let one = time_kind-IsRoofline op.kind op t refl (unfold time_op in a) in
      subst (All IsRoofline) (some-injective (t ∷ us) ts h2) (one, timings-IsRoofline ops us b)

-- The collectives and the rest add up to the whole, and each part of the chip is busy within its share.
busy_split :
    (ts : List OpTiming)
    → All IsRoofline ts
    → (sum (λ (t : OpTiming). t.comm_time) ts ≡ comm_part ts)
      × (sum (λ (t : OpTiming). t.compute_time) ts + comm_part ts ≤ time_of ts)
      × (sum (λ (t : OpTiming). t.mem_time) ts + comm_part ts ≤ time_of ts)
unfolding comm_part
busy_split [] h = (refl, omega arith, omega arith)
busy_split (t ∷ ts) (h, hs) =
    let (a, b, c) = busy_split ts hs in
    elim (Bool-cases (is_comm t.op.kind)) [
      | inl q ↦
          let (x, y, z) = rw q at h in
          rw q (omega (arith, a, x), omega (arith, b, x, y), omega (arith, c, x, z))
      | inr q ↦
          let (x, y, z) = rw q at h in
          rw q (omega (arith, a, x), omega (arith, b, x, y), omega (arith, c, x, z))
    ]

-- In a phase that the roofline engine returns, with overlapped communication and without, neither the
-- compute units nor the memory nor the links are busy for longer than the phase takes.
pub duration-busy :
    (e : Efficiency) (name : String) (ops : List Op) (s : System) (dep : Deployment) (ph : Phase)
    (overlap_comm : Bool)
    → run_phase e name ops s dep ≡ some ph
    → (compute_busy ph ≤ duration ph overlap_comm)
      × (mem_busy ph ≤ duration ph overlap_comm)
      × (comm_busy ph ≤ duration ph overlap_comm)
unfolding run_phase
duration-busy e name ops s dep ph b h =
    let (comm, ec, h1) = bind-some (for_deployment s dep) _ ph h in
    let (ts, et, h2) =
      bind-some
        (if ltb 1 dep.tp && lacks_link comm.tp_link
          then none
          else traverse (λ op. time_op e op s.node.chip comm) ops)
        _ ph h1 in
    subst
      (λ (x : Phase).
        (compute_busy x ≤ duration x b)
        × (mem_busy x ≤ duration x b)
        × (comm_busy x ≤ duration x b))
      (some-injective _ ph h2)
      (within ts (all_of (ltb 1 dep.tp && lacks_link comm.tp_link) comm ts et) b)
  where
    within :
        (ts : List OpTiming)
        → All IsRoofline ts
        → (b : Bool)
        → let x : Phase = record { name = name; timings = ts; wall_time = none } in
          (compute_busy x ≤ duration x b)
          × (mem_busy x ≤ duration x b)
          × (comm_busy x ≤ duration x b)
    within ts a true =
        let (x, y, z) = busy_split ts a in
        unfold compute_busy mem_busy comm_busy duration in
        (omega (arith, y), omega (arith, z), omega (arith, x))
    within ts a false =
        let (x, y, z) = busy_split ts a in
        unfold compute_busy mem_busy comm_busy duration in
        (omega (arith, y), omega (arith, z), omega (arith, x, y))

    all_of :
        (c : Bool) (comm : CommContext) (ts : List OpTiming)
        → (if c then none else traverse (λ op. time_op e op s.node.chip comm) ops) ≡ some ts
        → All IsRoofline ts
    all_of true comm ts q = absurd (none-ne-some ts q)
    all_of false comm ts q = timings-IsRoofline e s.node.chip comm ops ts q
