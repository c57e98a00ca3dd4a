-- ===== src/Engine/Timing.antt =====
-- inferencesim/engine.py: the roofline time of an operation, and the phases that it adds up to.
-- inferencesim/efficiency.py: the factors that derate the peaks, as parts of a whole.
use inferencesim.Prelude.{
  ℕ, ◌+◌, ◌*◌, ◌/◌, max, min, Bool, true, false, ◌&&◌, ◌||◌, List, Option, none, some, String, ◌-◌,
  ltb, leb, ◌==◌, if◌then◌else◌, sum, filter, ◌>>=◌, traverse,
}
use inferencesim.Hardware.{
  Link, Chip, System, Topology, GroupLink, crosses, exceeds, link_for_group, topology_for_group,
  flops, effective_dram_bandwidth, stage_power,
}
use inferencesim.Workload.Model.{Deployment, replica_chips}
use inferencesim.Ops.{
  OpKind, compute, allreduce, alltoall, halfring, cp_ring, p2p, is_comm, Fraction,
}
use inferencesim.Ops.Lower.{Op}
use inferencesim.Engine.{ring_allreduce_time, ring_gather_time}

pub record Efficiency : Type 0 where
  pub compute_part : ℕ
  pub memory_part : ℕ
  pub collective_part : ℕ
  pub op_overhead_s : ℕ
  pub full : ℕ

-- `0.0 < v <= 1.0`
unfoldable pub is_part : ℕ → ℕ → Bool
is_part full v = ltb 0 v && leb v full

-- `__post_init__`: `none` is the ValueError.
unfoldable pub make_efficiency : Efficiency → Option Efficiency
make_efficiency e =
    if is_part e.full e.compute_part
      && is_part e.full e.memory_part
      && is_part e.full e.collective_part
    then some e
    else none

pub record OpTiming : Type 0 where
  pub op : Op
  pub time : ℕ
  pub compute_time : ℕ
  pub mem_time : ℕ
  pub comm_time : ℕ

pub data Bound : Type 0 where
  by_compute by_memory by_comm : Bound

-- The first of the greatest.
unfoldable pub bound : OpTiming → Bound
bound t =
    if leb t.mem_time t.compute_time && leb t.comm_time t.compute_time
    then by_compute
    else if leb t.comm_time t.mem_time
    then by_memory
    else by_comm

pub record Phase : Type 0 where
  pub name : String
  pub timings : List OpTiming
  pub wall_time : Option ℕ

abbrev pub time_of : List OpTiming → ℕ
time_of = sum (λ (t : OpTiming). t.time)

unfoldable pub total_time : Phase → ℕ
total_time ph = elim ph.wall_time [ none ↦ time_of ph.timings | some w ↦ w ]

-- The time of the collectives.
unfoldable pub comm_part : List OpTiming → ℕ
comm_part ts = time_of (filter (λ (t : OpTiming). is_comm t.op.kind) ts)

unfoldable pub duration : Phase → (overlap_comm : Bool) → ℕ
duration ph overlap_comm = elim ph.wall_time [
  | some w ↦ w
  | none ↦
      let comm = comm_part ph.timings in
      if overlap_comm then max comm (time_of ph.timings - comm) else time_of ph.timings
]

unfoldable pub compute_busy : Phase → ℕ
compute_busy ph = sum (λ (t : OpTiming). t.compute_time) ph.timings

unfoldable pub mem_busy : Phase → ℕ
mem_busy ph = sum (λ (t : OpTiming). t.mem_time) ph.timings

unfoldable pub comm_busy : Phase → ℕ
comm_busy ph = sum (λ (t : OpTiming). t.comm_time) ph.timings

-- `w * min(1.0, busy / total)`
unfoldable pub share_of : (w busy total : ℕ) → ℕ
share_of w busy total = w * min total busy / total

unfoldable pub link_power : Option Link → (busy total : ℕ) → ℕ
link_power none busy total = 0
link_power (some l) busy total = share_of l.power_w busy total

unfoldable pub chip_avg_power_w : Phase → Chip → Option Link → ℕ → ℕ
chip_avg_power_w ph chip link total =
    if total == 0
    then chip.idle_power_w
    else chip.idle_power_w
      + share_of chip.compute.power_w (compute_busy ph) total
      + share_of (chip.dram.power_w + sum stage_power chip.on_chip_path) (mem_busy ph) total
      + link_power link (comm_busy ph) total

pub record CommContext : Type 0 where
  pub tp : ℕ
  pub tp_link : Option Link
  pub a2a : ℕ
  pub a2a_link : Option Link
  pub p2p_link : Option Link
  pub cp : ℕ
  pub tp_topology : Topology
  pub a2a_topology : Topology

-- `none` is the ValueError of a group that the system does not hold.
unfoldable pub link_of : GroupLink → Option (Option Link)
link_of exceeds = none
link_of (crosses l) = some l

-- `CommContext.for_deployment`
unfoldable pub for_deployment : System → Deployment → Option CommContext
for_deployment s dep = do
  let group = dep.tp * dep.ep * dep.adp
  tp_link ← link_of (link_for_group s dep.tp)
  a2a_link ← link_of (link_for_group s group)
  p2p_link ← link_of (link_for_group s (replica_chips dep))
  some (record {
    tp = dep.tp;
    tp_link = tp_link;
    a2a = group;
    a2a_link = a2a_link;
    p2p_link = p2p_link;
    cp = dep.adp;
    tp_topology = topology_for_group s dep.tp;
    a2a_topology = topology_for_group s group;
  })

-- `_scaled_link`: the bandwidth alone is derated.
unfoldable pub scaled_link : Efficiency → Link → Link
scaled_link e l = record l { bandwidth = l.bandwidth * e.collective_part / e.full }

-- The bytes of a message, rounded down.
unfoldable pub payload_of : Op → ℕ
payload_of op = op.comm_bytes.over / op.comm_bytes.under

unfoldable pub comm_timing : Efficiency → Op → ℕ → OpTiming
comm_timing e op one =
    let time = op.count * (one + e.op_overhead_s) in
    record { op = op; time = time; compute_time = 0; mem_time = 0; comm_time = time }

-- `ring_allreduce_time(...) if comm.tp > 1 else 0.0`; `none` is the error of a link that is not there.
unfoldable pub allreduce_time : Efficiency → Op → ℕ → Option Link → Option ℕ
allreduce_time e op tp none = if ltb 1 tp then none else some 0
allreduce_time e op tp (some l) =
    some (if ltb 1 tp then ring_allreduce_time (payload_of op) tp (scaled_link e l) else 0)

unfoldable pub gather_time : Efficiency → Op → ℕ → Option Link → Option ℕ
gather_time e op group none = none
gather_time e op group (some l) =
    some (if ltb 1 group then ring_gather_time (payload_of op) group (scaled_link e l) else 0)

-- `none` is the ValueError of a link that is not there, or the ZeroDivisionError.
unfoldable pub stream_time : Efficiency → Op → Option Link → Option ℕ
stream_time e op none = none
stream_time e op (some l) =
    if l.bandwidth == 0 || e.collective_part == 0
    then none
    else some (payload_of op * e.full / (l.bandwidth * e.collective_part) + l.latency_s)

-- A fraction over a derated rate, rounded down; `none` is the ZeroDivisionError.
unfoldable pub over_rate : Fraction → (rate part full : ℕ) → Option ℕ
over_rate q rate part full =
    if rate == 0 || part == 0 then none else some (q.over * full / (q.under * (rate * part)))

-- `none` is the ValueError of a format that the chip does not compute.
unfoldable pub compute_seconds : Efficiency → Op → Chip → Option ℕ
compute_seconds e op chip =
    if op.flops.over == 0
    then some 0
    else (flops chip.compute op.dtype >>= λ rate. over_rate op.flops rate e.compute_part e.full)

unfoldable pub mem_seconds : Efficiency → Op → Chip → Option ℕ
mem_seconds e op chip =
    let moved : Fraction = record {
      over = op.dram_read.over * op.dram_write.under + op.dram_write.over * op.dram_read.under;
      under = op.dram_read.under * op.dram_write.under;
    } in
    if moved.over == 0
    then some 0
    else over_rate moved (effective_dram_bandwidth chip) e.memory_part e.full

unfoldable pub unit_timing : Efficiency → Op → (compute_t mem_t : ℕ) → OpTiming
unit_timing e op compute_t mem_t = record {
  op = op;
  time = op.count * (max compute_t mem_t + e.op_overhead_s);
  compute_time = op.count * compute_t;
  mem_time = op.count * mem_t;
  comm_time = 0;
}

unfoldable pub time_kind : OpKind → Efficiency → Op → Chip → CommContext → Option OpTiming
time_kind allreduce e op chip comm =
    allreduce_time e op comm.tp comm.tp_link >>= λ one. some (comm_timing e op one)
time_kind halfring e op chip comm =
    gather_time e op comm.a2a comm.a2a_link >>= λ one. some (comm_timing e op one)
time_kind cp_ring e op chip comm =
    gather_time e op comm.cp comm.a2a_link >>= λ one. some (comm_timing e op one)
time_kind alltoall e op chip comm =
    stream_time e op comm.a2a_link >>= λ one. some (comm_timing e op one)
time_kind p2p e op chip comm = stream_time e op comm.p2p_link >>= λ one. some (comm_timing e op one)
time_kind compute e op chip comm = compute_seconds e op chip >>= λ compute_t.
    mem_seconds e op chip >>= λ mem_t. some (unit_timing e op compute_t mem_t)

unfoldable pub time_op : Efficiency → Op → Chip → CommContext → Option OpTiming
time_op e op = time_kind op.kind e op

unfoldable pub lacks_link : Option Link → Bool
lacks_link none = true
lacks_link (some l) = false

-- `RooflineEngine.run_phase`; `none` is one of its ValueErrors, or the ZeroDivisionError.
unfoldable pub run_phase : Efficiency → String → List Op → System → Deployment → Option Phase
run_phase e name ops s dep = do
  comm ← for_deployment s dep
  timings ←
      (if ltb 1 dep.tp && lacks_link comm.tp_link
        then none
        else traverse (λ op. time_op e op s.node.chip comm) ops)
  some (record { name = name; timings = timings; wall_time = none })
