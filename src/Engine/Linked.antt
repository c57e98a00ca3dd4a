-- ===== src/Engine/Linked.antt =====
-- The links of a deployment on a checked system, and that a phase of operations with what they need is
-- priced.
use native.Mathlib.Nat.{mul-le-mul_left}
use inferencesim.Prelude.{
  ◌||◌, ◌+◌, if_elim, ℕ, ◌*◌, min, ◌≡◌, ◌≤◌, ◌<◌, refl, sym, ap, ◌∙◌, subst, true, false, ◌&&◌,
  List, Option, none, some, String, ltb, leb, ◌==◌, All, [], ◌∷◌, arith, Bool-cases, inl, inr,
  length, traverse-All,
}
use mathlib.Core.Option.{none-ne-some, some-injective}
use inferencesim.Hardware.{
  GroupLink, exceeds, effective_dram_bandwidth, flops, Link, Chip, System, crosses, link_for_group,
  make_node, make_system, total_chips,
}
use inferencesim.Hardware.Laws.{link_for_group_total}
use inferencesim.Workload.Model.{ModelSpec, Deployment, replica_chips}
use inferencesim.Ops.{
  Fraction, OpKind, compute, allreduce, alltoall, halfring, cp_ring, p2p, validate_deployment,
}
use inferencesim.Ops.Lower.{Op}
use inferencesim.Engine.Timing.{
  Efficiency, OpTiming, Phase, CommContext, link_of, for_deployment, allreduce_time, gather_time,
  make_efficiency, is_part, mem_seconds, over_rate, stream_time, compute_seconds, time_kind,
  time_op, lacks_link, run_phase,
}
use inferencesim.Engine.Priced.{Needs, IsPriced}

-- A group of at least two chips has a link that carries bytes.
abbrev pub Spans : ℕ → Option Link → Type 0
Spans g o = 1 < g → (l : Link) × (o ≡ some l) × (0 < l.bandwidth)

abbrev pub Carries : Option Link → Type 0
Carries none = Unit
Carries (some l) = 0 < l.bandwidth

-- The links that there are and the memory have a bandwidth.
pub record HasBandwidth (s : System) : Type 0 where
  pub dram : 0 < effective_dram_bandwidth s.node.chip
  pub interconnect : Carries s.node.interconnect
  pub network : Carries s.network

abbrev CarriesGroup : GroupLink → Type 0
CarriesGroup exceeds = Unit
CarriesGroup (crosses o) = Carries o

carries_group : (s : System) (g : ℕ) → HasBandwidth s → CarriesGroup (link_for_group s g)
unfolding link_for_group
carries_group s g b =
    if_elim CarriesGroup (leb g 1) (λ _. tt)
      (λ _.
        if_elim CarriesGroup (ltb (total_chips s) g) (λ _. tt)
          (λ _. if_elim CarriesGroup (leb g s.node.n_chips) (λ _. b.interconnect) (λ _. b.network)))

-- A chip and factors by which there is something to divide.
pub record IsPowered (e : Efficiency) (chip : Chip) : Type 0 where
  pub compute_pos : 0 < e.compute_part
  pub memory_pos : 0 < e.memory_part
  pub collective_pos : 0 < e.collective_part
  pub dram_pos : 0 < effective_dram_bandwidth chip

make_efficiency-IsPowered :
    (e : Efficiency) (chip : Chip)
    → 0 < effective_dram_bandwidth chip
    → make_efficiency e ≡ some e
    → IsPowered e chip
unfolding make_efficiency is_part
make_efficiency-IsPowered e chip d h =
    elim (Bool-cases (
      is_part e.full e.compute_part
      && is_part e.full e.memory_part
      && is_part e.full e.collective_part)) [
        | inl c ↦ record {
          compute_pos = ground arith;
          memory_pos = ground arith;
          collective_pos = ground arith;
          dram_pos = d;
        }
        | inr c ↦ absurd (none-ne-some e (rw c at h))
      ]

pub record HasLinks (dep : Deployment) (comm : CommContext) : Type 0 where
  pub tp_eq : comm.tp ≡ dep.tp
  pub tp_spans : Spans dep.tp comm.tp_link
  pub a2a_spans : Spans (dep.tp * dep.ep * dep.adp) comm.a2a_link
  pub p2p_spans : Spans (replica_chips dep) comm.p2p_link

-- Every dimension is at least 1.
pub record IsSized (dep : Deployment) : Type 0 where
  pub tp_pos : 1 ≤ dep.tp
  pub pp_pos : 1 ≤ dep.pp
  pub ep_pos : 1 ≤ dep.ep
  pub adp_pos : 1 ≤ dep.adp

pub validate_deployment-IsSized :
    (m : ModelSpec) (dep d : Deployment) → validate_deployment m dep ≡ some d → IsSized dep
unfolding validate_deployment
validate_deployment-IsSized m dep d v =
    elim (Bool-cases (ltb (min (min dep.tp dep.pp) (min dep.ep dep.adp)) 1)) [
      | inl e ↦ absurd (none-ne-some d (rw e at v))
      | inr e ↦ record {
        tp_pos = ground arith;
        pp_pos = ground arith;
        ep_pos = ground arith;
        adp_pos = ground arith;
      }
    ]

le_mul : (a b : ℕ) → 1 ≤ b → a ≤ a * b
le_mul a b h = let k = mul-le-mul_left {m = 1} {n = b} a h in omega (arith, k)

-- The groups of a deployment are parts of a replica.
group_le :
    (dep : Deployment)
    → IsSized dep
    → (dep.tp ≤ dep.tp * dep.ep * dep.adp) × (dep.tp * dep.ep * dep.adp ≤ replica_chips dep)
unfolding replica_chips
group_le dep h =
    let a = le_mul dep.tp dep.ep h.ep_pos in
    let b = le_mul (dep.tp * dep.ep) dep.adp h.adp_pos in
    let c = le_mul (dep.tp * dep.ep * dep.adp) dep.pp h.pp_pos in
    (omega (arith, a, b), omega (arith, c))

alone : (s : System) (g : ℕ) → leb g 1 ≡ true → link_for_group s g ≡ crosses none
unfolding link_for_group
alone s g c = rw c refl

link_some :
    (s : System) (g : ℕ)
    → make_node s.node ≡ some s.node
    → make_system s ≡ some s
    → HasBandwidth s
    → g ≤ total_chips s
    → (o : Option Link) × (link_of (link_for_group s g) ≡ some o) × Spans g o
link_some s g n y w t = elim (Bool-cases (leb g 1)) [
  | inl c ↦ (none, ap link_of (alone s g c) ∙ (unfold link_of in refl), λ h. absurd (ground arith))
  | inr c ↦
      let (l, e) = link_for_group_total s g n y (ground arith) t in
      (
        some l,
        ap link_of e ∙ (unfold link_of in refl),
        λ h. (l, refl, subst CarriesGroup e (carries_group s g w)),
      )
]

for_deployment-some :
    (s : System) (dep : Deployment)
    → make_node s.node ≡ some s.node
    → make_system s ≡ some s
    → HasBandwidth s
    → IsSized dep
    → replica_chips dep ≤ total_chips s
    → (comm : CommContext) × (for_deployment s dep ≡ some comm) × HasLinks dep comm
unfolding for_deployment
for_deployment-some s dep n y w h t =
    let (small, large) = group_le dep h in
    let (a, ea, sa) = link_some s dep.tp n y w (omega (arith, small, large)) in
    let (b, eb, sb) = link_some s (dep.tp * dep.ep * dep.adp) n y w (omega (arith, large)) in
    let (c, ec, sc) = link_some s (replica_chips dep) n y w t in
    rw (ea, eb, ec)
      (_, refl, record { tp_eq = refl; tp_spans = sa; a2a_spans = sb; p2p_spans = sc })

-- A number that is a factor of another one is no greater.
a2a_wide :
    (dep : Deployment)
    → IsSized dep
    → (dep.ep ≤ dep.tp * dep.ep * dep.adp)
      × (dep.adp ≤ dep.tp * dep.ep * dep.adp)
      × (dep.pp ≤ replica_chips dep)
unfolding replica_chips
a2a_wide dep h =
    let a = le_mul dep.ep dep.tp h.tp_pos in
    let b = le_mul (dep.ep * dep.tp) dep.adp h.adp_pos in
    let c = le_mul dep.adp dep.tp h.tp_pos in
    let d = le_mul (dep.adp * dep.tp) dep.ep h.ep_pos in
    let e = le_mul dep.pp dep.tp h.tp_pos in
    let f = le_mul (dep.pp * dep.tp) dep.ep h.ep_pos in
    let g = le_mul (dep.pp * dep.tp * dep.ep) dep.adp h.adp_pos in
    (omega (arith, a, b), omega (arith, c, d), omega (arith, e, f, g))

module _ (e : Efficiency) (chip : Chip) (dep : Deployment) (comm : CommContext) where
  allreduce_time-some :
      (op : Op) (tp : ℕ) (o : Option Link)
      → Spans tp o
      → (t : ℕ) × (allreduce_time e op tp o ≡ some t)
  unfolding allreduce_time
  allreduce_time-some op tp none h = elim (Bool-cases (ltb 1 tp)) [
    | inl c ↦ let (l, q, _) = h (ground arith) in absurd (none-ne-some l q)
    | inr c ↦ rw c (0, refl)
  ]
  allreduce_time-some op tp (some l) h = (_, refl)

  gather_time-some :
      (op : Op) (g : ℕ) (o : Option Link) (l : Link)
      → o ≡ some l
      → (t : ℕ) × (gather_time e op g o ≡ some t)
  unfolding gather_time
  gather_time-some op g none l q = absurd (none-ne-some l q)
  gather_time-some op g (some k) l q = (_, refl)

  stream_time-some :
      (op : Op) (o : Option Link) (l : Link)
      → IsPowered e chip
      → o ≡ some l
      → 0 < l.bandwidth
      → (t : ℕ) × (stream_time e op o ≡ some t)
  unfolding stream_time
  stream_time-some op none l w q b = absurd (none-ne-some l q)
  stream_time-some op (some k) l w q b =
      let same : k.bandwidth ≡ l.bandwidth =
        ap (λ (k : Link). k.bandwidth) (some-injective k l q) in
      let pos : (k.bandwidth == 0 || e.collective_part == 0) ≡ false =
        ground (arith, same, b, w.collective_pos) in
      rw pos (_, refl)

  over_rate-some :
      (q : Fraction) (rate part : ℕ)
      → 0 < rate
      → 0 < part
      → (t : ℕ) × (over_rate q rate part e.full ≡ some t)
  unfolding over_rate
  over_rate-some q rate part a b =
      let pos : (rate == 0 || part == 0) ≡ false = ground arith in rw pos (_, refl)

  compute_seconds-some :
      (op : Op) (r : ℕ)
      → IsPowered e chip
      → flops chip.compute op.dtype ≡ some r
      → 0 < r
      → (t : ℕ) × (compute_seconds e op chip ≡ some t)
  unfolding compute_seconds
  compute_seconds-some op r w q a = elim (Bool-cases (op.flops.over == 0)) [
    | inl c ↦ rw c (0, refl)
    | inr c ↦ rw (c, q) (over_rate-some op.flops r e.compute_part a w.compute_pos)
  ]

  mem_seconds-some : (op : Op) → IsPowered e chip → (t : ℕ) × (mem_seconds e op chip ≡ some t)
  unfolding mem_seconds
  mem_seconds-some op w =
      elim (Bool-cases
        (op.dram_read.over * op.dram_write.under + op.dram_write.over * op.dram_read.under == 0)) [
          | inl c ↦ rw c (0, refl)
          | inr c ↦ rw c (
              over_rate-some _ (effective_dram_bandwidth chip) e.memory_part w.dram_pos
                w.memory_pos)
        ]

  time_kind-some :
      (k : OpKind) (op : Op)
      → IsPowered e chip
      → IsSized dep
      → HasLinks dep comm
      → Needs chip.compute dep k op.dtype
      → (t : OpTiming) × (time_kind k e op chip comm ≡ some t)
  unfolding time_kind
  time_kind-some compute op w z h (r, q, a) =
      let (t, x) = compute_seconds-some op r w q a in
      let (u, y) = mem_seconds-some op w in rw (x, y) (_, refl)
  time_kind-some allreduce op w z h n =
      let (t, x) =
        allreduce_time-some op comm.tp comm.tp_link
          (subst (λ g. Spans g comm.tp_link) (sym h.tp_eq) h.tp_spans) in
      rw x (_, refl)
  time_kind-some alltoall op w z h n =
      let (a, b, c) = a2a_wide dep z in
      let (l, q, v) = h.a2a_spans (omega (arith, n, a)) in
      let (t, x) = stream_time-some op comm.a2a_link l w q v in rw x (_, refl)
  time_kind-some halfring op w z h n =
      let (a, b, c) = a2a_wide dep z in
      let (l, q, v) = h.a2a_spans (omega (arith, n, b)) in
      let (t, x) = gather_time-some op comm.a2a comm.a2a_link l q in rw x (_, refl)
  time_kind-some cp_ring op w z h n =
      let (a, b, c) = a2a_wide dep z in
      let (l, q, v) = h.a2a_spans (omega (arith, n, b)) in
      let (t, x) = gather_time-some op comm.cp comm.a2a_link l q in rw x (_, refl)
  time_kind-some p2p op w z h n =
      let (a, b, c) = a2a_wide dep z in
      let (l, q, v) = h.p2p_spans (omega (arith, n, c)) in
      let (t, x) = stream_time-some op comm.p2p_link l w q v in rw x (_, refl)

  time_ops-some :
      (ops : List Op)
      → IsPowered e chip
      → IsSized dep
      → HasLinks dep comm
      → All (IsPriced chip.compute dep) ops
      → All (λ op. (t : OpTiming) × (time_op e op chip comm ≡ some t)) ops
  unfolding time_op
  time_ops-some [] w z h a = tt
  time_ops-some (op ∷ ops) w z h (a, rest) =
      (time_kind-some op.kind op w z h a, time_ops-some ops w z h rest)

  linked :
      (dep' : Deployment) → HasLinks dep' comm → (ltb 1 dep'.tp && lacks_link comm.tp_link) ≡ false
  unfolding lacks_link
  linked dep' h = elim (Bool-cases (ltb 1 dep'.tp)) [
    | inl c ↦ let (l, q, v) = h.tp_spans (ground arith) in rw (c, q) refl
    | inr c ↦ rw c refl
  ]

-- A phase of operations that have what they need is priced, operation by operation.
pub run_phase-some :
    (e : Efficiency) (name : String) (ops : List Op) (s : System) (dep : Deployment)
    → make_node s.node ≡ some s.node
    → make_system s ≡ some s
    → HasBandwidth s
    → make_efficiency e ≡ some e
    → IsSized dep
    → replica_chips dep ≤ total_chips s
    → All (IsPriced s.node.chip.compute dep) ops
    → (ph : Phase) × (run_phase e name ops s dep ≡ some ph)
      × (ph.wall_time ≡ none)
      × (length ph.timings ≡ length ops)
unfolding run_phase
run_phase-some e name ops s dep n y b f z t a =
    let (comm, ec, h) = for_deployment-some s dep n y b z t in
    let (ts, et, l) =
      traverse-All (λ op. time_op e op s.node.chip comm) ops
        (time_ops-some e s.node.chip dep comm ops (make_efficiency-IsPowered e s.node.chip b.dram f)
          z h a) in
    let q = linked e s.node.chip dep comm dep h in
    rw (ec, q, et) (record { name = name; timings = ts; wall_time = none }, refl, refl, l)
