-- ===== src/Hardware/Laws.antt =====
-- Lemmas on the building blocks of inferencesim/hardware.py.
use inferencesim.Prelude.{
  ℕ, zero, suc, ◌*◌, ◌≡◌, ◌≤◌, ◌<◌, ◌⊎◌, inl, inr, refl, sym, subst, ap, ◌∙◌, List, [], ◌∷◌, Option,
  none, some, map, min, All, All-In, In, arith, Option-cases, Bool-cases, leb, leb→le,
}
use mathlib.Core.Option.{some-ne-none}
use inferencesim.Hardware.{
  DType, fp4, quarter_bytes, widening_from, Compute, first_rate, flops, Chip, stage_bandwidth,
  least, effective_dram_bandwidth, Link, Node, System, make_node, make_system, total_chips, crosses,
  link_for_group,
}

-- The formats that a list offers, with what none of the earlier ones supports.
first_rate-some :
    (peak : DType → Option ℕ) (ds : List DType) (r : ℕ)
    → first_rate peak ds ≡ some r
    → (d : DType) × In d ds × (peak d ≡ some r)
unfolding first_rate
first_rate-some peak [] r e = cc
first_rate-some peak (d ∷ ds) r e = elim (Option-cases (peak d)) [
  | inl n ↦ let (d', m, q) = first_rate-some peak ds r (rw (n, first_rate) at e) in (d', inr m, q)
  | inr (x, q) ↦ (d, inl refl, q ∙ (rw (q, first_rate) at e))
]

first_rate-none :
    (peak : DType → Option ℕ) (ds : List DType)
    → first_rate peak ds ≡ none
    → All (λ d. peak d ≡ none) ds
unfolding first_rate
first_rate-none peak [] e = tt
first_rate-none peak (d ∷ ds) e = elim (Option-cases (peak d)) [
  | inl n ↦ (n, first_rate-none peak ds (rw (n, first_rate) at e))
  | inr (x, q) ↦ absurd (some-ne-none x (rw (q, first_rate) at e))
]

-- The order never narrows.
widening_widens : (d : DType) → All (λ w. quarter_bytes d ≤ quarter_bytes w) (widening_from d)
unfolding widening_from quarter_bytes
widening_widens fp4 = omega arith
widening_widens _ = omega arith

-- `flops` returns the rate of a supported format that is at least as wide as the one asked for.
pub flops-some :
    (c : Compute) (d : DType) (r : ℕ)
    → flops c d ≡ some r
    → (w : DType) × (c.peak_flops w ≡ some r) × (quarter_bytes d ≤ quarter_bytes w)
unfolding flops
flops-some c d r e =
    let (w, m, q) = first_rate-some c.peak_flops (widening_from d) r e in
    (
      w,
      q,
      All-In (λ w. quarter_bytes d ≤ quarter_bytes w) w (widening_from d) (widening_widens d) m,
    )

strictly_wider : (d w : DType) → quarter_bytes d < quarter_bytes w → In w (widening_from d)
unfolding quarter_bytes widening_from
strictly_wider fp4 w h = ground arith
strictly_wider _ w h = ground arith

own : (d : DType) → In d (widening_from d)
unfolding widening_from
own fp4 = inl refl
own _ = inl refl

-- `flops` raises its error only if no supported format is the one asked for or strictly wider.
pub flops-none :
    (c : Compute) (d w : DType)
    → flops c d ≡ none
    → (w ≡ d) ⊎ (quarter_bytes d < quarter_bytes w)
    → c.peak_flops w ≡ none
unfolding flops
flops-none c d w e h =
    let all = first_rate-none c.peak_flops (widening_from d) e in
    All-In (λ x. c.peak_flops x ≡ none) w (widening_from d) all
      (elim h [
        | inl q ↦ subst (λ x. In x (widening_from d)) (sym q) (own d)
        | inr l ↦ strictly_wider d w l
      ])

least-le : (x : ℕ) (ys : List ℕ) → (least x ys ≤ x) × All (λ y. least x ys ≤ y) ys
unfolding least
least-le x [] = (omega arith, tt)
least-le x (y ∷ ys) = let (a, b) = least-le (min x y) ys in (omega arith, (omega arith, b))

-- The effective bandwidth of a chip is at most that of its DRAM and of every stage of its path.
pub effective_dram_bandwidth_le :
    (c : Chip)
    → (effective_dram_bandwidth c ≤ c.dram.bandwidth)
      × All (λ b. effective_dram_bandwidth c ≤ b) (map stage_bandwidth c.on_chip_path)
unfolding effective_dram_bandwidth
effective_dram_bandwidth_le c = least-le c.dram.bandwidth (map stage_bandwidth c.on_chip_path)

-- A node that passed its check and has no link holds one chip at most, and a system likewise.
make_node-none : (n : Node) → make_node n ≡ some n → n.interconnect ≡ none → n.n_chips ≤ 1
unfolding make_node
make_node-none n e q = grind arith

make_system-none : (s : System) → make_system s ≡ some s → s.network ≡ none → s.n_nodes ≤ 1
unfolding make_system
make_system-none s e q = grind arith

-- The link of a group that a node holds, and of one that only the system holds.
within_node :
    (s : System) (g : ℕ)
    → 1 < g
    → g ≤ total_chips s
    → g ≤ s.node.n_chips
    → link_for_group s g ≡ crosses s.node.interconnect
unfolding link_for_group
within_node s g h t c = ground arith

beyond_node :
    (s : System) (g : ℕ)
    → 1 < g
    → g ≤ total_chips s
    → s.node.n_chips < g
    → link_for_group s g ≡ crosses s.network
unfolding link_for_group
beyond_node s g h t c = ground arith

one_node : (n k g : ℕ) → n ≤ 1 → g ≤ n * k → g ≤ k
one_node zero k g h t = omega arith
one_node (suc zero) k g h t = omega arith
one_node (suc (suc n)) k g h t = omega arith

-- In a system whose node and itself passed their checks, a group of at least two chips that the
-- system holds always has a link.
pub link_for_group_total :
    (s : System) (g : ℕ)
    → make_node s.node ≡ some s.node
    → make_system s ≡ some s
    → 1 < g
    → g ≤ total_chips s
    → (l : Link) × (link_for_group s g ≡ crosses (some l))
unfolding make_node make_system total_chips link_for_group
link_for_group_total s g n y h t = elim (Bool-cases (leb g s.node.n_chips)) [
  | inl c ↦
      let here = within_node s g h t (leb→le g s.node.n_chips c) in
      elim (Option-cases s.node.interconnect) [
        | inl q ↦
            let few = make_node-none s.node n q in
            let le = leb→le g s.node.n_chips c in absurd (omega arith)
        | inr (l, q) ↦ (l, here ∙ ap crosses q)
      ]
  | inr c ↦
      let far : s.node.n_chips < g = ground arith in
      elim (Option-cases s.network) [
        | inl q ↦
            let few = make_system-none s y q in
            let le = one_node s.n_nodes s.node.n_chips g few t in absurd (omega arith)
        | inr (l, q) ↦ (l, beyond_node s g h t far ∙ ap crosses q)
      ]
]
