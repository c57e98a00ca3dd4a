-- ===== src/Serve/Grid.antt =====
-- Lemmas on the token grid, percentiles and the transfer link of inferencesim/serve.py.
use native.Mathlib.Nat.{
  div-add-mod, mod-lt, div-lt_iff_lt-mul, mul-le-mul_right, mul-le-mul_left, div-le_of_le-mul,
}
use inferencesim.Prelude.{
  ℕ, zero, suc, ◌+◌, ◌-◌, ◌*◌, ◌/◌, ◌%◌, ◌≡◌, ◌≤◌, ◌<◌, refl, ◌∙◌, sym, ap, true, false, List, [],
  ◌∷◌, some, leb, ◌==◌, length, get_elem?, arith, Bool-cases, Option-cases, lt→ltb, ◌⊎◌, inl, inr,
}
use mathlib.Core.Option.{some-injective}
use inferencesim.Hardware.{System, total_chips, make_node, make_system}
use inferencesim.Hardware.Laws.{link_for_group_total}
use inferencesim.Serve.Config.{
  ceil_grid, interpolate, percentile, TransferOverride, latency_or, over_link, resolve_transfer,
}

-- The rounded quotient.
ceil-le : (n g : ℕ) → 0 < g → n ≤ (n + g - 1) / g * g
ceil-le n g h =
    let whole = div-add-mod (n + g - 1) g in let lt = mod-lt (n + g - 1) h in omega arith

ceil_least : (n g k : ℕ) → 0 < g → n ≤ k * g → (n + g - 1) / g ≤ k
ceil_least n g k h le =
    let lt = (div-lt_iff_lt-mul {k = g} {x = n + g - 1} {y = suc k} h).1 (omega arith) in
    omega arith

-- On a positive grid, a rounded count is at least the count, and at most each multiple of the grid
-- that is.
pub ceil_grid_least :
    (n grid k : ℕ)
    → 0 < grid
    → n ≤ k * grid
    → (n ≤ ceil_grid n grid) × (ceil_grid n grid ≤ k * grid)
unfolding ceil_grid
ceil_grid_least n grid k h le = elim (Bool-cases (leb grid 1)) [
  | inl c ↦ rw c (omega arith, le)
  | inr c ↦ rw c (
    ceil-le n grid h,
    mul-le-mul_right {m = (n + grid - 1) / grid} {n = k} grid (ceil_least n grid k h le),
  )
]

abbrev pub IsSorted : List ℕ → Type 0
IsSorted [] = Unit
IsSorted (x ∷ []) = Unit
IsSorted (x ∷ y ∷ ys) = (x ≤ y) × IsSorted (y ∷ ys)

-- An index below the length finds a value, and the next one no less.
get_elem?-some : (xs : List ℕ) (i : ℕ) → i < length xs → (a : ℕ) × (get_elem? xs i ≡ some a)
get_elem?-some [] i h = absurd (omega arith)
get_elem?-some (x ∷ xs) zero h = (x, refl)
get_elem?-some (x ∷ xs) (suc i) h = get_elem?-some xs i (omega arith)

get_elem?_next :
    (xs : List ℕ) (i a b : ℕ)
    → IsSorted xs
    → get_elem? xs i ≡ some a
    → get_elem? xs (suc i) ≡ some b
    → a ≤ b
get_elem?_next [] i a b s e f = cc
get_elem?_next (x ∷ []) i a b s e f = cc
get_elem?_next (x ∷ y ∷ ys) zero a b (le, s) e f =
    let p = some-injective x a e in let q = some-injective y b f in omega arith
get_elem?_next (x ∷ y ∷ ys) (suc i) a b (le, s) e f = get_elem?_next (y ∷ ys) i a b s e f

-- The position of a percentile: its rounded-up index is the rounded-down one, or the next.
position :
    (pos : ℕ)
    → ((pos / 100 ≡ (pos + 99) / 100) × (pos % 100 ≡ 0)) ⊎ ((pos + 99) / 100 ≡ suc (pos / 100))
position pos = elim (Bool-cases (pos % 100 == 0)) [
  | inl c ↦ let z : pos % 100 ≡ 0 = ground arith in inl (omega arith, z)
  | inr c ↦ let z : 0 < pos % 100 = ground arith in inr (omega arith)
]

-- A part of the way from `a` to `b` is between them.
part_le : (a b part : ℕ) → a ≤ b → part ≤ 100 → a + (b - a) * part / 100 ≤ b
part_le a b part h le =
    let most = mul-le-mul_left {m = part} {n = 100} (b - a) le in
    let step = div-le_of_le-mul 100 {m = (b - a) * part} {n = b - a} (omega arith) in omega arith

position_bound : (q n : ℕ) → 0 < n → q ≤ 100 → (q * (n - 1) + 99) / 100 < n
position_bound q n h le = let most = mul-le-mul_right {m = q} {n = 100} (n - 1) le in omega arith

-- For sorted values, of which there is at least one, and a percentage of at most 100, a percentile is
-- found, and stands between the values at the two indices that its position falls between.
pub percentile_between :
    (xs : List ℕ) (q : ℕ)
    → IsSorted xs
    → 0 < length xs
    → q ≤ 100
    → let pos = q * (length xs - 1) in
      (a b v : ℕ) × (get_elem? xs (pos / 100) ≡ some a)
      × (get_elem? xs ((pos + 99) / 100) ≡ some b)
      × (percentile xs q ≡ some v)
      × (a ≤ v)
      × (v ≤ b)
unfolding percentile interpolate
percentile_between [] q s h le = absurd (omega arith)
percentile_between (x ∷ []) q s h le =
    let low : q * (1 - 1) / 100 ≡ 0 = omega arith in
    let high : (q * (1 - 1) + 99) / 100 ≡ 0 = omega arith in
    (x, x, x, rw low refl, rw high refl, refl, omega arith, omega arith)
percentile_between (x ∷ y ∷ ys) q s h le =
    let xs = x ∷ y ∷ ys in
    let pos = q * (length xs - 1) in
    let bound = position_bound q (length xs) h le in
    let (a, ea) = get_elem?-some xs (pos / 100) (omega arith) in
    let (b, eb) = get_elem?-some xs ((pos + 99) / 100) bound in
    elim (position pos) [
      | inl (same, whole) ↦
          let eq : (pos / 100 == (pos + 99) / 100) ≡ true = ground arith in
          (a, a, a, ea, ap (get_elem? xs) (sym same) ∙ ea, rw eq ea, omega arith, omega arith)
      | inr next ↦
          let up = get_elem?_next xs (pos / 100) a b s ea (ap (get_elem? xs) (sym next) ∙ eb) in
          let apart : (pos / 100 == (pos + 99) / 100) ≡ false = ground arith in
          let v = a + (b - a) * (pos % 100) / 100 in
          (
            a,
            b,
            v,
            ea,
            eb,
            rw (apart, ea, eb) refl,
            omega arith,
            part_le a b (pos % 100) up (omega arith),
          )
    ]

-- The transfer link always resolves for a pool of at least two chips that a checked system holds.
pub resolve_transfer_total :
    (s : System) (n : ℕ) (d : TransferOverride)
    → make_node s.node ≡ some s.node
    → make_system s ≡ some s
    → 1 < n
    → n ≤ total_chips s
    → (r : ℕ × ℕ) × (resolve_transfer s n d ≡ some r)
unfolding resolve_transfer over_link
resolve_transfer_total s n d c y h t = elim (Option-cases d.transfer_bw) [
  | inl e ↦
      let (l, way) = link_for_group_total s n c y h t in
      rw (e, lt→ltb 1 n h, way) ((l.bandwidth, latency_or l.latency_s d.transfer_latency), refl)
  | inr (bw, e) ↦ rw e ((bw, latency_or 0 d.transfer_latency), refl)
]
