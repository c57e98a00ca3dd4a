-- ===== src/Workload/Blocks.antt =====
-- The members' blocks of `MoEConfig` and their popularity, against all experts.
use native.Mathlib.Nat.{div-add-mod, mod-lt, mul-le-mul_right}
use inferencesim.Prelude.{
  ℕ, zero, suc, ◌+◌, ◌-◌, ◌*◌, ◌/◌, ◌%◌, ◌≡◌, ◌≤◌, ◌<◌, refl, ◌∙◌, sym, ap, Bool, true, false, List,
  [], ◌∷◌, ltb, if◌then◌else◌, max, map, sum, length, arith, Bool-cases, inl, inr, ltb→lt,
}
use inferencesim.Workload.Moe.{
  MoeConfig, take, drop, slice_sum, blocks_from, member_blocks, member_popularity, greatest,
  hot_member_factor,
}

-- Blocks in order from `a` to `b`, without a gap, each of `base` or `base + 1` experts.
abbrev pub IsPartition : (base a b : ℕ) → List (ℕ × ℕ) → Type 0
IsPartition base a b [] = a ≡ b
IsPartition base a b ((x, y) ∷ rest) =
    (x ≡ a) × (x + base ≤ y) × (y ≤ x + base + 1) × IsPartition base y b rest

-- How many of the members from `i` on have one expert more.
abbrev pub larger : (extra left i : ℕ) → ℕ
larger extra zero i = 0
larger extra (suc left) i = (if ltb i extra then 1 else 0) + larger extra left (i + 1)

larger_none : (extra left i : ℕ) → extra ≤ i → larger extra left i ≡ 0
larger_none extra zero i h = refl
larger_none extra (suc left) i h = ground (arith, larger_none extra left (i + 1) (omega arith))

pub larger_lem : (extra left i : ℕ) → i ≤ extra → extra ≤ i + left → larger extra left i ≡ extra - i
larger_lem extra zero i h g = omega arith
larger_lem extra (suc left) i h g = elim (Bool-cases (ltb i extra)) [
  | inl c ↦
      let lt = ltb→lt i extra c in
      let rest = larger_lem extra left (i + 1) (omega arith) (omega arith) in rw c (omega arith)
  | inr c ↦
      let ge : extra ≤ i = ground arith in
      let rest = larger_none extra left (i + 1) (omega arith) in rw c (omega arith)
]

one_more_le : (b : Bool) → (if b then 1 else 0) ≤ 1
one_more_le true = omega arith
one_more_le false = omega arith

blocks_from-IsPartition :
    (base extra left i start end : ℕ)
    → start + left * base + larger extra left i ≡ end
    → IsPartition base start end (blocks_from base extra left i start)
unfolding blocks_from
blocks_from-IsPartition base extra zero i start end e = omega arith
blocks_from-IsPartition base extra (suc left) i start end e =
    let more : ℕ = if ltb i extra then 1 else 0 in
    let le : more ≤ 1 = one_more_le (ltb i extra) in
    (
      refl,
      omega arith,
      omega arith,
      blocks_from-IsPartition base extra left (i + 1) (start + (base + more)) end (omega arith),
    )

length-blocks_from :
    (base extra left i start : ℕ) → length (blocks_from base extra left i start) ≡ left
unfolding blocks_from
length-blocks_from base extra zero i start = refl
length-blocks_from base extra (suc left) i start =
    ap suc (length-blocks_from base extra left (i + 1) _)

-- The blocks of a positive number of members are in order, without a gap, from expert 0 to the last,
-- and each has `n_experts / n_members` experts or one more.
pub member_blocks-IsPartition :
    (m : MoeConfig) (n : ℕ)
    → 0 < n
    → IsPartition (m.n_experts / n) 0 m.n_experts (member_blocks m n)
unfolding member_blocks
member_blocks-IsPartition m n h =
    let q = m.n_experts / n in
    let r = m.n_experts % n in
    let whole : n * q + r ≡ m.n_experts = div-add-mod m.n_experts n in
    let lt : r < n = mod-lt m.n_experts h in
    let few = larger_lem r n 0 (omega arith) (omega arith) in
    blocks_from-IsPartition q r n 0 0 m.n_experts (omega arith)

take-drop-sum :
    (k : ℕ) (xs : List ℕ) → sum (λ x. x) (take k xs) + sum (λ x. x) (drop k xs) ≡ sum (λ x. x) xs
take-drop-sum zero xs = omega arith
take-drop-sum (suc k) [] = omega arith
take-drop-sum (suc k) (x ∷ xs) = omega (arith, take-drop-sum k xs)

drop-nil : (k : ℕ) → drop {A = ℕ} k [] ≡ []
drop-nil zero = refl
drop-nil (suc k) = refl

drop-drop : (a k b : ℕ) (xs : List ℕ) → a + k ≡ b → drop k (drop a xs) ≡ drop b xs
drop-drop zero k b xs e = let e' : k ≡ b = omega arith in ap (λ n. drop n xs) e'
drop-drop (suc a) k b [] e = drop-nil k ∙ sym (drop-nil b)
drop-drop (suc a) k zero (x ∷ xs) e = absurd (omega arith)
drop-drop (suc a) k (suc b) (x ∷ xs) e = drop-drop a k b xs (omega arith)

drop_all : (n : ℕ) (xs : List ℕ) → length xs ≤ n → drop n xs ≡ []
drop_all zero [] h = refl
drop_all zero (x ∷ xs) h = absurd (omega arith)
drop_all (suc n) [] h = refl
drop_all (suc n) (x ∷ xs) h = drop_all n xs (omega arith)

-- What the blocks of a partition hold, and what comes after it.
partition_sum :
    (pop : List ℕ) (base a b : ℕ) (bs : List (ℕ × ℕ))
    → IsPartition base a b bs
    → sum (λ x. x) (map (slice_sum pop) bs) + sum (λ x. x) (drop b pop) ≡ sum (λ x. x) (drop a pop)
unfolding slice_sum
partition_sum pop base a b [] e =
    let same : sum (λ x. x) (drop a pop) ≡ sum (λ x. x) (drop b pop) =
      ap (λ n. sum (λ x. x) (drop n pop)) e in
    omega arith
partition_sum pop base a b ((x, y) ∷ bs) (e, lo, hi, p) =
    let rest = partition_sum pop base y b bs p in
    let split = take-drop-sum (y - x) (drop x pop) in
    let after : sum (λ x. x) (drop (y - x) (drop x pop)) ≡ sum (λ x. x) (drop y pop) =
      ap (sum (λ x. x)) (drop-drop x (y - x) y pop (omega arith)) in
    let same : sum (λ x. x) (drop x pop) ≡ sum (λ x. x) (drop a pop) =
      ap (λ n. sum (λ x. x) (drop n pop)) e in
    omega arith

-- If each expert has a popularity, the members' popularities add up to that of all experts.
pub member_popularity-sum :
    (m : MoeConfig) (n : ℕ)
    → 0 < n
    → length m.popularity ≡ m.n_experts
    → sum (λ x. x) (member_popularity m n) ≡ sum (λ x. x) m.popularity
unfolding member_popularity
member_popularity-sum m n h l =
    let none_left = drop_all m.n_experts m.popularity (omega arith) in
    let both =
      partition_sum m.popularity (m.n_experts / n) 0 m.n_experts (member_blocks m n)
        (member_blocks-IsPartition m n h) in
    let rest : sum (λ x. x) (drop m.n_experts m.popularity) ≡ 0 = rw none_left refl in omega arith

length-map : (f : ℕ × ℕ → ℕ) (bs : List (ℕ × ℕ)) → length (map f bs) ≡ length bs
length-map f [] = refl
length-map f (b ∷ bs) = ap suc (length-map f bs)

length-member_popularity : (m : MoeConfig) (n : ℕ) → length (member_popularity m n) ≡ n
unfolding member_popularity member_blocks
length-member_popularity m n =
    length-map (slice_sum m.popularity) (member_blocks m n)
    ∙ length-blocks_from (m.n_experts / n) (m.n_experts % n) n 0 0

sum-le-greatest : (xs : List ℕ) → sum (λ x. x) xs ≤ greatest xs * length xs
unfolding greatest
sum-le-greatest [] = omega arith
sum-le-greatest (x ∷ xs) =
    let top = max x (greatest xs) in
    let rest = sum-le-greatest xs in
    let more = mul-le-mul_right {m = greatest xs} {n = top} (length xs) (omega arith) in omega arith

-- The hottest member carries at least the mean: its factor, in parts, is at least the whole.
pub hot_member_factor_ge :
    (m : MoeConfig) (n : ℕ)
    → 0 < n
    → length m.popularity ≡ m.n_experts
    → sum (λ x. x) m.popularity ≤ hot_member_factor m n
unfolding hot_member_factor
hot_member_factor_ge m n h l =
    let all = member_popularity-sum m n h l in
    let each = sum-le-greatest (member_popularity m n) in
    let size : length (member_popularity m n) ≡ n = length-member_popularity m n in
    let bound = rw size at each in omega arith
