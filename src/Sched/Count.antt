-- ===== src/Sched/Count.antt =====
-- Counts for the event loop of `schedule`: keys in a list, dependencies that are not done, tasks that are.
use inferencesim.Prelude.{
  ℕ, zero, suc, ◌+◌, ◌≡◌, ◌≢◌, ◌≤◌, ◌<◌, refl, sym, ap, ◌∙◌, Bool, true, false, not, List, [], ◌∷◌,
  if◌then◌else◌, ◌==◌, length, sum, In, inl, inr, arith, Bool-cases,
}
use inferencesim.Sched.Heap.{set_at, set_at-eq, set_at-ne}

abbrev pub bit : Bool → ℕ
bit b = if b then 1 else 0

abbrev pub hit : ℕ → ℕ → ℕ
hit j x = if x == j then 1 else 0

abbrev pub count : ℕ → List ℕ → ℕ
count j = sum (hit j)

abbrev pub undone : (ℕ → Bool) → List ℕ → ℕ
undone done = sum (λ d. bit (not (done d)))

-- How many of the keys below `n` are done.
abbrev pub total : (ℕ → Bool) → ℕ → ℕ
total done zero = 0
total done (suc n) = total done n + bit (done n)

pub bit_one : (b : Bool) → b ≡ true → bit b ≡ 1
bit_one true h = refl
bit_one false h = cc

pub bit_zero : (b : Bool) → b ≡ false → bit b ≡ 0
bit_zero true h = cc
bit_zero false h = refl

bit_le : (b : Bool) → bit b ≤ 1
bit_le true = omega arith
bit_le false = omega arith

bit-true : (b : Bool) → bit b ≡ 1 → b ≡ true
bit-true true h = refl
bit-true false h = absurd (omega arith)

not_done : (b : Bool) → bit (not b) ≡ 0 → b ≡ true
not_done true h = refl
not_done false h = absurd (omega arith)

-- One key more is done, which was not.
bit-set_at :
    (done : ℕ → Bool) (k d : ℕ)
    → done k ≡ false
    → bit (not (done d)) ≡ bit (not (set_at done k true d)) + hit k d
unfolding set_at
bit-set_at done k d h = elim (Bool-cases (d == k)) [
  | inl e ↦
      let same : d ≡ k = ground arith in let b : done d ≡ false = ap done same ∙ h in rw (e, b) refl
  | inr e ↦ rw e (omega arith)
]

pub undone-set_at :
    (done : ℕ → Bool) (k : ℕ) (ds : List ℕ)
    → done k ≡ false
    → undone done ds ≡ undone (set_at done k true) ds + count k ds
undone-set_at done k [] h = refl
undone-set_at done k (d ∷ ds) h = omega (arith, bit-set_at done k d h, undone-set_at done k ds h)

pub undone_none :
    (done : ℕ → Bool) (ds : List ℕ) (d : ℕ) → undone done ds ≡ 0 → In d ds → done d ≡ true
undone_none done [] d h m = absurd m
undone_none done (x ∷ xs) d h (inl e) =
    let z : bit (not (done x)) ≡ 0 = omega arith in sym (ap done e) ∙ not_done (done x) z
undone_none done (x ∷ xs) d h (inr m) = undone_none done xs d (omega arith) m

total_other : (done : ℕ → Bool) (k n : ℕ) → n ≤ k → total (set_at done k true) n ≡ total done n
total_other done k zero l = refl
total_other done k (suc n) l =
    let same = ap bit (set_at-ne done k n true (omega arith)) in
    omega (arith, total_other done k n (omega arith))

pub total-set_at :
    (done : ℕ → Bool) (k n : ℕ)
    → done k ≡ false
    → k < n
    → total (set_at done k true) n ≡ total done n + 1
total-set_at done k zero h l = absurd (omega arith)
total-set_at done k (suc n) h l = elim (Bool-cases (n == k)) [
  | inl e ↦
      let same : n ≡ k = ground arith in
      let old : bit (done n) ≡ 0 = bit_zero (done n) (ap done same ∙ h) in
      let new : bit (set_at done k true n) ≡ 1 =
        bit_one (set_at done k true n) (ap (set_at done k true) same ∙ set_at-eq done k true) in
      omega (arith, total_other done k n (omega arith))
  | inr e ↦
      let apart : n ≢ k = ground arith in
      let same = ap bit (set_at-ne done k n true apart) in
      omega (arith, total-set_at done k n h (omega arith))
]

pub total_all : (done : ℕ → Bool) (n : ℕ) → ((k : ℕ) → k < n → done k ≡ true) → total done n ≡ n
total_all done zero h = refl
total_all done (suc n) h =
    let one = bit_one (done n) (h n (omega arith)) in
    omega (arith, total_all done n (λ k l. h k (omega arith)))

pub total_le : (done : ℕ → Bool) (n : ℕ) → total done n ≤ n
total_le done zero = omega arith
total_le done (suc n) = omega (arith, bit_le (done n), total_le done n)

pub total_full : (done : ℕ → Bool) (n k : ℕ) → total done n ≡ n → k < n → done k ≡ true
total_full done zero k h l = absurd (omega arith)
total_full done (suc n) k h l =
    let most = bit_le (done n) in
    let rest = total_le done n in
    elim (Bool-cases (n == k)) [
      | inl e ↦
          let same : n ≡ k = ground arith in sym (ap done same) ∙ bit-true (done n) (omega arith)
      | inr e ↦ let apart : n ≢ k = ground arith in total_full done n k (omega arith) (omega arith)
    ]

pub total_start : (n : ℕ) → total (λ _. false) n ≡ 0
total_start zero = refl
total_start (suc n) = omega (arith, total_start n)

pub undone_start : (ds : List ℕ) → undone (λ _. false) ds ≡ length ds
undone_start [] = refl
undone_start (d ∷ ds) = omega (arith, undone_start ds)
