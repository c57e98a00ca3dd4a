-- ===== src/Des.antt =====
-- inferencesim/des.py: how the layers are split over the stages of a pipeline.
pub mod Stage
pub mod Rounds
pub mod Costs
pub mod Measured
pub mod Serial
pub mod Charged
pub mod Dense
pub mod Lowered
pub mod Reduced
pub mod Walled
pub mod Oracle
pub mod Agreement
pub mod Grown
pub mod Whole
pub mod Built
pub mod Converge
pub mod Keyed
pub mod Examples
use inferencesim.Prelude.{
  ℕ, zero, suc, ◌+◌, ◌*◌, ◌/◌, ◌%◌, ◌≡◌, ◌<◌, List, [], ◌∷◌, ltb, if◌then◌else◌, sum, length, arith,
}
use native.Mathlib.Nat.{div-add-mod, mod-lt}
use inferencesim.Workload.Blocks.{larger, larger_lem}

-- The stages from `s` on.
unfoldable pub stages_from : (base extra left s : ℕ) → List ℕ
stages_from base extra zero s = []
stages_from base extra (suc left) s =
    (base + (if ltb s extra then 1 else 0)) ∷ stages_from base extra left (s + 1)

unfoldable pub split_layers : (n_layers pp : ℕ) → List ℕ
split_layers n_layers pp = stages_from (n_layers / pp) (n_layers % pp) pp 0

sum-stages_from :
    (base extra left s : ℕ)
    → sum (λ x. x) (stages_from base extra left s) ≡ left * base + larger extra left s
unfolding stages_from
sum-stages_from base extra zero s = omega arith
sum-stages_from base extra (suc left) s = omega (arith, sum-stages_from base extra left (s + 1))

length-stages_from : (base extra left s : ℕ) → length (stages_from base extra left s) ≡ left
unfolding stages_from
length-stages_from base extra zero s = omega arith
length-stages_from base extra (suc left) s =
    omega (arith, length-stages_from base extra left (s + 1))

-- A positive number of stages gets as many entries, which add up to all layers.
pub split_layers-sum :
    (n_layers pp : ℕ)
    → 0 < pp
    → (length (split_layers n_layers pp) ≡ pp)
      × (sum (λ x. x) (split_layers n_layers pp) ≡ n_layers)
unfolding split_layers
split_layers-sum n pp h =
    let whole : pp * (n / pp) + n % pp ≡ n = div-add-mod n pp in
    let lt : n % pp < pp = mod-lt n h in
    let few = larger_lem (n % pp) pp 0 (omega arith) (omega arith) in
    let all = sum-stages_from (n / pp) (n % pp) pp 0 in
    (length-stages_from (n / pp) (n % pp) pp 0, omega arith)
