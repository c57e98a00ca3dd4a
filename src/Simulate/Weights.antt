-- ===== src/Simulate/Weights.antt =====
-- Lemmas on the weights of inferencesim/simulate.py.
use native.Mathlib.Nat.{mul-le-mul, mul-le-mul_right}
use inferencesim.Prelude.{
  ℕ, zero, suc, ◌+◌, ◌*◌, ◌≡◌, ◌≤◌, ◌<◌, refl, sym, subst, none, arith, true, ◌==◌,
}
use inferencesim.Hardware.{quarter_bytes}
use inferencesim.Workload.Model.{
  ModelSpec, Deployment, attn_params, ffn_params_total, embedding_params, n_dense_ffn_layers,
  whole_model_params, total_params, weight_bytes, replica_chips,
}
use inferencesim.Simulate.{weight_params, weight_bytes_per_chip}

le-mul : (a k : ℕ) → 0 < k → a ≤ a * k
le-mul a zero h = absurd (omega arith)
le-mul a (suc k) h = omega arith

product_pos : (a b : ℕ) → 0 < a → 0 < b → 0 < a * b
product_pos a zero h k = absurd (omega arith)
product_pos a (suc b) h k = omega arith

dense_layers : (m : ModelSpec) → m.moe ≡ none → n_dense_ffn_layers m ≡ 0
unfolding n_dense_ffn_layers
dense_layers m q = rw q refl

dense_total :
    (m : ModelSpec)
    → m.moe ≡ none
    → total_params m ≡ m.n_layers * (attn_params m + ffn_params_total m) + embedding_params m
unfolding total_params whole_model_params
dense_total m q =
    let none_dense : n_dense_ffn_layers m ≡ 0 = dense_layers m q in
    let c : (n_dense_ffn_layers m == 0) ≡ true = ground arith in rw c refl

-- The parameters on a chip times the denominator are at least those of the model.
dense_params_le :
    (m : ModelSpec) (dep : Deployment)
    → m.moe ≡ none
    → 0 < dep.pp
    → 0 < dep.adp
    → total_params m ≤ (weight_params m dep m.moe).over
unfolding weight_params
dense_params_le m dep q pp adp =
    let both = product_pos dep.adp dep.pp adp pp in
    let e = dense_total m q in
    let a = le-mul (embedding_params m) (dep.adp * dep.pp) both in
    let b = le-mul (m.n_layers * attn_params m) dep.adp adp in
    let sum_le : total_params m ≤ (weight_params m dep none).over = omega arith in
    subst (λ o. total_params m ≤ (weight_params m dep o).over) (sym q) sum_le

-- The chips of a replica of a dense model, on positive degrees of parallelism, hold together at least
-- the bytes of all weights.
pub weight_bytes_held :
    (m : ModelSpec) (dep : Deployment)
    → m.moe ≡ none
    → 0 < dep.pp
    → 0 < dep.ep
    → 0 < dep.adp
    → let held = weight_bytes_per_chip m dep in
      weight_bytes m dep.weight_dtype * held.under ≤ held.over * replica_chips dep
unfolding weight_bytes weight_bytes_per_chip replica_chips weight_params
weight_bytes_held m dep q pp ep adp =
    let params = dense_params_le m dep q pp adp in
    let w = quarter_bytes dep.weight_dtype in
    let bytes =
      mul-le-mul_right {m = total_params m} {n = (weight_params m dep m.moe).over} w params in
    let chips : (weight_params m dep m.moe).under ≤ dep.tp * dep.pp * dep.ep * dep.adp =
      subst (λ o. (weight_params m dep o).under ≤ dep.tp * dep.pp * dep.ep * dep.adp) (sym q)
        (under_le dep ep) in
    mul-le-mul bytes chips
  where
    under_le :
        (dep : Deployment)
        → 0 < dep.ep
        → dep.tp * dep.adp * dep.pp ≤ dep.tp * dep.pp * dep.ep * dep.adp
    under_le dep ep = let more = le-mul (dep.tp * dep.adp * dep.pp) dep.ep ep in omega arith
