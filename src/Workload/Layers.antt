-- ===== src/Workload/Layers.antt =====
-- The counts of a model, against sums over its layers.
use native.Mathlib.Nat.{
  div-add-mod, mod-lt, mul-le-mul_right, mul-le-mul_left, le-div_iff_mul-le, div-lt_iff_lt-mul,
}
use inferencesim.Prelude.{
  ℕ, zero, suc, ◌+◌, ◌-◌, ◌*◌, ◌/◌, ◌%◌, ◌≡◌, ◌≤◌, ◌<◌, refl, ◌∙◌, sym, ap, Bool, true, false,
  Option, none, some, ltb, ◌==◌, if◌then◌else◌, arith, Bool-cases, Option-cases, inl, inr, lt→ltb,
}
use inferencesim.Workload.Moe.{MoeConfig}
use inferencesim.Workload.Model.{
  ModelSpec, MlaConfig, checked, make_model, swa_layers, n_swa_layers, attn_params,
  dense_ffn_params, expert_params, ffn_matrices, ffn_params_total, ffn_params_active,
  embedding_params, n_dense_ffn_layers, whole_model_params, total_params, active_params,
}

-- The sum over the layers below `n`.
abbrev pub sum_layers : (ℕ → ℕ) → ℕ → ℕ
sum_layers f zero = 0
sum_layers f (suc n) = sum_layers f n + f n

abbrev pub picks : Option ℕ → ℕ → ℕ → Bool
picks none every i = false
picks (some w) every i = i % every == 0

-- "Layer `i` is windowed iff `i % swa_every == 0`", which asks for a window.
abbrev pub is_windowed : ModelSpec → ℕ → Bool
is_windowed m = picks m.swa_window m.swa_every

-- The FFN that layer `i` has: the first `n_dense_layers` are dense.
abbrev pub layer_params : ModelSpec → ℕ → ℕ
layer_params m i =
    attn_params m
    + (if ltb i (n_dense_ffn_layers m) then dense_ffn_params m else ffn_params_total m)

div_unique : (n k q r : ℕ) → r < k → n ≡ k * q + r → n / k ≡ q
div_unique n k q r h e =
    let low = (le-div_iff_mul-le {k = k} {x = q} {y = n} (omega arith)).1 (omega arith) in
    let high = (div-lt_iff_lt-mul {k = k} {x = n} {y = suc q} (omega arith)).1 (omega arith) in
    omega arith

-- A quotient that is rounded up grows at each multiple of the divisor.
ceil_step :
    (n k : ℕ) → 0 < k → (suc n + k - 1) / k ≡ (n + k - 1) / k + (if n % k == 0 then 1 else 0)
ceil_step n k h =
    let q = n / k in
    let r = n % k in
    let whole : k * q + r ≡ n = div-add-mod n k in
    let lt : r < k = mod-lt n h in
    let next = div_unique (suc n + k - 1) k (suc q) r lt (omega arith) in
    elim (Bool-cases (r == 0)) [
      | inl c ↦
          let z : r ≡ 0 = ground arith in
          let now = div_unique (n + k - 1) k q (k - 1) (omega arith) (omega arith) in
          rw c (omega arith)
      | inr c ↦
          let z : 0 < r = ground arith in
          let now = div_unique (n + k - 1) k (suc q) (r - 1) (omega arith) (omega arith) in
          rw c (omega arith)
    ]

ceil_count : (k n : ℕ) → 0 < k → (n + k - 1) / k ≡ sum_layers (λ i. if i % k == 0 then 1 else 0) n
ceil_count k zero h = div_unique (0 + k - 1) k 0 (k - 1) (omega arith) (omega arith)
ceil_count k (suc n) h =
    ceil_step n k h ∙ ap (λ x. x + (if n % k == 0 then 1 else 0)) (ceil_count k n h)

sum_layers_none : (n : ℕ) → sum_layers (λ _. 0) n ≡ 0
sum_layers_none zero = refl
sum_layers_none (suc n) = omega (arith, sum_layers_none n)

swa_layers-count :
    (a : Option MlaConfig) (o : Option ℕ) (every n : ℕ)
    → checked a o every ≡ true
    → swa_layers o every n ≡ sum_layers (λ i. if picks o every i then 1 else 0) n
unfolding checked swa_layers
swa_layers-count a none every n h = sym (sum_layers_none n)
swa_layers-count (some a) (some w) every n h = cc
swa_layers-count none (some w) every n h =
    let c : ltb every 1 ≡ false = ground arith in
    let pos : 0 < every = ground arith in rw c (ceil_count every n pos)

pub if-some : {A : Type 0} (b : Bool) (x : A) → (if b then some x else none) ≡ some x → b ≡ true
if-some true x h = refl
if-some false x h = cc

-- For a model that passed its check, the number of windowed layers is that of the layers that the
-- rule picks.
pub n_swa_layers-count :
    (m : ModelSpec)
    → make_model m ≡ some m
    → n_swa_layers m ≡ sum_layers (λ i. if is_windowed m i then 1 else 0) m.n_layers
unfolding make_model n_swa_layers
n_swa_layers-count m h =
    swa_layers-count m.mla m.swa_window m.swa_every m.n_layers
      (if-some (checked m.mla m.swa_window m.swa_every) m h)

-- The layers that start with `nd` others, `a` being common to all.
module _ (a d r nd : ℕ) where
  abbrev mixed : ℕ → ℕ
  mixed i = a + (if ltb i nd then d else r)

  mixed_first : (n : ℕ) → n ≤ nd → sum_layers mixed n ≡ n * (a + d)
  mixed_first zero h = omega arith
  mixed_first (suc n) h =
      let c = lt→ltb n nd (omega arith) in rw c (omega (arith, mixed_first n (omega arith)))

  mixed_sum : (k n : ℕ) → nd + k ≡ n → sum_layers mixed n ≡ nd * (a + d) + k * (a + r)
  mixed_sum zero n e =
      let e' : n ≡ nd = omega arith in rw e' (omega (arith, mixed_first nd (omega arith)))
  mixed_sum (suc k) zero e = absurd (omega arith)
  mixed_sum (suc k) (suc n) e =
      let c : ltb n nd ≡ false = ground arith in rw c (omega (arith, mixed_sum k n (omega arith)))

-- If the dense layers are at most all of them, the parameters of a model are those of its layers, one
-- by one, and of the embeddings.
pub total_params-layers :
    (m : ModelSpec)
    → n_dense_ffn_layers m ≤ m.n_layers
    → total_params m ≡ sum_layers (layer_params m) m.n_layers + embedding_params m
unfolding total_params whole_model_params
total_params-layers m h =
    let nd = n_dense_ffn_layers m in
    let a = attn_params m in
    let d = dense_ffn_params m in
    let r = ffn_params_total m in
    let all = mixed_sum a d r nd (m.n_layers - nd) m.n_layers (omega arith) in
    elim (Bool-cases (nd == 0)) [
      | inl c ↦
          let z : nd ≡ 0 = ground arith in
          let none_dense : nd * (a + d) ≡ 0 = rw z (omega arith) in
          let rest : m.n_layers - nd ≡ m.n_layers = omega arith in
          let all' = rw rest at all in rw c (omega arith)
      | inr c ↦ rw c (omega arith)
    ]

-- A token uses at most all of a layer's FFN.
active_le_total :
    (m : ModelSpec)
    → ((e : MoeConfig) → m.moe ≡ some e → e.top_k ≤ e.n_experts)
    → ffn_params_active m ≤ ffn_params_total m
unfolding ffn_params_active ffn_params_total expert_params ffn_matrices
active_le_total m h = elim (Option-cases m.moe) [
  | inl q ↦ rw q (omega arith)
  | inr (e, q) ↦
      let le = mul-le-mul_right {m = e.top_k} {n = e.n_experts} (expert_params m e) (h e q) in
      rw q (omega arith)
]

-- The parameters that a token uses are at most all of them, if it picks at most all experts.
pub active_params_le :
    (m : ModelSpec)
    → ((e : MoeConfig) → m.moe ≡ some e → e.top_k ≤ e.n_experts)
    → active_params m ≤ total_params m
unfolding active_params total_params whole_model_params
active_params_le m h =
    let nd = n_dense_ffn_layers m in
    let a = attn_params m in
    let fewer : ffn_params_active m ≤ ffn_params_total m = active_le_total m h in
    let le : a + ffn_params_active m ≤ a + ffn_params_total m = omega arith in
    let all =
      mul-le-mul_left {m = a + ffn_params_active m} {n = a + ffn_params_total m} m.n_layers le in
    let some_of =
      mul-le-mul_left {m = a + ffn_params_active m} {n = a + ffn_params_total m} (m.n_layers - nd)
        le in
    elim (Bool-cases (nd == 0)) [ inl c ↦ rw c (omega arith) | inr c ↦ rw c (omega arith) ]
