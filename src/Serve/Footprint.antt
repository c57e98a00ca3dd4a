-- ===== src/Serve/Footprint.antt =====
-- inferencesim/serve.py: `_kv_accounting`, against the KV of a sequence on a chip.
use native.Mathlib.Nat.{mul-div_cancel}
use inferencesim.Prelude.{
  ℕ, zero, suc, ◌+◌, ◌-◌, ◌*◌, ◌/◌, min, ◌≡◌, ◌≤◌, ◌<◌, refl, ◌∙◌, sym, ap, Bool, true, false, not,
  Option, none, some, ltb, ◌==◌, if◌then◌else◌, arith, Bool-cases, inl, inr, ltb→lt,
}
use inferencesim.Workload.Model.{
  ModelSpec, MlaConfig, make_model, checked, n_swa_layers, swa_layers, n_full_attn_layers,
  Deployment,
}
use inferencesim.Workload.Layers.{sum_layers, is_windowed, n_swa_layers-count, if-some}
use inferencesim.Ops.{window_of, per_layer, cached_layers, kv_fraction, kv_cache_bytes_per_chip}
use inferencesim.Serve.Kv.{KvModel, kv_bytes}

-- `_kv_accounting`, in units of one over the denominator.
unfoldable pub kv_accounting : ModelSpec → Deployment → KvModel
kv_accounting m dep =
    let kpt = (kv_cache_bytes_per_chip m 1 dep).over in
    let swa = n_swa_layers m in
    record {
      kv_per_token = kpt;
      swa = not (swa == 0);
      window = window_of m.swa_window;
      swa_share = if swa == 0 then 0 else kpt * swa / m.n_layers;
    }

count_le : (q : ℕ → Bool) (n : ℕ) → sum_layers (λ i. if q i then 1 else 0) n ≤ n
count_le q zero = omega arith
count_le q (suc n) = elim (Bool-cases (q n)) [
  | inl c ↦ rw c (omega (arith, count_le q n))
  | inr c ↦ rw c (omega (arith, count_le q n))
]

windowed_bytes : (P f s W e : ℕ) → (W + e) * (P * (f + s)) - e * (P * s) ≡ P * (f * (W + e) + s * W)
windowed_bytes P f s W e = omega arith

-- Latent attention has no windowed layers.
latent_unwindowed :
    (a : MlaConfig) (o : Option ℕ) (every n : ℕ)
    → checked (some a) o every ≡ true
    → swa_layers o every n ≡ 0
unfolding checked swa_layers
latent_unwindowed a none every n h = refl
latent_unwindowed a (some w) every n h = cc

split_le : (L s n : ℕ) → s ≤ L → (L - s) * n + s * n ≡ L * n
split_le L s n b =
    let sums : L - s + s ≡ L = omega arith in
    let ring : (L - s + s) * n ≡ (L - s) * n + s * n = omega arith in
    sym ring ∙ ap (λ x. x * n) sums

-- The two footprints, on the numbers that they are made of.
windowed_agrees :
    (P L s W ctx : ℕ)
    → 0 < s
    → s ≤ L
    → 0 < W
    → let kpt = P * ((L - s) * 1 + s * min 1 W) in
      (if ltb W ctx then ctx * kpt - (ctx - W) * (kpt * s / L) else ctx * kpt)
      ≡ P * ((L - s) * ctx + s * min ctx W)
windowed_agrees P L s W ctx a b c =
    let one : min 1 W ≡ 1 = omega arith in
    let all : (L - s) * 1 + s * 1 ≡ L = omega arith in
    let flat : P * L * s ≡ P * s * L = omega arith in
    let share : P * L * s / L ≡ P * s =
      ap (λ x. x / L) flat ∙ mul-div_cancel (P * s) (omega arith) in
    rw (one, all, share)
      (elim (Bool-cases (ltb W ctx)) [
        | inl d ↦
            let lt = ltb→lt W ctx d in
            let cap : min ctx W ≡ W = omega arith in
            let sums : L - s + s ≡ L = omega arith in
            let parts : W + (ctx - W) ≡ ctx = omega arith in
            let ring = rw (sums, parts) at (windowed_bytes P (L - s) s W (ctx - W)) in
            rw (d, cap) ring
        | inr d ↦
            let cap : min ctx W ≡ ctx = ground arith in
            let whole : (L - s) * ctx + s * ctx ≡ L * ctx = split_le L s ctx b in
            rw (d, cap, whole) (omega arith)
      ])

window_pos :
    (o : Option ℕ) (every n : ℕ)
    → 0 < swa_layers o every n
    → ((w : ℕ) → o ≡ some w → 0 < w)
    → 0 < window_of o
unfolding swa_layers window_of
window_pos none every n p h = absurd (omega arith)
window_pos (some w) every n p h = h w refl

module _ (m : ModelSpec) (dep : Deployment) (ctx : ℕ) where
  unwindowed_agrees :
      (o : Option MlaConfig)
      → (n_swa_layers m == 0) ≡ true
      → ctx * (kv_fraction m 1 dep o).over ≡ (kv_fraction m ctx dep o).over
  unfolding kv_fraction cached_layers
  unwindowed_agrees none z = rw z (omega arith)
  unwindowed_agrees (some a) z = omega arith

  sliding_agrees :
      (o : Option MlaConfig)
      → checked o m.swa_window m.swa_every ≡ true
      → (n_swa_layers m == 0) ≡ false
      → n_swa_layers m ≤ m.n_layers
      → 0 < window_of m.swa_window
      → let kpt = (kv_fraction m 1 dep o).over in
        let W = window_of m.swa_window in
        (if ltb W ctx
          then ctx * kpt - (ctx - W) * (kpt * n_swa_layers m / m.n_layers)
          else ctx * kpt)
        ≡ (kv_fraction m ctx dep o).over
  unfolding kv_fraction cached_layers n_full_attn_layers n_swa_layers
  sliding_agrees none k nz le pos =
      let some_layers : 0 < n_swa_layers m = ground arith in
      rw nz (
        windowed_agrees (per_layer m dep) m.n_layers (n_swa_layers m) (window_of m.swa_window) ctx
          some_layers le pos)
  sliding_agrees (some a) k nz le pos =
      let none_at_all : n_swa_layers m ≡ 0 =
        latent_unwindowed a m.swa_window m.swa_every m.n_layers k in
      let some_layers : 0 < n_swa_layers m = ground arith in absurd (omega arith)

-- For a model that passed its check and whose window, if there is one, is positive, the footprint
-- that `serve` computes from the KV of one token is the KV of the sequence on a chip.
pub kv_accounting_agrees :
    (m : ModelSpec) (dep : Deployment) (ctx : ℕ)
    → make_model m ≡ some m
    → ((w : ℕ) → m.swa_window ≡ some w → 0 < w)
    → kv_bytes (kv_accounting m dep) ctx ≡ (kv_cache_bytes_per_chip m ctx dep).over
unfolding kv_bytes kv_accounting kv_cache_bytes_per_chip n_swa_layers make_model
kv_accounting_agrees m dep ctx c h = elim (Bool-cases (n_swa_layers m == 0)) [
  | inl z ↦ rw z (unwindowed_agrees m dep ctx m.mla z)
  | inr nz ↦
      let count = n_swa_layers-count m c in
      let le = count_le (is_windowed m) m.n_layers in
      let some_layers : 0 < n_swa_layers m = ground arith in
      rw nz (
        sliding_agrees m dep ctx m.mla (if-some (checked m.mla m.swa_window m.swa_every) m c) nz
          (omega arith) (window_pos m.swa_window m.swa_every m.n_layers some_layers h))
]
