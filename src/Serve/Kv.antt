-- ===== src/Serve/Kv.antt =====
-- inferencesim/serve.py: `_kv_accounting`, the KV footprint of one sequence on a chip. Bytes are
-- whole numbers of a unit in which `kv_per_token` and `swa_share` are whole.
use inferencesim.Prelude.{
  ℕ, zero, suc, ◌+◌, ◌-◌, ◌*◌, ◌≤◌, ◌≡◌, ◌∙◌, ap, Bool, true, ◌&&◌, leb, ltb, arith, if◌then◌else◌,
}
use native.Mathlib.Nat.{mul-le-mul, add-zero, le_refl}

-- `swa` says that there are windowed layers, `swa_share` is their part of `kv_per_token`.
pub record KvModel : Type 0 where
  pub kv_per_token : ℕ
  pub swa : Bool
  pub window : ℕ
  pub swa_share : ℕ

unfoldable pub kv_bytes : KvModel → ℕ → ℕ
kv_bytes k ctx =
    if k.swa && ltb k.window ctx
    then ctx * k.kv_per_token - (ctx - k.window) * k.swa_share
    else ctx * k.kv_per_token

unfoldable pub kv_grow : KvModel → ℕ → ℕ
kv_grow k ctx = if k.swa && leb k.window ctx then k.kv_per_token - k.swa_share else k.kv_per_token

-- The windowed layers are some of the layers.
pub record IsKvModel (k : KvModel) : Type 0 where
  pub share_le : k.swa_share ≤ k.kv_per_token

pub kv_bytes-zero : (k : KvModel) → kv_bytes k 0 ≡ 0
unfolding kv_bytes
kv_bytes-zero k = ground arith

over_suc : (x t : ℕ) → (x + 1) * t ≡ x * t + t
over_suc x t = omega arith

over_zero : (t : ℕ) → 0 * t ≡ 0
over_zero t = omega arith

-- The footprint after one more token is the old one and the growth.
pub kv_bytes-suc :
    (k : KvModel) (ctx : ℕ) → IsKvModel k → kv_bytes k (ctx + 1) ≡ kv_bytes k ctx + kv_grow k ctx
unfolding kv_bytes kv_grow
kv_bytes-suc k ctx v =
    let W = k.window in
    let t = k.swa_share in
    let below : (ctx - W) * t ≤ ctx * k.kv_per_token = mul-le-mul (omega arith) v.share_le in
    let next : leb W ctx ≡ true → (ctx + 1 - W) * t ≡ (ctx - W) * t + t =
      λ h. ap (λ (x : ℕ). x * t) (ground arith) ∙ over_suc (ctx - W) t in
    let none_yet : leb ctx W ≡ true → (ctx - W) * t ≡ 0 =
      λ h. ap (λ (x : ℕ). x * t) (ground arith) ∙ over_zero t in
    ground (arith, v.share_le)

kv_bytes-le-add : (k : KvModel) (a d : ℕ) → IsKvModel k → kv_bytes k a ≤ kv_bytes k (a + d)
kv_bytes-le-add k a zero v = rw add-zero (le_refl _)
kv_bytes-le-add k a (suc d) v =
    let e : a + suc d ≡ a + d + 1 = omega arith in
    rw e (omega (arith, kv_bytes-le-add k a d v, kv_bytes-suc k (a + d) v))

-- A longer context never takes fewer bytes.
pub kv_bytes_mono : (k : KvModel) (a b : ℕ) → IsKvModel k → a ≤ b → kv_bytes k a ≤ kv_bytes k b
kv_bytes_mono k a b v h =
    let e : b ≡ a + (b - a) = omega arith in rw e (kv_bytes-le-add k a (b - a) v)
