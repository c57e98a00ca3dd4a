-- ===== src/Ops/Scores.antt =====
-- inferencesim/ops.py: the pairs of a query and a key that a prefill scores, whole, banded or in chunks.
use inferencesim.Prelude.{
  ℕ, zero, suc, ◌+◌, ◌-◌, ◌*◌, min, ◌≡◌, ◌≤◌, ◌<◌, sym, subst, leb, arith, Bool-cases, inl, inr,
}
use inferencesim.Ops.Lower.{banded_pairs}

-- The keys that the positions below `q` attend to, each to the last `w` of those up to itself.
abbrev pub band : ℕ → ℕ → ℕ
band w zero = 0
band w (suc q) = band w q + min (q + 1) w

past_window :
    (w e : ℕ) → (w + e + 1) * (w + e + 1) - (e + 1) * (e + 1) ≡ (w + e) * (w + e) - e * e + 2 * w
past_window w e = omega arith

-- A position more, within the window and past it.
abbrev IsBanded : (w q b : ℕ) → Type 0
IsBanded w q b = banded_pairs q w + min q w ≡ 2 * b

past-IsBanded : (w e b : ℕ) → IsBanded w (w + e) b → IsBanded w (suc (w + e)) (b + w)
unfolding banded_pairs
past-IsBanded w e b h =
    let d0 : w + e - w ≡ e = omega arith in
    let d1 : suc (w + e) - w ≡ e + 1 = omega arith in
    let low : min (w + e) w ≡ w = omega arith in
    let low' : min (suc (w + e)) w ≡ w = omega arith in
    let h' = rw (d0, low) at h in rw (d1, low') (omega (arith, h', past_window w e))

within-IsBanded : (w q b : ℕ) → q < w → IsBanded w q b → IsBanded w (suc q) (b + (q + 1))
unfolding banded_pairs
within-IsBanded w q b l h =
    let d0 : q - w ≡ 0 = omega arith in
    let d1 : suc q - w ≡ 0 = omega arith in let h' = rw d0 at h in rw d1 (omega (arith, h', l))

-- The closed form of a banded causal square counts its pairs: twice their number, less the diagonal of
-- the part within the window, which the form of the whole triangle leaves out as well.
pub banded_pairs-band : (w q : ℕ) → banded_pairs q w + min q w ≡ 2 * band w q
unfolding banded_pairs
banded_pairs-band w zero = omega arith
banded_pairs-band w (suc q) =
    let before = banded_pairs-band w q in
    elim (Bool-cases (leb w q)) [
      | inl c ↦
          let l : w ≤ q = ground arith in
          let split : q ≡ w + (q - w) = omega arith in
          let low : min (q + 1) w ≡ w = omega arith in
          let after =
            past-IsBanded w (q - w) (band w q)
              (subst (λ x. IsBanded w x (band w q)) split before) in
          rw low (subst (λ x. IsBanded w (suc x) (band w q + w)) (sym split) after)
      | inr c ↦
          let l : q < w = ground arith in
          let low : min (q + 1) w ≡ q + 1 = omega arith in
          rw low (within-IsBanded w q (band w q) l before)
    ]
