-- ===== src/Disagg/Weights.antt =====
-- The events that a heap of `serve_disagg` has for a replica, against what the replica does.
use inferencesim.Prelude.{
  ℕ, zero, suc, ◌+◌, ◌≡◌, ◌<◌, refl, ap, Bool, true, false, List, [], ◌∷◌, Option, none, some, sum,
  arith, get_elem?, if◌then◌else◌, Bool-cases, inl, inr,
}
use mathlib.Core.Option.{none-ne-some, some-injective}
use inferencesim.Serve.Conserve.{only}
use inferencesim.Disagg.State.{
  PrefillReplica, DecodeReplica, State, Event, Tag, prefill_done, decode_done, set_nth,
}

module _ {A : Type 0} where
  -- The sum of a weight of the places and the entries of a list, whose first place is `k`.
  abbrev pub sum_at : (ℕ → A → ℕ) → ℕ → List A → ℕ
  sum_at f k [] = 0
  sum_at f k (x ∷ xs) = f k x + sum_at f (k + 1) xs

  pub sum_at-set_nth :
      (f : ℕ → A → ℕ) (k : ℕ) (xs : List A) (i : ℕ) (x y : A)
      → get_elem? xs i ≡ some y
      → sum_at f k (set_nth xs i x) + f (k + i) y ≡ sum_at f k xs + f (k + i) x
  unfolding set_nth
  sum_at-set_nth f k [] i x y e = absurd (none-ne-some y e)
  sum_at-set_nth f k (z ∷ xs) zero x y e =
      let q : f k z ≡ f k y = ap (f k) (some-injective z y e) in
      let o : k + 0 ≡ k = omega arith in rw o (omega (arith, q))
  sum_at-set_nth f k (z ∷ xs) (suc i) x y e =
      let o : k + suc i ≡ k + 1 + i = omega arith in
      let h = sum_at-set_nth f (k + 1) xs i x y e in rw o (omega (arith, h))

  sum_at_less :
      (q : A → Bool) (m k : ℕ) (xs : List A)
      → m < k
      → sum_at (λ j x. if q x then only m j else 0) k xs ≡ 0
  sum_at_less q m k [] h = refl
  sum_at_less q m k (x ∷ xs) h =
      let l = sum_at_less q m (k + 1) xs (omega arith) in ground (arith, l)

  -- A weight that is there stands at an entry.
  pub sum_at-find :
      (q : A → Bool) (i m k : ℕ) (xs : List A)
      → m ≡ k + i
      → 0 < sum_at (λ j x. if q x then only m j else 0) k xs
      → (x : A) × (get_elem? xs i ≡ some x) × (q x ≡ true)
  sum_at-find q i m k [] e h = absurd (omega arith)
  sum_at-find q zero m k (x ∷ xs) e h = elim (Bool-cases (q x)) [
    | inl c ↦ (x, refl, c)
    | inr c ↦ let l = sum_at_less q m (k + 1) xs (omega arith) in absurd (ground (arith, l))
  ]
  sum_at-find q (suc i) m k (x ∷ xs) e h =
      let l : (if q x then only m k else 0) ≡ 0 = ground arith in
      sum_at-find q i m (k + 1) xs (omega arith) (omega (arith, l))

abbrev pub filling_weight : (ℕ → ℕ) → Tag → ℕ → ℕ
filling_weight w prefill_done i = w i
filling_weight w _ i = 0

abbrev pub iterating_weight : (ℕ → ℕ) → Tag → ℕ → ℕ
iterating_weight w decode_done i = w i
iterating_weight w _ i = 0

abbrev pub is_filling : Option ℕ → Bool
is_filling none = false
is_filling (some r) = true

abbrev pub filling_at : (ℕ → ℕ) → ℕ → PrefillReplica → ℕ
filling_at w i pr = if is_filling pr.current then w i else 0

abbrev pub iterating_at : (ℕ → ℕ) → ℕ → DecodeReplica → ℕ
iterating_at w i dr = if dr.iterating then w i else 0

abbrev pub filling_events : (ℕ → ℕ) → State → ℕ
filling_events w s = sum (λ (e : Event). filling_weight w e.tag e.ref) s.heap

abbrev pub iterating_events : (ℕ → ℕ) → State → ℕ
iterating_events w s = sum (λ (e : Event). iterating_weight w e.tag e.ref) s.heap

pub record IsLive (s : State) : Type 0 where
  pub filling_eq : (w : ℕ → ℕ) → filling_events w s ≡ sum_at (filling_at w) 0 s.preps
  pub iterating_eq : (w : ℕ → ℕ) → iterating_events w s ≡ sum_at (iterating_at w) 0 s.dreps

abbrev pub Lives : State → State → Type 0
Lives s t = IsLive s → IsLive t

-- A replica that goes on to iterate, or to rest, as it did.
pub same_pool :
    (w : ℕ → ℕ) (ds : List DecodeReplica) (i : ℕ) (d dr : DecodeReplica)
    → get_elem? ds i ≡ some dr
    → d.iterating ≡ dr.iterating
    → sum_at (iterating_at w) 0 (set_nth ds i d) ≡ sum_at (iterating_at w) 0 ds
same_pool w ds i d dr g e =
    let k = sum_at-set_nth (iterating_at w) 0 ds i d dr g in
    let l : iterating_at w (0 + i) d ≡ iterating_at w (0 + i) dr =
      ap (λ b. if b then w (0 + i) else 0) e in
    omega (arith, k, l)
