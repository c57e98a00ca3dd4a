-- ===== src/Sched/Heap.antt =====
-- inferencesim/sched.py: what `schedule` asks of its heaps and of its tables. A heap is a list of which
-- the least entry is taken, and a table is a function that is changed at one place.
use mathlib.Core.Logic.{ite}
use inferencesim.Prelude.{
  ℕ, ◌+◌, ◌≡◌, ◌≢◌, refl, Bool, List, [], ◌∷◌, sum, All, inl, inr, arith, if◌then◌else◌, Bool-cases,
  ◌==◌,
}

module _ {A : Type 0} (before : A → A → Bool) where
  -- `heappop` of a heap with the entry `x` and the entries `xs`.
  unfoldable pub pop_min : A → List A → A × List A
  pop_min x [] = (x, [])
  pop_min x (y ∷ ys) =
      let (m, rest) = pop_min y ys in if before x m then (x, y ∷ ys) else (m, x ∷ rest)

  -- The entry and those that are left are the entries that were there.
  pub pop_min-sum :
      (f : A → ℕ) (x : A) (xs : List A)
      → f (pop_min x xs).0 + sum f (pop_min x xs).1 ≡ f x + sum f xs
  unfolding pop_min
  pop_min-sum f x [] = refl
  pop_min-sum f x (y ∷ ys) = elim (Bool-cases (before x (pop_min y ys).0)) [
    | inl e ↦ rw e refl
    | inr e ↦ rw e (omega (arith, pop_min-sum f y ys))
  ]

  pub All-pop_min :
      (P : A → Type 0) (x : A) (xs : List A)
      → P x
      → All P xs
      → P (pop_min x xs).0 × All P (pop_min x xs).1
  unfolding pop_min
  All-pop_min P x [] p ps = (p, tt)
  All-pop_min P x (y ∷ ys) p (q, qs) = elim (Bool-cases (before x (pop_min y ys).0)) [
    | inl e ↦ rw e (p, (q, qs))
    | inr e ↦ let (m, rest) = All-pop_min P y ys q qs in rw e (m, (p, rest))
  ]

-- A table of numbers, and one by resource.
unfoldable pub set_at {ℓ} : {A : Type ℓ} → (ℕ → A) → ℕ → A → ℕ → A
set_at f k v i = if i == k then v else f i

unfoldable pub set_on : {R A : Type 0} → Discrete R → (R → A) → R → A → R → A
set_on same f r v q = ite (same q r) v (f q)

pub set_at-eq {ℓ} : {A : Type ℓ} (f : ℕ → A) (k : ℕ) (v : A) → set_at f k v k ≡ v
unfolding set_at
set_at-eq f k v = ground arith

pub set_at-ne {ℓ} : {A : Type ℓ} (f : ℕ → A) (k i : ℕ) (v : A) → i ≢ k → set_at f k v i ≡ f i
unfolding set_at
set_at-ne f k i v h = ground arith
