-- ===== src/Prelude/Lists.antt =====
-- Lists measured by native numbers, membership that can be taken apart, filtering and removal.
use Prim.Native.Nat.{ℕ, zero, suc, ◌+◌}
use mathlib.Core.Path.{◌≡◌}
use mathlib.Core.Bool.{Bool, true, false}
use mathlib.Core.Logic.{◌⊎◌, inl, inr}
use mathlib.Core.List.{List, [], ◌∷◌, ◌++◌}
use mathlib.Core.Option.{Option, none, some}
use native.Mathlib.Omega.{arith}
use inferencesim.Prelude.Tests.{if◌then◌else◌, Bool-cases}

module _ {ℓ} {A : Type ℓ} where
  abbrev pub length : List A → ℕ
  length [] = 0
  length (x ∷ xs) = suc (length xs)

  abbrev pub get_elem? : List A → ℕ → Option A
  get_elem? [] i = none
  get_elem? (x ∷ xs) zero = some x
  get_elem? (x ∷ xs) (suc i) = get_elem? xs i

  pub length-append : (xs ys : List A) → length (xs ++ ys) ≡ length xs + length ys
  length-append [] ys = omega arith
  length-append (x ∷ xs) ys = omega (arith, length-append xs ys)

  -- `not xs` of Python.
  abbrev pub is_empty : List A → Bool
  is_empty [] = true
  is_empty (x ∷ xs) = false

  abbrev pub All {κ} : (A → Type κ) → List A → Type κ
  All P [] = Unit
  All P (x ∷ xs) = P x × All P xs

  pub All-append {κ} : (P : A → Type κ) (xs ys : List A) → All P xs → All P ys → All P (xs ++ ys)
  All-append P [] ys p q = q
  All-append P (x ∷ xs) ys (p, ps) q = (p, All-append P xs ys ps q)

  -- `[x for x in xs if p(x)]`
  abbrev pub filter : (A → Bool) → List A → List A
  filter p [] = []
  filter p (x ∷ xs) = if p x then x ∷ filter p xs else filter p xs

module _ {A : Type 0} where
  -- `v` stands in the list, at a place that can be found.
  abbrev pub In : A → List A → Type 0
  In v [] = ⊥
  In v (x ∷ xs) = (x ≡ v) ⊎ In v xs

  pub All-In {κ} : (P : A → Type κ) (v : A) (xs : List A) → All P xs → In v xs → P v
  All-In P v [] h m = absurd m
  All-In P v (x ∷ xs) (p, ps) (inl e) = rw e at p
  All-In P v (x ∷ xs) (p, ps) (inr m) = All-In P v xs ps m

  pub In-filter : (p : A → Bool) (v : A) (xs : List A) → In v (filter p xs) → In v xs × (p v ≡ true)
  In-filter p v [] m = absurd m
  In-filter p v (x ∷ xs) m = elim (Bool-cases (p x)) [
    | inl e ↦ elim (rw e at m) [
      | inl q ↦ (inl q, rw (← q) e)
      | inr m' ↦ let (i, h) = In-filter p v xs m' in (inr i, h)
    ]
    | inr e ↦ let (i, h) = In-filter p v xs (rw e at m) in (inr i, h)
  ]
