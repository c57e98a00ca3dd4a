-- ===== src/Prelude/Sums.antt =====
-- Sums of a weight over a list, and what removal and replacement do to them.
use Prim.Native.Nat.{ℕ, suc, ◌+◌, ◌≤◌}
use mathlib.Core.Path.{◌≡◌, refl, sym, ap, ◌∙◌}
use mathlib.Core.Bool.{Bool, false, not}
use inferencesim.Prelude.Tests.{Bool-cases}
use mathlib.Core.Logic.{inl, inr, ite}
use mathlib.Core.List.{List, [], ◌∷◌, ◌++◌}
use native.Mathlib.Omega.{arith}
use inferencesim.Prelude.Lists.{length, In, All, filter}

module _ {ℓ} {A : Type ℓ} where
  -- `sum(f(x) for x in xs)`
  abbrev pub sum : (A → ℕ) → List A → ℕ
  sum f [] = 0
  sum f (x ∷ xs) = f x + sum f xs

  pub sum-append : (f : A → ℕ) (xs ys : List A) → sum f (xs ++ ys) ≡ sum f xs + sum f ys
  sum-append f [] ys = omega arith
  sum-append f (x ∷ xs) ys = omega (arith, sum-append f xs ys)

  pub sum_mono : (f g : A → ℕ) (xs : List A) → All (λ x. f x ≤ g x) xs → sum f xs ≤ sum g xs
  sum_mono f g [] h = omega arith
  sum_mono f g (x ∷ xs) (h, hs) = omega (arith, sum_mono f g xs hs)

module _ {A : Type 0} where
  pub le-sum-In : (f : A → ℕ) (v : A) (xs : List A) → In v xs → f v ≤ sum f xs
  le-sum-In f v [] m = absurd m
  le-sum-In f v (x ∷ xs) (inl e) = let h : f x ≡ f v = ap f e in omega arith
  le-sum-In f v (x ∷ xs) (inr m) = omega (arith, le-sum-In f v xs m)

module _ {A : Type 0} (same : Discrete A) where
  -- `xs.remove(v)`: the first element equal to `v` goes.
  abbrev pub remove : A → List A → List A
  remove v [] = []
  remove v (x ∷ xs) = ite (same x v) xs (x ∷ remove v xs)

  -- The element that equals `v` is now `w`: an update in place of a shared object.
  abbrev pub replace : A → A → List A → List A
  replace v w [] = []
  replace v w (x ∷ xs) = ite (same x v) (w ∷ xs) (x ∷ replace v w xs)

  pub sum-remove :
      (f : A → ℕ) (v : A) (xs : List A) → In v xs → sum f xs ≡ f v + sum f (remove v xs)
  sum-remove f v [] m = absurd m
  sum-remove f v (x ∷ xs) m =
      elim (same x v) as (λ d. f x + sum f xs ≡ f v + sum f (ite d xs (x ∷ remove v xs))) [
        | yes e ↦ let h : f x ≡ f v = ap f e in omega arith
        | no n ↦ elim m [ inl e ↦ absurd (n e) | inr m' ↦ omega (arith, sum-remove f v xs m') ]
      ]

  pub sum-replace :
      (f : A → ℕ) (v w : A) (xs : List A) → In v xs → sum f (replace v w xs) + f v ≡ sum f xs + f w
  sum-replace f v w [] m = absurd m
  sum-replace f v w (x ∷ xs) m =
      elim (same x v)
        as (λ d. sum f (ite d (w ∷ xs) (x ∷ replace v w xs)) + f v ≡ f x + sum f xs + f w) [
          | yes e ↦ let h : f x ≡ f v = ap f e in omega arith
          | no n ↦ elim m [ inl e ↦ absurd (n e) | inr m' ↦ omega (arith, sum-replace f v w xs m') ]
        ]

  -- Removing the elements of `rs` one after another finds each of them.
  abbrev pub Removable : List A → List A → Type 0
  Removable [] xs = Unit
  Removable (r ∷ rs) xs = In r xs × Removable rs (remove r xs)

  pub All-remove : (P : A → Type 0) (v : A) (xs : List A) → All P xs → All P (remove v xs)
  All-remove P v [] h = h
  All-remove P v (x ∷ xs) (h, hs) = elim (same x v) as (λ d. All P (ite d xs (x ∷ remove v xs))) [
    | yes e ↦ hs
    | no n ↦ (h, All-remove P v xs hs)
  ]

  pub All-replace :
      (P : A → Type 0) (v w : A) (xs : List A) → All P xs → P w → All P (replace v w xs)
  All-replace P v w [] h q = h
  All-replace P v w (x ∷ xs) (h, hs) q =
      elim (same x v) as (λ d. All P (ite d (w ∷ xs) (x ∷ replace v w xs))) [
        | yes e ↦ (q, hs)
        | no n ↦ (h, All-replace P v w xs hs q)
      ]

  pub length-replace : (v w : A) (xs : List A) → length (replace v w xs) ≡ length xs
  length-replace v w [] = refl
  length-replace v w (x ∷ xs) =
      elim (same x v) as (λ d. length (ite d (w ∷ xs) (x ∷ replace v w xs)) ≡ suc (length xs)) [
        | yes e ↦ refl
        | no n ↦ ap suc (length-replace v w xs)
      ]

  remove-cons_ne : (x r : A) (xs : List A) → (r ≡ x → ⊥) → remove r (x ∷ xs) ≡ x ∷ remove r xs
  remove-cons_ne x r xs n = elim (same x r) as (λ d. ite d xs (x ∷ remove r xs) ≡ x ∷ remove r xs) [
    | yes e ↦ absurd (n (sym e))
    | no _ ↦ refl
  ]

  remove-cons_self : (x : A) (xs : List A) → remove x (x ∷ xs) ≡ xs
  remove-cons_self x xs = elim (same x x) as (λ d. ite d xs (x ∷ remove x xs) ≡ xs) [
    | yes e ↦ refl
    | no n ↦ absurd (n refl)
  ]

  Removable-cons :
      (x : A) (rs xs : List A) → All (λ r. r ≡ x → ⊥) rs → Removable rs xs → Removable rs (x ∷ xs)
  Removable-cons x [] xs n h = tt
  Removable-cons x (r ∷ rs) xs (n, ns) (m, h) =
      (inr m, rw (remove-cons_ne x r xs n) (Removable-cons x rs (remove r xs) ns h))

  filter-apart :
      (q : A → Bool) (x : A) (xs : List A) → q x ≡ false → All (λ r. r ≡ x → ⊥) (filter q xs)
  filter-apart q x [] e = tt
  filter-apart q x (y ∷ ys) e = elim (Bool-cases (q y)) [
    | inl h ↦ rw h ((λ (p : y ≡ x). cc (ap q p)), filter-apart q x ys e)
    | inr h ↦ rw h (filter-apart q x ys e)
  ]

  -- What a filter keeps can be removed from the list.
  pub Removable-filter : (q : A → Bool) (xs : List A) → Removable (filter q xs) xs
  Removable-filter q [] = tt
  Removable-filter q (x ∷ xs) = elim (Bool-cases (q x)) [
    | inl h ↦ rw h (inl refl, rw (remove-cons_self x xs) (Removable-filter q xs))
    | inr h ↦
        rw h (Removable-cons x (filter q xs) xs (filter-apart q x xs h) (Removable-filter q xs))
  ]

  pub In-remove_ne : (r v : A) (xs : List A) → In r xs → (r ≡ v → ⊥) → In r (remove v xs)
  In-remove_ne r v [] m n = m
  In-remove_ne r v (x ∷ xs) m n = elim (same x v) as (λ d. In r (ite d xs (x ∷ remove v xs))) [
    | yes e ↦ elim m [ inl q ↦ absurd (n (sym q ∙ e)) | inr m' ↦ m' ]
    | no _ ↦ elim m [ inl q ↦ inl q | inr m' ↦ inr (In-remove_ne r v xs m' n) ]
  ]

  abbrev pub remove_all : List A → List A → List A
  remove_all [] xs = xs
  remove_all (r ∷ rs) xs = remove_all rs (remove r xs)

  remove_all-cons :
      (x : A) (rs xs : List A)
      → All (λ r. r ≡ x → ⊥) rs
      → remove_all rs (x ∷ xs) ≡ x ∷ remove_all rs xs
  remove_all-cons x [] xs n = refl
  remove_all-cons x (r ∷ rs) xs (n, ns) =
      rw (remove-cons_ne x r xs n) (remove_all-cons x rs (remove r xs) ns)

  -- Removing what a filter keeps leaves the rest, in order.
  pub remove_all-filter :
      (q : A → Bool) (xs : List A) → remove_all (filter q xs) xs ≡ filter (λ x. not (q x)) xs
  remove_all-filter q [] = refl
  remove_all-filter q (x ∷ xs) = elim (Bool-cases (q x)) [
    | inl h ↦ rw h (ap (remove_all (filter q xs)) (remove-cons_self x xs) ∙ remove_all-filter q xs)
    | inr h ↦ rw h (
        remove_all-cons x (filter q xs) xs (filter-apart q x xs h)
        ∙ ap (λ t. x ∷ t) (remove_all-filter q xs))
  ]
