-- ===== src/Disagg/Replicas.antt =====
-- Lemmas on the replacement of one replica of a pool, and on the loops over a pool.
use inferencesim.Prelude.{
  ℕ, zero, suc, ◌+◌, ◌≡◌, refl, sym, ap, subst, List, [], ◌∷◌, some, sum, arith, get_elem?, length,
  All,
}
use mathlib.Core.Option.{none-ne-some, some-injective}
use inferencesim.Disagg.State.{set_nth, for_range}

module _ {A : Type 0} where
  pub sum-set_nth :
      (f : A → ℕ) (xs : List A) (i : ℕ) (x y : A)
      → get_elem? xs i ≡ some y
      → sum f (set_nth xs i x) + f y ≡ sum f xs + f x
  unfolding set_nth
  sum-set_nth f [] i x y e = absurd (none-ne-some y e)
  sum-set_nth f (z ∷ xs) zero x y e = let h : f z ≡ f y = ap f (some-injective z y e) in omega arith
  sum-set_nth f (z ∷ xs) (suc i) x y e = omega (arith, sum-set_nth f xs i x y e)

  pub length-set_nth : (xs : List A) (i : ℕ) (x : A) → length (set_nth xs i x) ≡ length xs
  unfolding set_nth
  length-set_nth [] i x = refl
  length-set_nth (z ∷ xs) zero x = refl
  length-set_nth (z ∷ xs) (suc i) x = ap suc (length-set_nth xs i x)

  pub get_elem?-set_nth :
      (xs : List A) (i : ℕ) (x y : A)
      → get_elem? xs i ≡ some y
      → get_elem? (set_nth xs i x) i ≡ some x
  unfolding set_nth
  get_elem?-set_nth [] i x y e = absurd (none-ne-some y e)
  get_elem?-set_nth (z ∷ xs) zero x y e = refl
  get_elem?-set_nth (z ∷ xs) (suc i) x y e = get_elem?-set_nth xs i x y e

  pub set_nth_same : (xs : List A) (i : ℕ) (x : A) → get_elem? xs i ≡ some x → set_nth xs i x ≡ xs
  unfolding set_nth
  set_nth_same [] i x e = refl
  set_nth_same (z ∷ xs) zero x e = ap (λ y. y ∷ xs) (sym (some-injective z x e))
  set_nth_same (z ∷ xs) (suc i) x e = ap (λ zs. z ∷ zs) (set_nth_same xs i x e)

  pub set_nth_twice :
      (xs : List A) (i : ℕ) (x y : A) → set_nth (set_nth xs i x) i y ≡ set_nth xs i y
  unfolding set_nth
  set_nth_twice [] i x y = refl
  set_nth_twice (z ∷ xs) zero x y = refl
  set_nth_twice (z ∷ xs) (suc i) x y = ap (λ zs. z ∷ zs) (set_nth_twice xs i x y)

  pub All-set_nth :
      (P : A → Type 0) (xs : List A) (i : ℕ) (x : A) → All P xs → P x → All P (set_nth xs i x)
  unfolding set_nth
  All-set_nth P [] i x h q = h
  All-set_nth P (z ∷ xs) zero x (h, hs) q = (q, hs)
  All-set_nth P (z ∷ xs) (suc i) x (h, hs) q = (h, All-set_nth P xs i x hs q)

  pub All-get_elem? :
      (P : A → Type 0) (xs : List A) (i : ℕ) (x : A) → All P xs → get_elem? xs i ≡ some x → P x
  All-get_elem? P [] i x h e = absurd (none-ne-some x e)
  All-get_elem? P (z ∷ xs) zero x (h, hs) e = subst P (some-injective z x e) h
  All-get_elem? P (z ∷ xs) (suc i) x (h, hs) e = All-get_elem? P xs i x hs e

-- What relates each state to the next of a loop, relates the first to the last.
pub for_range_rule :
    {A : Type 0} (R : A → A → Type 0) (body : ℕ → A → A) (k i : ℕ) (s : A)
    → ((t : A) → R t t)
    → ((t u v : A) → R t u → R u v → R t v)
    → ((j : ℕ) (t : A) → R t (body j t))
    → R s (for_range body k i s)
unfolding for_range
for_range_rule R body zero i s same trans h = same s
for_range_rule R body (suc k) i s same trans h =
    trans _ _ _ (h i s) (for_range_rule R body k (i + 1) (body i s) same trans h)
