-- ===== src/Prelude/Options.antt =====
-- Results that may be an error: `none` ends a chain.
use Prim.Native.Nat.{suc}
use mathlib.Core.Path.{◌≡◌, refl, sym, ap, ◌∙◌}
use mathlib.Core.Option.{Option, none, some, none-ne-some, some-injective}
use mathlib.Core.List.{List, [], ◌∷◌}
use inferencesim.Prelude.Lists.{length, All}

infixl 10 ◌>>=◌
abbrev pub ◌>>=◌ {ℓ κ} : {A : Type ℓ} {B : Type κ} → Option A → (A → Option B) → Option B
none >>= f = none
some a >>= f = f a

-- A chain that has a result has one at each of its steps.
pub bind-some {ℓ κ} :
    {A : Type ℓ} {B : Type κ} (o : Option A) (f : A → Option B) (b : B)
    → (o >>= f) ≡ some b
    → (a : A) × (o ≡ some a) × (f a ≡ some b)
bind-some none f b h = absurd (none-ne-some b h)
bind-some (some a) f b h = (a, refl, h)

module _ {A B : Type 0} where
  -- `[f(x) for x in xs]` where `f` may raise.
  abbrev pub traverse : (A → Option B) → List A → Option (List B)
  traverse f [] = some []
  traverse f (x ∷ xs) = do y ← f x; ys ← traverse f xs; some (y ∷ ys)

  pub traverse-All :
      (f : A → Option B) (xs : List A)
      → All (λ x. (y : B) × (f x ≡ some y)) xs
      → (ys : List B) × (traverse f xs ≡ some ys) × (length ys ≡ length xs)
  traverse-All f [] h = ([], refl, refl)
  traverse-All f (x ∷ xs) ((y, e), hs) =
      let (ys, es, l) = traverse-All f xs hs in (y ∷ ys, rw (e, es) refl, ap suc l)

  pub length-traverse :
      (f : A → Option B) (xs : List A) (ys : List B)
      → traverse f xs ≡ some ys
      → length ys ≡ length xs
  length-traverse f [] ys h = ap length (sym (some-injective [] ys h))
  length-traverse f (x ∷ xs) ys h =
      let (y, e, h1) = bind-some (f x) _ ys h in
      let (zs, es, h2) = bind-some (traverse f xs) _ ys h1 in
      ap length (sym (some-injective (y ∷ zs) ys h2)) ∙ ap suc (length-traverse f xs zs es)
