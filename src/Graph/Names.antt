-- ===== src/Graph/Names.antt =====
-- inferencesim/graph.py: the names of nodes and the endpoints of edges. A name stands for the text that it
-- is printed as, and `split_endpoint` for the match of `_SELECTOR_RE` on that text.
use text.Mathlib.Text.{◌==◌ as same_text}
use text.Mathlib.TextPositions.{eq_refl}
use inferencesim.Prelude.{
  ℕ, zero, suc, ◌+◌, ◌-◌, ◌≡◌, ◌≤◌, ◌<◌, refl, Bool, true, false, ◌&&◌, List, [], ◌∷◌, Option, some,
  none, String, if◌then◌else◌, ◌==◌, ltb, leb, length, All, arith,
}

pub data Selector : Type 0 where
  one : ℕ → Selector
  slice : (lo hi : ℕ) → Selector

-- `sram`, `sram[*]`, `sram[3]` or `sram[0:8]`; a name in brackets again, `sram[3][0]`, and any other text
-- that does not match.
pub data Name : Type 0 where
  plain : (base : String) → Name
  starred : (base : String) → Name
  selected : (base : String) → Selector → Name
  indexed : Name → ℕ → Name
  malformed : String → Name

-- `none` is the ValueError; without a selector, or with `*`, all instances are meant.
unfoldable pub split_endpoint : Name → Option (String × Option Selector)
split_endpoint (plain base) = some (base, none)
split_endpoint (starred base) = some (base, none)
split_endpoint (selected base sel) = some (base, some sel)
split_endpoint (indexed name i) = none
split_endpoint (malformed text) = none

-- `f"{name}[{i}]"`
unfoldable pub instance_name : Name → ℕ → Name
instance_name (plain base) i = selected base (one i)
instance_name (starred base) i = indexed (starred base) i
instance_name (selected base sel) i = indexed (selected base sel) i
instance_name (indexed name j) i = indexed (indexed name j) i
instance_name (malformed text) i = indexed (malformed text) i

unfoldable pub same_selector : Selector → Selector → Bool
same_selector (one i) (one j) = i == j
same_selector (slice a b) (slice c d) = (a == c) && (b == d)
same_selector _ _ = false

unfoldable pub same_name : Name → Name → Bool
same_name (plain a) (plain b) = same_text a b
same_name (starred a) (starred b) = same_text a b
same_name (selected a s) (selected b t) = same_text a b && same_selector s t
same_name (indexed n i) (indexed m j) = same_name n m && (i == j)
same_name (malformed a) (malformed b) = same_text a b
same_name _ _ = false

same_selector_refl : (s : Selector) → same_selector s s ≡ true
unfolding same_selector
same_selector_refl (one i) = ground arith
same_selector_refl (slice a b) = ground arith

pub same_name_refl : (n : Name) → same_name n n ≡ true
unfolding same_name
same_name_refl (plain a) = eq_refl a
same_name_refl (starred a) = eq_refl a
same_name_refl (selected a s) = rw (eq_refl a, same_selector_refl s) refl
same_name_refl (indexed n i) = rw (same_name_refl n) (ground arith)
same_name_refl (malformed a) = eq_refl a

-- `range(lo, hi)`, from its first number and its length.
unfoldable pub range : ℕ → ℕ → List ℕ
range lo zero = []
range lo (suc left) = lo ∷ range (lo + 1) left

-- `none` is the ValueError.
unfoldable pub selector_indices : Option Selector → ℕ → Option (List ℕ)
selector_indices none count = some (range 0 count)
selector_indices (some (slice lo hi)) count =
    if ltb lo hi && leb hi count then some (range lo (hi - lo)) else none
selector_indices (some (one i)) count = if ltb i count then some (i ∷ []) else none

pub length-range : (lo n : ℕ) → length (range lo n) ≡ n
unfolding range
length-range lo zero = refl
length-range lo (suc n) = omega (arith, length-range (lo + 1) n)

pub range-below : (lo n b : ℕ) → lo + n ≤ b → All (λ i. i < b) (range lo n)
unfolding range
range-below lo zero b h = tt
range-below lo (suc n) b h = (omega arith, range-below (lo + 1) n b (omega arith))
