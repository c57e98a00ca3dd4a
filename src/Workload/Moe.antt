-- ===== src/Workload/Moe.antt =====
-- inferencesim/workload.py: `MoEConfig`, the experts and the members that own them. The popularity of
-- the experts, a power law over floats, is a list of parts of its sum, one for each expert.
use inferencesim.Prelude.{
  ℕ, zero, suc, ◌+◌, ◌-◌, ◌*◌, ◌/◌, ◌%◌, Bool, List, [], ◌∷◌, Option, none, some, ltb,
  if◌then◌else◌, max, map, sum, get_elem?,
}
use inferencesim.Prelude

pub record MoeConfig : Type 0 where
  pub n_experts : ℕ
  pub top_k : ℕ
  pub d_ff_expert : ℕ
  pub d_ff_shared : ℕ
  pub n_dense_layers : ℕ
  pub popularity : List ℕ

module _ {A : Type 0} where
  abbrev pub take : ℕ → List A → List A
  take zero xs = []
  take (suc n) [] = []
  take (suc n) (x ∷ xs) = x ∷ take n xs

  abbrev pub drop : ℕ → List A → List A
  drop zero xs = xs
  drop (suc n) [] = []
  drop (suc n) (x ∷ xs) = drop n xs

-- `sum(pop[a:b])`
unfoldable pub slice_sum : List ℕ → ℕ × ℕ → ℕ
slice_sum pop (a, b) = sum (λ x. x) (take (b - a) (drop a pop))

-- The loop of `_member_blocks`: `left` members from `i` on, from expert `start`.
unfoldable pub blocks_from : (base extra left i start : ℕ) → List (ℕ × ℕ)
blocks_from base extra zero i start = []
blocks_from base extra (suc left) i start =
    let size = base + (if ltb i extra then 1 else 0) in
    (start, start + size) ∷ blocks_from base extra left (i + 1) (start + size)

unfoldable pub member_blocks : MoeConfig → ℕ → List (ℕ × ℕ)
member_blocks m n_members =
    blocks_from (m.n_experts / n_members) (m.n_experts % n_members) n_members 0 0

unfoldable pub member_popularity : MoeConfig → ℕ → List ℕ
member_popularity m n_members = Prelude.map (slice_sum m.popularity) (member_blocks m n_members)

-- `none` is the IndexError of a member that is not there.
unfoldable pub tokens_to_member : MoeConfig → (member n_tokens n_members : ℕ) → Option ℕ
tokens_to_member m member n_tokens n_members =
    elim (get_elem? (member_popularity m n_members) member) [
      | none ↦ none
      | some p ↦ some (p * n_tokens * m.top_k)
    ]

-- `max` of a list; Python raises on the empty one, of which 0 stands here.
unfoldable pub greatest : List ℕ → ℕ
greatest [] = 0
greatest (x ∷ xs) = max x (greatest xs)

unfoldable pub hot_member_factor : MoeConfig → ℕ → ℕ
hot_member_factor m n_members = greatest (member_popularity m n_members) * n_members
