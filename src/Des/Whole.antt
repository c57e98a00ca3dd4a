-- ===== src/Des/Whole.antt =====
-- inferencesim/des.py: the whole of a decode's or a prefill's tasks.
use native.Mathlib.Nat.{div-add-mod}
use inferencesim.Prelude.{
  ℕ, zero, suc, ◌+◌, ◌*◌, ◌/◌, ◌%◌, ◌≡◌, ◌≤◌, ◌<◌, refl, ltb, ◌==◌, Option, none, some,
  if◌then◌else◌, length, List, [], ◌∷◌, ◌++◌, inl, inr, arith, All, Bool-cases, ◌>>=◌,
}
use inferencesim.Sched.Heap.{set_at}
use inferencesim.Sched.Task.{IsGraph}
use inferencesim.Collectives.Ring.{Tasks, deps_on}
use inferencesim.Collectives.Graph.{Below, Below-mono}
use inferencesim.Des.{split_layers, stages_from}
use inferencesim.Des.Stage.{LayerCosts, CommPlan}
use inferencesim.Des.Keyed.{IsKey}
use inferencesim.Des.Built.{IsWalk, HasWork, Ends, walk-IsWalk}
use inferencesim.Des.Rounds.{
  decode_hops, prefill_hops, keys_of, microbatches, round_tasks, decode_tasks, prefill_tasks,
}

-- The keys at which the microbatches go on are keys into the tasks.
abbrev Tails : ℕ → (ℕ → Option ℕ) → Type 0
Tails n tail = (m : ℕ) → Below n (deps_on (tail m))

Tails-set :
    (n : ℕ) (tail : ℕ → Option ℕ) (m : ℕ) (v : Option ℕ)
    → Tails n tail
    → Below n (deps_on v)
    → Tails n (set_at tail m v)
unfolding set_at
Tails-set n tail m v t b i = elim (Bool-cases (i == m)) [ inl c ↦ rw c b | inr c ↦ rw c (t i) ]

abbrev IsBatch : (left : ℕ) → Tasks → Option (Tasks × ((ℕ → Option ℕ) × List ℕ)) → Type 0
IsBatch left tasks none = ⊥
IsBatch left tasks (some (ts, (tail, keys))) =
    IsGraph ts
    × (length tasks ≤ length ts)
    × Tails (length ts) tail
    × Below (length ts) keys
    × (length keys ≡ left)

-- Tasks that form a graph, and for each round the keys at the end of the last stage, one for each of
-- the microbatches.
abbrev pub IsRounds : (n pp : ℕ) → Tasks → Option (Tasks × List (List ℕ)) → Type 0
IsRounds n pp tasks none = ⊥
IsRounds n pp tasks (some (ts, done)) =
    IsGraph ts
    × (length tasks ≤ length ts)
    × (length done ≡ n)
    × All (λ keys. Below (length ts) keys × (length keys ≡ pp)) done

first_layers : (pp b e n : ℕ) → pp * b + e ≡ n → 0 < n → 0 < b + (if ltb 0 e then 1 else 0)
first_layers pp zero e n q h = ground arith
first_layers pp (suc b) e n q h = ground arith

keys_cons :
    (n left : ℕ) (e : Option ℕ) (keys : List ℕ)
    → IsKey e
    → Below n (deps_on e)
    → Below n keys
    → length keys ≡ left
    → Below n (keys_of e ++ keys) × (length (keys_of e ++ keys) ≡ suc left)
keys_cons n left none keys k b bs l = absurd k
keys_cons n left (some k) keys i b bs l = ((b.0, bs), omega (arith, l))

module _ (oh : ℕ) (c : LayerCosts) (plan : CommPlan) (pp : ℕ) where
  HasWork-split :
      (n : ℕ) (prev : Option ℕ) → 0 < pp → 0 < n → HasWork oh c plan pp (split_layers n pp) prev
  unfolding split_layers stages_from
  HasWork-split n prev hp hn = stages pp n prev hp hn
    where
      stages :
          (q n : ℕ) (prev : Option ℕ) → 0 < q → 0 < n → HasWork oh c plan pp (split_layers n q) prev
      stages zero n prev hp hn = absurd (omega (arith, hp))
      stages (suc q) n prev hp hn =
          inr (first_layers (suc q) (n / suc q) (n % suc q) n (div-add-mod n (suc q)) hn)

  Ends-split : (n : ℕ) → 0 < pp → Ends oh c plan pp (split_layers n pp) none
  unfolding split_layers stages_from
  Ends-split n hp = stages pp hp
    where
      stages : (q : ℕ) → 0 < q → Ends oh c plan pp (split_layers n q) none
      stages zero h = absurd (omega (arith, h))
      stages (suc q) h = tt

  next_tasks-IsBatch :
      (left m : ℕ) (tail : ℕ → Option ℕ) (tasks : Tasks)
      (w : Option (Tasks × (Option ℕ × Option ℕ)))
      → Tails (length tasks) tail
      → IsWalk oh c plan pp tasks w
      → ((tail : ℕ → Option ℕ) (tasks : Tasks)
          → IsGraph tasks
          → Tails (length tasks) tail
          → IsBatch left tasks (microbatches oh c plan pp left (m + 1) tail tasks))
      → IsBatch (suc left) tasks (
          w >>= λ w. microbatches oh c plan pp left (m + 1) (set_at tail m w.1.0) w.0 >>= λ rest.
          some (rest.0, (rest.1.0, keys_of w.1.1 ++ rest.1.1)))
  next_tasks-IsBatch left m tail tasks none t i next = absurd i
  next_tasks-IsBatch left m tail tasks (some (ts, (prev, end_key))) t (g, b, k) next =
      later (microbatches oh c plan pp left (m + 1) (set_at tail m prev) ts) (
        next (set_at tail m prev) ts g.graph
          (Tails-set _ tail m prev (λ i. Below-mono _ _ (deps_on (tail i)) g.longer (t i)) g.below))
    where
      later :
          (r : Option (Tasks × ((ℕ → Option ℕ) × List ℕ)))
          → IsBatch left ts r
          → IsBatch
              (suc left)
              tasks
              (r >>= λ rest. some (rest.0, (rest.1.0, keys_of end_key ++ rest.1.1)))
      later none i = absurd i
      later (some (ts', (tail', keys))) (g', le, t', bs, l) =
          let (bs', l') =
            keys_cons (length ts') left end_key keys k (Below-mono _ _ (deps_on end_key) le b) bs
              l in
          (g', omega (arith, le, g.longer), t', bs', l')

  microbatches-IsBatch :
      (left m : ℕ) (tail : ℕ → Option ℕ) (tasks : Tasks)
      → 0 < pp
      → 0 < c.n_layers
      → IsGraph tasks
      → Tails (length tasks) tail
      → IsBatch left tasks (microbatches oh c plan pp left m tail tasks)
  unfolding microbatches
  microbatches-IsBatch zero m tail tasks hp hn g t = (g, omega arith, t, tt, refl)
  microbatches-IsBatch (suc left) m tail tasks hp hn g t =
      next_tasks-IsBatch left m tail tasks _ t
        (walk-IsWalk oh c plan pp (decode_hops oh c plan pp) (split_layers c.n_layers pp) 0 (tail m)
          none tasks (HasWork-split c.n_layers (tail m) hp hn) g (t m) tt
          (Ends-split c.n_layers hp))
        (λ tail' tasks' g' t'. microbatches-IsBatch left (m + 1) tail' tasks' hp hn g' t')

  more_tasks-IsRounds :
      (left : ℕ) (tasks ts : Tasks) (keys : List ℕ) (r : Option (Tasks × List (List ℕ)))
      → length tasks ≤ length ts
      → Below (length ts) keys
      → length keys ≡ pp
      → IsRounds left pp ts r
      → IsRounds (suc left) pp tasks (r >>= λ rest. some (rest.0, keys ∷ rest.1))
  more_tasks-IsRounds left tasks ts keys none le b l i = absurd i
  more_tasks-IsRounds left tasks ts keys (some (ts', done)) le b l (g, le', n, all) =
      (g, omega (arith, le, le'), omega (arith, n), ((Below-mono _ _ keys le' b, l), all))

  then_round-IsRounds :
      (left : ℕ) (tasks : Tasks) (b : Option (Tasks × ((ℕ → Option ℕ) × List ℕ)))
      → IsBatch pp tasks b
      → ((tail : ℕ → Option ℕ) (tasks : Tasks)
          → IsGraph tasks
          → Tails (length tasks) tail
          → IsRounds left pp tasks (round_tasks oh c plan pp left tail tasks))
      → IsRounds (suc left) pp tasks (
          b >>= λ b.
          round_tasks oh c plan pp left b.1.0 b.0 >>= λ rest. some (rest.0, b.1.1 ∷ rest.1))
  then_round-IsRounds left tasks none i next = absurd i
  then_round-IsRounds left tasks (some (ts, (tail, keys))) (g, le, t, b, l) next =
      more_tasks-IsRounds left tasks ts keys _ le b l (next tail ts g t)

  round_tasks-IsRounds :
      (left : ℕ) (tail : ℕ → Option ℕ) (tasks : Tasks)
      → 0 < pp
      → 0 < c.n_layers
      → IsGraph tasks
      → Tails (length tasks) tail
      → IsRounds left pp tasks (round_tasks oh c plan pp left tail tasks)
  unfolding round_tasks
  round_tasks-IsRounds zero tail tasks hp hn g t = (g, omega arith, refl, tt)
  round_tasks-IsRounds (suc left) tail tasks hp hn g t =
      then_round-IsRounds left tasks _ (microbatches-IsBatch pp 0 tail tasks hp hn g t)
        (λ tail' tasks' g' t'. round_tasks-IsRounds left tail' tasks' hp hn g' t')

  -- For a pipeline of a stage and a layer at least, no assertion fails while the tasks of `n` rounds are
  -- built. The tasks are a graph without a cycle, whose keys are their indices, and each round has one
  -- end for each of the microbatches, a key into them.
  pub decode_tasks-IsRounds :
      (n : ℕ) → 0 < pp → 0 < c.n_layers → IsRounds n pp [] (decode_tasks oh c plan pp n)
  unfolding decode_tasks
  decode_tasks-IsRounds n hp hn = round_tasks-IsRounds n (λ m. none) [] hp hn tt (λ m. tt)

  pub prefill_tasks-IsWalk :
      0 < pp → 0 < c.n_layers → IsWalk oh c plan pp [] (prefill_tasks oh c plan pp)
  unfolding prefill_tasks
  prefill_tasks-IsWalk hp hn =
      walk-IsWalk oh c plan pp (prefill_hops oh c plan pp) (split_layers c.n_layers pp) 0 none none
        [] (HasWork-split c.n_layers none hp hn) tt tt tt (Ends-split c.n_layers hp)
