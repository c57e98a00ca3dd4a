-- ===== src/Sched/Children.antt =====
-- The tables that `schedule` sets up: who waits for whom, and the task of a key.
use native.Mathlib.Nat.{zero-add}
use inferencesim.Prelude.{
  ℕ, zero, suc, ◌+◌, ◌-◌, ◌≡◌, ◌≢◌, ◌≤◌, ◌<◌, refl, sym, ap, ◌∙◌, subst, List, [], ◌∷◌, ◌++◌, map,
  some, ◌==◌, length, filter, get_elem?, sum-append, All, All-append, In, All-In, inl, inr, arith,
  Bool-cases,
}
use mathlib.Core.Option.{some-injective}
use inferencesim.Sched.Task.{Task, IsGraphFrom, IsGraph}
use inferencesim.Sched.Heap.{set_at, set_at-eq, set_at-ne}
use inferencesim.Sched.Schedule.{children, missing_of}
use inferencesim.Sched.Count.{count, hit}

count-same : (j k : ℕ) (ds : List ℕ) → count j (map (λ _. j) (filter (λ d. d == k) ds)) ≡ count k ds
count-same j k [] = refl
count-same j k (d ∷ ds) = elim (Bool-cases (d == k)) [
  | inl e ↦ let one : hit j j ≡ 1 = ground arith in rw e (omega (arith, count-same j k ds))
  | inr e ↦ rw e (omega (arith, count-same j k ds))
]

count-other :
    (i j k : ℕ) (ds : List ℕ) → j ≢ i → count i (map (λ _. j) (filter (λ d. d == k) ds)) ≡ 0
count-other i j k [] h = refl
count-other i j k (d ∷ ds) h = elim (Bool-cases (d == k)) [
  | inl e ↦
      let none_here : hit i j ≡ 0 = ground arith in rw e (omega (arith, count-other i j k ds h))
  | inr e ↦ rw e (count-other i j k ds h)
]

module _ {R : Type 0} where
  pub key_bounds :
      (n : ℕ) (ts : List (Task R)) (t : Task R)
      → IsGraphFrom n ts
      → In t ts
      → (n ≤ t.key) × (t.key < n + length ts)
  key_bounds n [] t g m = absurd m
  key_bounds n (x ∷ ts) t (k, ds, g) (inl e) =
      let same = ap (λ (x : Task R). x.key) e in omega arith
  key_bounds n (x ∷ ts) t (k, ds, g) (inr m) = omega (arith, key_bounds (n + 1) ts t g m)

  pub key-lt : (ts : List (Task R)) (t : Task R) → IsGraph ts → In t ts → t.key < length ts
  key-lt ts t g m = omega (arith, key_bounds 0 ts t g m)

  children_none :
      (n i k : ℕ) (ts : List (Task R)) → IsGraphFrom n ts → i < n → count i (children ts k) ≡ 0
  unfolding children
  children_none n i k [] g l = refl
  children_none n i k (t ∷ ts) (e, ds, g) l =
      sum-append (hit i) (map (λ _. t.key) (filter (λ d. d == k) t.deps)) (children ts k)
      ∙ omega (
        arith,
        count-other i t.key k t.deps (omega arith),
        children_none (n + 1) i k ts g (omega arith),
      )

  -- A task stands among the children of `k` as often as it depends on it.
  pub count-children :
      (n : ℕ) (ts : List (Task R)) (t : Task R) (k : ℕ)
      → IsGraphFrom n ts
      → In t ts
      → count t.key (children ts k) ≡ count k t.deps
  unfolding children
  count-children n [] t k g m = absurd m
  count-children n (x ∷ ts) t k (e, ds, g) (inl q) =
      let here = λ (u : Task R). map (λ _. u.key) (filter (λ d. d == k) u.deps) in
      let split = sum-append (hit x.key) (here x) (children ts k) in
      let later = children_none (n + 1) x.key k ts g (omega arith) in
      let own = count-same x.key k x.deps in
      subst (λ (u : Task R). count u.key (here x ++ children ts k) ≡ count k u.deps) q (omega arith)
  count-children n (x ∷ ts) t k (e, ds, g) (inr m) =
      let later = key_bounds (n + 1) ts t g m in
      let split =
        sum-append (hit t.key) (map (λ _. x.key) (filter (λ d. d == k) x.deps)) (children ts k) in
      let none_here = count-other t.key x.key k x.deps (omega arith) in
      omega (arith, count-children (n + 1) ts t k g m)

  children-lt :
      (n : ℕ) (ts : List (Task R)) (k : ℕ)
      → IsGraphFrom n ts
      → All (λ c. c < n + length ts) (children ts k)
  unfolding children
  children-lt n [] k g = tt
  children-lt n (x ∷ ts) k (e, ds, g) =
      All-append (λ c. c < n + length (x ∷ ts)) (map (λ _. x.key) (filter (λ d. d == k) x.deps))
        (children ts k) (All-same x.key (filter (λ d. d == k) x.deps) (omega arith))
        (All-weaken (n + 1 + length ts) (n + length (x ∷ ts)) (children ts k) (omega arith)
          (children-lt (n + 1) ts k g))
    where
      All-same :
          (j : ℕ) (ds : List ℕ)
          → j < n + length (x ∷ ts)
          → All (λ c. c < n + length (x ∷ ts)) (map (λ _. j) ds)
      All-same j [] h = tt
      All-same j (d ∷ ds) h = (h, All-same j ds h)

      All-weaken : (a b : ℕ) (cs : List ℕ) → a ≤ b → All (λ c. c < a) cs → All (λ c. c < b) cs
      All-weaken a b [] le h = tt
      All-weaken a b (c ∷ cs) le (h, hs) = (omega arith, All-weaken a b cs le hs)

  pub children-known :
      (ts : List (Task R)) (k : ℕ) → IsGraph ts → All (λ c. c < length ts) (children ts k)
  children-known ts k g = rw (zero-add (length ts)) at (children-lt 0 ts k g)

  missing_other :
      (n : ℕ) (ts : List (Task R)) (m : ℕ → ℕ) (k : ℕ)
      → IsGraphFrom n ts
      → k < n
      → missing_of ts m k ≡ m k
  unfolding missing_of
  missing_other n [] m k g l = refl
  missing_other n (t ∷ ts) m k (e, ds, g) l =
      missing_other (n + 1) ts (set_at m t.key (length t.deps)) k g (omega arith)
      ∙ set_at-ne m t.key k (length t.deps) (omega arith)

  -- At first a task misses all of its dependencies.
  pub missing_of-length :
      (n : ℕ) (ts : List (Task R)) (m : ℕ → ℕ) (t : Task R)
      → IsGraphFrom n ts
      → In t ts
      → missing_of ts m t.key ≡ length t.deps
  unfolding missing_of
  missing_of-length n [] m t g i = absurd i
  missing_of-length n (x ∷ ts) m t (e, ds, g) (inl q) =
      let later = missing_other (n + 1) ts (set_at m x.key (length x.deps)) x.key g (omega arith) in
      subst (λ (u : Task R). missing_of ts (set_at m x.key (length x.deps)) u.key ≡ length u.deps) q
        (later ∙ set_at-eq m x.key (length x.deps))
  missing_of-length n (x ∷ ts) m t (e, ds, g) (inr i) =
      missing_of-length (n + 1) ts (set_at m x.key (length x.deps)) t g i

  -- The task of a key.
  task_from :
      (n : ℕ) (ts : List (Task R)) (k : ℕ)
      → IsGraphFrom n ts
      → k < length ts
      → (t : Task R) × (get_elem? ts k ≡ some t) × (t.key ≡ n + k) × In t ts
  task_from n [] k g l = absurd (omega arith)
  task_from n (x ∷ ts) zero (e, ds, g) l = (x, refl, omega arith, inl refl)
  task_from n (x ∷ ts) (suc k) (e, ds, g) l =
      let (t, f, q, m) = task_from (n + 1) ts k g (omega arith) in (t, f, omega arith, inr m)

  pub task_of :
      (ts : List (Task R)) (k : ℕ)
      → IsGraph ts
      → k < length ts
      → (t : Task R) × (get_elem? ts k ≡ some t) × (t.key ≡ k) × In t ts
  task_of ts k g l = let (t, f, q, m) = task_from 0 ts k g l in (t, f, omega arith, m)

  -- A task depends on earlier ones only.
  pub deps-lt :
      (n : ℕ) (ts : List (Task R)) (t : Task R) (d : ℕ)
      → IsGraphFrom n ts
      → In t ts
      → In d t.deps
      → d < t.key
  deps-lt n [] t d g m i = absurd m
  deps-lt n (x ∷ ts) t d (e, ds, g) (inl q) i =
      subst (λ (u : Task R). In d u.deps → d < u.key) q
        (λ j. let below = All-In (λ c. c < n) d x.deps ds j in omega arith) i
  deps-lt n (x ∷ ts) t d (e, ds, g) (inr m) i = deps-lt (n + 1) ts t d g m i

  -- A task is the one that stands at its key.
  pub elem_of :
      (n : ℕ) (ts : List (Task R)) (t : Task R)
      → IsGraphFrom n ts
      → In t ts
      → get_elem? ts (t.key - n) ≡ some t
  elem_of n [] t g m = absurd m
  elem_of n (x ∷ ts) t (e, ds, g) (inl q) =
      let here : x.key - n ≡ 0 = omega arith in
      subst (λ (u : Task R). get_elem? (x ∷ ts) (u.key - n) ≡ some u) q (rw here (refl))
  elem_of n (x ∷ ts) t (e, ds, g) (inr m) =
      let later = key_bounds (n + 1) ts t g m in
      let next : t.key - n ≡ suc (t.key - (n + 1)) = omega arith in
      rw next (elem_of (n + 1) ts t g m)

  pub task_unique :
      (ts : List (Task R)) (t u : Task R) → IsGraph ts → In t ts → In u ts → t.key ≡ u.key → t ≡ u
  task_unique ts t u g m n e =
      let same : get_elem? ts (t.key - 0) ≡ get_elem? ts (u.key - 0) =
        ap (λ k. get_elem? ts (k - 0)) e in
      some-injective t u (sym (elem_of 0 ts t g m) ∙ (same ∙ elem_of 0 ts u g n))
