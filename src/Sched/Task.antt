-- ===== src/Sched/Task.antt =====
-- inferencesim/sched.py: `Task`, and the graphs that the builders append to. `R` is the type of the
-- names of resources, and times are whole ticks.
use inferencesim.Prelude.{
  ℕ, ◌+◌, ◌≡◌, ◌<◌, refl, ◌∙◌, List, [], ◌∷◌, ◌++◌, length, length-append, All, arith, String, Bool,
  if◌then◌else◌, sum, sum-append,
}

pub record Task (R : Type 0) : Type 0 where
  pub key : ℕ
  pub resource : R
  pub duration : ℕ
  pub deps : List ℕ
  pub label : String

module _ {R : Type 0} where
  -- `key = len(tasks)` at append; the list and the key.
  unfoldable pub add : List (Task R) → R → ℕ → List ℕ → String → List (Task R) × ℕ
  add tasks resource duration deps label = (
    tasks
        ++ record {
          key = length tasks;
          resource = resource;
          duration = duration;
          deps = deps;
          label = label;
        }
          ∷ [],
    length tasks,
  )

  -- The keys count up from `n`, and a task depends on earlier ones only.
  abbrev pub IsGraphFrom : ℕ → List (Task R) → Type 0
  IsGraphFrom n [] = Unit
  IsGraphFrom n (t ∷ ts) = (t.key ≡ n) × All (λ d. d < n) t.deps × IsGraphFrom (n + 1) ts

  -- What `schedule` asks of its tasks: the key is the index, and there is no cycle.
  abbrev pub IsGraph : List (Task R) → Type 0
  IsGraph = IsGraphFrom 0

  IsGraphFrom-append :
      (n m : ℕ) (ts : List (Task R)) (t : Task R)
      → n + length ts ≡ m
      → IsGraphFrom n ts
      → t.key ≡ m
      → All (λ d. d < m) t.deps
      → IsGraphFrom n (ts ++ t ∷ [])
  IsGraphFrom-append n m [] t e g k d = let e' : m ≡ n = omega arith in (k ∙ e', rw (← e') d, tt)
  IsGraphFrom-append n m (x ∷ ts) t e (a, b, g) k d =
      (a, b, IsGraphFrom-append (n + 1) m ts t (omega arith) g k d)

  pub add-IsGraph :
      (ts : List (Task R)) (r : R) (duration : ℕ) (deps : List ℕ) (label : String)
      → IsGraph ts
      → All (λ d. d < length ts) deps
      → IsGraph (add ts r duration deps label).0
  unfolding add
  add-IsGraph ts r duration deps label g d =
      IsGraphFrom-append 0 (length ts) ts _ (omega arith) g refl d

  pub length-add :
      (ts : List (Task R)) (r : R) (duration : ℕ) (deps : List ℕ) (label : String)
      → length (add ts r duration deps label).0 ≡ length ts + 1
  unfolding add
  length-add ts r duration deps label = length-append ts _

  pub key-add :
      (ts : List (Task R)) (r : R) (duration : ℕ) (deps : List ℕ) (label : String)
      → (add ts r duration deps label).1 ≡ length ts
  unfolding add
  key-add ts r duration deps label = refl

  -- The work that the tasks put on the resources that a test picks out.
  abbrev pub load : (R → Bool) → List (Task R) → ℕ
  load q = sum (λ (t : Task R). if q t.resource then t.duration else 0)

  pub load-add :
      (q : R → Bool) (ts : List (Task R)) (r : R) (duration : ℕ) (deps : List ℕ) (label : String)
      → load q (add ts r duration deps label).0 ≡ load q ts + (if q r then duration else 0)
  unfolding add
  load-add q ts r duration deps label =
      sum-append (λ (t : Task R). if q t.resource then t.duration else 0) ts _ ∙ omega arith
