-- ===== src/Sched/Times.antt =====
-- When the tasks of a graph would finish if no two of them waited for one resource.
use mathlib.Core.List.{foldl, foldl-append}
use inferencesim.Prelude.{
  ℕ, zero, suc, ◌+◌, ◌≡◌, ◌<◌, refl, List, [], ◌∷◌, ◌++◌, length, length-append, All, arith, String,
  max,
}
use inferencesim.Sched.Task.{Task, add}

-- The time of task `k`, 0 if there is none.
abbrev pub time_at : List ℕ → ℕ → ℕ
time_at [] k = 0
time_at (t ∷ ts) zero = t
time_at (t ∷ ts) (suc k) = time_at ts k

-- When all of `deps` have finished.
abbrev pub ready : List ℕ → List ℕ → ℕ
ready times [] = 0
ready times (d ∷ ds) = max (time_at times d) (ready times ds)

module _ {R : Type 0} where
  abbrev pub then_task : List ℕ → Task R → List ℕ
  then_task times t = times ++ (ready times t.deps + t.duration) ∷ []

  -- The finishing times of a graph, in the order of its keys, without contention.
  unfoldable pub times : List (Task R) → List ℕ
  times = foldl then_task []

  pub times-add :
      (ts : List (Task R)) (r : R) (duration : ℕ) (deps : List ℕ) (label : String)
      → times (add ts r duration deps label).0 ≡ times ts ++ (ready (times ts) deps + duration) ∷ []
  unfolding times add
  times-add ts r duration deps label = rw foldl-append

  pub length-times : (ts : List (Task R)) → length (times ts) ≡ length ts
  unfolding times
  length-times ts = omega (arith, go [] ts)
    where
      go :
          (acc : List ℕ) (ts : List (Task R))
          → length (foldl then_task acc ts) ≡ length acc + length ts
      go acc [] = omega arith
      go acc (t ∷ ts) =
          omega (
            arith,
            go (then_task acc t) ts,
            length-append acc ((ready acc t.deps + t.duration) ∷ []),
          )

pub time_at-append : (xs ys : List ℕ) (k : ℕ) → k < length xs → time_at (xs ++ ys) k ≡ time_at xs k
time_at-append [] ys k h = elim h [ ]
time_at-append (x ∷ xs) ys zero h = refl
time_at-append (x ∷ xs) ys (suc k) h = time_at-append xs ys k (omega arith)

pub time_at-last : (xs : List ℕ) (x k : ℕ) → k ≡ length xs → time_at (xs ++ x ∷ []) k ≡ x
time_at-last [] x zero e = refl
time_at-last [] x (suc k) e = absurd (omega arith)
time_at-last (y ∷ xs) x zero e = absurd (omega arith)
time_at-last (y ∷ xs) x (suc k) e = time_at-last xs x k (omega arith)

pub ready-append :
    (xs ys ds : List ℕ) → All (λ d. d < length xs) ds → ready (xs ++ ys) ds ≡ ready xs ds
ready-append xs ys [] h = refl
ready-append xs ys (d ∷ ds) (h, hs) =
    omega (arith, time_at-append xs ys d h, ready-append xs ys ds hs)
