-- ===== src/Sched/First.antt =====
-- What `schedule` starts with: the heap has the tasks that wait for nothing, and nothing runs.
use inferencesim.Prelude.{
  ℕ, ◌+◌, ◌≡◌, ◌≤◌, ◌<◌, refl, subst, false, List, [], ◌∷◌, if◌then◌else◌, ◌==◌, All, In, inl, inr,
  arith, Bool-cases,
}
use inferencesim.Sched.Task.{Task, IsGraphFrom}
use inferencesim.Sched.Schedule.{Ready, ready_heap_of}
use inferencesim.Sched.Children.{key_bounds}
use inferencesim.Sched.Release.{in_heap, pending, IsReady, hit_same, hit_other}
use inferencesim.Sched.Within.{work_by}
use inferencesim.Sched.Capacity.{running}

module _ {R : Type 0} where
  absent_at_first :
      (n j : ℕ) (m : ℕ → ℕ) (ts : List (Task R))
      → IsGraphFrom n ts
      → j < n
      → in_heap j (ready_heap_of m ts) ≡ 0
  unfolding ready_heap_of
  absent_at_first n j m [] g l = refl
  absent_at_first n j m (t ∷ ts) (e, ds, g) l =
      let rest = absent_at_first (n + 1) j m ts g (omega arith) in
      let zero_hits = hit_other j t.key (omega arith) in
      elim (Bool-cases (m t.key == 0)) [ inl c ↦ rw c (omega arith) | inr c ↦ rw c rest ]

  -- At first the heap has the tasks that miss nothing.
  pub ready_at_first :
      (n : ℕ) (m : ℕ → ℕ) (ts : List (Task R)) (t : Task R)
      → IsGraphFrom n ts
      → In t ts
      → in_heap t.key (ready_heap_of m ts) ≡ (if m t.key == 0 then 1 else 0)
  unfolding ready_heap_of
  ready_at_first n m [] t g i = absurd i
  ready_at_first n m (x ∷ ts) t (e, ds, g) (inl q) =
      let later = absent_at_first (n + 1) x.key m ts g (omega arith) in
      let one = hit_same x.key x.key refl in
      subst
        (λ (u : Task R). in_heap u.key (ready_heap_of m (x ∷ ts)) ≡ (if m u.key == 0 then 1 else 0))
        q (elim (Bool-cases (m x.key == 0)) [ inl c ↦ rw c (omega arith) | inr c ↦ rw c later ])
  ready_at_first n m (x ∷ ts) t (e, ds, g) (inr i) =
      let bound = key_bounds (n + 1) ts t g i in
      let rest = ready_at_first (n + 1) m ts t g i in
      let zero_hits = hit_other t.key x.key (omega arith) in
      elim (Bool-cases (m x.key == 0)) [ inl c ↦ rw c (omega arith) | inr c ↦ rw c rest ]

  pub known_at_first :
      (b : ℕ) (m : ℕ → ℕ) (ts : List (Task R))
      → ((t : Task R) → In t ts → t.key < b)
      → All (λ (e : Ready). e.1 < b) (ready_heap_of m ts)
  unfolding ready_heap_of
  known_at_first b m [] h = tt
  known_at_first b m (t ∷ ts) h =
      let rest = known_at_first b m ts (λ u i. h u (inr i)) in
      elim (Bool-cases (m t.key == 0)) [ inl c ↦ rw c (h t (inl refl), rest) | inr c ↦ rw c rest ]

  pub zero_at_first :
      (w : ℕ) (m : ℕ → ℕ) (ts : List (Task R)) → All (λ (e : Ready). e.0 ≤ w) (ready_heap_of m ts)
  unfolding ready_heap_of
  zero_at_first w m [] = tt
  zero_at_first w m (t ∷ ts) =
      let rest = zero_at_first w m ts in
      elim (Bool-cases (m t.key == 0)) [ inl c ↦ rw c (omega arith, rest) | inr c ↦ rw c rest ]

  pub idle_at_first :
      (same : Discrete R) (q : R) (now : ℕ) (ts : List (Task R))
      → running same (λ _. 0) (λ _. 0) (λ _. false) q now ts ≤ 0
  idle_at_first same q now [] = omega arith
  idle_at_first same q now (t ∷ ts) = omega (arith, idle_at_first same q now ts)

  pub nothing_done : (w : Task R → ℕ) (ts : List (Task R)) → work_by w (λ _. false) ts ≡ 0
  nothing_done w [] = refl
  nothing_done w (t ∷ ts) = omega (arith, nothing_done w ts)

  pub started_ready : (tasks : List (Task R)) (es : List Ready) → All (IsReady tasks (λ _. 0)) es
  started_ready tasks [] = tt
  started_ready tasks (e ∷ es) = ((λ t d m q i. omega arith), started_ready tasks es)

pub one_phase : (v : ℕ) → (if v == 0 then 1 else 0) + pending v ≡ 1
one_phase v = ground arith
