-- ===== src/Sched/Within.antt =====
-- How late the times that `schedule` keeps can be: no later than the work that is done.
use mathlib.Core.List.{foldl}
use mathlib.Core.Logic.{if_pos, if_neg}
use inferencesim.Prelude.{
  ℕ, zero, suc, ◌+◌, ◌-◌, ◌≡◌, ◌≤◌, ◌<◌, refl, subst, max, Bool, true, false, List, [], ◌∷◌,
  if◌then◌else◌, ltb, ◌==◌, All, In, inl, inr, arith, Bool-cases,
}
use inferencesim.Sched.Task.{Task, IsGraphFrom}
use inferencesim.Sched.Children.{key_bounds}
use inferencesim.Sched.Heap.{set_at, set_on, set_at-eq, set_at-ne}
use inferencesim.Sched.Schedule.{
  Ready, Schedule, replicate, children, notify, release, occupy, add_busy,
}

abbrev pub AllWithin : ℕ → List ℕ → Type 0
AllWithin w = All (λ x. x ≤ w)

AllWithin-mono : (w v : ℕ) (xs : List ℕ) → w ≤ v → AllWithin w xs → AllWithin v xs
AllWithin-mono w v [] h a = tt
AllWithin-mono w v (x ∷ xs) h (a, rest) = (omega arith, AllWithin-mono w v xs h rest)

pub replicate-AllWithin : (w n : ℕ) → AllWithin w (replicate n 0)
unfolding replicate
replicate-AllWithin w zero = tt
replicate-AllWithin w (suc n) = (omega arith, replicate-AllWithin w n)

HeapWithin-mono :
    (w v : ℕ) (es : List Ready)
    → w ≤ v
    → All (λ (e : Ready). e.0 ≤ w) es
    → All (λ (e : Ready). e.0 ≤ v) es
HeapWithin-mono w v [] h a = tt
HeapWithin-mono w v (e ∷ es) h (a, rest) = (omega arith, HeapWithin-mono w v es h rest)

set_at-le : (f : ℕ → ℕ) (k v w : ℕ) → ((i : ℕ) → f i ≤ w) → v ≤ w → (i : ℕ) → set_at f k v i ≤ w
unfolding set_at
set_at-le f k v w h l i = elim (Bool-cases (i == k)) [ inl c ↦ rw c l | inr c ↦ rw c (h i) ]

module _ {R : Type 0} where
  -- A weight of the tasks that are done.
  abbrev pub work_by : (Task R → ℕ) → (ℕ → Bool) → List (Task R) → ℕ
  work_by w done [] = 0
  work_by w done (t ∷ ts) = (if done t.key then w t else 0) + work_by w done ts

  abbrev pub work : (ℕ → Bool) → List (Task R) → ℕ
  work = work_by (λ t. t.duration)

  module _ (w : Task R → ℕ) where
    work_other :
        (done : ℕ → Bool) (k n : ℕ) (ts : List (Task R))
        → IsGraphFrom n ts
        → k < n
        → work_by w (set_at done k true) ts ≡ work_by w done ts
    work_other done k n [] g l = refl
    work_other done k n (t ∷ ts) (e, ds, g) l =
        let same = set_at-ne done k t.key true (omega arith) in
        rw (same, work_other done k (n + 1) ts g (omega arith)) refl

    -- One task more is done.
    pub work_by-set_at :
        (done : ℕ → Bool) (n : ℕ) (ts : List (Task R)) (t : Task R)
        → IsGraphFrom n ts
        → In t ts
        → done t.key ≡ false
        → work_by w (set_at done t.key true) ts ≡ work_by w done ts + w t
    work_by-set_at done n [] t g m f = absurd m
    work_by-set_at done n (x ∷ ts) t (e, ds, g) (inl q) f =
        let later = work_other done x.key (n + 1) ts g (omega arith) in
        let new = set_at-eq done x.key true in
        subst
          (λ (u : Task R).
            done u.key ≡ false
            → work_by w (set_at done u.key true) (x ∷ ts) ≡ work_by w done (x ∷ ts) + w u)
          q (λ old. rw (new, later, old) (omega arith)) f
    work_by-set_at done n (x ∷ ts) t (e, ds, g) (inr m) f =
        let bounds = key_bounds (n + 1) ts t g m in
        let same = set_at-ne done t.key x.key true (omega arith) in
        rw (same, work_by-set_at done (n + 1) ts t g m f) (omega arith)

  pub record IsWithin (w : ℕ) (s : Schedule R) : Type 0 where
    pub slots : (r : R) → AllWithin w (s.slots r)
    pub heap : All (λ (e : Ready). e.0 ≤ w) s.ready_heap
    pub ready_at : (k : ℕ) → s.ready_at k ≤ w
    pub finish : (k : ℕ) → s.finish k ≤ w

  pub IsWithin-eq : (w v : ℕ) (s : Schedule R) → w ≡ v → IsWithin w s → IsWithin v s
  IsWithin-eq w v s e b = subst (λ u. IsWithin u s) e b

  notify-IsWithin :
      (w when c : ℕ) (s : Schedule R) → when ≤ w → IsWithin w s → IsWithin w (notify when s c)
  unfolding notify
  notify-IsWithin w when c s h b =
      let at : max (s.ready_at c) when ≤ w = omega (arith, b.ready_at c) in
      record {
        slots = b.slots;
        heap = elim (Bool-cases (s.missing c - 1 == 0)) [
          | inl e ↦ rw e (at, b.heap)
          | inr e ↦ rw e b.heap
        ];
        ready_at = set_at-le s.ready_at c (max (s.ready_at c) when) w b.ready_at at;
        finish = b.finish;
      }

  notified-IsWithin :
      (w when : ℕ) (cs : List ℕ) (s : Schedule R)
      → when ≤ w
      → IsWithin w s
      → IsWithin w (foldl (notify when) s cs)
  notified-IsWithin w when [] s h b = b
  notified-IsWithin w when (c ∷ cs) s h b =
      notified-IsWithin w when cs (notify when s c) h (notify-IsWithin w when c s h b)

module _ {R : Type 0} (same : Discrete R) (tasks : List (Task R)) where
  set_on-AllWithin :
      (f : R → List ℕ) (r : R) (xs : List ℕ) (w : ℕ)
      → ((q : R) → AllWithin w (f q))
      → AllWithin w xs
      → (q : R) → AllWithin w (set_on same f r xs q)
  unfolding set_on
  set_on-AllWithin f r xs w h a q = elim (same q r) [
    | yes e ↦ rw (if_pos (same q r) e) a
    | no e ↦ rw (if_neg (same q r) e) (h q)
  ]

  -- A task that is served adds its duration.
  pub occupy-IsWithin :
      (w rt k slot : ℕ) (rest : List ℕ) (t : Task R) (s : Schedule R)
      → rt ≤ w
      → slot ≤ w
      → AllWithin w rest
      → IsWithin w s
      → IsWithin (w + t.duration) (occupy same tasks rt k slot rest t s)
  unfolding occupy release add_busy
  occupy-IsWithin w rt k slot rest t s hr hs ha b =
      let st = if ltb slot rt then rt else slot in
      let le : st ≤ w = ground arith in
      let v = w + t.duration in
      notified-IsWithin v (st + t.duration) (children tasks k) _ (omega arith) (record {
        slots =
            set_on-AllWithin s.slots t.resource ((st + t.duration) ∷ rest) v
              (λ q. AllWithin-mono w v (s.slots q) (omega arith) (b.slots q))
              (omega arith, AllWithin-mono w v rest (omega arith) ha);
        heap = HeapWithin-mono w v s.ready_heap (omega arith) b.heap;
        ready_at = λ i. omega (arith, b.ready_at i);
        finish =
            set_at-le s.finish k (st + t.duration) v (λ i. omega (arith, b.finish i)) (omega arith);
      })
