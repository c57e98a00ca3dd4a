-- ===== src/Sched/Popped.antt =====
-- The task that leaves the heap of `schedule`, and the books without it.
use mathlib.Core.Bool.{true≢false}
use inferencesim.Prelude.{
  ℕ, zero, suc, ◌+◌, ◌≡◌, ◌≤◌, ◌<◌, refl, sym, ap, ◌∙◌, subst, Bool, true, false, List, [], ◌∷◌,
  length, All, In, inl, inr, arith,
}
use inferencesim.Sched.Task.{Task, IsGraph}
use inferencesim.Sched.Heap.{pop_min, pop_min-sum, All-pop_min, set_at, set_at-eq, set_at-ne}
use inferencesim.Sched.Schedule.{Ready, Schedule, earlier}
use inferencesim.Sched.Count.{bit, hit, undone}
use inferencesim.Sched.Children.{task_of, task_unique, deps-lt}
use inferencesim.Sched.Release.{in_heap, pending, IsReady, IsBooked, hit_same}
use inferencesim.Sched.Ending.{IsTaken}

undone_zero :
    (done : ℕ → Bool) (ds : List ℕ) → ((d : ℕ) → In d ds → done d ≡ true) → undone done ds ≡ 0
undone_zero done [] h = refl
undone_zero done (d ∷ ds) h =
    let here = h d (inl refl) in rw here (omega (arith, undone_zero done ds (λ x m. h x (inr m))))

bit_done : (b : Bool) → bit b ≡ 1 → b ≡ true
bit_done true h = refl
bit_done false h = absurd (omega arith)

bit_not : (b : Bool) → bit b ≡ 0 → b ≡ false
bit_not true h = absurd (omega arith)
bit_not false h = refl

module _ {R : Type 0} (tasks : List (Task R)) (g : IsGraph tasks) where
  -- While nothing is ready, everything below a key is done.
  pub all_done :
      (done : ℕ → Bool) (k : ℕ) (s : Schedule R)
      → IsBooked tasks done k [] s
      → s.ready_heap ≡ []
      → (m j : ℕ) → j < m
      → j < length tasks
      → done j ≡ true
  all_done done k s b e zero j l n = absurd (omega arith)
  all_done done k s b e (suc m) j l n =
      let (t, f, q, i) = task_of tasks j g n in
      let below = λ (d : ℕ) (x : In d t.deps).
        let lt = deps-lt 0 tasks t d g i x in
        all_done done k s b e m d (omega arith) (omega arith) in
      let nothing : s.missing t.key ≡ 0 =
        omega (arith, b.missing t i, undone_zero done t.deps below) in
      let waiting : pending (s.missing t.key) ≡ 0 = rw nothing refl in
      let empty : in_heap t.key s.ready_heap ≡ 0 = rw e refl in
      sym (ap done q) ∙ bit_done (done t.key) (omega (arith, b.phase t i))

  -- The entry that leaves the heap, and what is left of the books.
  module _ (done : ℕ → Bool) (k0 : ℕ) (s : Schedule R) (b : IsBooked tasks done k0 [] s) (e : Ready)
      (es : List Ready) (h : s.ready_heap ≡ e ∷ es) where
    abbrev top : Ready
    top = (pop_min earlier e es).0

    abbrev others : List Ready
    others = (pop_min earlier e es).1

    heap_split : (j : ℕ) → hit j top.1 + in_heap j others ≡ in_heap j s.ready_heap
    heap_split j = pop_min-sum earlier (λ (x : Ready). hit j x.1) e es ∙ ap (in_heap j) (sym h)

    pub top_known : (top.1 < length tasks) × All (λ (x : Ready). x.1 < length tasks) others
    top_known =
        let (p, ps) = subst (All (λ (x : Ready). x.1 < length tasks)) h b.known in
        All-pop_min earlier (λ (x : Ready). x.1 < length tasks) e es p ps

    top-IsReady : IsReady tasks s.finish top × All (IsReady tasks s.finish) others
    top-IsReady =
        let (p, ps) = subst (All (IsReady tasks s.finish)) h b.entries in
        All-pop_min earlier (IsReady tasks s.finish) e es p ps

    module _ (t : Task R) (m : In t tasks) (q : t.key ≡ top.1) (st : ℕ) (le : top.0 ≤ st) where
      pub top_fresh : done top.1 ≡ false
      top_fresh =
          let one = hit_same t.key top.1 (sym q) in
          sym (ap done q) ∙ bit_not (done t.key) (omega (arith, heap_split t.key, b.phase t m))

      -- A done task keeps its start.
      kept :
          (u : Task R)
          → In u tasks
          → done u.key ≡ true
          → set_at s.start top.1 st u.key ≡ s.start u.key
      kept u n f =
          set_at-ne s.start top.1 u.key st (λ z. true≢false (sym f ∙ (ap done z ∙ top_fresh)))

      own : (u : Task R) → In u tasks → u.key ≡ top.1 → u.duration ≡ t.duration
      own u n z = ap (λ (x : Task R). x.duration) (task_unique tasks u t g n m (z ∙ sym q))

      pub started-IsTaken :
          (w : Schedule R)
          → IsTaken tasks done top.1 (st + t.duration) (record w {
            missing = s.missing;
            ready_heap = others;
            completed = s.completed;
            finish = s.finish;
            ready_at = s.ready_at;
            start = set_at s.start top.1 st;
          })
      started-IsTaken w = record {
        fresh = top_fresh;
        key = top_known.0;
        missing = λ u n. omega (arith, b.missing u n);
        phase = λ u n. omega (arith, heap_split u.key, b.phase u n);
        known = top_known.1;
        counted = b.counted;
        ready_by = λ u d n i f. elim (b.ready_by u d n i f) [
          | inl r ↦ r
          | inr (z, p) ↦ absurd (omega arith)
        ];
        entries = top-IsReady.1;
        ends = λ u n f. omega (arith, kept u n f, b.ends u n f);
        waits = λ u d n i f. omega (arith, kept u n f, b.waits u d n i f);
        own_end = λ u n z. omega (arith, set_at-eq s.start top.1 st, own u n z);
        own_wait = λ u d n z i. omega (arith, set_at-eq s.start top.1 st, top-IsReady.0 u d n z i);
      }
