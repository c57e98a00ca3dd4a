-- ===== src/Sched/Ending.antt =====
-- The invariant of `schedule` when a task ends: from the task that has left the heap to the children that
-- have heard of it.
use inferencesim.Prelude.{
  ℕ, ◌+◌, ◌≡◌, ◌≢◌, ◌≤◌, ◌<◌, ◌⊎◌, refl, sym, ap, ◌∙◌, subst, Bool, true, false, List, [], ◌∷◌,
  length, All, In, inl, inr, arith, le-sum-In,
}
use mathlib.Core.Bool.{true≢false}
use inferencesim.Sched.Task.{Task, IsGraph}
use inferencesim.Sched.Heap.{set_at, set_at-eq, set_at-ne}
use inferencesim.Sched.Schedule.{Ready, Schedule, children, release}
use inferencesim.Sched.Count.{
  bit, hit, count, undone, total, undone_none, undone-set_at, total-set_at, bit_one, bit_zero,
}
use inferencesim.Sched.Children.{count-children, children-known, deps-lt}
use inferencesim.Sched.Release.{
  in_heap, pending, IsReady, IsBooked, hit_same, hit_other, key_cases, notified-IsBooked,
}

pub All-map-In :
    {A : Type 0} (P Q : A → Type 0) (xs : List A)
    → ((x : A) → In x xs → P x → Q x)
    → All P xs
    → All Q xs
All-map-In P Q [] f h = tt
All-map-In P Q (x ∷ xs) f (h, hs) = (f x (inl refl) h, All-map-In P Q xs (λ y m. f y (inr m)) hs)

count_pos : (d : ℕ) (ds : List ℕ) → In d ds → 0 < count d ds
count_pos d ds m = omega (arith, hit_same d d refl, le-sum-In (hit d) d ds m)

pending_zero : (m : ℕ) → pending m ≡ 0 → m ≡ 0
pending_zero m h = ground arith

module _ {R : Type 0} (tasks : List (Task R)) where
  -- What `release` is told of a task that has left the heap.
  pub record IsTaken (done : ℕ → Bool) (k when : ℕ) (s : Schedule R) : Type 0 where
    pub fresh : done k ≡ false
    pub key : k < length tasks
    pub missing : (t : Task R) → In t tasks → s.missing t.key ≡ undone done t.deps
    pub phase :
        (t : Task R)
        → In t tasks
        → in_heap t.key s.ready_heap + bit (done t.key) + pending (s.missing t.key) + hit t.key k
          ≡ 1
    pub known : All (λ (e : Ready). e.1 < length tasks) s.ready_heap
    pub counted : s.completed ≡ total done (length tasks)
    pub ready_by :
        (t : Task R) (d : ℕ)
        → In t tasks
        → In d t.deps
        → done d ≡ true
        → s.finish d ≤ s.ready_at t.key
    pub entries : All (IsReady tasks s.finish) s.ready_heap
    pub ends :
        (t : Task R) → In t tasks → done t.key ≡ true → s.finish t.key ≡ s.start t.key + t.duration
    pub waits :
        (t : Task R) (d : ℕ)
        → In t tasks
        → In d t.deps
        → done t.key ≡ true
        → s.finish d ≤ s.start t.key
    pub own_end : (t : Task R) → In t tasks → t.key ≡ k → when ≡ s.start k + t.duration
    pub own_wait :
        (t : Task R) (d : ℕ) → In t tasks → t.key ≡ k → In d t.deps → s.finish d ≤ s.start k

  module _ (g : IsGraph tasks) (done : ℕ → Bool) (k when : ℕ) (s : Schedule R)
      (b : IsTaken done k when s) where
    abbrev done_then : ℕ → Bool
    done_then = set_at done k true

    abbrev ended : Schedule R
    ended = record s { finish = set_at s.finish k when; completed = s.completed + 1 }

    -- What is done is not `k`.
    other : (d : ℕ) → done d ≡ true → d ≢ k
    other d h q = true≢false (sym h ∙ (ap done q ∙ b.fresh))

    unchanged : (d : ℕ) → done d ≡ true → set_at s.finish k when d ≡ s.finish d
    unchanged d h = set_at-ne s.finish k d when (other d h)

    -- A task that misses nothing depends on what is done.
    deps_done :
        (t : Task R) (d : ℕ) → In t tasks → In d t.deps → s.missing t.key ≡ 0 → done d ≡ true
    deps_done t d m i z = undone_none done t.deps d (omega (arith, b.missing t m)) i

    heap_done :
        (e : Ready) (t : Task R) (d : ℕ)
        → In e s.ready_heap
        → In t tasks
        → t.key ≡ e.1
        → In d t.deps
        → done d ≡ true
    heap_done e t d me m q i =
        let one = hit_same t.key e.1 (sym q) in
        let present = le-sum-In (λ (x : Ready). hit t.key x.1) e s.ready_heap me in
        deps_done t d m i (pending_zero (s.missing t.key) (omega (arith, b.phase t m)))

    done_cases : (j : ℕ) → done_then j ≡ true → (j ≡ k) ⊎ ((j ≢ k) × (done j ≡ true))
    done_cases j h = elim (key_cases j k) [
      | inl e ↦ inl e
      | inr e ↦ inr (e, sym (set_at-ne done k j true e) ∙ h)
    ]

    taken-phase :
        (t : Task R)
        → In t tasks
        → in_heap t.key s.ready_heap + bit (done_then t.key) + pending (s.missing t.key) ≡ 1
    taken-phase t m = elim (key_cases k t.key) [
      | inl e ↦
          let one = hit_same t.key k e in
          let was = bit_zero (done t.key) (ap done (sym e) ∙ b.fresh) in
          let now = bit_one (done_then t.key) (ap done_then (sym e) ∙ set_at-eq done k true) in
          omega (arith, b.phase t m)
      | inr e ↦
          let zero_hits = hit_other t.key k e in
          let same = ap bit (set_at-ne done k t.key true (λ q. e (sym q))) in
          omega (arith, b.phase t m)
    ]

    taken-ready_by :
        (t : Task R) (d : ℕ)
        → In t tasks
        → In d t.deps
        → done_then d ≡ true
        → (set_at s.finish k when d ≤ s.ready_at t.key)
          ⊎ ((d ≡ k) × (0 < count t.key (children tasks k)))
    taken-ready_by t d m i h = elim (done_cases d h) [
      | inl e ↦
          let i' : In k t.deps = subst (λ x. In x t.deps) e i in
          inr (e, omega (arith, count_pos k t.deps i', count-children 0 tasks t k g m))
      | inr (ne, h') ↦ inl (omega (arith, unchanged d h', b.ready_by t d m i h'))
    ]

    taken-ends :
        (t : Task R)
        → In t tasks
        → done_then t.key ≡ true
        → set_at s.finish k when t.key ≡ s.start t.key + t.duration
    taken-ends t m h = elim (done_cases t.key h) [
      | inl e ↦
          let now = ap (set_at s.finish k when) e ∙ set_at-eq s.finish k when in
          let from = ap s.start e in omega (arith, b.own_end t m e)
      | inr (ne, h') ↦ unchanged t.key h' ∙ b.ends t m h'
    ]

    taken-waits :
        (t : Task R) (d : ℕ)
        → In t tasks
        → In d t.deps
        → done_then t.key ≡ true
        → set_at s.finish k when d ≤ s.start t.key
    taken-waits t d m i h = elim (done_cases t.key h) [
      | inl e ↦
          let below = deps-lt 0 tasks t d g m i in
          let same = set_at-ne s.finish k d when (omega arith) in
          let from = ap s.start e in omega (arith, b.own_wait t d m e i)
      | inr (ne, h') ↦
          let one = bit_one (done t.key) h' in
          let nothing = pending_zero (s.missing t.key) (omega (arith, b.phase t m)) in
          omega (arith, unchanged d (deps_done t d m i nothing), b.waits t d m i h')
    ]

    ended-IsBooked : IsBooked tasks done_then k (children tasks k) ended
    ended-IsBooked = record {
      missing = λ t m. omega (
        arith,
        b.missing t m,
        undone-set_at done k t.deps b.fresh,
        count-children 0 tasks t k g m,
      );
      phase = taken-phase;
      known = b.known;
      counted = omega (arith, b.counted, total-set_at done k (length tasks) b.fresh b.key);
      ready_by = taken-ready_by;
      entries =
          All-map-In (IsReady tasks s.finish) (IsReady tasks (set_at s.finish k when)) s.ready_heap
            (λ e me h t d m q i. omega (arith, unchanged d (heap_done e t d me m q i), h t d m q i))
            b.entries;
      ends = taken-ends;
      waits = taken-waits;
    }

    -- `release` keeps the books, with one task more that is done.
    pub release-IsBooked : IsBooked tasks done_then k [] (release tasks k when s)
    unfolding release
    release-IsBooked =
        notified-IsBooked tasks done_then k when (children tasks k) ended
          (set_at-eq s.finish k when) (children-known tasks k g) ended-IsBooked
