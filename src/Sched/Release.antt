-- ===== src/Sched/Release.antt =====
-- The invariant of `schedule` while `release` tells the children of a task that it has finished.
use mathlib.Core.List.{foldl}
use inferencesim.Prelude.{
  ℕ, ◌+◌, ◌-◌, ◌≡◌, ◌≢◌, ◌≤◌, ◌<◌, ◌⊎◌, refl, sym, ap, ◌∙◌, max, Bool, true, List, [], ◌∷◌,
  if◌then◌else◌, ◌==◌, length, sum, All, In, inl, inr, arith, Bool-cases,
}
use inferencesim.Sched.Task.{Task}
use inferencesim.Sched.Heap.{set_at, set_at-eq, set_at-ne}
use inferencesim.Sched.Schedule.{Ready, Schedule, notify}
use inferencesim.Sched.Count.{bit, hit, count, undone, total, undone_none}

abbrev pub in_heap : ℕ → List Ready → ℕ
in_heap j = sum (λ (e : Ready). hit j e.1)

abbrev pub pending : ℕ → ℕ
pending m = if m == 0 then 0 else 1

pub hit_same : (j c : ℕ) → c ≡ j → hit j c ≡ 1
hit_same j c e = ground arith

pub hit_other : (j c : ℕ) → c ≢ j → hit j c ≡ 0
hit_other j c h = ground arith

pub key_cases : (c j : ℕ) → (c ≡ j) ⊎ (c ≢ j)
key_cases c j = elim (Bool-cases (c == j)) [
  | inl e ↦ inl (ground arith)
  | inr e ↦ inr (ground arith)
]

is_zero : (v : ℕ) → (v == 0) ≡ true → v ≡ 0
is_zero v e = ground arith

set_at-hit : (f : ℕ → ℕ) (c v j : ℕ) → c ≡ j → set_at f c v j ≡ v
set_at-hit f c v j e = ap (set_at f c v) (sym e) ∙ set_at-eq f c v

pub pending_pos : (m : ℕ) → 0 < m → pending m ≡ 1
pending_pos m h = ground arith

-- A child that misses nothing more enters the heap, and the others still miss something.
push_or_pend : (v h : ℕ) → h ≡ 1 → (if v == 0 then h else 0) + pending v ≡ 1
push_or_pend v h e = ground arith

push_none : (v h : ℕ) → h ≡ 0 → (if v == 0 then h else 0) ≡ 0
push_none v h e = ground arith

module _ {R : Type 0} (tasks : List (Task R)) where
  -- An entry of the ready heap is no earlier than the ends of what its task depends on.
  abbrev pub IsReady : (ℕ → ℕ) → Ready → Type 0
  IsReady finish e = (t : Task R) (d : ℕ) → In t tasks → t.key ≡ e.1 → In d t.deps → finish d ≤ e.0

  -- The tasks that are `done` have finished; the children `cs` of `k` have yet to hear of it.
  pub record IsBooked (done : ℕ → Bool) (k : ℕ) (cs : List ℕ) (s : Schedule R) : Type 0 where
    pub missing : (t : Task R) → In t tasks → s.missing t.key ≡ undone done t.deps + count t.key cs
    pub phase :
        (t : Task R)
        → In t tasks
        → in_heap t.key s.ready_heap + bit (done t.key) + pending (s.missing t.key) ≡ 1
    pub known : All (λ (e : Ready). e.1 < length tasks) s.ready_heap
    pub counted : s.completed ≡ total done (length tasks)
    pub ready_by :
        (t : Task R) (d : ℕ)
        → In t tasks
        → In d t.deps
        → done d ≡ true
        → (s.finish d ≤ s.ready_at t.key) ⊎ ((d ≡ k) × (0 < count t.key cs))
    pub entries : All (IsReady s.finish) s.ready_heap
    pub ends :
        (t : Task R) → In t tasks → done t.key ≡ true → s.finish t.key ≡ s.start t.key + t.duration
    pub waits :
        (t : Task R) (d : ℕ)
        → In t tasks
        → In d t.deps
        → done t.key ≡ true
        → s.finish d ≤ s.start t.key

  abbrev left : Schedule R → ℕ → ℕ
  left s c = s.missing c - 1

  module _ (done : ℕ → Bool) (k c when : ℕ) (cs : List ℕ) (s : Schedule R)
      (b : IsBooked done k (c ∷ cs) s) where
    missing_here :
        (t : Task R)
        → In t tasks
        → c ≡ t.key
        → s.missing c ≡ undone done t.deps + (1 + count t.key cs)
    missing_here t m e =
        let one = hit_same t.key c e in let same = ap s.missing e in omega (arith, b.missing t m)

    notify-missing :
        (t : Task R)
        → In t tasks
        → (notify when s c).missing t.key ≡ undone done t.deps + count t.key cs
    unfolding notify
    notify-missing t m = elim (key_cases c t.key) [
      | inl e ↦
          let now = set_at-hit s.missing c (left s c) t.key e in omega (arith, missing_here t m e)
      | inr e ↦
          let zero_hits = hit_other t.key c e in
          let now = set_at-ne s.missing c t.key (left s c) (λ q. e (sym q)) in
          omega (arith, b.missing t m)
    ]

    notify-in_heap :
        (j : ℕ)
        → in_heap j (notify when s c).ready_heap
          ≡ (if left s c == 0 then hit j c else 0) + in_heap j s.ready_heap
    unfolding notify
    notify-in_heap j = elim (Bool-cases (left s c == 0)) [
      | inl e ↦ rw e refl
      | inr e ↦ rw e (omega arith)
    ]

    notify-phase :
        (t : Task R)
        → In t tasks
        → in_heap t.key (notify when s c).ready_heap
            + bit (done t.key)
            + pending ((notify when s c).missing t.key)
          ≡ 1
    notify-phase t m = elim (key_cases c t.key) [
      | inl e ↦
          let now : (notify when s c).missing t.key ≡ left s c =
            unfold notify in set_at-hit s.missing c (left s c) t.key e in
          let waiting =
            pending_pos (s.missing t.key) (omega (arith, missing_here t m e, ap s.missing e)) in
          let pends = ap pending now in
          omega (
            arith,
            notify-in_heap t.key,
            push_or_pend (left s c) (hit t.key c) (hit_same t.key c e),
            b.phase t m,
          )
      | inr e ↦
          let now : (notify when s c).missing t.key ≡ s.missing t.key =
            unfold notify in set_at-ne s.missing c t.key (left s c) (λ q. e (sym q)) in
          let pends = ap pending now in
          omega (
            arith,
            notify-in_heap t.key,
            push_none (left s c) (hit t.key c) (hit_other t.key c e),
            b.phase t m,
          )
    ]

    notify-ready_by :
        (t : Task R) (d : ℕ)
        → s.finish k ≡ when
        → In t tasks
        → In d t.deps
        → done d ≡ true
        → (s.finish d ≤ (notify when s c).ready_at t.key) ⊎ ((d ≡ k) × (0 < count t.key cs))
    unfolding notify
    notify-ready_by t d w m i h =
        let at = max (s.ready_at c) when in
        elim (key_cases c t.key) [
          | inl e ↦
              let now = set_at-hit s.ready_at c at t.key e in
              let same = ap s.ready_at e in
              inl (elim (b.ready_by t d m i h) [
                | inl le ↦ omega arith
                | inr (q, p) ↦ let last = ap s.finish q in omega arith
              ])
          | inr e ↦
              let now = set_at-ne s.ready_at c t.key at (λ q. e (sym q)) in
              elim (b.ready_by t d m i h) [
                | inl le ↦ inl (omega arith)
                | inr (q, p) ↦ let zero_hits = hit_other t.key c e in inr (q, omega arith)
              ]
        ]

    notify-entries : s.finish k ≡ when → All (IsReady s.finish) (notify when s c).ready_heap
    unfolding notify
    notify-entries w = elim (Bool-cases (left s c == 0)) [
      | inl e ↦ rw e (entry e, b.entries)
      | inr e ↦ rw e b.entries
    ]
      where
        entry : (left s c == 0) ≡ true → IsReady s.finish (max (s.ready_at c) when, c)
        entry e t d m q i =
            let few : left s c ≡ 0 = is_zero (left s c) e in
            let all_missing = missing_here t m (sym q) in
            let all_done = undone_none done t.deps d (omega arith) i in
            let same = ap s.ready_at q in
            elim (b.ready_by t d m i all_done) [
              | inl le ↦ omega arith
              | inr (k', p) ↦ let last = ap s.finish k' in omega arith
            ]

    notify-known :
        c < length tasks → All (λ (e : Ready). e.1 < length tasks) (notify when s c).ready_heap
    unfolding notify
    notify-known l = elim (Bool-cases (left s c == 0)) [
      | inl e ↦ rw e (l, b.known)
      | inr e ↦ rw e b.known
    ]

    -- A child hears of the end.
    pub notify-IsBooked :
        s.finish k ≡ when → c < length tasks → IsBooked done k cs (notify when s c)
    unfolding notify
    notify-IsBooked w l = record {
      missing = notify-missing;
      phase = notify-phase;
      known = notify-known l;
      counted = b.counted;
      ready_by = λ t d m i h. notify-ready_by t d w m i h;
      entries = notify-entries w;
      ends = b.ends;
      waits = b.waits;
    }

  notify-finish : (when : ℕ) (s : Schedule R) (c : ℕ) → (notify when s c).finish ≡ s.finish
  unfolding notify
  notify-finish when s c = refl

  -- All children hear of the end.
  pub notified-IsBooked :
      (done : ℕ → Bool) (k when : ℕ) (cs : List ℕ) (s : Schedule R)
      → s.finish k ≡ when
      → All (λ c. c < length tasks) cs
      → IsBooked done k cs s
      → IsBooked done k [] (foldl (notify when) s cs)
  notified-IsBooked done k when [] s w l b = b
  notified-IsBooked done k when (c ∷ cs) s w (l, ls) b =
      notified-IsBooked done k when cs (notify when s c)
        (ap (λ f. f k) (notify-finish when s c) ∙ w) ls (notify-IsBooked done k c when cs s b w l)
