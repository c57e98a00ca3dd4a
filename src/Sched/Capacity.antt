-- ===== src/Sched/Capacity.antt =====
-- How many tasks run on a resource at a time: no more than it has slots that are taken then.
use mathlib.Core.List.{foldl}
use mathlib.Core.Logic.{ite, if_pos, if_neg}
use inferencesim.Prelude.{
  ℕ, ◌+◌, ◌≡◌, ◌≤◌, ◌<◌, refl, ap, subst, max, Bool, true, false, ◌&&◌, List, [], ◌∷◌,
  if◌then◌else◌, ltb, leb, sum, In, inl, inr, arith, ◌∙◌, ◌≢◌,
}
use inferencesim.Sched.Task.{Task, IsGraph, IsGraphFrom}
use inferencesim.Sched.Children.{key_bounds}
use inferencesim.Sched.Heap.{set_at, set_on, set_at-eq, set_at-ne}
use inferencesim.Sched.Schedule.{Resource, Schedule, children, notify, release, occupy, add_busy}

-- How many slots are free later than `now` only.
abbrev pub taken : ℕ → List ℕ → ℕ
taken now = sum (λ x. if ltb now x then 1 else 0)

-- How many slots there are.
abbrev pub slot_count : List ℕ → ℕ
slot_count = sum (λ _. 1)

pub taken_le : (now : ℕ) (xs : List ℕ) → taken now xs ≤ slot_count xs
taken_le now [] = omega arith
taken_le now (x ∷ xs) = let rest = taken_le now xs in ground arith

module _ {R : Type 0} (same : Discrete R) where
  -- 1 for a task that runs on `q` at `now`, from `from` until before `to`.
  abbrev pub runs : R → (now from to : ℕ) → Task R → ℕ
  runs q now from to t = ite (same q t.resource) (if leb from now && ltb now to then 1 else 0) 0

  abbrev pub running : (start finish : ℕ → ℕ) (done : ℕ → Bool) → R → ℕ → List (Task R) → ℕ
  running start finish done q now [] = 0
  running start finish done q now (t ∷ ts) =
      (if done t.key then runs q now (start t.key) (finish t.key) t else 0)
      + running start finish done q now ts

  module _ (start finish : ℕ → ℕ) (done : ℕ → Bool) (q : R) (now from to : ℕ) where
    running_other :
        (k n : ℕ) (ts : List (Task R))
        → IsGraphFrom n ts
        → k < n
        → running (set_at start k from) (set_at finish k to) (set_at done k true) q now ts
          ≡ running start finish done q now ts
    running_other k n [] g l = refl
    running_other k n (t ∷ ts) (e, ds, g) l =
        let other : t.key ≢ k = omega arith in
        rw
          (
            set_at-ne start k t.key from other,
            set_at-ne finish k t.key to other,
            set_at-ne done k t.key true other,
            running_other k (n + 1) ts g (omega arith),
          )
          refl

    -- A task is started that was not.
    running-set_at :
        (n : ℕ) (ts : List (Task R)) (t : Task R)
        → IsGraphFrom n ts
        → In t ts
        → done t.key ≡ false
        → running
            (set_at start t.key from)
            (set_at finish t.key to)
            (set_at done t.key true)
            q
            now
            ts
          ≡ running start finish done q now ts + runs q now from to t
    running-set_at n [] t g m f = absurd m
    running-set_at n (x ∷ ts) t (e, ds, g) (inl p) f =
        subst
          (λ (u : Task R).
            done u.key ≡ false
            → running (set_at start u.key from) (set_at finish u.key to) (set_at done u.key true) q
                now (x ∷ ts)
              ≡ running start finish done q now (x ∷ ts) + runs q now from to u)
          p
          (λ old.
            rw
              (
                set_at-eq start x.key from,
                set_at-eq finish x.key to,
                set_at-eq done x.key true,
                running_other x.key (n + 1) ts g (omega arith),
                old,
              )
              (omega arith))
          f
    running-set_at n (x ∷ ts) t (e, ds, g) (inr m) f =
        let bounds = key_bounds (n + 1) ts t g m in
        let other : x.key ≢ t.key = omega arith in
        rw
          (
            set_at-ne start t.key x.key from other,
            set_at-ne finish t.key x.key to other,
            set_at-ne done t.key x.key true other,
            running-set_at (n + 1) ts t g m f,
          )
          (omega arith)

  module _ (resources : R → Resource) (tasks : List (Task R)) where
    pub record IsCapped (done : ℕ → Bool) (s : Schedule R) : Type 0 where
      pub slots :
          (q : R) (now : ℕ) → running s.start s.finish done q now tasks ≤ taken now (s.slots q)
      pub few : (q : R) → slot_count (s.slots q) ≤ max 1 (resources q).servers

    notified-IsCapped :
        (done : ℕ → Bool) (when : ℕ) (cs : List ℕ) (s : Schedule R)
        → IsCapped done s
        → IsCapped done (foldl (notify when) s cs)
    unfolding notify
    notified-IsCapped done when [] s b = b
    notified-IsCapped done when (c ∷ cs) s b =
        notified-IsCapped done when cs (notify when s c) (record { slots = b.slots; few = b.few })

    module _ (done : ℕ → Bool) (s : Schedule R) (b : IsCapped done s) (t : Task R) (slot : ℕ)
        (rest : List ℕ)
        (same_taken : (now : ℕ) → taken now (slot ∷ rest) ≡ taken now (s.slots t.resource))
        (few : slot_count (slot ∷ rest) ≤ max 1 (resources t.resource).servers) where
      -- The slot is taken for as long as the task runs.
      held_slots :
          (from to : ℕ)
          → slot ≤ from
          → slot ≤ to
          → (q : R) (now : ℕ)
          → running s.start s.finish done q now tasks + runs q now from to t
            ≤ taken now (set_on same s.slots t.resource (to ∷ rest) q)
      unfolding set_on
      held_slots from to lf lt q now = elim (same q t.resource) [
        | yes e ↦
            let on = ap (λ q. taken now (s.slots q)) e in
            let sum_of = same_taken now in
            let all = b.slots q now in
            let new : set_on same s.slots t.resource (to ∷ rest) q ≡ to ∷ rest =
              if_pos (same q t.resource) e (to ∷ rest) (s.slots q) in
            rw (new, if_pos (same q t.resource) e) (ground arith)
        | no e ↦
            let keep : set_on same s.slots t.resource (to ∷ rest) q ≡ s.slots q =
              if_neg (same q t.resource) e (to ∷ rest) (s.slots q) in
            rw (keep, if_neg (same q t.resource) e) (omega (arith, b.slots q now))
      ]

      held_few :
          (to : ℕ) (q : R)
          → slot_count (set_on same s.slots t.resource (to ∷ rest) q) ≤ max 1 (resources q).servers
      unfolding set_on
      held_few to q = elim (same q t.resource) [
        | yes e ↦
            let on = ap (λ q. (resources q).servers) e in
            rw (if_pos (same q t.resource) e) (omega (arith, on, few))
        | no e ↦ rw (if_neg (same q t.resource) e) (b.few q)
      ]

      pub occupy-IsCapped :
          (rt k : ℕ)
          → IsGraph tasks
          → In t tasks
          → t.key ≡ k
          → done k ≡ false
          → IsCapped (set_at done k true) (occupy same tasks rt k slot rest t s)
      unfolding occupy release add_busy
      occupy-IsCapped rt k g m e f =
          let st = if ltb slot rt then rt else slot in
          let le : slot ≤ st = ground arith in
          let to = st + t.duration in
          notified-IsCapped (set_at done k true) to (children tasks k) _ (record {
            slots = λ q now.
                subst
                  (λ k.
                    running (set_at s.start k st) (set_at s.finish k to) (set_at done k true) q now
                      tasks
                    ≤ taken now (set_on same s.slots t.resource (to ∷ rest) q))
                  e
                  (omega (
                    arith,
                    running-set_at s.start s.finish done q now st to 0 tasks t g m (ap done e ∙ f),
                    held_slots st to le (omega arith) q now,
                  ));
            few = held_few to;
          })
