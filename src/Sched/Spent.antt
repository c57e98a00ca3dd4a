-- ===== src/Sched/Spent.antt =====
-- What the resources have been busy: the durations of their tasks, and no more than their slots show.
use mathlib.Core.List.{foldl}
use mathlib.Core.Bool.{true≢false}
use mathlib.Core.Logic.{ite, if_pos, if_neg}
use inferencesim.Prelude.{
  ℕ, ◌+◌, ◌≡◌, ◌≢◌, ◌≤◌, sym, ap, ◌∙◌, subst, Bool, true, false, List, [], ◌∷◌, if◌then◌else◌, ltb,
  sum, In, arith,
}
use inferencesim.Sched.Task.{Task, IsGraph}
use inferencesim.Sched.Heap.{set_at, set_on, set_at-eq, set_at-ne}
use inferencesim.Sched.Schedule.{Schedule, children, notify, release, occupy, add_busy}
use inferencesim.Sched.Within.{AllWithin, work_by, work_by-set_at}

module _ {R : Type 0} (same : Discrete R) where
  -- The duration of a task of `q`.
  abbrev pub share : R → Task R → ℕ
  share q t = ite (same q t.resource) t.duration 0

  module _ (tasks : List (Task R)) where
    pub record IsSpent (done : ℕ → Bool) (s : Schedule R) : Type 0 where
      pub busy : (q : R) → s.busy q ≡ work_by (share q) done tasks
      pub used : (q : R) → s.busy q ≤ sum (λ x. x) (s.slots q)
      pub within :
          (w : ℕ)
          → ((u : Task R) → In u tasks → done u.key ≡ true → s.finish u.key ≤ w)
          → (q : R) → AllWithin w (s.slots q)

    notified-IsSpent :
        (done : ℕ → Bool) (when : ℕ) (cs : List ℕ) (s : Schedule R)
        → IsSpent done s
        → IsSpent done (foldl (notify when) s cs)
    unfolding notify
    notified-IsSpent done when [] s b = b
    notified-IsSpent done when (c ∷ cs) s b =
        notified-IsSpent done when cs (notify when s c)
          (record { busy = b.busy; used = b.used; within = b.within })

    module _ (done : ℕ → Bool) (s : Schedule R) (b : IsSpent done s) (t : Task R) (slot : ℕ)
        (rest : List ℕ) (same_sum : slot + sum (λ x. x) rest ≡ sum (λ x. x) (s.slots t.resource))
        (kept : (v : ℕ) → AllWithin v (s.slots t.resource) → AllWithin v (slot ∷ rest)) where
      busier : R → ℕ
      busier = set_on same s.busy t.resource (s.busy t.resource + t.duration)

      busier_lem : (q : R) → busier q ≡ s.busy q + share q t
      unfolding busier set_on
      busier_lem q = elim (same q t.resource) [
        | yes e ↦
            let new : busier q ≡ s.busy t.resource + t.duration =
              if_pos (same q t.resource) e (s.busy t.resource + t.duration) (s.busy q) in
            let own : share q t ≡ t.duration = if_pos (same q t.resource) e t.duration 0 in
            omega (arith, new, own, ap s.busy e)
        | no e ↦
            let new : busier q ≡ s.busy q =
              if_neg (same q t.resource) e (s.busy t.resource + t.duration) (s.busy q) in
            let own : share q t ≡ 0 = if_neg (same q t.resource) e t.duration 0 in
            omega (arith, new, own)
      ]

      module _ (st : ℕ) (late : slot ≤ st) where
        abbrev to : ℕ
        to = st + t.duration

        abbrev slots_then : R → List ℕ
        slots_then = set_on same s.slots t.resource (to ∷ rest)

        used_then : (q : R) → busier q ≤ sum (λ x. x) (slots_then q)
        unfolding busier set_on
        used_then q = elim (same q t.resource) [
          | yes e ↦
              let new : slots_then q ≡ to ∷ rest =
                if_pos (same q t.resource) e (to ∷ rest) (s.slots q) in
              let own : share q t ≡ t.duration = if_pos (same q t.resource) e t.duration 0 in
              omega (
                arith,
                ap (sum (λ x. x)) new,
                own,
                busier_lem q,
                b.used t.resource,
                ap s.busy e,
                same_sum,
              )
          | no e ↦
              let new : slots_then q ≡ s.slots q =
                if_neg (same q t.resource) e (to ∷ rest) (s.slots q) in
              let own : share q t ≡ 0 = if_neg (same q t.resource) e t.duration 0 in
              omega (arith, ap (sum (λ x. x)) new, own, busier_lem q, b.used q)
        ]

        within_then :
            In t tasks
            → done t.key ≡ false
            → (w : ℕ)
            → ((u : Task R)
                → In u tasks
                → set_at done t.key true u.key ≡ true
                → set_at s.finish t.key to u.key ≤ w)
            → (q : R) → AllWithin w (slots_then q)
        unfolding set_on
        within_then m f w h q =
            let own = h t m (set_at-eq done t.key true) in
            let new = set_at-eq s.finish t.key to in
            let old = b.within w (λ u i d.
              let other : u.key ≢ t.key = λ z. true≢false (sym d ∙ ap done z ∙ f) in
              let before = h u i (set_at-ne done t.key u.key true other ∙ d) in
              omega (arith, before, set_at-ne s.finish t.key u.key to other)) in
            elim (same q t.resource) [
              | yes e ↦
                  rw (if_pos (same q t.resource) e)
                    (omega (arith, own, new), (kept w (old t.resource)).1)
              | no e ↦ rw (if_neg (same q t.resource) e) (old q)
            ]

      pub occupy-IsSpent :
          (rt k : ℕ)
          → IsGraph tasks
          → In t tasks
          → t.key ≡ k
          → done k ≡ false
          → IsSpent (set_at done k true) (occupy same tasks rt k slot rest t s)
      unfolding occupy release add_busy busier
      occupy-IsSpent rt k g m e f =
          let st = if ltb slot rt then rt else slot in
          let le : slot ≤ st = ground arith in
          let own : done t.key ≡ false = ap done e ∙ f in
          subst (λ k. IsSpent (set_at done k true) (occupy same tasks rt k slot rest t s)) e
            (notified-IsSpent (set_at done t.key true) (st + t.duration) (children tasks t.key) _
              (record {
                busy = λ q. omega (
                  arith,
                  busier_lem q,
                  b.busy q,
                  work_by-set_at (share q) done 0 tasks t g m own,
                );
                used = used_then st le;
                within = within_then st le m own;
              }))
