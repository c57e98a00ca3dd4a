-- ===== src/Sched/Fifo.antt =====
-- The rounds of `schedule` on resources with slots: one task after another, until all have ended.
use mathlib.Core.List.{foldl}
use inferencesim.Prelude.{
  ℕ, suc, ◌+◌, ◌≡◌, ◌≤◌, ◌<◌, refl, sym, ap, ◌∙◌, subst, Bool, true, false, List, [], ◌∷◌,
  if◌then◌else◌, ltb, length, All, In, arith,
}
use inferencesim.Sched.Task.{Task, IsGraph}
use inferencesim.Sched.Heap.{set_on, pop_min, All-pop_min, set_at}
use inferencesim.Sched.Schedule.{
  Ready, Resource, Schedule, children, notify, release, earlier, occupy, add_busy,
}
use inferencesim.Sched.Loop.{next, fresh, dispatch, take_ready, choose, round}
use inferencesim.Sched.Count.{total_all}
use inferencesim.Sched.Children.{task_of}
use inferencesim.Sched.Release.{IsBooked}
use inferencesim.Sched.Within.{IsWithin, work, work_by-set_at, IsWithin-eq, occupy-IsWithin}
use inferencesim.Sched.Ending.{release-IsBooked}
use inferencesim.Sched.Popped.{all_done, top_known, top_fresh, started-IsTaken}
use inferencesim.Sched.Capacity.{IsCapped, occupy-IsCapped}
use inferencesim.Sched.Spent.{IsSpent, occupy-IsSpent}
use inferencesim.Sched.Slots.{IsFree, serve_serial}

notified-dep_heap :
    {R : Type 0} (when : ℕ) (cs : List ℕ) (s : Schedule R)
    → (foldl (notify when) s cs).dep_heap ≡ s.dep_heap
unfolding notify
notified-dep_heap when [] s = refl
notified-dep_heap when (c ∷ cs) s = notified-dep_heap when cs (notify when s c)

notified-completed :
    {R : Type 0} (when : ℕ) (cs : List ℕ) (s : Schedule R)
    → (foldl (notify when) s cs).completed ≡ s.completed
unfolding notify
notified-completed when [] s = refl
notified-completed when (c ∷ cs) s = notified-completed when cs (notify when s c)

module _ {R : Type 0} (same : Discrete R) (rank : R → ℕ) (resources : R → Resource)
    (tasks : List (Task R)) where
  -- The books, between two rounds, with as many tasks done as the counter says.
  pub record IsOpen (s : Schedule R) : Type 0 where
    pub done : ℕ → Bool
    pub latest : ℕ
    pub books : IsBooked tasks done latest [] s
    pub no_departures : s.dep_heap ≡ []
    pub within : IsWithin (work done tasks) s
    pub capped : IsCapped same resources tasks done s
    pub spent : IsSpent same tasks done s

  pub round_open :
      (s : Schedule R)
      → s.dep_heap ≡ []
      → round same rank resources tasks s
        ≡ take_ready same rank resources tasks s.ready_heap (record s { dep_heap = [] })
  unfolding round choose fresh
  round_open s e =
      ap
        (λ ds.
          let waiting = fresh same rank resources (length ds) s ds in
          choose same rank resources tasks waiting (record s { dep_heap = waiting }))
        e

  module _ (g : IsGraph tasks) (serial : (r : R) → (resources r).shared ≡ false) where
    heap_within :
        (s : Schedule R) (o : IsOpen s) (e : Ready) (es : List Ready)
        → s.ready_heap ≡ e ∷ es
        → ((pop_min earlier e es).0.0 ≤ work o.done tasks)
          × All (λ (x : Ready). x.0 ≤ work o.done tasks) (pop_min earlier e es).1
    heap_within s o e es h =
        let (p, ps) = subst (All (λ (x : Ready). x.0 ≤ work o.done tasks)) h o.within.heap in
        All-pop_min earlier (λ (x : Ready). x.0 ≤ work o.done tasks) e es p ps

    pop-IsWithin :
        (s : Schedule R) (o : IsOpen s) (e : Ready) (es : List Ready)
        → s.ready_heap ≡ e ∷ es
        → IsWithin
            (work o.done tasks)
            (record s { dep_heap = []; ready_heap = (pop_min earlier e es).1 })
    pop-IsWithin s o e es h = record {
      slots = o.within.slots;
      heap = (heap_within s o e es h).1;
      ready_at = o.within.ready_at;
      finish = o.within.finish;
    }

    -- The work that is done grows by that of the task that leaves the heap.
    worked :
        (s : Schedule R) (o : IsOpen s) (e : Ready) (es : List Ready) (h : s.ready_heap ≡ e ∷ es)
        → (t : Task R) → In t tasks
        → t.key ≡ (pop_min earlier e es).0.1
        → work o.done tasks + t.duration
          ≡ work (set_at o.done (pop_min earlier e es).0.1 true) tasks
    worked s o e es h t m q =
        let unstarted =
          top_fresh tasks g o.done o.latest s o.books e es h t m q (pop_min earlier e es).0.0
            (omega arith) in
        subst (λ k. work o.done tasks + t.duration ≡ work (set_at o.done k true) tasks) q
          (sym (work_by-set_at (λ u. u.duration) o.done 0 tasks t g m (ap o.done q ∙ unstarted)))

    -- A task is served: it starts no earlier than it is ready, and its end is told.
    occupied-IsOpen :
        (s : Schedule R) (o : IsOpen s) (e : Ready) (es : List Ready) (h : s.ready_heap ≡ e ∷ es)
        → (t : Task R) → In t tasks
        → t.key ≡ (pop_min earlier e es).0.1
        → (slot : ℕ) (rest : List ℕ)
        → IsFree (work o.done tasks) (resources t.resource) (s.slots t.resource) slot rest
        → let s' =
            occupy same tasks
              (pop_min earlier e es).0.0
              (pop_min earlier e es).0.1
              slot
              rest
              t
              (record s { dep_heap = []; ready_heap = (pop_min earlier e es).1 }) in
          IsOpen s' × (s'.completed ≡ s.completed + 1)
    unfolding occupy add_busy release
    occupied-IsOpen s o e es h t m q slot rest free =
        let rt = (pop_min earlier e es).0.0 in
        let k = (pop_min earlier e es).0.1 in
        let st = if ltb slot rt then rt else slot in
        let le : rt ≤ st = ground arith in
        let held = add_busy same t.resource t.duration (record s {
          dep_heap = [];
          ready_heap = (pop_min earlier e es).1;
          slots = set_on same s.slots t.resource ((st + t.duration) ∷ rest);
          start = set_at s.start k st;
        }) in
        let unstarted = top_fresh tasks g o.done o.latest s o.books e es h t m q rt (omega arith) in
        let taken = started-IsTaken tasks g o.done o.latest s o.books e es h t m q st le held in
        (
          record {
            done = set_at o.done k true;
            latest = k;
            books = release-IsBooked tasks g o.done k (st + t.duration) held taken;
            no_departures = notified-dep_heap (st + t.duration) (children tasks k) _;
            within = IsWithin-eq _ _ _ (worked s o e es h t m q) (
                occupy-IsWithin same tasks (work o.done tasks) rt k slot rest t
                  (record s { dep_heap = []; ready_heap = (pop_min earlier e es).1 })
                  (heap_within s o e es h).0 free.early free.within (pop-IsWithin s o e es h));
            capped =
                occupy-IsCapped same resources tasks o.done
                  (record s { dep_heap = []; ready_heap = (pop_min earlier e es).1 })
                  (record { slots = o.capped.slots; few = o.capped.few }) t slot rest
                  free.same_taken free.few rt k g m q unstarted;
            spent =
                occupy-IsSpent same tasks o.done
                  (record s { dep_heap = []; ready_heap = (pop_min earlier e es).1 })
                  (record { busy = o.spent.busy; used = o.spent.used; within = o.spent.within }) t
                  slot rest free.same_sum free.kept rt k g m q unstarted;
          },
          notified-completed (st + t.duration) (children tasks k) _,
        )

    pub round_serial :
        (s : Schedule R) (o : IsOpen s) (heap : List Ready)
        → s.ready_heap ≡ heap
        → s.completed < length tasks
        → (s' : Schedule R) × (take_ready same rank resources tasks heap
              (record s { dep_heap = [] })
            ≡ next s')
          × IsOpen s'
          × (s'.completed ≡ s.completed + 1)
    unfolding take_ready dispatch
    round_serial s o [] h l =
        let all =
          total_all o.done (length tasks)
            (λ j n. all_done tasks g o.done o.latest s o.books h (suc j) j (omega arith) n) in
        absurd (omega (arith, o.books.counted))
    round_serial s o (e ∷ es) h l =
        let k = (pop_min earlier e es).0.1 in
        let rt = (pop_min earlier e es).0.0 in
        let n = (top_known tasks g o.done o.latest s o.books e es h).0 in
        let (t, f, q, m) = task_of tasks k g n in
        let s0 = record s { dep_heap = []; ready_heap = (pop_min earlier e es).1 } in
        let (slot, rest, served, free) =
          serve_serial same rank resources tasks (work o.done tasks) s0 rt k t (serial t.resource)
            (o.within.slots t.resource) (o.capped.few t.resource) in
        let (kept, more) = occupied-IsOpen s o e es h t m q slot rest free in
        (_, rw f (ap next served), kept, more)
