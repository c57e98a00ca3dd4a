-- ===== src/Sched/Slots.antt =====
-- The slot that a task on a resource with slots takes.
use inferencesim.Prelude.{
  sum, ◌+◌, ℕ, zero, suc, ◌-◌, ◌≡◌, ◌≤◌, refl, ap, ◌∙◌, max, false, List, [], ◌∷◌, if◌then◌else◌,
  ltb, arith,
}
use inferencesim.Sched.Task.{Task}
use inferencesim.Sched.Heap.{pop_min, pop_min-sum, All-pop_min}
use inferencesim.Sched.Schedule.{
  Resource, Schedule, least_slot, replicate, free_times, occupy, serve_fifo, serve_shared,
}
use inferencesim.Sched.Loop.{serve_task}
use inferencesim.Sched.Within.{AllWithin, replicate-AllWithin}
use inferencesim.Sched.Capacity.{taken, slot_count}

-- Of the slots of a resource, the one that is free first, no later than `w`, and the others.
pub record IsFree (w : ℕ) (r : Resource) (xs : List ℕ) (slot : ℕ) (rest : List ℕ) : Type 0 where
  pub early : slot ≤ w
  pub within : AllWithin w rest
  pub same_taken : (now : ℕ) → taken now (slot ∷ rest) ≡ taken now xs
  pub few : slot_count (slot ∷ rest) ≤ max 1 r.servers
  pub same_sum : slot + sum (λ x. x) rest ≡ sum (λ x. x) xs
  pub kept : (v : ℕ) → AllWithin v xs → AllWithin v (slot ∷ rest)

taken-replicate : (now n : ℕ) → taken now (replicate n 0) ≡ 0
unfolding replicate
taken-replicate now zero = refl
taken-replicate now (suc n) = let rest = taken-replicate now n in ground arith

sum-replicate : (n : ℕ) → sum (λ x. x) (replicate n 0) ≡ 0
unfolding replicate
sum-replicate zero = refl
sum-replicate (suc n) = omega (arith, sum-replicate n)

slot_count-replicate : (n : ℕ) → slot_count (replicate n 0) ≡ n
unfolding replicate
slot_count-replicate zero = refl
slot_count-replicate (suc n) = omega (arith, slot_count-replicate n)

module _ {R : Type 0} (same : Discrete R) (rank : R → ℕ) (resources : R → Resource)
    (tasks : List (Task R)) where
  free_times-IsFree :
      (w : ℕ) (r : Resource) (xs : List ℕ)
      → AllWithin w xs
      → slot_count xs ≤ max 1 r.servers
      → (y : ℕ) × (ys : List ℕ) × (free_times same r xs ≡ y ∷ ys) × IsFree w r xs y ys
  unfolding free_times replicate
  free_times-IsFree w r [] a n =
      let pos : max 1 r.servers ≡ suc (max 1 r.servers - 1) = omega arith in
      (
        0,
        replicate (max 1 r.servers - 1) 0,
        ap (λ n. replicate n 0) pos,
        record {
          early = omega arith;
          within = replicate-AllWithin w (max 1 r.servers - 1);
          same_taken = λ now. taken-replicate now (suc (max 1 r.servers - 1));
          few = omega (arith, slot_count-replicate (max 1 r.servers - 1));
          same_sum = omega (arith, sum-replicate (max 1 r.servers - 1));
          kept = λ v h. (omega arith, replicate-AllWithin v (max 1 r.servers - 1));
        },
      )
  free_times-IsFree w r (x ∷ xs) a n = (
    x,
    xs,
    refl,
    record {
      early = a.0;
      within = a.1;
      same_taken = λ now. refl;
      few = n;
      same_sum = refl;
      kept = λ v h. h;
    },
  )

  pub serve_serial :
      (w : ℕ) (s : Schedule R) (rt k : ℕ) (t : Task R)
      → (resources t.resource).shared ≡ false
      → AllWithin w (s.slots t.resource)
      → slot_count (s.slots t.resource) ≤ max 1 (resources t.resource).servers
      → (slot : ℕ) × (rest : List ℕ) × (serve_task same rank resources tasks rt k t s
          ≡ occupy same tasks rt k slot rest t s)
        × IsFree w (resources t.resource) (s.slots t.resource) slot rest
  unfolding serve_task serve_fifo
  serve_serial w s rt k t serial a n =
      let (y, ys, e, free) = free_times-IsFree w (resources t.resource) (s.slots t.resource) a n in
      let (slot, rest) = pop_min least_slot y ys in
      let (early, all) = All-pop_min least_slot (λ x. x ≤ w) y ys free.early free.within in
      (
        slot,
        rest,
        ap
              (λ b.
                if b
                then serve_shared same rt k t s
                else serve_fifo same tasks rt k
                    (free_times same (resources t.resource) (s.slots t.resource)) t s)
              serial
            ∙ ap (λ xs. serve_fifo same tasks rt k xs t s) e,
        record {
          early = early;
          within = all;
          same_taken = λ now.
              pop_min-sum least_slot (λ x. if ltb now x then 1 else 0) y ys ∙ free.same_taken now;
          few = omega (arith, pop_min-sum least_slot (λ _. 1) y ys, free.few);
          same_sum = omega (arith, pop_min-sum least_slot (λ x. x) y ys, free.same_sum);
          kept =
              λ v h. All-pop_min least_slot (λ x. x ≤ v) y ys (free.kept v h).0 (free.kept v h).1;
        },
      )
