-- ===== src/Serve/Reach.antt =====
-- The states that the event loop of `serve` passes through.
use inferencesim.Prelude.{ℕ, ◌+◌, ◌≡◌, ◌≤◌, ◌<◌, refl, false, List, length, sum, arith, All, none}
use inferencesim.Serve.Request.{Req}
use inferencesim.Serve.Kv.{IsKvModel}
use inferencesim.Serve.State.{Replica, State, start}
use inferencesim.Serve.Loop.{full_fp}
use inferencesim.Serve.Step.{next, iteration}
use inferencesim.Serve.Rules.{Keeps, iteration_keeps}
use inferencesim.Serve.Accounting.{resident}
use inferencesim.Serve.Sound.{Fits, IsSound, resident-le-fulls}
use inferencesim.Serve.Batch.{IsSound-Keeps}
use inferencesim.Serve.Conserve.{tally, only, IsTally-Keeps}

-- The loop has come to a state after some iterations on `reqs`.
pub data Reach (p : Replica) (reqs : List Req) : State → Type 0 where
  begun : Reach p reqs (start reqs)
  turned : {s t : State} → Reach p reqs s → iteration p s ≡ next t → Reach p reqs t

pub Reach_keeps :
    (p : Replica) (P : State → Type 0) (reqs : List Req) {s : State}
    → Keeps p P
    → p.prefill_chunk ≡ none
    → P (start reqs)
    → Reach p reqs s
    → P s
Reach_keeps p P reqs k x h begun = h
Reach_keeps p P reqs k x h (turned {s} {t} r e) =
    iteration_keeps p P k s t x (Reach_keeps p P reqs k x h r) e

-- What `serve` checks before the loop: a slot, a sane KV model, and the guard on every request.
pub record IsGuarded (p : Replica) (reqs : List Req) : Type 0 where
  pub slots : 0 < p.max_batch
  pub model : IsKvModel p.kv
  pub exclusive_only : p.prefill_chunk ≡ none
  pub guard : All (Fits p) reqs

IsSound-start : (p : Replica) (reqs : List Req) → All (Fits p) reqs → IsSound p (start reqs)
IsSound-start p reqs g = record {
  coming = g;
  queued = tt;
  fits = tt;
  tracked = tt;
  accounted = refl;
  capacity = omega arith;
  reserve =
      λ d. record { reserved = refl; within = omega arith; no_preempt = refl; peak = omega arith };
}

Reach-IsSound :
    (p : Replica) (reqs : List Req) {s : State} → IsGuarded p reqs → Reach p reqs s → IsSound p s
Reach-IsSound p reqs g r =
    Reach_keeps p (IsSound p) reqs (IsSound-Keeps p g.model g.slots) g.exclusive_only
      (IsSound-start p reqs g.guard) r

-- With exclusive prefill, under either policy, in every state that the loop reaches on guarded
-- requests `kv_used` is exactly the KV of the contexts of the running requests, and no more than
-- `max_batch` requests run.
pub Reach-kv_used :
    (p : Replica) (reqs : List Req) {s : State}
    → IsGuarded p reqs
    → Reach p reqs s
    → (s.kv_used ≡ sum (resident p) s.running) × (length s.running ≤ p.max_batch)
Reach-kv_used p reqs g r = let h = Reach-IsSound p reqs g r in (h.accounted, h.capacity)

-- Under the reserve policy with exclusive prefill, in every state that the loop reaches on guarded
-- requests `kv_reserved` is the sum of the full footprints of the running requests, nothing was ever
-- preempted, and the reserved, the used and the greatest KV so far are within the budget and its
-- slack.
pub Reach-reserve :
    (p : Replica) (reqs : List Req) {s : State}
    → IsGuarded p reqs
    → p.on_demand ≡ false
    → Reach p reqs s
    → (s.kv_reserved ≡ sum (full_fp p) s.running)
      × (s.n_preempt ≡ 0)
      × (s.kv_reserved ≤ p.kv_budget + p.eps)
      × (s.kv_used ≤ s.kv_reserved)
      × (s.peak_kv ≤ p.kv_budget + p.eps)
Reach-reserve p reqs {s} g d r =
    let h = Reach-IsSound p reqs g r in
    let k = h.reserve d in
    (
      k.reserved,
      k.no_preempt,
      k.within,
      omega (arith, h.accounted, k.reserved, resident-le-fulls p s.running g.model h.tracked),
      k.peak,
    )

-- With exclusive prefill, under either policy, no request is lost or served twice on the way: in
-- every state that the loop reaches each request number stands among the arriving, the waiting, the
-- running and the completed requests as often as among the requests of the run.
pub Reach-tally :
    (p : Replica) (reqs : List Req) {s : State}
    → p.prefill_chunk ≡ none
    → Reach p reqs s
    → (i : ℕ) → tally (only i) s ≡ sum (λ (r : Req). only i r.idx) reqs
Reach-tally p reqs x r i =
    Reach_keeps p _ reqs (IsTally-Keeps p (only i) (sum (λ (r : Req). only i r.idx) reqs)) x
      (omega arith) r
