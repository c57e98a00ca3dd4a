-- ===== src/Serve/Served.antt =====
-- The run of the event loop of `serve` under the reserve policy with exclusive prefill.
use inferencesim.Prelude.{
  ℕ, zero, suc, ◌+◌, ◌*◌, ◌≡◌, ◌≤◌, ◌<◌, refl, ap, ◌∙◌, false, List, [], ◌∷◌, length, sum, arith,
  ltb, if_elim, none,
}
use inferencesim.Serve.Request.{Req, RequestRecord}
use inferencesim.Serve.State.{Replica, State, start}
use inferencesim.Serve.Step.{
  Turn, next, halt, queue, iteration, Outcome, served, run, iter_cap, serve_loop,
}
use inferencesim.Serve.Rules.{queue_keeps, iteration_keeps}
use inferencesim.Serve.Conserve.{tally, only, IsTally-Keeps}
use inferencesim.Serve.Progress.{effort, effort_queued, away}
use inferencesim.Serve.Completion.{iteration-effort, iteration-halt}

-- How much weight the records of the completed requests have.
abbrev pub completed_weight : (ℕ → ℕ) → State → ℕ
completed_weight w s = sum (λ (c : RequestRecord). w c.idx) s.completed

length-eq-tally : (cs : List RequestRecord) → sum (λ (c : RequestRecord). 1) cs ≡ length cs
length-eq-tally [] = refl
length-eq-tally (c ∷ cs) = omega (arith, length-eq-tally cs)

count-nil : (rs : List Req) → sum (λ (r : Req). 1) rs ≡ 0 → rs ≡ []
count-nil [] e = refl
count-nil (r ∷ rs) e = absurd (omega arith)

-- Of a state in which nothing is left, the tally is that of the completed requests.
tally-nil :
    (w : ℕ → ℕ) (s : State)
    → s.incoming ≡ []
    → s.waiting ≡ []
    → s.running ≡ []
    → completed_weight w s ≡ tally w s
tally-nil w s a b c =
    let f : List Req → ℕ = sum (λ (r : Req). w r.idx) in
    let a' = ap f a in let b' = ap f b in let c' = ap f c in omega arith

module _ (p : Replica) (reserve : p.on_demand ≡ false) (exclusive_only : p.prefill_chunk ≡ none)
    (n : ℕ) where
  all_done :
      (s : State)
      → tally (λ _. 1) s ≡ n
      → ltb (length s.completed) n ≡ false
      → (w : ℕ → ℕ) → completed_weight w s ≡ tally w s
  all_done s e h w =
      let m = length-eq-tally s.completed in
      let k : n ≤ length s.completed = ground arith in
      tally-nil w s (count-nil s.incoming (omega arith)) (count-nil s.waiting (omega arith))
        (count-nil s.running (omega arith))

  halted : (s t : State) → iteration p s ≡ halt t → (w : ℕ → ℕ) → completed_weight w t ≡ tally w s
  halted s t e w =
      let (same, h) = iteration-halt p reserve exclusive_only s t e in
      let q = queue p s in
      let k = queue_keeps p (λ u. tally w u ≡ tally w s) (IsTally-Keeps p w (tally w s)) s refl in
      rw (← same) (tally-nil w q h.incoming_nil h.waiting_nil h.running_nil ∙ k)

  abbrev IsServed : State → Outcome → Type 0
  IsServed s o = (t : State) × (o ≡ served t) × ((w : ℕ → ℕ) → completed_weight w t ≡ tally w s)

  turn :
      (s : State) (left : ℕ) (u : Turn)
      → iteration p s ≡ u
      → ((t : State) → effort t < left → tally (λ _. 1) t ≡ n → IsServed t (run p n left t))
      → effort s < suc left
      → tally (λ _. 1) s ≡ n
      → IsServed s (elim u [ halt t ↦ served t | next t ↦ run p n left t ])
  turn s left (halt t) e rec h m = (t, refl, halted s t e)
  turn s left (next t) e rec h m =
      let same = λ (w : ℕ → ℕ).
        iteration_keeps p (λ u. tally w u ≡ tally w s) (IsTally-Keeps p w (tally w s)) s t
          exclusive_only refl e in
      let (last, o, all) =
        rec t (omega (arith, iteration-effort p reserve exclusive_only s t e))
          (same (λ _. 1) ∙ m) in
      (last, o, λ w. all w ∙ same w)

  run-IsServed :
      (fuel : ℕ) (s : State) → effort s < fuel → tally (λ _. 1) s ≡ n → IsServed s (run p n fuel s)
  unfolding run
  run-IsServed zero s h e = absurd (omega arith)
  run-IsServed (suc left) s h e =
      if_elim (IsServed s) (ltb (length s.completed) n)
        (λ c. turn s left (iteration p s) refl (run-IsServed left) h e)
        (λ c. (s, refl, all_done s e c))

-- The budget of iterations is more than the work of the requests.
effort-lt-cap : (reqs : List Req) → 0 < length reqs → effort (start reqs) < iter_cap reqs
unfolding iter_cap
effort-lt-cap reqs h = omega (arith, away-le-length 0 reqs, queued-le reqs, outputs-le reqs)
  where
    away-le-length : (clock : ℕ) (rs : List Req) → away clock rs ≤ 2 * length rs
    away-le-length clock [] = omega arith
    away-le-length clock (r ∷ rs) = ground arith

    queued-le :
        (rs : List Req) → sum effort_queued rs ≤ 2 * length rs + sum (λ (r : Req). r.output_len) rs
    queued-le [] = omega arith
    queued-le (r ∷ rs) = omega (arith, queued-le rs)

    outputs-le :
        (rs : List Req)
        → sum (λ (r : Req). r.output_len) rs ≤ sum (λ (r : Req). r.prompt_len + r.output_len) rs
    outputs-le [] = omega arith
    outputs-le (r ∷ rs) = omega (arith, outputs-le rs)

-- Under the reserve policy with exclusive prefill, and with at least one request, the loop never
-- raises its livelock error: it returns a state in which every request number is completed exactly
-- as often as it stands among the requests.
pub serve_loop-served :
    (p : Replica) (reqs : List Req)
    → p.on_demand ≡ false
    → p.prefill_chunk ≡ none
    → 0 < length reqs
    → (t : State) × (serve_loop p reqs ≡ served t)
      × ((i : ℕ) → completed_weight (only i) t ≡ sum (λ (r : Req). only i r.idx) reqs)
unfolding serve_loop
serve_loop-served p reqs reserve exclusive_only h =
    let all =
      run-IsServed p reserve exclusive_only (length reqs) (iter_cap reqs) (start reqs)
        (effort-lt-cap reqs h) (omega (arith, ones reqs)) in
    (all.0, all.1, λ i. omega (arith, all.2 (only i)))
  where
    ones : (rs : List Req) → sum (λ (r : Req). 1) rs ≡ length rs
    ones [] = refl
    ones (r ∷ rs) = omega (arith, ones rs)
