-- ===== src/Serve/Progress.antt =====
-- A measure of the work that `serve` has left under the reserve policy with exclusive prefill.
use inferencesim.Prelude.{
  ℕ, ◌+◌, ◌-◌, ◌*◌, ◌≡◌, ◌≤◌, ◌<◌, max, ap, ◌∙◌, true, not, List, [], ◌∷◌, map, if◌then◌else◌,
  length, filter, sum, sum-append, sum-replace, arith, In, leb,
}
use inferencesim.Serve.Request.{Req, Req-discrete, complete_prefill, prefill_target, reset}
use inferencesim.Serve.State.{Replica, State}
use inferencesim.Serve.Loop.{is_decoder, is_done, decoders, admit, arrive}
use inferencesim.Serve.Step.{fill, peaks}
use inferencesim.Serve.Batch.{tick, after_decode, after_decode-running, after_decode-SameQueue}

-- The tokens that a request still has to produce; one, where it asks for none.
abbrev pub todo : Req → ℕ
todo r = max 1 (r.output_len - r.gen)

-- The iterations that a request still needs: its tokens, and a prefill.
abbrev pub effort_queued : Req → ℕ
effort_queued r = 1 + todo r

abbrev pub effort_running : Req → ℕ
effort_running r = (if r.needs_prefill then 1 else 0) + todo r

-- The jumps of the clock that the arrivals to come may take.
abbrev pub away : ℕ → List Req → ℕ
away clock [] = 0
away clock (r ∷ rs) = (if leb r.arrival clock then 1 else 2) + 2 * length rs

abbrev pub effort : State → ℕ
effort s =
    away s.clock s.incoming
    + sum effort_queued s.incoming
    + sum effort_queued s.waiting
    + sum effort_running s.running

away-le : (clock : ℕ) (rs : List Req) → away clock rs ≤ 2 * length rs
away-le clock [] = omega arith
away-le clock (r ∷ rs) = ground arith

pub away_mono : (c d : ℕ) (rs : List Req) → c ≤ d → away d rs ≤ away c rs
away_mono c d [] h = omega arith
away_mono c d (r ∷ rs) h = ground arith

-- After a step of the decoders, each of them needs an iteration less.
decoders_work :
    (t : ℕ) (rs : List Req)
    → sum effort_running (filter (λ r. not (is_done r)) (map (tick t) rs))
        + length (filter is_decoder rs)
      ≤ sum effort_running rs
decoders_work t [] = omega arith
decoders_work t (r ∷ rs) = ground (arith, decoders_work t rs)

module _ (p : Replica) where
  pub effort-arrive :
      (r : Req) (rs : List Req) (s : State)
      → s.incoming ≡ r ∷ rs
      → r.arrival ≤ s.clock
      → effort (arrive r rs s) ≤ effort s
  unfolding arrive
  effort-arrive r rs s e h =
      let a = ap (away s.clock) e in
      let b = ap (sum effort_queued) e in
      ground (arith, a, b, away-le s.clock rs, sum-append effort_queued s.waiting (r ∷ []))

  pub effort-admit :
      (r : Req) (rs : List Req) (s : State)
      → s.waiting ≡ r ∷ rs
      → effort (admit p r rs s) ≡ effort s
  unfolding admit
  effort-admit r rs s e =
      let b = ap (sum effort_queued) e in
      omega (arith, b, sum-append effort_running s.running (reset r ∷ []))

  effort_running-complete_prefill :
      (t : ℕ) (r : Req)
      → r.needs_prefill ≡ true
      → effort_running (complete_prefill t r) + 1 ≡ effort_running r
  unfolding complete_prefill
  effort_running-complete_prefill t r h = ground arith

  pub effort-fill :
      (r : Req) (s : State)
      → In r s.running
      → r.needs_prefill ≡ true
      → effort (fill p r s) < effort s
  unfolding fill
  effort-fill r s m f =
      let t = s.clock + p.prefill_cost (prefill_target r) in
      omega (
        arith,
        sum-replace Req-discrete effort_running r (complete_prefill t r) s.running m,
        effort_running-complete_prefill t r f,
        away_mono s.clock t s.incoming (omega arith),
      )

  pub effort-decode :
      (cost : ℕ) (s : State)
      → effort (peaks (after_decode p cost s)) + length (decoders s) ≤ effort s
  unfolding peaks
  effort-decode cost s =
      let q = after_decode-SameQueue p cost s in
      let fin = after_decode p cost s in
      let a : away fin.clock fin.incoming ≡ away (s.clock + cost) s.incoming =
        ap (λ t. away t fin.incoming) q.clock_eq ∙ ap (away (s.clock + cost)) q.incoming_eq in
      let b = ap (sum effort_queued) q.incoming_eq in
      let c = ap (sum effort_queued) q.waiting_eq in
      let d = ap (sum effort_running) (after_decode-running p cost s) in
      omega (
        arith,
        a,
        b,
        c,
        d,
        decoders_work (s.clock + cost) s.running,
        away_mono s.clock (s.clock + cost) s.incoming (omega arith),
      )
