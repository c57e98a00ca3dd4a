-- ===== src/Serve/Conserve.antt =====
-- Where a request of `serve` stands: yet to arrive, waiting, running or completed.
use inferencesim.Prelude.{
  ℕ, ◌+◌, ◌≡◌, refl, ap, Bool, true, false, List, [], ◌∷◌, ◌==◌, if◌then◌else◌, filter, sum,
  sum-append, sum-replace, arith, In, Removable, Removable-filter,
}
use inferencesim.Serve.Request.{
  Req, RequestRecord, Req-discrete, complete_prefill, record_of, prefill_target, reset,
}
use inferencesim.Serve.State.{Replica, State}
use inferencesim.Serve.Loop.{
  preempt, finish, finish_all, step_decoders, is_decoder, is_done, done_decoders, admit, arrive,
}
use inferencesim.Serve.Step.{fill, note_forced, decode_batch, peaks}
use inferencesim.Serve.Ops.{sum-remove_req, sum-emit}
use inferencesim.Serve.Rules.{Keeps}

-- The sum of a weight of the requests' numbers, over all four places. With the weight that is 1 at
-- `i` it counts request `i`, and with the weight 1 all requests.
abbrev pub tally : (ℕ → ℕ) → State → ℕ
tally w s =
    sum (λ (r : Req). w r.idx) s.incoming
    + sum (λ (r : Req). w r.idx) s.waiting
    + sum (λ (r : Req). w r.idx) s.running
    + sum (λ (c : RequestRecord). w c.idx) s.completed

-- The weight that counts request `i`.
abbrev pub only : ℕ → ℕ → ℕ
only i j = if i == j then 1 else 0

module _ (p : Replica) (w : ℕ → ℕ) (n : ℕ) where
  abbrev hit : Req → ℕ
  hit r = w r.idx

  abbrev hit_record : RequestRecord → ℕ
  hit_record c = w c.idx

  abbrev IsTally : State → Type 0
  IsTally s = tally w s ≡ n

  IsTally-arrive :
      (r : Req) (rs : List Req) (s : State)
      → s.incoming ≡ r ∷ rs
      → IsTally s
      → IsTally (arrive r rs s)
  unfolding arrive
  IsTally-arrive r rs s e h =
      let c = ap (sum hit) e in omega (arith, c, sum-append hit s.waiting (r ∷ []))

  IsTally-admit :
      (r : Req) (rs : List Req) (s : State)
      → s.waiting ≡ r ∷ rs
      → IsTally s
      → IsTally (admit p r rs s)
  unfolding admit
  IsTally-admit r rs s e h =
      let c = ap (sum hit) e in omega (arith, c, sum-append hit s.running (reset r ∷ []))

  IsTally-preempt : (v : Req) (s : State) → In v s.running → IsTally s → IsTally (preempt p v s)
  unfolding preempt
  IsTally-preempt v s m h = omega (arith, sum-remove_req hit v s.running m)

  IsTally-finish : (v : Req) (s : State) → In v s.running → IsTally s → IsTally (finish p v s)
  unfolding finish record_of
  IsTally-finish v s m h = omega (
    arith,
    sum-remove_req hit v s.running m,
    sum-append hit_record s.completed (record_of s.clock v ∷ []),
  )

  IsTally-finish_all :
      (rs : List Req) (s : State)
      → Removable Req-discrete rs s.running
      → IsTally s
      → IsTally (finish_all p rs s)
  unfolding finish_all
  IsTally-finish_all [] s m h = h
  IsTally-finish_all (r ∷ rs) s (m, ms) h =
      IsTally-finish_all rs (finish p r s) (unfold finish in ms) (IsTally-finish r s m h)

  hit-complete_prefill : (t : ℕ) (r : Req) → hit (complete_prefill t r) ≡ hit r
  unfolding complete_prefill
  hit-complete_prefill t r = ground arith

  IsTally-fill : (r : Req) (s : State) → In r s.running → IsTally s → IsTally (fill p r s)
  unfolding fill
  IsTally-fill r s m h =
      let t = s.clock + p.prefill_cost (prefill_target r) in
      omega (
        arith,
        sum-replace Req-discrete hit r (complete_prefill t r) s.running m,
        hit-complete_prefill t r,
      )

  zero_sum : (rs : List Req) → sum (λ (r : Req). 0) rs ≡ 0
  zero_sum [] = refl
  zero_sum (r ∷ rs) = omega (arith, zero_sum rs)

  IsTally-decode_batch : (cost : ℕ) (s : State) → IsTally s → IsTally (decode_batch p cost s)
  unfolding decode_batch step_decoders
  IsTally-decode_batch cost s h = omega (
    arith,
    zero_sum (filter is_decoder s.running),
    sum-emit hit (λ _. 0) (s.clock + cost) s.running (λ r. omega arith),
  )

  IsTally-forced : (b : Bool) (s : State) → IsTally s → IsTally (note_forced b s)
  unfolding note_forced
  IsTally-forced true s h = h
  IsTally-forced false s h = h

  pub IsTally-Keeps : Keeps p IsTally
  unfolding peaks
  IsTally-Keeps = record {
    at_arrive = λ r rs s e _ h. IsTally-arrive r rs s e h;
    at_admit = λ r rs s e c h. IsTally-admit r rs s e h;
    at_preempt = λ v s d m q h. IsTally-preempt v s m h;
    at_forced = IsTally-forced;
    at_fill = λ r s m f h. IsTally-fill r s m h;
    at_decode = λ cost s h.
        IsTally-finish_all _ (decode_batch p cost s)
          (unfold done_decoders in
            Removable-filter Req-discrete is_done (decode_batch p cost s).running)
          (IsTally-decode_batch cost s h);
    at_clock = λ t s le h. h;
  }
