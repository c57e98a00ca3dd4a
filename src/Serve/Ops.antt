-- ===== src/Serve/Ops.antt =====
-- What the operations of the serving loop do to a sum over the requests that run.
use inferencesim.Prelude.{
  ℕ, ◌+◌, ◌≡◌, true, List, [], ◌∷◌, map, some, ltb, if◌then◌else◌, is_empty, filter, sum, remove,
  sum-remove, arith, In, Bool-cases, In-filter, inl, inr,
}
use inferencesim.Serve.Request.{Req, Req-discrete, emit, latest, In-latest, In-oldest}
use inferencesim.Serve.State.{Replica, State}
use inferencesim.Serve.Loop.{is_decoder, decoders, latest_decoder, prefiller}

module _ (p : Replica) where
  pub In-latest_decoder :
      (r : Req) (s : State) (v : Req)
      → latest_decoder p r s ≡ some v
      → In v s.running × (is_decoder v ≡ true)
  unfolding latest_decoder
  In-latest_decoder r s v e =
      let (m, h) = In-filter _ v s.running (In-latest _ v e) in (m, ground arith)

pub In-prefiller :
    (s : State) (v : Req) → prefiller s ≡ some v → In v s.running × (v.needs_prefill ≡ true)
unfolding prefiller
In-prefiller s v e =
    let pending : List Req = filter (λ (r : Req). r.needs_prefill) s.running in
    let in_progress : List Req = filter (λ (r : Req). ltb 0 r.prefill_done) pending in
    elim (Bool-cases (is_empty in_progress)) [
      | inl h ↦ In-filter (λ (r : Req). r.needs_prefill) v s.running (In-oldest _ v (rw h at e))
      | inr h ↦
          In-filter (λ (r : Req). r.needs_prefill) v s.running
            (In-filter (λ (r : Req). ltb 0 r.prefill_done) v pending (In-oldest _ v (rw h at e))).0
    ]

pub In-decoders :
    (s : State) (v : Req) → latest (decoders s) ≡ some v → In v s.running × (is_decoder v ≡ true)
In-decoders s v e = In-filter is_decoder v s.running (In-latest _ v e)

-- A token of each decoder, in a sum of which a token changes `f` by `g`.
pub sum-emit :
    (f g : Req → ℕ) (clock : ℕ) (xs : List Req)
    → ((r : Req) → f (emit clock r) ≡ f r + g r)
    → sum f (map (λ r. if is_decoder r then emit clock r else r) xs)
      ≡ sum f xs + sum g (filter is_decoder xs)
sum-emit f g clock [] h = omega arith
sum-emit f g clock (x ∷ xs) h = ground (arith, sum-emit f g clock xs h, h x)

-- Removing one that runs, as preemption and completion do.
pub sum-remove_req :
    (f : Req → ℕ) (v : Req) (xs : List Req)
    → In v xs
    → sum f (remove Req-discrete v xs) + f v ≡ sum f xs
sum-remove_req f v xs m = omega (arith, sum-remove Req-discrete f v xs m)
