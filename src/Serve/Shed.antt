-- ===== src/Serve/Shed.antt =====
-- The loop of `serve` that preempts decoders before a decode step.
use inferencesim.Prelude.{
  ℕ, zero, suc, ◌+◌, ◌*◌, ◌≡◌, ◌≤◌, ◌<◌, refl, Bool, true, false, List, [], ◌∷◌, length, sum,
  if◌then◌else◌, arith, In, if_elim, option_elim, none, filter, remove, ◌⊎◌,
}
use inferencesim.Serve.Request.{Req, Req-discrete, latest}
use inferencesim.Serve.State.{Replica, State}
use inferencesim.Serve.Loop.{is_decoder, decoders, preempt}
use inferencesim.Serve.Step.{overflows, shed}
use inferencesim.Serve.Ops.{In-decoders, sum-remove_req}

abbrev one_if : Req → ℕ
one_if r = if is_decoder r then 1 else 0

length-filter-eq-sum : (rs : List Req) → length (filter is_decoder rs) ≡ sum one_if rs
length-filter-eq-sum [] = refl
length-filter-eq-sum (r ∷ rs) = ground (arith, length-filter-eq-sum rs)

length-decoders-preempt :
    (p : Replica) (v : Req) (s : State)
    → In v s.running
    → is_decoder v ≡ true
    → length (decoders (preempt p v s)) + 1 ≡ length (decoders s)
unfolding preempt
length-decoders-preempt p v s m d =
    let one : one_if v ≡ 1 = rw d refl in
    omega (
      arith,
      length-filter-eq-sum s.running,
      length-filter-eq-sum (remove Req-discrete v s.running),
      sum-remove_req one_if v s.running m,
    )

latest-ne-none : (r : Req) (rs : List Req) → latest (r ∷ rs) ≡ none → ⊥
unfolding latest
latest-ne-none r rs e = ground arith

latest-none : (rs : List Req) → latest rs ≡ none → length rs ≡ 0
latest-none [] e = refl
latest-none (r ∷ rs) e = absurd (latest-ne-none r rs e)

overflows-pos :
    (p : Replica) (least extra : ℕ) (s : State)
    → overflows p least extra s ≡ true
    → 0 < length (decoders s)
unfolding overflows
overflows-pos p least extra s h = ground arith

overflows-zero :
    (p : Replica) (least extra : ℕ) (s : State)
    → length (decoders s) ≤ 0
    → overflows p least extra s ≡ false
unfolding overflows
overflows-zero p least extra s h = ground arith

shed-ends :
    (p : Replica) (least extra fuel : ℕ) (s : State)
    → length (decoders s) ≤ fuel
    → overflows p least extra (shed p fuel least extra s) ≡ false
unfolding shed
shed-ends p least extra zero s h = overflows-zero p least extra s h
shed-ends p least extra (suc fuel) s h =
    let Q : State → Type 0 = λ t. overflows p least extra t ≡ false in
    if_elim Q (overflows p least extra s)
      (λ c.
        option_elim Q (latest (decoders s))
          (λ e. absurd (omega (arith, latest-none (decoders s) e, overflows-pos p least extra s c)))
          λ v e.
            let (m, d) = In-decoders s v e in
            shed-ends p least extra fuel (preempt p v s)
              (omega (arith, length-decoders-preempt p v s m d)))
      (λ c. c)

length-filter-le : (q : Req → Bool) (rs : List Req) → length (filter q rs) ≤ length rs
length-filter-le q [] = omega arith
length-filter-le q (r ∷ rs) = ground (arith, length-filter-le q rs)

fits_of_test :
    (p : Replica) (least extra : ℕ) (s : State)
    → overflows p least extra s ≡ false
    → (length (decoders s) ≤ least)
      ⊎ (s.kv_used + (length (decoders s) + extra) * p.kv.kv_per_token ≤ p.usable + p.eps)
unfolding overflows
fits_of_test p least extra s h = ground arith

-- The loop that preempts the latest decoders, with as many rounds as there are running requests,
-- ends because a step fits: what is left is no more decoders than may always stay (one with
-- exclusive prefill, none beside a chunk), or a state in which a token of each decoder and the
-- `extra` tokens of the chunk keep the KV within the usable budget and its slack.
pub shed_fits :
    (p : Replica) (least extra : ℕ) (s : State)
    → let t = shed p (length s.running) least extra s in
      (length (decoders t) ≤ least)
      ⊎ (t.kv_used + (length (decoders t) + extra) * p.kv.kv_per_token ≤ p.usable + p.eps)
shed_fits p least extra s =
    fits_of_test p least extra _
      (shed-ends p least extra (length s.running) s (length-filter-le is_decoder s.running))
