-- ===== src/Disagg/Served.antt =====
-- `serve_disagg` as a whole: what its checks give to its event loop.
use inferencesim.Prelude.{
  ℕ, zero, suc, ◌+◌, ◌≡◌, ◌≤◌, ◌<◌, refl, ap, ◌∙◌, subst, List, [], ◌∷◌, Option, none, some, length,
  arith, ltb, bind-some, get_elem?, All, inl, inr, Bool-cases,
}
use mathlib.Core.Option.{none-ne-some, some-injective}
use inferencesim.Hardware.{System}
use inferencesim.Workload.Model.{ModelSpec, Deployment, Scenario}
use inferencesim.Serve.Request.{Req, new_req}
use inferencesim.Serve.Config.{TransferOverride, resolve_transfer}
use inferencesim.Serve.Arrivals.{
  DisaggConfig, build_requests, numbered, order_from, length_of, arrival_at,
}
use inferencesim.Serve.Kv.{kv_bytes, kv_bytes-zero}
use inferencesim.Disagg.State.{Pools, State, table}
use inferencesim.Disagg.Decode.{full_fp}
use inferencesim.Disagg.Step.{Ended}
use inferencesim.Disagg.Reach.{Reach, IsNumbered}
use inferencesim.Disagg.Reserve.{IsCommitted}
use inferencesim.Disagg.Safe.{Reach-IsKept}
use inferencesim.Disagg.Outcome.{IsOutcome, disagg_loop-IsOutcome}
use inferencesim.Disagg.Setup.{
  DisaggError, DisaggServed, refused, ended, first_refusal, pool_chips, pool_checks,
  first_oversized, request_checks, run_pools, over_pools, checked_pools, serve_disagg,
}

numbered-IsNumbered :
    (times : List ℕ) (prompts outputs : Option (List ℕ)) (s : Scenario) (k : ℕ) (is : List ℕ)
    (rs : List Req)
    → numbered times prompts outputs s k is ≡ some rs
    → IsNumbered k rs
unfolding numbered
numbered-IsNumbered times prompts outputs s k [] rs h =
    subst (IsNumbered k) (some-injective [] rs h) tt
numbered-IsNumbered times prompts outputs s k (i ∷ is) rs h =
    let (a, ea, h1) = bind-some (length_of prompts s.prompt_len i) _ rs h in
    let (b, eb, h2) = bind-some (length_of outputs s.output_len i) _ rs h1 in
    let (xs, ex, h3) = bind-some (numbered times prompts outputs s (k + 1) is) _ rs h2 in
    subst (IsNumbered k) (some-injective (new_req k (arrival_at times i) a b ∷ xs) rs h3)
      (refl, numbered-IsNumbered times prompts outputs s (k + 1) is xs ex)

-- The requests of a run are numbered in their order.
build_requests-IsNumbered :
    (times : List ℕ) (prompts outputs : Option (List ℕ)) (s : Scenario) (rs : List Req)
    → build_requests times prompts outputs s ≡ some rs
    → IsNumbered 0 rs
unfolding build_requests
build_requests-IsNumbered times prompts outputs s rs h =
    numbered-IsNumbered times prompts outputs s 0 (order_from times (length times) 0) rs h

ended_of : DisaggServed → Option Ended
ended_of (refused e) = none
ended_of (ended o) = some o

ended-injective : (a b : Ended) → ended a ≡ ended b → a ≡ b
unfolding ended_of
ended-injective a b h = some-injective a b (ap ended_of h)

refused-ne-ended : {A : Type 0} (e : DisaggError) (o : Ended) → refused e ≡ ended o → A
unfolding ended_of
refused-ne-ended e o h = absurd (none-ne-some o (ap ended_of h))

-- What the requests of a run, numbered as they are, come to in the loop.
module _ (p : Pools) (c : DisaggConfig) (reqs_in : List Req) (n : IsNumbered 0 reqs_in)
    (o : Ended) where
  abbrev linked : ℕ × ℕ → Pools
  linked l = record p { n_total = length reqs_in; transfer_bw = l.0; transfer_lat = l.1 }

  abbrev CameTo : Type 0
  CameTo = (l : ℕ × ℕ) × IsOutcome (linked l) c.n_prefill_replicas c.n_decode_replicas reqs_in o

  run_pools-CameTo :
      (l : ℕ × ℕ) (e : Option DisaggError) → run_pools (linked l) c reqs_in e ≡ ended o → CameTo
  unfolding run_pools
  run_pools-CameTo l (some e) h = refused-ne-ended e o h
  run_pools-CameTo l none h = (
    l,
    subst (IsOutcome (linked l) c.n_prefill_replicas c.n_decode_replicas reqs_in)
        (ended-injective _ o h)
        (disagg_loop-IsOutcome (linked l) c.n_prefill_replicas c.n_decode_replicas reqs_in n refl),
  )

  over_pools-CameTo : (l : Option (ℕ × ℕ)) → over_pools p c reqs_in l ≡ ended o → CameTo
  unfolding over_pools
  over_pools-CameTo none h = refused-ne-ended _ o h
  over_pools-CameTo (some l) h = run_pools-CameTo l (request_checks (linked l) reqs_in) h

  checked_pools-CameTo :
      (e : Option DisaggError) (l : Option (ℕ × ℕ))
      → checked_pools e (over_pools p c reqs_in l) ≡ ended o
      → CameTo
  unfolding checked_pools
  checked_pools-CameTo (some e) l h = refused-ne-ended e o h
  checked_pools-CameTo none l h = over_pools-CameTo l h

-- On the requests that `build_requests` makes, `serve_disagg` refuses, or its event loop raises no
-- error but that of its event budget, no assertion, no index error and no error of `list.remove`: for the link between the pools, it ends with that error, or in
-- a state that it reaches in which all requests have completed or no event is left.
pub serve_disagg-IsOutcome :
    (s : System) (m : ModelSpec) (p_dep d_dep : Deployment) (c : DisaggConfig)
    (override : TransferOverride) (prefill_chunk : Option ℕ) (p : Pools) (times : List ℕ)
    (prompts outputs : Option (List ℕ)) (sc : Scenario) (reqs_in : List Req) (o : Ended)
    → build_requests times prompts outputs sc ≡ some reqs_in
    → serve_disagg s m p_dep d_dep c override prefill_chunk p reqs_in ≡ ended o
    → (l : ℕ × ℕ) × IsOutcome
        (record p { n_total = length reqs_in; transfer_bw = l.0; transfer_lat = l.1 })
        c.n_prefill_replicas
        c.n_decode_replicas
        reqs_in
        o
unfolding serve_disagg
serve_disagg-IsOutcome s m p_dep d_dep c override prefill_chunk p times prompts outputs sc reqs_in o
      b h =
    checked_pools-CameTo p c reqs_in (build_requests-IsNumbered times prompts outputs sc reqs_in b)
      o (first_refusal (pool_checks s m p_dep d_dep c prefill_chunk))
      (resolve_transfer s (pool_chips c p_dep d_dep) override) h

first_oversized-none :
    (p : Pools) (reqs : ℕ → Req) (k : ℕ) (rs : List Req)
    → IsNumbered k rs
    → first_oversized p reqs rs ≡ none
    → (i : ℕ) → i < length rs
    → full_fp p reqs (k + i) ≤ p.kv_budget + p.eps
unfolding first_oversized
first_oversized-none p reqs k [] n h i l = absurd (omega arith)
first_oversized-none p reqs k (r ∷ rs) (e, n) h zero l =
    let z : k + 0 ≡ r.idx = omega (arith, e) in rw z (ground arith)
first_oversized-none p reqs k (r ∷ rs) (e, n) h (suc i) l =
    let z : k + suc i ≡ k + 1 + i = omega arith in
    rw z (first_oversized-none p reqs (k + 1) rs n (ground arith) i (omega arith))

get_elem?-past : (rs : List Req) (i : ℕ) → length rs ≤ i → get_elem? rs i ≡ none
get_elem?-past [] i h = refl
get_elem?-past (r ∷ rs) zero h = absurd (omega arith)
get_elem?-past (r ∷ rs) (suc i) h = get_elem?-past rs i (omega arith)

table-past : (rs : List Req) (i : ℕ) → length rs ≤ i → table rs i ≡ new_req i 0 0 0
unfolding table
table-past rs i h =
    ap (λ (o : Option Req). elim o [ none ↦ new_req i 0 0 0 | some r ↦ r ]) (get_elem?-past rs i h)

full_fp-past : (p : Pools) (rs : List Req) (i : ℕ) → length rs ≤ i → full_fp p (table rs) i ≡ 0
full_fp-past p rs i h =
    ap (λ (r : Req). kv_bytes p.kv (r.prompt_len + r.output_len)) (table-past rs i h)
    ∙ kv_bytes-zero p.kv

-- The requests that passed the guard of `serve_disagg` fit, and so does a number that is no request's.
guarded :
    (p : Pools) (rs : List Req)
    → IsNumbered 0 rs
    → first_oversized p (table rs) rs ≡ none
    → (i : ℕ) → full_fp p (table rs) i ≤ p.kv_budget + p.eps
guarded p rs n h i = elim (Bool-cases (ltb i (length rs))) [
  | inl c ↦
      let z : 0 + i ≡ i = omega arith in
      let k = first_oversized-none p (table rs) 0 rs n h i (ground arith) in rw z at k
  | inr c ↦ let k = full_fp-past p rs i (ground arith) in omega (arith, k)
]

-- In every state that the loop reaches, no decode replica has more than `max_batch` requests running.
-- Under the reserve policy its commitments are the full footprints of the running requests, and within
-- the budget and its slack: also a request that was forced onto an empty replica. The requests are
-- numbered in their order, there is a slot, and no request is oversized.
pub Reach-IsCommitted :
    (p : Pools) (n_p n_d : ℕ) (reqs_in : List Req) (s : State)
    → IsNumbered 0 reqs_in
    → 0 < p.max_batch
    → first_oversized p (table reqs_in) reqs_in ≡ none
    → Reach p n_p n_d reqs_in s
    → All (IsCommitted p (full_fp p (table reqs_in))) s.dreps
Reach-IsCommitted p n_p n_d reqs_in s n b g r =
    (Reach-IsKept p n_p n_d reqs_in n b (guarded p reqs_in n g) r).committed
