-- ===== src/Disagg/Setup.antt =====
-- inferencesim/serve.py: the checks of `serve_disagg` before its loop. The deployments' own checks, the
-- budget and the costs are made before, and `p` holds what they give.
use inferencesim.Prelude.{
  ℕ, ◌+◌, ◌*◌, Bool, not, List, [], ◌∷◌, Option, none, some, ltb, ◌==◌, length, if◌then◌else◌,
}
use inferencesim.Hardware.{System, total_chips}
use inferencesim.Workload.Model.{ModelSpec, Deployment, replica_chips}
use inferencesim.Ops.{validate_deployment}
use inferencesim.Serve.Request.{Req}
use inferencesim.Serve.Config.{TransferOverride, resolve_transfer}
use inferencesim.Serve.Arrivals.{DisaggConfig}
use inferencesim.Serve.Setup.{is_set}
use inferencesim.Disagg.State.{Pools, table}
use inferencesim.Disagg.Decode.{full_fp}
use inferencesim.Disagg.Step.{Ended, disagg_loop}

-- The ValueErrors, in the order of the checks.
pub data DisaggError : Type 0 where
  prefill_deployment decode_deployment prefill_pp decode_pp chunked too_few_chips no_link
        no_headroom no_requests :
      DisaggError
  never_fits : (idx : ℕ) → DisaggError

pub data DisaggServed : Type 0 where
  refused : DisaggError → DisaggServed
  ended : Ended → DisaggServed

-- The first test that holds.
unfoldable pub first_refusal : List (Bool × DisaggError) → Option DisaggError
first_refusal [] = none
first_refusal ((b, e) ∷ cs) = if b then some e else first_refusal cs

unfoldable pub pool_chips : DisaggConfig → (p_dep d_dep : Deployment) → ℕ
pool_chips c p_dep d_dep =
    c.n_prefill_replicas * replica_chips p_dep + c.n_decode_replicas * replica_chips d_dep

-- The first request whose full context does not fit a decode replica.
unfoldable pub first_oversized : Pools → (ℕ → Req) → List Req → Option DisaggError
first_oversized p reqs [] = none
first_oversized p reqs (r ∷ rs) =
    if ltb (p.kv_budget + p.eps) (full_fp p reqs r.idx)
    then some (never_fits r.idx)
    else first_oversized p reqs rs

abbrev pub pool_checks :
    System
    → ModelSpec
    → (p_dep d_dep : Deployment) → DisaggConfig
    → Option ℕ
    → List (Bool × DisaggError)
pool_checks s m p_dep d_dep c prefill_chunk =
    (not (is_set (validate_deployment m p_dep)), prefill_deployment)
    ∷ (not (is_set (validate_deployment m d_dep)), decode_deployment)
    ∷ (not (p_dep.pp == 1), prefill_pp)
    ∷ (not (d_dep.pp == 1), decode_pp)
    ∷ (is_set prefill_chunk, chunked)
    ∷ (ltb (total_chips s) (pool_chips c p_dep d_dep), too_few_chips)
    ∷ []

unfoldable pub request_checks : Pools → List Req → Option DisaggError
request_checks p reqs_in =
    if p.usable == 0
    then some no_headroom
    else if length reqs_in == 0
    then some no_requests
    else first_oversized p (table reqs_in) reqs_in

unfoldable pub run_pools : Pools → DisaggConfig → List Req → Option DisaggError → DisaggServed
run_pools p c reqs_in (some e) = refused e
run_pools p c reqs_in none = ended (disagg_loop p c.n_prefill_replicas c.n_decode_replicas reqs_in)

-- With the link between the pools, which is `none` where there is none.
unfoldable pub over_pools : Pools → DisaggConfig → List Req → Option (ℕ × ℕ) → DisaggServed
over_pools p c reqs_in none = refused no_link
over_pools p c reqs_in (some (bw, lat)) =
    let q : Pools = record p { n_total = length reqs_in; transfer_bw = bw; transfer_lat = lat } in
    run_pools q c reqs_in (request_checks q reqs_in)

unfoldable pub checked_pools : Option DisaggError → DisaggServed → DisaggServed
checked_pools (some e) served = refused e
checked_pools none served = served

unfoldable pub serve_disagg :
    System
    → ModelSpec
    → (p_dep d_dep : Deployment) → DisaggConfig
    → TransferOverride
    → (prefill_chunk : Option ℕ) → Pools
    → List Req
    → DisaggServed
serve_disagg s m p_dep d_dep c override prefill_chunk p reqs_in =
    checked_pools (first_refusal (pool_checks s m p_dep d_dep c prefill_chunk))
      (over_pools p c reqs_in (resolve_transfer s (pool_chips c p_dep d_dep) override))
