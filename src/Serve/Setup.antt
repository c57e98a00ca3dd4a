-- ===== src/Serve/Setup.antt =====
-- inferencesim/serve.py: the checks of a `ServeConfig` and of its requests. A rate is a whole number,
-- the watermark a number of parts of a whole, and sampling is left out.
use inferencesim.Prelude.{
  ℕ, ◌+◌, Bool, true, false, not, ◌&&◌, List, [], ◌∷◌, Option, none, some, leb, ltb, ◌==◌,
  if◌then◌else◌, length, String,
}
use inferencesim.Hardware.{System, total_chips}
use inferencesim.Workload.Model.{ModelSpec, Deployment, replica_chips}
use inferencesim.Ops.{validate_deployment}
use inferencesim.Serve.Request.{Req}
use inferencesim.Serve.State.{Replica}
use inferencesim.Serve.Loop.{full_fp}
use inferencesim.Serve.Step.{Outcome, serve_loop}

pub data KvPolicy : Type 0 where
  on_demand reserve : KvPolicy
  unknown : String → KvPolicy

pub record ServeConfig : Type 0 where
  pub arrival_rate : Option ℕ
  pub arrivals : Option (List ℕ)
  pub prompt_lens : Option (List ℕ)
  pub output_lens : Option (List ℕ)
  pub max_batch : ℕ
  pub kv_policy : KvPolicy
  pub kv_watermark : ℕ
  pub whole : ℕ
  pub prefill_chunk : Option ℕ

-- The ValueErrors, in the order of the checks.
pub data ConfigError : Type 0 where
  one_source positive_rate batch policy watermark chunk parallel_prompts parallel_outputs :
      ConfigError

module _ {A : Type 0} where
  unfoldable pub is_set : Option A → Bool
  is_set none = false
  is_set (some a) = true

unfoldable pub is_zero : Option ℕ → Bool
is_zero none = false
is_zero (some n) = n == 0

unfoldable pub is_unknown : KvPolicy → Bool
is_unknown (unknown s) = true
is_unknown _ = false

-- Both lists are there, and differ in length.
unfoldable pub differ : Option (List ℕ) → Option (List ℕ) → Bool
differ (some xs) (some ys) = not (length xs == length ys)
differ _ _ = false

-- `a == b` of two tests.
unfoldable pub same : Bool → Bool → Bool
same true b = b
same false b = not b

-- The first of the checks that fails.
unfoldable pub first_error : List (Bool × ConfigError) → Option ConfigError
first_error [] = none
first_error ((b, e) ∷ cs) = if b then some e else first_error cs

abbrev pub checks : ServeConfig → List (Bool × ConfigError)
checks c =
    (same (is_set c.arrival_rate) (is_set c.arrivals), one_source)
    ∷ (is_zero c.arrival_rate, positive_rate)
    ∷ (ltb c.max_batch 1, batch)
    ∷ (is_unknown c.kv_policy, policy)
    ∷ (not (ltb 0 c.kv_watermark && leb c.kv_watermark c.whole), watermark)
    ∷ (is_zero c.prefill_chunk, chunk)
    ∷ (differ c.arrivals c.prompt_lens, parallel_prompts)
    ∷ (differ c.arrivals c.output_lens, parallel_outputs)
    ∷ []

-- `__post_init__`: the error that it raises.
unfoldable pub config_error : ServeConfig → Option ConfigError
config_error c = first_error (checks c)

-- Guard #1: the first request whose full context does not fit.
unfoldable pub first_unfit : Replica → List Req → Option ℕ
first_unfit p [] = none
first_unfit p (r ∷ rs) =
    if ltb (p.kv_budget + p.eps) (full_fp p r) then some r.idx else first_unfit p rs

-- `serve` on its requests: the errors before the loop, and the loop's end.
pub data Served : Type 0 where
  no_deployment pipelined no_chips no_headroom no_requests : Served
  never_fits : (idx : ℕ) → Served
  ended : Outcome → Served

unfoldable pub admit_requests : Replica → List Req → Option ℕ → Served
admit_requests p reqs none = ended (serve_loop p reqs)
admit_requests p reqs (some idx) = never_fits idx

-- The checks of the headroom and of the requests, and the loop.
unfoldable pub serve_requests : Replica → List Req → Served
serve_requests p [] = if p.usable == 0 then no_headroom else no_requests
serve_requests p (r ∷ rs) =
    if p.usable == 0 then no_headroom else admit_requests p (r ∷ rs) (first_unfit p (r ∷ rs))

-- The checks of the deployment, before the `rest`.
unfoldable pub check_deployment : Option Deployment → Deployment → System → Served → Served
check_deployment none dep s rest = no_deployment
check_deployment (some valid) dep s rest =
    if not (dep.pp == 1)
    then pipelined
    else if ltb (total_chips s) (replica_chips dep)
    then no_chips
    else rest

unfoldable pub serve : ModelSpec → Deployment → System → Replica → List Req → Served
serve m dep s p reqs = check_deployment (validate_deployment m dep) dep s (serve_requests p reqs)
