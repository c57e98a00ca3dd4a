-- ===== src/Serve/Checks.antt =====
-- Lemmas on the checks before the loop of `serve`.
use inferencesim.Prelude.{
  ℕ, ◌+◌, ◌≡◌, ◌≤◌, ◌<◌, refl, Bool, true, false, not, List, [], ◌∷◌, Option, none, some, ltb, ◌==◌,
  length, All, arith, ap, sum,
}
use inferencesim.Hardware.{System, total_chips}
use inferencesim.Workload.Model.{ModelSpec, Deployment, replica_chips}
use inferencesim.Ops.{validate_deployment}
use inferencesim.Serve.Request.{Req}
use inferencesim.Serve.State.{Replica, State, start}
use inferencesim.Serve.Loop.{full_fp}
use inferencesim.Serve.Step.{served, serve_loop, iter_cap}
use inferencesim.Serve.Setup.{
  ServeConfig, ConfigError, is_set, is_zero, differ, same, first_error, checks, config_error,
  first_unfit, ended, admit_requests, check_deployment, serve_requests, serve,
}
use inferencesim.Serve.Conserve.{only}
use inferencesim.Serve.Unfailed.{run-IsUnfailed}
use inferencesim.Serve.Served.{completed_weight, serve_loop-served}

abbrev pub IsPositive : Option ℕ → Type 0
IsPositive none = Unit
IsPositive (some n) = 0 < n

abbrev pub IsParallel : Option (List ℕ) → Option (List ℕ) → Type 0
IsParallel (some xs) (some ys) = length xs ≡ length ys
IsParallel _ _ = Unit

pub record IsRunnable (c : ServeConfig) : Type 0 where
  pub source : is_set c.arrival_rate ≡ not (is_set c.arrivals)
  pub rate : IsPositive c.arrival_rate
  pub slots : 0 < c.max_batch
  pub watermark_pos : 0 < c.kv_watermark
  pub watermark_le : c.kv_watermark ≤ c.whole
  pub chunk : IsPositive c.prefill_chunk
  pub prompts : IsParallel c.arrivals c.prompt_lens
  pub outputs : IsParallel c.arrivals c.output_lens

first_error-none :
    (cs : List (Bool × ConfigError)) → first_error cs ≡ none → All (λ c. c.0 ≡ false) cs
unfolding first_error
first_error-none [] h = tt
first_error-none ((true, e) ∷ cs) h = cc
first_error-none ((false, e) ∷ cs) h = (refl, first_error-none cs h)

same-false : (a b : Bool) → same a b ≡ false → a ≡ not b
unfolding same
same-false true true h = cc
same-false true false h = refl
same-false false true h = refl
same-false false false h = cc

is_zero-false : (o : Option ℕ) → is_zero o ≡ false → IsPositive o
unfolding is_zero
is_zero-false none h = tt
is_zero-false (some n) h = ground arith

differ-false : (a b : Option (List ℕ)) → differ a b ≡ false → IsParallel a b
unfolding differ
differ-false none b h = tt
differ-false (some xs) none h = tt
differ-false (some xs) (some ys) h = ground arith

-- A configuration without an error has exactly one source of arrivals, a positive rate and chunk where
-- it has one, at least one slot, a watermark between 0 and the whole, and lengths for all arrivals
-- where it lists lengths.
pub config_error-IsRunnable : (c : ServeConfig) → config_error c ≡ none → IsRunnable c
unfolding config_error
config_error-IsRunnable c h =
    let (a, (b, (d, (e, (f, (g, (i, (j, _)))))))) = first_error-none (checks c) h in
    record {
      source = same-false (is_set c.arrival_rate) (is_set c.arrivals) a;
      rate = is_zero-false c.arrival_rate b;
      slots = ground arith;
      watermark_pos = ground arith;
      watermark_le = ground arith;
      chunk = is_zero-false c.prefill_chunk g;
      prompts = differ-false c.arrivals c.prompt_lens i;
      outputs = differ-false c.arrivals c.output_lens j;
    }

first_unfit-none :
    (p : Replica) (reqs : List Req)
    → All (λ r. full_fp p r ≤ p.kv_budget + p.eps) reqs
    → first_unfit p reqs ≡ none
unfolding first_unfit
first_unfit-none p [] h = refl
first_unfit-none p (r ∷ rs) (le, h) =
    let c : ltb (p.kv_budget + p.eps) (full_fp p r) ≡ false = ground arith in
    rw c (first_unfit-none p rs h)

-- Under the reserve policy with exclusive prefill, on a valid deployment without pipeline parallelism that
-- the machine has the chips for, if there is headroom and at least one request, and each request fits
-- the budget and its slack at its full context, `serve`, for given costs and a given budget, raises none
-- of its own errors, from the check of the deployment to the end of its loop, no removal from the list
-- of the running requests raises, and every request number is completed as often as it stands among
-- the requests.
pub serve_completes :
    (m : ModelSpec) (dep valid : Deployment) (s : System) (p : Replica) (reqs : List Req)
    → validate_deployment m dep ≡ some valid
    → dep.pp ≡ 1
    → replica_chips dep ≤ total_chips s
    → p.on_demand ≡ false
    → p.prefill_chunk ≡ none
    → 0 < p.usable
    → 0 < length reqs
    → All (λ r. full_fp p r ≤ p.kv_budget + p.eps) reqs
    → (t : State) × (serve m dep s p reqs ≡ ended (served t))
      × (t.failed ≡ false)
      × ((i : ℕ) → completed_weight (only i) t ≡ sum (λ (r : Req). only i r.idx) reqs)
unfolding serve serve_requests check_deployment admit_requests
serve_completes m dep valid s p [] v e c d x u l h = absurd (omega arith)
serve_completes m dep valid s p (r ∷ rs) v e c d x u l h =
    let (t, end, all) = serve_loop-served p (r ∷ rs) d x l in
    let sound =
      run-IsUnfailed p d x (length (r ∷ rs)) (iter_cap (r ∷ rs)) (start (r ∷ rs)) t refl
        (unfold serve_loop in end) in
    let one : not (dep.pp == 1) ≡ false = ground (arith, e) in
    let held : ltb (total_chips s) (replica_chips dep) ≡ false = ground (arith, c) in
    let room : (p.usable == 0) ≡ false = ground arith in
    (t, rw (v, one, held, room, first_unfit-none p (r ∷ rs) h) (ap ended end), sound, all)
