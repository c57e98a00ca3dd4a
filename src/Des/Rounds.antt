-- ===== src/Des/Rounds.antt =====
-- inferencesim/des.py: the tasks of a prefill and of the rounds of a decode, and what is measured on
-- their schedule.
use inferencesim.Prelude.{
  traverse, ℕ, zero, suc, ◌+◌, ◌-◌, ◌*◌, ◌/◌, max, min, Bool, true, false, ◌&&◌, List, [], ◌∷◌,
  ◌++◌, Option, none, some, leb, ltb, ◌==◌, if◌then◌else◌, length, ◌>>=◌, get_elem?,
}
use inferencesim.Sched.Heap.{set_at}
use inferencesim.Sched.Schedule.{Resource}
use inferencesim.Sched.Loop.{schedule}
use inferencesim.Collectives.Ports.{Port, Port-discrete}
use inferencesim.Collectives.Ring.{Tasks}
use inferencesim.Des.{split_layers}
use inferencesim.Des.Stage.{LayerCosts, CommPlan, build_if, costs, stage_tasks, emit_hop}

abbrev pub keys_of : Option ℕ → List ℕ
keys_of none = []
keys_of (some k) = k ∷ []

module _ (oh : ℕ) (c : LayerCosts) (plan : CommPlan) (pp : ℕ) where
  -- Through the stages from `s` on, with a hop behind those that a test picks out; the last component
  -- is the key at the end of the last stage.
  unfoldable pub walk :
      (hops : ℕ → Bool)
      → List ℕ
      → (s : ℕ) → (prev end_key : Option ℕ) → Tasks
      → Option (Tasks × (Option ℕ × Option ℕ))
  walk hops [] s prev end_key tasks = some (tasks, (prev, end_key))
  walk hops (n ∷ ns) s prev end_key tasks =
      stage_tasks oh c plan s n (s == 0) (s + 1 == pp) prev tasks >>= λ stage.
      let (tasks', k) = build_if (hops s) (emit_hop oh c plan s) (some stage.1) stage.0 in
      walk hops ns (s + 1) k (some stage.1) tasks'

  -- A hop behind every stage: the last one feeds the next round.
  abbrev pub decode_hops : ℕ → Bool
  decode_hops s = costs c.hop && ltb 1 pp

  abbrev pub prefill_hops : ℕ → Bool
  prefill_hops s = costs c.hop && ltb (s + 1) pp

  -- The microbatches from `m` on, of one round: `tail` has the last key of each, and the keys at the
  -- end of the last stage are returned.
  unfoldable pub microbatches :
      (left m : ℕ) (tail : ℕ → Option ℕ) → Tasks → Option (Tasks × ((ℕ → Option ℕ) × List ℕ))
  microbatches zero m tail tasks = some (tasks, (tail, []))
  microbatches (suc left) m tail tasks =
      walk decode_hops (split_layers c.n_layers pp) 0 (tail m) none tasks >>= λ w.
      microbatches left (m + 1) (set_at tail m w.1.0) w.0 >>= λ rest.
      some (rest.0, (rest.1.0, keys_of w.1.1 ++ rest.1.1))

  -- The rounds, with the keys at their ends (`token_done`).
  unfoldable pub round_tasks :
      (left : ℕ) (tail : ℕ → Option ℕ) → Tasks → Option (Tasks × List (List ℕ))
  round_tasks zero tail tasks = some (tasks, [])
  round_tasks (suc left) tail tasks = microbatches pp 0 tail tasks >>= λ b.
      round_tasks left b.1.0 b.0 >>= λ rest. some (rest.0, b.1.1 ∷ rest.1)

  unfoldable pub decode_tasks : ℕ → Option (Tasks × List (List ℕ))
  decode_tasks decode_rounds = round_tasks decode_rounds (λ m. none) []

  unfoldable pub prefill_tasks : Option (Tasks × (Option ℕ × Option ℕ))
  prefill_tasks = walk prefill_hops (split_layers c.n_layers pp) 0 none none []

-- The latest of the ends `b` and those of the tasks; `none` is the IndexError.
unfoldable pub latest_end : (finish : List ℕ) → (b : ℕ) → List ℕ → Option ℕ
latest_end finish b [] = some b
latest_end finish b (k ∷ ks) = get_elem? finish k >>= λ a. latest_end finish (max b a) ks

-- The end of a round, on the times at which the tasks end; `none` is also the ValueError of no end.
unfoldable pub round_end : (finish : List ℕ) → List ℕ → Option ℕ
round_end finish [] = none
round_end finish (k ∷ ks) = get_elem? finish k >>= λ a. latest_end finish a ks

unfoldable pub last_of : List ℕ → Option ℕ
last_of [] = none
last_of (x ∷ []) = some x
last_of (x ∷ y ∷ ys) = last_of (y ∷ ys)

-- `round_end[warmup - 1]`: the index -1 is the last one's.
unfoldable pub end_of_warmup : List ℕ → ℕ → Option ℕ
end_of_warmup ends zero = last_of ends
end_of_warmup ends (suc w) = get_elem? ends w

-- The mean round period after the warm-up; `none` is the IndexError.
unfoldable pub round_period : (finish : List ℕ) (token_done : List (List ℕ)) (warmup : ℕ) → Option ℕ
round_period finish token_done warmup = traverse (round_end finish) token_done >>= λ ends.
    last_of ends >>= λ b.
    end_of_warmup ends warmup >>= λ a. some ((b - a) / (length token_done - warmup))

-- `abs(wall - prev_est) / (abs(wall) or 1.0) <= rtol`, with the tolerance as a fraction;
-- `second` is 1.0 in the unit of the times.
unfoldable pub is_close : (rtol_over rtol_under second wall prev_est : ℕ) → Bool
is_close rtol_over rtol_under second wall prev_est =
    leb ((wall - prev_est + (prev_est - wall)) * rtol_under)
      (rtol_over * (if wall == 0 then second else wall))

pub record Convergence : Type 0 where
  pub rounds_used : ℕ
  pub converged : Bool
  pub wall : ℕ

unfoldable pub agrees : (rtol_over rtol_under second wall : ℕ) → Option ℕ → Bool
agrees rtol_over rtol_under second wall none = false
agrees rtol_over rtol_under second wall (some prev_est) =
    is_close rtol_over rtol_under second wall prev_est

-- The loop of `_decode_wall` in auto mode, on the round period that is measured over a number of
-- rounds; `none` where that fails or the fuel is used up.
unfoldable pub converge :
    (measure : ℕ → Option ℕ) (rtol_over rtol_under second max_rounds : ℕ) (fuel n : ℕ)
    → Option ℕ
    → Option Convergence
converge measure rtol_over rtol_under second max_rounds zero n prev_est = none
converge measure rtol_over rtol_under second max_rounds (suc fuel) n prev_est =
    measure n >>= λ wall.
    let close = agrees rtol_over rtol_under second wall prev_est in
    let rest =
      converge measure rtol_over rtol_under second max_rounds fuel (min (n * 2) max_rounds)
        (some wall) in
    if close
    then some (record { rounds_used = n; converged = true; wall = wall })
    else if leb max_rounds n
    then some (record { rounds_used = n; converged = false; wall = wall })
    else rest

unfoldable pub first_rounds : (pp max_rounds : ℕ) → ℕ
first_rounds pp max_rounds = min (max 8 (2 * pp)) max_rounds

-- A resource that is not declared has one server.
abbrev pub undeclared : Port → Resource
undeclared r = record { servers = 1; shared = false }

module _ (rank : Port → ℕ) (oh : ℕ) (c : LayerCosts) (plan : CommPlan) (pp : ℕ) where
  -- `_round_period`
  unfoldable pub measure : (decode_rounds warmup : ℕ) → Option ℕ
  measure decode_rounds warmup = decode_tasks oh c plan pp decode_rounds >>= λ built.
      schedule Port-discrete rank undeclared built.0 >>= λ r. round_period r.finish built.1 warmup

  -- `_decode_wall` in auto mode.
  unfoldable pub decode_wall : (rtol_over rtol_under second max_rounds : ℕ) → Option Convergence
  decode_wall rtol_over rtol_under second max_rounds =
      converge (λ n. measure n (n / 2)) rtol_over rtol_under second max_rounds (max_rounds + 1)
        (first_rounds pp max_rounds) none

  -- `_prefill_wall`
  unfoldable pub prefill_wall : Option ℕ
  prefill_wall = prefill_tasks oh c plan pp >>= λ built.
      schedule Port-discrete rank undeclared built.0 >>= λ r. some r.makespan
