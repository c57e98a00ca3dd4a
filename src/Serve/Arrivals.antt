-- ===== src/Serve/Arrivals.antt =====
-- inferencesim/serve.py: the requests of a run with explicit arrival times, the pools of a
-- disaggregated run, and what the costs and the transfer are asked for.
use inferencesim.Prelude.{
  ℕ, zero, suc, ◌+◌, ◌*◌, ◌||◌, List, [], ◌∷◌, Option, none, some, leb, ltb, if◌then◌else◌, length,
  get_elem?, ◌>>=◌,
}
use inferencesim.Hardware.{DType}
use inferencesim.Workload.Model.{ModelSpec, Scenario, kv_bytes_per_token}
use inferencesim.Serve.Request.{Req, new_req}
use inferencesim.Serve.Config.{ceil_grid}

-- `times[i]`, for an index that is there.
unfoldable pub arrival_at : List ℕ → ℕ → ℕ
arrival_at [] i = 0
arrival_at (t ∷ ts) zero = t
arrival_at (t ∷ ts) (suc i) = arrival_at ts i

-- Into an order by arrival, before the indices that arrive as early.
unfoldable pub insert : List ℕ → ℕ → List ℕ → List ℕ
insert times i [] = i ∷ []
insert times i (j ∷ js) =
    if leb (arrival_at times i) (arrival_at times j) then i ∷ j ∷ js else j ∷ insert times i js

-- `sorted(range(n), key=...)`, which keeps the order of equal keys.
unfoldable pub order_from : List ℕ → (left i : ℕ) → List ℕ
order_from times zero i = []
order_from times (suc left) i = insert times i (order_from times left (i + 1))

-- `none` is the IndexError of a list that is too short.
unfoldable pub length_of : Option (List ℕ) → ℕ → ℕ → Option ℕ
length_of none d i = some d
length_of (some ls) d i = get_elem? ls i

unfoldable pub numbered :
    List ℕ → Option (List ℕ) → Option (List ℕ) → Scenario → ℕ → List ℕ → Option (List Req)
numbered times prompts outputs s new_i [] = some []
numbered times prompts outputs s new_i (i ∷ is) = do
  prompt ← length_of prompts s.prompt_len i
  output ← length_of outputs s.output_len i
  rest ← numbered times prompts outputs s (new_i + 1) is
  some (new_req new_i (arrival_at times i) prompt output ∷ rest)

-- `_build_requests` where `arrivals` is set.
unfoldable pub build_requests :
    List ℕ → Option (List ℕ) → Option (List ℕ) → Scenario → Option (List Req)
build_requests times prompts outputs s =
    numbered times prompts outputs s 0 (order_from times (length times) 0)

pub record DisaggConfig : Type 0 where
  pub n_prefill_replicas : ℕ
  pub n_decode_replicas : ℕ

-- `__post_init__`: `none` is the ValueError.
unfoldable pub make_disagg : DisaggConfig → Option DisaggConfig
make_disagg d = if ltb d.n_prefill_replicas 1 || ltb d.n_decode_replicas 1 then none else some d

-- A prefill is priced at its length on the grid.
unfoldable pub grid_cost : (price : ℕ → ℕ) → (length_grid n_tokens : ℕ) → ℕ
grid_cost price length_grid n_tokens = price (ceil_grid n_tokens length_grid)

-- In quarters of a byte.
unfoldable pub kv_transfer_bytes : ModelSpec → ℕ → DType → ℕ
kv_transfer_bytes m n_tokens kv_dtype = kv_bytes_per_token m kv_dtype * n_tokens
