-- ===== src/Serve/State.antt =====
-- inferencesim/serve.py: what one run of `serve` keeps fixed, and the variables of its event loop.
use inferencesim.Prelude.{ℕ, Bool, false, List, [], Option}
use inferencesim.Serve.Request.{Req, RequestRecord}
use inferencesim.Serve.Kv.{KvModel}

-- The costs are the engine's, which `serve` takes as an argument: `dec.iter_time`, `prefill_cost`
-- and `chunk_cost`.
pub record Replica : Type 0 where
  pub max_batch : ℕ
  pub on_demand : Bool
  pub prefill_first : Bool
  pub prefill_chunk : Option ℕ
  pub kv_budget : ℕ
  pub usable : ℕ
  pub eps : ℕ
  pub kv : KvModel
  pub iter_time : ℕ → ℕ → ℕ
  pub prefill_cost : ℕ → ℕ
  pub chunk_cost : ℕ → ℕ → Bool → ℕ

-- `incoming` is `reqs_in[arr_i:]`. The flag says that a removal from `running` has raised.
pub record State : Type 0 where
  pub clock : ℕ
  pub incoming : List Req
  pub waiting : List Req
  pub running : List Req
  pub kv_used : ℕ
  pub kv_reserved : ℕ
  pub completed : List RequestRecord
  pub gaps : List ℕ
  pub batch_samples : List ℕ
  pub peak_batch : ℕ
  pub peak_kv : ℕ
  pub n_prefill : ℕ
  pub n_decode : ℕ
  pub n_preempt : ℕ
  pub forced_over_budget : ℕ
  pub backlog_at_last_arrival : ℕ
  pub failed : Bool

abbrev pub start : List Req → State
start reqs_in = record {
  clock = 0;
  incoming = reqs_in;
  waiting = [];
  running = [];
  kv_used = 0;
  kv_reserved = 0;
  completed = [];
  gaps = [];
  batch_samples = [];
  peak_batch = 0;
  peak_kv = 0;
  n_prefill = 0;
  n_decode = 0;
  n_preempt = 0;
  forced_over_budget = 0;
  backlog_at_last_arrival = 0;
  failed = false;
}
