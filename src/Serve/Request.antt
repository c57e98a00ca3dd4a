-- ===== src/Serve/Request.antt =====
-- inferencesim/serve.py: `_Req`, the mutable state of a request, and `RequestRecord`, its report.
-- Times and rates are whole ticks.
use inferencesim.Prelude.{
  ℕ, ◌+◌, ◌-◌, ◌/◌, ◌≡◌, Bool, true, false, List, [], ◌∷◌, Option, none, some, ltb, ◌==◌,
  if◌then◌else◌, In, arith,
}
use native.Mathlib.Decide.{ℕ_discrete}

pub record Req : Type 0 where
  pub idx : ℕ
  pub arrival : ℕ
  pub prompt_len : ℕ
  pub output_len : ℕ
  pub needs_prefill : Bool
  pub prefill_done : ℕ
  pub started : Bool
  pub gen : ℕ
  pub context : ℕ
  pub ttft : ℕ
  pub first_token_time : ℕ
  pub last_emit : ℕ
  pub preemptions : ℕ
  pub transfer_delay : ℕ

-- The defaults of the dataclass.
abbrev pub new_req : (idx arrival prompt_len output_len : ℕ) → Req
new_req i t p o = record {
  idx = i;
  arrival = t;
  prompt_len = p;
  output_len = o;
  needs_prefill = true;
  prefill_done = 0;
  started = false;
  gen = 0;
  context = 0;
  ttft = 0;
  first_token_time = 0;
  last_emit = 0;
  preemptions = 0;
  transfer_delay = 0;
}

-- The dataclass compares field by field.
unfoldable pub Req-discrete : Discrete Req
unfolding ℕ_discrete
Req-discrete = hlevel ℕ_discrete

abbrev pub prefill_target : Req → ℕ
prefill_target r = r.prompt_len + r.gen

pub record RequestRecord : Type 0 where
  pub idx : ℕ
  pub arrival : ℕ
  pub prompt_len : ℕ
  pub output_len : ℕ
  pub ttft : ℕ
  pub completion : ℕ
  pub tpot : ℕ
  pub n_preemptions : ℕ
  pub transfer : ℕ

-- What admission and preemption reset.
abbrev pub reset : Req → Req
reset r = record r { needs_prefill = true; prefill_done = 0; context = 0 }

-- `complete_prefill`: the time of the first token is set on the first prefill only.
unfoldable pub complete_prefill : ℕ → Req → Req
complete_prefill clock r =
    if r.started then record r { needs_prefill = false; context = prefill_target r } else record r {
      needs_prefill = false;
      context = prefill_target r;
      started = true;
      ttft = clock - r.arrival;
      first_token_time = clock;
      last_emit = clock;
    }

-- One token of a decoder, as in `step_decoders`.
abbrev pub emit : ℕ → Req → Req
emit clock r = record r { gen = r.gen + 1; last_emit = clock; context = r.context + 1 }

-- The record that `finish` appends.
unfoldable pub record_of : ℕ → Req → RequestRecord
record_of clock r = record {
  idx = r.idx;
  arrival = r.arrival;
  prompt_len = r.prompt_len;
  output_len = r.output_len;
  ttft = r.ttft;
  completion = clock - r.arrival;
  tpot = if r.output_len == 0 then 0 else (clock - r.first_token_time) / r.output_len;
  n_preemptions = r.preemptions;
  transfer = r.transfer_delay;
}

-- `max(rs, key=idx)`: the first of the greatest.
unfoldable pub latest : List Req → Option Req
latest [] = none
latest (r ∷ rs) = elim (latest rs) [
  | none ↦ some r
  | some v ↦ if ltb r.idx v.idx then some v else some r
]

-- `min(rs, key=idx)`: the first of the least.
unfoldable pub oldest : List Req → Option Req
oldest [] = none
oldest (r ∷ rs) = elim (oldest rs) [
  | none ↦ some r
  | some v ↦ if ltb v.idx r.idx then some v else some r
]

pub In-latest : (rs : List Req) (v : Req) → latest rs ≡ some v → In v rs
unfolding latest
In-latest [] v e = cc
In-latest (r ∷ rs) v e = ground (arith, In-latest rs v)

pub In-oldest : (rs : List Req) (v : Req) → oldest rs ≡ some v → In v rs
unfolding oldest
In-oldest [] v e = cc
In-oldest (r ∷ rs) v e = ground (arith, In-oldest rs v)
