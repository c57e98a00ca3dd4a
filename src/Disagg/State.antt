-- ===== src/Disagg/State.antt =====
-- inferencesim/serve.py: what one run of `serve_disagg` keeps fixed, and the variables of its event
-- loop, and whether `list.remove` has raised the ValueError of a request that is not there, which ends
-- the event with an error. A reference to a request is its number, and the requests are a table by number, so that a
-- queue, a replica and an event that hold one request share its state. Times are whole ticks.
use inferencesim.Prelude.{
  ℕ, zero, suc, ◌+◌, Bool, false, List, [], ◌∷◌, Option, none, some, ltb, if◌then◌else◌, ◌==◌, ◌||◌,
  ◌&&◌, get_elem?,
}
use inferencesim.Serve.Request.{Req, RequestRecord, new_req}
use inferencesim.Serve.Kv.{KvModel}

-- The costs are the engine's, which `serve_disagg` takes as an argument: `dec.iter_time` and
-- `prefill_cost`.
pub record Pools : Type 0 where
  pub n_total : ℕ
  pub max_batch : ℕ
  pub on_demand : Bool
  pub kv_budget : ℕ
  pub usable : ℕ
  pub eps : ℕ
  pub kv : KvModel
  pub transfer_bw : ℕ
  pub transfer_lat : ℕ
  pub iter_time : ℕ → ℕ → ℕ
  pub prefill_cost : ℕ → ℕ
  pub transfer_bytes : ℕ → ℕ

pub record PrefillReplica : Type 0 where
  pub current : Option ℕ
  pub since : ℕ
  pub busy_total : ℕ

pub record DecodeReplica : Type 0 where
  pub running : List ℕ
  pub iter_batch : List ℕ
  pub iterating : Bool
  pub iter_start : ℕ
  pub kv_used : ℕ
  pub kv_reserved : ℕ
  pub busy_total : ℕ

pub data Tag : Type 0 where
  arrival prefill_done transfer_done decode_done : Tag

-- An entry of the heap. `ref` is a request of `arrival` and `transfer_done`, and a replica of
-- `prefill_done` and `decode_done`.
pub record Event : Type 0 where
  pub when : ℕ
  pub seq : ℕ
  pub tag : Tag
  pub ref : ℕ

-- No two entries have one `seq`, so that the tags are never compared.
unfoldable pub earlier : Event → Event → Bool
earlier a b = ltb a.when b.when || (a.when == b.when && ltb a.seq b.seq)

-- The counters of `stat`.
pub record Stat : Type 0 where
  pub n_prefill : ℕ
  pub n_decode : ℕ
  pub n_preempt : ℕ
  pub peak_batch : ℕ
  pub peak_kv : ℕ
  pub transfer_total : ℕ
  pub forced : ℕ
  pub arrivals_seen : ℕ
  pub backlog : ℕ
  pub victims : Bool

pub record State : Type 0 where
  pub reqs : ℕ → Req
  pub preps : List PrefillReplica
  pub dreps : List DecodeReplica
  pub waiting_prefill : List ℕ
  pub waiting_decode : List ℕ
  pub heap : List Event
  pub next_seq : ℕ
  pub completed : List RequestRecord
  pub gaps : List ℕ
  pub batch_samples : List ℕ
  pub transfer_delays : List ℕ
  pub stat : Stat
  pub failed : Bool

unfoldable pub push : ℕ → Tag → ℕ → State → State
push t g i s = record s {
  heap = record { when = t; seq = s.next_seq; tag = g; ref = i } ∷ s.heap;
  next_seq = s.next_seq + 1;
}

-- Whether a list has a reference: where it has not, `remove` raises.
unfoldable pub holds : ℕ → List ℕ → Bool
holds r [] = false
holds r (x ∷ xs) = x == r || holds r xs

-- A write through a reference to a request, and the replacement of a replica of a pool.
unfoldable pub write : ℕ → (Req → Req) → (ℕ → Req) → ℕ → Req
write i f reqs j = if j == i then f (reqs j) else reqs j

unfoldable pub set_nth {ℓ} : {A : Type ℓ} → List A → ℕ → A → List A
set_nth [] i x = []
set_nth (y ∷ ys) zero x = x ∷ ys
set_nth (y ∷ ys) (suc i) x = y ∷ set_nth ys i x

abbrev pub with_prep : ℕ → PrefillReplica → State → State
with_prep i pr s = record s { preps = set_nth s.preps i pr }

abbrev pub with_drep : ℕ → DecodeReplica → State → State
with_drep i dr s = record s { dreps = set_nth s.dreps i dr }

-- `for i in range(i, i + k)`
unfoldable pub for_range {ℓ} : {A : Type ℓ} → (ℕ → A → A) → (k i : ℕ) → A → A
for_range body zero i s = s
for_range body (suc k) i s = for_range body k (i + 1) (body i s)

abbrev pub no_stat : Stat
no_stat = record {
  n_prefill = 0;
  n_decode = 0;
  n_preempt = 0;
  peak_batch = 0;
  peak_kv = 0;
  transfer_total = 0;
  forced = 0;
  arrivals_seen = 0;
  backlog = 0;
  victims = false;
}

abbrev pub new_prep : PrefillReplica
new_prep = record { current = none; since = 0; busy_total = 0 }

abbrev pub new_drep : DecodeReplica
new_drep = record {
  running = [];
  iter_batch = [];
  iterating = false;
  iter_start = 0;
  kv_used = 0;
  kv_reserved = 0;
  busy_total = 0;
}

-- `[x for _ in range(n)]`
unfoldable pub copies {ℓ} : {A : Type ℓ} → ℕ → A → List A
copies zero x = []
copies (suc n) x = x ∷ copies n x

-- The table of the requests of a run: a number past the last one stands for no request.
unfoldable pub table : List Req → ℕ → Req
table reqs_in i = elim (get_elem? reqs_in i) [ none ↦ new_req i 0 0 0 | some r ↦ r ]

-- The arrivals seed the heap, in their order.
unfoldable pub seed : List Req → State → State
seed [] s = s
seed (r ∷ rs) s = seed rs (push r.arrival arrival r.idx s)

abbrev pub idle_state : List Req → (n_p n_d : ℕ) → State
idle_state reqs_in n_p n_d = record {
  reqs = table reqs_in;
  preps = copies n_p new_prep;
  dreps = copies n_d new_drep;
  waiting_prefill = [];
  waiting_decode = [];
  heap = [];
  next_seq = 0;
  completed = [];
  gaps = [];
  batch_samples = [];
  transfer_delays = [];
  stat = no_stat;
  failed = false;
}

abbrev pub begin : List Req → (n_p n_d : ℕ) → State
begin reqs_in n_p n_d = seed reqs_in (idle_state reqs_in n_p n_d)
