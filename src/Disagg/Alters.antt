-- ===== src/Disagg/Alters.antt =====
-- What a step of the handler of `decode_done` may change: one replica and the state of requests.
use inferencesim.Prelude.{
  ℕ, ◌≡◌, refl, sym, ap, ◌∙◌, List, [], ◌∷◌, some, sum, arith, get_elem?, if_elim, ◌==◌,
}
use inferencesim.Serve.Request.{Req}
use inferencesim.Serve.Kv.{kv_bytes}
use inferencesim.Disagg.State.{Pools, DecodeReplica, State, set_nth, write}
use inferencesim.Disagg.Decode.{full_fp}
use inferencesim.Disagg.Replicas.{get_elem?-set_nth, set_nth_same, set_nth_twice}

-- Between two states of the handler for the replica `i`, that `dr` was and `dr'` is, the queues, the
-- heap and the other replicas do not change, and no request changes its number or its lengths.
pub record Alters (i : ℕ) (dr' : DecodeReplica) (s t : State) : Type 0 where
  pub dreps_eq : t.dreps ≡ set_nth s.dreps i dr'
  pub preps_eq : t.preps ≡ s.preps
  pub heap_eq : t.heap ≡ s.heap
  pub prefill_eq : t.waiting_prefill ≡ s.waiting_prefill
  pub decode_eq : t.waiting_decode ≡ s.waiting_decode
  pub idx_eq : (r : ℕ) → (t.reqs r).idx ≡ (s.reqs r).idx
  pub prompt_eq : (r : ℕ) → (t.reqs r).prompt_len ≡ (s.reqs r).prompt_len
  pub output_eq : (r : ℕ) → (t.reqs r).output_len ≡ (s.reqs r).output_len

pub Alters-trans :
    (i : ℕ) (d d' : DecodeReplica) (s t u : State)
    → Alters i d s t
    → Alters i d' t u
    → Alters i d' s u
Alters-trans i d d' s t u a b = record {
  dreps_eq = b.dreps_eq ∙ ap (λ ds. set_nth ds i d') a.dreps_eq ∙ set_nth_twice s.dreps i d d';
  preps_eq = b.preps_eq ∙ a.preps_eq;
  heap_eq = b.heap_eq ∙ a.heap_eq;
  prefill_eq = b.prefill_eq ∙ a.prefill_eq;
  decode_eq = b.decode_eq ∙ a.decode_eq;
  idx_eq = λ r. b.idx_eq r ∙ a.idx_eq r;
  prompt_eq = λ r. b.prompt_eq r ∙ a.prompt_eq r;
  output_eq = λ r. b.output_eq r ∙ a.output_eq r;
}

-- The replica that an altered state has.
pub altered :
    (i : ℕ) (d d' : DecodeReplica) (s t : State)
    → get_elem? s.dreps i ≡ some d
    → Alters i d' s t
    → get_elem? t.dreps i ≡ some d'
altered i d d' s t g a = ap (λ ds. get_elem? ds i) a.dreps_eq ∙ get_elem?-set_nth s.dreps i d' d g

-- A write to a request that keeps a value of it.
pub write_keeps :
    {A : Type 0} (f : Req → A) (i : ℕ) (h : Req → Req) (reqs : ℕ → Req) (r : ℕ)
    → ((q : Req) → f (h q) ≡ f q)
    → f (write i h reqs r) ≡ f (reqs r)
unfolding write
write_keeps f i h reqs r k =
    if_elim (λ (q : Req). f q ≡ f (reqs r)) (r == i) (λ c. k (reqs r)) (λ c. refl)

pub sum_same : (f g : ℕ → ℕ) (rs : List ℕ) → ((r : ℕ) → f r ≡ g r) → sum f rs ≡ sum g rs
sum_same f g [] h = refl
sum_same f g (r ∷ rs) h = omega (arith, h r, sum_same f g rs h)

module _ (p : Pools) where
  pub full_fp-Alters :
      (i : ℕ) (d : DecodeReplica) (s t : State)
      → Alters i d s t
      → (r : ℕ) → full_fp p t.reqs r ≡ full_fp p s.reqs r
  full_fp-Alters i d s t a r = ap (kv_bytes p.kv) (omega (arith, a.prompt_eq r, a.output_eq r))

-- The tokens of a batch change the KV of the replica alone.
pub record Steps (i : ℕ) (dr d : DecodeReplica) (s t : State) : Type 0 where
  pub alters : Alters i d s t
  pub running_eq : d.running ≡ dr.running
  pub reserved_eq : d.kv_reserved ≡ dr.kv_reserved
  pub completed_eq : t.completed ≡ s.completed
  pub failed_eq : t.failed ≡ s.failed

pub stay-Steps :
    (i : ℕ) (dr : DecodeReplica) (s : State) → get_elem? s.dreps i ≡ some dr → Steps i dr dr s s
stay-Steps i dr s g = record {
  alters = record {
    dreps_eq = sym (set_nth_same s.dreps i dr g);
    preps_eq = refl;
    heap_eq = refl;
    prefill_eq = refl;
    decode_eq = refl;
    idx_eq = λ r. refl;
    prompt_eq = λ r. refl;
    output_eq = λ r. refl;
  };
  running_eq = refl;
  reserved_eq = refl;
  completed_eq = refl;
  failed_eq = refl;
}

pub Steps-trans :
    (i : ℕ) (dr d d' : DecodeReplica) (s t u : State)
    → Steps i dr d s t
    → Steps i d d' t u
    → Steps i dr d' s u
Steps-trans i dr d d' s t u a b = record {
  alters = Alters-trans i d d' s t u a.alters b.alters;
  running_eq = b.running_eq ∙ a.running_eq;
  reserved_eq = b.reserved_eq ∙ a.reserved_eq;
  completed_eq = b.completed_eq ∙ a.completed_eq;
  failed_eq = b.failed_eq ∙ a.failed_eq;
}
