-- ===== src/Disagg/Ends.antt =====
-- What the end of the done requests of a batch does to the replica.
use native.Mathlib.Decide.{ℕ_discrete}
use inferencesim.Prelude.{
  Removable, In, inl, inr, Bool, true, false, ◌||◌, ◌==◌, ℕ, ◌+◌, ◌-◌, ◌≡◌, refl, ap, ◌∙◌, false,
  List, [], ◌∷◌, some, sum, sum-append, arith, get_elem?, remove_all,
}
use inferencesim.Serve.Request.{Req, RequestRecord, record_of}
use inferencesim.Serve.Unfailed.{unless_held}
use inferencesim.Disagg.State.{holds, Pools, DecodeReplica, State}
use inferencesim.Disagg.Decode.{full_fp, released, finish, finish_all}
use inferencesim.Disagg.Alters.{Alters, Alters-trans, altered, stay-Steps}

pub holds-In : (r : ℕ) (xs : List ℕ) → In r xs → holds r xs ≡ true
unfolding holds
holds-In r [] m = absurd m
holds-In r (x ∷ xs) (inl e) = ground (arith, e)
holds-In r (x ∷ xs) (inr m) = let rest = holds-In r xs m in rw rest (or_true (x == r))
  where
    or_true : (b : Bool) → (b || true) ≡ true
    or_true true = refl
    or_true false = refl

module _ (p : Pools) where
  -- What the end of requests does: they leave the replica, and stand among the completed ones.
  pub record Ends (i : ℕ) (dr d : DecodeReplica) (rs : List ℕ) (s t : State) : Type 0 where
    pub alters : Alters i d s t
    pub running_eq : d.running ≡ remove_all ℕ_discrete rs dr.running
    pub reserved_eq :
        (full : ℕ → ℕ)
        → ((r : ℕ) → full_fp p s.reqs r ≡ full r)
        → p.on_demand ≡ false
        → d.kv_reserved ≡ dr.kv_reserved - sum full rs
    pub completed_eq :
        (w : ℕ → ℕ)
        → sum (λ (c : RequestRecord). w c.idx) t.completed
          ≡ sum (λ (c : RequestRecord). w c.idx) s.completed + sum (λ r. w (s.reqs r).idx) rs
    pub failed_eq : Removable ℕ_discrete rs dr.running → t.failed ≡ s.failed

  -- A request that runs is removed without an error.
  finish-failed :
      (now i r : ℕ) (dr : DecodeReplica) (s : State)
      → In r dr.running
      → (finish p now i dr r s).failed ≡ s.failed
  unfolding finish
  finish-failed now i r dr s m = unless_held s.failed (holds-In r dr.running m)

  finish_lem :
      (now i r : ℕ) (dr : DecodeReplica) (s : State)
      → Alters i (released p s.reqs r dr) s (finish p now i dr r s)
  unfolding finish
  finish_lem now i r dr s = record {
    dreps_eq = refl;
    preps_eq = refl;
    heap_eq = refl;
    prefill_eq = refl;
    decode_eq = refl;
    idx_eq = λ q. refl;
    prompt_eq = λ q. refl;
    output_eq = λ q. refl;
  }

  finish-reqs :
      (now i r : ℕ) (dr : DecodeReplica) (s : State) → (finish p now i dr r s).reqs ≡ s.reqs
  unfolding finish
  finish-reqs now i r dr s = refl

  finish-completed :
      (now i r : ℕ) (dr : DecodeReplica) (s : State) (w : ℕ → ℕ)
      → sum (λ (c : RequestRecord). w c.idx) (finish p now i dr r s).completed
        ≡ sum (λ (c : RequestRecord). w c.idx) s.completed + w (s.reqs r).idx
  unfolding finish record_of
  finish-completed now i r dr s w = omega (
    arith,
    sum-append (λ (c : RequestRecord). w c.idx) s.completed (record_of now (s.reqs r) ∷ []),
  )

  pub finish_all_lem :
      (now i : ℕ) (rs : List ℕ) (dr : DecodeReplica) (s : State)
      → get_elem? s.dreps i ≡ some dr
      → (d : DecodeReplica) × Ends i dr d rs s (finish_all p now i rs s)
  unfolding finish_all
  finish_all_lem now i [] dr s g = (
    dr,
    record {
      alters = (stay-Steps i dr s g).alters;
      running_eq = refl;
      reserved_eq = λ full f d. omega arith;
      completed_eq = λ w. omega arith;
      failed_eq = λ part. refl;
    },
  )
  finish_all_lem now i (r ∷ rs) dr s g =
      let d1 = released p s.reqs r dr in
      let first = finish_lem now i r dr s in
      let t = finish p now i dr r s in
      let (d, b) = finish_all_lem now i rs d1 t (altered i dr d1 s t g first) in
      rw g (
        d,
        record {
          alters = Alters-trans i d1 d s t _ first b.alters;
          running_eq = b.running_eq;
          reserved_eq = λ full f c.
              let k =
                b.reserved_eq full
                  (λ q. ap (λ reqs. full_fp p reqs q) (finish-reqs now i r dr s) ∙ f q) c in
              let q = f r in
              let e : d1.kv_reserved ≡ dr.kv_reserved - full_fp p s.reqs r = rw c refl in
              omega (arith, k, q, e);
          completed_eq = λ w.
              let k = b.completed_eq w in
              let l = finish-completed now i r dr s w in
              let e : sum (λ q. w (t.reqs q).idx) rs ≡ sum (λ q. w (s.reqs q).idx) rs =
                ap (λ (reqs : ℕ → Req). sum (λ q. w (reqs q).idx) rs) (finish-reqs now i r dr s) in
              omega (arith, k, l, e);
          failed_eq = λ part. b.failed_eq part.1 ∙ finish-failed now i r dr s part.0;
        },
      )
