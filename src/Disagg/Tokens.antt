-- ===== src/Disagg/Tokens.antt =====
-- What the handler of `decode_done` does to the replica of the event, and that it leaves the others.
use native.Mathlib.Decide.{ℕ_discrete}
use inferencesim.Prelude.{
  sym, Removable, subst, ℕ, ◌+◌, ◌-◌, ◌≡◌, refl, ap, ◌∙◌, Bool, false, List, [], ◌∷◌, some, sum,
  arith, get_elem?, filter, remove_all,
}
use inferencesim.Serve.Request.{Req, RequestRecord, emit}
use inferencesim.Disagg.State.{Pools, DecodeReplica, State}
use inferencesim.Disagg.Decode.{
  full_fp, count_step, token, tokens, note_peak, finish_all, end_batch, decode_step, is_done,
}
use inferencesim.Disagg.Alters.{
  Alters, Alters-trans, altered, write_keeps, sum_same, full_fp-Alters, Steps, stay-Steps,
  Steps-trans,
}
use inferencesim.Disagg.Ends.{finish_all_lem}

module _ (p : Pools) where
  token_lem :
      (now i r : ℕ) (dr : DecodeReplica) (s : State)
      → (d : DecodeReplica) × Steps i dr d s (token p now i dr r s)
  unfolding token
  token_lem now i r dr s = (
    _,
    record {
      alters = record {
        dreps_eq = refl;
        preps_eq = refl;
        heap_eq = refl;
        prefill_eq = refl;
        decode_eq = refl;
        idx_eq = λ q. write_keeps (λ (x : Req). x.idx) r (emit now) s.reqs q (λ x. refl);
        prompt_eq = λ q. write_keeps (λ (x : Req). x.prompt_len) r (emit now) s.reqs q (λ x. refl);
        output_eq = λ q. write_keeps (λ (x : Req). x.output_len) r (emit now) s.reqs q (λ x. refl);
      };
      running_eq = refl;
      reserved_eq = refl;
      completed_eq = refl;
      failed_eq = refl;
    },
  )

  pub tokens_lem :
      (now i : ℕ) (rs : List ℕ) (dr : DecodeReplica) (s : State)
      → get_elem? s.dreps i ≡ some dr
      → (d : DecodeReplica) × Steps i dr d s (tokens p now i rs s)
  unfolding tokens
  tokens_lem now i [] dr s g = (dr, stay-Steps i dr s g)
  tokens_lem now i (r ∷ rs) dr s g =
      let (d, a) = token_lem now i r dr s in
      let (d', b) = tokens_lem now i rs d (token p now i dr r s) (altered i dr d s _ g a.alters) in
      rw g (d', Steps-trans i dr d d' s _ _ a b)

  -- The handler of `decode_done` up to the dispatch: the done requests of the batch `rs` leave the
  -- replica, which has no batch after it.
  pub record Decoded (i : ℕ) (dr d : DecodeReplica) (rs : List ℕ) (s t : State) : Type 0 where
    pub alters : Alters i d s t
    pub running_eq : d.running ≡ remove_all ℕ_discrete rs dr.running
    pub iterating_eq : d.iterating ≡ false
    pub batch_eq : d.iter_batch ≡ []
    pub reserved_eq :
        (full : ℕ → ℕ)
        → ((r : ℕ) → full_fp p s.reqs r ≡ full r)
        → p.on_demand ≡ false
        → d.kv_reserved ≡ dr.kv_reserved - sum full rs
    pub completed_eq :
        (w : ℕ → ℕ)
        → sum (λ (c : RequestRecord). w c.idx) t.completed
          ≡ sum (λ (c : RequestRecord). w c.idx) s.completed + sum (λ r. w (s.reqs r).idx) rs
    pub failed_eq : Removable ℕ_discrete rs dr.running → t.failed ≡ s.failed

  count_step_lem :
      (now i : ℕ) (dr : DecodeReplica) (s : State)
      → (d : DecodeReplica) × Steps i dr d s (count_step p now i dr s)
  unfolding count_step
  count_step_lem now i dr s = (
    _,
    record {
      alters = record {
        dreps_eq = refl;
        preps_eq = refl;
        heap_eq = refl;
        prefill_eq = refl;
        decode_eq = refl;
        idx_eq = λ q. refl;
        prompt_eq = λ q. refl;
        output_eq = λ q. refl;
      };
      running_eq = refl;
      reserved_eq = refl;
      completed_eq = refl;
      failed_eq = refl;
    },
  )

  note_peak_lem :
      (i : ℕ) (d : DecodeReplica) (s : State)
      → get_elem? s.dreps i ≡ some d
      → Steps i d d s (note_peak p (get_elem? s.dreps i) s)
  unfolding note_peak
  note_peak_lem i d s g =
      let h = stay-Steps i d s g in
      rw g (record {
        alters = record {
          dreps_eq = h.alters.dreps_eq;
          preps_eq = refl;
          heap_eq = refl;
          prefill_eq = refl;
          decode_eq = refl;
          idx_eq = λ q. refl;
          prompt_eq = λ q. refl;
          output_eq = λ q. refl;
        };
        running_eq = refl;
        reserved_eq = refl;
        completed_eq = refl;
        failed_eq = refl;
      })

  end_batch_lem :
      (i : ℕ) (d : DecodeReplica) (s : State)
      → get_elem? s.dreps i ≡ some d
      → Alters i
          (record d { iterating = false; iter_batch = [] })
          s
          (end_batch p i (get_elem? s.dreps i) s)
        × ((end_batch p i (get_elem? s.dreps i) s).completed ≡ s.completed)
        × ((end_batch p i (get_elem? s.dreps i) s).failed ≡ s.failed)
  unfolding end_batch
  end_batch_lem i d s g = rw g (
    record {
      dreps_eq = refl;
      preps_eq = refl;
      heap_eq = refl;
      prefill_eq = refl;
      decode_eq = refl;
      idx_eq = λ q. refl;
      prompt_eq = λ q. refl;
      output_eq = λ q. refl;
    },
    refl,
    refl,
  )

  pub decode_step_lem :
      (now i : ℕ) (dr : DecodeReplica) (s : State)
      → get_elem? s.dreps i ≡ some dr
      → (q : ℕ → Bool) × (d : DecodeReplica) × Decoded i dr d
          (filter q dr.iter_batch)
          s
          (decode_step p now i dr s)
  unfolding decode_step
  decode_step_lem now i dr s g =
      let s0 = count_step p now i dr s in
      let (d0, a) = count_step_lem now i dr s in
      let (d1, b) = tokens_lem now i dr.iter_batch d0 s0 (altered i dr d0 s s0 g a.alters) in
      let s1 = tokens p now i dr.iter_batch s0 in
      let c = Steps-trans i dr d0 d1 s s0 s1 a b in
      let s2 = note_peak p (get_elem? s1.dreps i) s1 in
      let e =
        Steps-trans i dr d1 d1 s s1 s2 c
          (note_peak_lem i d1 s1 (altered i dr d1 s s1 g c.alters)) in
      let done = filter (is_done s2.reqs) dr.iter_batch in
      let g2 = altered i dr d1 s s2 g e.alters in
      let (d3, f) = finish_all_lem p now i done d1 s2 g2 in
      let s3 = finish_all p now i done s2 in
      let h = Alters-trans i d1 d3 s s2 s3 e.alters f.alters in
      let k = end_batch_lem i d3 s3 (altered i dr d3 s s3 g h) in
      (
        is_done s2.reqs,
        record d3 { iterating = false; iter_batch = [] },
        record {
          alters = Alters-trans i d3 _ s s3 _ h k.0;
          running_eq = f.running_eq ∙ ap (remove_all ℕ_discrete done) e.running_eq;
          iterating_eq = refl;
          batch_eq = refl;
          reserved_eq = λ full u c.
              let l = f.reserved_eq full (λ r. full_fp-Alters p i d1 s s2 e.alters r ∙ u r) c in
              let m = e.reserved_eq in omega arith;
          completed_eq = λ w.
              let l = f.completed_eq w in
              let m = ap (sum (λ (c : RequestRecord). w c.idx)) e.completed_eq in
              let n = ap (sum (λ (c : RequestRecord). w c.idx)) k.1 in
              let o =
                sum_same (λ r. w (s2.reqs r).idx) (λ r. w (s.reqs r).idx) done
                  (λ r. ap w (e.alters.idx_eq r)) in
              omega (arith, l, m, n, o);
          failed_eq = λ part.
              k.2
              ∙ f.failed_eq (subst (Removable ℕ_discrete done) (sym e.running_eq) part)
              ∙ e.failed_eq;
        },
      )
