-- ===== src/Disagg/Reserve.antt =====
-- The slots of the decode replicas of `serve_disagg`, and their commitments under the reserve policy.
use native.Mathlib.Decide.{ℕ_discrete}
use inferencesim.Prelude.{
  ℕ, ◌+◌, ◌≡◌, ◌≤◌, ◌<◌, refl, sym, ap, ◌∙◌, subst, true, false, List, [], ◌∷◌, some, sum,
  sum-append, arith, get_elem?, filter, if_elim, All, ◌⊎◌, inl, inr, is_empty, length,
  length-append, remove_all, ltb, ◌==◌, ◌&&◌, In, remove, sum-remove,
}
use inferencesim.Serve.Request.{Req, reset}
use inferencesim.Serve.Kv.{kv_bytes}
use inferencesim.Disagg.State.{Pools, DecodeReplica, State, write, push}
use inferencesim.Disagg.Prefill.{start_prefill, note_arrival, send, filled}
use inferencesim.Disagg.Decode.{
  full_fp, can_admit, admit_to_decode, preempt_from_decode, preempted, note_forced, launch,
  first_token, decode_step,
}
use inferencesim.Disagg.Moves.{sum-remove_all}
use inferencesim.Disagg.Replicas.{All-set_nth, All-get_elem?}
use inferencesim.Disagg.Rules.{Rules}
use inferencesim.Disagg.Alters.{full_fp-Alters, write_keeps}
use inferencesim.Disagg.Tokens.{decode_step_lem}
use inferencesim.Disagg.Wired.{IsWired, IsBatched, Goes, Removable-batch}
use inferencesim.Disagg.Course.{Goes-Rules}

nil_of_empty : (rs : List ℕ) → is_empty rs ≡ true → rs ≡ []
nil_of_empty [] e = refl
nil_of_empty (r ∷ rs) e = cc

length-eq-sum : (rs : List ℕ) → length rs ≡ sum (λ _. 1) rs
length-eq-sum [] = refl
length-eq-sum (r ∷ rs) = omega (arith, length-eq-sum rs)

first_token-prompt : (now : ℕ) (r : Req) → (first_token now r).prompt_len ≡ r.prompt_len
unfolding first_token
first_token-prompt now r =
    if_elim (λ (q : Req). q.prompt_len ≡ r.prompt_len) r.started (λ c. refl) (λ c. refl)

first_token-output : (now : ℕ) (r : Req) → (first_token now r).output_len ≡ r.output_len
unfolding first_token
first_token-output now r =
    if_elim (λ (q : Req). q.output_len ≡ r.output_len) r.started (λ c. refl) (λ c. refl)

module _ (p : Pools) (full : ℕ → ℕ) where
  pub record IsCommitted (dr : DecodeReplica) : Type 0 where
    pub capacity : length dr.running ≤ p.max_batch
    pub reserved : p.on_demand ≡ false → dr.kv_reserved ≡ sum full dr.running
    pub within : p.on_demand ≡ false → dr.kv_reserved ≤ p.kv_budget + p.eps

  pub record IsKept (s : State) : Type 0 where
    pub lens : (r : ℕ) → full_fp p s.reqs r ≡ full r
    pub committed : All IsCommitted s.dreps

  write-full :
      (r : ℕ) (h : Req → Req) (reqs : ℕ → Req)
      → ((q : Req) → (h q).prompt_len ≡ q.prompt_len)
      → ((q : Req) → (h q).output_len ≡ q.output_len)
      → (i : ℕ) → full_fp p (write r h reqs) i ≡ full_fp p reqs i
  write-full r h reqs a b i =
      let x = write_keeps (λ (q : Req). q.prompt_len) r h reqs i a in
      let y = write_keeps (λ (q : Req). q.output_len) r h reqs i b in
      ap (kv_bytes p.kv) (omega (arith, x, y))

  module _ (slots : 0 < p.max_batch) (guard : (r : ℕ) → full r ≤ p.kv_budget + p.eps) where
    room :
        (reqs : ℕ → Req) (dr : DecodeReplica) (r : ℕ)
        → IsCommitted dr
        → full_fp p reqs r ≡ full r
        → (can_admit p reqs dr r ≡ true) ⊎ (is_empty dr.running ≡ true)
        → (length dr.running < p.max_batch)
          × (p.on_demand ≡ false → dr.kv_reserved + full r ≤ p.kv_budget + p.eps)
    unfolding can_admit
    room reqs dr r k f (inl c) = (ground arith, λ d. ground arith)
    room reqs dr r k f (inr c) =
        let e = nil_of_empty dr.running c in
        let z = ap length e in
        (
          omega (arith, z, slots),
          λ d. let q = k.reserved d ∙ ap (sum full) e in omega (arith, q, guard r),
        )

    Kept-admit :
        (i : ℕ) (dr : DecodeReplica) (r : ℕ) (rs : List ℕ) (s : State)
        → get_elem? s.dreps i ≡ some dr
        → (can_admit p s.reqs dr r ≡ true) ⊎ (is_empty dr.running ≡ true)
        → IsKept s
        → IsKept (admit_to_decode p i dr r (record s { waiting_decode = rs }))
    unfolding admit_to_decode
    Kept-admit i dr r rs s g c h =
        let k = All-get_elem? IsCommitted s.dreps i dr h.committed g in
        let (a, b) = room s.reqs dr r k (h.lens r) c in
        record {
          lens = h.lens;
          committed = All-set_nth IsCommitted s.dreps i _ h.committed (record {
            capacity = omega (arith, a, length-append dr.running (r ∷ []));
            reserved = λ d.
                rw d (omega (arith, k.reserved d, h.lens r, sum-append full dr.running (r ∷ [])));
            within = λ d. rw d (omega (arith, b d, h.lens r));
          });
        }

    Kept-launch :
        (now i : ℕ) (dr : DecodeReplica) (s : State)
        → get_elem? s.dreps i ≡ some dr
        → IsKept s
        → IsKept (launch p now i dr s)
    unfolding launch push
    Kept-launch now i dr s g h =
        let k = All-get_elem? IsCommitted s.dreps i dr h.committed g in
        record {
          lens = h.lens;
          committed =
              All-set_nth IsCommitted s.dreps i _ h.committed
                (record { capacity = k.capacity; reserved = k.reserved; within = k.within });
        }

    Kept-preempt :
        (i : ℕ) (dr : DecodeReplica) (v : ℕ) (s : State)
        → get_elem? s.dreps i ≡ some dr
        → p.on_demand ≡ true
        → In v dr.running
        → IsKept s
        → IsKept (preempt_from_decode p i dr v s)
    unfolding preempt_from_decode
    Kept-preempt i dr v s g d m h =
        let k = All-get_elem? IsCommitted s.dreps i dr h.committed g in
        record {
          lens = λ r.
              write-full v preempted s.reqs (λ q. unfold preempted in refl)
                (λ q. unfold preempted in refl) r
              ∙ h.lens r;
          committed = All-set_nth IsCommitted s.dreps i _ h.committed (record {
            capacity = omega (
              arith,
              k.capacity,
              sum-remove ℕ_discrete (λ _. 1) v dr.running m,
              length-eq-sum dr.running,
              length-eq-sum (remove ℕ_discrete v dr.running),
            );
            reserved = λ n. cc;
            within = λ n. cc;
          });
        }

    Kept-note : (dr : DecodeReplica) (s : State) → IsKept s → IsKept (note_forced p dr s)
    unfolding note_forced
    Kept-note dr s =
        if_elim (λ t. IsKept s → IsKept t)
          (length dr.running == 1 && ltb (p.usable + p.eps) (dr.kv_used + p.kv.kv_per_token))
          {x = record s { stat = record s.stat { forced = s.stat.forced + 1 } }}
          (λ c h. record { lens = h.lens; committed = h.committed }) (λ c h. h)

    Kept-decode :
        (now i : ℕ) (dr : DecodeReplica) (s : State)
        → get_elem? s.dreps i ≡ some dr
        → IsWired s
        → IsKept s
        → IsKept (decode_step p now i dr s)
    Kept-decode now i dr s g v h =
        let (f, d, x) = decode_step_lem p now i dr s g in
        let k = All-get_elem? IsCommitted s.dreps i dr h.committed g in
        let part = Removable-batch dr f (All-get_elem? IsBatched s.dreps i dr v.batched g) in
        let done = filter f dr.iter_batch in
        let left = remove_all ℕ_discrete done dr.running in
        let q = ap (sum full) x.running_eq in
        let z = ap length x.running_eq in
        record {
          lens = λ r. full_fp-Alters p i d s _ x.alters r ∙ h.lens r;
          committed = subst (All IsCommitted) (sym x.alters.dreps_eq) (
              All-set_nth IsCommitted s.dreps i d h.committed (record {
                capacity = omega (
                  arith,
                  z,
                  k.capacity,
                  sum-remove_all (λ _. 1) done dr.running part,
                  length-eq-sum dr.running,
                  length-eq-sum left,
                );
                reserved = λ n. omega (
                  arith,
                  q,
                  x.reserved_eq full h.lens n,
                  k.reserved n,
                  sum-remove_all full done dr.running part,
                );
                within = λ n. omega (arith, x.reserved_eq full h.lens n, k.within n);
              }));
        }

    abbrev pub Keeps : State → State → Type 0
    Keeps s t = IsWired s × IsKept s → IsWired t × IsKept t

    same_kept :
        (s t : State)
        → Goes s t
        → ((r : ℕ) → full_fp p t.reqs r ≡ full_fp p s.reqs r)
        → t.dreps ≡ s.dreps
        → Keeps s t
    same_kept s t g f d (v, h) = (
      (g v).1,
      record {
        lens = λ r. f r ∙ h.lens r;
        committed = subst (All IsCommitted) (sym d) h.committed;
      },
    )

    pub Keeps-Rules : Rules p Keeps
    Keeps-Rules =
        let r = Goes-Rules p in
        record {
          same = λ s h. h;
          trans = λ s t u f g h. g (f h);
          at_start = λ now i pr q rs s g n w.
              same_kept s _ (r.at_start now i pr q rs s g n w)
                (unfold start_prefill push in write-full q reset s.reqs (λ x. refl) (λ x. refl))
                (unfold start_prefill push in refl);
          at_admit = λ i dr q rs s g w c h.
              ((r.at_admit i dr q rs s g w c h.0).1, Kept-admit i dr q rs s g c h.1);
          at_preempt = λ i dr v s g d n m h.
              ((r.at_preempt i dr v s g d n m h.0).1, Kept-preempt i dr v s g d m h.1);
          at_note = λ dr s h. ((r.at_note dr s h.0).1, Kept-note dr s h.1);
          at_launch = λ now i dr s g n c h.
              ((r.at_launch now i dr s g n c h.0).1, Kept-launch now i dr s g h.1);
          at_clear = λ s. same_kept s _ (r.at_clear s) (λ q. refl) refl;
          at_arrival = λ e rest s o q.
              same_kept s _ (r.at_arrival e rest s o q) (unfold note_arrival in λ x. refl)
                (unfold note_arrival in refl);
          at_send = λ e rest pr q s o t g c.
              same_kept s _ (r.at_send e rest pr q s o t g c)
                (unfold send push in
                  write-full q _ s.reqs (λ x. unfold filled in refl) (λ x. unfold filled in refl))
                (unfold send push in refl);
          at_deliver = λ e rest s o q.
              same_kept s _ (r.at_deliver e rest s o q)
                (write-full e.ref (first_token e.when) s.reqs (first_token-prompt e.when)
                  (first_token-output e.when))
                refl;
          at_decode = λ e rest dr s o q g h. (
            (r.at_decode e rest dr s o q g h.0).1,
            Kept-decode e.when e.ref dr (record s { heap = rest }) g
                (record { numbered = h.0.numbered; batched = h.0.batched })
                (record { lens = h.1.lens; committed = h.1.committed }),
          );
        }
