-- ===== src/Disagg/Wired.antt =====
-- The closures of `serve_disagg` one by one: the way that a request goes in each, and the invariant
-- under which the batches are parts of what runs.
use native.Mathlib.Decide.{ℕ_discrete}
use inferencesim.Prelude.{
  ℕ, ◌+◌, ◌≡◌, refl, sym, ap, ◌∙◌, subst, Bool, false, List, [], ◌∷◌, ◌++◌, none, some, sum,
  sum-append, arith, get_elem?, filter, Removable, Removable-filter, remove, In, sum-remove, All,
  if_elim,
}
use mathlib.Core.List.{append-nil, append_assoc}
use inferencesim.Serve.Request.{Req, reset}
use inferencesim.Disagg.State.{Pools, PrefillReplica, DecodeReplica, State, push}
use inferencesim.Disagg.Prefill.{start_prefill}
use inferencesim.Disagg.Decode.{
  first_token, preempted, admit_to_decode, preempt_from_decode, note_forced, launch, clear_victims,
}
use inferencesim.Disagg.Place.{
  Place, arriving, queued, prefilling, moving, parked, decoding, finished, fill, admit, preempt,
  held, view, Moved, Still, Flow, still, moved,
}
use inferencesim.Disagg.Replicas.{sum-set_nth, All-set_nth, All-get_elem?}
use inferencesim.Disagg.Moves.{Removable-append}
use inferencesim.Disagg.Alters.{write_keeps}

-- The batch of a replica is a part of what runs on it, with what was admitted since behind it, and a
-- replica that does not iterate has none.
pub record IsBatched (dr : DecodeReplica) : Type 0 where
  pub joined : List ℕ
  pub split : dr.running ≡ dr.iter_batch ++ joined
  pub at_rest : dr.iterating ≡ false → dr.iter_batch ≡ []

pub record IsWired (s : State) : Type 0 where
  pub numbered : (r : ℕ) → (s.reqs r).idx ≡ r
  pub batched : All IsBatched s.dreps

-- The requests of the batch that a test keeps can be removed from what runs.
pub Removable-batch :
    (dr : DecodeReplica) (q : ℕ → Bool)
    → IsBatched dr
    → Removable ℕ_discrete (filter q dr.iter_batch) dr.running
Removable-batch dr q b =
    let done = filter q dr.iter_batch in
    subst (Removable ℕ_discrete done) (sym b.split)
      (Removable-append done dr.iter_batch b.joined (Removable-filter ℕ_discrete q dr.iter_batch))

-- What an operation does from a state with the invariant.
abbrev pub Goes : State → State → Type 0
Goes s t = IsWired s → Flow s t × IsWired t

pub first_token-idx : (now : ℕ) (r : Req) → (first_token now r).idx ≡ r.idx
unfolding first_token
first_token-idx now r = if_elim (λ (q : Req). q.idx ≡ r.idx) r.started (λ c. refl) (λ c. refl)

module _ (p : Pools) where
  pub Goes-start :
      (now i : ℕ) (pr : PrefillReplica) (r : ℕ) (rs : List ℕ) (s : State)
      → get_elem? s.preps i ≡ some pr
      → pr.current ≡ none
      → s.waiting_prefill ≡ r ∷ rs
      → Goes s (start_prefill p now i pr r rs s)
  unfolding start_prefill push
  Goes-start now i pr r rs s g n q h = (
    moved queued prefilling r fill goes,
    record {
      numbered = λ j. write_keeps (λ (x : Req). x.idx) r reset s.reqs j (λ x. refl) ∙ h.numbered j;
      batched = h.batched;
    },
  )
    where
      goes : Moved queued prefilling r s (start_prefill p now i pr r rs s)
      goes w arriving = omega arith
      goes w queued = let e = ap (sum w) q in omega (arith, e)
      goes w prefilling =
          let e = ap (held w) n in
          let k : view w (start_prefill p now i pr r rs s) prefilling + held w pr.current
              ≡ view w s prefilling + w r =
            sum-set_nth (λ (x : PrefillReplica). held w x.current) s.preps i _ pr g in
          omega (arith, e, k)
      goes w moving = omega arith
      goes w parked = refl
      goes w decoding = refl
      goes w finished = refl

  pub Goes-admit :
      (i : ℕ) (dr : DecodeReplica) (r : ℕ) (rs : List ℕ) (s : State)
      → get_elem? s.dreps i ≡ some dr
      → s.waiting_decode ≡ r ∷ rs
      → Goes s (admit_to_decode p i dr r (record s { waiting_decode = rs }))
  unfolding admit_to_decode
  Goes-admit i dr r rs s g q h = (
    moved parked decoding r admit goes,
    record {
      numbered = h.numbered;
      batched =
          let b = All-get_elem? IsBatched s.dreps i dr h.batched g in
          All-set_nth IsBatched s.dreps i _ h.batched (record {
            joined = b.joined ++ r ∷ [];
            split = ap (λ xs. xs ++ r ∷ []) b.split ∙ append_assoc dr.iter_batch b.joined (r ∷ []);
            at_rest = b.at_rest;
          });
    },
  )
    where
      goes : Moved parked decoding r s (admit_to_decode p i dr r (record s { waiting_decode = rs }))
      goes w arriving = refl
      goes w queued = refl
      goes w prefilling = refl
      goes w moving = refl
      goes w parked = let e = ap (sum w) q in omega (arith, e)
      goes w decoding =
          let k : view w (admit_to_decode p i dr r (record s { waiting_decode = rs })) decoding
                + sum w dr.running
              ≡ view w s decoding + sum w (dr.running ++ r ∷ []) =
            sum-set_nth (λ (x : DecodeReplica). sum w x.running) s.dreps i _ dr g in
          omega (arith, sum-append w dr.running (r ∷ []), k)
      goes w finished = refl

  pub Goes-preempt :
      (i : ℕ) (dr : DecodeReplica) (v : ℕ) (s : State)
      → get_elem? s.dreps i ≡ some dr
      → dr.iterating ≡ false
      → In v dr.running
      → Goes s (preempt_from_decode p i dr v s)
  unfolding preempt_from_decode
  Goes-preempt i dr v s g n m h = (
    moved decoding queued v preempt goes,
    record {
      numbered = λ j.
          write_keeps (λ (x : Req). x.idx) v preempted s.reqs j (λ x. unfold preempted in refl)
          ∙ h.numbered j;
      batched =
          let b = All-get_elem? IsBatched s.dreps i dr h.batched g in
          All-set_nth IsBatched s.dreps i _ h.batched (record {
            joined = remove ℕ_discrete v dr.running;
            split = ap (λ xs. xs ++ remove ℕ_discrete v dr.running) (sym (b.at_rest n));
            at_rest = b.at_rest;
          });
    },
  )
    where
      goes : Moved decoding queued v s (preempt_from_decode p i dr v s)
      goes w arriving = refl
      goes w queued = omega arith
      goes w prefilling = refl
      goes w moving = refl
      goes w parked = refl
      goes w decoding =
          let k : view w (preempt_from_decode p i dr v s) decoding + sum w dr.running
              ≡ view w s decoding + sum w (remove ℕ_discrete v dr.running) =
            sum-set_nth (λ (x : DecodeReplica). sum w x.running) s.dreps i _ dr g in
          omega (arith, sum-remove ℕ_discrete w v dr.running m, k)
      goes w finished = refl

  pub Goes-note : (dr : DecodeReplica) (s : State) → Goes s (note_forced p dr s)
  unfolding note_forced
  Goes-note dr s =
      if_elim (Goes s) _
        (λ c h.
          (still (λ w z. view_same w z), record { numbered = h.numbered; batched = h.batched }))
        (λ c h. (still (λ w z. refl), h))
    where
      view_same :
          (w : ℕ → ℕ) (z : Place)
          → view w (record s { stat = record s.stat { forced = s.stat.forced + 1 } }) z ≡ view w s z
      view_same w arriving = refl
      view_same w queued = refl
      view_same w prefilling = refl
      view_same w moving = refl
      view_same w parked = refl
      view_same w decoding = refl
      view_same w finished = refl

  pub Goes-launch :
      (now i : ℕ) (dr : DecodeReplica) (s : State)
      → get_elem? s.dreps i ≡ some dr
      → Goes s (launch p now i dr s)
  unfolding launch push
  Goes-launch now i dr s g h = (
    still same,
    record {
      numbered = h.numbered;
      batched =
          All-set_nth IsBatched s.dreps i _ h.batched
            (record { joined = []; split = sym (append-nil dr.running); at_rest = λ n. cc });
    },
  )
    where
      same : Still s (launch p now i dr s)
      same w arriving = omega arith
      same w queued = refl
      same w prefilling = refl
      same w moving = omega arith
      same w parked = refl
      same w decoding =
          let k : view w (launch p now i dr s) decoding + sum w dr.running
              ≡ view w s decoding + sum w dr.running =
            sum-set_nth (λ (x : DecodeReplica). sum w x.running) s.dreps i _ dr g in
          omega (arith, k)
      same w finished = refl

  pub Goes-clear : (s : State) → Goes s (clear_victims s)
  Goes-clear s h = (still same, record { numbered = h.numbered; batched = h.batched })
    where
      same : Still s (clear_victims s)
      same w arriving = refl
      same w queued = refl
      same w prefilling = refl
      same w moving = refl
      same w parked = refl
      same w decoding = refl
      same w finished = refl
