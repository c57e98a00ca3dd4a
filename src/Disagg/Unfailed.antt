-- ===== src/Disagg/Unfailed.antt =====
-- No `list.remove` of `serve_disagg` raises: a request that is removed runs on the replica.
use inferencesim.Prelude.{
  ℕ, ◌+◌, ◌≡◌, refl, ◌∙◌, some, In, get_elem?, All, if_elim, ltb, ◌==◌, ◌&&◌, length,
}
use inferencesim.Disagg.State.{Pools, DecodeReplica, State, push}
use inferencesim.Disagg.Prefill.{start_prefill, note_arrival, send}
use inferencesim.Disagg.Decode.{
  preempt_from_decode, admit_to_decode, note_forced, launch, decode_step,
}
use inferencesim.Disagg.Replicas.{All-get_elem?}
use inferencesim.Disagg.Rules.{Rules}
use inferencesim.Disagg.Ends.{holds-In}
use inferencesim.Serve.Unfailed.{unless_held}
use inferencesim.Disagg.Tokens.{decode_step_lem}
use inferencesim.Disagg.Wired.{IsWired, IsBatched, Goes, Removable-batch}
use inferencesim.Disagg.Course.{Goes-Rules}

-- What an operation does to the flag from a state with the invariant.
abbrev pub Stays : State → State → Type 0
Stays s t = IsWired s → (t.failed ≡ s.failed) × IsWired t

module _ (p : Pools) where
  stays : (s t : State) → Goes s t → t.failed ≡ s.failed → Stays s t
  stays s t g f h = (f, (g h).1)

  preempt-failed :
      (i : ℕ) (dr : DecodeReplica) (v : ℕ) (s : State)
      → In v dr.running
      → (preempt_from_decode p i dr v s).failed ≡ s.failed
  unfolding preempt_from_decode
  preempt-failed i dr v s m = unless_held s.failed (holds-In v dr.running m)

  note-failed : (dr : DecodeReplica) (s : State) → (note_forced p dr s).failed ≡ s.failed
  unfolding note_forced
  note-failed dr s =
      if_elim (λ (t : State). t.failed ≡ s.failed)
        (length dr.running == 1 && ltb (p.usable + p.eps) (dr.kv_used + p.kv.kv_per_token))
        {x = record s { stat = record s.stat { forced = s.stat.forced + 1 } }} (λ c. refl)
        (λ c. refl)

  decode-failed :
      (now i : ℕ) (dr : DecodeReplica) (s : State)
      → get_elem? s.dreps i ≡ some dr
      → All IsBatched s.dreps
      → (decode_step p now i dr s).failed ≡ s.failed
  decode-failed now i dr s g b =
      let (f, d, x) = decode_step_lem p now i dr s g in
      x.failed_eq (Removable-batch dr f (All-get_elem? IsBatched s.dreps i dr b g))

  pub Stays-Rules : Rules p Stays
  Stays-Rules =
      let r = Goes-Rules p in
      record {
        same = λ s h. (refl, h);
        trans = λ s t u f g h. let (a, b) = f h in let (c, d) = g b in (c ∙ a, d);
        at_start = λ now i pr q rs s g n w.
            stays s _ (r.at_start now i pr q rs s g n w) (unfold start_prefill push in refl);
        at_admit = λ i dr q rs s g w c.
            stays s _ (r.at_admit i dr q rs s g w c) (unfold admit_to_decode in refl);
        at_preempt = λ i dr v s g d n m.
            stays s _ (r.at_preempt i dr v s g d n m) (preempt-failed i dr v s m);
        at_note = λ dr s. stays s _ (r.at_note dr s) (note-failed dr s);
        at_launch = λ now i dr s g n c.
            stays s _ (r.at_launch now i dr s g n c) (unfold launch push in refl);
        at_clear = λ s. stays s _ (r.at_clear s) refl;
        at_arrival =
            λ e rest s o q. stays s _ (r.at_arrival e rest s o q) (unfold note_arrival in refl);
        at_send = λ e rest pr q s o t g c.
            stays s _ (r.at_send e rest pr q s o t g c) (unfold send push in refl);
        at_deliver = λ e rest s o q. stays s _ (r.at_deliver e rest s o q) refl;
        at_decode = λ e rest dr s o q g h.
            stays s _ (r.at_decode e rest dr s o q g)
              (decode-failed e.when e.ref dr (record s { heap = rest }) g h.batched) h;
      }
