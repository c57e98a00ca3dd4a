-- ===== src/Serve/Sound.antt =====
-- The invariant of the event loop of `serve` with exclusive prefill, across its queue operations.
use inferencesim.Prelude.{
  ℕ, ◌+◌, ◌≡◌, ◌≤◌, refl, ap, subst, ◌<◌, Bool, true, false, List, [], ◌∷◌, length, is_empty, sum,
  remove, arith, In, All, All-In, All-append, Bool-cases, inl, inr, ◌⊎◌, sum-append, All-remove,
  length-append,
}
use inferencesim.Serve.Request.{Req, Req-discrete, reset}
use inferencesim.Serve.Kv.{IsKvModel, kv_bytes_mono}
use inferencesim.Serve.State.{Replica, State}
use inferencesim.Serve.Loop.{full_fp, can_admit, preempt, admit, arrive}
use inferencesim.Serve.Step.{note_forced}
use inferencesim.Serve.Ops.{sum-remove_req}
use inferencesim.Serve.Accounting.{resident, IsAccounted, preempt-IsAccounted, admit-IsAccounted}

-- A request that runs: what it holds and what it has produced.
pub record IsTracked (r : Req) : Type 0 where
  pub pending : r.needs_prefill ≡ true → (r.context ≡ 0) × (r.prefill_done ≡ 0)
  pub decoding : r.needs_prefill ≡ false → r.context ≡ r.prompt_len + r.gen
  pub gen_le : r.gen ≤ r.output_len

is_empty-eq-nil : (rs : List Req) → is_empty rs ≡ true → rs ≡ []
is_empty-eq-nil [] e = refl
is_empty-eq-nil (r ∷ rs) e = cc

length-eq-sum : (rs : List Req) → length rs ≡ sum (λ _. 1) rs
length-eq-sum [] = refl
length-eq-sum (r ∷ rs) = omega (arith, length-eq-sum rs)

module _ (p : Replica) where
  -- What the guard of `serve` checks of each request, and what is left of its output.
  abbrev pub Fits : Req → Type 0
  Fits r = (full_fp p r ≤ p.kv_budget + p.eps) × (r.gen ≤ r.output_len)

  pub record IsReserved (s : State) : Type 0 where
    pub reserved : s.kv_reserved ≡ sum (full_fp p) s.running
    pub within : s.kv_reserved ≤ p.kv_budget + p.eps
    pub no_preempt : s.n_preempt ≡ 0
    pub peak : s.peak_kv ≤ p.kv_budget + p.eps

  pub record IsSound (s : State) : Type 0 where
    pub coming : All Fits s.incoming
    pub queued : All Fits s.waiting
    pub fits : All Fits s.running
    pub tracked : All IsTracked s.running
    pub accounted : IsAccounted p s
    pub capacity : length s.running ≤ p.max_batch
    pub reserve : p.on_demand ≡ false → IsReserved s

  -- A request never holds more than its full footprint.
  resident-le-full : (r : Req) → IsKvModel p.kv → IsTracked r → resident p r ≤ full_fp p r
  resident-le-full r v t = kv_bytes_mono p.kv r.context (r.prompt_len + r.output_len) v (bound t)
    where
      bound : IsTracked r → r.context ≤ r.prompt_len + r.output_len
      bound t = elim (Bool-cases r.needs_prefill) [
        | inl e ↦ let h = (t.pending e).0 in omega (arith, h)
        | inr e ↦ omega (arith, t.decoding e, t.gen_le)
      ]

  pub resident-le-fulls :
      (rs : List Req) → IsKvModel p.kv → All IsTracked rs → sum (resident p) rs ≤ sum (full_fp p) rs
  resident-le-fulls [] v t = omega arith
  resident-le-fulls (r ∷ rs) v (t, ts) =
      omega (arith, resident-le-full r v t, resident-le-fulls rs v ts)

  pub Sound-arrive :
      (r : Req) (rs : List Req) (s : State)
      → s.incoming ≡ r ∷ rs
      → r.arrival ≤ s.clock
      → IsSound s
      → IsSound (arrive r rs s)
  unfolding arrive
  Sound-arrive r rs s e _ h =
      let c : All Fits (r ∷ rs) = subst (All Fits) e h.coming in
      record {
        coming = c.1;
        queued = All-append Fits s.waiting (r ∷ []) h.queued (c.0, tt);
        fits = h.fits;
        tracked = h.tracked;
        accounted = h.accounted;
        capacity = h.capacity;
        reserve = λ d.
            let k = h.reserve d in
            record {
              reserved = k.reserved;
              within = k.within;
              no_preempt = k.no_preempt;
              peak = k.peak;
            };
      }

  reset-IsTracked : (r : Req) → r.gen ≤ r.output_len → IsTracked (reset r)
  reset-IsTracked r h = record { pending = λ e. (refl, refl); decoding = λ e. cc; gen_le = h }

  admit-capacity :
      (r : Req) (s : State)
      → 0 < p.max_batch
      → (can_admit p s r ≡ true) ⊎ (is_empty s.running ≡ true)
      → length s.running + 1 ≤ p.max_batch
  unfolding can_admit
  admit-capacity r s b (inl c) = ground arith
  admit-capacity r s b (inr c) = let e = is_empty-eq-nil s.running c in omega (arith, ap length e)

  admit-within :
      (r : Req) (s : State)
      → p.on_demand ≡ false
      → full_fp p r ≤ p.kv_budget + p.eps
      → s.kv_reserved ≡ sum (full_fp p) s.running
      → (can_admit p s r ≡ true) ⊎ (is_empty s.running ≡ true)
      → s.kv_reserved + full_fp p r ≤ p.kv_budget + p.eps
  unfolding can_admit
  admit-within r s d f e (inl c) = ground arith
  admit-within r s d f e (inr c) =
      let z = ap (sum (full_fp p)) (is_empty-eq-nil s.running c) in omega (arith, z)

  pub Sound-admit :
      (r : Req) (rs : List Req) (s : State)
      → 0 < p.max_batch
      → s.waiting ≡ r ∷ rs
      → (can_admit p s r ≡ true) ⊎ (is_empty s.running ≡ true)
      → IsSound s
      → IsSound (admit p r rs s)
  unfolding admit
  Sound-admit r rs s b e c h =
      let q : All Fits (r ∷ rs) = subst (All Fits) e h.queued in
      let one : List Req = reset r ∷ [] in
      record {
        coming = h.coming;
        queued = q.1;
        fits = All-append Fits s.running one h.fits (q.0, tt);
        tracked = All-append IsTracked s.running one h.tracked (reset-IsTracked r q.0.1, tt);
        accounted = admit-IsAccounted p r rs s h.accounted;
        capacity = omega (arith, length-append s.running one, admit-capacity r s b c);
        reserve = λ d. admit-reserve r s d q.0.0 c (h.reserve d);
      }
    where
      admit-reserve :
          (r : Req) (s : State)
          → p.on_demand ≡ false
          → full_fp p r ≤ p.kv_budget + p.eps
          → (can_admit p s r ≡ true) ⊎ (is_empty s.running ≡ true)
          → IsReserved s
          → IsReserved (admit p r rs s)
      admit-reserve r s d f c k = record {
        reserved = ground (arith, sum-append (full_fp p) s.running (reset r ∷ []), k.reserved);
        within = ground (arith, admit-within r s d f k.reserved c);
        no_preempt = k.no_preempt;
        peak = k.peak;
      }

  pub Sound-preempt :
      (v : Req) (s : State)
      → p.on_demand ≡ true
      → In v s.running
      → IsSound s
      → IsSound (preempt p v s)
  unfolding preempt
  Sound-preempt v s d m h = record {
    coming = h.coming;
    queued = (All-In Fits v s.running h.fits m, h.queued);
    fits = All-remove Req-discrete Fits v s.running h.fits;
    tracked = All-remove Req-discrete IsTracked v s.running h.tracked;
    accounted = preempt-IsAccounted p v s m h.accounted;
    capacity = omega (
      arith,
      h.capacity,
      sum-remove_req (λ _. 1) v s.running m,
      length-eq-sum s.running,
      length-eq-sum (remove Req-discrete v s.running),
    );
    reserve = λ f. cc;
  }

  pub Sound-forced : (b : Bool) (s : State) → IsSound s → IsSound (note_forced b s)
  unfolding note_forced
  Sound-forced true s h = record {
    coming = h.coming;
    queued = h.queued;
    fits = h.fits;
    tracked = h.tracked;
    accounted = h.accounted;
    capacity = h.capacity;
    reserve = λ d.
        let k = h.reserve d in
        record {
          reserved = k.reserved;
          within = k.within;
          no_preempt = k.no_preempt;
          peak = k.peak;
        };
  }
  Sound-forced false s h = h

  pub Sound-clock : (t : ℕ) (s : State) → IsSound s → IsSound (record s { clock = t })
  Sound-clock t s h = record {
    coming = h.coming;
    queued = h.queued;
    fits = h.fits;
    tracked = h.tracked;
    accounted = h.accounted;
    capacity = h.capacity;
    reserve = λ d.
        let k = h.reserve d in
        record {
          reserved = k.reserved;
          within = k.within;
          no_preempt = k.no_preempt;
          peak = k.peak;
        };
  }
