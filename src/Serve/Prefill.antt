-- ===== src/Serve/Prefill.antt =====
-- The invariant of the serving loop across an exclusive prefill.
use inferencesim.Prelude.{
  ℕ, ◌+◌, ◌≡◌, ap, sym, true, sum, replace, arith, ◌∙◌, In, All, All-In, sum-replace, All-replace,
  length-replace,
}
use inferencesim.Serve.Request.{Req, Req-discrete, prefill_target, complete_prefill}
use inferencesim.Serve.Kv.{IsKvModel, kv_bytes-zero}
use inferencesim.Serve.State.{Replica, State}
use inferencesim.Serve.Loop.{bytes, full_fp}
use inferencesim.Serve.Step.{fill}
use inferencesim.Serve.Accounting.{resident, IsAccounted}
use inferencesim.Serve.Sound.{IsTracked, Fits, IsReserved, IsSound, resident-le-fulls}

context-complete_prefill : (t : ℕ) (r : Req) → (complete_prefill t r).context ≡ prefill_target r
unfolding complete_prefill
context-complete_prefill t r = ground arith

module _ (p : Replica) where
  full_fp-complete_prefill : (t : ℕ) (r : Req) → full_fp p (complete_prefill t r) ≡ full_fp p r
  unfolding complete_prefill
  full_fp-complete_prefill t r = ground arith

  complete_prefill-IsTracked : (t : ℕ) (r : Req) → IsTracked r → IsTracked (complete_prefill t r)
  unfolding complete_prefill
  complete_prefill-IsTracked t r h = ground (arith, h.gen_le)

  complete_prefill-Fits : (t : ℕ) (r : Req) → Fits p r → Fits p (complete_prefill t r)
  unfolding complete_prefill
  complete_prefill-Fits t r h = ground arith

  fill-IsAccounted :
      (r : Req) (s : State)
      → In r s.running
      → IsTracked r
      → r.needs_prefill ≡ true
      → IsAccounted p s
      → IsAccounted p (fill p r s)
  unfolding fill
  fill-IsAccounted r s m t f h =
      let clock = s.clock + p.prefill_cost (prefill_target r) in
      let r' = complete_prefill clock r in
      let empty : bytes p r.context ≡ 0 = ap (bytes p) (t.pending f).0 ∙ kv_bytes-zero p.kv in
      let full : resident p r' ≡ bytes p (prefill_target r) =
        ap (bytes p) (context-complete_prefill clock r) in
      omega (arith, sum-replace Req-discrete (resident p) r r' s.running m)

  fill-IsReserved :
      (r : Req) (s : State)
      → IsKvModel p.kv
      → In r s.running
      → IsAccounted p (fill p r s)
      → All IsTracked (fill p r s).running
      → IsReserved p s
      → IsReserved p (fill p r s)
  unfolding fill
  fill-IsReserved r s v m a t k =
      let r' = complete_prefill (s.clock + p.prefill_cost (prefill_target r)) r in
      let same : sum (full_fp p) (replace Req-discrete r r' s.running) ≡ sum (full_fp p) s.running =
        omega (
          arith,
          sum-replace Req-discrete (full_fp p) r r' s.running m,
          full_fp-complete_prefill (s.clock + p.prefill_cost (prefill_target r)) r,
        ) in
      record {
        reserved = k.reserved ∙ sym same;
        within = k.within;
        no_preempt = k.no_preempt;
        peak = omega (arith, k.peak, k.within, k.reserved, resident-le-fulls p _ v t);
      }

  pub Sound-fill :
      (r : Req) (s : State)
      → IsKvModel p.kv
      → In r s.running
      → r.needs_prefill ≡ true
      → IsSound p s
      → IsSound p (fill p r s)
  unfolding fill
  Sound-fill r s v m f h =
      let t = s.clock + p.prefill_cost (prefill_target r) in
      let r' = complete_prefill t r in
      let one = All-In IsTracked r s.running h.tracked m in
      let run =
        All-replace Req-discrete IsTracked r r' s.running h.tracked
          (complete_prefill-IsTracked t r one) in
      let fit = complete_prefill-Fits t r (All-In (Fits p) r s.running h.fits m) in
      let acc = fill-IsAccounted r s m one f h.accounted in
      record {
        coming = h.coming;
        queued = h.queued;
        fits = All-replace Req-discrete (Fits p) r r' s.running h.fits fit;
        tracked = run;
        accounted = acc;
        capacity = omega (arith, h.capacity, length-replace Req-discrete r r' s.running);
        reserve = λ d. fill-IsReserved r s v m acc run (h.reserve d);
      }
