-- ===== src/Serve/Finish.antt =====
-- The end of requests in `serve`: what `finish` does to the other variables of the loop.
use inferencesim.Prelude.{
  ◌≡◌, refl, ◌∙◌, false, not, List, [], ◌∷◌, filter, sum, arith, Removable, remove_all,
  remove_all-filter,
}
use inferencesim.Serve.Request.{Req, Req-discrete}
use inferencesim.Serve.State.{Replica, State}
use inferencesim.Serve.Loop.{finish, finish_all, full_fp, done_decoders, is_done}
use inferencesim.Serve.Ops.{sum-remove_req}

-- Variables that neither a token nor the end of a request writes.
pub record SameQueue (s t : State) : Type 0 where
  pub incoming_eq : t.incoming ≡ s.incoming
  pub waiting_eq : t.waiting ≡ s.waiting
  pub clock_eq : t.clock ≡ s.clock
  pub preempt_eq : t.n_preempt ≡ s.n_preempt
  pub peak_kv_eq : t.peak_kv ≡ s.peak_kv

module _ (p : Replica) where
  pub finish_all-SameQueue : (rs : List Req) (s : State) → SameQueue s (finish_all p rs s)
  unfolding finish_all finish
  finish_all-SameQueue [] s = record {
    incoming_eq = refl;
    waiting_eq = refl;
    clock_eq = refl;
    preempt_eq = refl;
    peak_kv_eq = refl;
  }
  finish_all-SameQueue (r ∷ rs) s =
      let h = finish_all-SameQueue rs (finish p r s) in
      record {
        incoming_eq = h.incoming_eq;
        waiting_eq = h.waiting_eq;
        clock_eq = h.clock_eq;
        preempt_eq = h.preempt_eq;
        peak_kv_eq = h.peak_kv_eq;
      }

  finish_all-running :
      (rs : List Req) (s : State)
      → (finish_all p rs s).running ≡ remove_all Req-discrete rs s.running
  unfolding finish_all finish
  finish_all-running [] s = refl
  finish_all-running (r ∷ rs) s = finish_all-running rs (finish p r s)

  -- The requests that run on are those that are not done, in their order.
  pub running-finish_done :
      (s : State)
      → (finish_all p (done_decoders s) s).running ≡ filter (λ r. not (is_done r)) s.running
  unfolding done_decoders
  running-finish_done s =
      finish_all-running (filter is_done s.running) s
      ∙ remove_all-filter Req-discrete is_done s.running

  -- Under the reserve policy the commitments follow the requests.
  pub finish_all-reserved :
      (rs : List Req) (s : State)
      → p.on_demand ≡ false
      → Removable Req-discrete rs s.running
      → s.kv_reserved ≡ sum (full_fp p) s.running
      → (finish_all p rs s).kv_reserved ≡ sum (full_fp p) (finish_all p rs s).running
  unfolding finish_all
  finish_all-reserved [] s d m h = h
  finish_all-reserved (r ∷ rs) s d (m, ms) h =
      finish_all-reserved rs (finish p r s) d (unfold finish in ms) step
    where
      step : (finish p r s).kv_reserved ≡ sum (full_fp p) (finish p r s).running
      step = unfold finish in ground (arith, sum-remove_req (full_fp p) r s.running m)
