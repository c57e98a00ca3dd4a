-- ===== src/Serve/Accounting.antt =====
-- The counter `kv_used` of `serve` and the footprint of the requests that run.
use inferencesim.Prelude.{ℕ, ◌≡◌, List, [], ◌∷◌, sum, arith, In, sum-append, Removable}
use inferencesim.Serve.Request.{Req, Req-discrete, reset}
use inferencesim.Serve.Kv.{IsKvModel, kv_grow, kv_bytes-suc, kv_bytes-zero}
use inferencesim.Serve.State.{Replica, State}
use inferencesim.Serve.Loop.{bytes, preempt, finish, finish_all, step_decoders, admit}
use inferencesim.Serve.Ops.{sum-emit, sum-remove_req}

module _ (p : Replica) where
  abbrev pub resident : Req → ℕ
  resident r = bytes p r.context

  abbrev pub IsAccounted : State → Type 0
  IsAccounted s = s.kv_used ≡ sum resident s.running

  pub preempt-IsAccounted :
      (v : Req) (s : State) → In v s.running → IsAccounted s → IsAccounted (preempt p v s)
  unfolding preempt
  preempt-IsAccounted v s m h = omega (arith, sum-remove_req resident v s.running m)

  pub finish-IsAccounted :
      (v : Req) (s : State) → In v s.running → IsAccounted s → IsAccounted (finish p v s)
  unfolding finish
  finish-IsAccounted v s m h = omega (arith, sum-remove_req resident v s.running m)

  pub finish_all-IsAccounted :
      (rs : List Req) (s : State)
      → Removable Req-discrete rs s.running
      → IsAccounted s
      → IsAccounted (finish_all p rs s)
  unfolding finish_all
  finish_all-IsAccounted [] s m h = h
  finish_all-IsAccounted (r ∷ rs) s (m, ms) h =
      finish_all-IsAccounted rs (finish p r s) (unfold finish in ms) (finish-IsAccounted r s m h)

  pub step_decoders-IsAccounted :
      (s : State) → IsKvModel p.kv → IsAccounted s → IsAccounted (step_decoders p s)
  unfolding step_decoders
  step_decoders-IsAccounted s v h = omega (
    arith,
    sum-emit resident (λ r. kv_grow p.kv r.context) s.clock s.running
        (λ r. kv_bytes-suc p.kv r.context v),
  )

  pub admit-IsAccounted :
      (r : Req) (rs : List Req) (s : State) → IsAccounted s → IsAccounted (admit p r rs s)
  unfolding admit
  admit-IsAccounted r rs s h =
      omega (arith, sum-append resident s.running (reset r ∷ []), kv_bytes-zero p.kv)
