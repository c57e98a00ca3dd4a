-- ===== src/Serve/Chunk.antt =====
-- Chunked prefill and the counter `kv_used`.
use inferencesim.Prelude.{
  ℕ, zero, suc, ◌+◌, ◌*◌, ◌≡◌, ◌≤◌, ◌<◌, ap, true, false, ◌==◌, sum, arith, In, sum-replace, some,
}
use native.Mathlib.Nat.{add-zero}
use inferencesim.Serve.Request.{Req, Req-discrete, prefill_target, complete_prefill}
use inferencesim.Serve.Kv.{KvModel, IsKvModel, kv_bytes, kv_grow, kv_bytes-suc}
use inferencesim.Serve.State.{Replica, State}
use inferencesim.Serve.Loop.{bytes}
use inferencesim.Serve.Step.{chunk_done, advance_prefiller}
use inferencesim.Serve.Accounting.{resident, IsAccounted}

-- The context after a chunk is the prompt's part that is done, also where the chunk ends the prompt.
context-chunk_done :
    (clock size : ℕ) (f : Req)
    → f.prefill_done + size ≤ prefill_target f
    → (chunk_done clock size f).context ≡ f.prefill_done + size
unfolding chunk_done complete_prefill
context-chunk_done clock size f h = ground arith

grow_past :
    (k : KvModel) (ctx : ℕ)
    → IsKvModel k
    → k.swa ≡ true
    → k.window ≤ ctx
    → kv_grow k ctx + k.swa_share ≡ k.kv_per_token
unfolding kv_grow
grow_past k ctx v s h = ground (arith, v.share_le)

-- Past the window every token adds the same.
bytes_past :
    (k : KvModel) (done size : ℕ)
    → IsKvModel k
    → k.swa ≡ true
    → k.window ≤ done
    → kv_bytes k (done + size) + size * k.swa_share ≡ kv_bytes k done + size * k.kv_per_token
bytes_past k done zero v s h = rw add-zero (omega arith)
bytes_past k done (suc size) v s h =
    let e : done + suc size ≡ done + size + 1 = omega arith in
    rw e (
      omega (
        arith,
        kv_bytes-suc k (done + size) v,
        grow_past k (done + size) v s (omega arith),
        bytes_past k done size v s h,
      ))

-- Without windowed layers the footprint is linear.
bytes_linear :
    (k : KvModel) (done size : ℕ)
    → k.swa ≡ false
    → kv_bytes k (done + size) ≡ kv_bytes k done + size * k.kv_per_token
unfolding kv_bytes
bytes_linear k done size s = ground arith

module _ (p : Replica) (size : ℕ) (f : Req) (s : State) where
  -- What the prefiller of a chunk of `size` tokens is taken to be.
  pub record IsFront : Type 0 where
    pub some_tokens : 0 < size
    pub within : f.prefill_done + size ≤ prefill_target f
    pub held : f.context ≡ f.prefill_done
    pub runs : In f s.running

  replaced :
      IsFront
      → sum (resident p) (advance_prefiller p size (some f) s).running + bytes p f.prefill_done
        ≡ sum (resident p) s.running + bytes p (f.prefill_done + size)
  unfolding advance_prefiller
  replaced h =
      let f' = chunk_done s.clock size f in
      let new : resident p f' ≡ bytes p (f.prefill_done + size) =
        ap (bytes p) (context-chunk_done s.clock size f h.within) in
      let old : resident p f ≡ bytes p f.prefill_done = ap (bytes p) h.held in
      let e : (size == 0) ≡ false = not_zero h.some_tokens in
      rw e (omega (arith, sum-replace Req-discrete (resident p) f f' s.running h.runs))
    where
      not_zero : 0 < size → (size == 0) ≡ false
      not_zero h = ground arith

  used :
      IsFront → (advance_prefiller p size (some f) s).kv_used ≡ s.kv_used + size * p.kv.kv_per_token
  unfolding advance_prefiller
  used h = ground (arith, h.some_tokens)

  -- Without windowed layers a chunk keeps `kv_used` the KV of the contexts of the running requests.
  pub advance_prefiller-IsAccounted :
      IsFront
      → p.kv.swa ≡ false
      → IsAccounted p s
      → IsAccounted p (advance_prefiller p size (some f) s)
  advance_prefiller-IsAccounted h w a =
      omega (arith, used h, replaced h, bytes_linear p.kv f.prefill_done size w)

  -- With windowed layers, a chunk of a prompt whose window is already full makes `kv_used` exceed the
  -- KV of the contexts of the running requests by the share of the windowed layers for each token of
  -- the chunk.
  pub advance_prefiller_drifts :
      IsFront
      → IsKvModel p.kv
      → p.kv.swa ≡ true
      → p.kv.window ≤ f.prefill_done
      → IsAccounted p s
      → let after = advance_prefiller p size (some f) s in
        after.kv_used ≡ sum (resident p) after.running + size * p.kv.swa_share
  advance_prefiller_drifts h v w past a =
      omega (arith, used h, replaced h, bytes_past p.kv f.prefill_done size v w past)
