-- ===== src/Des/Charged.antt =====
-- What the layer costs of des.py are for operations that the roofline engine has timed.
use mathlib.Core.Option.{some-injective}
use native.Mathlib.Nat.{mul-div_cancel, mul-mod_left}
use inferencesim.Prelude.{
  ℕ, ◌+◌, ◌*◌, ◌/◌, ◌%◌, ◌≡◌, ◌<◌, refl, sym, ap, ◌∙◌, max, false, List, [], ◌∷◌, Option, none,
  some, sum, All, arith, ◌>>=◌, bind-some, traverse,
}
use inferencesim.Hardware.{Chip}
use inferencesim.Ops.{OpKind, compute, allreduce, alltoall, halfring, cp_ring, p2p}
use inferencesim.Ops.Lower.{Op}
use inferencesim.Engine.Timing.{
  Efficiency, OpTiming, CommContext, time_of, time_op, time_kind, allreduce_time, gather_time,
  stream_time, comm_timing, unit_timing, compute_seconds, mem_seconds, payload_of,
}
use inferencesim.Des.Stage.{LayerCosts}
use inferencesim.Des.Costs.{
  Bucket, is_skipped, charge_op, bucket_of, time_once, charge, charge_all, round_even,
}

-- An operation of which one instance takes `one`, and all of them together `t`.
record IsTimed (op : Op) (o : Option ℕ) (t : OpTiming) : Type 0 where
  pub one : ℕ
  pub once : o ≡ some one
  pub together : t.time ≡ op.count * one

-- 0 stands for a time that there is not.
abbrev pub once_or : Option ℕ → ℕ
once_or none = 0
once_or (some one) = one

once_or-some : (o : Option ℕ) (one : ℕ) → o ≡ some one → (once_or o ≡ one) × (o ≡ some (once_or o))
once_or-some none one q = cc
once_or-some (some x) one q = (some-injective x one q, refl)

module _ (e : Efficiency) (op : Op) where
  abbrev single : Op
  single = record op { count = 1 }

  comm-IsTimed :
      (o : Option ℕ) (t : OpTiming)
      → (o >>= λ one. some (comm_timing e op one)) ≡ some t
      → IsTimed op ((o >>= λ one. some (comm_timing e single one)) >>= λ u. some u.time) t
  unfolding comm_timing
  comm-IsTimed none t h = cc
  comm-IsTimed (some one) t h =
      let q = some-injective _ t h in
      record {
        one = 1 * (one + e.op_overhead_s);
        once = refl;
        together = ap (λ (u : OpTiming). u.time) (sym q) ∙ omega arith;
      }

  unit-IsTimed :
      (o p : Option ℕ) (t : OpTiming)
      → (o >>= λ c. p >>= λ mem. some (unit_timing e op c mem)) ≡ some t
      → IsTimed op
          ((o >>= λ c. p >>= λ mem. some (unit_timing e single c mem)) >>= λ u. some u.time)
          t
  unfolding unit_timing
  unit-IsTimed none p t h = cc
  unit-IsTimed (some c) none t h = cc
  unit-IsTimed (some c) (some mem) t h =
      let q = some-injective _ t h in
      record {
        one = 1 * (max c mem + e.op_overhead_s);
        once = refl;
        together = ap (λ (u : OpTiming). u.time) (sym q) ∙ omega arith;
      }

module _ (e : Efficiency) (chip : Chip) (comm : CommContext) where
  time_kind-IsTimed :
      (k : OpKind) (op : Op) (t : OpTiming)
      → time_kind k e op chip comm ≡ some t
      → IsTimed op (time_kind k e (record op { count = 1 }) chip comm >>= λ u. some u.time) t
  unfolding time_kind allreduce_time gather_time stream_time compute_seconds mem_seconds payload_of
  time_kind-IsTimed allreduce op t h =
      comm-IsTimed e op (allreduce_time e op comm.tp comm.tp_link) t h
  time_kind-IsTimed halfring op t h =
      comm-IsTimed e op (gather_time e op comm.a2a comm.a2a_link) t h
  time_kind-IsTimed cp_ring op t h = comm-IsTimed e op (gather_time e op comm.cp comm.a2a_link) t h
  time_kind-IsTimed alltoall op t h = comm-IsTimed e op (stream_time e op comm.a2a_link) t h
  time_kind-IsTimed p2p op t h = comm-IsTimed e op (stream_time e op comm.p2p_link) t h
  time_kind-IsTimed compute op t h =
      unit-IsTimed e op (compute_seconds e op chip) (mem_seconds e op chip) t h

  time_op-IsTimed :
      (op : Op) (t : OpTiming)
      → time_op e op chip comm ≡ some t
      → IsTimed op (time_once e op chip comm) t
  unfolding time_op time_once
  time_op-IsTimed op t h = time_kind-IsTimed op.kind op t h

  -- The time of one instance, of operations that have one.
  abbrev pub one_of : Op → ℕ
  one_of op = once_or (time_once e op chip comm)

  abbrev pub HasOne : Op → Type 0
  HasOne op = time_once e op chip comm ≡ some (one_of op)

  -- The roofline engine adds up the instances.
  pub traverse-HasOne :
      (ops : List Op) (ts : List OpTiming)
      → traverse (λ op. time_op e op chip comm) ops ≡ some ts
      → All HasOne ops × (time_of ts ≡ sum (λ op. op.count * one_of op) ops)
  traverse-HasOne [] ts h = (tt, ap time_of (sym (some-injective [] ts h)))
  traverse-HasOne (op ∷ ops) ts h =
      let (t, a, h1) = bind-some (time_op e op chip comm) _ ts h in
      let (us, b, h2) = bind-some (traverse (λ op. time_op e op chip comm) ops) _ ts h1 in
      let timed = time_op-IsTimed op t a in
      let (all, rest) = traverse-HasOne ops us b in
      let (same, once) = once_or-some (time_once e op chip comm) timed.one timed.once in
      (
        (once, all),
        ap time_of (sym (some-injective (t ∷ us) ts h2))
            ∙ omega (arith, rest, timed.together, ap (λ x. op.count * x) same),
      )

  -- A step of `_costs`.
  pub charge_all-cons :
      (b : Bucket) (op : Op) (ops : List Op) (c : LayerCosts)
      → bucket_of op ≡ b
      → is_skipped b ≡ false
      → HasOne op
      → charge_all e chip comm (op ∷ ops) c ≡ charge_all e chip comm ops (charge b op (one_of op) c)
  unfolding charge_all charge_op
  charge_all-cons b op ops c q n o = rw (q, n, o) refl

  pub charge_all-nil : (c : LayerCosts) → charge_all e chip comm [] c ≡ some c
  unfolding charge_all
  charge_all-nil c = refl

-- A multiple of the layers is counted exactly.
pub round_even-mul : (k n : ℕ) → 0 < n → round_even (k * n) n ≡ k
unfolding round_even
round_even-mul k n h =
    let whole : k * n / n ≡ k = mul-div_cancel k h in
    let none_left : k * n % n ≡ 0 = mul-mod_left k n in rw (whole, none_left) (ground arith)
