-- ===== src/Des/Reduced.antt =====
-- An allreduce of des.py against the time that the roofline engine gives it.
use mathlib.Core.Option.{none-ne-some, some-injective}
use inferencesim.Prelude.{
  ◌⊎◌, ℕ, ◌*◌, ◌≡◌, ◌≤◌, ◌<◌, sym, ap, ◌∙◌, subst, false, Option, none, some, ltb, arith, inl, inr,
  Bool-cases,
}
use inferencesim.Hardware.{Link}
use inferencesim.Ops.Lower.{Op}
use inferencesim.Collectives.Ring as Ring
use inferencesim.Collectives.Ring.{Tasks, deps_on, Fabric}
use inferencesim.Engine.{ring_allreduce_time}
use inferencesim.Engine.Timing.{Efficiency, allreduce_time, scaled_link, payload_of}
use inferencesim.Des.Costs.{link_bandwidth, link_latency}
use inferencesim.Des.Measured.{Measure, Takes, alone-Takes}
use inferencesim.Des.Serial.{ends, allreduce-Takes}

-- The chunks take a whole number of ticks on a link that is not idle, or there is nothing to send.
abbrev pub IsWhole : (group bw payload : ℕ) → Type 0
IsWhole group bw payload =
    (group ≤ 1) ⊎ ((0 < bw) × ((chunk : ℕ) × (payload ≡ chunk * (group * bw))))

module _ (e : Efficiency) (op : Op) where
  -- A single chip sends nothing.
  pub alone_free :
      (group : ℕ) (link : Option Link) (reduced : ℕ)
      → group ≤ 1
      → allreduce_time e op group link ≡ some reduced
      → reduced ≡ 0
  unfolding allreduce_time
  alone_free group none reduced h q =
      let few : ltb 1 group ≡ false = ground arith in sym (some-injective 0 reduced (rw few at q))
  alone_free group (some k) reduced h q =
      let few : ltb 1 group ≡ false = ground arith in sym (some-injective 0 reduced (rw few at q))

  module _ (f : Fabric) (payload : ℕ) (link : Option Link) (reduced : ℕ)
      (q : allreduce_time e op f.group link ≡ some reduced) where
    pub alone-Takes_reduced :
        (m : Measure) → f.group ≤ 1 → Takes m (Ring.allreduce f payload) reduced
    alone-Takes_reduced m h =
        subst (Takes m (Ring.allreduce f payload)) (sym (alone_free f.group link reduced h q))
          (alone-Takes m f payload (ground arith))

  module _ (f : Fabric) (payload : ℕ) (same : payload_of op ≡ payload) where
    together :
        (k : Link) (chunk reduced : ℕ)
        → payload ≡ chunk * (f.group * f.bw)
        → f.bw ≡ link_bandwidth e (some k)
        → f.lat ≡ link_latency (some k)
        → 0 < f.bw
        → ring_allreduce_time (payload_of op) f.group (scaled_link e k) ≡ reduced
        → Takes ends (Ring.allreduce f payload) reduced
    unfolding link_bandwidth link_latency scaled_link
    together k chunk reduced whole b l pos q =
        let all = allreduce-Takes f (scaled_link e k) chunk (sym b) (sym l) pos in
        subst (λ p. Takes ends (Ring.allreduce f p) reduced) (sym whole)
          (subst (Takes ends (Ring.allreduce f (chunk * (f.group * f.bw))))
            (ap (λ p. ring_allreduce_time p f.group (scaled_link e k)) (sym (same ∙ whole)) ∙ q)
            all)

    -- What the roofline engine gives an allreduce, its expansion takes.
    pub reduce-Takes :
        (link : Option Link) (reduced : ℕ)
        → f.bw ≡ link_bandwidth e link
        → f.lat ≡ link_latency link
        → IsWhole f.group f.bw payload
        → allreduce_time e op f.group link ≡ some reduced
        → Takes ends (Ring.allreduce f payload) reduced
    unfolding allreduce_time
    reduce-Takes link reduced b l (inl few) q =
        alone-Takes_reduced f payload link reduced q ends few
    reduce-Takes none reduced b l (inr (pos, (chunk, whole))) q =
        elim (Bool-cases (ltb 1 f.group)) [
          | inl c ↦ absurd (none-ne-some reduced (rw c at q))
          | inr c ↦ alone-Takes_reduced f payload none reduced q ends (ground arith)
        ]
    reduce-Takes (some k) reduced b l (inr (pos, (chunk, whole))) q =
        elim (Bool-cases (ltb 1 f.group)) [
          | inl c ↦ together k chunk reduced whole b l pos (some-injective _ reduced (rw c at q))
          | inr c ↦ alone-Takes_reduced f payload (some k) reduced q ends (ground arith)
        ]
