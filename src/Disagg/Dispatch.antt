-- ===== src/Disagg/Dispatch.antt =====
-- The rule of `Rules` for `dispatch_prefill` and `dispatch_decode`.
use inferencesim.Prelude.{
  ℕ, zero, suc, ◌+◌, ◌≡◌, refl, ap, sym, ◌∙◌, Bool, true, false, not, ◌&&◌, List, [], ◌∷◌, Option,
  none, some, if◌then◌else◌, In, if_elim, option_elim, length, get_elem?, is_empty, arith, inl, inr,
  ◌⊎◌, subst,
}
use mathlib.Core.Option.{none-ne-some, some-injective}
use inferencesim.Serve.Request.{Req}
use inferencesim.Disagg.State.{Pools, PrefillReplica, DecodeReplica, State}
use inferencesim.Disagg.Prefill.{prefill_on, prefill_at, dispatch_prefill}
use inferencesim.Disagg.Decode.{
  latest_ref, can_admit, admit_to_decode, preempt_from_decode, shed, overflows, note_forced,
  iterate, start_decode_iter, best_of, admit_at, lighter, admissions, force_on, start_at, each_drep,
  clear_victims, dispatch_decode,
}
use inferencesim.Disagg.Replicas.{for_range_rule, get_elem?-set_nth}
use inferencesim.Disagg.Rules.{Rules}

In-latest_ref : (reqs : ℕ → Req) (rs : List ℕ) (v : ℕ) → latest_ref reqs rs ≡ some v → In v rs
unfolding latest_ref
In-latest_ref reqs [] v e = cc
In-latest_ref reqs (r ∷ rs) v e = ground (arith, In-latest_ref reqs rs v)

and_left : (a b : Bool) → (a && b) ≡ true → a ≡ true
and_left true b e = refl
and_left false b e = e

-- Each of the candidates that may be chosen has room.
abbrev Admits : (p : Pools) → (ℕ → Req) → ℕ → List DecodeReplica → Option (ℕ × ℕ) → Type 0
Admits p reqs r ds b =
    (c : ℕ × ℕ)
    → b ≡ some c
    → (dr : DecodeReplica) × (get_elem? ds c.0 ≡ some dr) × (can_admit p reqs dr r ≡ true)

best_of-Admits :
    (p : Pools) (reqs : ℕ → Req) (r : ℕ) (all ds : List DecodeReplica) (i : ℕ) (b : Option (ℕ × ℕ))
    → ((m : ℕ) → get_elem? ds m ≡ get_elem? all (i + m))
    → Admits p reqs r all b
    → Admits p reqs r all (best_of p reqs r ds i b)
unfolding best_of
best_of-Admits p reqs r all [] i b h a = a
best_of-Admits p reqs r all (dr ∷ ds) i b h a =
    best_of-Admits p reqs r all ds (i + 1) _
      (λ m. let e : i + 1 + m ≡ i + suc m = omega arith in h (suc m) ∙ ap (get_elem? all) (sym e))
      (if_elim (Admits p reqs r all) (can_admit p reqs dr r && lighter b dr)
        (λ c x e.
          let q = some-injective (i, length dr.running) x e in
          let z : i + 0 ≡ x.0 = omega (arith, ap (λ (y : ℕ × ℕ). y.0) q) in
          (dr, ap (get_elem? all) (sym z) ∙ sym (h 0), and_left _ _ c))
        (λ c. a))

admit_at-queue :
    (p : Pools) (i : ℕ) (o : Option DecodeReplica) (r : ℕ) (rs : List ℕ) (s : State)
    (dr : DecodeReplica)
    → o ≡ some dr
    → (admit_at p i o r rs s).waiting_decode ≡ rs
unfolding admit_at admit_to_decode
admit_at-queue p i none r rs s dr e = absurd (none-ne-some dr e)
admit_at-queue p i (some d) r rs s dr e = refl

module _ (p : Pools) (R : State → State → Type 0) (k : Rules p R) where
  preempted-iterating :
      (i : ℕ) (dr : DecodeReplica) (v : ℕ) (s : State)
      → get_elem? s.dreps i ≡ some dr
      → (d' : DecodeReplica) → get_elem? (preempt_from_decode p i dr v s).dreps i ≡ some d'
      → d'.iterating ≡ dr.iterating
  unfolding preempt_from_decode
  preempted-iterating i dr v s g d' e = sym (
      ap (λ (x : DecodeReplica). x.iterating)
        (some-injective _ d' (sym (get_elem?-set_nth s.dreps i _ dr g) ∙ e)))

  note_forced-drep :
      (i : ℕ) (dr : DecodeReplica) (s : State)
      → get_elem? s.dreps i ≡ some dr
      → get_elem? (note_forced p dr s).dreps i ≡ some dr
  unfolding note_forced
  note_forced-drep i dr s g =
      if_elim (λ (u : State). get_elem? u.dreps i ≡ some dr) _ (λ c. g) (λ c. g)

  prefill_on_rule :
      (now i : ℕ) (pr : PrefillReplica) (o : Option ℕ) (rs : List ℕ) (s : State)
      → get_elem? s.preps i ≡ some pr
      → pr.current ≡ o
      → s.waiting_prefill ≡ rs
      → R s (prefill_on p now i pr o rs s)
  unfolding prefill_on
  prefill_on_rule now i pr (some q) rs s g c w = k.same s
  prefill_on_rule now i pr none [] s g c w = k.same s
  prefill_on_rule now i pr none (r ∷ rs) s g c w = k.at_start now i pr r rs s g c w

  prefill_at_rule :
      (now i : ℕ) (o : Option PrefillReplica) (s : State)
      → get_elem? s.preps i ≡ o
      → R s (prefill_at p now i o s)
  unfolding prefill_at
  prefill_at_rule now i none s g = k.same s
  prefill_at_rule now i (some pr) s g =
      prefill_on_rule now i pr pr.current s.waiting_prefill s g refl refl

  pub dispatch_prefill_rule : (now : ℕ) (s : State) → R s (dispatch_prefill p now s)
  unfolding dispatch_prefill
  dispatch_prefill_rule now s =
      for_range_rule R _ (length s.preps) 0 s k.same k.trans
        (λ i t. prefill_at_rule now i (get_elem? t.preps i) t refl)

  each_drep_rule :
      (body : ℕ → Option DecodeReplica → State → State) (s : State)
      → ((i : ℕ) (o : Option DecodeReplica) (t : State)
          → get_elem? t.dreps i ≡ o
          → R t (body i o t))
      → R s (each_drep body s)
  each_drep_rule body s h =
      for_range_rule R _ (length s.dreps) 0 s k.same k.trans
        (λ i t. h i (get_elem? t.dreps i) t refl)

  admit_at_rule :
      (i : ℕ) (o : Option DecodeReplica) (r : ℕ) (rs : List ℕ) (s : State)
      → get_elem? s.dreps i ≡ o
      → s.waiting_decode ≡ r ∷ rs
      → ((dr : DecodeReplica)
          → o ≡ some dr
          → (can_admit p s.reqs dr r ≡ true) ⊎ (is_empty dr.running ≡ true))
      → R s (admit_at p i o r rs s)
  unfolding admit_at
  admit_at_rule i none r rs s g w h = k.same s
  admit_at_rule i (some dr) r rs s g w h = k.at_admit i dr r rs s g w (h dr refl)

  admissions_rule : (rs : List ℕ) (s : State) → s.waiting_decode ≡ rs → R s (admissions p rs s)
  unfolding admissions
  admissions_rule [] s w = k.same s
  admissions_rule (r ∷ rs) s w =
      option_elim (R s) (best_of p s.reqs r s.dreps 0 none) (λ n. k.same s)
        (λ b e.
          let sound =
            best_of-Admits p s.reqs r s.dreps s.dreps 0 none
              (λ m. ap (get_elem? s.dreps) (omega arith)) (λ c h. absurd (none-ne-some c h)) in
          k.trans _ _ _
            (admit_at_rule b.0 (get_elem? s.dreps b.0) r rs s refl w (λ dr g. inl (
              let (d, h, c) = sound b e in
              subst (λ x. can_admit p s.reqs x r ≡ true) (some-injective d dr (sym h ∙ g)) c)))
            (admissions_rule rs _ (
              let (d, h, c) = sound b e in
              admit_at-queue p b.0 (get_elem? s.dreps b.0) r rs s d h)))

  force_on_rule :
      (i : ℕ) (o : Option DecodeReplica) (rs : List ℕ) (s : State)
      → get_elem? s.dreps i ≡ o
      → s.waiting_decode ≡ rs
      → R s (force_on p i o rs s)
  unfolding force_on
  force_on_rule i o [] s g w = k.same s
  force_on_rule i none (r ∷ rs) s g w = k.same s
  force_on_rule i (some dr) (r ∷ rs) s g w =
      if_elim (R s) (is_empty dr.running)
        (λ c. unfold admit_at in k.at_admit i dr r rs s g w (inr c)) (λ c. k.same s)

  shed_rule :
      (fuel i : ℕ) (o : Option DecodeReplica) (s : State)
      → get_elem? s.dreps i ≡ o
      → p.on_demand ≡ true
      → ((dr : DecodeReplica) → o ≡ some dr → dr.iterating ≡ false)
      → R s (shed p fuel i o s)
        × ((dr : DecodeReplica)
            → get_elem? (shed p fuel i o s).dreps i ≡ some dr
            → dr.iterating ≡ false)
  unfolding shed
  shed_rule zero i o s g d n = (k.same s, λ dr e. n dr (sym g ∙ e))
  shed_rule (suc fuel) i none s g d n = (k.same s, λ dr e. n dr (sym g ∙ e))
  shed_rule (suc fuel) i (some dr) s g d n =
      if_elim Q (overflows p dr)
        (λ c.
          option_elim Q (latest_ref s.reqs dr.running) (λ e. stay)
            (λ v e.
              let t = preempt_from_decode p i dr v s in
              let (x, y) =
                shed_rule fuel i (get_elem? t.dreps i) t refl d
                  (λ d' q. preempted-iterating i dr v s g d' q ∙ n dr refl) in
              (
                k.trans _ _ _
                    (k.at_preempt i dr v s g d (n dr refl) (In-latest_ref s.reqs dr.running v e)) x,
                y,
              )))
        (λ c. stay)
    where
      Q : State → Type 0
      Q t = R s t × ((d' : DecodeReplica) → get_elem? t.dreps i ≡ some d' → d'.iterating ≡ false)

      stay : Q s
      stay = (k.same s, λ d' e. n d' (sym g ∙ e))

  launch_rule :
      (now i : ℕ) (o : Option DecodeReplica) (s : State)
      → get_elem? s.dreps i ≡ o
      → ((dr : DecodeReplica) → o ≡ some dr → dr.iterating ≡ false)
      → R s (iterate p now i o s)
  unfolding iterate
  launch_rule now i none s g n = k.same s
  launch_rule now i (some dr) s g n =
      if_elim (R s) (is_empty dr.running) (λ c. noted)
        (λ c. k.trans _ _ _ noted (k.at_launch now i dr t same_drep (n dr refl) c))
    where
      t : State
      t = if p.on_demand then note_forced p dr s else s

      noted : R s t
      noted = if_elim (R s) p.on_demand (λ c. k.at_note dr s) (λ c. k.same s)

      same_drep : get_elem? t.dreps i ≡ some dr
      same_drep =
          if_elim (λ (u : State). get_elem? u.dreps i ≡ some dr) p.on_demand
            (λ c. note_forced-drep i dr s g) (λ c. g)

  start_decode_iter_rule :
      (now i : ℕ) (dr : DecodeReplica) (s : State)
      → get_elem? s.dreps i ≡ some dr
      → dr.iterating ≡ false
      → R s (start_decode_iter p now i dr s)
  unfolding start_decode_iter
  start_decode_iter_rule now i dr s g n = k.trans _ _ _ shorn.0 (launch_rule now i _ _ refl shorn.1)
    where
      Q : State → Type 0
      Q t = R s t × ((d' : DecodeReplica) → get_elem? t.dreps i ≡ some d' → d'.iterating ≡ false)

      idle_drep : (d' : DecodeReplica) → some dr ≡ some d' → d'.iterating ≡ false
      idle_drep d' e = subst (λ (x : DecodeReplica). x.iterating ≡ false) (some-injective dr d' e) n

      shorn : Q (if p.on_demand then shed p (length dr.running) i (some dr) s else s)
      shorn =
          if_elim Q p.on_demand (λ c. shed_rule (length dr.running) i (some dr) s g c idle_drep)
            (λ c. (k.same s, λ d' e. idle_drep d' (sym g ∙ e)))

  start_at_rule :
      (now i : ℕ) (o : Option DecodeReplica) (s : State)
      → get_elem? s.dreps i ≡ o
      → R s (start_at p now i o s)
  unfolding start_at
  start_at_rule now i none s g = k.same s
  start_at_rule now i (some dr) s g =
      if_elim (R s) (not (is_empty dr.running) && not dr.iterating)
        (λ c. start_decode_iter_rule now i dr s g (ground arith)) (λ c. k.same s)

  pub dispatch_decode_rule : (now : ℕ) (s : State) → R s (dispatch_decode p now s)
  unfolding dispatch_decode
  dispatch_decode_rule now s = k.trans _ _ _ (admissions_rule s.waiting_decode s refl) (
      k.trans _ _ _ (each_drep_rule _ _ (λ i o t g. force_on_rule i o t.waiting_decode t g refl)) (
        k.trans _ _ _ (k.at_clear _) (
          k.trans _ _ _ (each_drep_rule _ _ (λ i o t g. start_at_rule now i o t g)) (
            if_elim (R started) started.stat.victims (λ c. dispatch_prefill_rule now started)
              (λ c. k.same started)))))
    where
      started : State
      started = each_drep (start_at p now) (
          clear_victims (
            each_drep (λ i o t. force_on p i o t.waiting_decode t)
              (admissions p s.waiting_decode s)))
