-- ===== src/Serve/Rules.antt =====
-- Rules for the event loop with exclusive prefill: what the elementary operations keep, the loops and
-- the iteration keep.
use inferencesim.Prelude.{
  ℕ, zero, suc, ◌+◌, ◌≡◌, refl, Bool, true, List, [], ◌∷◌, Option, none, some, leb, ltb, leb→le,
  length, is_empty, arith, ap, In, Bool-cases, subst, if_elim, option_elim, In-remove_ne, ◌||◌, inl,
  inr, ◌⊎◌, ◌≤◌,
}
use inferencesim.Serve.Request.{Req, Req-discrete, latest, prefill_target}
use inferencesim.Serve.State.{Replica, State}
use inferencesim.Serve.Loop.{
  is_decoder, decoders, bytes, can_admit, latest_decoder, prefiller, preempt, finish_all,
  done_decoders, admit, arrive, intake, admission, force_admit,
}
use inferencesim.Serve.Step.{
  make_room, shed, overflows, fill, prefill_step, note_forced, decode_batch, shed_for, decode_step,
  peaks, idle, queue, exclusive, work, is_idle, Turn, next, next-injective, iteration,
}
use inferencesim.Serve.Ops.{In-latest_decoder, In-prefiller, In-decoders}

-- `P` survives each elementary operation. A token and the end of the requests that it completes are
-- one operation, since an invariant may fail between them.
pub record Keeps (p : Replica) (P : State → Type 0) : Type 0 where
  pub at_arrive :
      (r : Req) (rs : List Req) (s : State)
      → s.incoming ≡ r ∷ rs
      → r.arrival ≤ s.clock
      → P s
      → P (arrive r rs s)
  pub at_admit :
      (r : Req) (rs : List Req) (s : State)
      → s.waiting ≡ r ∷ rs
      → (can_admit p s r ≡ true) ⊎ (is_empty s.running ≡ true)
      → P s
      → P (admit p r rs s)
  pub at_preempt :
      (v : Req) (s : State)
      → p.on_demand ≡ true
      → In v s.running
      → is_decoder v ≡ true
      → P s
      → P (preempt p v s)
  pub at_forced : (b : Bool) (s : State) → P s → P (note_forced b s)
  pub at_fill :
      (r : Req) (s : State) → In r s.running → r.needs_prefill ≡ true → P s → P (fill p r s)
  pub at_decode :
      (cost : ℕ) (s : State)
      → P s
      → let stepped = decode_batch p cost s in
        P (peaks (finish_all p (done_decoders stepped) stepped))
  pub at_clock : (t : ℕ) (s : State) → s.clock ≤ t → P s → P (record s { clock = t })

decoder_ne : (r v : Req) → r.needs_prefill ≡ true → is_decoder v ≡ true → r ≡ v → ⊥
decoder_ne r v f q e =
    let g : r.needs_prefill ≡ v.needs_prefill = ap (λ (x : Req). x.needs_prefill) e in ground arith

module _ (p : Replica) (P : State → Type 0) (k : Keeps p P) where
  intake_keeps : (rs : List Req) (s : State) → s.incoming ≡ rs → P s → P (intake rs s)
  unfolding intake
  intake_keeps [] s e h = h
  intake_keeps (r ∷ rs) s e h = elim (Bool-cases (leb r.arrival s.clock)) [
    | inl c ↦ rw c (
        intake_keeps rs (arrive r rs s) (unfold arrive in refl)
          (k.at_arrive r rs s e (leb→le _ _ c) h))
    | inr c ↦ rw c h
  ]

  admission_keeps : (rs : List Req) (s : State) → s.waiting ≡ rs → P s → P (admission p rs s)
  unfolding admission
  admission_keeps [] s e h = h
  admission_keeps (r ∷ rs) s e h = elim (Bool-cases (can_admit p s r)) [
    | inl c ↦
        rw c (
          admission_keeps rs (admit p r rs s) (unfold admit in refl)
            (k.at_admit r rs s e (inl c) h))
    | inr c ↦ rw c h
  ]

  force_admit_keeps : (rs : List Req) (s : State) → s.waiting ≡ rs → P s → P (force_admit p rs s)
  unfolding force_admit
  force_admit_keeps [] s e h = h
  force_admit_keeps (r ∷ rs) s e h = elim (Bool-cases (is_empty s.running)) [
    | inl c ↦ rw c (k.at_admit r rs s e (inr c) h)
    | inr c ↦ rw c h
  ]

  pub queue_keeps : (s : State) → P s → P (queue p s)
  unfolding queue
  queue_keeps s h =
      let taken = intake s.incoming s in
      let let_in = admission p taken.waiting taken in
      force_admit_keeps let_in.waiting let_in refl
        (admission_keeps taken.waiting taken refl (intake_keeps s.incoming s refl h))

  make_room_keeps :
      (fuel : ℕ) (r : Req) (need : ℕ) (s : State)
      → p.on_demand ≡ true
      → In r s.running
      → r.needs_prefill ≡ true
      → P s
      → P (make_room p fuel r need s) × In r (make_room p fuel r need s).running
  unfolding make_room
  make_room_keeps zero r need s d m f h = (h, m)
  make_room_keeps (suc fuel) r need s d m f h =
      let Q : State → Type 0 = λ t. P t × In r t.running in
      if_elim Q (ltb (p.usable + p.eps) (s.kv_used + need))
        (λ c.
          option_elim Q (latest_decoder p r s) (λ e. (h, m))
            λ v e.
              let (mv, q) = In-latest_decoder p r s v e in
              make_room_keeps fuel r need (preempt p v s) d
                (unfold preempt in In-remove_ne Req-discrete r v s.running m (decoder_ne r v f q)) f
                (k.at_preempt v s d mv q h))
        (λ c. (h, m))

  shed_keeps :
      (fuel least extra : ℕ) (s : State) → p.on_demand ≡ true → P s → P (shed p fuel least extra s)
  unfolding shed
  shed_keeps zero least extra s d h = h
  shed_keeps (suc fuel) least extra s d h =
      if_elim P (overflows p least extra s)
        (λ c.
          option_elim P (latest (decoders s)) (λ e. h)
            λ v e.
              let (m, q) = In-decoders s v e in
              shed_keeps fuel least extra (preempt p v s) d (k.at_preempt v s d m q h))
        (λ c. h)

  shed_for_keeps :
      (least extra : ℕ) (forced : State → Bool) (s : State)
      → P s
      → P (shed_for p least extra forced s)
  unfolding shed_for
  shed_for_keeps least extra forced s h =
      if_elim P p.on_demand (λ d. k.at_forced _ _ (shed_keeps (length s.running) least extra s d h))
        (λ d. h)

  decode_step_keeps : (s : State) → P s → P (decode_step p s)
  unfolding decode_step
  decode_step_keeps s h = k.at_decode _ _ (shed_for_keeps 1 0 _ s h)

  prefill_step_keeps :
      (r : Req) (s : State) → In r s.running → r.needs_prefill ≡ true → P s → P (prefill_step p r s)
  unfolding prefill_step
  prefill_step_keeps r s m f h =
      let Q : State → Type 0 = λ t. P t × In r t.running in
      let (h', m') =
        if_elim Q p.on_demand
          (λ d. make_room_keeps (length s.running) r (bytes p (prefill_target r)) s d m f h)
          (λ d. (h, m)) in
      k.at_fill r _ m' f h'

  exclusive_keeps :
      (front : Option Req) (s : State) → prefiller s ≡ front → P s → P (exclusive p front s)
  unfolding exclusive
  exclusive_keeps none s e h = decode_step_keeps s h
  exclusive_keeps (some r) s e h =
      let (m, f) = In-prefiller s r e in
      if_elim P (p.prefill_first || is_empty (decoders s)) (λ c. prefill_step_keeps r s m f h)
        (λ c. decode_step_keeps s h)

  idle_keeps : (rs : List Req) (s s' : State) → P s → idle rs s ≡ next s' → P s'
  unfolding idle
  idle_keeps [] s s' h e = cc
  idle_keeps (r ∷ rs) s s' h e = subst P (next-injective e) (k.at_clock _ s (omega arith) h)

  pub work_keeps :
      (front : Option Req) (s : State)
      → p.prefill_chunk ≡ none
      → prefiller s ≡ front
      → P s
      → P (work p front s)
  unfolding work
  work_keeps front s x e h =
      option_elim P p.prefill_chunk (λ _. exclusive_keeps front s e h) (λ n y. cc)

  -- One iteration keeps what its operations keep.
  pub iteration_keeps :
      (s s' : State) → p.prefill_chunk ≡ none → P s → iteration p s ≡ next s' → P s'
  unfolding iteration
  iteration_keeps s s' x h =
      let t = queue p s in
      let front = prefiller t in
      if_elim (λ (o : Turn). o ≡ next s' → P s') (is_idle front t)
        (λ c. idle_keeps t.incoming t s' (queue_keeps s h))
        (λ c e. subst P (next-injective e) (work_keeps front t x refl (queue_keeps s h)))
