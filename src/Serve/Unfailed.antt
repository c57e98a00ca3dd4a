-- ===== src/Serve/Unfailed.antt =====
-- No `list.remove` of `serve` raises with exclusive prefill: a request that is removed runs.
use mathlib.Core.Logic.{ite}
use inferencesim.Prelude.{
  ℕ, zero, suc, ◌≡◌, refl, ◌∙◌, Bool, true, false, not, ◌||◌, List, [], ◌∷◌, In, inl, inr,
  Removable, Removable-filter, ltb, if_elim, length, none, ap, subst,
}
use inferencesim.Serve.Request.{Req, Req-discrete}
use inferencesim.Serve.State.{Replica, State}
use inferencesim.Serve.Loop.{
  holds, preempt, finish, finish_all, step_decoders, done_decoders, is_done, admit, arrive,
}
use inferencesim.Serve.Step.{
  fill, note_forced, decode_batch, peaks, Turn, next, halt, iteration, Outcome, served, livelock,
  run,
}
use inferencesim.Serve.Rules.{Keeps, queue_keeps, iteration_keeps}
use inferencesim.Serve.Completion.{iteration-halt}

holds-In : (r : Req) (xs : List Req) → In r xs → holds r xs ≡ true
unfolding holds
holds-In r [] m = absurd m
holds-In r (x ∷ xs) m = elim (Req-discrete x r) as (λ d. ite d true (holds r xs) ≡ true) [
  | yes e ↦ refl
  | no n ↦ elim m [ inl e ↦ absurd (n e) | inr h ↦ holds-In r xs h ]
]

pub unless_held : (b : Bool) {c : Bool} → c ≡ true → (b || not c) ≡ b
unless_held true e = refl
unless_held false e = rw e refl

-- No removal has raised.
abbrev pub IsUnfailed : State → Type 0
IsUnfailed s = s.failed ≡ false

module _ (p : Replica) where
  finish_all-IsUnfailed :
      (rs : List Req) (s : State)
      → Removable Req-discrete rs s.running
      → IsUnfailed s
      → IsUnfailed (finish_all p rs s)
  unfolding finish_all
  finish_all-IsUnfailed [] s m h = h
  finish_all-IsUnfailed (r ∷ rs) s (m, ms) h =
      finish_all-IsUnfailed rs (finish p r s) (unfold finish in ms)
        (unfold finish in unless_held s.failed (holds-In r s.running m) ∙ h)

  note_forced-IsUnfailed : (b : Bool) (s : State) → IsUnfailed s → IsUnfailed (note_forced b s)
  unfolding note_forced
  note_forced-IsUnfailed true s h = h
  note_forced-IsUnfailed false s h = h

  pub IsUnfailed-Keeps : Keeps p IsUnfailed
  unfolding peaks
  IsUnfailed-Keeps = record {
    at_arrive = λ r rs s e c h. unfold arrive in h;
    at_admit = λ r rs s e c h. unfold admit in h;
    at_preempt = λ v s d m q h. unfold preempt in unless_held s.failed (holds-In v s.running m) ∙ h;
    at_forced = note_forced-IsUnfailed;
    at_fill = λ r s m f h. unfold fill in h;
    at_decode = λ cost s h.
        finish_all-IsUnfailed _ (decode_batch p cost s)
          (unfold done_decoders in
            Removable-filter Req-discrete is_done (decode_batch p cost s).running)
          (unfold decode_batch step_decoders in h);
    at_clock = λ t s le h. h;
  }

served_state : State → Outcome → State
served_state s livelock = s
served_state s (served t) = t

served-injective : {s t : State} → served s ≡ served t → s ≡ t
unfolding served_state
served-injective {s} e = ap (served_state s) e

module _ (p : Replica) (reserve : p.on_demand ≡ false) (exclusive_only : p.prefill_chunk ≡ none)
    (n : ℕ) where
  turn-IsUnfailed :
      (s t : State) (left : ℕ) (u : Turn)
      → iteration p s ≡ u
      → ((r : State) → IsUnfailed r → run p n left r ≡ served t → IsUnfailed t)
      → IsUnfailed s
      → elim u [ halt r ↦ served r | next r ↦ run p n left r ] ≡ served t
      → IsUnfailed t
  turn-IsUnfailed s t left (halt r) e rec h o =
      let (same, _) = iteration-halt p reserve exclusive_only s r e in
      subst IsUnfailed (same ∙ served-injective o)
        (queue_keeps p IsUnfailed (IsUnfailed-Keeps p) s h)
  turn-IsUnfailed s t left (next r) e rec h o =
      rec r (iteration_keeps p IsUnfailed (IsUnfailed-Keeps p) s r exclusive_only h e) o

  -- A run from a state without a failed removal ends in one.
  pub run-IsUnfailed :
      (fuel : ℕ) (s t : State) → IsUnfailed s → run p n fuel s ≡ served t → IsUnfailed t
  unfolding run
  run-IsUnfailed zero s t h =
      if_elim (λ (o : Outcome). o ≡ served t → IsUnfailed t) (ltb (length s.completed) n)
        (λ c e. cc) (λ c e. subst IsUnfailed (served-injective e) h)
  run-IsUnfailed (suc left) s t h =
      if_elim (λ (o : Outcome). o ≡ served t → IsUnfailed t) (ltb (length s.completed) n)
        (λ c. turn-IsUnfailed s t left (iteration p s) refl (λ r. run-IsUnfailed left r t) h)
        (λ c e. subst IsUnfailed (served-injective e) h)
