-- ===== src/Disagg/Moves.antt =====
-- The elementary operations of `serve_disagg` as ways that requests go: the rule of `Place` for each.
use native.Mathlib.Decide.{ℕ_discrete}
use inferencesim.Prelude.{
  ℕ, ◌+◌, ◌≡◌, refl, sym, ap, ◌∙◌, subst, List, [], ◌∷◌, ◌++◌, some, sum, sum-append, arith,
  get_elem?, Removable, remove, remove_all, In, inl, inr, sum-remove,
}
use mathlib.Core.Logic.{ite}
use inferencesim.Serve.Request.{RequestRecord, new_req, record_of}
use inferencesim.Disagg.State.{DecodeReplica, State, set_nth}
use inferencesim.Disagg.Place.{
  arriving, queued, prefilling, moving, parked, decoding, finished, complete, Moved, Still, Flow,
  still, moved, chain,
}
use inferencesim.Disagg.Replicas.{sum-set_nth, get_elem?-set_nth, set_nth_twice}
use inferencesim.Disagg.Alters.{Alters}

In-append : (v : ℕ) (xs ys : List ℕ) → In v xs → In v (xs ++ ys)
In-append v [] ys m = absurd m
In-append v (x ∷ xs) ys (inl e) = inl e
In-append v (x ∷ xs) ys (inr m) = inr (In-append v xs ys m)

remove-append :
    (v : ℕ) (xs ys : List ℕ)
    → In v xs
    → remove ℕ_discrete v (xs ++ ys) ≡ remove ℕ_discrete v xs ++ ys
remove-append v [] ys m = absurd m
remove-append v (x ∷ xs) ys m =
    elim (ℕ_discrete x v)
      as (λ d.
        ite d (xs ++ ys) (x ∷ remove ℕ_discrete v (xs ++ ys))
        ≡ ite d xs (x ∷ remove ℕ_discrete v xs) ++ ys) [
          | yes e ↦ refl
          | no n ↦ elim m [
            | inl e ↦ absurd (n e)
            | inr k ↦ ap (λ zs. x ∷ zs) (remove-append v xs ys k)
          ]
        ]

pub Removable-append :
    (rs xs ys : List ℕ) → Removable ℕ_discrete rs xs → Removable ℕ_discrete rs (xs ++ ys)
Removable-append [] xs ys h = tt
Removable-append (r ∷ rs) xs ys (m, h) = (
  In-append r xs ys m,
  subst (Removable ℕ_discrete rs) (sym (remove-append r xs ys m))
      (Removable-append rs (remove ℕ_discrete r xs) ys h),
)

pub sum-remove_all :
    (w : ℕ → ℕ) (rs xs : List ℕ)
    → Removable ℕ_discrete rs xs
    → sum w rs + sum w (remove_all ℕ_discrete rs xs) ≡ sum w xs
sum-remove_all w [] xs h = omega arith
sum-remove_all w (r ∷ rs) xs (m, h) =
    omega (arith, sum-remove ℕ_discrete w r xs m, sum-remove_all w rs (remove ℕ_discrete r xs) h)

-- One request ends.
ended :
    (i r : ℕ) (dr : DecodeReplica) (s : State) (cs : List RequestRecord)
    → In r dr.running
    → get_elem? s.dreps i ≡ some dr
    → ((w : ℕ → ℕ)
        → sum (λ (c : RequestRecord). w c.idx) cs
          ≡ sum (λ (c : RequestRecord). w c.idx) s.completed + w r)
    → Moved decoding finished r s (record s {
      dreps = set_nth s.dreps i (record dr { running = remove ℕ_discrete r dr.running });
      completed = cs;
    })
ended i r dr s cs m g c w arriving = refl
ended i r dr s cs m g c w queued = refl
ended i r dr s cs m g c w prefilling = refl
ended i r dr s cs m g c w moving = refl
ended i r dr s cs m g c w parked = refl
ended i r dr s cs m g c w decoding = omega (
  arith,
  sum-set_nth (λ (x : DecodeReplica). sum w x.running) s.dreps i
      (record dr { running = remove ℕ_discrete r dr.running }) dr g,
  sum-remove ℕ_discrete w r dr.running m,
)
ended i r dr s cs m g c w finished = omega (arith, c w)

-- Requests that end leave the replica and stand among the completed ones, one after another.
pub finished-Flow :
    (i : ℕ) (rs : List ℕ) (dr d : DecodeReplica) (s t : State)
    → get_elem? s.dreps i ≡ some dr
    → Removable ℕ_discrete rs dr.running
    → Alters i d s t
    → d.running ≡ remove_all ℕ_discrete rs dr.running
    → ((w : ℕ → ℕ)
        → sum (λ (c : RequestRecord). w c.idx) t.completed
          ≡ sum (λ (c : RequestRecord). w c.idx) s.completed + sum w rs)
    → Flow s t
finished-Flow i [] dr d s t g m a run c = still same
  where
    same : Still s t
    same w arriving = ap (sum _) a.heap_eq
    same w queued = ap (sum w) a.prefill_eq
    same w prefilling = ap (sum _) a.preps_eq
    same w moving = ap (sum _) a.heap_eq
    same w parked = ap (sum w) a.decode_eq
    same w decoding =
        let k = sum-set_nth (λ (x : DecodeReplica). sum w x.running) s.dreps i d dr g in
        let l = ap (sum (λ (x : DecodeReplica). sum w x.running)) a.dreps_eq in
        let q = ap (sum w) run in omega (arith, k, l, q)
    same w finished = omega (arith, c w)
finished-Flow i (r ∷ rs) dr d s t g (m, ms) a run c =
    let dr' : DecodeReplica = record dr { running = remove ℕ_discrete r dr.running } in
    let s' : State = record s {
      dreps = set_nth s.dreps i dr';
      completed = s.completed ++ record_of 0 (new_req r 0 0 0) ∷ [];
    } in
    let one : (w : ℕ → ℕ)
        → sum (λ (c : RequestRecord). w c.idx) s'.completed
          ≡ sum (λ (c : RequestRecord). w c.idx) s.completed + w r =
      λ w.
        unfold record_of in
        omega (
          arith,
          sum-append (λ (c : RequestRecord). w c.idx) s.completed
              (record_of 0 (new_req r 0 0 0) ∷ []),
        ) in
    chain (moved decoding finished r complete (ended i r dr s s'.completed m g one)) (
      finished-Flow i rs dr' d s' t (get_elem?-set_nth s.dreps i dr' dr g) ms
        (record {
          dreps_eq = a.dreps_eq ∙ sym (set_nth_twice s.dreps i dr' d);
          preps_eq = a.preps_eq;
          heap_eq = a.heap_eq;
          prefill_eq = a.prefill_eq;
          decode_eq = a.decode_eq;
          idx_eq = a.idx_eq;
          prompt_eq = a.prompt_eq;
          output_eq = a.output_eq;
        })
        run (λ w. omega (arith, one w, c w)))
