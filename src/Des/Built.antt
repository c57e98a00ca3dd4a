-- ===== src/Des/Built.antt =====
-- inferencesim/des.py: the tasks of all stages, microbatches and rounds are a graph, which is scheduled
-- to its end.
use inferencesim.Prelude.{
  ◌⊎◌, ℕ, ◌+◌, ◌≤◌, ◌<◌, Bool, ◌==◌, Option, none, some, length, List, [], ◌∷◌, inl, arith, ◌>>=◌,
}
use inferencesim.Sched.Task.{IsGraph}
use inferencesim.Collectives.Ring.{Tasks, deps_on}
use inferencesim.Collectives.Graph.{Below, IsGrown, IsGrown-trans, here, Below-mono}
use inferencesim.Des.Stage.{LayerCosts, CommPlan, build_if, with_key, stage_tasks, emit_hop}
use inferencesim.Des.Grown.{stage_chain-Grows, emit_hop-Grows, build_if-Grows}
use inferencesim.Des.Keyed.{IsKey, stage_chain-IsKey, emit_hop-Leads, build_if-Leads}
use inferencesim.Des.Rounds.{walk}

module _ (oh : ℕ) (c : LayerCosts) (plan : CommPlan) where
  -- A stage with a key to start from, or with a layer, comes to tasks and a key; no assertion fails.
  abbrev IsStage : Tasks → Option (Tasks × ℕ) → Type 0
  IsStage tasks none = ⊥
  IsStage tasks (some (tasks', k)) = IsGrown (length tasks) tasks' (k ∷ [])

  with_key-IsStage :
      (tasks tasks' : Tasks) (k : Option ℕ)
      → IsKey k
      → IsGrown (length tasks) tasks' (deps_on k)
      → IsStage tasks (with_key oh c plan (tasks', k))
  unfolding with_key
  with_key-IsStage tasks tasks' none i g = absurd i
  with_key-IsStage tasks tasks' (some k) i g = g

  stage_tasks-IsStage :
      (s n : ℕ) (is_first is_last : Bool) (prev : Option ℕ) (tasks : Tasks)
      → IsKey prev ⊎ (0 < n)
      → IsGraph tasks
      → Below (length tasks) (deps_on prev)
      → IsStage tasks (stage_tasks oh c plan s n is_first is_last prev tasks)
  unfolding stage_tasks
  stage_tasks-IsStage s n is_first is_last prev tasks h g b =
      with_key-IsStage tasks _ _ (stage_chain-IsKey oh c plan s n is_first is_last prev tasks h)
        (stage_chain-Grows oh c plan s n is_first is_last prev tasks g b)

  module _ (pp : ℕ) where
    abbrev pub IsWalk : Tasks → Option (Tasks × (Option ℕ × Option ℕ)) → Type 0
    IsWalk tasks none = ⊥
    IsWalk tasks (some (tasks', (prev, end_key))) =
        IsGrown (length tasks) tasks' (deps_on prev)
        × Below (length tasks') (deps_on end_key)
        × IsKey end_key

    -- What the first stage needs.
    abbrev pub HasWork : List ℕ → Option ℕ → Type 0
    HasWork [] prev = Unit
    HasWork (n ∷ ns) prev = IsKey prev ⊎ (0 < n)

    -- Without a stage, the end is the one given.
    abbrev pub Ends : List ℕ → Option ℕ → Type 0
    Ends [] end_key = IsKey end_key
    Ends (n ∷ ns) end_key = Unit

    Ends-some : (ns : List ℕ) (k : ℕ) → Ends ns (some k)
    Ends-some [] k = tt
    Ends-some (n ∷ ns) k = tt

    HasWork-key : (ns : List ℕ) (prev : Option ℕ) → IsKey prev → HasWork ns prev
    HasWork-key [] prev k = tt
    HasWork-key (n ∷ ns) prev k = inl k

    IsWalk-longer :
        (tasks tasks' : Tasks) (r : Option (Tasks × (Option ℕ × Option ℕ)))
        → length tasks ≤ length tasks'
        → IsWalk tasks' r
        → IsWalk tasks r
    IsWalk-longer tasks tasks' none le w = w
    IsWalk-longer tasks tasks' (some (ts, (prev, end_key))) le (g, b, k) =
        (IsGrown-trans _ _ _ _ le g, b, k)

    -- What holds of a way through the stages from `s` on.
    abbrev pub Walks : (hops : ℕ → Bool) → List ℕ → ℕ → Type 0
    Walks hops ns s =
        (prev end_key : Option ℕ) (tasks : Tasks)
        → HasWork ns prev
        → IsGraph tasks
        → Below (length tasks) (deps_on prev)
        → Below (length tasks) (deps_on end_key)
        → Ends ns end_key
        → IsWalk tasks (walk oh c plan pp hops ns s prev end_key tasks)

    then_walk-IsWalk :
        (hops : ℕ → Bool) (ns : List ℕ) (s : ℕ) (tasks : Tasks) (stage : Option (Tasks × ℕ))
        → Walks hops ns (s + 1)
        → IsStage tasks stage
        → IsWalk tasks (
            stage >>= λ stage.
            let (tasks', k) = build_if (hops s) (emit_hop oh c plan s) (some stage.1) stage.0 in
            walk oh c plan pp hops ns (s + 1) k (some stage.1) tasks')
    then_walk-IsWalk hops ns s tasks none next i = absurd i
    then_walk-IsWalk hops ns s tasks (some (ts, k)) next i =
        let hop =
          build_if-Grows (hops s) _ (emit_hop-Grows oh c plan s) (some k) ts i.graph i.below in
        let key = build_if-Leads (hops s) _ (emit_hop-Leads oh c plan s) (some k) ts tt in
        IsWalk-longer tasks _ _ (omega (arith, i.longer, hop.longer)) (
          next _ (some k) _ (HasWork-key ns _ key) hop.graph hop.below
            (Below-mono _ _ (k ∷ []) hop.longer i.below) (Ends-some ns k))

    pub walk-IsWalk : (hops : ℕ → Bool) (ns : List ℕ) (s : ℕ) → Walks hops ns s
    unfolding walk
    walk-IsWalk hops [] s prev end_key tasks w g b e k = (here tasks _ g b, e, k)
    walk-IsWalk hops (n ∷ ns) s prev end_key tasks w g b e k =
        then_walk-IsWalk hops ns s tasks _ (walk-IsWalk hops ns (s + 1))
          (stage_tasks-IsStage s n (s == 0) (s + 1 == pp) prev tasks w g b)
