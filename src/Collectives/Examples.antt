-- ===== src/Collectives/Examples.antt =====
-- Small collectives, and the theorems at concrete inputs.
use inferencesim.Prelude.{◌+◌, ◌*◌, ◌/◌, ◌≡◌, refl, [], ◌∷◌, none, some, length}
use inferencesim.Hardware.{all_to_all, ring}
use inferencesim.Sched.Task.{add}
use inferencesim.Collectives.Ring.{
  deps_on, Fabric, ring_pass, ring_allreduce, sends, ring_step, ring_steps,
}
use inferencesim.Collectives.AllToAll.{
  dest, Weights, all_to_all_tasks, a2a_on, a2a_switched, senders, messages, msg_sizes,
}
use inferencesim.Collectives.ClosedForm.{ready_of, ring_allreduce-time}

abbrev pub four : Fabric
four = record { group = 4; bw = 5; lat = 3; topology = ring; prefix = 0; label = "ffn.allreduce" }

abbrev switched : Fabric
switched = record four { topology = all_to_all }

abbrev hot : Weights
hot = record { whole = 10; parts = 4 ∷ 3 ∷ 2 ∷ 1 ∷ [] }

-- Six steps of four sends and a barrier.
steps : length (ring_allreduce four 100 none []).0 ≡ 30
unfolding ring_allreduce ring_pass ring_steps ring_step sends add
steps = refl

ring_allreduce-time_example :
    let (tasks', k) = ring_allreduce four 100 none [] in
    ready_of tasks' (deps_on k) ≡ ready_of [] [] + 2 * 3 * (100 / (4 * 5) + 3)
ring_allreduce-time_example = ring_allreduce-time four 100 none [] refl tt tt

-- Twelve messages of two tasks each, and a barrier.
exchange_size : length (all_to_all_tasks switched 60 (some hot) dest none []).0 ≡ 25
unfolding all_to_all_tasks a2a_on a2a_switched senders messages msg_sizes add
exchange_size = refl
