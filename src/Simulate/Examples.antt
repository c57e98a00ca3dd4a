-- ===== src/Simulate/Examples.antt =====
-- The memory of a small replica.
use inferencesim.Prelude.{◌*◌, ◌≡◌, ◌≤◌, refl, true, none, arith}
use inferencesim.Workload.Model.{ModelSpec, weight_bytes, replica_chips}
use inferencesim.Workload.Examples.{small}
use inferencesim.Simulate.{MemoryUsage, total, fits, weight_bytes_per_chip}
use inferencesim.Simulate.Weights.{weight_bytes_held}
use inferencesim.Serve.Runs.{pair}

abbrev used : MemoryUsage
used = record { weights = 40; kv_cache = 30; activations = 5; capacity = 80 }

room : fits used ≡ true
unfolding fits total
room = refl

abbrev dense : ModelSpec
dense = record small { moe = none }

weight_bytes_held_example :
    let held = weight_bytes_per_chip dense pair in
    weight_bytes dense pair.weight_dtype * held.under ≤ held.over * replica_chips pair
weight_bytes_held_example =
    weight_bytes_held dense pair refl (omega arith) (omega arith) (omega arith)
