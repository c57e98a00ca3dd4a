-- ===== src/Collectives/Ports.antt =====
-- inferencesim/collectives.py: the names of the resources. The prefix `s{stage}` is the stage's
-- number, and an f-string is a constructor with the values that it is made of.
use native.Mathlib.Decide.{ℕ_discrete}
use mathlib.Core.Logic.{ite}
use inferencesim.Prelude.{ℕ, Bool, true, false}
use inferencesim.Hardware.{Topology, ring}

pub data Port : Type 0 where
  cw ccw out ingress_port : (prefix i : ℕ) → Port
  bar : (prefix inst : ℕ) → Port
  prop : (prefix inst i j : ℕ) → Port
  prop_h : (prefix inst : ℕ) → Port
  unit : (stage : ℕ) → Port

unfoldable pub Port-discrete : Discrete Port
unfolding ℕ_discrete
Port-discrete = hlevel ℕ_discrete

-- A test for one resource.
abbrev pub is_port : Port → Port → Bool
is_port a b = ite (Port-discrete b a) true false

-- `.bar` and `.prop` mark the names of the barriers and of the propagation delays.
unfoldable pub is_sync_resource : Port → Bool
is_sync_resource (bar _ _) = true
is_sync_resource (prop _ _ _ _) = true
is_sync_resource (prop_h _ _) = true
is_sync_resource _ = false

unfoldable pub egress : ℕ → ℕ → Topology → Port
egress prefix i ring = cw prefix i
egress prefix i _ = out prefix i

unfoldable pub ingress : ℕ → ℕ → Topology → Port
ingress prefix i ring = cw prefix i
ingress prefix i _ = ingress_port prefix i
