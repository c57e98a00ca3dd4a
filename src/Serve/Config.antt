-- ===== src/Serve/Config.antt =====
-- inferencesim/serve.py: the token grid, percentiles, and the link between the pools. A percentile is
-- asked for in whole percent.
use inferencesim.Prelude.{
  ℕ, ◌+◌, ◌-◌, ◌*◌, ◌/◌, ◌%◌, List, [], ◌∷◌, Option, none, some, leb, ltb, ◌==◌, if◌then◌else◌,
  length, get_elem?,
}
use inferencesim.Hardware.{System, GroupLink, crosses, exceeds, link_for_group}

-- Rounded up to a multiple of `grid`.
unfoldable pub ceil_grid : (n grid : ℕ) → ℕ
ceil_grid n grid = if leb grid 1 then n else (n + grid - 1) / grid * grid

-- Between `lo` and `hi`, by `part` hundredths.
unfoldable pub interpolate : ℕ → Option ℕ → Option ℕ → Option ℕ
interpolate part none _ = none
interpolate part (some lo) none = none
interpolate part (some lo) (some hi) = some (lo + (hi - lo) * part / 100)

-- `none` is the IndexError.
unfoldable pub percentile : List ℕ → (q : ℕ) → Option ℕ
percentile [] q = some 0
percentile (x ∷ []) q = some x
percentile (x ∷ y ∷ ys) q =
    let pos = q * (length (x ∷ y ∷ ys) - 1) in
    let lo = pos / 100 in
    let hi = (pos + 99) / 100 in
    if lo == hi
    then get_elem? (x ∷ y ∷ ys) lo
    else interpolate (pos % 100) (get_elem? (x ∷ y ∷ ys) lo) (get_elem? (x ∷ y ∷ ys) hi)

unfoldable pub kv_transfer_time : (bytes_ bandwidth latency : ℕ) → ℕ
kv_transfer_time bytes_ bandwidth latency =
    (if bandwidth == 0 then 0 else bytes_ / bandwidth) + latency

pub record TransferOverride : Type 0 where
  pub transfer_bw : Option ℕ
  pub transfer_latency : Option ℕ

-- `disagg.transfer_latency`, or a default.
unfoldable pub latency_or : ℕ → Option ℕ → ℕ
latency_or d none = d
latency_or d (some l) = l

unfoldable pub over_link : Option ℕ → GroupLink → Option (ℕ × ℕ)
over_link lat exceeds = none
over_link lat (crosses none) = none
over_link lat (crosses (some l)) = some (l.bandwidth, latency_or l.latency_s lat)

-- The bandwidth and the latency between the pools, or the ValueError.
unfoldable pub resolve_transfer : System → ℕ → TransferOverride → Option (ℕ × ℕ)
resolve_transfer system n_pool_chips disagg = elim disagg.transfer_bw [
  | none ↦
      if ltb 1 n_pool_chips
      then over_link disagg.transfer_latency (link_for_group system n_pool_chips)
      else none
  | some bw ↦ some (bw, latency_or 0 disagg.transfer_latency)
]
