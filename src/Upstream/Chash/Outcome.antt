-- ===== src/Upstream/Chash/Outcome.antt =====
-- What compileContinuum returns.
use g_gateway.Base.{
  ℕ, ◌*◌, ◌<◌, ◌≤◌, ◌≡◌, ◌≢◌, ◌⊎◌, some, List, [], length, count, Bytes, get_elem?,
}
use g_gateway.Upstream.Weights.{WeightedEndpoint, active_slots}
use g_gateway.Upstream.Weights.Terms.{indexes, weight_at}
use g_gateway.Upstream.Chash.{
  Continuum, Compiled, ok, err, no_positive_weight, too_many_active, max_continuum_points,
  continuum_points_per_weight,
}
use g_gateway.Upstream.Chash.Points.{Ascending, Stands}

-- A continuum for the endpoints: at most `max_continuum_points` points, in ascending order of their
-- hashes, each under a hash of its endpoint's identity; every endpoint of positive weight has a point, and
-- no other has; and the numbers of points are in exact proportion to the weights, or all points are used.
pub record Continuous (xxhash : Bytes → ℕ) (es : List WeightedEndpoint) (c : Continuum)
    : Type 0 where
  pub same : length c.indexes ≡ length c.hashes
  pub bound : length c.indexes ≤ max_continuum_points
  pub ascending : Ascending c.hashes
  pub stands :
      (j h o : ℕ)
      → get_elem? c.hashes j ≡ some h
      → get_elem? c.indexes j ≡ some o
      → Stands xxhash es h o
  pub present : (i : ℕ) → 0 < weight_at es i → 1 ≤ count i c.indexes
  pub absent : (i : ℕ) → weight_at es i ≡ 0 → count i c.indexes ≡ 0
  pub shape :
      ((d : ℕ) × (0 < d)
        × ((i : ℕ) → count i c.indexes * d ≡ weight_at es i * continuum_points_per_weight))
      ⊎ (length c.indexes ≡ max_continuum_points)

-- The only endpoint of positive weight.
abbrev pub Direct : List WeightedEndpoint → Continuum → Type 0
Direct es c =
    (c.hashes ≡ []) × (0 < weight_at es c.direct) × ((i : ℕ) → i ≢ c.direct → weight_at es i ≡ 0)

abbrev pub Outcome : (Bytes → ℕ) → List WeightedEndpoint → Compiled → Type 0
Outcome xxhash es (err no_positive_weight) = (i : ℕ) → weight_at es i ≡ 0
Outcome xxhash es (err too_many_active) = max_continuum_points < length (active_slots 0 es)
Outcome xxhash es (ok c) = Direct es c ⊎ Continuous xxhash es c
