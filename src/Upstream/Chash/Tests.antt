-- ===== src/Upstream/Chash/Tests.antt =====
-- The ring's theorems at a ring of four points, and at two endpoints.
use g_gateway.Base.{true, ◌≡◌, refl, List, [], ◌∷◌, arith, bytes, ◌==◌}
use g_gateway.Upstream.Weights.{WeightedEndpoint}
use g_gateway.Upstream.Chash.{Continuum, select_next, select_index}
use g_gateway.Upstream.Chash.Ring.{IsRing, first_hit, points_from, select_next-first_hit}
use g_gateway.Upstream.Chash.Outcome.{Outcome}

abbrev circle : Continuum
circle = record { hashes = 10 ∷ 20 ∷ 30 ∷ 40 ∷ []; indexes = 0 ∷ 1 ∷ 0 ∷ 2 ∷ []; direct = 0 }

circle-IsRing : IsRing circle 3
circle-IsRing = record { points = omega arith; same = refl; bound = omega arith }

select_next-first_hit_example :
    (select_next circle 25 3 (λ o. o == 1) ≡ first_hit (points_from circle 25) (λ o. o == 1))
    × (select_next circle 25 3 (λ _. true) ≡ (select_index circle 25, true))
select_next-first_hit_example = select_next-first_hit circle 25 3 (λ o. o == 1) circle-IsRing

abbrev two : List WeightedEndpoint
two = record { identity = bytes "a"; weight = 2 } ∷ record { identity = bytes "b"; weight = 1 } ∷ []
