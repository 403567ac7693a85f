-- ===== src/Upstream/Weights/Tests.antt =====
-- Divisors and apportionments at concrete weights.
use g_gateway.Base.{ℕ, ◌<◌, ◌≤◌, ◌≡◌, refl, [], ◌∷◌, map, List, All, arith, bytes}
use g_gateway.Base.Order.{sort_by}
use g_gateway.Upstream.Weights.{
  Slot, greatest_common_divisor, quota, left_over, place_from, before, increment_all, assign_capped,
}
use g_gateway.Upstream.Weights.Limit.{places-assign_capped}
use g_gateway.Upstream.Weights.Apportion.{places}

abbrev slot : ℕ → ℕ → Slot
slot index weight = record {
  index = index;
  identity = bytes "http://a:80";
  weight = weight;
  assigned = 0;
  remainder = 0;
}

abbrev heavy : List Slot
heavy = slot 0 7 ∷ slot 1 2 ∷ slot 2 1 ∷ []

common : greatest_common_divisor 84 36 ≡ 12
unfolding greatest_common_divisor
common = refl

-- Ten units of weight share five places: one each, and two more for the heaviest.
five_places : map (λ (s : Slot). s.assigned) (assign_capped 10 5 heavy) ≡ 3 ∷ 1 ∷ 1 ∷ []
unfolding assign_capped quota left_over place_from before increment_all sort_by
five_places = refl

places-assign_capped_example :
    (left_over 10 5 heavy < 3)
    × (places (assign_capped 10 5 heavy) ≡ 5)
    × All (λ s. 1 ≤ s.assigned) (assign_capped 10 5 heavy)
places-assign_capped_example =
    places-assign_capped 10 5 heavy (omega arith) (omega arith) (omega arith) (omega arith)
      (omega arith) refl
