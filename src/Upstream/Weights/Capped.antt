-- ===== src/Upstream/Weights/Capped.antt =====
-- The slots of a list in lowest terms, and what is handed out when their number is limited.
use g_gateway.Base.{
  ℕ, suc, ◌<◌, ◌≤◌, ◌≡◌, ◌∙◌, refl, sym, ap, List, [], ◌∷◌, All, arith, length, u32_mod,
}
use g_gateway.Upstream.Weights.{Slot, normalize, sum_from, divisor_from, assign_capped}
use g_gateway.Upstream.Weights.Gcd.{Divides, divisor_from-Divides, divisor_from_pos}
use g_gateway.Upstream.Weights.Apportion.{weights, places}
use g_gateway.Upstream.Weights.Limit.{places-assign_capped}
use g_gateway.Upstream.Weights.Terms.{
  Weighty, normalize-Weighty, weights-bound, length-le-weights, sum_from-weights,
}

pub length-normalize : (d : ℕ) (ss : List Slot) → length (normalize d ss) ≡ length ss
unfolding normalize
length-normalize d [] = refl
length-normalize d (s ∷ ss) = ap suc (length-normalize d ss)

module _ (first : Slot) (rest : List Slot) (weighty : Weighty (first ∷ rest))
    (few : length (first ∷ rest) ≤ 65536) where
  abbrev pub active : List Slot
  active = first ∷ rest

  abbrev pub divisor : ℕ
  divisor = divisor_from first.weight rest

  pub divides : All (λ s. Divides divisor s.weight) active
  divides = let (a, b) = divisor_from-Divides first.weight rest in (a, b)

  pub divisor_pos : 0 < divisor
  divisor_pos = divisor_from_pos first.weight rest weighty.0.0

  pub lowest : Weighty (normalize divisor active)
  lowest = normalize-Weighty divisor active divisor_pos weighty divides

  pub lowest_sum : sum_from 0 (normalize divisor active) ≡ weights (normalize divisor active)
  lowest_sum =
      let b = weights-bound (normalize divisor active) lowest in
      let n = length-normalize divisor active in
      sum_from-weights 0 (normalize divisor active) (omega (arith, b, n)) ∙ omega arith

  pub lowest_some : 0 < weights (normalize divisor active)
  lowest_some =
      omega (
        arith,
        length-le-weights (normalize divisor active) lowest,
        length-normalize divisor active,
      )

  -- With a limit that has a place for each slot, the places are the limit, and each slot has one.
  pub capped :
      (limit : ℕ)
      → limit ≤ 65536
      → length (first ∷ rest) ≤ limit
      → let ss =
          assign_capped (sum_from 0 (normalize divisor active)) limit (normalize divisor active) in
        (places ss ≡ limit) × All (λ s. 1 ≤ s.assigned) ss
  capped limit small room =
      let sum = sum_from 0 (normalize divisor active) in
      let (_, total, placed) =
        places-assign_capped sum limit (normalize divisor active)
          (omega (arith, lowest_sum, lowest_some)) small
          (omega (arith, length-normalize divisor active))
          (omega (arith, length-normalize divisor active, room))
          (light (normalize divisor active) lowest) (sym lowest_sum) in
      (total, placed)
    where
      light : (ss : List Slot) → Weighty ss → All (λ s. s.weight < u32_mod) ss
      light [] h = tt
      light (s ∷ ss) h = (h.0.1, light ss h.1)
