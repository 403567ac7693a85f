-- ===== src/Upstream/Chash/Assign.antt =====
-- How many points compileContinuum gives to each active endpoint.
use g_gateway.Base.{
  ℕ, ◌*◌, ◌%◌, ◌/◌, ◌<◌, ◌≤◌, ◌≡◌, refl, ◌∙◌, ap, ◌⊎◌, inl, inr, true, List, [], ◌∷◌, map, All,
  arith, Bool-cases, length, ◌==◌, u32_mod, u64_mod,
}
use g_gateway.Upstream.Weights.{Slot, normalize, sum_from, divisor_from}
use g_gateway.Upstream.Weights.Gcd.{Divides}
use g_gateway.Upstream.Weights.Apportion.{weights, places}
use g_gateway.Upstream.Weights.Capped.{
  length-normalize, divides, divisor_pos, lowest, lowest_sum, capped,
}
use g_gateway.Upstream.Weights.Terms.{
  indexes, indexes-assign_capped, indexes-normalize, names, names-assign_capped, names-normalize,
  Weighty, weights-bound, sum_at, quotient_pos,
}
use g_gateway.Upstream.Chash.{
  assign_points, within_limit, max_continuum_points, continuum_points_per_weight,
}

scaled : List Slot → List Slot
scaled =
    map (λ (s : Slot). record s { assigned = s.weight * continuum_points_per_weight % u32_mod })

scaled_facts :
    (ss : List Slot)
    → Weighty ss
    → weights ss * continuum_points_per_weight ≤ max_continuum_points
    → (indexes (scaled ss) ≡ indexes ss)
      × (names (scaled ss) ≡ names ss)
      × (places (scaled ss) ≡ weights ss * continuum_points_per_weight)
      × All (λ s. 1 ≤ s.assigned) (scaled ss)
unfolding scaled
scaled_facts [] h b = (refl, refl, refl, tt)
scaled_facts (s ∷ ss) h b =
    let (i, n, p, a) = scaled_facts ss h.1 (omega (arith, b)) in
    (
      ap (◌∷◌ s.index) i,
      ap (◌∷◌ (s.index, s.identity)) n,
      omega (arith, p, b),
      (omega (arith, h.0.0, b), a),
    )

sum_at-scaled :
    (d i : ℕ) (ss : List Slot)
    → 0 < d
    → Weighty ss
    → All (λ s. Divides d s.weight) ss
    → weights (normalize d ss) * continuum_points_per_weight ≤ max_continuum_points
    → sum_at (λ s. s.assigned) i (scaled (normalize d ss)) * d
      ≡ sum_at (λ s. s.weight) i ss * continuum_points_per_weight
unfolding scaled normalize
sum_at-scaled d i [] p h v b = omega arith
sum_at-scaled d i (s ∷ ss) p h v b =
    let (back, _, _) = quotient_pos d s.weight p h.0.0 v.0 in
    let rest = sum_at-scaled d i ss p h.1 v.1 (omega (arith, b)) in
    let plain : s.weight / d * continuum_points_per_weight % u32_mod
        ≡ s.weight / d * continuum_points_per_weight =
      omega (arith, b) in
    elim (Bool-cases (s.index == i)) [
      | inl e ↦ rw (e, plain) (omega (arith, back, rest))
      | inr e ↦ rw e (omega (arith, rest))
    ]

-- What the points are good for, for `ss` made from the active slots `active`.
pub record Allotted (active ss : List Slot) : Type 0 where
  pub same : indexes ss ≡ indexes active
  pub named : names ss ≡ names active
  pub positive : All (λ s. 1 ≤ s.assigned) ss
  pub bound : places ss ≤ max_continuum_points
  pub shape :
      ((d : ℕ) × (0 < d)
        × ((i : ℕ)
            → sum_at (λ s. s.assigned) i ss * d
              ≡ sum_at (λ s. s.weight) i active * continuum_points_per_weight))
      ⊎ (places ss ≡ max_continuum_points)

module _ (first : Slot) (rest : List Slot) (weighty : Weighty (first ∷ rest))
    (few : length (first ∷ rest) ≤ max_continuum_points) where
  abbrev active : List Slot
  active = first ∷ rest

  abbrev divisor : ℕ
  divisor = divisor_from first.weight rest

  abbrev target : ℕ
  target = sum_from 0 (normalize divisor active) * continuum_points_per_weight % u64_mod

  -- The number of points that are wanted does not wrap.
  plain_target : target ≡ weights (normalize divisor active) * continuum_points_per_weight
  plain_target = omega (
    arith,
    lowest_sum first rest weighty few,
    weights-bound (normalize divisor active) (lowest first rest weighty few),
    length-normalize divisor active,
    few,
  )

  small :
      within_limit target ≡ true
      → weights (normalize divisor active) * continuum_points_per_weight ≤ max_continuum_points
  small e = ground (
    arith,
    e,
    plain_target,
    weights-bound (normalize divisor active) (lowest first rest weighty few),
    length-normalize divisor active,
    few,
  )

  pub assign_points-Allotted : Allotted active (assign_points first rest)
  unfolding assign_points scaled
  assign_points-Allotted = elim (Bool-cases (within_limit target)) [
    | inl e ↦
        let (i, n, p, a) =
          scaled_facts (normalize divisor active) (lowest first rest weighty few) (small e) in
        rw (e, assign_points)
          (record {
            same = i ∙ indexes-normalize divisor active;
            named = n ∙ names-normalize divisor active;
            positive = a;
            bound = omega (arith, p, small e);
            shape = inl (
              divisor,
              divisor_pos first rest weighty few,
              λ i.
                  sum_at-scaled divisor i active (divisor_pos first rest weighty few) weighty
                    (divides first rest weighty few) (small e),
            );
          })
    | inr e ↦
        let (total, placed) =
          capped first rest weighty few max_continuum_points (omega arith) few in
        let sum = sum_from 0 (normalize divisor active) in
        rw (e, assign_points)
          (record {
            same =
                indexes-assign_capped sum max_continuum_points (normalize divisor active)
                ∙ indexes-normalize divisor active;
            named =
                names-assign_capped sum max_continuum_points (normalize divisor active)
                ∙ names-normalize divisor active;
            positive = placed;
            bound = omega (arith, total);
            shape = inr total;
          })
  ]
