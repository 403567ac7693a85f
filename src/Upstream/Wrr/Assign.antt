-- ===== src/Upstream/Wrr/Assign.antt =====
-- The places of the active slots: in lowest terms, or apportioned within the schedule's limit.
use g_gateway.Base.{
  ℕ, ◌*◌, ◌<◌, ◌≤◌, ◌≡◌, refl, ◌∙◌, ap, ◌⊎◌, inl, inr, true, false, List, [], ◌∷◌, map, All, arith,
  Bool-cases, leb→le, length, leb, ◌==◌,
}
use g_gateway.Upstream.Weights.{Slot, normalize, sum_from, divisor_from}
use g_gateway.Upstream.Weights.Gcd.{Divides}
use g_gateway.Upstream.Weights.Apportion.{weights, places}
use g_gateway.Upstream.Weights.Capped.{divides, divisor_pos, lowest, lowest_sum, capped}
use g_gateway.Upstream.Weights.Terms.{
  indexes, indexes-assign_capped, indexes-normalize, Weighty, sum_at, quotient_pos,
}
use g_gateway.Upstream.Wrr.{assign, max_wrr_schedule}

-- The slots of a schedule that is not capped.
exact : List Slot → List Slot
exact = map (λ (s : Slot). record s { assigned = s.weight })

exact_facts :
    (ss : List Slot)
    → Weighty ss
    → (indexes (exact ss) ≡ indexes ss)
      × (places (exact ss) ≡ weights ss)
      × All (λ s. 1 ≤ s.assigned) (exact ss)
unfolding exact
exact_facts [] h = (refl, refl, tt)
exact_facts (s ∷ ss) h =
    let (a, b, c) = exact_facts ss h.1 in (ap (◌∷◌ s.index) a, omega (arith, b), (h.0.0, c))

sum_at-exact :
    (d i : ℕ) (ss : List Slot)
    → 0 < d
    → Weighty ss
    → All (λ s. Divides d s.weight) ss
    → sum_at (λ s. s.assigned) i (exact (normalize d ss)) * d ≡ sum_at (λ s. s.weight) i ss
unfolding exact normalize
sum_at-exact d i [] p h v = omega arith
sum_at-exact d i (s ∷ ss) p h v =
    let (back, _, _) = quotient_pos d s.weight p h.0.0 v.0 in
    let rest = sum_at-exact d i ss p h.1 v.1 in
    elim (Bool-cases (s.index == i)) [
      | inl e ↦ rw e (omega (arith, back, rest))
      | inr e ↦ rw e (omega (arith, rest))
    ]

-- What the places are good for, for `ss` made from the active slots `active`.
pub record Assigned (active ss : List Slot) : Type 0 where
  pub same : indexes ss ≡ indexes active
  pub positive : All (λ s. 1 ≤ s.assigned) ss
  pub bound : places ss ≤ max_wrr_schedule
  pub shape :
      ((d : ℕ) × (0 < d)
        × ((i : ℕ) → sum_at (λ s. s.assigned) i ss * d ≡ sum_at (λ s. s.weight) i active))
      ⊎ (places ss ≡ max_wrr_schedule)

module _ (first : Slot) (rest : List Slot) (weighty : Weighty (first ∷ rest))
    (few : length (first ∷ rest) ≤ max_wrr_schedule) where
  room : length (first ∷ rest) ≤ 65536
  room = omega (arith, few)

  abbrev active : List Slot
  active = first ∷ rest

  abbrev divisor : ℕ
  divisor = divisor_from first.weight rest

  assign-exact :
      leb (sum_from 0 (normalize divisor active)) max_wrr_schedule ≡ true
      → Assigned active (assign first rest)
  unfolding assign exact
  assign-exact e =
      let (a, b, c) = exact_facts (normalize divisor active) (lowest first rest weighty room) in
      rw (e, assign)
        (record {
          same = a ∙ indexes-normalize divisor active;
          positive = c;
          bound = omega (
            arith,
            b,
            lowest_sum first rest weighty room,
            leb→le (sum_from 0 (normalize divisor active)) max_wrr_schedule e,
          );
          shape = inl (
            divisor,
            divisor_pos first rest weighty room,
            λ i.
                sum_at-exact divisor i active (divisor_pos first rest weighty room) weighty
                  (divides first rest weighty room),
          );
        })

  assign-capped :
      leb (sum_from 0 (normalize divisor active)) max_wrr_schedule ≡ false
      → Assigned active (assign first rest)
  unfolding assign
  assign-capped e =
      let (total, placed) = capped first rest weighty room max_wrr_schedule (omega arith) few in
      rw (e, assign)
        (record {
          same =
              indexes-assign_capped (sum_from 0 (normalize divisor active)) max_wrr_schedule
                (normalize divisor active)
              ∙ indexes-normalize divisor active;
          positive = placed;
          bound = omega (arith, total);
          shape = inr total;
        })

-- Either way every active slot has a place, there are at most as many places as the schedule may
-- have, and they are the weights divided by one number or fill the whole schedule.
pub assign-Assigned :
    (first : Slot) (rest : List Slot)
    → Weighty (first ∷ rest)
    → length (first ∷ rest) ≤ max_wrr_schedule
    → Assigned (first ∷ rest) (assign first rest)
assign-Assigned first rest w few =
    elim (Bool-cases (
      leb (sum_from 0 (normalize (divisor_from first.weight rest) (first ∷ rest)))
        max_wrr_schedule)) [
          | inl e ↦ assign-exact first rest w few e
          | inr e ↦ assign-capped first rest w few e
        ]
