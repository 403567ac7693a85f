-- ===== src/Upstream/Weights/Limit.antt =====
-- The bounded apportionment as a whole.
use g_gateway.Base.{
  ℕ, ◌-◌, ◌<◌, ◌≤◌, ◌≡◌, subst, List, [], ◌∷◌, map, All, arith, length, length-take, length-map,
  All-take, take, u32_mod,
}
use g_gateway.Base.Order.{sort_by, length-sort_by, All-sort_by}
use g_gateway.Upstream.Weights.{Slot, quota, Placed, place_from, before, left_over, assign_capped}
use g_gateway.Upstream.Weights.Apportion.{
  weights, places, extras, allocated_from-extras, extras-lt, extra-le-extras, places-quota, Roomy,
  quota-Roomy, places-increment_all, place_from-positions, length-place_from,
}

Roomy-assigned : (ss : List Slot) → Roomy 0 ss → All (λ s. 1 ≤ s.assigned) ss
Roomy-assigned [] h = tt
Roomy-assigned (s ∷ ss) h = (h.0.0, Roomy-assigned ss h.1)

-- The slots that take what is left over, in the source's order.
takers : ℕ → List Slot → List Placed
takers k filled = take k (sort_by before (place_from 0 filled))

length-takers : (k : ℕ) (filled : List Slot) → k ≤ length filled → length (takers k filled) ≡ k
unfolding takers
length-takers k filled h =
    length-take k (sort_by before (place_from 0 filled))
      (omega (arith, length-sort_by before (place_from 0 filled), length-place_from 0 filled))

takers-positions :
    (k : ℕ) (filled : List Slot) → All (λ p. p.position < length filled) (takers k filled)
unfolding takers
takers-positions k filled =
    All-take (λ p. p.position < length filled) k (sort_by before (place_from 0 filled))
      (All-sort_by before (λ p. p.position < length filled) (place_from 0 filled)
        (subst (λ m. All (λ p. p.position < m) (place_from 0 filled)) (omega arith)
          (place_from-positions 0 filled)))

module _ (n limit : ℕ) (ss : List Slot) (positive : 0 < n) (small : limit ≤ 65536)
    (some_slot : 0 < length ss) (enough : length ss ≤ limit)
    (words : All (λ s. s.weight < u32_mod) ss) (total : weights ss ≡ n) where
  leftover :
      (extras n (limit - length ss) ss ≤ limit - length ss)
      × (left_over n limit ss ≡ limit - length ss - extras n (limit - length ss) ss)
      × (left_over n limit ss < length ss)
  unfolding left_over
  leftover =
      let r = limit - length ss in
      let (a, b) = extras-lt n r positive (omega arith) ss words total some_slot in
      let c = allocated_from-extras n r (length ss) ss in
      (a, omega (arith, c), omega (arith, a, b, c))

  shared : (places (assign_capped n limit ss) ≡ limit) × Roomy 0 (assign_capped n limit ss)
  unfolding assign_capped takers
  shared =
      let r = limit - length ss in
      let k = left_over n limit ss in
      let filled = map (quota n r) ss in
      let (a, b, c) = leftover in
      let small_extras = extra-le-extras n r 65536 ss (omega (arith, a)) in
      let same = length-map (quota n r) ss in
      let taken = length-takers k filled (omega (arith, same, c)) in
      let (d, e) =
        places-increment_all (takers k filled) filled
          (quota-Roomy n r (length (takers k filled)) ss (omega (arith, taken, c)) small_extras)
          (takers-positions k filled) in
      (omega (arith, d, taken, places-quota n r ss small_extras, a, b), e)

-- For weights in 32-bit words that add up to the divisor, and a limit that has a place for each
-- slot and is at most 65,536: what is left over after the first round is less than the number of
-- slots, so the code slices `order` in bounds; the places given out are exactly the limit; and
-- every slot has at least one.
pub places-assign_capped :
    (n limit : ℕ) (ss : List Slot)
    → 0 < n
    → limit ≤ 65536
    → 0 < length ss
    → length ss ≤ limit
    → All (λ s. s.weight < u32_mod) ss
    → weights ss ≡ n
    → (left_over n limit ss < length ss)
      × (places (assign_capped n limit ss) ≡ limit)
      × All (λ s. 1 ≤ s.assigned) (assign_capped n limit ss)
places-assign_capped n limit ss p l s e w t =
    let (a, b) = shared n limit ss p l s e w t in
    ((leftover n limit ss p l s e w t).2, a, Roomy-assigned (assign_capped n limit ss) b)
