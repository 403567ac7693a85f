-- ===== src/Upstream/Weights/Apportion.antt =====
-- The bounded apportionment gives out exactly `limit` places, at least one to each slot.
use native.Mathlib.Nat.{
  div-add-mod', mod-eq_of_lt, mod-lt, mul-le-mul, le_of_mul-le-mul_right, lt_of_mul-lt-mul_right,
}
use g_gateway.Base.{
  ℕ, zero, suc, ◌+◌, ◌*◌, ◌%◌, ◌<◌, ◌≤◌, ◌≡◌, refl, ap, subst, List, [], ◌∷◌, map, All, arith,
  length, u32_mod, u64_mod,
}
use g_gateway.Upstream.Weights.{
  Slot, extra, quota, allocated_from, Placed, place_from, increment_at, increment_all,
}

-- The weights and the places of a list of slots, added up.
abbrev pub weights : List Slot → ℕ
weights [] = 0
weights (s ∷ ss) = s.weight + weights ss

abbrev pub places : List Slot → ℕ
places [] = 0
places (s ∷ ss) = s.assigned + places ss

abbrev pub extras : ℕ → ℕ → List Slot → ℕ
extras n r [] = 0
extras n r (s ∷ ss) = extra n r s + extras n r ss

pub allocated_from-extras :
    (n r acc : ℕ) (ss : List Slot) → allocated_from n r acc ss ≡ acc + extras n r ss
unfolding allocated_from
allocated_from-extras n r acc [] = omega arith
allocated_from-extras n r acc (s ∷ ss) =
    omega (arith, allocated_from-extras n r (acc + extra n r s) ss)

lt→le : (w : ℕ) → w < u32_mod → w ≤ u32_mod
lt→le w h = omega arith

-- The shares of the weights never come to more than what is shared, and fall short by less than
-- one for each slot.
module _ (n r : ℕ) (positive : 0 < n) (small : r ≤ 65536) where
  product_fits : (w : ℕ) → w < u32_mod → w * r % u64_mod ≡ w * r
  product_fits w h =
      let capped = mul-le-mul (lt→le w h) small in mod-eq_of_lt (omega (arith, capped))

  extra_bounds :
      (s : Slot)
      → s.weight < u32_mod
      → (extra n r s * n ≤ s.weight * r) × (s.weight * r < extra n r s * n + n)
  unfolding extra
  extra_bounds s h =
      let split = div-add-mod' (s.weight * r) n in
      let rest = mod-lt (s.weight * r) positive in
      rw (product_fits s.weight h) (omega (arith, split), omega (arith, split, rest))

  extras_bounds :
      (ss : List Slot)
      → All (λ s. s.weight < u32_mod) ss
      → (extras n r ss * n ≤ weights ss * r)
        × (weights ss * r + length ss ≤ extras n r ss * n + length ss * n)
  extras_bounds [] h = omega arith
  extras_bounds (s ∷ ss) h =
      let (a, b) = extra_bounds s h.0 in
      let (c, d) = extras_bounds ss h.1 in (omega (arith, a, c), omega (arith, b, d))

  -- Where the weights add up to the divisor `n`, what is left over is less than one for each slot.
  pub extras-lt :
      (ss : List Slot)
      → All (λ s. s.weight < u32_mod) ss
      → weights ss ≡ n
      → 0 < length ss
      → (extras n r ss ≤ r) × (r < extras n r ss + length ss)
  extras-lt ss h e p =
      let (a, b) = extras_bounds ss h in
      let same = ap (λ (t : ℕ). t * r) e in
      (
        le_of_mul-le-mul_right {k = n} (omega (arith, a, same)) positive,
        lt_of_mul-lt-mul_right n (omega (arith, b, same)),
      )

quota_assigned :
    (n r : ℕ) (s : Slot) → extra n r s ≤ 65536 → (quota n r s).assigned ≡ 1 + extra n r s
unfolding quota
quota_assigned n r s h = omega arith

pub extra-le-extras :
    (n r b : ℕ) (ss : List Slot) → extras n r ss ≤ b → All (λ s. extra n r s ≤ b) ss
extra-le-extras n r b [] h = tt
extra-le-extras n r b (s ∷ ss) h = (omega arith, extra-le-extras n r b ss (omega arith))

-- The first round gives each slot one place and its share.
pub places-quota :
    (n r : ℕ) (ss : List Slot)
    → All (λ s. extra n r s ≤ 65536) ss
    → places (map (quota n r) ss) ≡ length ss + extras n r ss
places-quota n r [] h = refl
places-quota n r (s ∷ ss) h = omega (arith, quota_assigned n r s h.0, places-quota n r ss h.1)

-- Every slot has a place and is `room` places below the end of its word.
abbrev pub Roomy : ℕ → List Slot → Type 0
Roomy room = All (λ s. (1 ≤ s.assigned) × (s.assigned + room < u32_mod))

pub quota-Roomy :
    (n r room : ℕ) (ss : List Slot)
    → room ≤ 65536
    → All (λ s. extra n r s ≤ 65536) ss
    → Roomy room (map (quota n r) ss)
quota-Roomy n r room [] b h = tt
quota-Roomy n r room (s ∷ ss) b h =
    let a = quota_assigned n r s h.0 in
    ((omega (arith, a), omega (arith, a)), quota-Roomy n r room ss b h.1)

Roomy-mono : (room : ℕ) (ss : List Slot) → Roomy (suc room) ss → Roomy room ss
Roomy-mono room [] h = tt
Roomy-mono room (s ∷ ss) h = ((h.0.0, omega arith), Roomy-mono room ss h.1)

increment_at-Roomy :
    (i room : ℕ) (ss : List Slot) → Roomy (suc room) ss → Roomy room (increment_at i ss)
unfolding increment_at
increment_at-Roomy i room [] h = tt
increment_at-Roomy zero room (s ∷ ss) h = ((omega arith, omega arith), Roomy-mono room ss h.1)
increment_at-Roomy (suc i) room (s ∷ ss) h =
    ((h.0.0, omega arith), increment_at-Roomy i room ss h.1)

places-increment_at :
    (i room : ℕ) (ss : List Slot)
    → Roomy (suc room) ss
    → i < length ss
    → places (increment_at i ss) ≡ places ss + 1
unfolding increment_at
places-increment_at i room [] h lt = absurd (omega arith)
places-increment_at zero room (s ∷ ss) h lt = omega arith
places-increment_at (suc i) room (s ∷ ss) h lt =
    omega (arith, places-increment_at i room ss h.1 (omega arith))

pub length-increment_at : (i : ℕ) (ss : List Slot) → length (increment_at i ss) ≡ length ss
unfolding increment_at
length-increment_at i [] = refl
length-increment_at zero (s ∷ ss) = refl
length-increment_at (suc i) (s ∷ ss) = ap suc (length-increment_at i ss)

-- Each of the increments lands in the slice and adds one place.
pub places-increment_all :
    (ps : List Placed) (ss : List Slot)
    → Roomy (length ps) ss
    → All (λ p. p.position < length ss) ps
    → (places (increment_all ps ss) ≡ places ss + length ps) × Roomy 0 (increment_all ps ss)
unfolding increment_all
places-increment_all [] ss r h = (omega arith, r)
places-increment_all (p ∷ ps) ss r h =
    let next = increment_at-Roomy p.position (length ps) ss r in
    let (a, b) =
      places-increment_all ps (increment_at p.position ss) next
        (rw (length-increment_at p.position ss) h.1) in
    (omega (arith, a, places-increment_at p.position (length ps) ss r h.0), b)

pub place_from-positions :
    (i : ℕ) (ss : List Slot) → All (λ p. p.position < i + length ss) (place_from i ss)
unfolding place_from
place_from-positions i [] = tt
place_from-positions i (s ∷ ss) = (
  omega arith,
  subst (λ k. All (λ p. p.position < k) (place_from (i + 1) ss)) (omega arith)
      (place_from-positions (i + 1) ss),
)

pub length-place_from : (i : ℕ) (ss : List Slot) → length (place_from i ss) ≡ length ss
unfolding place_from
length-place_from i [] = refl
length-place_from i (s ∷ ss) = ap suc (length-place_from (i + 1) ss)
