-- ===== src/Upstream/Weights/Terms.antt =====
-- The active slots of a list of endpoints, their weights in lowest terms, and their indexes.
use native.Mathlib.Nat.{mul-div_cancel}
use native.Mathlib.Decide.{dec_le}
use g_gateway.Base.{
  ℕ, zero, suc, ◌+◌, ◌-◌, ◌*◌, ◌/◌, ◌%◌, ◌<◌, ◌≤◌, ◌≡◌, refl, sym, ◌∙◌, ap, List, [], ◌∷◌, map, All,
  arith, length, take, ◌==◌, if◌then◌else◌, u32_mod, u64_mod, Bytes,
}
use g_gateway.Base.Order.{sort_by}
use g_gateway.Upstream.Weights.{
  WeightedEndpoint, Slot, active_slots, normalize, sum_from, quota, Placed, place_from, before,
  increment_at, increment_all, left_over, assign_capped,
}
use g_gateway.Upstream.Weights.Apportion.{weights}
use g_gateway.Upstream.Weights.Gcd.{Divides}

abbrev pub indexes : List Slot → List ℕ
indexes = map (λ (s : Slot). s.index)

indexes-quota : (n r : ℕ) (ss : List Slot) → indexes (map (quota n r) ss) ≡ indexes ss
unfolding quota
indexes-quota n r [] = refl
indexes-quota n r (s ∷ ss) = ap (◌∷◌ s.index) (indexes-quota n r ss)

indexes-increment_at : (i : ℕ) (ss : List Slot) → indexes (increment_at i ss) ≡ indexes ss
unfolding increment_at
indexes-increment_at i [] = refl
indexes-increment_at zero (s ∷ ss) = refl
indexes-increment_at (suc i) (s ∷ ss) = ap (◌∷◌ s.index) (indexes-increment_at i ss)

indexes-increment_all :
    (ps : List Placed) (ss : List Slot) → indexes (increment_all ps ss) ≡ indexes ss
unfolding increment_all
indexes-increment_all [] ss = refl
indexes-increment_all (p ∷ ps) ss =
    indexes-increment_all ps (increment_at p.position ss) ∙ indexes-increment_at p.position ss

-- The apportionment keeps each slot in its place.
pub indexes-assign_capped :
    (n limit : ℕ) (ss : List Slot) → indexes (assign_capped n limit ss) ≡ indexes ss
unfolding assign_capped
indexes-assign_capped n limit ss =
    indexes-increment_all
      (take (left_over n limit ss)
        (sort_by before (place_from 0 (map (quota n (limit - length ss)) ss))))
      (map (quota n (limit - length ss)) ss)
    ∙ indexes-quota n (limit - length ss) ss

pub indexes-normalize : (d : ℕ) (ss : List Slot) → indexes (normalize d ss) ≡ indexes ss
unfolding normalize
indexes-normalize d [] = refl
indexes-normalize d (s ∷ ss) = ap (◌∷◌ s.index) (indexes-normalize d ss)

-- Each slot keeps its endpoint: the index with the identity.
abbrev pub names : List Slot → List (ℕ × Bytes)
names = map (λ (s : Slot). (s.index, s.identity))

names-quota : (n r : ℕ) (ss : List Slot) → names (map (quota n r) ss) ≡ names ss
unfolding quota
names-quota n r [] = refl
names-quota n r (s ∷ ss) = ap (◌∷◌ (s.index, s.identity)) (names-quota n r ss)

names-increment_at : (i : ℕ) (ss : List Slot) → names (increment_at i ss) ≡ names ss
unfolding increment_at
names-increment_at i [] = refl
names-increment_at zero (s ∷ ss) = refl
names-increment_at (suc i) (s ∷ ss) = ap (◌∷◌ (s.index, s.identity)) (names-increment_at i ss)

names-increment_all : (ps : List Placed) (ss : List Slot) → names (increment_all ps ss) ≡ names ss
unfolding increment_all
names-increment_all [] ss = refl
names-increment_all (p ∷ ps) ss =
    names-increment_all ps (increment_at p.position ss) ∙ names-increment_at p.position ss

pub names-assign_capped :
    (n limit : ℕ) (ss : List Slot) → names (assign_capped n limit ss) ≡ names ss
unfolding assign_capped
names-assign_capped n limit ss =
    names-increment_all
      (take (left_over n limit ss)
        (sort_by before (place_from 0 (map (quota n (limit - length ss)) ss))))
      (map (quota n (limit - length ss)) ss)
    ∙ names-quota n (limit - length ss) ss

pub names-normalize : (d : ℕ) (ss : List Slot) → names (normalize d ss) ≡ names ss
unfolding normalize
names-normalize d [] = refl
names-normalize d (s ∷ ss) = ap (◌∷◌ (s.index, s.identity)) (names-normalize d ss)

-- Weights that are numbers of 32 bits, and not zero.
abbrev pub Weighty : List Slot → Type 0
Weighty = All (λ s. (0 < s.weight) × (s.weight < u32_mod))

pub active_slots-Weighty :
    (k : ℕ) (es : List WeightedEndpoint)
    → All (λ e. e.weight < u32_mod) es
    → Weighty (active_slots k es)
unfolding active_slots
active_slots-Weighty k [] h = tt
active_slots-Weighty k (e ∷ es) h = ground (arith, active_slots-Weighty (k + 1) es h.1)

pub quotient_pos :
    (d n : ℕ) → 0 < d → 0 < n → Divides d n → (n / d * d ≡ n) × (0 < n / d) × (n / d ≤ n)
quotient_pos d n p q (zero, e) = absurd (omega arith)
quotient_pos d n p q (suc k, e) =
    let cancelled : n / d ≡ suc k = ap (λ t. t / d) e ∙ mul-div_cancel (suc k) p in
    rw cancelled (sym e, omega arith, rw e (grind arith))

-- In lowest terms the weights stay positive, and multiply back to what they were.
pub normalize-Weighty :
    (d : ℕ) (ss : List Slot)
    → 0 < d
    → Weighty ss
    → All (λ s. Divides d s.weight) ss
    → Weighty (normalize d ss)
unfolding normalize
normalize-Weighty d [] p h v = tt
normalize-Weighty d (s ∷ ss) p h v =
    let (_, b, c) = quotient_pos d s.weight p h.0.0 v.0 in
    ((b, omega (arith, c)), normalize-Weighty d ss p h.1 v.1)

pub weights-bound : (ss : List Slot) → Weighty ss → weights ss ≤ length ss * u32_mod
weights-bound [] h = omega arith
weights-bound (s ∷ ss) h = omega (arith, weights-bound ss h.1)

pub length-le-weights : (ss : List Slot) → Weighty ss → length ss ≤ weights ss
length-le-weights [] h = omega arith
length-le-weights (s ∷ ss) h = omega (arith, length-le-weights ss h.1)

-- The sum does not wrap where the weights fit.
pub sum_from-weights :
    (acc : ℕ) (ss : List Slot) → acc + weights ss < u64_mod → sum_from acc ss ≡ acc + weights ss
unfolding sum_from
sum_from-weights acc [] h = omega arith
sum_from-weights acc (s ∷ ss) h =
    let plain : (acc + s.weight) % u64_mod ≡ acc + s.weight = omega arith in
    rw plain (sum_from-weights (acc + s.weight) ss (omega arith) ∙ omega arith)

-- What the slots of index `i` come to, by a measure.
abbrev pub sum_at : (Slot → ℕ) → ℕ → List Slot → ℕ
sum_at f i [] = 0
sum_at f i (s ∷ ss) = (if s.index == i then f s else 0) + sum_at f i ss

-- The weight of the endpoint at a position, 0 where there is none.
abbrev pub weight_at : List WeightedEndpoint → ℕ → ℕ
weight_at [] i = 0
weight_at (e ∷ es) zero = e.weight
weight_at (e ∷ es) (suc i) = weight_at es i

-- Each slot stands for the endpoint at its index, and for no other.
sum_at-below :
    (f : Slot → ℕ) (k i : ℕ) (es : List WeightedEndpoint)
    → k + length es ≤ u32_mod
    → i < k
    → sum_at f i (active_slots k es) ≡ 0
unfolding active_slots
sum_at-below f k i [] b lt = refl
sum_at-below f k i (e ∷ es) b lt = ground (arith, sum_at-below f (k + 1) i es)

pub sum_at-weight :
    (k i : ℕ) (es : List WeightedEndpoint)
    → k + length es ≤ u32_mod
    → k ≤ i
    → sum_at (λ s. s.weight) i (active_slots k es) ≡ weight_at es (i - k)
unfolding active_slots
sum_at-weight k i [] b le = refl
sum_at-weight k i (e ∷ es) b le = elim (dec_le i k) [
  | yes here ↦
      let first : i - k ≡ zero = omega arith in
      rw first (ground (arith, sum_at-below (λ s. s.weight) (k + 1) i es))
  | no later ↦
      let next : i - k ≡ suc (i - (k + 1)) = omega arith in
      rw next (ground (arith, sum_at-weight (k + 1) i es))
]

-- An endpoint of weight zero has no slot.
pub sum_at_none :
    (f : Slot → ℕ) (k i : ℕ) (es : List WeightedEndpoint)
    → k + length es ≤ u32_mod
    → k ≤ i
    → weight_at es (i - k) ≡ 0
    → sum_at f i (active_slots k es) ≡ 0
unfolding active_slots
sum_at_none f k i [] b le z = refl
sum_at_none f k i (e ∷ es) b le z = elim (dec_le i k) [
  | yes here ↦
      let first : i - k ≡ zero = omega arith in
      let light : e.weight ≡ 0 = ap (weight_at (e ∷ es)) (sym first) ∙ z in
      ground (arith, sum_at-below f (k + 1) i es)
  | no later ↦
      let next : i - k ≡ suc (i - (k + 1)) = omega arith in
      let rest : weight_at es (i - (k + 1)) ≡ 0 = ap (weight_at (e ∷ es)) (sym next) ∙ z in
      ground (arith, sum_at_none f (k + 1) i es (omega arith) (omega arith) rest)
]
