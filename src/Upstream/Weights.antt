-- ===== src/Upstream/Weights.antt =====
-- What internal/upstream/wrr.go and chash.go share: the endpoints of positive weight, the weights
-- in lowest terms, and the bounded apportionment (assignCappedWRRSlots in wrr.go and
-- assignCappedContinuumPoints in chash.go are the same code over records with the fields of `Slot`).
-- `sort.Slice` is insertion sort: the order ends with the slot's index, so it is total.
pub mod Gcd
pub mod Apportion
pub mod Limit
pub mod Terms
pub mod Capped
mod Tests
use mathlib.Core.WellFounded.{Acc}
use native.Mathlib.Decide.{dec_lt}
use mathlib.Core.Logic.{dite}
use g_gateway.Base.{
  ℕ, zero, suc, ◌+◌, ◌-◌, ◌*◌, ◌/◌, ◌%◌, ◌<◌, Bool, true, false, not, ◌&&◌, ◌||◌, List, [], ◌∷◌,
  map, ltb, ◌==◌, if◌then◌else◌, arith, Bytes, bytes_eq, bytes_lt, length, take, u32_mod, u64_mod,
}
use g_gateway.Base.Order.{lt_wf, sort_by}

pub record WeightedEndpoint : Type 0 where
  pub identity : Bytes
  pub weight : ℕ

-- wrrSlot without `emitted`, and continuumEndpoint.
pub record Slot : Type 0 where
  pub index : ℕ
  pub identity : Bytes
  pub weight : ℕ
  pub assigned : ℕ
  pub remainder : ℕ

-- The first loop of both compilers, from the endpoint at position `index`.
unfoldable pub active_slots : ℕ → List WeightedEndpoint → List Slot
active_slots index [] = []
active_slots index (e ∷ es) =
    let rest = active_slots (index + 1) es in
    if e.weight == 0
    then rest
    else record {
      index = index % u32_mod;
      identity = e.identity;
      weight = e.weight;
      assigned = 0;
      remainder = 0;
    }
      ∷ rest

gcd_acc : (left right : ℕ) → Acc ◌<◌ right → ℕ
gcd_acc left right (Acc.intro _ smaller) =
    dite (dec_lt 0 right) (λ h. gcd_acc right (left % right) (smaller (left % right) (omega arith)))
      (λ _. left)

unfoldable pub greatest_common_divisor : ℕ → ℕ → ℕ
unfolding gcd_acc lt_wf dec_lt
greatest_common_divisor left right = gcd_acc left right (lt_wf.apply right)

-- The loop over the active slots after the first.
unfoldable pub divisor_from : ℕ → List Slot → ℕ
unfolding greatest_common_divisor
divisor_from divisor [] = divisor
divisor_from divisor (s ∷ ss) = divisor_from (greatest_common_divisor divisor s.weight) ss

unfoldable pub normalize : ℕ → List Slot → List Slot
normalize divisor = map (λ (s : Slot). record s { weight = s.weight / divisor })

-- `normalizedSum`, with the wrap of uint64.
unfoldable pub sum_from : ℕ → List Slot → ℕ
sum_from acc [] = acc
sum_from acc (s ∷ ss) = sum_from ((acc + s.weight) % u64_mod) ss

-- One round of the first loop of assignCapped…: `extra` is what is added to `allocated`.
pub extra : ℕ → ℕ → Slot → ℕ
extra normalized_sum remaining s = s.weight * remaining % u64_mod / normalized_sum

unfoldable pub quota : ℕ → ℕ → Slot → Slot
unfolding extra
quota normalized_sum remaining s = record s {
  assigned = (1 + extra normalized_sum remaining s % u32_mod) % u32_mod;
  remainder = s.weight * remaining % u64_mod % normalized_sum;
}

pub allocated_from : ℕ → ℕ → ℕ → List Slot → ℕ
unfolding extra
allocated_from normalized_sum remaining allocated [] = allocated
allocated_from normalized_sum remaining allocated (s ∷ ss) =
    allocated_from normalized_sum remaining (allocated + extra normalized_sum remaining s) ss

-- The order of the slots that take what is left over: a slot with its position in the slice.
pub record Placed : Type 0 where
  pub position : ℕ
  pub slot : Slot

pub place_from : ℕ → List Slot → List Placed
place_from position [] = []
place_from position (s ∷ ss) =
    record { position = position; slot = s } ∷ place_from (position + 1) ss

pub before : Placed → Placed → Bool
before left right =
    if not (left.slot.remainder == right.slot.remainder)
    then ltb right.slot.remainder left.slot.remainder
    else if not (bytes_eq left.slot.identity right.slot.identity)
    then bytes_lt left.slot.identity right.slot.identity
    else ltb left.slot.index right.slot.index

-- `slots[index].assigned++`.
pub increment_at : ℕ → List Slot → List Slot
increment_at n [] = []
increment_at zero (s ∷ ss) = record s { assigned = (s.assigned + 1) % u32_mod } ∷ ss
increment_at (suc n) (s ∷ ss) = s ∷ increment_at n ss

pub increment_all : List Placed → List Slot → List Slot
unfolding increment_at
increment_all [] slots = slots
increment_all (p ∷ ps) slots = increment_all ps (increment_at p.position slots)

-- What the code slices off `order`: `order[:limit-allocated]`.
unfoldable pub left_over : ℕ → ℕ → List Slot → ℕ
unfolding allocated_from
left_over normalized_sum limit slots =
    limit - allocated_from normalized_sum (limit - length slots) (length slots) slots

unfoldable pub assign_capped : ℕ → ℕ → List Slot → List Slot
assign_capped normalized_sum limit slots =
    let filled = map (quota normalized_sum (limit - length slots)) slots in
    increment_all
      (take (left_over normalized_sum limit slots) (sort_by before (place_from 0 filled))) filled
