-- ===== src/Upstream/Wrr.antt =====
-- internal/upstream/wrr.go. The selector's sequence is shared by every selector that is compiled with
-- the same selection state, so it stands beside the selector: a selection takes it and returns it.
-- `container/heap` is used by its contract: `pop_min` takes out the least slot, and since Less ends
-- with the slot's index there is only one. The compiler's loop takes fuel.
pub mod Schedule
pub mod Assign
pub mod Compile
pub mod Selection
pub mod Turns
mod Tests
use g_gateway.Base.{
  ℕ, zero, suc, ◌+◌, ◌-◌, ◌*◌, ◌%◌, Bool, true, false, not, ◌&&◌, Option, none, some, List, [], ◌∷◌,
  ◌++◌, map, ltb, leb, ◌==◌, if◌then◌else◌, bytes_eq, bytes_lt, length, get_or, u32_mod, u64_mod,
}
use g_gateway.Upstream.Weights.{
  WeightedEndpoint, Slot, active_slots, divisor_from, normalize, sum_from, assign_capped,
}

abbrev pub max_wrr_schedule : ℕ
max_wrr_schedule = 8192

-- wrrSlot: the slot with the number of its places that are in the schedule.
pub record WrrSlot : Type 0 where
  pub slot : Slot
  pub emitted : ℕ

pub record WrrSelector : Type 0 where
  pub schedule : List ℕ
  pub direct : ℕ

pub data CompileError : Type 0 where
  state_required no_positive_weight too_many_active : CompileError

pub data Compiled : Type 0 where
  ok : WrrSelector → Compiled
  err : CompileError → Compiled

-- Less of wrrDeadlineHeap.
unfoldable pub less : WrrSlot → WrrSlot → Bool
less i j =
    let left = (i.emitted + 1) % u32_mod * j.slot.assigned % u64_mod in
    let right = (j.emitted + 1) % u32_mod * i.slot.assigned % u64_mod in
    if not (left == right)
    then ltb left right
    else if not (bytes_eq i.slot.identity j.slot.identity)
    then bytes_lt i.slot.identity j.slot.identity
    else ltb i.slot.index j.slot.index

-- heap.Pop on a heap that holds `x` and `xs`: the least slot and the others.
unfoldable pub pop_min : WrrSlot → List WrrSlot → WrrSlot × List WrrSlot
pop_min x [] = (x, [])
pop_min x (y ∷ ys) =
    let (m, rest) = pop_min y ys in if less m x then (m, x ∷ rest) else (x, m ∷ rest)

-- One round of the loop after the pop: what is pushed back.
unfoldable pub push_again : WrrSlot → List WrrSlot → List WrrSlot
push_again s rest =
    let emitted = (s.emitted + 1) % u32_mod in
    if ltb emitted s.slot.assigned then record s { emitted = emitted } ∷ rest else rest

-- The loop that fills the schedule. `none` is out of fuel.
unfoldable pub drain : ℕ → List WrrSlot → List ℕ → Option (List ℕ)
unfolding pop_min push_again less
drain fuel [] schedule = some schedule
drain zero (x ∷ xs) schedule = none
drain (suc fuel) (x ∷ xs) schedule =
    let (s, rest) = pop_min x xs in drain fuel (push_again s rest) (schedule ++ s.slot.index ∷ [])

abbrev pub pending : List Slot → List WrrSlot
pending = map (λ (s : Slot). record { slot = s; emitted = 0 })

-- The slots with their places in a schedule of at most `max_wrr_schedule`, for at least two active
-- slots.
unfoldable pub assign : Slot → List Slot → List Slot
assign first rest =
    let active = normalize (divisor_from first.weight rest) (first ∷ rest) in
    let normalized_sum = sum_from 0 active in
    if leb normalized_sum max_wrr_schedule
    then map (λ (s : Slot). record s { assigned = s.weight }) active
    else assign_capped normalized_sum max_wrr_schedule active

-- The loop makes one round for each place, and there are at most `max_wrr_schedule`.
abbrev pub wrr_fuel : ℕ
wrr_fuel = 8192

unfoldable pub compile_active : List Slot → Option Compiled
compile_active [] = some (err no_positive_weight)
compile_active (first ∷ []) = some (ok (record { schedule = []; direct = first.index }))
compile_active (first ∷ second ∷ rest) =
    if ltb max_wrr_schedule (length (first ∷ second ∷ rest))
    then some (err too_many_active)
    else (elim (drain wrr_fuel (pending (assign first (second ∷ rest))) []) [
      | none ↦ none
      | some schedule ↦ some (ok (record { schedule = schedule; direct = 0 }))
    ])

-- `state` tells whether the state's pointer is set.
unfoldable pub compile_wrr : List WeightedEndpoint → Bool → Option Compiled
unfolding compile_active
compile_wrr endpoints state =
    if state then compile_active (active_slots 0 endpoints) else some (err state_required)

-- `sequence.Add(1) - 1`: the ticket, and the sequence after it.
unfoldable pub next_ticket : ℕ → ℕ × ℕ
next_ticket sequence =
    let added = (sequence + 1) % u64_mod in ((added + (u64_mod - 1)) % u64_mod, added)

-- The result and the sequence after the call.
pub select_index : WrrSelector → ℕ → ℕ × ℕ
select_index s sequence = elim s.schedule [
  | [] ↦ (s.direct, sequence)
  | _ ∷ _ ↦
      let (ticket, after) = next_ticket sequence in
      (get_or s.schedule (ticket % length s.schedule) 0, after)
]

-- The loop of selectNext from `offset`, with `rounds` left.
unfoldable pub scan : List ℕ → (ℕ → Bool) → ℕ → ℕ → ℕ → ℕ × Bool
scan schedule selectable start offset zero = (0, false)
scan schedule selectable start offset (suc rounds) =
    let ordinal = get_or schedule ((start + offset) % u64_mod % length schedule) 0 in
    let rest = scan schedule selectable start (offset + 1) rounds in
    if selectable ordinal then (ordinal, true) else rest

unfoldable pub select_next : WrrSelector → ℕ → (ℕ → Bool) → (ℕ × Bool) × ℕ
select_next s sequence selectable = elim s.schedule [
  | [] ↦ ((s.direct, selectable s.direct), sequence)
  | _ ∷ _ ↦
      let (ticket, after) = next_ticket sequence in
      (scan s.schedule selectable ticket 0 (length s.schedule), after)
]
