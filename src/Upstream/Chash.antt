-- ===== src/Upstream/Chash.antt =====
-- internal/upstream/chash.go. The digest xxhash is a parameter: the hash of the bytes written to it.
-- `sort.Search` is taken by its contract, the least index that passes a test that is monotone, and
-- `sort.Slice` is insertion sort.
pub mod Ring
pub mod Choice
pub mod Compile
pub mod Assign
pub mod Points
pub mod Outcome
mod Tests
use g_gateway.Base.{
  ℕ, zero, suc, ◌+◌, ◌-◌, ◌*◌, ◌/◌, ◌%◌, ◌^◌, Bool, true, false, not, ◌||◌, List, [], ◌∷◌, ◌++◌,
  map, ltb, leb, ◌==◌, if◌then◌else◌, Bytes, bytes_eq, bytes_lt, length, get_or, set, u32_mod,
  u64_mod,
}
use g_gateway.Base.Order.{sort_by}
use g_gateway.Upstream.HashKey.{string_bytes}
use g_gateway.Upstream.Weights.{
  WeightedEndpoint, Slot, active_slots, divisor_from, normalize, sum_from, assign_capped,
}

abbrev pub continuum_points_per_weight : ℕ
continuum_points_per_weight = 64

abbrev pub max_continuum_points : ℕ
max_continuum_points = 65536

pub record Continuum : Type 0 where
  pub hashes : List ℕ
  pub indexes : List ℕ
  pub direct : ℕ

-- sort.Search for the first hash that is at least `sum`; the length where there is none.
abbrev pub search : List ℕ → ℕ → ℕ
search [] sum = 0
search (hash ∷ hashes) sum = let rest = suc (search hashes sum) in if leb sum hash then 0 else rest

-- The place where a selection starts: the first one comes after the last.
unfoldable pub start_of : List ℕ → ℕ → ℕ
start_of hashes sum = if search hashes sum == length hashes then 0 else search hashes sum

pub select_index : Continuum → ℕ → ℕ
unfolding start_of
select_index c sum = elim c.hashes [
  | [] ↦ c.direct
  | _ ∷ _ ↦ get_or c.indexes (start_of c.hashes sum) 0
]

abbrev pub replicate {ℓ} : {A : Type ℓ} → ℕ → A → List A
replicate zero a = []
replicate (suc n) a = a ∷ replicate n a

-- The loop of selectNext from `offset`, with `rounds` left; a mark in `seen` for each endpoint.
unfoldable pub scan_distinct : Continuum → (ℕ → Bool) → ℕ → ℕ → ℕ → List Bool → ℕ → ℕ → ℕ × Bool
scan_distinct c selectable endpoint_count start offset seen distinct zero = (0, false)
scan_distinct c selectable endpoint_count start offset seen distinct (suc rounds) =
    let ordinal = get_or c.indexes ((start + offset) % length c.hashes) 0 in
    let skip = scan_distinct c selectable endpoint_count start (offset + 1) seen distinct rounds in
    let next =
      scan_distinct c selectable endpoint_count start (offset + 1) (set seen ordinal true)
        (distinct + 1) rounds in
    if not (ltb distinct endpoint_count)
    then (0, false)
    else if leb (length seen) ordinal || get_or seen ordinal false
    then skip
    else if selectable ordinal
    then (ordinal, true)
    else next

unfoldable pub select_next : Continuum → ℕ → ℕ → (ℕ → Bool) → ℕ × Bool
select_next c sum endpoint_count selectable = elim c.hashes [
  | [] ↦ (c.direct, selectable c.direct)
  | _ ∷ _ ↦
      let start = start_of c.hashes sum in
      let first = get_or c.indexes start 0 in
      if selectable first
      then (first, true)
      else scan_distinct c selectable endpoint_count start 1
          (set (replicate endpoint_count false) first true) 1 (length c.hashes - 1)
]

pub record ContinuumPoint : Type 0 where
  pub hash : ℕ
  pub identity : Bytes
  pub virtual_index : ℕ
  pub endpoint_index : ℕ

-- binary.BigEndian.PutUint64: `n` bytes, the last one of them the lowest.
abbrev pub big_endian : ℕ → ℕ → Bytes
big_endian zero value = []
big_endian (suc n) value = big_endian n (value / 256) ++ value % 256 ∷ []

unfoldable pub point_before : ContinuumPoint → ContinuumPoint → Bool
point_before i j =
    if not (i.hash == j.hash)
    then ltb i.hash j.hash
    else if not (bytes_eq i.identity j.identity)
    then bytes_lt i.identity j.identity
    else ltb i.virtual_index j.virtual_index

unfoldable pub sort_continuum_points : List ContinuumPoint → List ContinuumPoint
sort_continuum_points = sort_by point_before

-- `int(targetPoints) <= MaxContinuumPoints`: the upper half of uint64 converts to negative numbers.
abbrev pub within_limit : ℕ → Bool
within_limit target = leb target max_continuum_points || leb (2 ^ 63) target

unfoldable pub assign_points : Slot → List Slot → List Slot
assign_points first rest =
    let active = normalize (divisor_from first.weight rest) (first ∷ rest) in
    let normalized_sum = sum_from 0 active in
    if within_limit (normalized_sum * continuum_points_per_weight % u64_mod)
    then map
        (λ (s : Slot). record s { assigned = s.weight * continuum_points_per_weight % u32_mod })
        active
    else assign_capped normalized_sum max_continuum_points active

pub data CompileError : Type 0 where
  no_positive_weight too_many_active : CompileError

pub data Compiled : Type 0 where
  ok : Continuum → Compiled
  err : CompileError → Compiled

module _ (xxhash : Bytes → ℕ) where
  unfoldable pub continuum_point_hash : Bytes → ℕ → ℕ
  continuum_point_hash identity virtual_index =
      xxhash (string_bytes identity ++ big_endian 8 virtual_index)

  -- The points of one endpoint from `virtual_index`, with `rounds` left.
  unfoldable pub points_of : Slot → ℕ → ℕ → List ContinuumPoint
  points_of s virtual_index zero = []
  points_of s virtual_index (suc rounds) =
      record {
        hash = continuum_point_hash s.identity virtual_index;
        identity = s.identity;
        virtual_index = virtual_index;
        endpoint_index = s.index;
      }
      ∷ points_of s (virtual_index + 1) rounds

  unfoldable pub all_points : List Slot → List ContinuumPoint
  all_points [] = []
  all_points (s ∷ ss) = points_of s 0 s.assigned ++ all_points ss

  unfoldable pub compile_active : List Slot → Compiled
  compile_active [] = err no_positive_weight
  compile_active (first ∷ []) = ok (record { hashes = []; indexes = []; direct = first.index })
  compile_active (first ∷ second ∷ rest) =
      let points = sort_continuum_points (all_points (assign_points first (second ∷ rest))) in
      if ltb max_continuum_points (length (first ∷ second ∷ rest))
      then err too_many_active
      else ok (record {
        hashes = map (λ (p : ContinuumPoint). p.hash) points;
        indexes = map (λ (p : ContinuumPoint). p.endpoint_index) points;
        direct = 0;
      })

  unfoldable pub compile_continuum : List WeightedEndpoint → Compiled
  compile_continuum endpoints = compile_active (active_slots 0 endpoints)
