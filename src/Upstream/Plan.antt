-- ===== src/Upstream/Plan.antt =====
-- internal/upstream/plan.go: the attempt set, and the selection of an endpoint. A slice's fixed array
-- is a list of its filled places.
pub mod Attempts
pub mod Selecting
mod Tests
use g_gateway.Base.{
  ℕ, Bool, true, false, not, ◌||◌, Option, none, some, List, [], ◌∷◌, ◌++◌, leb, if◌then◌else◌,
  length, get_elem?, contains,
}
use g_gateway.Model.{BalancerType}
use g_gateway.Upstream.Health.{EndpointHealth, selectable}
use g_gateway.Upstream.Wrr.{WrrSelector}
use g_gateway.Upstream.Chash.{Continuum}
use g_gateway.Upstream.HashKey.{HashRequest}

abbrev pub attempt_capacity : ℕ
attempt_capacity = 5

pub record AttemptSet : Type 0 where
  pub ordinals : List ℕ

-- A nil set is `none`, here and below.
unfoldable pub contains_attempt : Option AttemptSet → ℕ → Bool
contains_attempt none ordinal = false
contains_attempt (some a) ordinal = contains a.ordinals ordinal

unfoldable pub add_attempt : Option AttemptSet → ℕ → Option AttemptSet × Bool
add_attempt none ordinal = (none, false)
add_attempt (some a) ordinal =
    if contains_attempt (some a) ordinal || leb attempt_capacity (length a.ordinals)
    then (some a, false)
    else (some (record { ordinals = a.ordinals ++ ordinal ∷ [] }), true)

-- The fields of Plan that a selection reads. An endpoint's health may be nil; `hash_key` is the
-- method sum64 of the plan's extractor.
pub record Plan : Type 0 where
  pub algorithm : BalancerType
  pub endpoints : List (Option EndpointHealth)
  pub has_transport : Bool
  pub wrr : WrrSelector
  pub continuum : Continuum
  pub hash_key : Option HashRequest → ℕ × Bool

unfoldable pub endpoint_selectable : Plan → Option AttemptSet → ℕ → Bool
endpoint_selectable p attempted ordinal =
    if leb (length p.endpoints) ordinal || contains_attempt attempted ordinal
    then false
    else (elim (get_elem? p.endpoints ordinal) [
      | none ↦ false
      | some none ↦ true
      | some (some health) ↦ selectable health
    ])

-- The ordinal and the use of the fallback key; the errors ErrNoEndpoint and ErrNoHealthyEndpoint.
pub data Selection : Type 0 where
  selected : ℕ → Bool → Selection
  no_endpoint no_healthy_endpoint : Selection

abbrev pub bounded : Plan → ℕ → Bool → Selection
bounded p ordinal fallback =
    if leb (length p.endpoints) ordinal then no_endpoint else selected ordinal fallback

abbrev pub chosen : Plan → Bool → ℕ × Bool → Selection
chosen p fallback (ordinal, ok) = if ok then bounded p ordinal fallback else no_healthy_endpoint

abbrev is_none {ℓ} : {A : Type ℓ} → List A → Bool
is_none [] = true
is_none (x ∷ xs) = false

-- The selection, and the sequence of the weighted round robin after it.
unfoldable pub select_next : Plan → ℕ → Option HashRequest → Option AttemptSet → Selection × ℕ
select_next p sequence request attempted =
    if is_none p.endpoints || not p.has_transport
    then (no_endpoint, sequence)
    else (elim p.algorithm [
      | BalancerType.weighted_round_robin ↦
          let (result, after) =
            g_gateway.Upstream.Wrr.select_next p.wrr sequence (endpoint_selectable p attempted) in
          (chosen p false result, after)
      | BalancerType.consistent_hash ↦
          let (sum, fallback) = p.hash_key request in
          (
            chosen p fallback (
                g_gateway.Upstream.Chash.select_next p.continuum sum (length p.endpoints)
                  (endpoint_selectable p attempted)),
            sequence,
          )
      | BalancerType.other name ↦ (no_endpoint, sequence)
    ])
