-- ===== src/Upstream/Health.antt =====
-- internal/upstream/health.go. A method on *EndpointHealth returns the new value. The atomic flags
-- and the mutex make each of the two parts of Observe one step: what is read before the lock, and
-- `observe_locked`, which tests `retired` again. A hook is a number that names the callback; the
-- model returns the hook and the transition that it is called with.
pub mod Transitions
pub mod Streaks
pub mod Hook
pub mod Recovery
mod Tests
use g_gateway.Base.{
  ℕ, ◌+◌, ◌%◌, ◌≡◌, refl, Bool, true, false, not, ◌&&◌, ◌||◌, Option, none, some, List, [], ◌∷◌,
  ltb, leb, ◌==◌, if◌then◌else◌, contains, Bytes, u16_mod,
}
use g_gateway.Model.{HealthPolicy, HealthCheckType}

pub data HealthState : Type 0 where
  unknown healthy unhealthy : HealthState

pub data ObservationSource : Type 0 where
  active passive : ObservationSource

pub data OutcomeKind : Type 0 where
  success http_failure transport_failure timeout neutral : OutcomeKind

pub record Observation : Type 0 where
  pub source : ObservationSource
  pub kind : OutcomeKind
  pub status : ℕ

pub record HealthTransition : Type 0 where
  pub endpoint_id : Bytes
  pub generation : ℕ
  pub source : ObservationSource
  pub from : HealthState
  pub to : HealthState

pub record EndpointHealth : Type 0 where
  pub state : HealthState
  pub generation : ℕ
  pub identity : Bytes
  pub policy : HealthPolicy
  pub successes : ℕ
  pub http : ℕ
  pub transport : ℕ
  pub timeouts : ℕ
  pub on_change : Option ℕ
  pub retired : Bool

pub new_endpoint_health : Bytes → HealthPolicy → ℕ → EndpointHealth
new_endpoint_health identity policy generation = record {
  state = unknown;
  generation = generation;
  identity = identity;
  policy = policy;
  successes = 0;
  http = 0;
  transport = 0;
  timeouts = 0;
  on_change = none;
  retired = false;
}

abbrev is_unhealthy : HealthState → Bool
is_unhealthy unhealthy = true
is_unhealthy _ = false

abbrev same_state : HealthState → HealthState → Bool
same_state unknown unknown = true
same_state healthy healthy = true
same_state unhealthy unhealthy = true
same_state _ _ = false

abbrev is_passive : ObservationSource → Bool
is_passive passive = true
is_passive active = false

abbrev is_http : HealthCheckType → Bool
is_http HealthCheckType.http = true
is_http _ = false

unfoldable pub selectable : EndpointHealth → Bool
selectable h = not (is_unhealthy h.state)

pub set_transition_hook : EndpointHealth → Option ℕ → EndpointHealth
set_transition_hook h hook = record h { on_change = hook }

pub retire : EndpointHealth → EndpointHealth
retire h = record h { retired = true }

pub classify_http : HealthPolicy → Observation → Observation
classify_http policy o =
    if o.status == 0
    then o
    else if is_passive o.source
    then (elim policy.passive [
      | none ↦ record o { kind = neutral }
      | some p ↦
          if contains p.unhealthy_statuses (o.status % u16_mod)
          then record o { kind = http_failure }
          else record o { kind = success }
    ])
    else (elim policy.active [
      | none ↦ o
      | some a ↦
          if is_http a.type
          then (if contains a.healthy_statuses (o.status % u16_mod)
              then record o { kind = success }
              else if contains a.unhealthy_statuses (o.status % u16_mod)
              then record o { kind = http_failure }
              else record o { kind = neutral })
          else o
    ])

enabled_threshold : ℕ → ℕ
enabled_threshold value = if value == 0 then 255 else value

pub saturating_increment : ℕ → ℕ
saturating_increment value = if value == 255 then value else value + 1

active_threshold : HealthPolicy → OutcomeKind → ℕ
unfolding enabled_threshold
active_threshold policy kind = elim policy.active [
  | none ↦ 255
  | some a ↦ elim kind [
    | http_failure ↦ enabled_threshold a.http_failures
    | transport_failure ↦ enabled_threshold a.transport_failures
    | timeout ↦ enabled_threshold a.timeouts
    | _ ↦ 255
  ]
]

-- A passive observation of another kind falls through to the active switch.
pub failure_threshold : HealthPolicy → ObservationSource → OutcomeKind → ℕ
unfolding active_threshold enabled_threshold
failure_threshold policy active kind = active_threshold policy kind
failure_threshold policy passive kind = elim policy.passive [
  | none ↦ 255
  | some p ↦ elim kind [
    | http_failure ↦ enabled_threshold p.http_failures
    | transport_failure ↦ enabled_threshold p.transport_failures
    | timeout ↦ enabled_threshold p.timeouts
    | other ↦ active_threshold policy other
  ]
]

reset_counters : EndpointHealth → EndpointHealth
reset_counters h = record h { successes = 0; http = 0; transport = 0; timeouts = 0 }

-- The active policy is there and its success threshold is met.
abbrev enough_successes : HealthPolicy → ℕ → Bool
enough_successes policy count = elim policy.active [
  | none ↦ false
  | some a ↦ leb a.healthy_successes count
]

-- `apply` changes the counters, and returns the next state beside them.
pub apply_success : EndpointHealth → HealthState → ObservationSource → EndpointHealth × HealthState
unfolding saturating_increment
apply_success h state source =
    let cleared = record h { http = 0; transport = 0; timeouts = 0 } in
    let counted = record cleared { successes = saturating_increment h.successes } in
    if is_unhealthy state && is_passive source
    then (record cleared { successes = 0 }, state)
    else if enough_successes h.policy counted.successes
    then (counted, healthy)
    else (counted, state)

pub apply : EndpointHealth → HealthState → Observation → EndpointHealth × HealthState
unfolding apply_success saturating_increment failure_threshold
apply h state o = elim o.kind [
  | success ↦ apply_success h state o.source
  | http_failure ↦
      let counted = record h { successes = 0; http = saturating_increment h.http } in
      if leb (failure_threshold h.policy o.source http_failure) counted.http
      then (counted, unhealthy)
      else (counted, state)
  | transport_failure ↦
      let counted = record h { successes = 0; transport = saturating_increment h.transport } in
      if leb (failure_threshold h.policy o.source transport_failure) counted.transport
      then (counted, unhealthy)
      else (counted, state)
  | timeout ↦
      let counted = record h { successes = 0; timeouts = saturating_increment h.timeouts } in
      if leb (failure_threshold h.policy o.source timeout) counted.timeouts
      then (counted, unhealthy)
      else (counted, state)
  | neutral ↦ (h, state)
]

abbrev pub Delivery : Type 0
Delivery = Option (ℕ × HealthTransition)

abbrev pub deliver : Option ℕ → HealthTransition → Delivery
deliver none t = none
deliver (some hook) t = some (hook, t)

abbrev is_neutral : OutcomeKind → Bool
is_neutral neutral = true
is_neutral _ = false

-- From `previous := ...` to the end of Observe, for a classified observation.
pub settle : EndpointHealth → Observation → EndpointHealth × Delivery
unfolding reset_counters
settle h o =
    let (counted, next) = apply h h.state o in
    if same_state next h.state then (counted, none) else (
      reset_counters (record counted { state = next }),
      deliver h.on_change (record {
        endpoint_id = h.identity;
        generation = h.generation;
        source = o.source;
        from = h.state;
        to = next;
      }),
    )

-- What Observe does once it holds the mutex.
pub observe_locked : EndpointHealth → Observation → EndpointHealth × Delivery
observe_locked h o =
    let classified = classify_http h.policy o in
    if h.retired
    then (h, none)
    else if is_neutral classified.kind
    then (h, none)
    else settle h classified

abbrev is_absent {ℓ} : {A : Type ℓ} → Option A → Bool
is_absent none = true
is_absent (some a) = false

pub observe : EndpointHealth → Observation → EndpointHealth × Delivery
unfolding observe_locked
observe h o =
    if is_passive o.source && is_absent h.policy.passive
    then (h, none)
    else if h.retired
    then (h, none)
    else observe_locked h o
