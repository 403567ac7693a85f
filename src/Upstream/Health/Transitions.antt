-- ===== src/Upstream/Health/Transitions.antt =====
-- What one observation may do to the state, the counters and the hook.
use g_gateway.Base.{
  ℕ, ◌≤◌, ◌≡◌, refl, ◌≢◌, sym, ◌∙◌, ◌⊎◌, inl, inr, true, false, none, arith, Bool-cases,
}
use g_gateway.Upstream.Health.{
  HealthState, unknown, healthy, unhealthy, active, passive, OutcomeKind, success, http_failure,
  transport_failure, timeout, neutral, Observation, EndpointHealth, classify_http,
  saturating_increment, failure_threshold, reset_counters, apply, apply_success, settle,
  observe_locked, observe, retire, ObservationSource, same_state,
}

-- The counters fit their bytes, and a success streak and a failure count exclude each other.
pub record IsValid (h : EndpointHealth) : Type 0 where
  pub successes_bound : h.successes ≤ 255
  pub http_bound : h.http ≤ 255
  pub transport_bound : h.transport ≤ 255
  pub timeouts_bound : h.timeouts ≤ 255
  pub exclusive : (h.successes ≡ 0) ⊎ ((h.http ≡ 0) × (h.transport ≡ 0) × (h.timeouts ≡ 0))

saturating_increment-le : (value : ℕ) → value ≤ 255 → saturating_increment value ≤ 255
unfolding saturating_increment
saturating_increment-le value h = ground arith

apply_success-IsValid :
    (h : EndpointHealth) (o : Observation)
    → IsValid h
    → IsValid (apply_success h h.state o.source).0
unfolding apply_success
apply_success-IsValid h o v = ground (arith, saturating_increment-le h.successes)

apply-IsValid :
    (h : EndpointHealth) (o : Observation) (k : OutcomeKind)
    → o.kind ≡ k
    → IsValid h
    → IsValid (apply h h.state o).0
unfolding apply
apply-IsValid h o success e v = rw (e, apply) (apply_success-IsValid h o v)
apply-IsValid h o http_failure e v = rw (e, apply) (ground (arith, saturating_increment-le h.http))
apply-IsValid h o transport_failure e v =
    rw (e, apply) (ground (arith, saturating_increment-le h.transport))
apply-IsValid h o timeout e v = rw (e, apply) (ground (arith, saturating_increment-le h.timeouts))
apply-IsValid h o neutral e v = rw (e, apply) v

reset-IsValid :
    (h : EndpointHealth) (s : HealthState) → IsValid (reset_counters (record h { state = s }))
unfolding reset_counters
reset-IsValid h s = ground arith

settle-IsValid : (h : EndpointHealth) (o : Observation) → IsValid h → IsValid (settle h o).0
unfolding settle
settle-IsValid h o v = elim (Bool-cases (same_state (apply h h.state o).1 h.state)) [
  | inl e ↦ rw e (apply-IsValid h o o.kind refl v)
  | inr e ↦ rw e (reset-IsValid (apply h h.state o).0 (apply h h.state o).1)
]

-- Any observation keeps the health value valid.
pub observe-IsValid : (h : EndpointHealth) (o : Observation) → IsValid h → IsValid (observe h o).0
unfolding observe observe_locked
observe-IsValid h o v = ground (arith, settle-IsValid h (classify_http h.policy o) v)

-- What may stop an observation from counting.
abbrev pub IsIgnored : EndpointHealth → Observation → Type 0
IsIgnored h o =
    (h.retired ≡ true)
    ⊎ ((o.source ≡ passive) × (h.policy.passive ≡ none))
    ⊎ ((classify_http h.policy o).kind ≡ neutral)

-- An ignored observation changes nothing and calls no hook.
pub observe_ignored :
    (h : EndpointHealth) (o : Observation) → IsIgnored h o → observe h o ≡ (h, none)
unfolding observe observe_locked
observe_ignored h o i = ground arith

-- Retiring between the first test and the lock has the same effect as retiring before the call.
pub observe_locked-retire :
    (h : EndpointHealth) (o : Observation)
    → (observe_locked (retire h) o ≡ (retire h, none)) × (observe (retire h) o ≡ (retire h, none))
unfolding observe observe_locked retire
observe_locked-retire h o = ground arith

apply_success-state :
    (h : EndpointHealth) (s : HealthState) (source : ObservationSource)
    → ((apply_success h s source).1 ≡ s)
      ⊎ (((apply_success h s source).1 ≡ healthy) × ((s ≡ unhealthy) → source ≡ active))
unfolding apply_success
apply_success-state h unknown source = ground arith
apply_success-state h healthy source = ground arith
apply_success-state h unhealthy active = ground arith
apply_success-state h unhealthy passive = ground arith

-- The failure count of a kind.
abbrev pub failures : OutcomeKind → EndpointHealth → ℕ
failures http_failure h = h.http
failures transport_failure h = h.transport
failures timeout h = h.timeouts
failures _ h = 0

abbrev pub IsFailure : OutcomeKind → Type 0
IsFailure http_failure = Unit
IsFailure transport_failure = Unit
IsFailure timeout = Unit
IsFailure _ = ⊥

pub apply-state :
    (h : EndpointHealth) (o : Observation) (k : OutcomeKind)
    → o.kind ≡ k
    → (apply h h.state o).0.state ≡ h.state
unfolding apply apply_success
apply-state h o success e = rw (e, apply) (ground arith)
apply-state h o http_failure e = rw (e, apply) (ground arith)
apply-state h o transport_failure e = rw (e, apply) (ground arith)
apply-state h o timeout e = rw (e, apply) (ground arith)
apply-state h o neutral e = rw (e, apply)

apply-unhealthy :
    (h : EndpointHealth) (o : Observation) (k : OutcomeKind)
    → o.kind ≡ k
    → h.state ≢ unhealthy
    → (apply h h.state o).1 ≡ unhealthy
    → IsFailure k × (failure_threshold h.policy o.source k ≤ saturating_increment (failures k h))
unfolding apply
apply-unhealthy h o success e n p =
    ground (arith, apply_success-state h h.state o.source, rw (e, apply) at p)
apply-unhealthy h o http_failure e n p = ground (arith, rw (e, apply) at p)
apply-unhealthy h o transport_failure e n p = ground (arith, rw (e, apply) at p)
apply-unhealthy h o timeout e n p = ground (arith, rw (e, apply) at p)
apply-unhealthy h o neutral e n p = ground (arith, rw (e, apply) at p)

apply-left :
    (h : EndpointHealth) (o : Observation) (k : OutcomeKind)
    → o.kind ≡ k
    → h.state ≡ unhealthy
    → (apply h h.state o).1 ≢ unhealthy
    → (k ≡ success) × (o.source ≡ active) × ((apply h h.state o).1 ≡ healthy)
unfolding apply
apply-left h o success e s n =
    ground (arith, apply_success-state h h.state o.source, rw (e, apply) at n)
apply-left h o http_failure e s n = ground (arith, rw (e, apply) at n)
apply-left h o transport_failure e s n = ground (arith, rw (e, apply) at n)
apply-left h o timeout e s n = ground (arith, rw (e, apply) at n)
apply-left h o neutral e s n = ground (arith, rw (e, apply) at n)

pub same_state-eq : (s t : HealthState) → same_state s t ≡ true → s ≡ t
same_state-eq s t h = ground arith

same_state-ne : (s t : HealthState) → same_state s t ≡ false → s ≢ t
same_state-ne s t h = ground arith

pub classify-source :
    (h : EndpointHealth) (o : Observation) → (classify_http h.policy o).source ≡ o.source
unfolding classify_http
classify-source h o = ground arith

pub settle-state :
    (h : EndpointHealth) (o : Observation) → (settle h o).0.state ≡ (apply h h.state o).1
unfolding settle
settle-state h o = elim (Bool-cases (same_state (apply h h.state o).1 h.state)) [
  | inl e ↦ rw e (apply-state h o o.kind refl ∙ sym (same_state-eq _ _ e))
  | inr e ↦ rw e
]

observe-state :
    (h : EndpointHealth) (o : Observation)
    → ((observe h o).0.state ≡ h.state)
      ⊎ ((observe h o).0.state ≡ (apply h h.state (classify_http h.policy o)).1)
unfolding observe observe_locked
observe-state h o = ground (arith, settle-state h (classify_http h.policy o))

-- What a change of state tells of the observation that made it.
pub record IsEjection (h : EndpointHealth) (o : Observation) : Type 0 where
  pub failure : IsFailure (classify_http h.policy o).kind
  pub reached :
      failure_threshold h.policy o.source (classify_http h.policy o).kind
      ≤ saturating_increment (failures (classify_http h.policy o).kind h)

-- An endpoint turns unhealthy only by a failure that brings its own count to its threshold.
pub observe-IsEjection :
    (h : EndpointHealth) (o : Observation)
    → h.state ≢ unhealthy
    → (observe h o).0.state ≡ unhealthy
    → IsEjection h o
observe-IsEjection h o n p =
    let c = classify_http h.policy o in
    let turned : (apply h h.state c).1 ≡ unhealthy = ground (arith, observe-state h o) in
    let (failed, met) = apply-unhealthy h c c.kind refl n turned in
    record { failure = failed; reached = rw (classify-source h o) at met }

-- An unhealthy endpoint leaves that state only for healthy, and only by an active success.
pub observe_recovery :
    (h : EndpointHealth) (o : Observation)
    → h.state ≡ unhealthy
    → (observe h o).0.state ≢ unhealthy
    → (o.source ≡ active)
      × ((classify_http h.policy o).kind ≡ success)
      × ((observe h o).0.state ≡ healthy)
observe_recovery h o e n = ground (
  arith,
  observe-state h o,
  classify-source h o,
  apply-left h (classify_http h.policy o) (classify_http h.policy o).kind refl e,
)
