-- ===== src/Upstream/Health/Streaks.antt =====
-- Consecutive outcomes of one kind: exactly as many as the threshold asks for change the state.
use g_gateway.Base.{
  ℕ, zero, suc, ◌+◌, ◌≤◌, ◌<◌, ◌≡◌, refl, ◌≢◌, ◌⊎◌, sym, ◌∙◌, subst, ap, false, none, arith,
}
use g_gateway.Upstream.Health.{
  unhealthy, active, OutcomeKind, success, http_failure, transport_failure, timeout, neutral,
  Observation, EndpointHealth, classify_http, saturating_increment, failure_threshold, apply,
  settle, observe_locked, observe,
}
use g_gateway.Upstream.Health.Transitions.{failures, IsFailure, classify-source, settle-state}

-- The endpoint after the same observation, `n` times in a row.
unfoldable pub observe_times : ℕ → EndpointHealth → Observation → EndpointHealth
observe_times zero h o = h
observe_times (suc n) h o = observe_times n (observe h o).0 o

-- The observation is not ignored, and is classified as `k`.
pub record Counts (h : EndpointHealth) (o : Observation) (k : OutcomeKind) : Type 0 where
  pub running : h.retired ≡ false
  pub policed : (o.source ≡ active) ⊎ (h.policy.passive ≢ none)
  pub classified : (classify_http h.policy o).kind ≡ k

-- One failure counted: the success streak ends and only its own category grows.
abbrev bump : OutcomeKind → EndpointHealth → EndpointHealth
bump http_failure h = record h { successes = 0; http = h.http + 1 }
bump transport_failure h = record h { successes = 0; transport = h.transport + 1 }
bump timeout h = record h { successes = 0; timeouts = h.timeouts + 1 }
bump _ h = h

pub observe-settle :
    (h : EndpointHealth) (o : Observation) (k : OutcomeKind)
    → Counts h o k
    → k ≢ neutral
    → observe h o ≡ settle h (classify_http h.policy o)
unfolding observe observe_locked
observe-settle h o k c n = ground (arith, c.running, c.policed, c.classified)

apply_below :
    (h : EndpointHealth) (o : Observation) (k : OutcomeKind)
    → IsFailure k
    → o.kind ≡ k
    → failures k h + 1 < failure_threshold h.policy o.source k
    → failures k h < 255
    → apply h h.state o ≡ (bump k h, h.state)
unfolding apply saturating_increment
apply_below h o success f e lt b = elim f [ ]
apply_below h o http_failure f e lt b = rw (e, apply) (ground arith)
apply_below h o transport_failure f e lt b = rw (e, apply) (ground arith)
apply_below h o timeout f e lt b = rw (e, apply) (ground arith)
apply_below h o neutral f e lt b = elim f [ ]

apply_at :
    (h : EndpointHealth) (o : Observation) (k : OutcomeKind)
    → IsFailure k
    → o.kind ≡ k
    → failure_threshold h.policy o.source k ≤ failures k h + 1
    → failures k h < 255
    → (apply h h.state o).1 ≡ unhealthy
unfolding apply saturating_increment
apply_at h o success f e lt b = elim f [ ]
apply_at h o http_failure f e lt b = rw (e, apply) (ground arith)
apply_at h o transport_failure f e lt b = rw (e, apply) (ground arith)
apply_at h o timeout f e lt b = rw (e, apply) (ground arith)
apply_at h o neutral f e lt b = elim f [ ]

settle_below :
    (h : EndpointHealth) (o : Observation) (k : OutcomeKind)
    → IsFailure k
    → o.kind ≡ k
    → failures k h + 1 < failure_threshold h.policy o.source k
    → failures k h < 255
    → (settle h o).0 ≡ bump k h
unfolding settle
settle_below h o k f e lt b = rw (apply_below h o k f e lt b, settle) (ground arith)

-- The classification reads the policy alone, and counting a failure leaves that in place.
bump-Counts :
    (h : EndpointHealth) (o : Observation) (k : OutcomeKind)
    → IsFailure k
    → Counts h o k
    → Counts (bump k h) o k
bump-Counts h o success f c = elim f [ ]
bump-Counts h o http_failure f c = record {
  running = c.running;
  policed = c.policed;
  classified = c.classified;
}
bump-Counts h o transport_failure f c = record {
  running = c.running;
  policed = c.policed;
  classified = c.classified;
}
bump-Counts h o timeout f c = record {
  running = c.running;
  policed = c.policed;
  classified = c.classified;
}
bump-Counts h o neutral f c = elim f [ ]

failure-ne-neutral : (k : OutcomeKind) → IsFailure k → k ≢ neutral
failure-ne-neutral k f = ground arith

failures-bump :
    (h : EndpointHealth) (k : OutcomeKind) → IsFailure k → failures k (bump k h) ≡ failures k h + 1
failures-bump h k f = ground arith

bump-kept :
    (h : EndpointHealth) (k : OutcomeKind)
    → ((bump k h).policy ≡ h.policy) × ((bump k h).state ≡ h.state)
bump-kept h k = ground arith

observe_below :
    (h : EndpointHealth) (o : Observation) (k : OutcomeKind)
    → IsFailure k
    → Counts h o k
    → failures k h + 1 < failure_threshold h.policy o.source k
    → failures k h < 255
    → (observe h o).0 ≡ bump k h
observe_below h o k f c lt b =
    rw (observe-settle h o k c (failure-ne-neutral k f))
      (settle_below h (classify_http h.policy o) k f c.classified (rw (classify-source h o) lt) b)

-- `h'` is `h` after `n` more counted failures of kind `k`, and no change of state.
pub record Streak (h : EndpointHealth) (n : ℕ) (o : Observation) (k : OutcomeKind)
    (h' : EndpointHealth) : Type 0 where
  pub state : h'.state ≡ h.state
  pub counted : failures k h' ≡ failures k h + n
  pub counts : Counts h' o k
  pub policy : h'.policy ≡ h.policy

-- Below the threshold a run of failures leaves the state alone and counts each of them.
observe_times_below :
    (n : ℕ) (h : EndpointHealth) (o : Observation) (k : OutcomeKind)
    → IsFailure k
    → Counts h o k
    → failures k h + n < failure_threshold h.policy o.source k
    → failure_threshold h.policy o.source k ≤ 255
    → Streak h n o k (observe_times n h o)
unfolding observe_times
observe_times_below zero h o k f c lt b = record {
  state = refl;
  counted = omega arith;
  counts = c;
  policy = refl;
}
observe_times_below (suc n) h o k f c lt b =
    let here = observe_below h o k f c (omega arith) (omega arith) in
    let kept = bump-kept h k in
    let grown = failures-bump h k f in
    let r =
      observe_times_below n (bump k h) o k f (bump-Counts h o k f c)
        (rw (kept.0, grown) (omega arith)) (rw kept.0 b) in
    subst (λ x. Streak h (suc n) o k (observe_times n x o)) (sym here)
      (record {
        state = r.state ∙ kept.1;
        counted = omega (arith, r.counted);
        counts = r.counts;
        policy = r.policy ∙ kept.0;
      })

-- The failure that brings the count to the threshold ejects the endpoint.
observe_at :
    (h : EndpointHealth) (o : Observation) (k : OutcomeKind)
    → IsFailure k
    → Counts h o k
    → failure_threshold h.policy o.source k ≤ failures k h + 1
    → failures k h < 255
    → (observe h o).0.state ≡ unhealthy
observe_at h o k f c le b = rw (observe-settle h o k c (failure-ne-neutral k f)) (
    settle-state h (classify_http h.policy o)
    ∙ apply_at h (classify_http h.policy o) k f c.classified (rw (classify-source h o) le) b)

pub observe_times_last :
    (n : ℕ) (h : EndpointHealth) (o : Observation)
    → observe_times (suc n) h o ≡ (observe (observe_times n h o) o).0
unfolding observe_times
observe_times_last zero h o = refl
observe_times_last (suc n) h o = observe_times_last n (observe h o).0 o

-- A run of `n + 1` equal failures from a count of zero, with `n + 1` the threshold of their kind,
-- leaves the state alone through the first `n` of them and ejects the endpoint with the last.
pub observe_times-unhealthy :
    (n : ℕ) (h : EndpointHealth) (o : Observation) (k : OutcomeKind)
    → IsFailure k
    → Counts h o k
    → failures k h ≡ 0
    → failure_threshold h.policy o.source k ≡ n + 1
    → n + 1 ≤ 255
    → ((m : ℕ) → m ≤ n → (observe_times m h o).state ≡ h.state)
      × ((observe_times (suc n) h o).state ≡ unhealthy)
observe_times-unhealthy n h o k f c z t b = (
  λ m le. (observe_times_below m h o k f c (omega arith) (omega arith)).state,
  let r = observe_times_below n h o k f c (omega arith) (omega arith) in
      rw (observe_times_last n h o) (
        observe_at (observe_times n h o) o k f r.counts
          (omega (arith, ap (λ p. failure_threshold p o.source k) r.policy, r.counted))
          (omega (arith, r.counted))),
)
