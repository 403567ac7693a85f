-- ===== src/Upstream/Health/Recovery.antt =====
-- Consecutive active successes bring an endpoint back.
use g_gateway.Base.{ℕ, zero, suc, ◌+◌, ◌≤◌, ◌<◌, ◌≡◌, refl, sym, ◌∙◌, subst, some, arith}
use g_gateway.Model.{ActiveHealthPolicy}
use g_gateway.Upstream.Health.{
  healthy, active, success, Observation, EndpointHealth, classify_http, saturating_increment, apply,
  apply_success, settle, observe,
}
use g_gateway.Upstream.Health.Transitions.{classify-source, settle-state}
use g_gateway.Upstream.Health.Streaks.{Counts, observe-settle, observe_times, observe_times_last}

-- One success counted.
abbrev praise : EndpointHealth → EndpointHealth
praise h = record h { successes = h.successes + 1; http = 0; transport = 0; timeouts = 0 }

module _ (a : ActiveHealthPolicy) (o : Observation) where
  -- An active success that counts, for an endpoint whose active policy is `a`.
  record Praised (h : EndpointHealth) : Type 0 where
    policy : h.policy.active ≡ some a
    source : o.source ≡ active
    counts : Counts h o success

  apply_short :
      (h : EndpointHealth) (c : Observation)
      → h.policy.active ≡ some a
      → c.source ≡ active
      → c.kind ≡ success
      → h.successes + 1 < a.healthy_successes
      → h.successes < 255
      → apply h h.state c ≡ (praise h, h.state)
  unfolding apply apply_success saturating_increment
  apply_short h c p s e lt b = rw (e, apply) (ground arith)

  apply_enough :
      (h : EndpointHealth) (c : Observation)
      → h.policy.active ≡ some a
      → c.source ≡ active
      → c.kind ≡ success
      → a.healthy_successes ≤ h.successes + 1
      → h.successes < 255
      → (apply h h.state c).1 ≡ healthy
  unfolding apply apply_success saturating_increment
  apply_enough h c p s e lt b = rw (e, apply) (ground arith)

  observe_short :
      (h : EndpointHealth)
      → Praised h
      → h.successes + 1 < a.healthy_successes
      → h.successes < 255
      → (observe h o).0 ≡ praise h
  unfolding settle
  observe_short h p lt b = rw (observe-settle h o success p.counts (λ e. cc)) (
      rw
        (
          apply_short h (classify_http h.policy o) p.policy (classify-source h o ∙ p.source)
              p.counts.classified lt b,
          settle,
        )
        (ground arith))

  record Streak (h : EndpointHealth) (n : ℕ) (h' : EndpointHealth) : Type 0 where
    state : h'.state ≡ h.state
    counted : h'.successes ≡ h.successes + n
    praised : Praised h'

  observe_times_short :
      (n : ℕ) (h : EndpointHealth)
      → Praised h
      → h.successes + n < a.healthy_successes
      → a.healthy_successes ≤ 255
      → Streak h n (observe_times n h o)
  unfolding observe_times
  observe_times_short zero h p lt b = record { state = refl; counted = omega arith; praised = p }
  observe_times_short (suc n) h p lt b =
      let c = p.counts in
      let counts : Counts (praise h) o success = record {
        running = c.running;
        policed = c.policed;
        classified = c.classified;
      } in
      let r =
        observe_times_short n (praise h)
          (record { policy = p.policy; source = p.source; counts = counts }) (omega arith) b in
      subst (λ x. Streak h (suc n) (observe_times n x o))
        (sym (observe_short h p (omega arith) (omega arith)))
        (record { state = r.state; counted = omega (arith, r.counted); praised = r.praised })

-- A run of as many active successes as the policy asks for, from a count of zero, leaves the state
-- alone until the last of them and then makes the endpoint healthy.
pub observe_times-healthy :
    (n : ℕ) (h : EndpointHealth) (o : Observation) (a : ActiveHealthPolicy)
    → h.policy.active ≡ some a
    → o.source ≡ active
    → Counts h o success
    → h.successes ≡ 0
    → a.healthy_successes ≡ n + 1
    → n + 1 ≤ 255
    → ((m : ℕ) → m ≤ n → (observe_times m h o).state ≡ h.state)
      × ((observe_times (suc n) h o).state ≡ healthy)
observe_times-healthy n h o a p s c z t b = (
  λ m le.
      (observe_times_short a o m h (record { policy = p; source = s; counts = c }) (omega arith)
        (omega arith)).state,
  let r =
        observe_times_short a o n h (record { policy = p; source = s; counts = c }) (omega arith)
          (omega arith) in
      let g = observe_times n h o in
      let classified = classify_http g.policy o in
      rw (observe_times_last n h o, observe-settle g o success r.praised.counts (λ e. cc))
        (settle-state g classified
          ∙ apply_enough a o g classified r.praised.policy (classify-source g o ∙ r.praised.source)
              r.praised.counts.classified (omega (arith, r.counted)) (omega (arith, r.counted))),
)
