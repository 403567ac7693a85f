-- ===== src/Upstream/Health/Tests.antt =====
-- Runs of the health state machine, and its theorems at concrete endpoints.
use g_gateway.Base.{ℕ, ◌≤◌, ◌≡◌, refl, inl, inr, true, false, none, some, [], ◌∷◌, arith, bytes}
use g_gateway.Model.{HealthCheckType, ActiveHealthPolicy, PassiveHealthPolicy, HealthPolicy}
use g_gateway.Upstream.Health.{
  unknown, healthy, unhealthy, active, passive, success, transport_failure, neutral, Observation,
  EndpointHealth, new_endpoint_health, observe, observe_locked, classify_http, settle, apply,
  retire, set_transition_hook, failure_threshold, selectable,
}
use g_gateway.Upstream.Health.Transitions.{
  IsValid, observe-IsValid, observe_ignored, observe_locked-retire, IsEjection, observe-IsEjection,
  observe_recovery,
}
use g_gateway.Upstream.Health.Hook.{Reported, observe-Reported}
use g_gateway.Upstream.Health.Streaks.{Counts, observe_times, observe_times-unhealthy}
use g_gateway.Upstream.Health.Recovery.{observe_times-healthy}

-- What a run of the machine computes with.
machine : Unit {0}
unfolding observe observe_locked settle classify_http apply
machine = tt

abbrev probing : ActiveHealthPolicy
probing = record {
  type = HealthCheckType.http;
  timeout = 1;
  healthy_interval = 5;
  unhealthy_interval = 2;
  healthy_successes = 2;
  http_failures = 3;
  transport_failures = 2;
  timeouts = 2;
  healthy_statuses = 200 ∷ 204 ∷ [];
  unhealthy_statuses = 500 ∷ 503 ∷ [];
  path = bytes "/healthz";
  host = [];
}

abbrev watching : PassiveHealthPolicy
watching = record {
  http_failures = 3;
  transport_failures = 2;
  timeouts = 0;
  unhealthy_statuses = 502 ∷ 503 ∷ [];
}

abbrev policy : HealthPolicy
policy = record { active = some probing; passive = some watching }

abbrev fresh : EndpointHealth
fresh = record {
  state = unknown;
  generation = 7;
  identity = bytes "http://a:80";
  policy = policy;
  successes = 0;
  http = 0;
  transport = 0;
  timeouts = 0;
  on_change = some 1;
  retired = false;
}

abbrev down : EndpointHealth
down = record fresh { state = unhealthy }

abbrev refused : Observation
refused = record { source = passive; kind = transport_failure; status = 0 }

abbrev answered : Observation
answered = record { source = active; kind = neutral; status = 204 }

built : set_transition_hook (new_endpoint_health (bytes "http://a:80") policy 7) (some 1) ≡ fresh
unfolding new_endpoint_health set_transition_hook
built = refl

-- Two refused connections eject; two good probes recover; a passive 200 does not.
run_refused : (observe_times 2 fresh refused).state ≡ unhealthy
unfolding machine observe_times
run_refused = refl

run_answered : (observe_times 2 down answered).state ≡ healthy
unfolding machine observe_times
run_answered = refl

passive_success :
    (observe_times 9 down (record { source = passive; kind = neutral; status = 200 })).state
    ≡ unhealthy
unfolding machine observe_times
passive_success = refl

ejected : selectable (observe_times 2 fresh refused) ≡ false
unfolding machine observe_times selectable
ejected = refl

fresh-IsValid : IsValid fresh
fresh-IsValid = record {
  successes_bound = omega arith;
  http_bound = omega arith;
  transport_bound = omega arith;
  timeouts_bound = omega arith;
  exclusive = inl refl;
}

observe-IsValid_example : IsValid (observe fresh refused).0
observe-IsValid_example = observe-IsValid fresh refused fresh-IsValid

observe_ignored_example :
    observe (record fresh { retired = true }) refused ≡ (record fresh { retired = true }, none)
observe_ignored_example = observe_ignored (record fresh { retired = true }) refused (inl refl)

observe_locked-retire_example :
    (observe_locked (retire fresh) refused ≡ (retire fresh, none))
    × (observe (retire fresh) refused ≡ (retire fresh, none))
observe_locked-retire_example = observe_locked-retire fresh refused

abbrev shaken : EndpointHealth
shaken = record fresh { transport = 1 }

observe-IsEjection_example : IsEjection shaken refused
unfolding machine
observe-IsEjection_example = observe-IsEjection shaken refused (λ e. cc) refl

abbrev mending : EndpointHealth
mending = record down { successes = 1 }

observe_recovery_example :
    (answered.source ≡ active)
    × ((classify_http policy answered).kind ≡ success)
    × ((observe mending answered).0.state ≡ healthy)
unfolding machine
observe_recovery_example = observe_recovery mending answered refl (λ e. cc)

observe-Reported_example :
    Reported shaken refused (observe shaken refused).0 (observe shaken refused).1
observe-Reported_example = observe-Reported shaken refused

refused-Counts : Counts fresh refused transport_failure
unfolding classify_http
refused-Counts = record { running = refl; policed = inr (λ e. cc); classified = refl }

observe_times-unhealthy_example :
    ((m : ℕ) → m ≤ 1 → (observe_times m fresh refused).state ≡ unknown)
    × ((observe_times 2 fresh refused).state ≡ unhealthy)
unfolding failure_threshold
observe_times-unhealthy_example =
    observe_times-unhealthy 1 fresh refused transport_failure tt refused-Counts refl refl
      (omega arith)

answered-Counts : Counts down answered success
unfolding classify_http
answered-Counts = record { running = refl; policed = inl refl; classified = refl }

observe_times-healthy_example :
    ((m : ℕ) → m ≤ 1 → (observe_times m down answered).state ≡ unhealthy)
    × ((observe_times 2 down answered).state ≡ healthy)
observe_times-healthy_example =
    observe_times-healthy 1 down answered probing refl refl answered-Counts refl refl (omega arith)
