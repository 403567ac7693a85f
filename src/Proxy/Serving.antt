-- ===== src/Proxy/Serving.antt =====
-- The loop of attempts of internal/proxy/attempt.go on what it calls in internal/upstream/plan.go: the
-- plan's selection, its endpoints' health and its retry budget, for one request at a time.
pub mod Paid
pub mod Spending
mod Tests
use g_gateway.Base.{ℕ, Bool, true, false, Option, none, some, List, set, get_elem?, if◌then◌else◌}
use g_gateway.Model.{RetryPolicy}
use g_gateway.Upstream.Health.{EndpointHealth, Observation}
use g_gateway.Upstream.Budget.{RetryBudget, RetryPermit, done, panic_invalid, panic_twice}
use g_gateway.Upstream.HashKey.{HashRequest}
use g_gateway.Upstream.Plan.{Plan, AttemptSet, selected, no_endpoint, no_healthy_endpoint}
use g_gateway.Proxy.{AttemptRequest, Attempting}
use g_gateway.Proxy.Retry.{Errors, Answer, classify_attempt, clone_attempt_request}

-- CreditPrimary and AcquireRetry of the plan; a nil budget is `none`.
unfoldable pub plan_credit_primary : Option RetryBudget → Option RetryBudget
plan_credit_primary none = none
plan_credit_primary (some b) = some (g_gateway.Upstream.Budget.credit_primary b)

unfoldable pub plan_acquire_retry : Option RetryBudget → Option RetryBudget × RetryPermit × Bool
plan_acquire_retry none = (none, record { budget = false; released = false }, false)
plan_acquire_retry (some b) =
    let (b', permit, allowed) = g_gateway.Upstream.Budget.acquire b in (some b', permit, allowed)

-- Observe of a selection: an endpoint without a health tracker is left alone. Every endpoint of the plan
-- has a tracker of its own; the callback of a transition is not called here.
unfoldable pub observe_selection : Plan → ℕ → Observation → Plan
observe_selection p ordinal o = elim (get_elem? p.endpoints ordinal) [
  | none ↦ p
  | some none ↦ p
  | some (some h) ↦ record p {
    endpoints = set p.endpoints ordinal (some (g_gateway.Upstream.Health.observe h o).0);
  }
]

-- What the loop has beside its own variables. `permit` is the permit that was acquired last, and
-- `panicked` tells whether a release of one has panicked.
pub record Served (τ : Type 0) : Type 0 where
  pub plan : Plan
  pub sequence : ℕ
  pub budget : Option RetryBudget
  pub permit : RetryPermit
  pub panicked : Bool
  pub network : τ

-- The transport and the context of the request, on a state of their own.
pub record Transport (τ ε : Type 0) : Type 0 where
  pub send : τ → ℕ → ℕ → τ × Answer ε
  pub get_body : τ → ℕ → Bool
  pub is_cancelled : τ → Bool
  pub drain_response : τ → Answer ε → τ

-- Release of the permit, on the budget that it was acquired from.
unfoldable pub release_served : {τ : Type 0} → Served τ → Served τ
release_served s = elim s.budget [
  | none ↦ record s { panicked = true }
  | some b ↦ elim (g_gateway.Upstream.Budget.release s.permit b) [
    | done permit b' ↦ record s { permit = permit; budget = some b' }
    | panic_invalid ↦ record s { panicked = true }
    | panic_twice permit ↦ record s { permit = permit; panicked = true }
  ]
]

unfoldable pub acquire_served : {τ : Type 0} → Served τ → Served τ × Bool
acquire_served s =
    let (budget, permit, allowed) = plan_acquire_retry s.budget in
    (record s { budget = budget; permit = permit }, allowed)

unfoldable pub select_served :
    {τ : Type 0} → Option HashRequest → Served τ → AttemptSet → Served τ × Option ℕ
select_served request s attempted =
    let (selection, sequence) =
      g_gateway.Upstream.Plan.select_next s.plan s.sequence request (some attempted) in
    (
      record s { sequence = sequence },
      elim selection [
        | selected ordinal fallback ↦ some ordinal
        | no_endpoint ↦ none
        | no_healthy_endpoint ↦ none
      ],
    )

module _ {τ ε : Type 0} (T : Transport τ ε) (find : Errors ε) (policy : RetryPolicy)
    (request : AttemptRequest) (hashed : Option HashRequest) where
  -- The operations that executeAttempts calls.
  abbrev pub serving : Attempting (Served τ) (Answer ε)
  serving = record {
    credit_primary = λ s. record s { budget = plan_credit_primary s.budget };
    select_next = select_served hashed;
    clone =
        λ s ordinal attempt. clone_attempt_request (T.get_body s.network attempt) request attempt;
    round_trip = λ s ordinal attempt. (
      record s { network = (T.send s.network ordinal attempt).0 },
      (T.send s.network ordinal attempt).1,
    );
    retry = λ answer. (classify_attempt find policy answer).retry;
    observe = λ s ordinal answer. record s {
      plan = observe_selection s.plan ordinal (classify_attempt find policy answer).observation;
    };
    cancelled = λ s. T.is_cancelled s.network;
    acquire_retry = acquire_served;
    release_retry = release_served;
    drain = λ s answer. record s { network = T.drain_response s.network answer };
  }
