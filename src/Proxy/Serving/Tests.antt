-- ===== src/Proxy/Serving/Tests.antt =====
-- A run of the loop of attempts on a plan of two endpoints with a retry budget.
use g_gateway.Base.{
  ℕ, ◌+◌, ◌≡◌, ◌<◌, refl, true, false, none, some, [], ◌∷◌, arith, ◌==◌, length, bytes, All,
  if◌then◌else◌,
}
use g_gateway.Model.{BalancerType, RetryPolicy}
use g_gateway.Upstream.Budget.{
  RetryBudget, credit_primary, acquire, release, return_slot, reserve_slot, pay_credit,
  record_max_observed,
}
use g_gateway.Upstream.Budget.Methods.{IsValid}
use g_gateway.Upstream.Plan.{Plan, add_attempt, contains_attempt, select_next, endpoint_selectable}
use g_gateway.Upstream.Wrr
use g_gateway.Proxy.{
  AttemptRequest, Body, execute_attempts, attempts_loop, attempt_once, after_answer, add_to,
}
use g_gateway.Proxy.Retry.{Errors, responded, failed, classify_attempt, clone_attempt_request}
use g_gateway.Proxy.Serving.{
  Served, Transport, serving, plan_credit_primary, plan_acquire_retry, observe_selection,
  release_served, acquire_served, select_served,
}
use g_gateway.Proxy.Serving.Spending.{Spent, execute_attempts-Spent}

-- An error is a number: 0 timed out, 1 is a failure of TLS, 2 is a failure to dial.
abbrev errors : Errors ℕ
errors = record {
  timed_out = λ e. e == 0;
  tls_failure = λ e. e == 1;
  dial_failure = λ e. e == 2;
  closed_connection = λ e. e == 3;
}

abbrev policy : RetryPolicy
policy = record {
  max_attempts = 3;
  methods = bytes "GET" ∷ [];
  retry_on = record {
    connect_failure = true;
    connection_failure = false;
    response_header_timeout = true;
    statuses = 503 ∷ [];
  };
  budget = record { ratio_per1000 = 100; burst = 10; max_inflight = 5 };
  total_timeout = 0;
}

dial_decision : (classify_attempt errors policy (failed 2)).retry ≡ true
unfolding classify_attempt
dial_decision = refl

abbrev budget : RetryBudget
budget = record {
  ratio = 100;
  max_credits = 10000;
  max_inflight = 5;
  credits = 2500;
  inflight = 1;
  max_observed = 2;
}

budget-IsValid : IsValid budget
budget-IsValid = record {
  word_credits = omega arith;
  word_inflight = omega arith;
  credits_bound = omega arith;
  inflight_bound = omega arith;
  observed_bound = omega arith;
}

abbrev two : Plan
two = record {
  algorithm = BalancerType.weighted_round_robin;
  endpoints = none ∷ none ∷ [];
  has_transport = true;
  wrr = record { schedule = 0 ∷ 1 ∷ []; direct = 0 };
  continuum = record { hashes = []; indexes = []; direct = 0 };
  hash_key = λ r. (0, false);
}

-- The first endpoint cannot be dialled, and the second one answers; the state counts the requests.
abbrev transport : Transport ℕ ℕ
transport = record {
  send = λ n ordinal attempt. (n + 1, if ordinal == 0 then failed 2 else responded 200);
  get_body = λ n attempt. true;
  is_cancelled = λ n. false;
  drain_response = λ n answer. n;
}

abbrev start : Served ℕ
start = record {
  plan = two;
  sequence = 0;
  budget = some budget;
  permit = record { budget = false; released = false };
  panicked = false;
  network = 0;
}

abbrev request : AttemptRequest
request = record { method = bytes "GET"; cancelled = false; body = Body.no_body }

execute_attempts-Spent_example :
    let r = (execute_attempts (serving transport errors policy request none) policy true start).1 in
    (r.environment.panicked ≡ false)
    × All (λ o. o < 2) r.sent
    × Spent (some budget) r.environment.budget (length r.sent)
execute_attempts-Spent_example =
    execute_attempts-Spent transport errors policy request none true start budget-IsValid refl

-- The retry goes to the other endpoint, and costs a credit unit.
served_run :
    let r = (execute_attempts (serving transport errors policy request none) policy true start).1 in
    (r.sent ≡ 0 ∷ 1 ∷ []) × (r.environment.budget ≡ some (record budget { credits = 1600 }))
unfolding execute_attempts attempts_loop attempt_once after_answer add_to add_attempt
    contains_attempt classify_attempt clone_attempt_request plan_credit_primary plan_acquire_retry
    observe_selection release_served acquire_served select_served credit_primary acquire release
    return_slot reserve_slot pay_credit record_max_observed select_next endpoint_selectable
    Wrr.select_next Wrr.scan Wrr.next_ticket
served_run = (refl, refl)
