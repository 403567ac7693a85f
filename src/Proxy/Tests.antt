-- ===== src/Proxy/Tests.antt =====
-- Runs of the loop of attempts, and its theorem at one of them.
use g_gateway.Base.{
  ℕ, ◌+◌, ◌≤◌, ◌≡◌, refl, true, false, none, some, [], ◌∷◌, ◌==◌, ltb, if◌then◌else◌, length, bytes,
}
use g_gateway.Model.{RetryPolicy}
use g_gateway.Upstream.Plan.{add_attempt, contains_attempt}
use g_gateway.Proxy.{
  Body, retry_eligible, answered, Attempting, not_suppressed, attempt_limit, after_answer,
  attempt_once, attempts_loop, execute_attempts, add_to, clamp_attempts,
}
use g_gateway.Proxy.Attempts.{IsFinished, execute_attempts-IsFinished}

abbrev policy : ℕ → RetryPolicy
policy n = record {
  max_attempts = n;
  methods = bytes "GET" ∷ [];
  retry_on = record {
    connect_failure = true;
    connection_failure = true;
    response_header_timeout = true;
    statuses = 503 ∷ [];
  };
  budget = record { ratio_per1000 = 100; burst = 10; max_inflight = 5 };
  total_timeout = 0;
}

-- Three endpoints, chosen in turn; the state counts the choices. The last one answers with 200.
abbrev three : Attempting ℕ ℕ
three = record {
  credit_primary = λ s. s;
  select_next = λ s a. (s + 1, if ltb s 3 then some s else none);
  clone = λ s ordinal attempt. true;
  round_trip = λ s ordinal attempt. (s, if ordinal == 2 then 200 else 503);
  retry = λ status. status == 503;
  observe = λ s ordinal status. s;
  cancelled = λ s. false;
  acquire_retry = λ s. (s, true);
  release_retry = λ s. s;
  drain = λ s status. s;
}

-- The third endpoint answers; and the limit of two attempts stops the run before that.
answered_run : execute_attempts three (policy 4) true 0 ≡ (
  answered 200,
  record {
    environment = 3;
    attempts = 3;
    suppressed = not_suppressed;
    sent = 0 ∷ 1 ∷ 2 ∷ [];
    acquired = 2;
    released = 2;
  },
)
unfolding execute_attempts attempts_loop attempt_once after_answer add_to add_attempt
    contains_attempt
answered_run = refl

limited_run : execute_attempts three (policy 2) true 0 ≡ (
  answered 503,
  record {
    environment = 2;
    attempts = 2;
    suppressed = attempt_limit;
    sent = 0 ∷ 1 ∷ [];
    acquired = 1;
    released = 1;
  },
)
unfolding execute_attempts attempts_loop attempt_once after_answer add_to add_attempt
    contains_attempt
limited_run = refl

eligible_get :
    retry_eligible
      (λ s. s)
      (some (record { method = bytes "GET"; cancelled = false; body = Body.no_body }))
      (policy 2)
    ≡ true
unfolding retry_eligible
eligible_get = refl

execute_attempts-IsFinished_example :
    let (finish, r) = execute_attempts three (policy 4) true 0 in
    IsFinished finish r
    × (length r.sent ≤ (if true then clamp_attempts 4 else 1))
    × (length r.sent ≤ 5)
execute_attempts-IsFinished_example = execute_attempts-IsFinished three (policy 4) true 0
