-- ===== src/Proxy.antt =====
-- internal/proxy: which requests may be retried (retry.go), and the loop of attempts (attempt.go). What
-- the loop calls is a record of operations on a state of its own: the upstream's plan, the transport
-- and the request's context.

pub mod Attempts
pub mod Retry
pub mod Carried
pub mod Serving
pub mod Tests
use g_gateway.Base.{
  ℕ, zero, suc, ◌+◌, Bool, true, false, not, ◌&&◌, ◌||◌, Option, none, some, List, [], ◌∷◌, ◌++◌,
  ◌==◌, ltb, if◌then◌else◌, Bytes, bytes_eq, any,
}
use g_gateway.Model.{RetryPolicy}
use g_gateway.Upstream.Plan.{AttemptSet, add_attempt}

pub data Body : Type 0 where
  nil no_body replayable once : Body

-- `cancelled` tells whether the context has an error.
pub record AttemptRequest : Type 0 where
  pub method : Bytes
  pub cancelled : Bool
  pub body : Body

abbrev pub replays : Body → Bool
replays nil = true
replays no_body = true
replays replayable = true
replays once = false

-- retryEligible; `to_upper` is strings.ToUpper.
unfoldable pub retry_eligible : (Bytes → Bytes) → Option AttemptRequest → RetryPolicy → Bool
retry_eligible to_upper none policy = false
retry_eligible to_upper (some request) policy =
    if ltb policy.max_attempts 2 || request.cancelled
    then false
    else if not (any (bytes_eq (to_upper request.method)) policy.methods)
    then false
    else replays request.body

pub data Suppressed : Type 0 where
  not_suppressed body_not_replayable request_not_replayable attempt_limit budget
        no_untried_endpoint :
      Suppressed

-- How the loop ends: with the last response or its error, or with one of its own errors. An error of the
-- first selection, whichever it is, is `no_endpoint`; `no_healthy_endpoint` is that of a refused Add.
pub data Finish {ℓ} (ρ : Type ℓ) : Type ℓ where
  no_endpoint no_healthy_endpoint clone_failed exhausted : Finish ρ
  answered : ρ → Finish ρ

-- What the loop calls, on states of σ with responses of ρ. `clone` tells whether the request can be
-- cloned for an attempt, and `retry` is the classifier's decision.
pub record Attempting (σ ρ : Type 0) : Type 0 where
  pub credit_primary : σ → σ
  pub select_next : σ → AttemptSet → σ × Option ℕ
  pub clone : σ → ℕ → ℕ → Bool
  pub round_trip : σ → ℕ → ℕ → σ × ρ
  pub retry : ρ → Bool
  pub observe : σ → ℕ → ρ → σ
  pub cancelled : σ → Bool
  pub acquire_retry : σ → σ × Bool
  pub release_retry : σ → σ
  pub drain : σ → ρ → σ

-- The state of a run: the environment, what the context records of the run, the endpoints that requests
-- went to, and how many permits were acquired and released.
pub record Run (σ : Type 0) : Type 0 where
  pub environment : σ
  pub attempts : ℕ
  pub suppressed : Suppressed
  pub sent : List ℕ
  pub acquired : ℕ
  pub released : ℕ

pub data Next (σ ρ : Type 0) : Type 0 where
  stop : Finish ρ → Run σ → Next σ ρ
  again : ℕ → AttemptSet → Run σ → Next σ ρ

abbrev pub clamp_attempts : ℕ → ℕ
clamp_attempts n = if ltb n 1 then 1 else if ltb 5 n then 5 else n

-- Add on the set: the set afterwards, and what Add returns.
unfoldable pub add_to : AttemptSet → ℕ → AttemptSet × Bool
add_to a ordinal =
    let (after, added) = add_attempt (some a) ordinal in
    (elim after [ none ↦ a | some b ↦ b ], added)

module _ {σ ρ : Type 0} (E : Attempting σ ρ) where
  abbrev pub suppress : Suppressed → Run σ → Run σ
  suppress reason r = record r { suppressed = reason }

  abbrev pub release_permit : Run σ → Run σ
  release_permit r = record r {
    environment = E.release_retry r.environment;
    released = r.released + 1;
  }

  abbrev pub release_if : Bool → Run σ → Run σ
  release_if false r = r
  release_if true r = release_permit r

  -- The attempt that was made is the last one.
  abbrev pub reason : Bool → Bool → Bool → Suppressed → Suppressed
  reason eligible retry last before =
      if not eligible && retry
      then request_not_replayable
      else if last && retry
      then attempt_limit
      else before

  -- What follows an answer.
  unfoldable pub after_answer : ℕ → Bool → ℕ → AttemptSet → ρ → Run σ → Next σ ρ
  after_answer max eligible attempt attempted response r =
      let (acquiring, allowed) = E.acquire_retry r.environment in
      let (selecting, found) = E.select_next acquiring attempted in
      let paid : Run σ = record r { environment = selecting; acquired = r.acquired + 1 } in
      if not eligible || not (E.retry response) || attempt == max || E.cancelled r.environment
      then stop (answered response)
          (suppress (reason eligible (E.retry response) (attempt == max) r.suppressed) r)
      else if not allowed
      then stop (answered response) (suppress budget (record r { environment = acquiring }))
      else elim found [
        | none ↦ stop (answered response) (suppress no_untried_endpoint (release_permit paid))
        | some ordinal ↦
            again ordinal attempted (record paid { environment = E.drain selecting response })
      ]

  -- The body of the loop.
  unfoldable pub attempt_once : ℕ → Bool → ℕ → Bool → ℕ → AttemptSet → Run σ → Next σ ρ
  attempt_once max eligible attempt permit ordinal attempted r =
      let (attempted', added) = add_to attempted ordinal in
      let began : Run σ = record r { attempts = attempt } in
      let (sending, response) = E.round_trip r.environment ordinal attempt in
      let sent : Run σ =
        release_if permit (record began { environment = sending; sent = r.sent ++ ordinal ∷ [] }) in
      let observed : Run σ = record sent {
        environment = E.observe sent.environment ordinal response;
      } in
      if not added
      then stop no_healthy_endpoint (release_if permit r)
      else if not (E.clone r.environment ordinal attempt)
      then stop clone_failed (suppress body_not_replayable (release_if permit began))
      else after_answer max eligible attempt attempted' response observed

  -- The loop, with the attempts that are left.
  unfoldable pub attempts_loop : ℕ → ℕ → Bool → ℕ → Bool → ℕ → AttemptSet → Run σ → Finish ρ × Run σ
  attempts_loop zero max eligible attempt permit ordinal attempted r = (exhausted, r)
  attempts_loop (suc left) max eligible attempt permit ordinal attempted r =
      elim (attempt_once max eligible attempt permit ordinal attempted r) [
        | stop finish r' ↦ (finish, r')
        | again next attempted' r' ↦
            attempts_loop left max eligible (attempt + 1) true next attempted' r'
      ]

  -- executeAttempts, for a request whose eligibility is known.
  unfoldable pub execute_attempts : RetryPolicy → Bool → σ → Finish ρ × Run σ
  execute_attempts policy eligible environment =
      let max = clamp_attempts policy.max_attempts in
      let attempted : AttemptSet = record { ordinals = [] } in
      let (selecting, found) = E.select_next (E.credit_primary environment) attempted in
      let r : Run σ = record {
        environment = selecting;
        attempts = 0;
        suppressed = not_suppressed;
        sent = [];
        acquired = 0;
        released = 0;
      } in
      elim found [
        | none ↦ (no_endpoint, r)
        | some ordinal ↦ attempts_loop max max eligible 1 false ordinal attempted r
      ]
