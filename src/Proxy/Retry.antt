-- ===== src/Proxy/Retry.antt =====
-- internal/proxy/retry.go: the classification of an attempt and the cloning of its request; and
-- attemptOutcome of route_transport.go.
use g_gateway.Base.{ℕ, ◌%◌, Bool, true, false, ltb, if◌then◌else◌, contains, u16_mod, Bytes, bytes}
use g_gateway.Model.{RetryPolicy}
use g_gateway.Upstream.Health.{
  Observation, passive, OutcomeKind, success, transport_failure, timeout, neutral,
}
use g_gateway.Proxy.{Body, AttemptRequest}

pub data RetryReason : Type 0 where
  none connect_failure connection_failure response_header_timeout status : RetryReason

pub record AttemptDecision : Type 0 where
  pub retry : Bool
  pub reason : RetryReason
  pub observation : Observation

-- What errors.As, errors.Is and IsTLSFailure find in an error: a net.Error that timed out, a failure of
-- TLS, a net.OpError whose Op is "dial", and io.EOF, io.ErrUnexpectedEOF, ECONNRESET or EPIPE.
pub record Errors (ε : Type 0) : Type 0 where
  pub timed_out : ε → Bool
  pub tls_failure : ε → Bool
  pub dial_failure : ε → Bool
  pub closed_connection : ε → Bool

-- What RoundTrip returns: a response by its status, an error, or neither.
pub data Answer (ε : Type 0) : Type 0 where
  responded : ℕ → Answer ε
  failed : ε → Answer ε
  nothing : Answer ε

abbrev decide : Bool → RetryReason → OutcomeKind → ℕ → AttemptDecision
decide retry reason kind code = record {
  retry = retry;
  reason = reason;
  observation = record { source = passive; kind = kind; status = code };
}

unfoldable pub classify_attempt : {ε : Type 0} → Errors ε → RetryPolicy → Answer ε → AttemptDecision
classify_attempt find policy (failed err) =
    if find.timed_out err
    then decide policy.retry_on.response_header_timeout RetryReason.response_header_timeout timeout
        0
    else if find.tls_failure err
    then decide policy.retry_on.connection_failure RetryReason.connection_failure transport_failure
        0
    else if find.dial_failure err
    then decide policy.retry_on.connect_failure RetryReason.connect_failure transport_failure 0
    else if find.closed_connection err
    then decide policy.retry_on.connection_failure RetryReason.connection_failure transport_failure
        0
    else decide false RetryReason.none transport_failure 0
classify_attempt find policy nothing = decide false RetryReason.none neutral 0
classify_attempt find policy (responded code) =
    if contains policy.retry_on.statuses (code % u16_mod)
    then decide true RetryReason.status success code
    else decide false RetryReason.none success code

abbrev is_timeout : OutcomeKind → Bool
is_timeout timeout = true
is_timeout _ = false

unfoldable pub attempt_outcome : AttemptDecision → Bool → Bytes
attempt_outcome d has_error =
    if has_error
    then (if is_timeout d.observation.kind then bytes "timeout" else bytes "transport_failure")
    else if d.retry
    then bytes "retryable_status"
    else bytes "success"

-- Whether cloneAttemptRequest succeeds, for a request and a target that are there; `get_body` tells
-- whether GetBody does.
unfoldable pub clone_attempt_request : Bool → AttemptRequest → ℕ → Bool
clone_attempt_request get_body request attempt =
    if ltb 1 attempt
    then (elim request.body [
      | Body.nil ↦ true
      | Body.no_body ↦ true
      | Body.replayable ↦ get_body
      | Body.once ↦ false
    ])
    else true
