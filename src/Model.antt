-- ===== src/Model.antt =====
-- internal/model/resources.go: the resources that the modelled components read. A Go string type
-- with named constants is a data type with a constructor for each constant and `other` for the
-- rest; durations are numbers of nanoseconds.
use g_gateway.Base.{ℕ, Bool, List, Option, Bytes}

pub data PredicateOperator : Type 0 where
  exists not_exists equals not_equals one_of : PredicateOperator
  other : Bytes → PredicateOperator

pub data BalancerType : Type 0 where
  weighted_round_robin consistent_hash : BalancerType
  other : Bytes → BalancerType

pub data HealthCheckType : Type 0 where
  http tcp : HealthCheckType
  other : Bytes → HealthCheckType

pub record Predicate : Type 0 where
  pub name : Bytes
  pub operator : PredicateOperator
  pub values : List Bytes

pub record RouteMatch : Type 0 where
  pub hosts : List Bytes
  pub path : Bytes
  pub methods : List Bytes
  pub headers : List Predicate
  pub queries : List Predicate

pub record ActiveHealthPolicy : Type 0 where
  pub type : HealthCheckType
  pub timeout : ℕ
  pub healthy_interval : ℕ
  pub unhealthy_interval : ℕ
  pub healthy_successes : ℕ
  pub http_failures : ℕ
  pub transport_failures : ℕ
  pub timeouts : ℕ
  pub healthy_statuses : List ℕ
  pub unhealthy_statuses : List ℕ
  pub path : Bytes
  pub host : Bytes

pub record PassiveHealthPolicy : Type 0 where
  pub http_failures : ℕ
  pub transport_failures : ℕ
  pub timeouts : ℕ
  pub unhealthy_statuses : List ℕ

pub record HealthPolicy : Type 0 where
  pub active : Option ActiveHealthPolicy
  pub passive : Option PassiveHealthPolicy

pub record RetryOnPolicy : Type 0 where
  pub connect_failure : Bool
  pub connection_failure : Bool
  pub response_header_timeout : Bool
  pub statuses : List ℕ

pub record RetryBudgetPolicy : Type 0 where
  pub ratio_per1000 : ℕ
  pub burst : ℕ
  pub max_inflight : ℕ

pub record RetryPolicy : Type 0 where
  pub max_attempts : ℕ
  pub methods : List Bytes
  pub retry_on : RetryOnPolicy
  pub budget : RetryBudgetPolicy
  pub total_timeout : ℕ

-- HashSourceType, with the source's name or value.
pub record HashKeySource : Type 0 where
  pub type : Bytes
  pub name : Bytes
  pub value : Bytes

pub record BalancerPolicy : Type 0 where
  pub type : BalancerType
  pub hash_key_sources : List HashKeySource

pub record Endpoint : Type 0 where
  pub url : Bytes
  pub weight : ℕ

-- Without its transport configuration, which only the profile compiler reads.
pub record Upstream : Type 0 where
  pub id : Bytes
  pub endpoints : List Endpoint
  pub balancer : BalancerPolicy
  pub health : HealthPolicy
  pub retry : RetryPolicy
