-- ===== src/Upstream/Fingerprint.antt =====
-- internal/upstream/fingerprint.go, and the transport key of transport.go. SHA-256 is a parameter: the
-- hash of the bytes written to it.
pub mod Codes
pub mod Tests
use g_gateway.Base.{
  ℕ, zero, suc, ◌/◌, ◌%◌, Bool, Option, none, some, List, [], ◌∷◌, ◌++◌, if◌then◌else◌, length,
  Bytes, bytes,
}
use g_gateway.Model.{
  HealthCheckType, HealthPolicy, ActiveHealthPolicy, PassiveHealthPolicy, RetryBudgetPolicy,
}

-- Durations are numbers of nanoseconds, and are not negative.
pub record TransportKey : Type 0 where
  pub scheme : Bytes
  pub server_name : Bytes
  pub protocol : Bytes
  pub dial_timeout : ℕ
  pub response_header_timeout : ℕ
  pub idle_connection_timeout : ℕ
  pub max_idle_connections : ℕ
  pub max_idle_connections_per_host : ℕ
  pub tls_enabled : Bool
  pub tls_policy_version : ℕ
  pub trust_system : Bool
  pub trust_fingerprint : Bytes
  pub client_fingerprint : Bytes
  pub min_tls_version : ℕ
  pub disable_compression : Bool

pub record HealthKey : Type 0 where
  pub endpoint_identity : Bytes
  pub fingerprint : Bytes

pub record BudgetKey : Type 0 where
  pub upstream_id : Bytes
  pub fingerprint : Bytes

-- The low `n` bytes of a number, the highest first: binary.BigEndian.
unfoldable pub big_endian : ℕ → ℕ → Bytes
big_endian zero value = []
big_endian (suc n) value = big_endian n (value / 256) ++ value % 256 ∷ []

abbrev pub write_uint64 : ℕ → Bytes
write_uint64 value = big_endian 8 value

abbrev pub write_uint16 : ℕ → Bytes
write_uint16 value = big_endian 2 value

abbrev pub write_byte : ℕ → Bytes
write_byte value = big_endian 1 value

abbrev pub write_bool : Bool → Bytes
write_bool value = if value then write_byte 1 else write_byte 0

abbrev pub write_string : Bytes → Bytes
write_string value = write_uint64 (length value) ++ value

abbrev pub write_each : List ℕ → Bytes
write_each [] = []
write_each (value ∷ values) = write_uint16 value ++ write_each values

abbrev pub write_statuses : List ℕ → Bytes
write_statuses values = write_uint64 (length values) ++ write_each values

abbrev pub check_type_text : HealthCheckType → Bytes
check_type_text HealthCheckType.http = bytes "http"
check_type_text HealthCheckType.tcp = bytes "tcp"
check_type_text (HealthCheckType.other text) = text

pub write_active : ActiveHealthPolicy → Bytes
write_active p =
    write_string (check_type_text p.type)
    ++ write_uint64 p.timeout
    ++ write_uint64 p.healthy_interval
    ++ write_uint64 p.unhealthy_interval
    ++ write_byte p.healthy_successes
    ++ write_byte p.http_failures
    ++ write_byte p.transport_failures
    ++ write_byte p.timeouts
    ++ write_statuses p.healthy_statuses
    ++ write_statuses p.unhealthy_statuses
    ++ write_string p.path
    ++ write_string p.host

pub write_passive : PassiveHealthPolicy → Bytes
write_passive p =
    write_byte p.http_failures
    ++ write_byte p.transport_failures
    ++ write_byte p.timeouts
    ++ write_statuses p.unhealthy_statuses

-- A policy that may be nil, behind a byte that tells.
abbrev pub write_option {ℓ} : {A : Type ℓ} → (A → Bytes) → Option A → Bytes
write_option write none = write_byte 0
write_option write (some a) = write_byte 1 ++ write a

pub write_transport_key : TransportKey → Bytes
write_transport_key key =
    write_string key.scheme
    ++ write_string key.server_name
    ++ write_string key.protocol
    ++ write_uint64 key.dial_timeout
    ++ write_uint64 key.response_header_timeout
    ++ write_uint64 key.idle_connection_timeout
    ++ write_uint64 key.max_idle_connections
    ++ write_uint64 key.max_idle_connections_per_host
    ++ write_bool key.tls_enabled
    ++ write_byte key.tls_policy_version
    ++ write_bool key.trust_system
    ++ key.trust_fingerprint
    ++ key.client_fingerprint
    ++ write_uint16 key.min_tls_version
    ++ write_bool key.disable_compression

pub health_bytes : HealthPolicy → TransportKey → Bytes
health_bytes policy transport =
    write_string (bytes "gateway/health-key/v2")
    ++ write_option write_active policy.active
    ++ write_option write_passive policy.passive
    ++ write_transport_key transport

unfoldable pub budget_bytes : RetryBudgetPolicy → Bytes
budget_bytes policy =
    write_uint16 policy.ratio_per1000
    ++ write_uint16 policy.burst
    ++ write_uint16 policy.max_inflight

module _ (sha256 : Bytes → Bytes) where
  unfoldable pub make_health_key : Bytes → HealthPolicy → TransportKey → HealthKey
  make_health_key endpoint_identity policy transport = record {
    endpoint_identity = endpoint_identity;
    fingerprint = sha256 (health_bytes policy transport);
  }

  unfoldable pub make_budget_key : Bytes → RetryBudgetPolicy → BudgetKey
  make_budget_key upstream_id policy = record {
    upstream_id = upstream_id;
    fingerprint = sha256 (budget_bytes policy);
  }
