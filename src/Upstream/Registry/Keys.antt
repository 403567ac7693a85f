-- ===== src/Upstream/Registry/Keys.antt =====
-- The keys of the registry's maps, with their equality.
use g_gateway.Base.{
  ◌≡◌, ◌↔◌, Bool, true, false, ◌&&◌, ◌==◌, if◌then◌else◌, not, Bytes, bytes_eq, bytes_eq_iff, arith,
}
use g_gateway.Model.{BalancerType}
use g_gateway.Upstream.Fingerprint.{TransportKey, HealthKey, BudgetKey}
use g_gateway.Upstream.Registry.Shared.{EqKey}

pub record SelectionKey : Type 0 where
  pub upstream_id : Bytes
  pub algorithm : BalancerType

abbrev pub bool_eq : Bool → Bool → Bool
bool_eq a b = if a then b else not b

abbrev balancer_eq : BalancerType → BalancerType → Bool
balancer_eq BalancerType.weighted_round_robin BalancerType.weighted_round_robin = true
balancer_eq BalancerType.consistent_hash BalancerType.consistent_hash = true
balancer_eq (BalancerType.other a) (BalancerType.other b) = bytes_eq a b
balancer_eq _ _ = false

balancer_eq_iff : (a b : BalancerType) → (balancer_eq a b ≡ true) ↔ (a ≡ b)
balancer_eq_iff BalancerType.weighted_round_robin b = ground arith
balancer_eq_iff BalancerType.consistent_hash b = ground arith
balancer_eq_iff (BalancerType.other a) BalancerType.weighted_round_robin = ground arith
balancer_eq_iff (BalancerType.other a) BalancerType.consistent_hash = ground arith
balancer_eq_iff (BalancerType.other a) (BalancerType.other b) = ground (arith, bytes_eq_iff a b)

pub identities : EqKey Bytes
identities = record { eq = bytes_eq; eq_iff = bytes_eq_iff }

pub selection_keys : EqKey SelectionKey
selection_keys = record {
  eq = λ a b. bytes_eq a.upstream_id b.upstream_id && balancer_eq a.algorithm b.algorithm;
  eq_iff = λ a b.
      ground
        (arith, bytes_eq_iff a.upstream_id b.upstream_id, balancer_eq_iff a.algorithm b.algorithm);
}

pub health_keys : EqKey HealthKey
health_keys = record {
  eq = λ a b.
      bytes_eq a.endpoint_identity b.endpoint_identity && bytes_eq a.fingerprint b.fingerprint;
  eq_iff = λ a b. ground (
    arith,
    bytes_eq_iff a.endpoint_identity b.endpoint_identity,
    bytes_eq_iff a.fingerprint b.fingerprint,
  );
}

pub budget_keys : EqKey BudgetKey
budget_keys = record {
  eq = λ a b. bytes_eq a.upstream_id b.upstream_id && bytes_eq a.fingerprint b.fingerprint;
  eq_iff = λ a b.
      ground
        (arith, bytes_eq_iff a.upstream_id b.upstream_id, bytes_eq_iff a.fingerprint b.fingerprint);
}

abbrev transport_key_eq : TransportKey → TransportKey → Bool
transport_key_eq a b =
    bytes_eq a.scheme b.scheme
    && bytes_eq a.server_name b.server_name
    && bytes_eq a.protocol b.protocol
    && (a.dial_timeout == b.dial_timeout)
    && (a.response_header_timeout == b.response_header_timeout)
    && (a.idle_connection_timeout == b.idle_connection_timeout)
    && (a.max_idle_connections == b.max_idle_connections)
    && (a.max_idle_connections_per_host == b.max_idle_connections_per_host)
    && bool_eq a.tls_enabled b.tls_enabled
    && (a.tls_policy_version == b.tls_policy_version)
    && bool_eq a.trust_system b.trust_system
    && bytes_eq a.trust_fingerprint b.trust_fingerprint
    && bytes_eq a.client_fingerprint b.client_fingerprint
    && (a.min_tls_version == b.min_tls_version)
    && bool_eq a.disable_compression b.disable_compression

pub transport_keys : EqKey TransportKey
transport_keys = record {
  eq = transport_key_eq;
  eq_iff = λ a b. ground (
    arith,
    bytes_eq_iff a.scheme b.scheme,
    bytes_eq_iff a.server_name b.server_name,
    bytes_eq_iff a.protocol b.protocol,
    bytes_eq_iff a.trust_fingerprint b.trust_fingerprint,
    bytes_eq_iff a.client_fingerprint b.client_fingerprint,
  );
}
