-- ===== src/Upstream/Fingerprint/Tests.antt =====
-- The fingerprints' theorems at a transport key and at a budget policy.
use g_gateway.Base.{true, false, ◌≡◌, refl, [], ◌∷◌, Bytes, bytes}
use g_gateway.Model.{RetryBudgetPolicy}
use g_gateway.Upstream.Fingerprint.{TransportKey}
use g_gateway.Upstream.Fingerprint.Codes.{
  FitsKey, write_transport_key-injective, budget_bytes-injective,
}

abbrev digest : Bytes
digest =
    0 ∷ 1 ∷ 2 ∷ 3 ∷ 4 ∷ 5 ∷ 6 ∷ 7 ∷ 8 ∷ 9 ∷ 10 ∷ 11 ∷ 12 ∷ 13 ∷ 14 ∷ 15 ∷ 16 ∷ 17 ∷ 18 ∷ 19 ∷ 20
    ∷ 21 ∷ 22 ∷ 23 ∷ 24 ∷ 25 ∷ 26 ∷ 27 ∷ 28 ∷ 29 ∷ 30 ∷ 31 ∷ []

abbrev key : TransportKey
key = record {
  scheme = bytes "https";
  server_name = bytes "a.example";
  protocol = bytes "http2";
  dial_timeout = 1000000000;
  response_header_timeout = 2000000000;
  idle_connection_timeout = 90000000000;
  max_idle_connections = 100;
  max_idle_connections_per_host = 10;
  tls_enabled = true;
  tls_policy_version = 1;
  trust_system = false;
  trust_fingerprint = digest;
  client_fingerprint = digest;
  min_tls_version = 771;
  disable_compression = true;
}

key-FitsKey : FitsKey key
key-FitsKey = record {
  scheme = refl;
  server_name = refl;
  protocol = refl;
  dial_timeout = refl;
  response_header_timeout = refl;
  idle_connection_timeout = refl;
  max_idle_connections = refl;
  max_idle_connections_per_host = refl;
  tls_policy_version = refl;
  trust_fingerprint = refl;
  client_fingerprint = refl;
  min_tls_version = refl;
}

write_transport_key-injective_example : key ≡ key
write_transport_key-injective_example =
    write_transport_key-injective key key key-FitsKey key-FitsKey refl

abbrev policy : RetryBudgetPolicy
policy = record { ratio_per1000 = 200; burst = 300; max_inflight = 5 }

budget_bytes-injective_example : policy ≡ policy
budget_bytes-injective_example =
    budget_bytes-injective policy policy (refl, refl, refl) (refl, refl, refl) refl
