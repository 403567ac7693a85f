-- ===== src/Upstream/Ownership/Tests.antt =====
-- The ownership theorems at a registry that prepares, commits, retires and reaps.
use g_gateway.Base.{
  true, false, ◌≡◌, refl, ap, none, some, List, [], ◌∷◌, ◌++◌, Bytes, bytes, length,
}
use g_gateway.Model.{Upstream, Endpoint, BalancerType}
use g_gateway.Upstream.Fingerprint.{
  TransportKey, BudgetKey, make_budget_key, budget_bytes, big_endian,
}
use g_gateway.Upstream.Registry.{
  is_drained, ResourceRefs, no_refs, Registry, Compilers, new_registry, prepare, candidate,
  plan_size, prepare_plans, prepare_plan, acquire_endpoints, acquire_selection, acquire_transport,
  acquire_endpoint, acquire_retry, acquire_budget, endpoint_valid, track,
}
use g_gateway.Upstream.Registry.Shared.{acquire}
use g_gateway.Upstream.Weights.{
  active_slots, normalize, assign_capped, divisor_from, greatest_common_divisor, left_over, quota,
  sum_from,
}
use g_gateway.Upstream.Wrr.{compile_wrr, compile_active, drain, less, pop_min, push_again}
use g_gateway.Upstream.Registry.Keys.{SelectionKey}
use g_gateway.Upstream.Ownership.{
  dropped, finish_candidate, count_active, new_plan_set, try_acquire, register_retired, release_set,
}
use g_gateway.Upstream.Ownership.Machine.{
  World, Action, preparation, commit, rollback, enter, leave, mark, register, drop_owner, reap, pin,
  unpin, run, run_all, prepared, commit_candidate, enter_set, mark_set, register_set, drop_set,
  leave_set,
}
use g_gateway.Upstream.Ownership.Invariant.{IsOwned, Keeps}
use g_gateway.Upstream.Ownership.Preparing.{Settles, prepare-Settles}
use g_gateway.Upstream.Ownership.Idle.{IsIdle, IsEmptied, reap-IsEmptied}
use g_gateway.Upstream.Ownership.Runs.{new_world, new_registry-IsOwned, run_all-Keeps}

abbrev key : TransportKey
key = record {
  scheme = bytes "http";
  server_name = [];
  protocol = bytes "http1";
  dial_timeout = 1;
  response_header_timeout = 1;
  idle_connection_timeout = 1;
  max_idle_connections = 10;
  max_idle_connections_per_host = 10;
  tls_enabled = false;
  tls_policy_version = 1;
  trust_system = false;
  trust_fingerprint = [];
  client_fingerprint = [];
  min_tls_version = 0;
  disable_compression = true;
}

-- Every upstream has the one transport key but an upstream without endpoints, which does not compile.
abbrev pub tools : Compilers
tools = record {
  parse_url = λ url. some (bytes "http", url);
  sha256 = λ s. s;
  xxhash = λ s. length s;
  transport_key = λ u. elim u.endpoints [ [] ↦ none | e ∷ es ↦ some key ];
  hash_source_valid = λ s. true;
}

abbrev upstream : Bytes → List Endpoint → Upstream
upstream id endpoints = record {
  id = id;
  endpoints = endpoints;
  balancer = record { type = BalancerType.weighted_round_robin; hash_key_sources = [] };
  health = record { active = none; passive = none };
  retry = record {
    max_attempts = 2;
    methods = [];
    retry_on = record {
      connect_failure = true;
      connection_failure = false;
      response_header_timeout = false;
      statuses = [];
    };
    budget = record { ratio_per1000 = 100; burst = 10; max_inflight = 5 };
    total_timeout = 0;
  };
}

abbrev pub good : Upstream
good = upstream (bytes "a") (record { url = bytes "x"; weight = 1 } ∷ [])

abbrev pub bad : Upstream
bad = upstream (bytes "b") []

abbrev pub registry : Registry
registry = record {
  max_retired_snapshots = 8;
  closed = false;
  endpoints = [];
  transports = [];
  selections = [];
  health = [];
  budgets = [];
  allocated = 0;
  generation = 0;
  active_plan_sets = 0;
  live_tunnel_leases = 0;
  retired = [];
}

registry-IsOwned : IsOwned (new_world registry)
unfolding new_registry
registry-IsOwned = new_registry-IsOwned 8 registry refl

abbrev actions : List Action
actions =
    preparation (good ∷ [])
    ∷ preparation (good ∷ bad ∷ [])
    ∷ commit 0
    ∷ enter 0
    ∷ pin key 0
    ∷ mark 0
    ∷ register 0
    ∷ drop_owner 0
    ∷ reap
    ∷ leave 0
    ∷ reap
    ∷ unpin 0
    ∷ rollback 0
    ∷ []

run_all-Keeps_example : Keeps (run_all tools (new_world registry) actions)
run_all-Keeps_example = run_all-Keeps tools (new_world registry) actions registry-IsOwned

prepare-Settles_example : Settles registry (prepare tools registry (good ∷ bad ∷ []))
prepare-Settles_example =
    prepare-Settles tools registry (good ∷ bad ∷ []) registry-IsOwned.balanced.tables

-- The candidate that is committed is used by a request and retired.
abbrev used : List Action
used =
    preparation (good ∷ []) ∷ commit 0 ∷ enter 0 ∷ mark 0 ∷ register 0 ∷ drop_owner 0 ∷ leave 0 ∷ []

abbrev selection : SelectionKey
selection = record { upstream_id = bytes "a"; algorithm = BalancerType.weighted_round_robin }

abbrev budget : BudgetKey
budget = record { upstream_id = bytes "a"; fingerprint = 0 ∷ 100 ∷ 0 ∷ 10 ∷ 0 ∷ 5 ∷ [] }

abbrev full : Registry
full = record registry {
  endpoints = (bytes "a" ++ 0 ∷ bytes "x", record { runtime = 2; refs = 1 }) ∷ [];
  transports = (key, record { runtime = 0; refs = 1 }) ∷ [];
  selections = (selection, record { runtime = 1; refs = 1 }) ∷ [];
  budgets = (budget, record { runtime = 3; refs = 1 }) ∷ [];
  allocated = 4;
}

abbrev owned_refs : ResourceRefs
owned_refs = record {
  endpoint_ids = (bytes "a" ++ 0 ∷ bytes "x") ∷ [];
  transport_keys = key ∷ [];
  selection_keys = selection ∷ [];
  health_keys = [];
  budget_keys = budget ∷ [];
}

abbrev used_world : World
used_world = record {
  registry = record full { retired = 0 ∷ [] };
  candidates = record { owned = no_refs; done = true } ∷ [];
  sets =
      record { owned = owned_refs; refs = 0; phase = dropped; finalized = false; requests = 0 }
      ∷ [];
  leases = [];
}

plan_size-good : plan_size tools good ≡ some (0, 0)
unfolding plan_size active_slots normalize assign_capped divisor_from greatest_common_divisor
    left_over quota sum_from compile_wrr compile_active drain less pop_min push_again
plan_size-good = refl

prepare_plan-good :
    prepare_plan tools good key (registry, no_refs) ≡ ((full, owned_refs), some (0, 0))
unfolding prepare_plan acquire_endpoints acquire_selection acquire_transport acquire_endpoint
    acquire_retry acquire_budget acquire endpoint_valid make_budget_key budget_bytes big_endian
    track
prepare_plan-good = rw plan_size-good refl

prepare-good : prepare tools registry (good ∷ []) ≡ some (candidate full owned_refs)
unfolding prepare prepare_plans
prepare-good =
    rw (prepare_plan-good, prepare_plans) (ap (λ x. some (candidate x.0.0 x.0.1)) prepare_plan-good)

used_world-runs : run_all tools (new_world registry) used ≡ some used_world
unfolding run_all run prepared commit_candidate finish_candidate count_active new_plan_set enter_set
    try_acquire mark_set register_set register_retired drop_set release_set leave_set
used_world-runs = rw (prepare-good, run_all) refl

used_world-IsIdle : IsIdle used_world
used_world-IsIdle = record { candidates = (refl, tt); sets = ((refl, refl), tt); leases = tt }

reap-IsEmptied_example :
    (w' : World) × (run tools used_world reap ≡ some w')
    × IsEmptied w'.registry
    × (is_drained w'.registry ≡ true)
unfolding new_registry
reap-IsEmptied_example =
    reap-IsEmptied tools 8 registry used used_world refl used_world-runs used_world-IsIdle
