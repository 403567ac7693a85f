-- ===== src/Upstream/Registry.antt =====
-- internal/upstream/registry.go: the shared runtimes and their reference counts. A runtime is the
-- number of its allocation, and a panic is `none`. What is counted for telemetry alone, the statistics
-- of a preparation and of a cleanup, is left out. The check of Prepare under the lock is the second of
-- two equal ones.
pub mod Shared
pub mod Keys
pub mod Gains
pub mod Losses
use g_gateway.Base.{
  ℕ, ◌+◌, ◌-◌, Bool, true, false, not, ◌&&◌, ◌||◌, Option, none, some, List, [], ◌∷◌, ◌++◌, map,
  ◌==◌, if◌then◌else◌, ltb, leb, length, Bytes, bytes, bytes_eq,
}
use g_gateway.Model.{
  Upstream, Endpoint, BalancerType, HashKeySource, HealthPolicy, RetryBudgetPolicy,
  ActiveHealthPolicy,
}
use g_gateway.Upstream.Weights.{WeightedEndpoint}
use g_gateway.Upstream.Wrr
use g_gateway.Upstream.Chash
use g_gateway.Upstream.Fingerprint.{
  TransportKey, HealthKey, BudgetKey, make_health_key, make_budget_key,
}
use g_gateway.Upstream.Registry.Shared.{Table, Entry, find, acquire, release_all}
use g_gateway.Upstream.Registry.Keys.{
  SelectionKey, identities, transport_keys, selection_keys, health_keys, budget_keys,
}

pub record ResourceRefs : Type 0 where
  pub endpoint_ids : List Bytes
  pub transport_keys : List TransportKey
  pub selection_keys : List SelectionKey
  pub health_keys : List HealthKey
  pub budget_keys : List BudgetKey

abbrev pub no_refs : ResourceRefs
no_refs = record {
  endpoint_ids = [];
  transport_keys = [];
  selection_keys = [];
  health_keys = [];
  budget_keys = [];
}

-- `retired` holds the numbers of the retired plan sets; `allocated` is the next runtime's number.
pub record Registry : Type 0 where
  pub max_retired_snapshots : ℕ
  pub closed : Bool
  pub endpoints : Table Bytes
  pub transports : Table TransportKey
  pub selections : Table SelectionKey
  pub health : Table HealthKey
  pub budgets : Table BudgetKey
  pub allocated : ℕ
  pub generation : ℕ
  pub active_plan_sets : ℕ
  pub live_tunnel_leases : ℕ
  pub retired : List ℕ

-- NewRegistry: `none` where the bound on retired snapshots is out of range.
unfoldable pub new_registry : ℕ → Option Registry
new_registry max_retired_snapshots =
    if ltb max_retired_snapshots 1 || ltb 1024 max_retired_snapshots
    then none
    else some (record {
      max_retired_snapshots = max_retired_snapshots;
      closed = false;
      endpoints = [];
      transports = [];
      selections = [];
      health = [];
      budgets = [];
      allocated = 0;
      generation = 0;
      active_plan_sets = 0;
      live_tunnel_leases = 0;
      retired = [];
    })

-- A registry with the references that one preparation has acquired so far.
abbrev pub Transaction : Type 0
Transaction = Registry × ResourceRefs

unfoldable pub acquire_transport : TransportKey → Transaction → Transaction
acquire_transport key (r, owned) = (
  record r {
    transports = (acquire Keys.transport_keys r.transports key r.allocated).0;
    allocated = r.allocated + 1;
  },
  record owned { transport_keys = owned.transport_keys ++ key ∷ [] },
)

unfoldable pub acquire_selection : SelectionKey → Transaction → Transaction
acquire_selection key (r, owned) = (
  record r {
    selections = (acquire Keys.selection_keys r.selections key r.allocated).0;
    allocated = r.allocated + 1;
  },
  record owned { selection_keys = owned.selection_keys ++ key ∷ [] },
)

unfoldable pub acquire_endpoint : Bytes → Transaction → Transaction
acquire_endpoint identity (r, owned) = (
  record r {
    endpoints = (acquire identities r.endpoints identity r.allocated).0;
    allocated = r.allocated + 1;
  },
  record owned { endpoint_ids = owned.endpoint_ids ++ identity ∷ [] },
)

-- A tracker that is made takes the next generation.
unfoldable pub acquire_health : HealthKey → Transaction → Transaction
acquire_health key (r, owned) =
    let (table, entry, made) = acquire Keys.health_keys r.health key r.allocated in
    (
      record r {
        health = table;
        allocated = r.allocated + 1;
        generation = if made then r.generation + 1 else r.generation;
      },
      record owned { health_keys = owned.health_keys ++ key ∷ [] },
    )

unfoldable pub acquire_budget : BudgetKey → Transaction → Transaction
acquire_budget key (r, owned) = (
  record r {
    budgets = (acquire Keys.budget_keys r.budgets key r.allocated).0;
    allocated = r.allocated + 1;
  },
  record owned { budget_keys = owned.budget_keys ++ key ∷ [] },
)

abbrev pub endpoint_identity : Bytes → Bytes → Bytes
endpoint_identity upstream_id url = upstream_id ++ 0 ∷ url

abbrev is_some {ℓ} : {A : Type ℓ} → Option A → Bool
is_some none = false
is_some (some a) = true

-- url.Parse (the scheme and the host), SHA-256, xxhash, and the parts of the package that have modules
-- of their own in it: compileTransportProfile with makeTransportKey (profile.go, transport.go), and
-- normalizeHashSource (config.go), by whether and with what they succeed.
pub record Compilers : Type 0 where
  pub parse_url : Bytes → Option (Bytes × Bytes)
  pub sha256 : Bytes → Bytes
  pub xxhash : Bytes → ℕ
  pub transport_key : Upstream → Option TransportKey
  pub hash_source_valid : HashKeySource → Bool

abbrev pub max_hash_key_sources : ℕ
max_hash_key_sources = 8

abbrev pub max_snapshot_wrr_slots : ℕ
max_snapshot_wrr_slots = 8000000

abbrev pub max_snapshot_hash_points : ℕ
max_snapshot_hash_points = 8000000

module _ (lib : Compilers) where
  -- newEndpointRuntime: whether it succeeds.
  unfoldable pub endpoint_valid : Bytes → Bool
  endpoint_valid url = elim (lib.parse_url url) [
    | none ↦ false
    | some (scheme, host) ↦
        (bytes_eq scheme (bytes "http") || bytes_eq scheme (bytes "https"))
        && not (bytes_eq host [])
  ]

  -- compileHashKey: whether it succeeds.
  unfoldable pub hash_key_valid : List HashKeySource → Bool
  hash_key_valid sources =
      not (length sources == 0)
      && leb (length sources) max_hash_key_sources
      && g_gateway.Base.all lib.hash_source_valid sources

  -- The tracker of an endpoint of positive weight, where the upstream has active checks.
  unfoldable pub track : Upstream → TransportKey → Bytes → ℕ → Transaction → Transaction
  track u key identity weight t =
      if not (weight == 0) && is_some u.health.active
      then acquire_health (make_health_key lib.sha256 identity u.health key) t
      else t

  -- The loop over the endpoints. It stops at one whose URL does not parse and that has no runtime yet.
  unfoldable pub acquire_endpoints :
      Upstream → TransportKey → List Endpoint → Transaction → Transaction × Bool
  acquire_endpoints u key [] t = (t, true)
  acquire_endpoints u key (e ∷ es) t =
      let identity = endpoint_identity u.id e.url in
      let known = is_some (find identities t.0.endpoints identity) in
      let rest =
        acquire_endpoints u key es (track u key identity e.weight (acquire_endpoint identity t)) in
      if known || endpoint_valid e.url then rest else (t, false)

  unfoldable pub acquire_retry : Upstream → Transaction → Transaction
  acquire_retry u t =
      if not (u.retry.budget.burst == 0) && not (u.retry.budget.max_inflight == 0)
      then acquire_budget (make_budget_key lib.sha256 u.id u.retry.budget) t
      else t

  -- The endpoints of positive weight, which stand in the plan.
  abbrev pub weighted : Bytes → List Endpoint → List WeightedEndpoint
  weighted id [] = []
  weighted id (e ∷ es) =
      let rest = weighted id es in
      if e.weight == 0
      then rest
      else record { identity = endpoint_identity id e.url; weight = e.weight } ∷ rest

  -- The number of slots and of points of the plan's selector, or `none` where it does not compile.
  unfoldable pub plan_size : Upstream → Option (ℕ × ℕ)
  plan_size u = elim u.balancer.type [
    | BalancerType.weighted_round_robin ↦
        elim (g_gateway.Upstream.Wrr.compile_wrr (weighted u.id u.endpoints) true) [
          | some (g_gateway.Upstream.Wrr.Compiled.ok s) ↦ some (length s.schedule, 0)
          | some (g_gateway.Upstream.Wrr.Compiled.err e) ↦ none
          | none ↦ none
        ]
    | BalancerType.consistent_hash ↦
        if hash_key_valid u.balancer.hash_key_sources
        then (elim (g_gateway.Upstream.Chash.compile_continuum lib.xxhash
            (weighted u.id u.endpoints)) [
              | g_gateway.Upstream.Chash.Compiled.ok c ↦ some (0, length c.hashes)
              | g_gateway.Upstream.Chash.Compiled.err e ↦ none
            ])
        else none
    | BalancerType.other name ↦ none
  ]

  -- preparePlanLocked.
  unfoldable pub prepare_plan : Upstream → TransportKey → Transaction → Transaction × Option (ℕ × ℕ)
  prepare_plan u key t =
      let selection : SelectionKey = record { upstream_id = u.id; algorithm = u.balancer.type } in
      let (t', ok) =
        acquire_endpoints u key u.endpoints
          (acquire_selection selection (acquire_transport key t)) in
      if ok then (acquire_retry u t', plan_size u) else (t', none)

  -- The loop of Prepare, with the slots and the points so far. `false` is an error.
  unfoldable pub prepare_plans : List Upstream → ℕ → ℕ → Transaction → Transaction × Bool
  prepare_plans [] slots points t = (t, true)
  prepare_plans (u ∷ us) slots points t = elim (lib.transport_key u) [
    | none ↦ (t, false)
    | some key ↦
        let (t', size) = prepare_plan u key t in
        elim size [
          | none ↦ (t', false)
          | some (s, p) ↦
              if ltb max_snapshot_wrr_slots (slots + s) || ltb max_snapshot_hash_points (points + p)
              then (t', false)
              else prepare_plans us (slots + s) (points + p) t'
        ]
  ]

-- releaseRefsLocked: the registry, and the runtimes of the transports to close.
unfoldable pub release_refs : Registry → ResourceRefs → Option (Registry × List ℕ)
release_refs r owned = elim (release_all identities r.endpoints owned.endpoint_ids) [
  | none ↦ none
  | some (endpoints, _) ↦ elim (release_all Keys.transport_keys r.transports owned.transport_keys) [
    | none ↦ none
    | some (transports, closing) ↦
        elim (release_all Keys.selection_keys r.selections owned.selection_keys) [
          | none ↦ none
          | some (selections, _) ↦ elim (release_all Keys.health_keys r.health owned.health_keys) [
            | none ↦ none
            | some (health, _) ↦ elim (release_all Keys.budget_keys r.budgets owned.budget_keys) [
              | none ↦ none
              | some (budgets, _) ↦ some (
                record r {
                  endpoints = endpoints;
                  transports = transports;
                  selections = selections;
                  health = health;
                  budgets = budgets;
                },
                closing,
              )
            ]
          ]
        ]
  ]
]

pub data Prepared : Type 0 where
  refused : Prepared
  rolled_back : Registry → Prepared
  candidate : Registry → ResourceRefs → Prepared

-- The part of Prepare under the lock, for normalised upstreams.
module _ (lib : Compilers) where
  unfoldable pub prepare : Registry → List Upstream → Option Prepared
  prepare r upstreams =
      if r.closed || leb r.max_retired_snapshots (length r.retired)
      then some refused
      else let ((r', owned), ok) = prepare_plans lib upstreams 0 0 (r, no_refs) in
        if ok
        then some (candidate r' owned)
        else (elim (release_refs r' owned) [ none ↦ none | some (r'', _) ↦ some (rolled_back r'') ])

-- The tables of the registry are empty: a part of what Close waits for.
unfoldable pub is_drained : Registry → Bool
is_drained r =
    length r.endpoints == 0
    && length r.transports == 0
    && length r.selections == 0
    && length r.health == 0
    && length r.budgets == 0
    && r.active_plan_sets == 0
    && length r.retired == 0
    && r.live_tunnel_leases == 0
