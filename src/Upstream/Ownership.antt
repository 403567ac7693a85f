-- ===== src/Upstream/Ownership.antt =====
-- Who owns the registry's runtimes: the candidates of registry.go, the plan sets and the tunnel leases
-- of plan.go, and the reaper of reaper.go. A method that takes the registry's mutex is one step. A plan
-- set is known by its number in the list of all of them; the counter of references is not modelled as
-- wrapping at 2^63. A panic is `none`.
pub mod Machine
pub mod Balance
pub mod Invariant
pub mod Preparing
pub mod Reaping
pub mod Leases
pub mod Runs
pub mod Sweeping
pub mod Waiting
pub mod Tidy
pub mod Owners
pub mod Emptied
pub mod Idle
pub mod Tests
use g_gateway.Base.{
  ℕ, suc, ◌+◌, ◌-◌, Bool, true, false, not, ◌&&◌, ◌||◌, Option, none, some, List, [], ◌∷◌, ◌++◌,
  ◌==◌, if◌then◌else◌, get_elem?, set, length,
}
use g_gateway.Model.{Upstream}
use g_gateway.Upstream.Fingerprint.{TransportKey}
use g_gateway.Upstream.Registry.Shared.{Table, Entry, find, acquire, release}
use g_gateway.Upstream.Registry.Keys.{transport_keys}
use g_gateway.Upstream.Registry.{ResourceRefs, no_refs, Registry, Compilers, release_refs}

pub record Candidate : Type 0 where
  pub owned : ResourceRefs
  pub done : Bool

-- How far Retire has come: it marks the set, registers it, and drops the owner's reference.
pub data Phase : Type 0 where
  active marked registered dropped : Phase

-- `requests` is the number of acquired references that are not released yet.
pub record PlanSet : Type 0 where
  pub owned : ResourceRefs
  pub refs : ℕ
  pub phase : Phase
  pub finalized : Bool
  pub requests : ℕ

pub record TunnelLease : Type 0 where
  pub key : TransportKey
  pub runtime : ℕ
  pub released : Bool

-- TryAcquire: `none` is false.
unfoldable pub try_acquire : PlanSet → Option PlanSet
try_acquire s =
    if s.refs == 0 then none else some (record s { refs = s.refs + 1; requests = s.requests + 1 })

-- Release drops a reference; the callers' count is theirs.
unfoldable pub release_set : PlanSet → Option PlanSet
release_set s = if s.refs == 0 then none else some (record s { refs = s.refs - 1 })

-- Commit's new plan set, and the registry after it.
unfoldable pub new_plan_set : ResourceRefs → PlanSet
new_plan_set owned = record {
  owned = owned;
  refs = 1;
  phase = active;
  finalized = false;
  requests = 0;
}

unfoldable pub count_active : Registry → Registry
count_active r = record r { active_plan_sets = r.active_plan_sets + 1 }

unfoldable pub finish_candidate : Candidate → Candidate
finish_candidate c = record c { done = true; owned = no_refs }

unfoldable pub register_retired : Registry → ℕ → Option Registry
register_retired r id =
    if r.active_plan_sets == 0
    then none
    else some
        (record r { active_plan_sets = r.active_plan_sets - 1; retired = r.retired ++ id ∷ [] })

-- AcquireTunnelLease under the mutex: `none` is ErrNoEndpoint.
unfoldable pub acquire_lease : Registry → TransportKey → ℕ → Option Registry
acquire_lease r key runtime = elim (find transport_keys r.transports key) [
  | none ↦ none
  | some e ↦
      if not (e.runtime == runtime) || e.refs == 0
      then none
      else some (record r {
        transports = (acquire transport_keys r.transports key runtime).0;
        live_tunnel_leases = r.live_tunnel_leases + 1;
      })
]

-- Release of a lease that is not released: the registry, and the runtime to close.
unfoldable pub release_lease : Registry → TransportKey → ℕ → Option (Registry × Option ℕ)
release_lease r key runtime = elim (find transport_keys r.transports key) [
  | none ↦ none
  | some e ↦
      if not (e.runtime == runtime) || e.refs == 0 || r.live_tunnel_leases == 0
      then none
      else (elim (release transport_keys r.transports key) [
        | none ↦ none
        | some (transports, closing) ↦ some (
          record r { transports = transports; live_tunnel_leases = r.live_tunnel_leases - 1 },
          closing,
        )
      ])
]

-- The first loop of reapNow: the survivors, the finalised sets, and all sets after it.
unfoldable pub sweep : List ℕ → List PlanSet → List ℕ × List ℕ × List PlanSet
sweep [] sets = ([], [], sets)
sweep (id ∷ ids) sets = elim (get_elem? sets id) [
  | none ↦ sweep ids sets
  | some s ↦
      let (kept, finalized, sets') = sweep ids sets in
      let (kept', finalized', sets'') = sweep ids (set sets id (record s { finalized = true })) in
      if not (s.refs == 0) || s.finalized
      then (id ∷ kept, finalized, sets')
      else (kept', id ∷ finalized', sets'')
]

-- The second loop of reapNow: each finalised set releases what it owns, and owns nothing after that.
unfoldable pub release_sets : List ℕ → Registry → List PlanSet → Option (Registry × List PlanSet)
release_sets [] r sets = some (r, sets)
release_sets (id ∷ ids) r sets = elim (get_elem? sets id) [
  | none ↦ release_sets ids r sets
  | some s ↦ elim (release_refs r s.owned) [
    | none ↦ none
    | some (r', _) ↦ release_sets ids r' (set sets id (record s { owned = no_refs }))
  ]
]

unfoldable pub reap_now : Registry → List PlanSet → Option (Registry × List PlanSet)
reap_now r sets =
    let (kept, finalized, sets') = sweep r.retired sets in
    release_sets finalized (record r { retired = kept }) sets'
