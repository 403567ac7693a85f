-- ===== src/Runtime.antt =====
-- internal/runtime/manager.go: the manager that publishes snapshots, on the registry of upstreams and its
-- owners. A snapshot is known by its revision and by the number of its plan set. Apply holds the
-- manager's mutex; its calls of the registry run one after the other here, while Acquire is a sequence of
-- atomic operations. The observer is left out. A panic is `none`.
pub mod Publication
pub mod Managed
pub mod Outcome
pub mod Acquire
pub mod Tests
use g_gateway.Base.{
  ℕ, ◌+◌, Bool, true, false, Option, none, some, List, [], ◌∷◌, ◌++◌, ◌==◌, leb, if◌then◌else◌,
  get_elem?, set, length,
}
use g_gateway.Model.{Upstream}
use g_gateway.Upstream.Registry.{
  Registry, Compilers, Prepared, refused, rolled_back, candidate, prepare,
}
use g_gateway.Upstream.Ownership.{Candidate, PlanSet, try_acquire}
use g_gateway.Upstream.Ownership.Machine.{
  World, commit_candidate, rollback_candidate, enter_set, leave_set, mark_set, register_set,
  drop_set, with_elem, prepared,
}

pub record Snapshot : Type 0 where
  pub revision : ℕ
  pub plans : ℕ

pub record Lease : Type 0 where
  pub snapshot : Snapshot
  pub released : Bool

pub record Manager : Type 0 where
  pub world : World
  pub active : Option Snapshot
  pub closed : Bool

pub data Applied : Type 0 where
  manager_closed stale_revision prepare_failed build_failed applied : Applied

abbrev pub bind_world : Option World → (World → Option World) → Option World
bind_world none f = none
bind_world (some w) f = f w

-- Retire of a plan set.
unfoldable pub retire : World → ℕ → Option World
retire w id = bind_world (with_elem w mark_set w.sets id) (λ w1.
    bind_world (with_elem w1 register_set w1.sets id) (λ w2. with_elem w2 drop_set w2.sets id))

abbrev pub retire_active : World → Option Snapshot → Option World
retire_active w none = some w
retire_active w (some old) = retire w old.plans

-- The builder: the revision of the snapshot that it builds, or an error.
abbrev pub Builder : Type 0
Builder = ℕ → List Upstream → Option ℕ

-- Commit, Swap, and then the retirement of the old snapshot's plan set.
unfoldable pub publish : Manager → World → ℕ → Candidate → ℕ → Option (Manager × Applied)
publish m w i c revision = elim (commit_candidate w i c) [
  | none ↦ none
  | some w' ↦
      let swapped : Manager = record m {
        world = w';
        active = some (record { revision = revision; plans = length w.sets });
      } in
      elim (retire_active swapped.world m.active) [
        | none ↦ none
        | some w'' ↦ some (record swapped { world = w'' }, applied)
      ]
]

-- The deferred Rollback of a candidate that is not committed.
unfoldable pub give_up : Manager → World → ℕ → Candidate → Option (Manager × Applied)
give_up m w i c = elim (rollback_candidate w i c) [
  | none ↦ none
  | some w' ↦ some (record m { world = w' }, build_failed)
]

-- Whether the builder yields a snapshot of the revision.
abbrev pub builds : Option ℕ → ℕ → Bool
builds none revision = false
builds (some built) revision = built == revision

unfoldable pub after_prepare :
    Builder → Manager → ℕ → List Upstream → Prepared → Option (Manager × Applied)
after_prepare build m revision upstreams refused = some (m, prepare_failed)
after_prepare build m revision upstreams (rolled_back r) =
    some (record m { world = prepared m.world (rolled_back r) }, prepare_failed)
after_prepare build m revision upstreams (candidate r owned) =
    let w = prepared m.world (candidate r owned) in
    let i = length m.world.candidates in
    let c : Candidate = record { owned = owned; done = false } in
    if builds (build revision upstreams) revision then publish m w i c revision else give_up m w i c

abbrev pub is_stale : Option Snapshot → ℕ → Bool
is_stale none revision = false
is_stale (some snapshot) revision = leb revision snapshot.revision

unfoldable pub apply :
    Compilers → Builder → Manager → ℕ → List Upstream → Option (Manager × Applied)
apply lib build m revision upstreams =
    if m.closed
    then some (m, manager_closed)
    else if is_stale m.active revision
    then some (m, stale_revision)
    else elim (prepare lib m.world.registry upstreams) [
      | none ↦ none
      | some p ↦ after_prepare build m revision upstreams p
    ]

-- Where a call of Acquire stands: at its first load, at TryAcquire on the plan set of the snapshot that it
-- has loaded, or at the load after a TryAcquire that failed; or it has returned.
pub data Acquiring : Type 0 where
  loading : Acquiring
  trying : Snapshot → Acquiring
  rechecking : Snapshot → Acquiring
  leased : Lease → Acquiring
  not_acquired : Acquiring

-- The load after a TryAcquire that failed. Each snapshot has its own plan set, which tells snapshots apart.
abbrev pub recheck : Option Snapshot → Snapshot → Acquiring
recheck none tried = loading
recheck (some snapshot) tried = if snapshot.plans == tried.plans then not_acquired else loading

-- The next atomic operation of a call of Acquire. Other goroutines run between two of them.
unfoldable pub acquire_step : Manager → Acquiring → Manager × Acquiring
acquire_step m loading =
    (m, elim m.active [ none ↦ not_acquired | some snapshot ↦ trying snapshot ])
acquire_step m (trying snapshot) = elim (get_elem? m.world.sets snapshot.plans) [
  | none ↦ (m, rechecking snapshot)
  | some s ↦ elim (try_acquire s) [
    | none ↦ (m, rechecking snapshot)
    | some s' ↦ (
      record m { world = record m.world { sets = set m.world.sets snapshot.plans s' } },
      leased (record { snapshot = snapshot; released = false }),
    )
  ]
]
acquire_step m (rechecking snapshot) = (m, recheck m.active snapshot)
acquire_step m (leased lease) = (m, leased lease)
acquire_step m not_acquired = (m, not_acquired)

-- Release of a lease: the manager and the lease.
unfoldable pub release : Manager → Lease → Option (Manager × Lease)
release m lease =
    if lease.released
    then some (m, lease)
    else (elim (with_elem m.world leave_set m.world.sets lease.snapshot.plans) [
      | none ↦ none
      | some w ↦ some (record m { world = w }, record lease { released = true })
    ])

-- What Close does under the manager's mutex.
unfoldable pub close : Manager → Option Manager
close m =
    let emptied : Manager = record m { closed = true; active = none } in
    elim (retire_active emptied.world m.active) [
      | none ↦ none
      | some w ↦ some (record emptied { world = w })
    ]
