-- ===== src/Runtime/Tests.antt =====
-- The manager's theorems at a manager that has published a snapshot.
use g_gateway.Base.{true, false, ◌≡◌, refl, none, some, [], ◌∷◌}
use g_gateway.Upstream.Registry.{no_refs}
use g_gateway.Upstream.Ownership.{PlanSet, active}
use g_gateway.Upstream.Ownership.Machine.{World}
use g_gateway.Upstream.Ownership.Invariant.{IsOwned}
use g_gateway.Upstream.Ownership.Tests.{tools, good, registry}
use g_gateway.Runtime.{
  Snapshot, Manager, Builder, loading, trying, rechecking, apply, acquire_step, close,
}
use g_gateway.Runtime.Managed.{IsManaged, Outcome, Replaced}
use g_gateway.Runtime.Outcome.{apply-Outcome, close-IsManaged}
use g_gateway.Runtime.Acquire.{Leased, acquire_step-Leased}

abbrev set_0 : PlanSet
set_0 = record { owned = no_refs; refs = 1; phase = active; finalized = false; requests = 0 }

abbrev world : World
world = record {
  registry = record registry { active_plan_sets = 1 };
  candidates = [];
  sets = set_0 ∷ [];
  leases = [];
}

abbrev snapshot : Snapshot
snapshot = record { revision = 1; plans = 0 }

abbrev manager : Manager
manager = record { world = world; active = some snapshot; closed = false }

world-IsOwned : IsOwned world
world-IsOwned = record {
  balanced = record {
    tables = record { endpoints = tt; transports = tt; selections = tt; health = tt; budgets = tt };
    endpoints = λ j. refl;
    transports = λ j. refl;
    selections = λ j. refl;
    health = λ j. refl;
    budgets = λ j. refl;
    pinned = tt;
  };
  active_count = refl;
  lease_count = refl;
  handled = ((refl, λ (h : false ≡ true). absurd cc), tt);
}

manager-IsManaged : IsManaged manager
manager-IsManaged = record { owned = world-IsOwned; current = (set_0, refl, refl) }

-- A builder that succeeds.
abbrev build : Builder
build = λ revision upstreams. some revision

apply-Outcome_example :
    Outcome tools build manager 2 (good ∷ []) (apply tools build manager 2 (good ∷ []))
apply-Outcome_example = apply-Outcome tools build manager manager-IsManaged 2 (good ∷ [])

acquire_step-Leased_example :
    (acquire_step manager loading ≡ (manager, trying snapshot))
    × Leased snapshot manager (acquire_step manager (trying snapshot))
    × ((tried : Snapshot)
        → (acquire_step manager (trying tried)).1 ≡ rechecking tried
        → acquire_step manager (rechecking tried) ≡ (manager, loading))
acquire_step-Leased_example = acquire_step-Leased manager snapshot manager-IsManaged refl

close-IsManaged_example :
    (m : Manager) × (close manager ≡ some m)
    × IsManaged m
    × (m.active ≡ none)
    × (m.closed ≡ true)
    × Replaced world (some snapshot) m.world
close-IsManaged_example = close-IsManaged manager manager-IsManaged
