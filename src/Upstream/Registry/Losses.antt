-- ===== src/Upstream/Registry/Losses.antt =====
-- A release of what is owned: it never panics where every key is referenced as often as it is owned.
use g_gateway.Base.{ℕ, ◌+◌, ◌≤◌, ◌<◌, ◌≡◌, refl, some, List, Bytes}
use g_gateway.Upstream.Fingerprint.{TransportKey, HealthKey, BudgetKey}
use g_gateway.Upstream.Registry.Shared.{
  Table, refs, times, runtime, IsTable, release_all, release_all-AllReleased,
}
use g_gateway.Upstream.Registry.Keys.{
  SelectionKey, identities, transport_keys, selection_keys, health_keys, budget_keys,
}
use g_gateway.Upstream.Registry.{ResourceRefs, Registry, release_refs}

pub record AreTables (r : Registry) : Type 0 where
  pub endpoints : IsTable identities r.endpoints
  pub transports : IsTable transport_keys r.transports
  pub selections : IsTable selection_keys r.selections
  pub health : IsTable health_keys r.health
  pub budgets : IsTable budget_keys r.budgets

-- Every key is referenced at least as often as it is owned.
pub record Backs (r : Registry) (o : ResourceRefs) : Type 0 where
  pub endpoints : (j : Bytes) → times identities o.endpoint_ids j ≤ refs identities r.endpoints j
  pub transports :
      (j : TransportKey)
      → times transport_keys o.transport_keys j ≤ refs transport_keys r.transports j
  pub selections :
      (j : SelectionKey)
      → times selection_keys o.selection_keys j ≤ refs selection_keys r.selections j
  pub health : (j : HealthKey) → times health_keys o.health_keys j ≤ refs health_keys r.health j
  pub budgets : (j : BudgetKey) → times budget_keys o.budget_keys j ≤ refs budget_keys r.budgets j

pub record Loses (r : Registry) (o : ResourceRefs) : Type 0 where
  pub registry : Registry
  pub closing : List ℕ
  pub result : release_refs r o ≡ some (registry, closing)
  pub tables : AreTables registry
  pub endpoints :
      (j : Bytes)
      → refs identities registry.endpoints j + times identities o.endpoint_ids j
        ≡ refs identities r.endpoints j
  pub transports :
      (j : TransportKey)
      → refs transport_keys registry.transports j + times transport_keys o.transport_keys j
        ≡ refs transport_keys r.transports j
  pub selections :
      (j : SelectionKey)
      → refs selection_keys registry.selections j + times selection_keys o.selection_keys j
        ≡ refs selection_keys r.selections j
  pub health :
      (j : HealthKey)
      → refs health_keys registry.health j + times health_keys o.health_keys j
        ≡ refs health_keys r.health j
  pub budgets :
      (j : BudgetKey)
      → refs budget_keys registry.budgets j + times budget_keys o.budget_keys j
        ≡ refs budget_keys r.budgets j
  pub stable :
      (j : TransportKey)
      → 0 < refs transport_keys registry.transports j
      → runtime transport_keys registry.transports j ≡ runtime transport_keys r.transports j
  pub same_active : registry.active_plan_sets ≡ r.active_plan_sets
  pub same_leases : registry.live_tunnel_leases ≡ r.live_tunnel_leases
  pub same_retired : registry.retired ≡ r.retired

release_refs_of :
    (r : Registry) (o : ResourceRefs) (e : Table Bytes) (t : Table TransportKey)
    (s : Table SelectionKey) (h : Table HealthKey) (b : Table BudgetKey) (de dt ds dh db : List ℕ)
    → release_all identities r.endpoints o.endpoint_ids ≡ some (e, de)
    → release_all transport_keys r.transports o.transport_keys ≡ some (t, dt)
    → release_all selection_keys r.selections o.selection_keys ≡ some (s, ds)
    → release_all health_keys r.health o.health_keys ≡ some (h, dh)
    → release_all budget_keys r.budgets o.budget_keys ≡ some (b, db)
    → release_refs r o
      ≡ some
          (record r { endpoints = e; transports = t; selections = s; health = h; budgets = b }, dt)
unfolding release_refs
release_refs_of r o e t s h b de dt ds dh db p q u v w = rw (p, q, u, v, w, release_refs) refl

pub release_refs-Loses : (r : Registry) (o : ResourceRefs) → AreTables r → Backs r o → Loses r o
release_refs-Loses r o v k =
    let e = release_all-AllReleased identities r.endpoints o.endpoint_ids v.endpoints k.endpoints in
    let t =
      release_all-AllReleased transport_keys r.transports o.transport_keys v.transports
        k.transports in
    let s =
      release_all-AllReleased selection_keys r.selections o.selection_keys v.selections
        k.selections in
    let h = release_all-AllReleased health_keys r.health o.health_keys v.health k.health in
    let b = release_all-AllReleased budget_keys r.budgets o.budget_keys v.budgets k.budgets in
    record {
      registry = record r {
        endpoints = e.table;
        transports = t.table;
        selections = s.table;
        health = h.table;
        budgets = b.table;
      };
      closing = t.deleted;
      result =
          release_refs_of r o e.table t.table s.table h.table b.table e.deleted t.deleted s.deleted
            h.deleted b.deleted e.result t.result s.result h.result b.result;
      tables = record {
        endpoints = e.valid;
        transports = t.valid;
        selections = s.valid;
        health = h.valid;
        budgets = b.valid;
      };
      endpoints = e.lost;
      transports = t.lost;
      selections = s.lost;
      health = h.lost;
      budgets = b.lost;
      stable = t.stable;
      same_active = refl;
      same_leases = refl;
      same_retired = refl;
    }
