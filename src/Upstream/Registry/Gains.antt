-- ===== src/Upstream/Registry/Gains.antt =====
-- A preparation acquires what it owns: in every table, the references grow by the keys that it adds to
-- what it owns, and no runtime in use is replaced.
use g_gateway.Base.{
  ℕ, ◌+◌, ◌≤◌, ◌<◌, ◌≡◌, refl, ◌∙◌, Bool, true, false, ◌||◌, Option, none, List, [], ◌∷◌, ◌++◌,
  Bytes, arith, Option-cases, inl, inr, if◌then◌else◌, ltb,
}
use g_gateway.Model.{Upstream, Endpoint}
use g_gateway.Upstream.Fingerprint.{
  TransportKey, HealthKey, BudgetKey, make_health_key, make_budget_key,
}
use g_gateway.Upstream.Registry.Shared.{
  Table, EqKey, acquire, refs, times, runtime, IsTable, refs-acquire, acquire-IsTable,
  runtime-acquire,
}
use g_gateway.Upstream.Registry.Keys.{
  SelectionKey, identities, transport_keys, selection_keys, health_keys, budget_keys,
}
use g_gateway.Upstream.Registry.{
  ResourceRefs, Registry, Transaction, Compilers, acquire_transport, acquire_selection,
  acquire_endpoint, acquire_health, acquire_budget, acquire_endpoints, acquire_retry, track,
  endpoint_identity, plan_size, prepare_plan, prepare_plans, max_snapshot_wrr_slots,
  max_snapshot_hash_points,
}

module _ {K : Type 0} (E : EqKey K) where
  -- A table and the keys owned in it, before and after.
  pub record Gain (t t' : Table K) (ks ks' : List K) : Type 0 where
    pub balance : (j : K) → refs E t' j + times E ks j ≡ refs E t j + times E ks' j
    pub grows : (j : K) → refs E t j ≤ refs E t' j
    pub valid : IsTable E t → IsTable E t'
    pub stable : (j : K) → 0 < refs E t j → runtime E t' j ≡ runtime E t j

  pub Gain-refl : (t : Table K) (ks : List K) → Gain t t ks ks
  Gain-refl t ks = record {
    balance = λ j. refl;
    grows = λ j. omega arith;
    valid = λ h. h;
    stable = λ j h. refl;
  }

  pub Gain-trans :
      (t u w : Table K) (ks ls ms : List K) → Gain t u ks ls → Gain u w ls ms → Gain t w ks ms
  Gain-trans t u w ks ls ms g h = record {
    balance = λ j. omega (arith, g.balance j, h.balance j);
    grows = λ j. omega (arith, g.grows j, h.grows j);
    valid = λ v. h.valid (g.valid v);
    stable = λ j p. h.stable j (omega (arith, g.grows j)) ∙ g.stable j p;
  }

  pub times-append : (ks ls : List K) (j : K) → times E (ks ++ ls) j ≡ times E ks j + times E ls j
  times-append [] ls j = omega arith
  times-append (k ∷ ks) ls j = omega (arith, times-append ks ls j)

  pub Gain-acquire :
      (t : Table K) (key : K) (fresh : ℕ) (ks : List K)
      → Gain t (acquire E t key fresh).0 ks (ks ++ key ∷ [])
  Gain-acquire t key fresh ks = record {
    balance = λ j. omega (arith, refs-acquire E t key fresh j, times-append ks (key ∷ []) j);
    grows = λ j. omega (arith, refs-acquire E t key fresh j);
    valid = acquire-IsTable E t key fresh;
    stable = λ j p. runtime-acquire E t key fresh j p;
  }

-- The five tables, and the rest of the registry, which stays.
pub record Gains (r r' : Registry) (o o' : ResourceRefs) : Type 0 where
  pub endpoints : Gain identities r.endpoints r'.endpoints o.endpoint_ids o'.endpoint_ids
  pub transports : Gain transport_keys r.transports r'.transports o.transport_keys o'.transport_keys
  pub selections : Gain selection_keys r.selections r'.selections o.selection_keys o'.selection_keys
  pub health : Gain health_keys r.health r'.health o.health_keys o'.health_keys
  pub budgets : Gain budget_keys r.budgets r'.budgets o.budget_keys o'.budget_keys
  pub same_active : r'.active_plan_sets ≡ r.active_plan_sets
  pub same_leases : r'.live_tunnel_leases ≡ r.live_tunnel_leases
  pub same_retired : r'.retired ≡ r.retired

abbrev pub GainsTo : Transaction → Transaction → Type 0
GainsTo t t' = Gains t.0 t'.0 t.1 t'.1

pub Gains-refl : (t : Transaction) → GainsTo t t
Gains-refl (r, o) = record {
  endpoints = Gain-refl identities r.endpoints o.endpoint_ids;
  transports = Gain-refl transport_keys r.transports o.transport_keys;
  selections = Gain-refl selection_keys r.selections o.selection_keys;
  health = Gain-refl health_keys r.health o.health_keys;
  budgets = Gain-refl budget_keys r.budgets o.budget_keys;
  same_active = refl;
  same_leases = refl;
  same_retired = refl;
}

pub Gains-trans : (t u w : Transaction) → GainsTo t u → GainsTo u w → GainsTo t w
Gains-trans (r, o) (s, p) (q, l) g h = record {
  endpoints = Gain-trans identities _ _ _ _ _ _ g.endpoints h.endpoints;
  transports = Gain-trans transport_keys _ _ _ _ _ _ g.transports h.transports;
  selections = Gain-trans selection_keys _ _ _ _ _ _ g.selections h.selections;
  health = Gain-trans health_keys _ _ _ _ _ _ g.health h.health;
  budgets = Gain-trans budget_keys _ _ _ _ _ _ g.budgets h.budgets;
  same_active = h.same_active ∙ g.same_active;
  same_leases = h.same_leases ∙ g.same_leases;
  same_retired = h.same_retired ∙ g.same_retired;
}

Gains-acquire_transport :
    (key : TransportKey) (t : Transaction) → GainsTo t (acquire_transport key t)
unfolding acquire_transport
Gains-acquire_transport key (r, o) = record {
  endpoints = Gain-refl identities r.endpoints o.endpoint_ids;
  transports = Gain-acquire transport_keys r.transports key r.allocated o.transport_keys;
  selections = Gain-refl selection_keys r.selections o.selection_keys;
  health = Gain-refl health_keys r.health o.health_keys;
  budgets = Gain-refl budget_keys r.budgets o.budget_keys;
  same_active = refl;
  same_leases = refl;
  same_retired = refl;
}

Gains-acquire_selection :
    (key : SelectionKey) (t : Transaction) → GainsTo t (acquire_selection key t)
unfolding acquire_selection
Gains-acquire_selection key (r, o) = record {
  endpoints = Gain-refl identities r.endpoints o.endpoint_ids;
  transports = Gain-refl transport_keys r.transports o.transport_keys;
  selections = Gain-acquire selection_keys r.selections key r.allocated o.selection_keys;
  health = Gain-refl health_keys r.health o.health_keys;
  budgets = Gain-refl budget_keys r.budgets o.budget_keys;
  same_active = refl;
  same_leases = refl;
  same_retired = refl;
}

Gains-acquire_endpoint : (key : Bytes) (t : Transaction) → GainsTo t (acquire_endpoint key t)
unfolding acquire_endpoint
Gains-acquire_endpoint key (r, o) = record {
  endpoints = Gain-acquire identities r.endpoints key r.allocated o.endpoint_ids;
  transports = Gain-refl transport_keys r.transports o.transport_keys;
  selections = Gain-refl selection_keys r.selections o.selection_keys;
  health = Gain-refl health_keys r.health o.health_keys;
  budgets = Gain-refl budget_keys r.budgets o.budget_keys;
  same_active = refl;
  same_leases = refl;
  same_retired = refl;
}

Gains-acquire_health : (key : HealthKey) (t : Transaction) → GainsTo t (acquire_health key t)
unfolding acquire_health
Gains-acquire_health key (r, o) = record {
  endpoints = Gain-refl identities r.endpoints o.endpoint_ids;
  transports = Gain-refl transport_keys r.transports o.transport_keys;
  selections = Gain-refl selection_keys r.selections o.selection_keys;
  health = Gain-acquire health_keys r.health key r.allocated o.health_keys;
  budgets = Gain-refl budget_keys r.budgets o.budget_keys;
  same_active = refl;
  same_leases = refl;
  same_retired = refl;
}

Gains-acquire_budget : (key : BudgetKey) (t : Transaction) → GainsTo t (acquire_budget key t)
unfolding acquire_budget
Gains-acquire_budget key (r, o) = record {
  endpoints = Gain-refl identities r.endpoints o.endpoint_ids;
  transports = Gain-refl transport_keys r.transports o.transport_keys;
  selections = Gain-refl selection_keys r.selections o.selection_keys;
  health = Gain-refl health_keys r.health o.health_keys;
  budgets = Gain-acquire budget_keys r.budgets key r.allocated o.budget_keys;
  same_active = refl;
  same_leases = refl;
  same_retired = refl;
}

-- Two successive gains.
Gains_then :
    (t : Transaction) (f g : Transaction → Transaction)
    → GainsTo t (f t)
    → ((u : Transaction) → GainsTo u (g u))
    → GainsTo t (g (f t))
Gains_then t f g h k = Gains-trans t (f t) (g (f t)) h (k (f t))

Gains-if :
    (b : Bool) (t u w : Transaction) → GainsTo t u → GainsTo t w → GainsTo t (if b then u else w)
Gains-if true t u w h k = h
Gains-if false t u w h k = k

module _ (lib : Compilers) where
  Gains-track :
      (u : Upstream) (key : TransportKey) (identity : Bytes) (weight : ℕ) (t : Transaction)
      → GainsTo t (track lib u key identity weight t)
  unfolding track
  Gains-track u key identity weight t =
      Gains-if _ t _ _ (Gains-acquire_health (make_health_key lib.sha256 identity u.health key) t)
        (Gains-refl t)

  Gains-retry : (u : Upstream) (t : Transaction) → GainsTo t (acquire_retry lib u t)
  unfolding acquire_retry
  Gains-retry u t =
      Gains-if _ t _ _ (Gains-acquire_budget (make_budget_key lib.sha256 u.id u.retry.budget) t)
        (Gains-refl t)

  Gains-either :
      (b : Bool) (t : Transaction) (x y : Transaction × Bool)
      → GainsTo t x.0
      → GainsTo t y.0
      → GainsTo t (if b then x else y).0
  Gains-either true t x y h k = h
  Gains-either false t x y h k = k

  Gains-acquire_endpoints :
      (u : Upstream) (key : TransportKey) (es : List Endpoint) (t : Transaction)
      → GainsTo t (acquire_endpoints lib u key es t).0
  unfolding acquire_endpoints
  Gains-acquire_endpoints u key [] t = Gains-refl t
  Gains-acquire_endpoints u key (e ∷ es) t =
      let identity = endpoint_identity u.id e.url in
      let t1 = acquire_endpoint identity t in
      let t2 = track lib u key identity e.weight t1 in
      Gains-either _ t (acquire_endpoints lib u key es t2) (t, false)
        (Gains-trans t t2 (acquire_endpoints lib u key es t2).0
          (Gains-trans t t1 t2 (Gains-acquire_endpoint identity t)
            (Gains-track u key identity e.weight t1))
          (Gains-acquire_endpoints u key es t2))
        (Gains-refl t)

  Gains-finish :
      (b : Bool) (u : Upstream) (t t' : Transaction) (size : Option (ℕ × ℕ))
      → GainsTo t t'
      → GainsTo t
          (if◌then◌else◌ {A = Transaction × Option (ℕ × ℕ)} b
            (acquire_retry lib u t', size)
            (t', none)).0
  Gains-finish true u t t' size h = Gains-trans t t' (acquire_retry lib u t') h (Gains-retry u t')
  Gains-finish false u t t' size h = h

  Gains-prepare_plan :
      (u : Upstream) (key : TransportKey) (t : Transaction) → GainsTo t (prepare_plan lib u key t).0
  unfolding prepare_plan
  Gains-prepare_plan u key t =
      let selection : SelectionKey = record { upstream_id = u.id; algorithm = u.balancer.type } in
      let t1 = acquire_transport key t in
      let t2 = acquire_selection selection t1 in
      let t3 = (acquire_endpoints lib u key u.endpoints t2).0 in
      Gains-finish (acquire_endpoints lib u key u.endpoints t2).1 u t t3 (plan_size lib u) (
        Gains-trans t t2 t3
          (Gains-trans t t1 t2 (Gains-acquire_transport key t)
            (Gains-acquire_selection selection t1))
          (Gains-acquire_endpoints u key u.endpoints t2))

  -- However far a preparation comes, the registry has gained what it owns.
  pub Gains-prepare_plans :
      (us : List Upstream) (slots points : ℕ) (t : Transaction)
      → GainsTo t (prepare_plans lib us slots points t).0
  unfolding prepare_plans
  Gains-prepare_plans [] slots points t = Gains-refl t
  Gains-prepare_plans (u ∷ us) slots points t = elim (Option-cases (lib.transport_key u)) [
    | inl e ↦ rw (e, prepare_plans) (Gains-refl t)
    | inr (key, e) ↦ elim (Option-cases (prepare_plan lib u key t).1) [
      | inl f ↦ rw (e, f, prepare_plans) (Gains-prepare_plan u key t)
      | inr ((s, p), f) ↦
          let t' = (prepare_plan lib u key t).0 in
          rw (e, f, prepare_plans)
            (Gains-either
              (ltb max_snapshot_wrr_slots (slots + s) || ltb max_snapshot_hash_points (points + p))
              t (t', false) (prepare_plans lib us (slots + s) (points + p) t')
              (Gains-prepare_plan u key t)
              (Gains-trans t t' (prepare_plans lib us (slots + s) (points + p) t').0
                (Gains-prepare_plan u key t) (Gains-prepare_plans us (slots + s) (points + p) t')))
    ]
  ]
