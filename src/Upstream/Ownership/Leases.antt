-- ===== src/Upstream/Ownership/Leases.antt =====
-- The leases of plan.go keep the invariant and do not panic.
use g_gateway.Base.{
  ℕ, ◌+◌, ◌-◌, ◌<◌, ◌≡◌, refl, ◌∙◌, true, false, ◌||◌, not, none, some, List, [], ◌∷◌, ◌++◌, arith,
  get_elem?, set, All, ◌==◌, Bool-cases, Option-cases, inl, inr,
}
use g_gateway.Upstream.Fingerprint.{TransportKey}
use g_gateway.Upstream.Registry.Shared.{
  Table, IsTable, find, find_refs, find-some, refs, one_if, one_if_self, runtime, acquire, Released,
  release-Released, refs-acquire, acquire-IsTable, runtime-acquire,
}
use g_gateway.Upstream.Registry.Keys.{transport_keys}
use g_gateway.Upstream.Registry.{Registry}
use g_gateway.Upstream.Ownership.{TunnelLease, acquire_lease, release_lease}
use g_gateway.Upstream.Ownership.Machine.{World, release_pinned}
use g_gateway.Base.Tally.{total, total-set, total-append, total-get, All-set, All-get, All-snoc}
use g_gateway.Upstream.Ownership.Balance.{IsPinned, All-IsPinned, held, owed}
use g_gateway.Upstream.Ownership.Invariant.{IsOwned, Keeps, unreleased}

abbrev with_transports : Registry → Table TransportKey → ℕ → Registry
with_transports r t n = record r { transports = t; live_tunnel_leases = n }

-- A change of the transports and of the leases alone.
IsOwned-transports :
    (w : World) (t : Table TransportKey) (n : ℕ) (ls : List TunnelLease)
    → IsOwned w
    → IsTable transport_keys t
    → ((j : TransportKey)
        → refs transport_keys t j
          ≡ owed transport_keys (λ o. o.transport_keys) w.candidates w.sets j + total (held j) ls)
    → All (IsPinned (with_transports w.registry t n)) ls
    → n ≡ total unreleased ls
    → IsOwned (record w { registry = with_transports w.registry t n; leases = ls })
IsOwned-transports w t n ls v h k p q = record {
  balanced = record {
    tables = record {
      endpoints = v.balanced.tables.endpoints;
      transports = h;
      selections = v.balanced.tables.selections;
      health = v.balanced.tables.health;
      budgets = v.balanced.tables.budgets;
    };
    endpoints = v.balanced.endpoints;
    transports = k;
    selections = v.balanced.selections;
    health = v.balanced.health;
    budgets = v.balanced.budgets;
    pinned = p;
  };
  active_count = v.active_count;
  lease_count = q;
  handled = v.handled;
}

abbrev lease_of : TransportKey → ℕ → TunnelLease
lease_of key n = record { key = key; runtime = n; released = false }

IsOwned-pin :
    (w : World) (key : TransportKey) (n : ℕ)
    → IsOwned w
    → 0 < refs transport_keys w.registry.transports key
    → runtime transport_keys w.registry.transports key ≡ n
    → IsOwned (record w {
      registry =
          with_transports w.registry
            (acquire transport_keys w.registry.transports key n).0
            (w.registry.live_tunnel_leases + 1);
      leases = w.leases ++ lease_of key n ∷ [];
    })
IsOwned-pin w key n v used same =
    IsOwned-transports w (acquire transport_keys t key n).0 (w.registry.live_tunnel_leases + 1)
      (w.leases ++ l ∷ []) v (acquire-IsTable transport_keys t key n v.balanced.tables.transports)
      (λ j. omega (
        arith,
        v.balanced.transports j,
        refs-acquire transport_keys t key n j,
        total-append (held j) w.leases (l ∷ []),
      ))
      (All-snoc (IsPinned r) w.leases l
        (All-IsPinned w.registry r w.leases
          (λ j p. runtime-acquire transport_keys t key n j (omega (arith, v.balanced.transports j)))
          v.balanced.pinned)
        (λ _. runtime-acquire transport_keys t key n key used ∙ same))
      (omega (arith, v.lease_count, total-append unreleased w.leases (l ∷ [])))
  where
    t : Table TransportKey
    t = w.registry.transports

    l : TunnelLease
    l = lease_of key n

    r : Registry
    r =
        with_transports w.registry (acquire transport_keys t key n).0
          (w.registry.live_tunnel_leases + 1)

pub Keeps-pin :
    (w : World) (key : TransportKey) (n : ℕ)
    → IsOwned w
    → Keeps (elim (acquire_lease w.registry key n) [
      | none ↦ some w
      | some r ↦ some (record w { registry = r; leases = w.leases ++ lease_of key n ∷ [] })
    ])
unfolding acquire_lease
Keeps-pin w key n v = elim (Option-cases (find transport_keys w.registry.transports key)) [
  | inl e ↦ rw (e, acquire_lease) (w, refl, v)
  | inr (x, e) ↦ elim (Bool-cases (not (x.runtime == n) || x.refs == 0)) [
    | inl f ↦ rw (e, f, acquire_lease) (w, refl, v)
    | inr f ↦
        let q = find_refs transport_keys w.registry.transports key x e in
        rw (e, f, acquire_lease)
          (_, refl, IsOwned-pin w key n v (ground (arith, f, q.0)) (ground (arith, f, q.1)))
  ]
]

release_lease_of :
    (r : Registry) (key : TransportKey) (n : ℕ)
    → 0 < refs transport_keys r.transports key
    → runtime transport_keys r.transports key ≡ n
    → 0 < r.live_tunnel_leases
    → (p : Released transport_keys r.transports key)
    → release_lease r key n
      ≡ some (
        record r { transports = p.table; live_tunnel_leases = r.live_tunnel_leases - 1 },
        p.deleted,
      )
unfolding release_lease
release_lease_of r key n h e k p =
    let (x, f) = find-some transport_keys r.transports key h in
    let q = find_refs transport_keys r.transports key x f in
    let checks : (not (x.runtime == n) || x.refs == 0 || r.live_tunnel_leases == 0) ≡ false =
      ground (arith, q.0, q.1, e, h, k) in
    rw (f, checks, p.result, release_lease) refl

IsOwned-unpin :
    (w : World) (i : ℕ) (l : TunnelLease)
    → IsOwned w
    → get_elem? w.leases i ≡ some l
    → l.released ≡ false
    → (p : Released transport_keys w.registry.transports l.key)
    → IsOwned (record w {
      registry = with_transports w.registry p.table (w.registry.live_tunnel_leases - 1);
      leases = set w.leases i (record l { released = true });
    })
IsOwned-unpin w i l v e f p =
    IsOwned-transports w p.table (w.registry.live_tunnel_leases - 1) ls v p.valid counts
      (All-IsPinned w.registry
        (with_transports w.registry p.table (w.registry.live_tunnel_leases - 1)) ls
        (λ j q. p.stable j (omega (arith, counts j)))
        (All-set (IsPinned w.registry) w.leases i l' v.balanced.pinned
          (λ (h : true ≡ false). absurd cc)))
      (ground (arith, v.lease_count, total-set unreleased w.leases i l l' e, f))
  where
    l' : TunnelLease
    l' = record l { released = true }

    ls : List TunnelLease
    ls = set w.leases i l'

    own : (j : TransportKey) → held j l ≡ one_if transport_keys l.key j
    own j = rw f refl

    counts :
        (j : TransportKey)
        → refs transport_keys p.table j
          ≡ owed transport_keys (λ o. o.transport_keys) w.candidates w.sets j + total (held j) ls
    counts j =
        omega
          (arith, v.balanced.transports j, p.lost j, total-set (held j) w.leases i l l' e, own j)

pub Keeps-release_pinned :
    (w : World) (i : ℕ) (l : TunnelLease)
    → IsOwned w
    → get_elem? w.leases i ≡ some l
    → Keeps (release_pinned w i l)
unfolding release_pinned
Keeps-release_pinned w i l v e = elim (Bool-cases l.released) [
  | inl f ↦ rw f (w, refl, v)
  | inr f ↦
      let own : held l.key l ≡ 1 = rw f (one_if_self transport_keys l.key) in
      let used : 0 < refs transport_keys w.registry.transports l.key =
        omega (arith, v.balanced.transports l.key, total-get (held l.key) w.leases i l e, own) in
      let live : 0 < w.registry.live_tunnel_leases =
        ground (arith, v.lease_count, total-get unreleased w.leases i l e, f) in
      let p =
        release-Released transport_keys w.registry.transports l.key v.balanced.tables.transports
          used in
      let pinned = All-get (IsPinned w.registry) w.leases i l v.balanced.pinned e f in
      rw (f, release_lease_of w.registry l.key l.runtime used pinned live p, release_pinned)
        (_, refl, IsOwned-unpin w i l v e f p)
]
