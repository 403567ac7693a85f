-- ===== src/Router/Compile/Sources.antt =====
-- Compile stores nothing else: every candidate in a tree is one that a route offers at that place.
use g_gateway.Base.{
  ◌≡◌, refl, sym, subst, some-injective, inl, inr, some, List, [], ◌∷◌, In, Bytes, bytes_eq,
  bytes_eq_iff, Bool-cases,
}
use g_gateway.Router.Library.{Library}
use g_gateway.Router.Host.{HostPatternKind, CompiledHostPattern}
use g_gateway.Router.Tree.{Candidate, PathNode}
use g_gateway.Router.Tree.Every.{Every, Every-insert_candidate, Every-new, Every-finalize_node}
use g_gateway.Router.Compile.{
  Router, RouteSpec, Json, HostTrees, CompiledRoute, tree_of, insert_host, with_host_rank,
  insert_under, insert_hosts, insert_route, base_candidate, compile_routes, finalize_hosts,
  finalize_router,
}
use g_gateway.Router.Compile.Stored.{
  Place, hostless, exact_host, wildcard_host, place_of, Offered, Offers, compile_routes-cases,
}

module _ (P : Place → Candidate → Type 0) where
  -- Every candidate of the trees has the property at its place.
  abbrev pub EveryUnder : (Bytes → Place) → HostTrees → Type 0
  EveryUnder at [] = Unit
  EveryUnder at ((host, tree) ∷ rest) = Every (P (at host)) tree × EveryUnder at rest

  abbrev pub EveryPlace : Router → Type 0
  EveryPlace r =
      Every (P hostless) r.hostless
      × EveryUnder exact_host r.exact_hosts
      × EveryUnder wildcard_host r.wildcard_hosts

  EveryUnder-insert_host :
      (at : Bytes → Place) (trees : HostTrees) (host : Bytes) (c : Candidate)
      → P (at host) c
      → EveryUnder at trees
      → EveryUnder at (insert_host trees host c)
  EveryUnder-insert_host at [] host c h k = (Every-new (P (at host)) c.path.segments c h, tt)
  EveryUnder-insert_host at ((key, tree) ∷ rest) host c h k =
      elim (Bool-cases (bytes_eq key host)) [
        | inl e ↦ rw e (
          Every-insert_candidate (P (at key)) c.path.segments c tree
              (subst (λ x. P (at x) c) (sym ((bytes_eq_iff key host).0 e)) h) k.0,
          k.1,
        )
        | inr e ↦ rw e (k.0, EveryUnder-insert_host at rest host c h k.1)
      ]

  EveryPlace-insert_under :
      (kind : HostPatternKind) (host : CompiledHostPattern) (base : Candidate) (r : Router)
      → host.kind ≡ kind
      → P (place_of host) (with_host_rank host.specificity.kind_rank base)
      → EveryPlace r
      → EveryPlace (insert_under host base r)
  unfolding insert_under
  EveryPlace-insert_under HostPatternKind.exact host base r e h k = rw e (
    k.0,
    EveryUnder-insert_host exact_host r.exact_hosts host.value
        (with_host_rank host.specificity.kind_rank base) (rw e at h) k.1,
    k.2,
  )
  EveryPlace-insert_under HostPatternKind.wildcard host base r e h k = rw e (
    k.0,
    k.1,
    EveryUnder-insert_host wildcard_host r.wildcard_hosts host.value
        (with_host_rank host.specificity.kind_rank base) (rw e at h) k.2,
  )

  EveryPlace-insert_hosts :
      (hosts : List CompiledHostPattern) (base : Candidate) (r : Router)
      → ((host : CompiledHostPattern)
          → In host hosts
          → P (place_of host) (with_host_rank host.specificity.kind_rank base))
      → EveryPlace r
      → EveryPlace (insert_hosts hosts base r)
  unfolding insert_hosts
  EveryPlace-insert_hosts [] base r f k = k
  EveryPlace-insert_hosts (host ∷ hosts) base r f k =
      EveryPlace-insert_hosts hosts base (insert_under host base r) (λ x i. f x (inr i))
        (EveryPlace-insert_under host.kind host base r refl (f host (inl refl)) k)

  EveryPlace-insert_route :
      (parts : CompiledRoute) (hosts : List CompiledHostPattern) (base : Candidate) (r : Router)
      → parts.hosts ≡ hosts
      → ((place : Place) (c : Candidate) → Offered parts base place c → P place c)
      → EveryPlace r
      → EveryPlace (insert_route hosts base r)
  unfolding insert_route
  EveryPlace-insert_route parts [] base r e f k = (
    Every-insert_candidate (P hostless) base.path.segments (with_host_rank 0 base) r.hostless
        (f hostless (with_host_rank 0 base) (inl (e, refl, refl))) k.0,
    k.1,
    k.2,
  )
  EveryPlace-insert_route parts (x ∷ hosts) base r e f k =
      EveryPlace-insert_hosts (x ∷ hosts) base r
        (λ host i.
          f (place_of host) (with_host_rank host.specificity.kind_rank base)
            (inr (host, subst (In host) (sym e) i, refl, refl)))
        k

  -- The tree of a host has the property there.
  pub EveryUnder-tree_of :
      (at : Bytes → Place) (trees : HostTrees) (host : Bytes) (tree : PathNode)
      → EveryUnder at trees
      → tree_of trees host ≡ some tree
      → Every (P (at host)) tree
  EveryUnder-tree_of at [] host tree k e = cc
  EveryUnder-tree_of at ((key, t) ∷ rest) host tree k e = elim (Bool-cases (bytes_eq key host)) [
    | inl f ↦
        subst (Every (P (at host))) (some-injective t tree (rw f at e))
          (subst (λ x. Every (P (at x)) t) ((bytes_eq_iff key host).0 f) k.0)
    | inr f ↦ EveryUnder-tree_of at rest host tree k.1 (rw f at e)
  ]

  EveryUnder-finalize_hosts :
      (at : Bytes → Place) (trees : HostTrees)
      → EveryUnder at trees
      → EveryUnder at (finalize_hosts trees)
  EveryUnder-finalize_hosts at [] k = tt
  EveryUnder-finalize_hosts at ((key, t) ∷ rest) k =
      (Every-finalize_node (P (at key)) t k.0, EveryUnder-finalize_hosts at rest k.1)

  pub EveryPlace-finalize_router : (r : Router) → EveryPlace r → EveryPlace (finalize_router r)
  EveryPlace-finalize_router r k = (
    Every-finalize_node (P hostless) r.hostless k.0,
    EveryUnder-finalize_hosts exact_host r.exact_hosts k.1,
    EveryUnder-finalize_hosts wildcard_host r.wildcard_hosts k.2,
  )

  module _ (lib : Library) (json : Json) where
    pub EveryPlace-compile_routes :
        (routes : List RouteSpec) (ids signatures : List Bytes) (r r' : Router)
        → ((place : Place) (c : Candidate) → Offers lib json routes place c → P place c)
        → EveryPlace r
        → compile_routes lib json routes ids signatures r ≡ some r'
        → EveryPlace r'
    unfolding compile_routes
    EveryPlace-compile_routes [] ids signatures r r' f k q =
        subst EveryPlace (some-injective r r' q) k
    EveryPlace-compile_routes (x ∷ routes) ids signatures r r' f k q =
        let (parts, a, b) = compile_routes-cases lib json x routes ids signatures r r' q in
        EveryPlace-compile_routes routes (x.id ∷ ids) (parts.signature ∷ signatures)
          (insert_route parts.hosts (base_candidate lib json x parts) r) r'
          (λ place c (route, parts', i, p, o). f place c (route, parts', inr i, p, o))
          (EveryPlace-insert_route parts parts.hosts (base_candidate lib json x parts) r refl
            (λ place c o. f place c (x, parts, inl refl, a, o)) k)
          b
