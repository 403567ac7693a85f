-- ===== src/Router/Compile/Stored.antt =====
-- Compile stores each route's candidates: one for each of its hosts in the tree of that host, or one in
-- the tree without hosts.
use g_gateway.Base.{
  ◌≡◌, refl, sym, ap, subst, ◌∙◌, some-injective, ◌⊎◌, inl, inr, Bool, true, false, ◌||◌, ◌==◌,
  Option, none, some, List, [], ◌∷◌, In, Bytes, bytes_eq, bytes_eq_refl, Bool-cases, if◌then◌else◌,
  contains_bytes, length,
}
use g_gateway.Router.Library.{Library}
use g_gateway.Router.Host.{HostPatternKind, CompiledHostPattern}
use g_gateway.Router.Tree.{Candidate, PathNode, empty_node}
use g_gateway.Router.Tree.Located.{At, At-insert_candidate, At-insert_candidate_other}
use g_gateway.Router.Compile.{
  Router, RouteSpec, Json, HostTrees, CompiledRoute, tree_of, insert_host, with_host_rank,
  insert_under, insert_hosts, insert_route, base_candidate, compile_parts, compile_routes,
}

-- Where a candidate is stored: under no host, under an exact host, or under a wildcard's suffix.
pub data Place : Type 0 where
  hostless : Place
  exact_host wildcard_host : Bytes → Place

abbrev pub place_at : HostPatternKind → Bytes → Place
place_at HostPatternKind.exact value = exact_host value
place_at HostPatternKind.wildcard value = wildcard_host value

abbrev pub place_of : CompiledHostPattern → Place
place_of host = place_at host.kind host.value

-- The candidates that a compiled route offers, each with its place.
abbrev pub Offered : CompiledRoute → Candidate → Place → Candidate → Type 0
Offered parts base place c =
    ((parts.hosts ≡ []) × (place ≡ hostless) × (c ≡ with_host_rank 0 base))
    ⊎ ((host : CompiledHostPattern) × In host parts.hosts
        × (place ≡ place_of host)
        × (c ≡ with_host_rank host.specificity.kind_rank base))

abbrev pub Under : HostTrees → Bytes → Candidate → Type 0
Under [] host c = ⊥
Under ((key, tree) ∷ rest) host c =
    ((bytes_eq key host ≡ true) × At tree c.path.segments c)
    ⊎ ((bytes_eq key host ≡ false) × Under rest host c)

pub Under-tree_of :
    (trees : HostTrees) (host : Bytes) (c : Candidate)
    → Under trees host c
    → (tree : PathNode) × (tree_of trees host ≡ some tree) × At tree c.path.segments c
Under-tree_of [] host c h = elim h [ ]
Under-tree_of ((key, tree) ∷ rest) host c (inl (e, h)) = (tree, rw e refl, h)
Under-tree_of ((key, tree) ∷ rest) host c (inr (e, h)) =
    let (t, f, k) = Under-tree_of rest host c h in (t, rw e f, k)

abbrev pub Held : Router → Place → Candidate → Type 0
Held r hostless c = At r.hostless c.path.segments c
Held r (exact_host host) c = Under r.exact_hosts host c
Held r (wildcard_host host) c = Under r.wildcard_hosts host c

Under-insert_host :
    (trees : HostTrees) (host : Bytes) (c : Candidate) → Under (insert_host trees host c) host c
Under-insert_host [] host c =
    inl (bytes_eq_refl host, At-insert_candidate c.path.segments c empty_node)
Under-insert_host ((key, tree) ∷ rest) host c = elim (Bool-cases (bytes_eq key host)) [
  | inl e ↦ rw e (inl (e, At-insert_candidate c.path.segments c tree))
  | inr e ↦ rw e (inr (e, Under-insert_host rest host c))
]

-- What is under a host stays there when a candidate is inserted under the same host or another.
Under-insert_host_other :
    (trees : HostTrees) (host key : Bytes) (w c : Candidate)
    → Under trees key c
    → Under (insert_host trees host w) key c
Under-insert_host_other [] host key w c h = elim h [ ]
Under-insert_host_other ((k, tree) ∷ rest) host key w c (inl (e, h)) =
    elim (Bool-cases (bytes_eq k host)) [
      | inl f ↦ rw f (inl (e, At-insert_candidate_other w.path.segments w tree c.path.segments c h))
      | inr f ↦ rw f (inl (e, h))
    ]
Under-insert_host_other ((k, tree) ∷ rest) host key w c (inr (e, h)) =
    elim (Bool-cases (bytes_eq k host)) [
      | inl f ↦ rw f (inr (e, h))
      | inr f ↦ rw f (inr (e, Under-insert_host_other rest host key w c h))
    ]

-- An insertion under one host: it holds its candidate, and all that was held.
Held-insert_under :
    (kind : HostPatternKind) (host : CompiledHostPattern) (base : Candidate) (r : Router)
    → host.kind ≡ kind
    → Held
        (insert_under host base r)
        (place_of host)
        (with_host_rank host.specificity.kind_rank base)
unfolding insert_under
Held-insert_under HostPatternKind.exact host base r e =
    rw e
      (Under-insert_host r.exact_hosts host.value (with_host_rank host.specificity.kind_rank base))
Held-insert_under HostPatternKind.wildcard host base r e =
    rw e (
      Under-insert_host r.wildcard_hosts host.value
        (with_host_rank host.specificity.kind_rank base))

Held-insert_under_other :
    (kind : HostPatternKind) (host : CompiledHostPattern) (base : Candidate) (r : Router)
    (place : Place) (c : Candidate)
    → host.kind ≡ kind
    → Held r place c
    → Held (insert_under host base r) place c
unfolding insert_under
Held-insert_under_other HostPatternKind.exact host base r hostless c e h = rw e h
Held-insert_under_other HostPatternKind.exact host base r (exact_host key) c e h = rw e (
    Under-insert_host_other r.exact_hosts host.value key
      (with_host_rank host.specificity.kind_rank base) c h)
Held-insert_under_other HostPatternKind.exact host base r (wildcard_host key) c e h = rw e h
Held-insert_under_other HostPatternKind.wildcard host base r hostless c e h = rw e h
Held-insert_under_other HostPatternKind.wildcard host base r (exact_host key) c e h = rw e h
Held-insert_under_other HostPatternKind.wildcard host base r (wildcard_host key) c e h = rw e (
    Under-insert_host_other r.wildcard_hosts host.value key
      (with_host_rank host.specificity.kind_rank base) c h)

Held-insert_hosts_other :
    (hosts : List CompiledHostPattern) (base : Candidate) (r : Router) (place : Place)
    (c : Candidate)
    → Held r place c
    → Held (insert_hosts hosts base r) place c
unfolding insert_hosts
Held-insert_hosts_other [] base r place c h = h
Held-insert_hosts_other (host ∷ hosts) base r place c h =
    Held-insert_hosts_other hosts base (insert_under host base r) place c
      (Held-insert_under_other host.kind host base r place c refl h)

Held-insert_hosts :
    (hosts : List CompiledHostPattern) (base : Candidate) (r : Router) (host : CompiledHostPattern)
    → In host hosts
    → Held
        (insert_hosts hosts base r)
        (place_of host)
        (with_host_rank host.specificity.kind_rank base)
unfolding insert_hosts
Held-insert_hosts [] base r host h = elim h [ ]
Held-insert_hosts (x ∷ hosts) base r host (inl e) =
    Held-insert_hosts_other hosts base (insert_under x base r) (place_of host)
      (with_host_rank host.specificity.kind_rank base)
      (rw e (Held-insert_under x.kind x base r refl))
Held-insert_hosts (x ∷ hosts) base r host (inr h) =
    Held-insert_hosts hosts base (insert_under x base r) host h

Held-insert_route_other :
    (hosts : List CompiledHostPattern) (base : Candidate) (r : Router) (place : Place)
    (c : Candidate)
    → Held r place c
    → Held (insert_route hosts base r) place c
unfolding insert_route
Held-insert_route_other [] base r hostless c h =
    At-insert_candidate_other base.path.segments (with_host_rank 0 base) r.hostless c.path.segments
      c h
Held-insert_route_other [] base r (exact_host key) c h = h
Held-insert_route_other [] base r (wildcard_host key) c h = h
Held-insert_route_other (host ∷ hosts) base r place c h =
    Held-insert_hosts_other (host ∷ hosts) base r place c h

Held-insert_route :
    (parts : CompiledRoute) (hosts : List CompiledHostPattern) (base : Candidate) (r : Router)
    (place : Place) (c : Candidate)
    → parts.hosts ≡ hosts
    → Offered parts base place c
    → Held (insert_route hosts base r) place c
unfolding insert_route
Held-insert_route parts [] base r place c e (inl (n, p, q)) =
    rw (p, q) (At-insert_candidate base.path.segments (with_host_rank 0 base) r.hostless)
Held-insert_route parts (x ∷ hosts) base r place c e (inl (n, p, q)) = cc
Held-insert_route parts [] base r place c e (inr (host, k, p, q)) = elim (rw e at k) [ ]
Held-insert_route parts (x ∷ hosts) base r place c e (inr (host, k, p, q)) =
    rw (p, q) (Held-insert_hosts (x ∷ hosts) base r host (rw e at k))

-- A turn of the loop of Compile that does not fail.
pub loop-cases :
    (b : Bool) (o : Option CompiledRoute) (k : CompiledRoute → Bool)
    (f : CompiledRoute → Option Router) (r : Router)
    → (if b then none else (elim o [ none ↦ none | some p ↦ if k p then none else f p ])) ≡ some r
    → (p : CompiledRoute) × (o ≡ some p) × (f p ≡ some r)
loop-cases true o k f r h = cc
loop-cases false none k f r h = cc
loop-cases false (some p) k f r h = (p, refl, passed (k p) h)
  where
    passed : (b : Bool) → (if b then none else f p) ≡ some r → f p ≡ some r
    passed true h = cc
    passed false h = h

module _ (lib : Library) (json : Json) where
  pub compile_routes-cases :
      (route : RouteSpec) (routes : List RouteSpec) (ids signatures : List Bytes) (r r' : Router)
      → compile_routes lib json (route ∷ routes) ids signatures r ≡ some r'
      → (parts : CompiledRoute) × (compile_parts lib json route ≡ some parts)
        × (compile_routes lib json routes
              (route.id ∷ ids)
              (parts.signature ∷ signatures)
              (insert_route parts.hosts (base_candidate lib json route parts) r)
            ≡ some r')
  unfolding compile_routes
  compile_routes-cases route routes ids signatures r r' h =
      loop-cases (length (lib.trim_space route.id) == 0 || contains_bytes ids route.id)
        (compile_parts lib json route) (λ parts. contains_bytes signatures parts.signature) _ r' h

  Held-compile_routes_other :
      (routes : List RouteSpec) (ids signatures : List Bytes) (r r' : Router) (place : Place)
      (c : Candidate)
      → compile_routes lib json routes ids signatures r ≡ some r'
      → Held r place c
      → Held r' place c
  unfolding compile_routes
  Held-compile_routes_other [] ids signatures r r' place c q h =
      subst (λ x. Held x place c) (some-injective r r' q) h
  Held-compile_routes_other (route ∷ routes) ids signatures r r' place c q h =
      let (parts, a, b) = compile_routes-cases route routes ids signatures r r' q in
      Held-compile_routes_other routes (route.id ∷ ids) (parts.signature ∷ signatures)
        (insert_route parts.hosts (base_candidate lib json route parts) r) r' place c b
        (Held-insert_route_other parts.hosts (base_candidate lib json route parts) r place c h)

  -- A candidate of one of the routes, with its place.
  abbrev pub Offers : List RouteSpec → Place → Candidate → Type 0
  Offers routes place c =
      (route : RouteSpec) × (parts : CompiledRoute) × In route routes
      × (compile_parts lib json route ≡ some parts)
      × Offered parts (base_candidate lib json route parts) place c

  -- What a successful loop holds.
  pub Held-compile_routes :
      (routes : List RouteSpec) (ids signatures : List Bytes) (r r' : Router) (place : Place)
      (c : Candidate)
      → compile_routes lib json routes ids signatures r ≡ some r'
      → Offers routes place c
      → Held r' place c
  Held-compile_routes [] ids signatures r r' place c q (route, parts, k, p, o) = elim k [ ]
  Held-compile_routes (x ∷ routes) ids signatures r r' place c q (route, parts, inl e, p, o) =
      let (parts', a, b) = compile_routes-cases x routes ids signatures r r' q in
      Held-compile_routes_other routes (x.id ∷ ids) (parts'.signature ∷ signatures)
        (insert_route parts'.hosts (base_candidate lib json x parts') r) r' place c b
        (Held-insert_route parts' parts'.hosts (base_candidate lib json x parts') r place c refl (
          subst (λ y. Offered parts' (base_candidate lib json y parts') place c) e
            (subst (λ y. Offered y (base_candidate lib json route y) place c)
              (some-injective parts parts' (sym p ∙ ap (compile_parts lib json) e ∙ a)) o)))
  Held-compile_routes (x ∷ routes) ids signatures r r' place c q (route, parts, inr k, p, o) =
      let (parts', a, b) = compile_routes-cases x routes ids signatures r r' q in
      Held-compile_routes routes (x.id ∷ ids) (parts'.signature ∷ signatures)
        (insert_route parts'.hosts (base_candidate lib json x parts') r) r' place c b
        (route, parts, k, p, o)
