-- ===== src/Router/Compile.antt =====
-- internal/router/router.go: Compile. An error is `none`; a map is an association list.
pub mod Stored
pub mod Sources
use g_gateway.Base.{
  ℕ, Bool, true, false, ◌||◌, ◌&&◌, Option, none, some, List, [], ◌∷◌, ◌++◌, map, if◌then◌else◌,
  length, ◌==◌, any, Bytes, bytes, bytes_eq, bytes_lt, contains_bytes,
}
use g_gateway.Base.Int.{ℤ}
use g_gateway.Base.Order.{sort_by}
use g_gateway.Model.{RouteMatch, PredicateOperator}
use g_gateway.Router.Library.{Library}
use g_gateway.Router.Pattern.{CompiledPathPattern, compile_path_pattern}
use g_gateway.Router.Host.{HostPatternKind, CompiledHostPattern, compile_host_pattern}
use g_gateway.Router.Predicate.{
  FieldKind, CompiledPredicate, MethodSet, compile_methods, compile_predicates, sorted_values,
}
use g_gateway.Router.Tree.{
  Candidate, PathNode, empty_node, insert_candidate, finalize_node, make_precedence_key,
}

pub record RouteSpec : Type 0 where
  pub index : ℤ
  pub id : Bytes
  pub priority : ℤ
  pub match : RouteMatch

pub record CanonicalPredicate : Type 0 where
  pub kind : FieldKind
  pub name : Bytes
  pub operator : PredicateOperator
  pub values : List Bytes

pub record CanonicalRouteSignature : Type 0 where
  pub priority : ℤ
  pub path : Bytes
  pub hosts : List Bytes
  pub methods : List Bytes
  pub predicates : List CanonicalPredicate

-- json.Marshal on the two types it is called with.
pub record Json : Type 0 where
  pub marshal_predicate : CanonicalPredicate → Bytes
  pub marshal_signature : CanonicalRouteSignature → Option Bytes

abbrev pub HostTrees : Type 0
HostTrees = List (Bytes × PathNode)

pub record Router : Type 0 where
  pub exact_hosts : HostTrees
  pub wildcard_hosts : HostTrees
  pub hostless : PathNode

abbrev pub tree_of : HostTrees → Bytes → Option PathNode
tree_of [] host = none
tree_of ((key, tree) ∷ rest) host = if bytes_eq key host then some tree else tree_of rest host

-- An insertion into the tree of a host, which is made where there is none.
abbrev pub insert_host : HostTrees → Bytes → Candidate → HostTrees
insert_host [] host value = (host, insert_candidate value.path.segments value empty_node) ∷ []
insert_host ((key, tree) ∷ rest) host value =
    if bytes_eq key host
    then (key, insert_candidate value.path.segments value tree) ∷ rest
    else (key, tree) ∷ insert_host rest host value

abbrev same_kind : HostPatternKind → HostPatternKind → Bool
same_kind HostPatternKind.exact HostPatternKind.exact = true
same_kind HostPatternKind.wildcard HostPatternKind.wildcard = true
same_kind _ _ = false

abbrev has_host : List CompiledHostPattern → CompiledHostPattern → Bool
has_host seen host =
    any (λ (h : CompiledHostPattern). same_kind h.kind host.kind && bytes_eq h.value host.value)
      seen

-- The elements of a set that was filled from a list.
abbrev distinct : List Bytes → List Bytes
distinct [] = []
distinct (x ∷ xs) = if contains_bytes xs x then distinct xs else x ∷ distinct xs

abbrev host_text : CompiledHostPattern → Bytes
host_text host = elim host.kind [
  | HostPatternKind.exact ↦ bytes "=" ++ host.value
  | HostPatternKind.wildcard ↦ bytes "*." ++ host.value
]

module _ (lib : Library) where
  -- The loop of compileRouteHosts, with the hosts so far in `hosts`.
  unfoldable pub compile_hosts :
      List Bytes → List CompiledHostPattern → Option (List CompiledHostPattern)
  compile_hosts [] hosts = some hosts
  compile_hosts (pattern ∷ rest) hosts = elim (compile_host_pattern lib pattern) [
    | none ↦ none
    | some host ↦ if has_host hosts host then none else compile_hosts rest (hosts ++ host ∷ [])
  ]

  unfoldable pub compile_route_hosts : List Bytes → Option (List CompiledHostPattern)
  compile_route_hosts raw = compile_hosts raw []

module _ (json : Json) where
  abbrev canonical_predicate : CompiledPredicate → CanonicalPredicate
  canonical_predicate p = record {
    kind = p.kind;
    name = p.name;
    operator = p.operator;
    values = sort_by bytes_lt (distinct p.values);
  }

  unfoldable pub route_signature :
      ℤ → Bytes → List CompiledHostPattern → MethodSet → List CompiledPredicate → Option Bytes
  route_signature priority path hosts methods predicates = json.marshal_signature (record {
    priority = priority;
    path = path;
    hosts = sort_by bytes_lt (map host_text hosts);
    methods = sorted_values methods;
    predicates =
        sort_by
          (λ (l : CanonicalPredicate) (r : CanonicalPredicate).
            bytes_lt (json.marshal_predicate l) (json.marshal_predicate r))
          (map canonical_predicate predicates);
  })

abbrev pub with_host_rank : ℕ → Candidate → Candidate
with_host_rank rank base =
    let ranked = record base { host_rank = rank } in
    record ranked { key = make_precedence_key ranked }

-- The insertion of a route under one of its hosts, and under all of them.
unfoldable pub insert_under : CompiledHostPattern → Candidate → Router → Router
insert_under host base router =
    let current = with_host_rank host.specificity.kind_rank base in
    elim host.kind [
      | HostPatternKind.exact ↦ record router {
        exact_hosts = insert_host router.exact_hosts host.value current;
      }
      | HostPatternKind.wildcard ↦ record router {
        wildcard_hosts = insert_host router.wildcard_hosts host.value current;
      }
    ]

unfoldable pub insert_hosts : List CompiledHostPattern → Candidate → Router → Router
insert_hosts [] base router = router
insert_hosts (host ∷ hosts) base router = insert_hosts hosts base (insert_under host base router)

unfoldable pub insert_route : List CompiledHostPattern → Candidate → Router → Router
insert_route [] base router =
    let current = with_host_rank 0 base in
    record router { hostless = insert_candidate current.path.segments current router.hostless }
insert_route (host ∷ hosts) base router = insert_hosts (host ∷ hosts) base router

pub record CompiledRoute : Type 0 where
  pub path : CompiledPathPattern
  pub methods : MethodSet
  pub predicates : List CompiledPredicate
  pub hosts : List CompiledHostPattern
  pub signature : Bytes

abbrev pub finalize_hosts : HostTrees → HostTrees
finalize_hosts [] = []
finalize_hosts ((host, tree) ∷ rest) = (host, finalize_node tree) ∷ finalize_hosts rest

-- What Compile does after the loop: it finalises every tree.
abbrev pub finalize_router : Router → Router
finalize_router router = record {
  exact_hosts = finalize_hosts router.exact_hosts;
  wildcard_hosts = finalize_hosts router.wildcard_hosts;
  hostless = finalize_node router.hostless;
}

module _ (lib : Library) (json : Json) where
  -- The compiled parts of one route.
  unfoldable pub compile_parts : RouteSpec → Option CompiledRoute
  compile_parts route = elim (compile_path_pattern route.match.path) [
    | none ↦ none
    | some path ↦ elim (compile_methods route.match.methods) [
      | none ↦ none
      | some methods ↦ elim (compile_predicates lib route.match.headers route.match.queries) [
        | none ↦ none
        | some predicates ↦ elim (compile_route_hosts lib route.match.hosts) [
          | none ↦ none
          | some hosts ↦
              elim (route_signature json route.priority path.raw hosts methods predicates) [
                | none ↦ none
                | some signature ↦ some (record {
                  path = path;
                  methods = methods;
                  predicates = predicates;
                  hosts = hosts;
                  signature = signature;
                })
              ]
        ]
      ]
    ]
  ]

  abbrev pub base_candidate : RouteSpec → CompiledRoute → Candidate
  base_candidate route parts = record {
    route_index = route.index;
    route_id = route.id;
    priority = route.priority;
    host_rank = 0;
    path = parts.path;
    methods = parts.methods;
    predicates = parts.predicates;
    key = record {
      priority = route.priority;
      host_rank = 0;
      path_kind = 0;
      static_segments = 0;
      pattern_bytes = 0;
      predicate_count = 0;
      route_id = [];
    };
  }

  -- The loop of Compile over the routes.
  unfoldable pub compile_routes : List RouteSpec → List Bytes → List Bytes → Router → Option Router
  compile_routes [] ids signatures router = some router
  compile_routes (route ∷ routes) ids signatures router =
      if length (lib.trim_space route.id) == 0 || contains_bytes ids route.id
      then none
      else (elim (compile_parts route) [
        | none ↦ none
        | some parts ↦
            if contains_bytes signatures parts.signature
            then none
            else compile_routes routes (route.id ∷ ids) (parts.signature ∷ signatures)
                (insert_route parts.hosts (base_candidate route parts) router)
      ])

  unfoldable pub compile : List RouteSpec → Option Router
  compile [] = none
  compile (route ∷ routes) =
      let empty : Router = record {
        exact_hosts = [];
        wildcard_hosts = [];
        hostless = empty_node;
      } in
      elim (compile_routes (route ∷ routes) [] [] empty) [
        | none ↦ none
        | some router ↦ some (finalize_router router)
      ]
