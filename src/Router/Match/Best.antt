-- ===== src/Router/Match/Best.antt =====
-- Match as a whole: it searches the trees of the request's host and the tree of the routes without
-- hosts, and decides by the best of all their candidates.
use g_gateway.Base.{
  some-injective, ℕ, zero, suc, ◌+◌, ◌≡◌, refl, sym, ap, ◌∙◌, subst, Bool, true, false, ◌&&◌,
  Option, none, some, List, [], ◌∷◌, Bytes, ◌⊎◌, inl, inr, bytes_eq, Bool-cases, Option-cases,
  index_byte, drop, if◌then◌else◌, arith,
}
use g_gateway.Base.Int.{ℤ}
use g_gateway.Router.Library.{Library}
use g_gateway.Router.Pattern.{ParamSpan}
use g_gateway.Router.Host.{normalize_request_host}
use g_gateway.Router.Predicate.{has_method}
use g_gateway.Router.Tree.{Candidate, PathNode, finalize_node}
use g_gateway.Router.Tree.Located.{At}
use g_gateway.Router.Tree.Finalize.{finalize_node-IsFinal, At-finalize_node}
use g_gateway.Router.Compile.{Router, HostTrees, tree_of, finalize_hosts, finalize_router}
use g_gateway.Router.Match.{
  Request, Winner, settled, MatcherState, and_then, visit, visit_tree, wildcard_tree, request_path,
  is_none, visit_host, visit_hosts, match_state, match, Result, found, result_of,
}
use g_gateway.Router.Match.Grows.{and_then-some, Grows, Grows-some}
use g_gateway.Router.Match.Visit.{visit-Grows}
use g_gateway.Router.Match.Descent.{match_path-Live}
use g_gateway.Router.Match.Covers.{Fits, Covers, Covers-Grows}
use g_gateway.Router.Match.Missed.{visit-Covers}

tree_of-finalize_hosts :
    (trees : HostTrees) (host : Bytes) (tree : PathNode)
    → tree_of trees host ≡ some tree
    → tree_of (finalize_hosts trees) host ≡ some (finalize_node tree)
tree_of-finalize_hosts [] host tree h = cc
tree_of-finalize_hosts ((key, t) ∷ rest) host tree h = elim (Bool-cases (bytes_eq key host)) [
  | inl e ↦ rw e (ap (λ x. some (finalize_node x)) (some-injective t tree (rw e at h)))
  | inr e ↦ rw e (tree_of-finalize_hosts rest host tree (rw e at h))
]

wildcard_tree-finalize_hosts :
    (trees : HostTrees) (host : Bytes) (tree : PathNode)
    → wildcard_tree trees host ≡ some tree
    → wildcard_tree (finalize_hosts trees) host ≡ some (finalize_node tree)
wildcard_tree-finalize_hosts trees host tree h = wildcard (index_byte host b'.') h
  where
    wildcard :
        (o : Option ℕ)
        → (elim o as (λ _. Option PathNode) [
          | none ↦ none
          | some zero ↦ none
          | some (suc i) ↦ tree_of trees (drop (i + 2) host)
        ])
          ≡ some tree
        → (elim o as (λ _. Option PathNode) [
          | none ↦ none
          | some zero ↦ none
          | some (suc i) ↦ tree_of (finalize_hosts trees) (drop (i + 2) host)
        ])
          ≡ some (finalize_node tree)
    wildcard none h = cc
    wildcard (some zero) h = cc
    wildcard (some (suc i)) h = tree_of-finalize_hosts trees (drop (i + 2) host) tree h

module _ (lib : Library) (request : Request) (path : Bytes) where
  -- A visit of a tree covers its candidates that fit, from any state.
  pub visit_finalized :
      (tree : PathNode) (v : Candidate) (st st' : MatcherState)
      → At tree v.path.segments v
      → Fits lib request path v
      → visit lib request path (finalize_node tree) 1 st ≡ some st'
      → Covers lib request path v st'
  visit_finalized tree v st st' h fits q =
      visit-Covers lib request path (finalize_node tree) v.path.segments 1 v st st'
        (finalize_node-IsFinal tree) (At-finalize_node tree v.path.segments v h)
        (match_path-Live path v.path.segments fits.0) fits q

  visit_tree-Grows :
      (tree : Option PathNode) (st st' : MatcherState)
      → visit_tree lib request path tree st ≡ some st'
      → Grows st st'
  unfolding visit_tree
  visit_tree-Grows none st st' q = Grows-some st st' q
  visit_tree-Grows (some tree) st st' q = visit-Grows lib request path tree 1 st st' q

  visit_tree-Covers :
      (found_tree : Option PathNode) (tree : PathNode) (v : Candidate) (st st' : MatcherState)
      → found_tree ≡ some (finalize_node tree)
      → At tree v.path.segments v
      → Fits lib request path v
      → visit_tree lib request path found_tree st ≡ some st'
      → Covers lib request path v st'
  unfolding visit_tree
  visit_tree-Covers found_tree tree v st st' e h fits q =
      visit_finalized tree v st st' h fits
        (subst (λ t. visit_tree lib request path t st ≡ some st') e q)

module _ (lib : Library) (router : Router) (request : Request) where
  -- The candidate lies in a tree that the request's host leads to, or in the one without hosts.
  abbrev pub Searched : Candidate → Type 0
  Searched v =
      At router.hostless v.path.segments v
      ⊎ ((host : Bytes) × (tree : PathNode) × (normalize_request_host lib request.host ≡ some host)
          × ((tree_of router.exact_hosts host ≡ some tree)
              ⊎ (wildcard_tree router.wildcard_hosts host ≡ some tree))
          × At tree v.path.segments v)

  visit_host-Covers :
      (host : Bytes) (tree : PathNode) (v : Candidate) (st st' : MatcherState)
      → (tree_of router.exact_hosts host ≡ some tree)
        ⊎ (wildcard_tree router.wildcard_hosts host ≡ some tree)
      → At tree v.path.segments v
      → Fits lib request (request_path request) v
      → visit_host lib (finalize_router router) request host st ≡ some st'
      → Covers lib request (request_path request) v st'
  unfolding visit_host
  visit_host-Covers host tree v st st' t h fits q =
      let path = request_path request in
      let exact = tree_of (finalize_hosts router.exact_hosts) host in
      let wild = wildcard_tree (finalize_hosts router.wildcard_hosts) host in
      let (m, a, b) = and_then-some (visit_tree lib request path exact st) _ st' q in
      elim t [
        | inl e ↦
            Covers-Grows lib request path v m st' (visit_tree-Grows lib request path wild m st' b) (
              visit_tree-Covers lib request path exact tree v st m
                (tree_of-finalize_hosts router.exact_hosts host tree e) h fits a)
        | inr e ↦
            visit_tree-Covers lib request path wild tree v m st'
              (wildcard_tree-finalize_hosts router.wildcard_hosts host tree e) h fits b
      ]

  -- A host with a tree makes visit_hosts read the request's host.
  nonempty_exact :
      (trees other : HostTrees) (host : Bytes) (tree : PathNode)
      → tree_of trees host ≡ some tree
      → (is_none (finalize_hosts trees) && is_none other) ≡ false
  nonempty_exact [] other host tree h = cc
  nonempty_exact ((key, t) ∷ rest) other host tree h = refl

  nonempty_wildcard :
      (trees other : HostTrees) (host : Bytes) (tree : PathNode)
      → wildcard_tree trees host ≡ some tree
      → (is_none other && is_none (finalize_hosts trees)) ≡ false
  nonempty_wildcard [] other host tree h = absurd (nothing (index_byte host b'.') h)
    where
      nothing :
          (o : Option ℕ)
          → (elim o as (λ _. Option PathNode) [
            | none ↦ none
            | some zero ↦ none
            | some (suc i) ↦ tree_of [] (drop (i + 2) host)
          ])
            ≡ some tree
          → ⊥
      nothing none h = cc
      nothing (some zero) h = cc
      nothing (some (suc i)) h = cc
  nonempty_wildcard ((key, t) ∷ rest) other host tree h = ground arith

  visit_hosts-Covers :
      (host : Bytes) (tree : PathNode) (v : Candidate) (st st' : MatcherState)
      → normalize_request_host lib request.host ≡ some host
      → (tree_of router.exact_hosts host ≡ some tree)
        ⊎ (wildcard_tree router.wildcard_hosts host ≡ some tree)
      → At tree v.path.segments v
      → Fits lib request (request_path request) v
      → visit_hosts lib (finalize_router router) request st ≡ some st'
      → Covers lib request (request_path request) v st'
  unfolding visit_hosts
  visit_hosts-Covers host tree v st st' n t h fits q =
      let exact = finalize_hosts router.exact_hosts in
      let wild = finalize_hosts router.wildcard_hosts in
      let used : (is_none exact && is_none wild) ≡ false = elim t [
        | inl e ↦ nonempty_exact router.exact_hosts wild host tree e
        | inr e ↦ nonempty_wildcard router.wildcard_hosts exact host tree e
      ] in
      let (host', a, b) = and_then-some (normalize_request_host lib request.host) _ st' (
        subst
          (λ c.
            (if c
              then some st
              else and_then (normalize_request_host lib request.host)
                  (λ x. visit_host lib (finalize_router router) request x st))
            ≡ some st')
          used q) in
      visit_host-Covers host tree v st st' t h fits (
        subst (λ x. visit_host lib (finalize_router router) request x st ≡ some st')
          (some-injective host' host (sym a ∙ n)) b)

  -- In the state that Match decides by, each candidate of the searched trees whose path and predicates
  -- match the request is covered: the winner's key is at least its key, or the request's method is not
  -- one of its methods and all of these are allowed. This holds whenever no error is returned.
  pub match_state-Covers :
      (v : Candidate) (st : MatcherState)
      → Searched v
      → Fits lib request (request_path request) v
      → match_state lib (finalize_router router) request ≡ some st
      → Covers lib request (request_path request) v st
  unfolding match_state
  match_state-Covers v st h fits q =
      let path = request_path request in
      let (m, a, b) =
        and_then-some
          (visit_hosts lib (finalize_router router) request (record { best = none; allow = [] })) _
          st q in
      elim h [
        | inl k ↦ visit_finalized lib request path router.hostless v m st k fits b
        | inr (host, tree, n, t, k) ↦
            Covers-Grows lib request path v m st
              (visit-Grows lib request path (finalize_node router.hostless) 1 m st b)
              (visit_hosts-Covers host tree v (record { best = none; allow = [] }) m n t k fits a)
      ]

  result_of-found :
      (v : Candidate) (st : MatcherState)
      → Covers lib request (request_path request) v st
      → has_method v.methods request.method ≡ true
      → (index : ℤ) × (params : List ParamSpan) × (result_of st ≡ found index params)
  unfolding result_of
  result_of-found v st c m = elim c [
    | inl e ↦ elim (Option-cases st.best) [
      | inl n ↦ absurd (empty_best n e)
      | inr (w, n) ↦ (w.route_index, w.params, rw n refl)
    ]
    | inr (r, a) ↦ absurd (clash m r)
  ]
    where
      clash : {b : Bool} → b ≡ true → b ≡ false → ⊥
      clash e k = cc

      empty_best : {b : Option Winner} → b ≡ none → settled b v.key ≡ true → ⊥
      empty_best {b = none} n e = cc
      empty_best {b = some w} n e = cc

  -- Where a candidate of the searched trees matches the path and the predicates and has the request's
  -- method, Match finds a route, unless it returns an error.
  pub match-found :
      (v : Candidate) (result : Result)
      → Searched v
      → Fits lib request (request_path request) v
      → has_method v.methods request.method ≡ true
      → match lib (finalize_router router) request ≡ some result
      → (index : ℤ) × (params : List ParamSpan) × (result ≡ found index params)
  unfolding match
  match-found v result h fits m q =
      let (st, a, b) =
        and_then-some (match_state lib (finalize_router router) request) _ result q in
      let (i, ps, e) = result_of-found v st (match_state-Covers v st h fits a) m in
      (i, ps, sym (some-injective (result_of st) result b) ∙ e)
