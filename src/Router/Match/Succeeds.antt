-- ===== src/Router/Match/Succeeds.antt =====
-- When Match returns no error: the query scans, and the host has a normal form.
use g_gateway.Base.{
  ℕ, ◌+◌, ◌≡◌, refl, Bool, true, false, ◌&&◌, Option, none, some, is_some, List, [], ◌∷◌, Bytes,
  arith, if◌then◌else◌, ltb, length,
}
use g_gateway.Router.Library.{Library}
use g_gateway.Router.Pattern.{match_path, segment_end, slice}
use g_gateway.Router.Host.{normalize_request_host}
use g_gateway.Router.Predicate.{Fields, CompiledPredicate, scan_raw_query, evaluate}
use g_gateway.Router.Tree.{
  Candidate, PathNode, Children, MaybeNode, node, no_children, child, absent, present,
}
use g_gateway.Router.Compile.{Router, tree_of}
use g_gateway.Router.Match.{
  Request, MatcherState, and_then, accept, consider, consider_lists, visit, visit_static,
  visit_parameter, visit_tree, visit_host, visit_hosts, match_state, request_path, wildcard_tree,
  is_none, pruned, parameter_first, maybe_upper, child_upper,
}

and_then-some_of :
    {A B : Type 0} (o : Option A) (k : A → Option B)
    → is_some o ≡ true
    → ((a : A) → is_some (k a) ≡ true)
    → is_some (and_then o k) ≡ true
unfolding and_then
and_then-some_of none k h f = cc
and_then-some_of (some a) k h f = f a

either_some :
    {A : Type 0} (b : Bool) (x y : Option A)
    → is_some x ≡ true
    → is_some y ≡ true
    → is_some (if b then x else y) ≡ true
either_some true x y h k = h
either_some false x y h k = k

module _ (lib : Library) (request : Request) (path : Bytes) (fields : Fields)
    (scans : scan_raw_query lib request.raw_query ≡ some fields) where
  -- A query that scans makes every set of predicates evaluate.
  evaluate_succeeds :
      (ps : List CompiledPredicate)
      → is_some (evaluate lib ps request.headers request.raw_query) ≡ true
  unfolding evaluate
  evaluate_succeeds [] = refl
  evaluate_succeeds (p ∷ ps) = ground (arith, scans, evaluate_succeeds ps)

  consider_succeeds :
      (vs : List Candidate) (s : MatcherState) → is_some (consider lib request path vs s) ≡ true
  unfolding consider
  consider_succeeds [] s = refl
  consider_succeeds (v ∷ vs) s = ground (
    arith,
    evaluate_succeeds v.predicates,
    consider_succeeds vs s,
    consider_succeeds vs (accept lib request path v (match_path v.path.segments path).1 s),
  )

  consider_lists_succeeds :
      (t f c : List Candidate) (s : MatcherState)
      → is_some (consider_lists lib request path t f c s) ≡ true
  unfolding consider_lists
  consider_lists_succeeds t f c s =
      and_then-some_of (consider lib request path t s) _ (consider_succeeds t s) (λ s1.
        and_then-some_of (consider lib request path f s1) _ (consider_succeeds f s1)
          (λ s2. consider_succeeds c s2))

  mutual
    unfolding visit

    visit_node_succeeds :
        (n : PathNode) (position : ℕ) (s : MatcherState)
        → is_some (visit lib request path n position s) ≡ true
    visit_node_succeeds (node st p t f c u) position s =
        let end = segment_end path position in
        let text = slice path position end in
        let allowed = ltb position end in
        either_some (pruned s u) (some s) _ refl (
          and_then-some_of (consider_lists lib request path t f c s) _
            (consider_lists_succeeds t f c s)
            (λ s1. either_some (ltb (length path) position) (some s1) _ refl (
              either_some (allowed && parameter_first (maybe_upper p) (child_upper st text)) _ _
                (and_then-some_of (visit_parameter lib request path p allowed (end + 1) s1) _
                  (visit_parameter_succeeds p allowed (end + 1) s1)
                  (λ s2. visit_static_succeeds st text (end + 1) s2))
                (and_then-some_of (visit_static lib request path st text (end + 1) s1) _
                  (visit_static_succeeds st text (end + 1) s1)
                  (λ s2. visit_parameter_succeeds p allowed (end + 1) s2)))))

    visit_static_succeeds :
        (st : Children) (text : Bytes) (position : ℕ) (s : MatcherState)
        → is_some (visit_static lib request path st text position s) ≡ true
    visit_static_succeeds no_children text position s = refl
    visit_static_succeeds (child key n rest) text position s =
        ground (arith, visit_node_succeeds n position s, visit_static_succeeds rest text position s)

    visit_parameter_succeeds :
        (p : MaybeNode) (allowed : Bool) (position : ℕ) (s : MatcherState)
        → is_some (visit_parameter lib request path p allowed position s) ≡ true
    visit_parameter_succeeds absent allowed position s = refl
    visit_parameter_succeeds (present n) true position s = visit_node_succeeds n position s
    visit_parameter_succeeds (present n) false position s = refl

  visit_tree_succeeds :
      (tree : Option PathNode) (s : MatcherState)
      → is_some (visit_tree lib request path tree s) ≡ true
  unfolding visit_tree
  visit_tree_succeeds none s = refl
  visit_tree_succeeds (some tree) s = visit_node_succeeds tree 1 s

  pub visit_succeeds :
      (tree : PathNode) (s : MatcherState) → is_some (visit lib request path tree 1 s) ≡ true
  visit_succeeds tree s = visit_node_succeeds tree 1 s

  pub visit_option_succeeds :
      (tree : Option PathNode) (s : MatcherState)
      → is_some (visit_tree lib request path tree s) ≡ true
  visit_option_succeeds = visit_tree_succeeds

-- With a normal host too, Match returns a result.
pub match_state_succeeds :
    (lib : Library) (router : Router) (request : Request) (fields : Fields) (host : Bytes)
    → scan_raw_query lib request.raw_query ≡ some fields
    → normalize_request_host lib request.host ≡ some host
    → is_some (match_state lib router request) ≡ true
unfolding match_state visit_hosts visit_host
match_state_succeeds lib router request fields host scans normal =
    let path = request_path request in
    and_then-some_of (visit_hosts lib router request (record { best = none; allow = [] })) _
      (either_some (is_none router.exact_hosts && is_none router.wildcard_hosts)
        (some (record { best = none; allow = [] })) _ refl
        (and_then-some_of (normalize_request_host lib request.host) _ (ground (arith, normal)) (λ h.
          and_then-some_of
            (visit_tree lib request path (tree_of router.exact_hosts h)
              (record { best = none; allow = [] }))
            _
            (visit_option_succeeds lib request path fields scans (tree_of router.exact_hosts h)
              (record { best = none; allow = [] }))
            (λ s.
              visit_option_succeeds lib request path fields scans
                (wildcard_tree router.wildcard_hosts h) s))))
      (λ s. visit_succeeds lib request path fields scans router.hostless s)
