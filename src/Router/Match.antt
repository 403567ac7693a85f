-- ===== src/Router/Match.antt =====
-- internal/router/router.go: Match. The error of a malformed query, or of a malformed host, is `none`.
pub mod Grows
pub mod Visit
pub mod Descent
pub mod Covers
pub mod Missed
pub mod Sound
pub mod Best
pub mod Succeeds
mod Tests
use g_gateway.Base.{
  ℕ, zero, suc, ◌+◌, Bool, true, false, not, ◌&&◌, Option, none, some, List, [], ◌∷◌, ltb,
  if◌then◌else◌, filterb, drop, length, Bytes, bytes, bytes_lt, index_byte, bytes_eq,
  contains_bytes,
}
use g_gateway.Base.Int.{ℤ}
use g_gateway.Base.Order.{sort_by}
use g_gateway.Router.Library.{Library}
use g_gateway.Router.Pattern.{ParamSpan, match_path, segment_end, slice}
use g_gateway.Router.Host.{normalize_request_host}
use g_gateway.Router.Predicate.{Fields, MethodSet, standard_methods, has_method, evaluate}
use g_gateway.Router.Precedence.{PrecedenceKey, compare_precedence, at_most, is_higher}
use g_gateway.Router.Tree.{Candidate, PathNode, Children, MaybeNode, upper_of}
use g_gateway.Router.Compile.{Router, HostTrees, tree_of}

-- An error ends the computation.
unfoldable pub and_then : {A B : Type 0} → Option A → (A → Option B) → Option B
and_then none k = none
and_then (some a) k = k a

-- What Match reads of the request.
pub record Request : Type 0 where
  pub method : Bytes
  pub host : Bytes
  pub path : Bytes
  pub headers : Fields
  pub raw_query : Bytes

pub record Winner : Type 0 where
  pub key : PrecedenceKey
  pub route_index : ℤ
  pub params : List ParamSpan

-- What matcherState keeps: the best candidate, where one is found, and the set of allowed methods.
pub record MatcherState : Type 0 where
  pub best : Option Winner
  pub allow : List Bytes

-- The test `found && comparePrecedence(key, best) <= 0`.
abbrev pub settled : Option Winner → PrecedenceKey → Bool
settled none key = false
settled (some winner) key = at_most (compare_precedence key winner.key)

abbrev pub add_missing : List Bytes → List Bytes → List Bytes
add_missing [] set = set
add_missing (m ∷ ms) set = add_missing ms (if contains_bytes set m then set else m ∷ set)

unfoldable pub add_allow : MethodSet → List Bytes → List Bytes
add_allow methods allow =
    add_missing methods.custom (add_missing (filterb (has_method methods) standard_methods) allow)

-- The upper bound of the child that the segment leads to, where there is one.
abbrev pub child_upper : Children → Bytes → Option (Option PrecedenceKey)
child_upper Children.no_children text = none
child_upper (Children.child key n rest) text =
    if bytes_eq key text then some (upper_of n) else child_upper rest text

abbrev pub maybe_upper : MaybeNode → Option (Option PrecedenceKey)
maybe_upper MaybeNode.absent = none
maybe_upper (MaybeNode.present n) = some (upper_of n)

-- Whether both children are there and compareNodeUpper puts the parameter child first.
abbrev pub parameter_first : Option (Option PrecedenceKey) → Option (Option PrecedenceKey) → Bool
parameter_first (some none) (some static) = false
parameter_first (some (some parameter)) (some none) = true
parameter_first (some (some parameter)) (some (some static)) =
    is_higher (compare_precedence parameter static)
parameter_first _ _ = false

abbrev pub pruned : MatcherState → Option PrecedenceKey → Bool
pruned s none = true
pruned s (some upper) = settled s.best upper

module _ (lib : Library) (request : Request) (path : Bytes) where
  -- The rest of the turn of consider's loop after the path has matched and the predicates hold.
  unfoldable pub accept : Candidate → List ParamSpan → MatcherState → MatcherState
  accept value params s =
      if has_method value.methods request.method
      then record s {
        best = some (record { key = value.key; route_index = value.route_index; params = params });
      }
      else record s { allow = add_allow value.methods s.allow }

  unfoldable pub consider : List Candidate → MatcherState → Option MatcherState
  consider [] s = some s
  consider (value ∷ values) s =
      let skip = consider values s in
      let (matches, params) = match_path value.path.segments path in
      let next = consider values (accept value params s) in
      if settled s.best value.key
      then some s
      else if not matches
      then skip
      else (elim (evaluate lib value.predicates request.headers request.raw_query) [
        | none ↦ none
        | some true ↦ next
        | some false ↦ skip
      ])

  -- The three calls of consider in visit.
  unfoldable pub consider_lists :
      List Candidate → List Candidate → List Candidate → MatcherState → Option MatcherState
  consider_lists terminal prefix_list catch_all s =
      and_then (consider terminal s) (λ s1. and_then (consider prefix_list s1) (consider catch_all))

  unfoldable mutual
    pub visit : PathNode → ℕ → MatcherState → Option MatcherState
    visit (PathNode.node static parameter terminal prefix_list catch_all upper) position s =
        let end = segment_end path position in
        let text = slice path position end in
        let allowed = ltb position end in
        let first = allowed && parameter_first (maybe_upper parameter) (child_upper static text) in
        if pruned s upper
        then some s
        else and_then (consider_lists terminal prefix_list catch_all s) (λ s1.
          if ltb (length path) position
          then some s1
          else if first
          then and_then (visit_parameter parameter allowed (end + 1) s1)
              (λ s2. visit_static static text (end + 1) s2)
          else and_then (visit_static static text (end + 1) s1)
              (λ s2. visit_parameter parameter allowed (end + 1) s2))

    pub visit_static : Children → Bytes → ℕ → MatcherState → Option MatcherState
    visit_static Children.no_children text position s = some s
    visit_static (Children.child key n rest) text position s = elim (bytes_eq key text) [
      | true ↦ visit n position s
      | false ↦ visit_static rest text position s
    ]

    -- The parameter child is nil where the segment is empty.
    pub visit_parameter : MaybeNode → Bool → ℕ → MatcherState → Option MatcherState
    visit_parameter MaybeNode.absent allowed position s = some s
    visit_parameter (MaybeNode.present n) allowed position s = elim allowed [
      | true ↦ visit n position s
      | false ↦ some s
    ]

  unfoldable pub visit_tree : Option PathNode → MatcherState → Option MatcherState
  visit_tree none s = some s
  visit_tree (some tree) s = visit tree 1 s

pub data Result : Type 0 where
  found : ℤ → List ParamSpan → Result
  method_not_allowed : List Bytes → Result
  no_match : Result

unfoldable pub result_of : MatcherState → Result
result_of s = elim s.best [
  | some winner ↦ found winner.route_index winner.params
  | none ↦ elim s.allow [ [] ↦ no_match | m ∷ ms ↦ method_not_allowed (sort_by bytes_lt (m ∷ ms)) ]
]

abbrev pub is_none {ℓ} : {A : Type ℓ} → List A → Bool
is_none [] = true
is_none (x ∷ xs) = false

abbrev pub request_path : Request → Bytes
request_path request = if is_none request.path then bytes "/" else request.path

-- The tree of the wildcard that stands for the first label of the host.
abbrev pub wildcard_tree : HostTrees → Bytes → Option PathNode
wildcard_tree trees host = elim (index_byte host b'.') [
  | none ↦ none
  | some zero ↦ none
  | some (suc i) ↦ tree_of trees (drop (i + 2) host)
]

module _ (lib : Library) (router : Router) (request : Request) where
  -- The visits of the trees of a host.
  unfoldable pub visit_host : Bytes → MatcherState → Option MatcherState
  visit_host host s =
      and_then (visit_tree lib request (request_path request) (tree_of router.exact_hosts host) s)
        (λ s1.
          visit_tree lib request (request_path request) (wildcard_tree router.wildcard_hosts host)
            s1)

  unfoldable pub visit_hosts : MatcherState → Option MatcherState
  visit_hosts s =
      if is_none router.exact_hosts && is_none router.wildcard_hosts
      then some s
      else and_then (normalize_request_host lib request.host) (λ host. visit_host host s)

  -- The state after the visits of Match.
  unfoldable pub match_state : Option MatcherState
  match_state =
      and_then (visit_hosts (record { best = none; allow = [] }))
        (λ s. visit lib request (request_path request) router.hostless 1 s)

  unfoldable pub match : Option Result
  match = and_then match_state (λ s. some (result_of s))
