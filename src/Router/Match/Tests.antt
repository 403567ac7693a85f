-- ===== src/Router/Match/Tests.antt =====
-- Runs of Match on a small router, and witnesses.
use g_gateway.Base.{◌≡◌, ◌↔◌, refl, true, false, none, some, List, [], ◌∷◌, bytes, inl}
use g_gateway.Base.Int.{ℤ, pos}
use g_gateway.Base.Order.{sort_by, insert_by}
use g_gateway.Router.Library.{Library}
use g_gateway.Router.Pattern.{
  PathSegment, compile_path_pattern, compile_segments, compile_path_segment, step_segment,
  raw_segments, valid_parameter_name, match_path, match_segments, segment_end, CompiledPathPattern,
  ParamSpan,
}
use g_gateway.Router.Predicate.{
  MethodSet, compile_methods, add_methods, valid_http_token, standard_method_bit, has_method,
  evaluate,
}
use g_gateway.Router.Precedence.{PrecedenceKey, compare_precedence, higher, lower, same}
use g_gateway.Router.Precedence.Above.{IsAbove, compare_precedence-IsAbove}
use g_gateway.Router.Tree.{
  Candidate, empty_node, insert_candidate, finalize_node, sort_candidates, include_upper,
  make_precedence_key,
}
use g_gateway.Router.Tree.Located.{At-insert_candidate}
use g_gateway.Router.Compile.{Router, finalize_router}
use g_gateway.Router.Match.{
  Request, found, Winner, request_path, match, match_state, visit, visit_hosts, consider,
  consider_lists, accept, and_then, result_of,
}
use g_gateway.Router.Match.Covers.{Covers, Fits}
use g_gateway.Router.Tree.Bounds.{IsFinal}
use g_gateway.Router.Tree.Finalize.{finalize_node-IsFinal}
use g_gateway.Router.Match.Sound.{IsSound, visit-IsSound}
use g_gateway.Router.Tree.Every.{Every}
use g_gateway.Router.Match.Best.{match_state-Covers, match-found}

machine : Unit {0}
unfolding compile_path_pattern compile_segments compile_path_segment step_segment raw_segments
    valid_parameter_name compile_methods add_methods valid_http_token standard_method_bit
    insert_candidate finalize_node sort_candidates include_upper make_precedence_key match
    match_state visit_hosts visit consider consider_lists accept and_then result_of match_path
    match_segments segment_end has_method evaluate compare_precedence sort_by insert_by
machine = tt

-- A library of functions that leave ASCII text in lower case alone.
abbrev plain : Library
plain = record {
  trim_space = λ s. s;
  to_lower = λ s. s;
  parse_addr = λ _. false;
  split_host_port = λ _. none;
  atoi = λ _. none;
  canonical_header = λ s. s;
  equal_fold = λ _ _. false;
  query_unescape = λ s. some s;
}

-- The route 7: GET /users/{id}.
abbrev user_path : CompiledPathPattern
user_path = record {
  raw = bytes "/users/{id}";
  segments = PathSegment.static (bytes "users") ∷ PathSegment.parameter (bytes "id") ∷ [];
  specificity = record {
    static_segments = 1;
    kind_rank = 2;
    segment_count = 2;
    pattern_bytes = 11;
  };
  param_count = 1;
}

path_compiled : compile_path_pattern (bytes "/users/{id}") ≡ some user_path
unfolding machine
path_compiled = refl

abbrev get_only : MethodSet
get_only = record { standard = 4; custom = [] }

methods_compiled : compile_methods (bytes "get" ∷ []) ≡ some get_only
unfolding machine
methods_compiled = refl

abbrev user_key : PrecedenceKey
user_key = record {
  priority = pos 1;
  host_rank = 0;
  path_kind = 2;
  static_segments = 1;
  pattern_bytes = 11;
  predicate_count = 0;
  route_id = bytes "users";
}

abbrev user_route : Candidate
user_route = record {
  route_index = pos 7;
  route_id = bytes "users";
  priority = pos 1;
  host_rank = 0;
  path = user_path;
  methods = get_only;
  predicates = [];
  key = user_key;
}

user_key_made : make_precedence_key user_route ≡ user_key
unfolding machine
user_key_made = refl

abbrev small : Router
small = record {
  exact_hosts = [];
  wildcard_hosts = [];
  hostless = insert_candidate user_path.segments user_route empty_node;
}

abbrev get_user : Request
get_user = record {
  method = bytes "GET";
  host = bytes "h";
  path = bytes "/users/42";
  headers = [];
  raw_query = [];
}

abbrev user_winner : Winner
user_winner = record {
  key = user_key;
  route_index = pos 7;
  params = record { name = bytes "id"; start = 7; end = 9 } ∷ [];
}

decided :
    match_state plain (finalize_router small) get_user
    ≡ some (record { best = some user_winner; allow = [] })
unfolding machine
decided = refl

fits : Fits plain get_user (request_path get_user) user_route
unfolding machine
fits = (refl, refl)

match_state-Covers_example :
    Covers plain get_user
      (request_path get_user)
      user_route
      (record { best = some user_winner; allow = [] })
match_state-Covers_example =
    match_state-Covers plain small get_user user_route
      (record { best = some user_winner; allow = [] })
      (inl (At-insert_candidate user_path.segments user_route empty_node)) fits decided

answered : match plain (finalize_router small) get_user ≡ some (found (pos 7) user_winner.params)
unfolding machine
answered = refl

has_get : has_method get_only (bytes "GET") ≡ true
unfolding machine
has_get = refl

match-found_example :
    (index : ℤ) × (params : List ParamSpan) × (found (pos 7) user_winner.params
      ≡ found index params)
match-found_example =
    match-found plain small get_user user_route (found (pos 7) user_winner.params)
      (inl (At-insert_candidate user_path.segments user_route empty_node)) fits has_get answered

-- The tree of `small` once more, as the visits see it.
abbrev IsUserRoute : Candidate → Type 0
IsUserRoute c = c ≡ user_route

Every-IsUserRoute : Every IsUserRoute (finalize_node small.hostless)
unfolding machine Every
Every-IsUserRoute = (tt, tt, tt, ((tt, tt, tt, tt, ((refl, tt), tt, tt, tt, tt)), tt), tt)

visited :
    visit plain get_user
      (request_path get_user)
      (finalize_node small.hostless)
      1
      (record { best = none; allow = [] })
    ≡ some (record { best = some user_winner; allow = [] })
unfolding machine
visited = refl

visit-IsSound_example :
    IsSound plain get_user
      (request_path get_user)
      IsUserRoute
      (record { best = some user_winner; allow = [] })
visit-IsSound_example =
    visit-IsSound plain get_user (request_path get_user) IsUserRoute (finalize_node small.hostless)
      1 (record { best = none; allow = [] }) (record { best = some user_winner; allow = [] })
      Every-IsUserRoute tt visited

finalize_node-IsFinal_example : IsFinal (finalize_node small.hostless)
finalize_node-IsFinal_example = finalize_node-IsFinal small.hostless

-- Like the key of the user route, but with a longer pattern.
abbrev longer_key : PrecedenceKey
longer_key = record user_key { pattern_bytes = 12 }

compare_precedence-IsAbove_example :
    ((compare_precedence longer_key user_key ≡ higher) ↔ IsAbove longer_key user_key)
    × ((compare_precedence longer_key user_key ≡ lower) ↔ IsAbove user_key longer_key)
    × ((compare_precedence longer_key user_key ≡ same) ↔ (longer_key ≡ user_key))
compare_precedence-IsAbove_example = compare_precedence-IsAbove longer_key user_key
