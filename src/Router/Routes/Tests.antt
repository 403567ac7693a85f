-- ===== src/Router/Routes/Tests.antt =====
-- Two routes compiled and matched.
use g_gateway.Base.{
  ◌≡◌, refl, true, false, Option, none, some, List, [], ◌∷◌, ◌++◌, Bytes, bytes, inl,
}
use g_gateway.Base.Int.{ℤ, pos}
use g_gateway.Base.Order.{sort_by, insert_by}
use g_gateway.Router.Library.{Library}
use g_gateway.Router.Pattern.{
  PathSegment, CompiledPathPattern, compile_path_pattern, compile_segments, compile_path_segment,
  step_segment, raw_segments, valid_parameter_name, match_path, match_segments, segment_end,
}
use g_gateway.Router.Host.{
  normalize_request_host, split_authority, trim_dot, compile_host_pattern, valid_dns_name,
  match_host,
}
use g_gateway.Router.Predicate.{
  compile_methods, add_methods, valid_http_token, standard_method_bit, has_method, evaluate,
  scan_raw_query, compile_predicates, compile_all, sorted_values,
}
use g_gateway.Router.Precedence.{compare_precedence}
use g_gateway.Router.Tree.{
  Candidate, empty_node, insert_candidate, finalize_node, sort_candidates, include_upper,
  make_precedence_key,
}
use g_gateway.Router.Tree.Bounds.{Le}
use g_gateway.Router.Compile.{
  Router, RouteSpec, Json, CompiledRoute, with_host_rank, base_candidate, insert_under,
  insert_hosts, insert_route, compile_hosts, compile_route_hosts, route_signature, compile_parts,
  compile_routes, compile,
}
use g_gateway.Router.Match.{
  Request, Result, found, request_path, match, match_state, visit, visit_host, visit_hosts,
  visit_tree, consider, consider_lists, accept, and_then, result_of,
}
use g_gateway.Router.Match.Covers.{Fits}
use g_gateway.Router.Routes.{Applies}
use g_gateway.Router.Routes.Best.{Wins, match-Wins, match-Wins_only}

machine : Unit {0}
unfolding compile compile_routes compile_parts compile_route_hosts compile_hosts
    compile_host_pattern normalize_request_host split_authority trim_dot valid_dns_name
    route_signature sorted_values compile_predicates compile_all insert_route insert_hosts
    insert_under compile_path_pattern compile_segments compile_path_segment step_segment
    raw_segments valid_parameter_name compile_methods add_methods valid_http_token
    standard_method_bit insert_candidate finalize_node sort_candidates include_upper
    make_precedence_key match match_state visit_hosts visit_host visit_tree visit consider
    consider_lists accept and_then result_of match_path match_segments segment_end has_method
    evaluate scan_raw_query compare_precedence sort_by insert_by match_host
machine = tt

abbrev plain : Library
plain = record {
  trim_space = λ s. s;
  to_lower = λ s. s;
  parse_addr = λ _. false;
  split_host_port = λ _. none;
  atoi = λ _. none;
  canonical_header = λ s. s;
  equal_fold = λ _ _. false;
  query_unescape = λ s. some s;
}

abbrev join : List Bytes → Bytes
join [] = []
join (s ∷ ss) = s ++ b',' ∷ join ss

abbrev json : Json
json = record {
  marshal_predicate = λ p. p.name;
  marshal_signature = λ s. some (s.path ++ join s.hosts ++ join s.methods);
}

abbrev get_route : ℤ → Bytes → Bytes → List Bytes → RouteSpec
get_route index id path hosts = record {
  index = index;
  id = id;
  priority = pos 1;
  match = record {
    hosts = hosts;
    path = path;
    methods = bytes "GET" ∷ [];
    headers = [];
    queries = [];
  };
}

abbrev routes : List RouteSpec
routes =
    get_route (pos 7) (bytes "users") (bytes "/users/{id}") []
    ∷ get_route (pos 8) (bytes "me") (bytes "/users/me") (bytes "*.a.com" ∷ [])
    ∷ []

abbrev get_me : Request
get_me = record {
  method = bytes "GET";
  host = bytes "www.a.com";
  path = bytes "/users/me";
  headers = [];
  raw_query = [];
}

abbrev or_else {ℓ} : {A : Type ℓ} → Option A → A → A
or_else none d = d
or_else (some a) d = a

router : Router
unfolding machine
router =
    or_else (compile plain json routes)
      (record { exact_hosts = []; wildcard_hosts = []; hostless = empty_node })

compiled : compile plain json routes ≡ some router
unfolding router machine
compiled = refl

answered : match plain router get_me ≡ some (found (pos 8) [])
unfolding router machine
answered = refl

abbrev user_path : CompiledPathPattern
user_path = record {
  raw = bytes "/users/{id}";
  segments = PathSegment.static (bytes "users") ∷ PathSegment.parameter (bytes "id") ∷ [];
  specificity = record {
    static_segments = 1;
    kind_rank = 2;
    segment_count = 2;
    pattern_bytes = 11;
  };
  param_count = 1;
}

abbrev users : CompiledRoute
users = record {
  path = user_path;
  methods = record { standard = 4; custom = [] };
  predicates = [];
  hosts = [];
  signature = bytes "/users/{id}GET,";
}

users_compiled :
    compile_parts plain json (get_route (pos 7) (bytes "users") (bytes "/users/{id}") [])
    ≡ some users
unfolding machine
users_compiled = refl

abbrev user_candidate : Candidate
user_candidate =
    with_host_rank 0
      (base_candidate plain json (get_route (pos 7) (bytes "users") (bytes "/users/{id}") []) users)

applies : Applies plain json routes get_me user_candidate
applies = (
  get_route (pos 7) (bytes "users") (bytes "/users/{id}") [],
  users,
  inl refl,
  users_compiled,
  inl (refl, refl),
)

fits : Fits plain get_me (request_path get_me) user_candidate
unfolding machine
fits = (refl, refl)

has_get : has_method users.methods (bytes "GET") ≡ true
unfolding machine
has_get = refl

no_query : scan_raw_query plain [] ≡ some []
unfolding machine
no_query = refl

normal : normalize_request_host plain (bytes "www.a.com") ≡ some (bytes "www.a.com")
unfolding machine
normal = refl

match-Wins_example :
    (w : Candidate) × (result : Result) × (match plain router get_me ≡ some result)
    × Wins plain json routes router get_me compiled w result
    × Le user_candidate.key w.key
match-Wins_example =
    match-Wins plain json routes router get_me compiled [] (bytes "www.a.com") user_candidate
      no_query normal applies fits has_get

match-Wins_only_example :
    (w : Candidate) × Wins plain json routes router get_me compiled w (found (pos 8) [])
match-Wins_only_example =
    match-Wins_only plain json routes router get_me compiled (pos 8) [] answered
