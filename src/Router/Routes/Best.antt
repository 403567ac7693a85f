-- ===== src/Router/Routes/Best.antt =====
-- Match on a compiled router: it returns the best of the candidates that apply, and only these.
use g_gateway.Base.{
  arith, ◌≡◌, refl, sym, ap, subst, some-injective, inl, inr, Bool, true, false, Option, none, some,
  is_some, List, [], ◌∷◌, Bytes,
}
use g_gateway.Base.Int.{ℤ}
use g_gateway.Router.Library.{Library}
use g_gateway.Router.Pattern.{ParamSpan, match_path}
use g_gateway.Router.Host.{normalize_request_host}
use g_gateway.Router.Predicate.{Fields, has_method, scan_raw_query}
use g_gateway.Router.Tree.{Candidate, empty_node}
use g_gateway.Router.Tree.Bounds.{Le}
use g_gateway.Router.Tree.Every.{Every-empty_node}
use g_gateway.Router.Compile.{Router, RouteSpec, Json, compile_routes, compile, finalize_router}
use g_gateway.Router.Compile.Stored.{hostless, Offers, Held-compile_routes}
use g_gateway.Router.Compile.Sources.{
  EveryPlace, EveryPlace-finalize_router, EveryPlace-compile_routes,
}
use g_gateway.Router.Match.{
  Request, Winner, MatcherState, Result, found, method_not_allowed, no_match, and_then,
  request_path, match_state, match, result_of, settled,
}
use g_gateway.Router.Match.Grows.{and_then-some}
use g_gateway.Router.Match.Covers.{Fits, Covers}
use g_gateway.Router.Match.Sound.{Earned, EarnedIfAny}
use g_gateway.Router.Routes.Winner.{match_state_sound}
use g_gateway.Router.Match.Best.{match_state-Covers}
use g_gateway.Router.Match.Succeeds.{match_state_succeeds}
use g_gateway.Router.Routes.{Applies}
use g_gateway.Router.Routes.Reached.{Held-Searched, Applies-Offers}

abbrev empty_router : Router
empty_router = record { exact_hosts = []; wildcard_hosts = []; hostless = empty_node }

abbrev start : MatcherState
start = record { best = none; allow = [] }

finalized :
    (o : Option Router) (r : Router)
    → (elim o as (λ _. Option Router) [ none ↦ none | some raw ↦ some (finalize_router raw) ])
      ≡ some r
    → (raw : Router) × (o ≡ some raw) × (finalize_router raw ≡ r)
finalized none r h = cc
finalized (some raw) r h = (raw, refl, some-injective (finalize_router raw) r h)

module _ (lib : Library) (json : Json) where
  -- Compile finalises what its loop has stored.
  compile-cases :
      (routes : List RouteSpec) (router : Router)
      → compile lib json routes ≡ some router
      → (raw : Router) × (compile_routes lib json routes [] [] empty_router ≡ some raw)
        × (finalize_router raw ≡ router)
  unfolding compile
  compile-cases [] router h = cc
  compile-cases (x ∷ routes) router h =
      finalized (compile_routes lib json (x ∷ routes) [] [] empty_router) router h

  module _ (routes : List RouteSpec) (router : Router) (request : Request)
      (compiled : compile lib json routes ≡ some router) where
    state-Covers :
        (c : Candidate) (st : MatcherState)
        → Applies lib json routes request c
        → Fits lib request (request_path request) c
        → match_state lib router request ≡ some st
        → Covers lib request (request_path request) c st
    state-Covers c st a fits q =
        let (raw, loop, e) = compile-cases routes router compiled in
        let (place, reached, o) = Applies-Offers lib request json routes c a in
        match_state-Covers lib raw request c st
          (Held-Searched lib request raw place c reached
            (Held-compile_routes lib json routes [] [] empty_router raw place c loop o))
          fits (subst (λ r. match_state lib r request ≡ some st) (sym e) q)

    state-Earned :
        (st : MatcherState)
        → match_state lib router request ≡ some st
        → EarnedIfAny lib request (request_path request) (Applies lib json routes request) st.best
    state-Earned st q =
        let (raw, loop, e) = compile-cases routes router compiled in
        let P = Offers lib json routes in
        let stored =
          EveryPlace-compile_routes P lib json routes [] [] empty_router raw (λ place c o. o)
            (Every-empty_node (P hostless), tt, tt) loop in
        match_state_sound lib json routes request router
          (subst (EveryPlace P) e (EveryPlace-finalize_router P raw stored)) st q

    -- A result that is found, with what makes it right.
    abbrev pub Wins : Candidate → Result → Type 0
    Wins c result =
        Applies lib json routes request c
        × Fits lib request (request_path request) c
        × (has_method c.methods request.method ≡ true)
        × (result ≡ found c.route_index (match_path c.path.segments (request_path request)).1)

    winner :
        (st : MatcherState) (w : Winner)
        → st.best ≡ some w
        → Earned lib request (request_path request) (Applies lib json routes request) w
        → (c : Candidate) × Wins c (result_of st) × (c.key ≡ w.key)
    unfolding result_of
    winner st w e (c, a, m, v, h, k) = (c, (a, (m, v), h, rw e (rw k refl)), rw k refl)

    best_of :
        (best : Option Winner) (st : MatcherState) (c : Candidate)
        → st.best ≡ best
        → settled best c.key ≡ true
        → EarnedIfAny lib request (request_path request) (Applies lib json routes request) best
        → (w : Candidate) × Wins w (result_of st) × Le c.key w.key
    best_of none st c e h k = cc
    best_of (some w) st c e h k =
        let (v, wins, same_key) = winner st w e k in (v, wins, subst (Le c.key) (sym same_key) h)

    best_covered :
        (st : MatcherState) (c : Candidate)
        → match_state lib router request ≡ some st
        → has_method c.methods request.method ≡ true
        → Covers lib request (request_path request) c st
        → (w : Candidate) × Wins w (result_of st) × Le c.key w.key
    best_covered st c q m (inl h) = best_of st.best st c refl h (state-Earned st q)
    best_covered st c q m (inr (n, a)) = absurd (clash m n)
      where
        clash : {b : Bool} → b ≡ true → b ≡ false → ⊥
        clash e k = cc

    returned : (o : Option MatcherState) → is_some o ≡ true → (st : MatcherState) × (o ≡ some st)
    returned none h = cc
    returned (some st) h = (st, refl)

    match_of :
        (st : MatcherState)
        → match_state lib router request ≡ some st
        → match lib router request ≡ some (result_of st)
    unfolding match and_then
    match_of st q = rw (q, and_then) refl

    -- Where the query scans, the host has a normal form, and a candidate of the routes applies, fits the
    -- request and has its method, Match on the compiled router returns a candidate of the routes that
    -- applies, fits and has the method, with its index and parameters, and whose key is at least that of
    -- the given candidate.
    pub match-Wins :
        (fields : Fields) (host : Bytes) (c : Candidate)
        → scan_raw_query lib request.raw_query ≡ some fields
        → normalize_request_host lib request.host ≡ some host
        → Applies lib json routes request c
        → Fits lib request (request_path request) c
        → has_method c.methods request.method ≡ true
        → (w : Candidate) × (result : Result) × (match lib router request ≡ some result)
          × Wins w result
          × Le c.key w.key
    match-Wins fields host c scans normal a fits m =
        let (st, q) =
          returned (match_state lib router request)
            (match_state_succeeds lib router request fields host scans normal) in
        let (w, wins, le) = best_covered st c q m (state-Covers c st a fits q) in
        (w, result_of st, match_of st q, wins, le)

    abbrev is_found : Result → Bool
    is_found (found index params) = true
    is_found (method_not_allowed allow) = false
    is_found no_match = false

    unfound : (st : MatcherState) → st.best ≡ none → is_found (result_of st) ≡ false
    unfolding result_of
    unfound st e = ground arith

    only :
        (index : ℤ) (params : List ParamSpan) (best : Option Winner) (st : MatcherState)
        → st.best ≡ best
        → EarnedIfAny lib request (request_path request) (Applies lib json routes request) best
        → result_of st ≡ found index params
        → (w : Candidate) × Wins w (result_of st)
    only index params none st e k f = absurd (clash (ap is_found f) (unfound st e))
      where
        clash : {b : Bool} → b ≡ true → b ≡ false → ⊥
        clash e k = cc
    only index params (some w) st e k f = let (c, wins, s) = winner st w e k in (c, wins)

    -- Whatever route Match finds on the compiled router is that of a candidate that applies, fits the
    -- request and has its method, with that candidate's parameters.
    pub match-Wins_only :
        (index : ℤ) (params : List ParamSpan)
        → match lib router request ≡ some (found index params)
        → (w : Candidate) × Wins w (found index params)
    unfolding match
    match-Wins_only index params q =
        let (st, a, b) = and_then-some (match_state lib router request) _ (found index params) q in
        let e = some-injective (result_of st) (found index params) b in
        let (w, wins) = only index params st.best st refl (state-Earned st a) e in
        (w, subst (Wins w) e wins)
