-- ===== src/Router/Routes.antt =====
-- internal/router as its clients see it: Compile and then Match, described by the routes alone.
pub mod Reached
pub mod Winner
pub mod Best
mod Tests
use g_gateway.Base.{ℕ, ◌≡◌, ◌⊎◌, Bool, true, some, List, [], In, Bytes}
use g_gateway.Router.Library.{Library}
use g_gateway.Router.Host.{CompiledHostPattern, normalize_request_host, match_host}
use g_gateway.Router.Tree.{Candidate}
use g_gateway.Router.Compile.{
  RouteSpec, Json, CompiledRoute, with_host_rank, base_candidate, compile_parts,
}
use g_gateway.Router.Match.{Request}

-- The candidates of the routes that apply to the request's host: that of a route without hosts, and
-- that of a route with a host pattern which matches the request's normal host.
module _ (lib : Library) (json : Json) (routes : List RouteSpec) (request : Request) where
  abbrev pub Matched : CompiledRoute → Candidate → Candidate → Type 0
  Matched parts base c =
      ((parts.hosts ≡ []) × (c ≡ with_host_rank 0 base))
      ⊎ ((pattern : CompiledHostPattern) × (host : Bytes) × In pattern parts.hosts
          × (normalize_request_host lib request.host ≡ some host)
          × (match_host pattern host ≡ true)
          × (c ≡ with_host_rank pattern.specificity.kind_rank base))

  abbrev pub Applies : Candidate → Type 0
  Applies c =
      (route : RouteSpec) × (parts : CompiledRoute) × In route routes
      × (compile_parts lib json route ≡ some parts)
      × Matched parts (base_candidate lib json route parts) c
