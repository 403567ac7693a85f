-- ===== src/Router/Routes/Reached.antt =====
-- The places that Match reads for a request are those of the host patterns that match its host.
use g_gateway.Base.{
  ℕ, suc, ◌+◌, ◌≡◌, refl, sym, ap, ◌∙◌, subst, inl, inr, true, some, List, Bytes, bytes_eq_iff,
  bytes_eq_refl, index_byte, drop,
}
use g_gateway.Router.Library.{Library}
use g_gateway.Router.Host.{HostPatternKind, CompiledHostPattern, normalize_request_host, match_host}
use g_gateway.Router.Host.Lookup.{match_exact, match_wildcard, wildcard_match}
use g_gateway.Router.Tree.{Candidate}
use g_gateway.Router.Compile.{Router, RouteSpec, Json, HostTrees, tree_of}
use g_gateway.Router.Compile.Stored.{
  Place, hostless, exact_host, wildcard_host, place_at, place_of, Offers, Under-tree_of, Held,
}
use g_gateway.Router.Match.{Request, wildcard_tree}
use g_gateway.Router.Match.Best.{Searched}
use g_gateway.Router.Routes.{Applies}

module _ (lib : Library) (request : Request) where
  -- The places that a visit reads.
  abbrev pub Reached : Place → Type 0
  Reached hostless = Unit
  Reached (exact_host h) = normalize_request_host lib request.host ≡ some h
  Reached (wildcard_host suffix) =
      (host : Bytes) × (i : ℕ) × (normalize_request_host lib request.host ≡ some host)
      × (index_byte host b'.' ≡ some (suc i))
      × (drop (i + 2) host ≡ suffix)

  place_Reached :
      (kind : HostPatternKind) (pattern : CompiledHostPattern) (host : Bytes)
      → pattern.kind ≡ kind
      → normalize_request_host lib request.host ≡ some host
      → match_host pattern host ≡ true
      → Reached (place_of pattern)
  place_Reached HostPatternKind.exact pattern host e n m =
      rw e
        (n ∙ ap some ((bytes_eq_iff host pattern.value).0 (sym (match_exact pattern host e) ∙ m)))
  place_Reached HostPatternKind.wildcard pattern host e n m =
      let (i, f, d) = match_wildcard pattern host e m in rw e (host, i, n, f, d)

  Reached-match :
      (kind : HostPatternKind) (pattern : CompiledHostPattern) (place : Place)
      → pattern.kind ≡ kind
      → place ≡ place_of pattern
      → Reached place
      → (host : Bytes) × (normalize_request_host lib request.host ≡ some host)
        × (match_host pattern host ≡ true)
  Reached-match HostPatternKind.exact pattern place e p r =
      let n : normalize_request_host lib request.host ≡ some pattern.value =
        subst (λ k. Reached (place_at k pattern.value)) e (subst Reached p r) in
      (pattern.value, n, match_exact pattern pattern.value e ∙ bytes_eq_refl pattern.value)
  Reached-match HostPatternKind.wildcard pattern place e p r =
      let (host, i, n, f, d) : (host : Bytes) × (i : ℕ) × (normalize_request_host lib request.host
            ≡ some host)
          × (index_byte host b'.' ≡ some (suc i))
          × (drop (i + 2) host ≡ pattern.value) =
        subst (λ k. Reached (place_at k pattern.value)) e (subst Reached p r) in
      (host, n, wildcard_match pattern host i e f d)

  wildcard_tree_at :
      (trees : HostTrees) (host : Bytes) (i : ℕ)
      → index_byte host b'.' ≡ some (suc i)
      → wildcard_tree trees host ≡ tree_of trees (drop (i + 2) host)
  wildcard_tree_at trees host i e = rw (e, wildcard_tree) refl

  -- What is held at a place that is read is searched.
  pub Held-Searched :
      (r : Router) (place : Place) (c : Candidate)
      → Reached place
      → Held r place c
      → Searched lib r request c
  Held-Searched r hostless c reached h = inl h
  Held-Searched r (exact_host host) c reached h =
      let (tree, e, k) = Under-tree_of r.exact_hosts host c h in inr (host, tree, reached, inl e, k)
  Held-Searched r (wildcard_host suffix) c (host, i, n, f, d) h =
      let (tree, e, k) = Under-tree_of r.wildcard_hosts suffix c h in
      inr (
        host,
        tree,
        n,
        inr (wildcard_tree_at r.wildcard_hosts host i f ∙ ap (tree_of r.wildcard_hosts) d ∙ e),
        k,
      )

  module _ (json : Json) (routes : List RouteSpec) where
    pub Applies-Offers :
        (c : Candidate)
        → Applies lib json routes request c
        → (place : Place) × Reached place × Offers lib json routes place c
    Applies-Offers c (route, parts, i, p, inl (e, k)) =
        (hostless, tt, (route, parts, i, p, inl (e, refl, k)))
    Applies-Offers c (route, parts, i, p, inr (pattern, host, j, n, m, k)) = (
      place_of pattern,
      place_Reached pattern.kind pattern host refl n m,
      (route, parts, i, p, inr (pattern, j, refl, k)),
    )

    pub Offers-Applies :
        (place : Place) (c : Candidate)
        → Reached place
        → Offers lib json routes place c
        → Applies lib json routes request c
    Offers-Applies place c r (route, parts, i, p, inl (e, q, k)) = (route, parts, i, p, inl (e, k))
    Offers-Applies place c r (route, parts, i, p, inr (pattern, j, q, k)) =
        let (host, n, m) = Reached-match pattern.kind pattern place refl q r in
        (route, parts, i, p, inr (pattern, host, j, n, m, k))
