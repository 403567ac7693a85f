-- ===== src/Router/Routes/Winner.antt =====
-- The winner of Match is a candidate of the routes that applies to the request.
use g_gateway.Base.{
  ℕ, zero, suc, ◌+◌, ◌≡◌, refl, subst, some-injective, Bool, true, false, ◌&&◌, Option, none, some,
  List, [], Bytes, index_byte, drop, if◌then◌else◌,
}
use g_gateway.Router.Library.{Library}
use g_gateway.Router.Host.{normalize_request_host}
use g_gateway.Router.Tree.{PathNode}
use g_gateway.Router.Tree.Every.{Every, Every-weaken}
use g_gateway.Router.Compile.{Router, RouteSpec, Json, HostTrees, tree_of}
use g_gateway.Router.Compile.Stored.{Place, hostless, exact_host, wildcard_host, Offers}
use g_gateway.Router.Compile.Sources.{EveryPlace, EveryUnder-tree_of}
use g_gateway.Router.Match.{
  Request, MatcherState, and_then, visit_tree, wildcard_tree, request_path, visit_host, visit_hosts,
  match_state, is_none,
}
use g_gateway.Router.Match.Grows.{and_then-some}
use g_gateway.Router.Match.Sound.{IsSound, visit-IsSound}
use g_gateway.Router.Routes.{Applies}
use g_gateway.Router.Routes.Reached.{Reached, Offers-Applies}

abbrev start : MatcherState
start = record { best = none; allow = [] }

wildcard_tree-cases :
    (trees : HostTrees) (host : Bytes) (tree : PathNode)
    → wildcard_tree trees host ≡ some tree
    → (i : ℕ) × (index_byte host b'.' ≡ some (suc i))
      × (tree_of trees (drop (i + 2) host) ≡ some tree)
wildcard_tree-cases trees host tree h = cases (index_byte host b'.') refl h
  where
    cases :
        (o : Option ℕ)
        → index_byte host b'.' ≡ o
        → (elim o as (λ _. Option PathNode) [
          | none ↦ none
          | some zero ↦ none
          | some (suc i) ↦ tree_of trees (drop (i + 2) host)
        ])
          ≡ some tree
        → (i : ℕ) × (index_byte host b'.' ≡ some (suc i))
          × (tree_of trees (drop (i + 2) host) ≡ some tree)
    cases none e h = cc
    cases (some zero) e h = cc
    cases (some (suc i)) e h = (i, e, h)

module _ (lib : Library) (json : Json) (routes : List RouteSpec) (request : Request) (r : Router)
    (stored : EveryPlace (Offers lib json routes) r) where
  abbrev Sound : MatcherState → Type 0
  Sound = IsSound lib request (request_path request) (Applies lib json routes request)

  applies :
      (place : Place) (tree : PathNode)
      → Reached lib request place
      → Every (Offers lib json routes place) tree
      → Every (Applies lib json routes request) tree
  applies place tree reached h =
      Every-weaken (Offers lib json routes place) (Applies lib json routes request)
        (λ c o. Offers-Applies lib request json routes place c reached o) tree h

  visit_tree_sound :
      (o : Option PathNode) (st st' : MatcherState)
      → ((tree : PathNode) → o ≡ some tree → Every (Applies lib json routes request) tree)
      → Sound st
      → visit_tree lib request (request_path request) o st ≡ some st'
      → Sound st'
  unfolding visit_tree
  visit_tree_sound none st st' f h q = subst Sound (some-injective st st' q) h
  visit_tree_sound (some tree) st st' f h q =
      visit-IsSound lib request (request_path request) (Applies lib json routes request) tree 1 st
        st' (f tree refl) h q

  visit_host_sound :
      (host : Bytes) (st st' : MatcherState)
      → normalize_request_host lib request.host ≡ some host
      → Sound st
      → visit_host lib r request host st ≡ some st'
      → Sound st'
  unfolding visit_host
  visit_host_sound host st st' n h q =
      let path = request_path request in
      let exact = tree_of r.exact_hosts host in
      let wild = wildcard_tree r.wildcard_hosts host in
      let (m, a, b) = and_then-some (visit_tree lib request path exact st) _ st' q in
      visit_tree_sound wild m st'
        (λ tree e.
          let (i, f, t) = wildcard_tree-cases r.wildcard_hosts host tree e in
          applies (wildcard_host (drop (i + 2) host)) tree (host, i, n, f, refl)
            (EveryUnder-tree_of (Offers lib json routes) wildcard_host r.wildcard_hosts
              (drop (i + 2) host) tree stored.2 t))
        (visit_tree_sound exact st m
          (λ tree e. applies (exact_host host) tree n (
            EveryUnder-tree_of (Offers lib json routes) exact_host r.exact_hosts host tree stored.1
              e))
          h a)
        b

  chosen :
      (b : Bool) (o : Option Bytes) (st st' : MatcherState)
      → normalize_request_host lib request.host ≡ o
      → (if b then some st else and_then o (λ host. visit_host lib r request host st)) ≡ some st'
      → Sound st
      → Sound st'
  chosen true o st st' n q h = subst Sound (some-injective st st' q) h
  chosen false o st st' n q h =
      let (host, a, b) = and_then-some o (λ host. visit_host lib r request host st) st' q in
      visit_host_sound host st st' (subst (λ x. normalize_request_host lib request.host ≡ x) a n) h
        b

  -- The winner, where there is one, is earned by a candidate that applies.
  pub match_state_sound : (st : MatcherState) → match_state lib r request ≡ some st → Sound st
  unfolding match_state visit_hosts
  match_state_sound st q =
      let path = request_path request in
      let (m, a, b) = and_then-some (visit_hosts lib r request start) _ st q in
      visit-IsSound lib request path (Applies lib json routes request) r.hostless 1 m st
        (applies hostless r.hostless tt stored.0)
        (chosen (is_none r.exact_hosts && is_none r.wildcard_hosts)
          (normalize_request_host lib request.host) start m refl a tt)
        b
