-- ===== src/Router/Match/Sound.antt =====
-- What a visit finds stands in the tree, fits the request and accepts its method.
use g_gateway.Base.{
  some-injective, ℕ, ◌+◌, ◌≡◌, refl, sym, subst, Bool, true, Option, none, some, List, [], ◌∷◌, All,
  Bytes, inl, inr, ltb, Bool-cases,
}
use g_gateway.Router.Library.{Library}
use g_gateway.Router.Pattern.{match_path, segment_end, slice}
use g_gateway.Router.Predicate.{has_method, evaluate}
use g_gateway.Router.Tree.{
  Candidate, PathNode, Children, MaybeNode, node, no_children, child, absent, present,
}
use g_gateway.Router.Tree.Every.{Every, EveryStatic, EveryParameter}
use g_gateway.Router.Match.{
  Request, Winner, MatcherState, accept, consider, consider_lists, visit, visit_static,
  visit_parameter,
}
use g_gateway.Router.Match.Grows.{and_then-some, accept-won, accept_refused, consider-Turn}
use g_gateway.Router.Match.Visit.{
  visit-cases, descend-cases, static_cases, parameter_cases, static_none, parameter_none,
}

module _ (lib : Library) (request : Request) (path : Bytes) (P : Candidate → Type 0) where
  -- The winner is a candidate with the property that fits and accepts, with its parameters.
  abbrev pub Earned : Winner → Type 0
  Earned w =
      (c : Candidate) × P c
      × ((match_path c.path.segments path).0 ≡ true)
      × (evaluate lib c.predicates request.headers request.raw_query ≡ some true)
      × (has_method c.methods request.method ≡ true)
      × (w ≡ record {
        key = c.key;
        route_index = c.route_index;
        params = (match_path c.path.segments path).1;
      })

  abbrev pub EarnedIfAny : Option Winner → Type 0
  EarnedIfAny none = Unit
  EarnedIfAny (some w) = Earned w

  abbrev pub IsSound : MatcherState → Type 0
  IsSound s = EarnedIfAny s.best

  consider-IsSound :
      (vs : List Candidate) (s s' : MatcherState)
      → All P vs
      → IsSound s
      → consider lib request path vs s ≡ some s'
      → IsSound s'
  unfolding consider
  consider-IsSound [] s s' h i q = subst IsSound (some-injective s s' q) i
  consider-IsSound (v ∷ vs) s s' h i q = elim (consider-Turn lib request path v vs s s' q) [
    | inl (e, p) ↦ subst IsSound p i
    | inr (inl (e, p)) ↦ consider-IsSound vs s s' h.1 i p
    | inr (inr (inl (e, p))) ↦ consider-IsSound vs s s' h.1 i p
    | inr (inr (inr (n, m, e, p))) ↦
        let params = (match_path v.path.segments path).1 in
        consider-IsSound vs (accept lib request path v params s) s' h.1
          (elim (Bool-cases (has_method v.methods request.method)) [
            | inl k ↦
                subst IsSound (sym (accept-won lib request path v params s k))
                  (v, h.0, m, e, k, refl)
            | inr k ↦ subst IsSound (sym (accept_refused lib request path v params s k)) i
          ])
          p
  ]

  consider_lists-IsSound :
      (t f c : List Candidate) (s s' : MatcherState)
      → All P t
      → All P f
      → All P c
      → IsSound s
      → consider_lists lib request path t f c s ≡ some s'
      → IsSound s'
  unfolding consider_lists
  consider_lists-IsSound t f c s s' ht hf hc i q =
      let (s1, a, q1) = and_then-some (consider lib request path t s) _ s' q in
      let (s2, b, q2) = and_then-some (consider lib request path f s1) _ s' q1 in
      consider-IsSound c s2 s' hc (consider-IsSound f s1 s2 hf (consider-IsSound t s s1 ht i a) b)
        q2

  mutual
    unfolding Every

    visit_node-IsSound :
        (n : PathNode) (position : ℕ) (st st' : MatcherState)
        → Every P n
        → IsSound st
        → visit lib request path n position st ≡ some st'
        → IsSound st'
    visit_node-IsSound (node s p t f c u) position st st' h i q =
        elim (visit-cases lib request path s p t f c u position st st' q) [
          | inl (e, k) ↦ subst IsSound k i
          | inr (m, a, inl (e, k)) ↦
              subst IsSound k (consider_lists-IsSound t f c st m h.0 h.1 h.2 i a)
          | inr (m, a, inr (e, k)) ↦ elim (descend-cases lib request path s p position m st' k) [
            | inl (m', x, y) ↦
                visit_static-IsSound s (slice path position (segment_end path position))
                  (segment_end path position + 1) m' st' h.3
                  (visit_parameter-IsSound p (ltb position (segment_end path position))
                    (segment_end path position + 1) m m' h.4
                    (consider_lists-IsSound t f c st m h.0 h.1 h.2 i a) x)
                  y
            | inr (m', x, y) ↦
                visit_parameter-IsSound p (ltb position (segment_end path position))
                  (segment_end path position + 1) m' st' h.4
                  (visit_static-IsSound s (slice path position (segment_end path position))
                    (segment_end path position + 1) m m' h.3
                    (consider_lists-IsSound t f c st m h.0 h.1 h.2 i a) x)
                  y
          ]
        ]

    visit_static-IsSound :
        (s : Children) (text : Bytes) (position : ℕ) (st st' : MatcherState)
        → EveryStatic P s
        → IsSound st
        → visit_static lib request path s text position st ≡ some st'
        → IsSound st'
    visit_static-IsSound no_children text position st st' h i q =
        subst IsSound (some-injective st st' (static_none lib request path text position st st' q))
          i
    visit_static-IsSound (child key n s) text position st st' h i q =
        elim (static_cases lib request path key n s text position st st' q) [
          | inl (e, k) ↦ visit_node-IsSound n position st st' h.0 i k
          | inr (e, k) ↦ visit_static-IsSound s text position st st' h.1 i k
        ]

    visit_parameter-IsSound :
        (p : MaybeNode) (allowed : Bool) (position : ℕ) (st st' : MatcherState)
        → EveryParameter P p
        → IsSound st
        → visit_parameter lib request path p allowed position st ≡ some st'
        → IsSound st'
    visit_parameter-IsSound absent allowed position st st' h i q =
        subst IsSound
          (some-injective st st' (parameter_none lib request path allowed position st st' q)) i
    visit_parameter-IsSound (present n) allowed position st st' h i q =
        elim (parameter_cases lib request path n allowed position st st' q) [
          | inl (e, k) ↦ visit_node-IsSound n position st st' h i k
          | inr (e, k) ↦ subst IsSound (some-injective st st' k) i
        ]

  -- A visit that starts without a winner, or with one that is earned, ends that way: a winner is a
  -- candidate of the tree whose path and predicates match the request and that has its method, and it
  -- comes with that candidate's key, index and parameters. `P` holds of every candidate of the tree.
  pub visit-IsSound :
      (n : PathNode) (position : ℕ) (st st' : MatcherState)
      → Every P n
      → IsSound st
      → visit lib request path n position st ≡ some st'
      → IsSound st'
  visit-IsSound = visit_node-IsSound
