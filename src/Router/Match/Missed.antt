-- ===== src/Router/Match/Missed.antt =====
-- A visit of a finalised tree covers every candidate that fits the request.
use g_gateway.Base.{
  ℕ, ◌+◌, ◌≡◌, sym, ap, ◌∙◌, subst, Bool, true, false, Option, none, some, List, [], ◌∷◌, In, Bytes,
  ◌⊎◌, inl, inr, ltb, bytes_eq,
}
use g_gateway.Router.Library.{Library}
use g_gateway.Router.Pattern.{PathSegment, segment_end, slice}
use g_gateway.Router.Precedence.{PrecedenceKey}
use g_gateway.Router.Tree.{
  Candidate, PathNode, Children, MaybeNode, node, no_children, child, absent, present,
}
use g_gateway.Router.Tree.Located.{At, AtStatic, AtParameter}
use g_gateway.Router.Tree.Bounds.{Below, Descending, IsFinal, AreFinal, IsFinalParameter}
use g_gateway.Router.Match.{
  Request, MatcherState, pruned, consider, consider_lists, visit, visit_static, visit_parameter,
}
use g_gateway.Router.Match.Grows.{and_then-some, consider-Grows}
use g_gateway.Router.Match.Visit.{
  visit-cases, descend-cases, static_cases, parameter_cases, visit_static-Grows,
  visit_parameter-Grows, into_static, into_parameter, descend, descend-Grows,
}
use g_gateway.Router.Match.Descent.{Live, Live-static, Live-parameter}
use g_gateway.Router.Match.Covers.{Fits, Covers, Covers-Grows, consider-Covers, settled-Le}

module _ (lib : Library) (request : Request) (path : Bytes) where
  consider_lists-Covers :
      (t f c : List Candidate) (v : Candidate) (s s' : MatcherState)
      → Descending t
      → Descending f
      → Descending c
      → In v t ⊎ In v f ⊎ In v c
      → Fits lib request path v
      → consider_lists lib request path t f c s ≡ some s'
      → Covers lib request path v s'
  unfolding consider_lists
  consider_lists-Covers t f c v s s' dt df dc h fits q =
      let (s1, a, q1) = and_then-some (consider lib request path t s) _ s' q in
      let (s2, b, q2) = and_then-some (consider lib request path f s1) _ s' q1 in
      let last = consider-Grows lib request path c s2 s' q2 in
      elim h [
        | inl k ↦ Covers-Grows lib request path v s2 s' last (
            Covers-Grows lib request path v s1 s2 (consider-Grows lib request path f s1 s2 b)
              (consider-Covers lib request path t v s s1 dt k fits a))
        | inr (inl k) ↦
            Covers-Grows lib request path v s2 s' last
              (consider-Covers lib request path f v s1 s2 df k fits b)
        | inr (inr k) ↦ consider-Covers lib request path c v s2 s' dc k fits q2
      ]

  pruned-Covers :
      (u : Option PrecedenceKey) (v : Candidate) (s : MatcherState)
      → Below v.key u
      → pruned s u ≡ true
      → Covers lib request path v s
  pruned-Covers none v s h e = elim h [ ]
  pruned-Covers (some u) v s h e = inl (settled-Le lib request path s.best v.key u h e)

  -- What one child covers stays covered, whichever of the two is visited first.
  descend-static :
      (s : Children) (p : MaybeNode) (position : ℕ) (v : Candidate) (st st' : MatcherState)
      → ((a b : MatcherState)
          → into_static lib request path s position a ≡ some b
          → Covers lib request path v b)
      → descend lib request path s p position st ≡ some st'
      → Covers lib request path v st'
  descend-static s p position v st st' f q =
      elim (descend-cases lib request path s p position st st' q) [
        | inl (m, a, b) ↦ f m st' b
        | inr (m, a, b) ↦
            Covers-Grows lib request path v m st'
              (visit_parameter-Grows lib request path p (ltb position (segment_end path position))
                (segment_end path position + 1) m st' b)
              (f st m a)
      ]

  descend-parameter :
      (s : Children) (p : MaybeNode) (position : ℕ) (v : Candidate) (st st' : MatcherState)
      → ((a b : MatcherState)
          → into_parameter lib request path p position a ≡ some b
          → Covers lib request path v b)
      → descend lib request path s p position st ≡ some st'
      → Covers lib request path v st'
  descend-parameter s p position v st st' f q =
      elim (descend-cases lib request path s p position st st' q) [
        | inl (m, a, b) ↦
            Covers-Grows lib request path v m st'
              (visit_static-Grows lib request path s
                (slice path position (segment_end path position)) (segment_end path position + 1) m
                st' b)
              (f st m a)
        | inr (m, a, b) ↦ f m st' b
      ]

  clash : {b : Bool} → b ≡ true → b ≡ false → ⊥
  clash {b} e k = cc

  -- The candidates in the lists of a node, whatever is visited after them.
  lists-Covers :
      (s : Children) (p : MaybeNode) (t f c : List Candidate) (u : Option PrecedenceKey)
      (position : ℕ) (v : Candidate) (st st' : MatcherState)
      → Descending t
      → Descending f
      → Descending c
      → Below v.key u
      → In v t ⊎ In v f ⊎ In v c
      → Fits lib request path v
      → visit lib request path (node s p t f c u) position st ≡ some st'
      → Covers lib request path v st'
  lists-Covers s p t f c u position v st st' dt df dc below h fits q =
      elim (visit-cases lib request path s p t f c u position st st' q) [
        | inl (e, k) ↦ subst (Covers lib request path v) k (pruned-Covers u v st below e)
        | inr (m, a, inl (e, k)) ↦
            subst (Covers lib request path v) k
              (consider_lists-Covers t f c v st m dt df dc h fits a)
        | inr (m, a, inr (e, k)) ↦
            Covers-Grows lib request path v m st'
              (descend-Grows lib request path s p position m st' k)
              (consider_lists-Covers t f c v st m dt df dc h fits a)
      ]

  mutual
    unfolding At IsFinal

    -- Visiting a node covers each candidate below it whose remaining segments match from here.
    pub visit-Covers :
        (n : PathNode) (r : List PathSegment) (position : ℕ) (v : Candidate) (st st' : MatcherState)
        → IsFinal n
        → At n r v
        → Live path r position
        → Fits lib request path v
        → visit lib request path n position st ≡ some st'
        → Covers lib request path v st'
    visit-Covers (node s p t f c u) [] position v st st' fin h live fits q =
        lists-Covers s p t f c u position v st st' fin.0 fin.1 fin.2 (fin.3 [] v h) (inl h) fits q
    visit-Covers (node s p t f c u) (PathSegment.prefix ∷ rest) position v st st' fin h live fits
          q =
        lists-Covers s p t f c u position v st st' fin.0 fin.1 fin.2
          (fin.3 (PathSegment.prefix ∷ rest) v h) (inr (inl h)) fits q
    visit-Covers (node s p t f c u) (PathSegment.catch_all name ∷ rest) position v st st' fin h live
          fits q =
        lists-Covers s p t f c u position v st st' fin.0 fin.1 fin.2
          (fin.3 (PathSegment.catch_all name ∷ rest) v h) (inr (inr h)) fits q
    visit-Covers (node s p t f c u) (PathSegment.parameter name ∷ rest) position v st st' fin h live
          fits q =
        elim (visit-cases lib request path s p t f c u position st st' q) [
          | inl (e, k) ↦
              subst (Covers lib request path v) k
                (pruned-Covers u v st (fin.3 (PathSegment.parameter name ∷ rest) v h) e)
          | inr (m, a, inl (e, k)) ↦
              absurd (clash e (Live-parameter path name rest position live).0)
          | inr (m, a, inr (e, k)) ↦
              descend-parameter s p position v m st'
                (λ x y k'.
                  visit_parameter-Covers p rest (ltb position (segment_end path position))
                    (segment_end path position + 1) v x y fin.5 h
                    (Live-parameter path name rest position live).2 fits
                    (Live-parameter path name rest position live).1 k')
                k
        ]
    visit-Covers (node s p t f c u) (PathSegment.static text ∷ rest) position v st st' fin h live
          fits q =
        elim (visit-cases lib request path s p t f c u position st st' q) [
          | inl (e, k) ↦
              subst (Covers lib request path v) k
                (pruned-Covers u v st (fin.3 (PathSegment.static text ∷ rest) v h) e)
          | inr (m, a, inl (e, k)) ↦ absurd (clash e (Live-static path text rest position live).0)
          | inr (m, a, inr (e, k)) ↦
              descend-static s p position v m st'
                (λ x y k'.
                  visit_static-Covers s text rest (slice path position (segment_end path position))
                    (segment_end path position + 1) v x y fin.4 h
                    (Live-static path text rest position live).2 fits
                    (Live-static path text rest position live).1 k')
                k
        ]

    visit_static-Covers :
        (s : Children) (text : Bytes) (r : List PathSegment) (found : Bytes) (position : ℕ)
        (v : Candidate) (st st' : MatcherState)
        → AreFinal s
        → AtStatic s text r v
        → Live path r position
        → Fits lib request path v
        → found ≡ text
        → visit_static lib request path s found position st ≡ some st'
        → Covers lib request path v st'
    visit_static-Covers no_children text r found position v st st' fin h live fits e q = elim h [ ]
    visit_static-Covers (child key n s) text r found position v st st' fin (inl (k, h)) live fits e
          q =
        elim (static_cases lib request path key n s found position st st' q) [
          | inl (k', q') ↦ visit-Covers n r position v st st' fin.0 h live fits q'
          | inr (k', q') ↦ absurd (clash k (ap (bytes_eq key) (sym e) ∙ k'))
        ]
    visit_static-Covers (child key n s) text r found position v st st' fin (inr (k, h)) live fits e
          q =
        elim (static_cases lib request path key n s found position st st' q) [
          | inl (k', q') ↦ absurd (clash (ap (bytes_eq key) (sym e) ∙ k') k)
          | inr (k', q') ↦
              visit_static-Covers s text r found position v st st' fin.1 h live fits e q'
        ]

    visit_parameter-Covers :
        (p : MaybeNode) (r : List PathSegment) (allowed : Bool) (position : ℕ) (v : Candidate)
        (st st' : MatcherState)
        → IsFinalParameter p
        → AtParameter p r v
        → Live path r position
        → Fits lib request path v
        → allowed ≡ true
        → visit_parameter lib request path p allowed position st ≡ some st'
        → Covers lib request path v st'
    visit_parameter-Covers absent r allowed position v st st' fin h live fits e q = elim h [ ]
    visit_parameter-Covers (present n) r allowed position v st st' fin h live fits e q =
        elim (parameter_cases lib request path n allowed position st st' q) [
          | inl (k, q') ↦ visit-Covers n r position v st st' fin h live fits q'
          | inr (k, q') ↦ absurd (clash e k)
        ]
