-- ===== src/Router/Match/Visit.antt =====
-- The shape of a visit, and that it grows what is found.
use g_gateway.Base.{
  some-injective, ℕ, ◌+◌, ◌≡◌, refl, subst, Bool, true, false, Option, some, List, Bytes, ◌⊎◌, inl,
  inr, ltb, ◌&&◌, if◌then◌else◌, length, bytes_eq,
}
use g_gateway.Router.Library.{Library}
use g_gateway.Router.Pattern.{segment_end, slice}
use g_gateway.Router.Precedence.{PrecedenceKey}
use g_gateway.Router.Tree.{
  Candidate, PathNode, Children, MaybeNode, node, no_children, child, absent, present,
}
use g_gateway.Router.Match.{
  and_then, Request, MatcherState, pruned, parameter_first, maybe_upper, child_upper,
  consider_lists, visit, visit_static, visit_parameter,
}
use g_gateway.Router.Match.Grows.{
  and_then-some, Grows, Grows-refl, Grows-trans, Grows-some, consider_lists-Grows,
}

module _ (lib : Library) (request : Request) (path : Bytes) where
  -- The order in which the two children of a node are visited.
  abbrev pub descend : Children → MaybeNode → ℕ → MatcherState → Option MatcherState
  descend s p position st =
      let end = segment_end path position in
      let text = slice path position end in
      let allowed = ltb position end in
      if allowed && parameter_first (maybe_upper p) (child_upper s text)
      then and_then (visit_parameter lib request path p allowed (end + 1) st)
          (λ s2. visit_static lib request path s text (end + 1) s2)
      else and_then (visit_static lib request path s text (end + 1) st)
          (λ s2. visit_parameter lib request path p allowed (end + 1) s2)

  choose-cases :
      (b : Bool) (x y : Option MatcherState) (st' : MatcherState)
      → (if b then x else y) ≡ some st'
      → (x ≡ some st') ⊎ (y ≡ some st')
  choose-cases true x y st' h = inl h
  choose-cases false x y st' h = inr h

  either :
      (b : Bool) (x y : Option MatcherState) (st' : MatcherState)
      → (elim b as (λ _. Option MatcherState) [ true ↦ x | false ↦ y ]) ≡ some st'
      → ((b ≡ true) × (x ≡ some st')) ⊎ ((b ≡ false) × (y ≡ some st'))
  either true x y st' h = inl (refl, h)
  either false x y st' h = inr (refl, h)

  after-cases :
      (b : Bool) (o : Option MatcherState) (m st' : MatcherState)
      → (if b then some m else o) ≡ some st'
      → ((b ≡ true) × (m ≡ st')) ⊎ ((b ≡ false) × (o ≡ some st'))
  after-cases true o m st' h = inl (refl, some-injective m st' h)
  after-cases false o m st' h = inr (refl, h)

  -- The ways in which a visit of a node succeeds.
  pub visit-cases :
      (s : Children) (p : MaybeNode) (t f c : List Candidate) (u : Option PrecedenceKey)
      (position : ℕ) (st st' : MatcherState)
      → visit lib request path (node s p t f c u) position st ≡ some st'
      → ((pruned st u ≡ true) × (st ≡ st'))
        ⊎ ((m : MatcherState) × (consider_lists lib request path t f c st ≡ some m)
            × (((ltb (length path) position ≡ true) × (m ≡ st'))
                ⊎ ((ltb (length path) position ≡ false) × (descend s p position m ≡ some st'))))
  unfolding visit
  visit-cases s p t f c u position st st' h = elim (after-cases (pruned st u) _ st st' h) [
    | inl e ↦ inl e
    | inr (e, h') ↦
        let (m, e1, q) = and_then-some (consider_lists lib request path t f c st) _ st' h' in
        inr (m, e1, after-cases (ltb (length path) position) (descend s p position m) m st' q)
  ]

  abbrev pub end_at : ℕ → ℕ
  end_at position = segment_end path position

  abbrev pub into_static : Children → ℕ → MatcherState → Option MatcherState
  into_static s position =
      visit_static lib request path s (slice path position (end_at position)) (end_at position + 1)

  abbrev pub into_parameter : MaybeNode → ℕ → MatcherState → Option MatcherState
  into_parameter p position =
      visit_parameter lib request path p (ltb position (end_at position)) (end_at position + 1)

  -- A descent visits both children, in one order or the other.
  pub descend-cases :
      (s : Children) (p : MaybeNode) (position : ℕ) (st st' : MatcherState)
      → descend s p position st ≡ some st'
      → ((m : MatcherState) × (into_parameter p position st ≡ some m)
          × (into_static s position m ≡ some st'))
        ⊎ ((m : MatcherState) × (into_static s position st ≡ some m)
            × (into_parameter p position m ≡ some st'))
  descend-cases s p position st st' h =
      elim (choose-cases
        (ltb position (end_at position)
          && parameter_first (maybe_upper p)
              (child_upper s (slice path position (end_at position))))
        _ _ st' h) [
          | inl q ↦ inl (and_then-some (into_parameter p position st) _ st' q)
          | inr q ↦ inr (and_then-some (into_static s position st) _ st' q)
        ]

  pub static_none :
      (text : Bytes) (position : ℕ) (st st' : MatcherState)
      → visit_static lib request path no_children text position st ≡ some st'
      → some st ≡ some st'
  unfolding visit
  static_none text position st st' h = h

  pub parameter_none :
      (allowed : Bool) (position : ℕ) (st st' : MatcherState)
      → visit_parameter lib request path absent allowed position st ≡ some st'
      → some st ≡ some st'
  unfolding visit
  parameter_none allowed position st st' h = h

  pub static_cases :
      (key : Bytes) (n : PathNode) (s : Children) (text : Bytes) (position : ℕ)
      (st st' : MatcherState)
      → visit_static lib request path (child key n s) text position st ≡ some st'
      → ((bytes_eq key text ≡ true) × (visit lib request path n position st ≡ some st'))
        ⊎ ((bytes_eq key text ≡ false)
            × (visit_static lib request path s text position st ≡ some st'))
  unfolding visit
  static_cases key n s text position st st' h =
      either (bytes_eq key text) (visit lib request path n position st)
        (visit_static lib request path s text position st) st' h

  pub parameter_cases :
      (n : PathNode) (allowed : Bool) (position : ℕ) (st st' : MatcherState)
      → visit_parameter lib request path (present n) allowed position st ≡ some st'
      → ((allowed ≡ true) × (visit lib request path n position st ≡ some st'))
        ⊎ ((allowed ≡ false) × (some st ≡ some st'))
  unfolding visit
  parameter_cases n true position st st' h = inl (refl, h)
  parameter_cases n false position st st' h = inr (refl, h)

  mutual
    -- A visit never loses what has been found.
    pub visit-Grows :
        (n : PathNode) (position : ℕ) (st st' : MatcherState)
        → visit lib request path n position st ≡ some st'
        → Grows st st'
    visit-Grows (node s p t f c u) position st st' h =
        elim (visit-cases s p t f c u position st st' h) [
          | inl (e, q) ↦ subst (Grows st) q (Grows-refl st)
          | inr (m, e, inl (g, q)) ↦
              subst (Grows st) q (consider_lists-Grows lib request path t f c st m e)
          | inr (m, e, inr (g, q)) ↦
              Grows-trans st m st' (consider_lists-Grows lib request path t f c st m e)
                (elim (descend-cases s p position m st' q) [
                  | inl (m', a, b) ↦
                      Grows-trans m m' st'
                        (visit_parameter-Grows p (ltb position (end_at position))
                          (end_at position + 1) m m' a)
                        (visit_static-Grows s (slice path position (end_at position))
                          (end_at position + 1) m' st' b)
                  | inr (m', a, b) ↦
                      Grows-trans m m' st'
                        (visit_static-Grows s (slice path position (end_at position))
                          (end_at position + 1) m m' a)
                        (visit_parameter-Grows p (ltb position (end_at position))
                          (end_at position + 1) m' st' b)
                ])
        ]

    pub visit_static-Grows :
        (s : Children) (text : Bytes) (position : ℕ) (st st' : MatcherState)
        → visit_static lib request path s text position st ≡ some st'
        → Grows st st'
    visit_static-Grows no_children text position st st' h =
        Grows-some st st' (static_none text position st st' h)
    visit_static-Grows (child key n s) text position st st' h =
        elim (static_cases key n s text position st st' h) [
          | inl (e, q) ↦ visit-Grows n position st st' q
          | inr (e, q) ↦ visit_static-Grows s text position st st' q
        ]

    pub visit_parameter-Grows :
        (p : MaybeNode) (allowed : Bool) (position : ℕ) (st st' : MatcherState)
        → visit_parameter lib request path p allowed position st ≡ some st'
        → Grows st st'
    visit_parameter-Grows absent allowed position st st' h =
        Grows-some st st' (parameter_none allowed position st st' h)
    visit_parameter-Grows (present n) allowed position st st' h =
        elim (parameter_cases n allowed position st st' h) [
          | inl (e, q) ↦ visit-Grows n position st st' q
          | inr (e, q) ↦ Grows-some st st' q
        ]

  pub descend-Grows :
      (s : Children) (p : MaybeNode) (position : ℕ) (st st' : MatcherState)
      → descend s p position st ≡ some st'
      → Grows st st'
  descend-Grows s p position st st' q =
      let text = slice path position (end_at position) in
      let allowed = ltb position (end_at position) in
      let next = end_at position + 1 in
      elim (descend-cases s p position st st' q) [
        | inl (m, a, b) ↦
            Grows-trans st m st' (visit_parameter-Grows p allowed next st m a)
              (visit_static-Grows s text next m st' b)
        | inr (m, a, b) ↦
            Grows-trans st m st' (visit_static-Grows s text next st m a)
              (visit_parameter-Grows p allowed next m st' b)
      ]
