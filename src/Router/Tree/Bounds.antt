-- ===== src/Router/Tree/Bounds.antt =====
-- Ordered lists of candidates, and the bound of a node: what finalizeNode establishes.
use g_gateway.Base.{
  ◌≡◌, Bool, true, false, Option, none, some, List, [], ◌∷◌, In, All, All-In, All-of-In, inl, inr,
  Bytes, Bool-cases, arith,
}
use g_gateway.Base.Order.{insert_by, sort_by, All-insert_by}
use g_gateway.Router.Pattern.{PathSegment}
use g_gateway.Router.Precedence.{PrecedenceKey, compare_precedence, at_most, is_higher}
use g_gateway.Router.Precedence.Order.{compare_self, compare_trans, compare-total}
use g_gateway.Router.Tree.{
  Candidate, PathNode, Children, MaybeNode, node, no_children, child, absent, present, upper_of,
  sort_candidates, include_upper, include_bound, include_all, include_maybe, include_children,
}
use g_gateway.Router.Tree.Located.{At, AtStatic, AtParameter}

-- A key at most another one.
abbrev pub Le : PrecedenceKey → PrecedenceKey → Type 0
Le a b = at_most (compare_precedence a b) ≡ true

abbrev pub Below : PrecedenceKey → Option PrecedenceKey → Type 0
Below k none = ⊥
Below k (some upper) = Le k upper

-- Each candidate's key is at least those behind it.
abbrev pub Descending : List Candidate → Type 0
Descending [] = Unit
Descending (v ∷ vs) = All (λ (w : Candidate). Le w.key v.key) vs × Descending vs

-- A finalised tree: ordered lists, and bounds that hold, in every node.
unfoldable mutual
  pub IsFinal : PathNode → Type 0
  IsFinal (node s p t f c u) =
      Descending t
      × Descending f
      × Descending c
      × ((r : List PathSegment) (v : Candidate) → At (node s p t f c u) r v → Below v.key u)
      × AreFinal s
      × IsFinalParameter p

  pub AreFinal : Children → Type 0
  AreFinal no_children = Unit
  AreFinal (child key n s) = IsFinal n × AreFinal s

  pub IsFinalParameter : MaybeNode → Type 0
  IsFinalParameter absent = Unit
  IsFinalParameter (present n) = IsFinal n

abbrev pub by_key : Candidate → Candidate → Bool
by_key l r = is_higher (compare_precedence l.key r.key)

-- An element inserted before `y` was not below it.
by_key-Le : (l r : Candidate) → by_key l r ≡ false → Le l.key r.key
by_key-Le l r h = ground arith

by_key-true : (l r : Candidate) → by_key l r ≡ true → Le r.key l.key
by_key-true l r h = compare-total l.key r.key (ground arith)

Descending-insert_by :
    (v : Candidate) (vs : List Candidate) → Descending vs → Descending (insert_by by_key v vs)
unfolding insert_by
Descending-insert_by v [] h = (tt, tt)
Descending-insert_by v (w ∷ ws) h = elim (Bool-cases (by_key w v)) [
  | inl e ↦
      rw (e, insert_by)
        (
          All-insert_by by_key (λ (x : Candidate). Le x.key w.key) v ws (by_key-true w v e) h.0,
          Descending-insert_by v ws h.1,
        )
  | inr e ↦
      rw (e, insert_by)
        (
          (
            by_key-Le w v e,
            All-of-In (λ (x : Candidate). Le x.key v.key) ws
                (λ x k.
                  compare_trans x.key w.key v.key
                    (All-In (λ (y : Candidate). Le y.key w.key) x ws h.0 k) (by_key-Le w v e)),
          ),
          h,
        )
]

pub Descending-sort_candidates : (vs : List Candidate) → Descending (sort_candidates vs)
unfolding sort_candidates sort_by
Descending-sort_candidates [] = tt
Descending-sort_candidates (v ∷ vs) =
    Descending-insert_by v (sort_by by_key vs) (Descending-sort_candidates vs)

-- The bounds only grow, and hold for what is included.
Below-include_upper : (u : Option PrecedenceKey) (k : PrecedenceKey) → Below k (include_upper u k)
unfolding include_upper
Below-include_upper none k = ground (arith, compare_self k)
Below-include_upper (some u) k = elim (Bool-cases (is_higher (compare_precedence k u))) [
  | inl e ↦ rw e (ground (arith, compare_self k))
  | inr e ↦ rw e (ground arith)
]

pub Below-include_upper_old :
    (u : Option PrecedenceKey) (k l : PrecedenceKey) → Below l u → Below l (include_upper u k)
unfolding include_upper
Below-include_upper_old none k l h = elim h [ ]
Below-include_upper_old (some u) k l h = elim (Bool-cases (is_higher (compare_precedence k u))) [
  | inl e ↦ rw e (compare_trans l u k h (compare-total k u (ground arith)))
  | inr e ↦ rw e h
]

pub Below-include_all_old :
    (u : Option PrecedenceKey) (vs : List Candidate) (l : PrecedenceKey)
    → Below l u
    → Below l (include_all u vs)
Below-include_all_old u [] l h = h
Below-include_all_old u (v ∷ vs) l h =
    Below-include_all_old (include_upper u v.key) vs l (Below-include_upper_old u v.key l h)

pub Below-include_all :
    (u : Option PrecedenceKey) (vs : List Candidate) (v : Candidate)
    → In v vs
    → Below v.key (include_all u vs)
Below-include_all u [] v h = elim h [ ]
Below-include_all u (w ∷ ws) v (inl e) =
    Below-include_all_old (include_upper u w.key) ws v.key (rw e (Below-include_upper u w.key))
Below-include_all u (w ∷ ws) v (inr h) = Below-include_all (include_upper u w.key) ws v h

pub Below-include_bound_old :
    (u b : Option PrecedenceKey) (l : PrecedenceKey) → Below l u → Below l (include_bound u b)
Below-include_bound_old u none l h = h
Below-include_bound_old u (some k) l h = Below-include_upper_old u k l h

Below-trans : (b : Option PrecedenceKey) (l k : PrecedenceKey) → Le l k → Below k b → Below l b
Below-trans none l k h i = i
Below-trans (some u) l k h i = compare_trans l k u h i

Below-include_bound :
    (u b : Option PrecedenceKey) (l : PrecedenceKey) → Below l b → Below l (include_bound u b)
Below-include_bound u none l h = elim h [ ]
Below-include_bound u (some k) l h = Below-trans (include_upper u k) l k h (Below-include_upper u k)

Below-include_maybe_old :
    (u : Option PrecedenceKey) (p : MaybeNode) (l : PrecedenceKey)
    → Below l u
    → Below l (include_maybe u p)
Below-include_maybe_old u absent l h = h
Below-include_maybe_old u (present n) l h = Below-include_bound_old u (upper_of n) l h

Below-include_children_old :
    (u : Option PrecedenceKey) (s : Children) (l : PrecedenceKey)
    → Below l u
    → Below l (include_children u s)
Below-include_children_old u no_children l h = h
Below-include_children_old u (child key n s) l h =
    Below-include_children_old (include_bound u (upper_of n)) s l
      (Below-include_bound_old u (upper_of n) l h)

-- A candidate below a finalised node is below its bound.
pub At-Below :
    (n : PathNode) (r : List PathSegment) (v : Candidate)
    → IsFinal n
    → At n r v
    → Below v.key (upper_of n)
unfolding IsFinal
At-Below (node s p t f c u) r v h k = h.3 r v k

AtParameter-Below :
    (u : Option PrecedenceKey) (p : MaybeNode) (r : List PathSegment) (v : Candidate)
    → IsFinalParameter p
    → AtParameter p r v
    → Below v.key (include_maybe u p)
unfolding IsFinal AtParameter
AtParameter-Below u absent r v h k = elim k [ ]
AtParameter-Below u (present n) r v h k =
    Below-include_bound u (upper_of n) v.key (At-Below n r v h k)

AtStatic-Below :
    (u : Option PrecedenceKey) (s : Children) (text : Bytes) (r : List PathSegment) (v : Candidate)
    → AreFinal s
    → AtStatic s text r v
    → Below v.key (include_children u s)
unfolding IsFinal AtStatic
AtStatic-Below u no_children text r v h k = elim k [ ]
AtStatic-Below u (child key n s) text r v h (inl (e, k)) =
    Below-include_children_old (include_bound u (upper_of n)) s v.key
      (Below-include_bound u (upper_of n) v.key (At-Below n r v h.0 k))
AtStatic-Below u (child key n s) text r v h (inr (e, k)) =
    AtStatic-Below (include_bound u (upper_of n)) s text r v h.1 k

through :
    (s : Children) (p : MaybeNode) (u : Option PrecedenceKey) (l : PrecedenceKey)
    → Below l u
    → Below l (include_children (include_maybe u p) s)
through s p u l h =
    Below-include_children_old (include_maybe u p) s l (Below-include_maybe_old u p l h)

-- The bound that finalizeNode computes holds for all that lies below the node.
pub At-bound :
    (s : Children) (p : MaybeNode) (t f c : List Candidate) (u v : Option PrecedenceKey)
    → AreFinal s
    → IsFinalParameter p
    → (r : List PathSegment) → (w : Candidate) → At (node s p t f c v) r w
    → Below w.key
        (include_children (include_maybe (include_all (include_all (include_all u t) f) c) p) s)
unfolding At
At-bound s p t f c u v hs hp [] w h =
    through s p (include_all (include_all (include_all u t) f) c) w.key (
      Below-include_all_old (include_all (include_all u t) f) c w.key
        (Below-include_all_old (include_all u t) f w.key (Below-include_all u t w h)))
At-bound s p t f c u v hs hp (PathSegment.prefix ∷ rest) w h =
    through s p (include_all (include_all (include_all u t) f) c) w.key (
      Below-include_all_old (include_all (include_all u t) f) c w.key
        (Below-include_all (include_all u t) f w h))
At-bound s p t f c u v hs hp (PathSegment.catch_all name ∷ rest) w h =
    through s p (include_all (include_all (include_all u t) f) c) w.key
      (Below-include_all (include_all (include_all u t) f) c w h)
At-bound s p t f c u v hs hp (PathSegment.parameter name ∷ rest) w h =
    Below-include_children_old (include_maybe (include_all (include_all (include_all u t) f) c) p) s
      w.key (AtParameter-Below (include_all (include_all (include_all u t) f) c) p rest w hp h)
At-bound s p t f c u v hs hp (PathSegment.static text ∷ rest) w h =
    AtStatic-Below (include_maybe (include_all (include_all (include_all u t) f) c) p) s text rest w
      hs h
