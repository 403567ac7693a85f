-- ===== src/Router/Tree/Every.antt =====
-- A property of every candidate of a tree, kept by insertions and by finalizeNode.
use g_gateway.Base.{List, [], ◌∷◌, All, All-append, Bytes, bytes_eq, Bool-cases, inl, inr}
use g_gateway.Base.Order.{All-sort_by}
use g_gateway.Router.Pattern.{PathSegment}
use g_gateway.Router.Tree.{
  Candidate, PathNode, Children, MaybeNode, node, no_children, child, absent, present, empty_node,
  set_child, child_or_empty, node_or_empty, insert_candidate, sort_candidates, finalize_node,
  finalize_children, finalize_maybe,
}
use g_gateway.Router.Tree.Bounds.{by_key}

-- Every candidate of a tree has the property.
module _ (P : Candidate → Type 0) where
  unfoldable mutual
    pub Every : PathNode → Type 0
    Every (node s p t f c u) = All P t × All P f × All P c × EveryStatic s × EveryParameter p

    pub EveryStatic : Children → Type 0
    EveryStatic no_children = Unit
    EveryStatic (child key n s) = Every n × EveryStatic s

    pub EveryParameter : MaybeNode → Type 0
    EveryParameter absent = Unit
    EveryParameter (present n) = Every n

  pub Every-empty_node : Every empty_node
  unfolding Every
  Every-empty_node = (tt, tt, tt, tt, tt)

  EveryStatic-set_child :
      (s : Children) (text : Bytes) (n : PathNode)
      → Every n
      → EveryStatic s
      → EveryStatic (set_child s text n)
  unfolding Every
  EveryStatic-set_child no_children text n h k = (h, tt)
  EveryStatic-set_child (child key m s) text n h k = elim (Bool-cases (bytes_eq key text)) [
    | inl e ↦ rw e (h, k.1)
    | inr e ↦ rw e (k.0, EveryStatic-set_child s text n h k.1)
  ]

  EveryStatic-child_or_empty :
      (s : Children) (text : Bytes) → EveryStatic s → Every (child_or_empty s text)
  unfolding Every
  EveryStatic-child_or_empty no_children text k = Every-empty_node
  EveryStatic-child_or_empty (child key m s) text k = elim (Bool-cases (bytes_eq key text)) [
    | inl e ↦ rw e k.0
    | inr e ↦ rw e (EveryStatic-child_or_empty s text k.1)
  ]

  EveryParameter-node_or_empty : (p : MaybeNode) → EveryParameter p → Every (node_or_empty p)
  unfolding Every
  EveryParameter-node_or_empty absent k = Every-empty_node
  EveryParameter-node_or_empty (present n) k = k

  -- An insertion keeps a property that the new candidate has too.
  pub Every-insert_candidate :
      (segments : List PathSegment) (v : Candidate) (n : PathNode)
      → P v
      → Every n
      → Every (insert_candidate segments v n)
  unfolding Every insert_candidate
  Every-insert_candidate [] v (node s p t f c u) h k =
      (All-append P t (v ∷ []) k.0 (h, tt), k.1, k.2, k.3, k.4)
  Every-insert_candidate (PathSegment.prefix ∷ rest) v (node s p t f c u) h k =
      (k.0, All-append P f (v ∷ []) k.1 (h, tt), k.2, k.3, k.4)
  Every-insert_candidate (PathSegment.catch_all name ∷ rest) v (node s p t f c u) h k =
      (k.0, k.1, All-append P c (v ∷ []) k.2 (h, tt), k.3, k.4)
  Every-insert_candidate (PathSegment.parameter name ∷ rest) v (node s p t f c u) h k = (
    k.0,
    k.1,
    k.2,
    k.3,
    Every-insert_candidate rest v (node_or_empty p) h (EveryParameter-node_or_empty p k.4),
  )
  Every-insert_candidate (PathSegment.static text ∷ rest) v (node s p t f c u) h k = (
    k.0,
    k.1,
    k.2,
    EveryStatic-set_child s text (insert_candidate rest v (child_or_empty s text))
        (Every-insert_candidate rest v (child_or_empty s text) h
          (EveryStatic-child_or_empty s text k.3))
        k.3,
    k.4,
  )

  pub Every-new :
      (segments : List PathSegment) (v : Candidate)
      → P v
      → Every (insert_candidate segments v empty_node)
  Every-new segments v h = Every-insert_candidate segments v empty_node h Every-empty_node

  All-sort_candidates : (vs : List Candidate) → All P vs → All P (sort_candidates vs)
  unfolding sort_candidates
  All-sort_candidates vs h = All-sort_by by_key P vs h

  mutual
    unfolding Every finalize_node

    pub Every-finalize_node : (n : PathNode) → Every n → Every (finalize_node n)
    Every-finalize_node (node s p t f c u) h = (
      All-sort_candidates t h.0,
      All-sort_candidates f h.1,
      All-sort_candidates c h.2,
      EveryStatic-finalize_children s h.3,
      EveryParameter-finalize_maybe p h.4,
    )

    EveryStatic-finalize_children :
        (s : Children) → EveryStatic s → EveryStatic (finalize_children s)
    EveryStatic-finalize_children no_children h = tt
    EveryStatic-finalize_children (child key n s) h =
        (Every-finalize_node n h.0, EveryStatic-finalize_children s h.1)

    EveryParameter-finalize_maybe :
        (p : MaybeNode) → EveryParameter p → EveryParameter (finalize_maybe p)
    EveryParameter-finalize_maybe absent h = tt
    EveryParameter-finalize_maybe (present n) h = Every-finalize_node n h

module _ (P Q : Candidate → Type 0) (f : (c : Candidate) → P c → Q c) where
  All-weaken : (vs : List Candidate) → All P vs → All Q vs
  All-weaken [] h = tt
  All-weaken (v ∷ vs) h = (f v h.0, All-weaken vs h.1)

  mutual
    unfolding Every

    -- A weaker property holds too.
    pub Every-weaken : (n : PathNode) → Every P n → Every Q n
    Every-weaken (node s p t g c u) h = (
      All-weaken t h.0,
      All-weaken g h.1,
      All-weaken c h.2,
      EveryStatic-weaken s h.3,
      EveryParameter-weaken p h.4,
    )

    EveryStatic-weaken : (s : Children) → EveryStatic P s → EveryStatic Q s
    EveryStatic-weaken no_children h = tt
    EveryStatic-weaken (child key n s) h = (Every-weaken n h.0, EveryStatic-weaken s h.1)

    EveryParameter-weaken : (p : MaybeNode) → EveryParameter P p → EveryParameter Q p
    EveryParameter-weaken absent h = tt
    EveryParameter-weaken (present n) h = Every-weaken n h
