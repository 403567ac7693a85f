-- ===== src/Router/Tree/Finalize.antt =====
-- finalizeNode: it orders every list, bounds every node, and keeps every candidate where it is.
use g_gateway.Base.{◌≡◌, List, [], ◌∷◌, In, ◌⊎◌, inl, inr, Bytes, Bool-cases}
use g_gateway.Base.Order.{insert_by, sort_by}
use g_gateway.Router.Pattern.{PathSegment}
use g_gateway.Router.Tree.{
  Candidate, PathNode, Children, MaybeNode, node, no_children, child, absent, present,
  sort_candidates, finalize_node, finalize_children, finalize_maybe, upper_of,
}
use g_gateway.Router.Tree.Located.{At, AtStatic, AtParameter, At-parts}
use g_gateway.Router.Tree.Bounds.{
  by_key, IsFinal, AreFinal, IsFinalParameter, Descending-sort_candidates, At-bound,
}

mutual
  unfolding IsFinal finalize_node

  finalize_tree-IsFinal : (n : PathNode) → IsFinal (finalize_node n)
  finalize_tree-IsFinal (node s p t f c u) =
      let t' = sort_candidates t in
      let f' = sort_candidates f in
      let c' = sort_candidates c in
      (
        Descending-sort_candidates t,
        Descending-sort_candidates f,
        Descending-sort_candidates c,
        (λ r v h.
            At-bound (finalize_children s) (finalize_maybe p) t' f' c' u
              (upper_of (finalize_node (node s p t f c u))) (finalize_children-AreFinal s)
              (finalize_maybe-IsFinalParameter p) r v h),
        finalize_children-AreFinal s,
        finalize_maybe-IsFinalParameter p,
      )

  finalize_children-AreFinal : (s : Children) → AreFinal (finalize_children s)
  finalize_children-AreFinal no_children = tt
  finalize_children-AreFinal (child key n s) =
      (finalize_tree-IsFinal n, finalize_children-AreFinal s)

  finalize_maybe-IsFinalParameter : (p : MaybeNode) → IsFinalParameter (finalize_maybe p)
  finalize_maybe-IsFinalParameter absent = tt
  finalize_maybe-IsFinalParameter (present n) = finalize_tree-IsFinal n

-- Every list of a finalised tree is in descending order, and the bound of every node holds.
pub finalize_node-IsFinal : (n : PathNode) → IsFinal (finalize_node n)
finalize_node-IsFinal = finalize_tree-IsFinal

In-insert_by :
    (w v : Candidate) (vs : List Candidate) → ((w ≡ v) ⊎ In w vs) → In w (insert_by by_key v vs)
unfolding insert_by
In-insert_by w v [] h = h
In-insert_by w v (x ∷ xs) h = elim (Bool-cases (by_key x v)) [
  | inl e ↦
      rw (e, insert_by)
        (elim h [
          | inl k ↦ inr (In-insert_by w v xs (inl k))
          | inr (inl k) ↦ inl k
          | inr (inr k) ↦ inr (In-insert_by w v xs (inr k))
        ])
  | inr e ↦ rw (e, insert_by) h
]

In-sort_candidates : (w : Candidate) (vs : List Candidate) → In w vs → In w (sort_candidates vs)
unfolding sort_candidates sort_by
In-sort_candidates w [] h = h
In-sort_candidates w (v ∷ vs) (inl e) = In-insert_by w v (sort_by by_key vs) (inl e)
In-sort_candidates w (v ∷ vs) (inr h) =
    In-insert_by w v (sort_by by_key vs) (inr (In-sort_candidates w vs h))

mutual
  unfolding AtStatic finalize_node

  -- A finalised tree has each candidate where it was.
  pub At-finalize_node :
      (n : PathNode) (r : List PathSegment) (v : Candidate) → At n r v → At (finalize_node n) r v
  At-finalize_node (node s p t f c u) r v h =
      At-parts v s (finalize_children s) p (finalize_maybe p) t (sort_candidates t) f
        (sort_candidates f) c (sort_candidates c) u (upper_of (finalize_node (node s p t f c u)))
        (In-sort_candidates v t) (In-sort_candidates v f) (In-sort_candidates v c)
        (λ rest k. AtParameter-finalize_maybe p rest v k)
        (λ key rest k. AtStatic-finalize_children s key rest v k) r h

  AtStatic-finalize_children :
      (s : Children) (key : Bytes) (r : List PathSegment) (v : Candidate)
      → AtStatic s key r v
      → AtStatic (finalize_children s) key r v
  AtStatic-finalize_children no_children key r v h = h
  AtStatic-finalize_children (child k n s) key r v (inl (e, h)) = inl (e, At-finalize_node n r v h)
  AtStatic-finalize_children (child k n s) key r v (inr (e, h)) =
      inr (e, AtStatic-finalize_children s key r v h)

  AtParameter-finalize_maybe :
      (p : MaybeNode) (r : List PathSegment) (v : Candidate)
      → AtParameter p r v
      → AtParameter (finalize_maybe p) r v
  AtParameter-finalize_maybe absent r v h = h
  AtParameter-finalize_maybe (present n) r v h = At-finalize_node n r v h
