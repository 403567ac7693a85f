-- ===== src/Router/Tree/Located.antt =====
-- Where a candidate lies in the tree: the segments that lead from a node to it.
use g_gateway.Base.{
  Option, ◌≡◌, refl, true, false, List, [], ◌∷◌, ◌++◌, Bytes, bytes_eq, bytes_eq_refl, In,
  In-append_left, In-append_right, ◌⊎◌, inl, inr, Bool-cases,
}
use g_gateway.Router.Pattern.{PathSegment}
use g_gateway.Router.Precedence.{PrecedenceKey}
use g_gateway.Router.Tree.{
  Candidate, PathNode, Children, MaybeNode, node, no_children, child, absent, present, empty_node,
  set_child, child_or_empty, node_or_empty, insert_candidate,
}

unfoldable mutual
  -- The candidate stands at the end of `segments`, read from the node on.
  pub At : PathNode → List PathSegment → Candidate → Type 0
  At (node s p t f c u) [] v = In v t
  At (node s p t f c u) (PathSegment.prefix ∷ rest) v = In v f
  At (node s p t f c u) (PathSegment.catch_all name ∷ rest) v = In v c
  At (node s p t f c u) (PathSegment.parameter name ∷ rest) v = AtParameter p rest v
  At (node s p t f c u) (PathSegment.static text ∷ rest) v = AtStatic s text rest v

  pub AtStatic : Children → Bytes → List PathSegment → Candidate → Type 0
  AtStatic no_children text rest v = ⊥
  AtStatic (child key n s) text rest v =
      ((bytes_eq key text ≡ true) × At n rest v)
      ⊎ ((bytes_eq key text ≡ false) × AtStatic s text rest v)

  pub AtParameter : MaybeNode → List PathSegment → Candidate → Type 0
  AtParameter absent rest v = ⊥
  AtParameter (present n) rest v = At n rest v

AtStatic-set_child :
    (s : Children) (text : Bytes) (n : PathNode) (rest : List PathSegment) (v : Candidate)
    → At n rest v
    → AtStatic (set_child s text n) text rest v
unfolding AtStatic
AtStatic-set_child no_children text n rest v h = inl (bytes_eq_refl text, h)
AtStatic-set_child (child key m s) text n rest v h = elim (Bool-cases (bytes_eq key text)) [
  | inl e ↦ rw e (inl (e, h))
  | inr e ↦ rw e (inr (e, AtStatic-set_child s text n rest v h))
]

-- An insertion puts the candidate at the end of its segments.
pub At-insert_candidate :
    (segments : List PathSegment) (v : Candidate) (n : PathNode)
    → At (insert_candidate segments v n) segments v
unfolding At insert_candidate
At-insert_candidate [] v (node s p t f c u) = In-append_right v t (v ∷ []) (inl refl)
At-insert_candidate (PathSegment.prefix ∷ rest) v (node s p t f c u) =
    In-append_right v f (v ∷ []) (inl refl)
At-insert_candidate (PathSegment.catch_all name ∷ rest) v (node s p t f c u) =
    In-append_right v c (v ∷ []) (inl refl)
At-insert_candidate (PathSegment.parameter name ∷ rest) v (node s p t f c u) =
    At-insert_candidate rest v (node_or_empty p)
At-insert_candidate (PathSegment.static text ∷ rest) v (node s p t f c u) =
    AtStatic-set_child s text (insert_candidate rest v (child_or_empty s text)) rest v
      (At-insert_candidate rest v (child_or_empty s text))

At-empty : (r : List PathSegment) (v : Candidate) → At empty_node r v → ⊥
unfolding At
At-empty [] v h = h
At-empty (PathSegment.prefix ∷ rest) v h = h
At-empty (PathSegment.catch_all name ∷ rest) v h = h
At-empty (PathSegment.parameter name ∷ rest) v h = h
At-empty (PathSegment.static text ∷ rest) v h = h

AtStatic-keep :
    (s : Children) (text : Bytes) (n : PathNode) (key : Bytes) (rest : List PathSegment)
    (v : Candidate)
    → (At (child_or_empty s text) rest v → At n rest v)
    → AtStatic s key rest v
    → AtStatic (set_child s text n) key rest v
unfolding AtStatic
AtStatic-keep no_children text n key rest v keep h = elim h [ ]
AtStatic-keep (child k m s) text n key rest v keep (inl (e, h)) =
    elim (Bool-cases (bytes_eq k text)) [
      | inl f ↦ rw f (inl (e, keep (rw f h)))
      | inr f ↦ rw f (inl (e, h))
    ]
AtStatic-keep (child k m s) text n key rest v keep (inr (e, h)) =
    elim (Bool-cases (bytes_eq k text)) [
      | inl f ↦ rw f (inr (e, h))
      | inr f ↦ rw f (inr (e, AtStatic-keep s text n key rest v (λ h'. keep (rw f h')) h))
    ]

AtParameter-keep :
    (p : MaybeNode) (rest : List PathSegment) (v : Candidate)
    → AtParameter p rest v
    → At (node_or_empty p) rest v
unfolding AtParameter
AtParameter-keep absent rest v h = elim h [ ]
AtParameter-keep (present n) rest v h = h

module _ (v : Candidate) (s s' : Children) (p p' : MaybeNode)
    (t t' f f' c c' : List Candidate) where
  -- A node whose five parts keep a candidate keeps it.
  pub At-parts :
      (u u' : Option PrecedenceKey)
      → (In v t → In v t')
      → (In v f → In v f')
      → (In v c → In v c')
      → ((rest : List PathSegment) → AtParameter p rest v → AtParameter p' rest v)
      → ((key : Bytes) (rest : List PathSegment) → AtStatic s key rest v → AtStatic s' key rest v)
      → (r : List PathSegment) → At (node s p t f c u) r v
      → At (node s' p' t' f' c' u') r v
  unfolding At
  At-parts u u' ht hf hc hp hs [] h = ht h
  At-parts u u' ht hf hc hp hs (PathSegment.prefix ∷ rest) h = hf h
  At-parts u u' ht hf hc hp hs (PathSegment.catch_all name ∷ rest) h = hc h
  At-parts u u' ht hf hc hp hs (PathSegment.parameter name ∷ rest) h = hp rest h
  At-parts u u' ht hf hc hp hs (PathSegment.static text ∷ rest) h = hs text rest h

-- An insertion keeps the candidates that are there.
pub At-insert_candidate_other :
    (segments : List PathSegment) (w : Candidate) (n : PathNode) (r : List PathSegment)
    (v : Candidate)
    → At n r v
    → At (insert_candidate segments w n) r v
unfolding AtParameter insert_candidate
At-insert_candidate_other [] w (node s p t f c u) r v h =
    At-parts v s s p p t (t ++ w ∷ []) f f c c u u (In-append_left v t (w ∷ [])) (λ k. k) (λ k. k)
      (λ _ k. k) (λ _ _ k. k) r h
At-insert_candidate_other (PathSegment.prefix ∷ rest) w (node s p t f c u) r v h =
    At-parts v s s p p t t f (f ++ w ∷ []) c c u u (λ k. k) (In-append_left v f (w ∷ [])) (λ k. k)
      (λ _ k. k) (λ _ _ k. k) r h
At-insert_candidate_other (PathSegment.catch_all name ∷ rest) w (node s p t f c u) r v h =
    At-parts v s s p p t t f f c (c ++ w ∷ []) u u (λ k. k) (λ k. k) (In-append_left v c (w ∷ []))
      (λ _ k. k) (λ _ _ k. k) r h
At-insert_candidate_other (PathSegment.parameter name ∷ rest) w (node s p t f c u) r v h =
    At-parts v s s p (present (insert_candidate rest w (node_or_empty p))) t t f f c c u u (λ k. k)
      (λ k. k) (λ k. k)
      (λ r' k. At-insert_candidate_other rest w (node_or_empty p) r' v (AtParameter-keep p r' v k))
      (λ _ _ k. k) r h
At-insert_candidate_other (PathSegment.static text ∷ rest) w (node s p t f c u) r v h =
    At-parts v s (set_child s text (insert_candidate rest w (child_or_empty s text))) p p t t f f c
      c u u (λ k. k) (λ k. k) (λ k. k) (λ _ k. k)
      (λ key r' k.
        AtStatic-keep s text (insert_candidate rest w (child_or_empty s text)) key r' v
          (At-insert_candidate_other rest w (child_or_empty s text) r' v) k)
      r h
