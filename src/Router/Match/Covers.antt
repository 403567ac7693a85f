-- ===== src/Router/Match/Covers.antt =====
-- No candidate that fits a request is missed: pruning a node, breaking off a list and choosing the
-- children by the path's next segment only pass over what is settled or does not match.
use g_gateway.Base.{
  ◌≡◌, refl, sym, ap, subst, Bool, true, false, Option, none, some, List, [], ◌∷◌, In, All, All-In,
  Bytes, ◌⊎◌, inl, inr, if◌then◌else◌, bytes_eq_refl, contains_bytes, filterb, Bool-cases, arith,
}
use g_gateway.Router.Library.{Library}
use g_gateway.Router.Pattern.{ParamSpan, match_path}
use g_gateway.Router.Predicate.{has_method, evaluate, standard_methods}
use g_gateway.Router.Precedence.{PrecedenceKey}
use g_gateway.Router.Precedence.Order.{compare_trans, compare_self}
use g_gateway.Router.Tree.{Candidate}
use g_gateway.Router.Tree.Bounds.{Le, Descending}
use g_gateway.Router.Match.{
  Request, Winner, MatcherState, settled, add_missing, add_allow, accept, consider,
}
use g_gateway.Router.Match.Grows.{
  contains_bytes-add_missing, Grows, accept-won, accept_refused, consider-Turn, consider-Grows,
}

-- Every method of the candidate is allowed.
abbrev pub Allowed : Candidate → MatcherState → Type 0
Allowed c s =
    All (λ m. contains_bytes s.allow m ≡ true) (filterb (has_method c.methods) standard_methods)
    × All (λ m. contains_bytes s.allow m ≡ true) c.methods.custom

All-keep :
    (ms set ns : List Bytes)
    → All (λ m. contains_bytes set m ≡ true) ns
    → All (λ m. contains_bytes (add_missing ms set) m ≡ true) ns
All-keep ms set [] h = tt
All-keep ms set (n ∷ ns) h = (contains_bytes-add_missing ms set n h.0, All-keep ms set ns h.1)

-- All that is added is there.
add_missing-All : (ms set : List Bytes) → All (λ m. contains_bytes (add_missing ms set) m ≡ true) ms
add_missing-All [] set = tt
add_missing-All (m ∷ ms) set =
    (head_there, add_missing-All ms (if contains_bytes set m then set else m ∷ set))
  where
    head_there :
        contains_bytes (add_missing ms (if contains_bytes set m then set else m ∷ set)) m ≡ true
    head_there =
        contains_bytes-add_missing ms (if contains_bytes set m then set else m ∷ set) m
          (elim (Bool-cases (contains_bytes set m)) [
            | inl e ↦ rw (e, e) refl
            | inr e ↦ rw e (ground (arith, bytes_eq_refl m))
          ])

module _ (lib : Library) (request : Request) (path : Bytes) where
  -- The path and the predicates of the candidate match.
  abbrev pub Fits : Candidate → Type 0
  Fits c =
      ((match_path c.path.segments path).0 ≡ true)
      × (evaluate lib c.predicates request.headers request.raw_query ≡ some true)

  -- The candidate is at most the best one, or lends its methods to the allowed ones because the
  -- request's is not among them.
  abbrev pub Covers : Candidate → MatcherState → Type 0
  Covers c s =
      (settled s.best c.key ≡ true) ⊎ ((has_method c.methods request.method ≡ false) × Allowed c s)

  All-grow :
      (s t : MatcherState) (g : Grows s t) (ms : List Bytes)
      → All (λ m. contains_bytes s.allow m ≡ true) ms
      → All (λ m. contains_bytes t.allow m ≡ true) ms
  All-grow s t g [] h = tt
  All-grow s t g (m ∷ ms) h = (g.allow m h.0, All-grow s t g ms h.1)

  pub Covers-Grows : (c : Candidate) (s t : MatcherState) → Grows s t → Covers c s → Covers c t
  Covers-Grows c s t g (inl h) = inl (g.best c.key h)
  Covers-Grows c s t g (inr (n, a)) = inr (
    n,
    (
      All-grow s t g (filterb (has_method c.methods) standard_methods) a.0,
      All-grow s t g c.methods.custom a.1,
    ),
  )

  add_allow-Allowed :
      (c : Candidate) (s : MatcherState)
      → Allowed c (record s { allow = add_allow c.methods s.allow })
  unfolding add_allow
  add_allow-Allowed c s =
      let standard = filterb (has_method c.methods) standard_methods in
      (
        All-keep c.methods.custom (add_missing standard s.allow) standard
            (add_missing-All standard s.allow),
        add_missing-All c.methods.custom (add_missing standard s.allow),
      )

  accept-Covers :
      (c : Candidate) (params : List ParamSpan) (s : MatcherState)
      → Covers c (accept lib request path c params s)
  accept-Covers c params s = elim (Bool-cases (has_method c.methods request.method)) [
    | inl e ↦
        subst (Covers c) (sym (accept-won lib request path c params s e))
          (inl (ground (arith, compare_self c.key)))
    | inr e ↦
        subst (Covers c) (sym (accept_refused lib request path c params s e))
          (inr (e, add_allow-Allowed c s))
  ]

  pub settled-Le :
      (b : Option Winner) (k l : PrecedenceKey) → Le k l → settled b l ≡ true → settled b k ≡ true
  settled-Le none k l h i = cc
  settled-Le (some w) k l h i = compare_trans k l w.key h i

  head_Le :
      (v : Candidate) (vs : List Candidate) (c : Candidate)
      → Descending (v ∷ vs)
      → In c (v ∷ vs)
      → Le c.key v.key
  head_Le v vs c d (inl e) = rw e (ground (arith, compare_self v.key))
  head_Le v vs c d (inr h) = All-In (λ (w : Candidate). Le w.key v.key) c vs d.0 h

  different : {x y : Bool} → x ≡ y → x ≡ true → y ≡ false → ⊥
  different {x} {y} p q r = cc

  refuted : {x y : Option Bool} → x ≡ y → x ≡ some true → y ≡ some false → ⊥
  refuted {x} {y} p q r = cc

  -- A list that descends: breaking it off passes over settled candidates only.
  pub consider-Covers :
      (vs : List Candidate) (c : Candidate) (s s' : MatcherState)
      → Descending vs
      → In c vs
      → Fits c
      → consider lib request path vs s ≡ some s'
      → Covers c s'
  consider-Covers [] c s s' d h f q = elim h [ ]
  consider-Covers (v ∷ vs) c s s' d h f q = elim (consider-Turn lib request path v vs s s' q) [
    | inl (e, p) ↦ subst (Covers c) p (inl (settled-Le s.best c.key v.key (head_Le v vs c d h) e))
    | inr (inl (e, p)) ↦ elim h [
      | inl k ↦
          absurd (different (ap (λ (x : Candidate). (match_path x.path.segments path).0) k) f.0 e)
      | inr k ↦ consider-Covers vs c s s' d.1 k f p
    ]
    | inr (inr (inl (e, p))) ↦ elim h [
      | inl k ↦ absurd (
          refuted
            (ap (λ (x : Candidate). evaluate lib x.predicates request.headers request.raw_query) k)
            f.1 e)
      | inr k ↦ consider-Covers vs c s s' d.1 k f p
    ]
    | inr (inr (inr (n, m, e, p))) ↦
        let params = (match_path v.path.segments path).1 in
        let s1 = accept lib request path v params s in
        elim h [
          | inl k ↦
              Covers-Grows c s1 s' (consider-Grows lib request path vs s1 s' p)
                (subst (λ x. Covers x s1) (sym k) (accept-Covers v params s))
          | inr k ↦ consider-Covers vs c s1 s' d.1 k f p
        ]
  ]
