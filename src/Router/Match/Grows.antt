-- ===== src/Router/Match/Grows.antt =====
-- A visit never loses what it has found: the best candidate is only replaced by a higher one, and the
-- allowed methods are only added to.
use g_gateway.Base.{
  some-injective, ◌≡◌, refl, sym, subst, true, false, Option, none, some, List, [], ◌∷◌, Bytes, ◌⊎◌,
  inl, inr, Bool-cases, contains_bytes, arith, filterb,
}
use g_gateway.Router.Library.{Library}
use g_gateway.Router.Pattern.{ParamSpan, match_path}
use g_gateway.Router.Predicate.{MethodSet, standard_methods, has_method, evaluate}
use g_gateway.Router.Precedence.{PrecedenceKey}
use g_gateway.Router.Precedence.Order.{compare_trans, compare-total}
use g_gateway.Router.Tree.{Candidate}
use g_gateway.Router.Match.{
  and_then, Request, Winner, MatcherState, settled, add_missing, add_allow, accept, consider,
  consider_lists,
}

-- The parts of a computation that has succeeded.
pub and_then-some :
    {A B : Type 0} (o : Option A) (k : A → Option B) (b : B)
    → and_then o k ≡ some b
    → (a : A) × (o ≡ some a) × (k a ≡ some b)
unfolding and_then
and_then-some none k b h = cc
and_then-some (some a) k b h = (a, refl, h)

-- `s'` is at least as far as `s`.
pub record Grows (s s' : MatcherState) : Type 0 where
  pub best : (k : PrecedenceKey) → settled s.best k ≡ true → settled s'.best k ≡ true
  pub allow : (m : Bytes) → contains_bytes s.allow m ≡ true → contains_bytes s'.allow m ≡ true

pub Grows-refl : (s : MatcherState) → Grows s s
Grows-refl s = record { best = λ _ h. h; allow = λ _ h. h }

pub Grows-trans : (s t u : MatcherState) → Grows s t → Grows t u → Grows s u
Grows-trans s t u g h = record {
  best = λ k e. h.best k (g.best k e);
  allow = λ m e. h.allow m (g.allow m e);
}

pub Grows-some : (s t : MatcherState) → some s ≡ some t → Grows s t
Grows-some s t e = subst (Grows s) (some-injective s t e) (Grows-refl s)

pub contains_bytes-add_missing :
    (ms set : List Bytes) (m : Bytes)
    → contains_bytes set m ≡ true
    → contains_bytes (add_missing ms set) m ≡ true
contains_bytes-add_missing [] set m h = h
contains_bytes-add_missing (x ∷ ms) set m h = elim (Bool-cases (contains_bytes set x)) [
  | inl e ↦ rw e (contains_bytes-add_missing ms set m h)
  | inr e ↦ rw e (contains_bytes-add_missing ms (x ∷ set) m (ground arith))
]

settled_trans :
    (best : Option Winner) (w : Winner) (k : PrecedenceKey)
    → settled best w.key ≡ false
    → settled best k ≡ true
    → settled (some w) k ≡ true
settled_trans none w k h i = cc
settled_trans (some b) w k h i = compare_trans k b.key w.key i (compare-total w.key b.key h)

module _ (lib : Library) (request : Request) (path : Bytes) where
  abbrev pub won : Candidate → List ParamSpan → MatcherState → MatcherState
  won v params s = record s {
    best = some (record { key = v.key; route_index = v.route_index; params = params });
  }

  pub accept-won :
      (v : Candidate) (params : List ParamSpan) (s : MatcherState)
      → has_method v.methods request.method ≡ true
      → accept lib request path v params s ≡ won v params s
  unfolding accept
  accept-won v params s e = rw e refl

  pub accept_refused :
      (v : Candidate) (params : List ParamSpan) (s : MatcherState)
      → has_method v.methods request.method ≡ false
      → accept lib request path v params s ≡ record s { allow = add_allow v.methods s.allow }
  unfolding accept
  accept_refused v params s e = rw e refl

  contains_bytes-add_allow :
      (ms : MethodSet) (allow : List Bytes) (m : Bytes)
      → contains_bytes allow m ≡ true
      → contains_bytes (add_allow ms allow) m ≡ true
  unfolding add_allow
  contains_bytes-add_allow ms allow m h =
      contains_bytes-add_missing ms.custom
        (add_missing (filterb (has_method ms) standard_methods) allow) m
        (contains_bytes-add_missing (filterb (has_method ms) standard_methods) allow m h)

  pub accept-Grows :
      (v : Candidate) (params : List ParamSpan) (s : MatcherState)
      → settled s.best v.key ≡ false
      → Grows s (accept lib request path v params s)
  accept-Grows v params s h = elim (Bool-cases (has_method v.methods request.method)) [
    | inl e ↦ subst (Grows s) (sym (accept-won v params s e)) (record {
      best = λ k i.
          settled_trans s.best
            (record { key = v.key; route_index = v.route_index; params = params }) k h i;
      allow = λ _ i. i;
    })
    | inr e ↦
        subst (Grows s) (sym (accept_refused v params s e)) (record {
          best = λ _ i. i;
          allow = λ m i. contains_bytes-add_allow v.methods s.allow m i;
        })
  ]

  -- The turns of consider's loop.
  abbrev pub Turn : Candidate → List Candidate → MatcherState → MatcherState → Type 0
  Turn v vs s s' =
      let (matches, params) = match_path v.path.segments path in
      ((settled s.best v.key ≡ true) × (s ≡ s'))
      ⊎ ((matches ≡ false) × (consider lib request path vs s ≡ some s'))
      ⊎ ((evaluate lib v.predicates request.headers request.raw_query ≡ some false)
          × (consider lib request path vs s ≡ some s'))
      ⊎ ((settled s.best v.key ≡ false)
          × (matches ≡ true)
          × (evaluate lib v.predicates request.headers request.raw_query ≡ some true)
          × (consider lib request path vs (accept lib request path v params s) ≡ some s'))

  pub consider-Turn :
      (v : Candidate) (vs : List Candidate) (s s' : MatcherState)
      → consider lib request path (v ∷ vs) s ≡ some s'
      → Turn v vs s s'
  unfolding consider
  consider-Turn v vs s s' h = ground arith

  pub consider-Grows :
      (vs : List Candidate) (s s' : MatcherState)
      → consider lib request path vs s ≡ some s'
      → Grows s s'
  unfolding consider
  consider-Grows [] s s' h = Grows-some s s' h
  consider-Grows (v ∷ vs) s s' h = elim (consider-Turn v vs s s' h) [
    | inl (e, q) ↦ subst (Grows s) q (Grows-refl s)
    | inr (inl (m, q)) ↦ consider-Grows vs s s' q
    | inr (inr (inl (e, q))) ↦ consider-Grows vs s s' q
    | inr (inr (inr (n, m, e, q))) ↦
        let params = (match_path v.path.segments path).1 in
        let s1 = accept lib request path v params s in
        Grows-trans s s1 s' (accept-Grows v params s n) (consider-Grows vs s1 s' q)
  ]

  pub and_then-Grows :
      (o : Option MatcherState) (k : MatcherState → Option MatcherState) (s s' : MatcherState)
      → and_then o k ≡ some s'
      → ((t : MatcherState) → o ≡ some t → Grows s t)
      → ((t : MatcherState) → k t ≡ some s' → Grows t s')
      → Grows s s'
  and_then-Grows o k s s' h f g =
      let (t, e, q) = and_then-some o k s' h in Grows-trans s t s' (f t e) (g t q)

  pub consider_lists-Grows :
      (t f c : List Candidate) (s s' : MatcherState)
      → consider_lists lib request path t f c s ≡ some s'
      → Grows s s'
  unfolding consider_lists
  consider_lists-Grows t f c s s' h =
      and_then-Grows (consider lib request path t s) _ s s' h (λ s1 e. consider-Grows t s s1 e)
        (λ s1 e.
          and_then-Grows (consider lib request path f s1) _ s1 s' e
            (λ s2 e'. consider-Grows f s1 s2 e') (λ s2 e'. consider-Grows c s2 s' e'))
