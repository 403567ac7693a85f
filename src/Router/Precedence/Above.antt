-- ===== src/Router/Precedence/Above.antt =====
-- comparePrecedence decides by the first of seven fields in which two keys differ.
use g_gateway.Base.{
  ℕ, ◌<◌, ◌≡◌, ◌↔◌, refl, ap, subst, ◌⊎◌, inl, inr, true, false, arith, Bytes, bytes_lt,
  bytes_lt-total, Bool-cases,
}
use g_gateway.Base.Int.{ℤ, pos, negsuc, ltb_ℤ}
use g_gateway.Router.Precedence.{
  PrecedenceKey, Comparison, higher, lower, same, compare_ints, compare_ids, then_by,
  compare_precedence,
}
use g_gateway.Router.Precedence.Order.{flip, compare_self, compare_precedence-IsPreorder}

-- The key `a` goes before the key `b`: they agree on the fields before one, and there `a` has the larger
-- number, or, at last, the smaller identifier.
pub data IsAbove (a b : PrecedenceKey) : Type 0 where
  by_priority : ltb_ℤ b.priority a.priority ≡ true → IsAbove a b
  by_host : a.priority ≡ b.priority → b.host_rank < a.host_rank → IsAbove a b
  by_path :
      a.priority ≡ b.priority → a.host_rank ≡ b.host_rank → b.path_kind < a.path_kind → IsAbove a b
  by_statics :
      a.priority ≡ b.priority
      → a.host_rank ≡ b.host_rank
      → a.path_kind ≡ b.path_kind
      → b.static_segments < a.static_segments
      → IsAbove a b
  by_bytes :
      a.priority ≡ b.priority
      → a.host_rank ≡ b.host_rank
      → a.path_kind ≡ b.path_kind
      → a.static_segments ≡ b.static_segments
      → b.pattern_bytes < a.pattern_bytes
      → IsAbove a b
  by_predicates :
      a.priority ≡ b.priority
      → a.host_rank ≡ b.host_rank
      → a.path_kind ≡ b.path_kind
      → a.static_segments ≡ b.static_segments
      → a.pattern_bytes ≡ b.pattern_bytes
      → b.predicate_count < a.predicate_count
      → IsAbove a b
  by_id :
      a.priority ≡ b.priority
      → a.host_rank ≡ b.host_rank
      → a.path_kind ≡ b.path_kind
      → a.static_segments ≡ b.static_segments
      → a.pattern_bytes ≡ b.pattern_bytes
      → a.predicate_count ≡ b.predicate_count
      → bytes_lt a.route_id b.route_id ≡ true
      → IsAbove a b

-- The three results of a comparison of numbers.
ltb_ℤ-total : (x y : ℤ) → ltb_ℤ x y ≡ false → ltb_ℤ y x ≡ false → x ≡ y
ltb_ℤ-total (pos a) (pos b) h k = ap pos (ground (arith, h, k))
ltb_ℤ-total (pos a) (negsuc b) h k = absurd cc
ltb_ℤ-total (negsuc a) (pos b) h k = absurd cc
ltb_ℤ-total (negsuc a) (negsuc b) h k = ap negsuc (ground (arith, h, k))

ltb_ℤ_self : (x : ℤ) → ltb_ℤ x x ≡ false
ltb_ℤ_self (pos a) = ground arith
ltb_ℤ_self (negsuc a) = ground arith

-- A first stage that agrees, and one that decides.
abbrev Stage : Comparison → Type 0 → Type 0 → Type 0
Stage c up eq = ((c ≡ higher) × up) ⊎ ((c ≡ same) × eq) ⊎ (c ≡ lower)

priority-cases : (x y : ℤ) → Stage (compare_ints x y) (ltb_ℤ y x ≡ true) (x ≡ y)
priority-cases x y = elim (Bool-cases (ltb_ℤ y x)) [
  | inl e ↦ inl (rw e refl, e)
  | inr e ↦ elim (Bool-cases (ltb_ℤ x y)) [
    | inl f ↦ inr (inr (rw (e, f) refl))
    | inr f ↦ inr (inl (rw (e, f) refl, ltb_ℤ-total x y f e))
  ]
]

number-cases : (x y : ℕ) → Stage (compare_ints (pos x) (pos y)) (y < x) (x ≡ y)
number-cases x y = elim (priority-cases (pos x) (pos y)) [
  | inl (e, h) ↦ inl (e, ground (arith, h))
  | inr (inl (e, h)) ↦ inr (inl (e, ground (arith, e)))
  | inr (inr e) ↦ inr (inr e)
]

id-cases : (s t : Bytes) → Stage (compare_ids s t) (bytes_lt s t ≡ true) (s ≡ t)
id-cases s t = elim (Bool-cases (bytes_lt s t)) [
  | inl e ↦ inl (rw e refl, e)
  | inr e ↦ elim (Bool-cases (bytes_lt t s)) [
    | inl f ↦ inr (inr (rw (e, f) refl))
    | inr f ↦ inr (inl (rw (e, f) refl, ground (arith, bytes_lt-total s t, e, f)))
  ]
]

-- The stage that decides is the first that does not agree.
first_above :
    {A up eq : Type 0} {c next : Comparison}
    → Stage c up eq
    → (up → A)
    → (eq → next ≡ higher → A)
    → then_by c next ≡ higher
    → A
first_above (inl (e, u)) f g h = f u
first_above (inr (inl (e, q))) f g h = g q (rw e at h)
first_above (inr (inr e)) f g h = absurd (clash (rw e at h))
  where
    clash : lower ≡ higher → ⊥
    clash q = absurd cc

all_agree :
    {A up eq : Type 0} {c next : Comparison}
    → Stage c up eq
    → (eq → next ≡ same → A)
    → then_by c next ≡ same
    → A
all_agree (inl (e, u)) g h = absurd (clash (rw e at h))
  where
    clash : higher ≡ same → ⊥
    clash q = absurd cc
all_agree (inr (inl (e, q))) g h = g q (rw e at h)
all_agree (inr (inr e)) g h = absurd (clash (rw e at h))
  where
    clash : lower ≡ same → ⊥
    clash q = absurd cc

decides : {c : Comparison} (next : Comparison) → c ≡ higher → then_by c next ≡ higher
decides next e = rw e refl

agrees :
    {x y : ℤ} {next : Comparison} → x ≡ y → next ≡ higher → then_by (compare_ints x y) next ≡ higher
agrees {x} {y} {next} e h =
    subst (λ z. then_by (compare_ints x z) next ≡ higher) e (rw (ltb_ℤ_self x) h)

more : (x y : ℕ) → y < x → compare_ints (pos x) (pos y) ≡ higher
more x y h = ground (arith, h)

module _ (a b : PrecedenceKey) where
  higher-IsAbove : compare_precedence a b ≡ higher → IsAbove a b
  unfolding compare_precedence
  higher-IsAbove = first_above (priority-cases a.priority b.priority) by_priority (λ p.
      first_above (number-cases a.host_rank b.host_rank) (by_host p) (λ q.
        first_above (number-cases a.path_kind b.path_kind) (by_path p q) (λ r.
          first_above (number-cases a.static_segments b.static_segments) (by_statics p q r) (λ s.
            first_above (number-cases a.pattern_bytes b.pattern_bytes) (by_bytes p q r s) (λ t.
              first_above (number-cases a.predicate_count b.predicate_count)
                (by_predicates p q r s t) (λ u h. by_id p q r s t u (least h)))))))
    where
      least : compare_ids a.route_id b.route_id ≡ higher → bytes_lt a.route_id b.route_id ≡ true
      least h = ground (arith, h)

  IsAbove-higher : IsAbove a b → compare_precedence a b ≡ higher
  unfolding compare_precedence
  IsAbove-higher (by_priority h) = decides {c = compare_ints a.priority b.priority} _ (rw h refl)
  IsAbove-higher (by_host p h) = agrees p (decides _ (more a.host_rank b.host_rank h))
  IsAbove-higher (by_path p q h) =
      agrees p (agrees (ap pos q) (decides _ (more a.path_kind b.path_kind h)))
  IsAbove-higher (by_statics p q r h) = agrees p (
      agrees (ap pos q)
        (agrees (ap pos r) (decides _ (more a.static_segments b.static_segments h))))
  IsAbove-higher (by_bytes p q r s h) = agrees p (
      agrees (ap pos q) (
        agrees (ap pos r) (agrees (ap pos s) (decides _ (more a.pattern_bytes b.pattern_bytes h)))))
  IsAbove-higher (by_predicates p q r s t h) = agrees p (
      agrees (ap pos q) (
        agrees (ap pos r) (
          agrees (ap pos s)
            (agrees (ap pos t) (decides _ (more a.predicate_count b.predicate_count h))))))
  IsAbove-higher (by_id p q r s t u h) = agrees p (
      agrees (ap pos q)
        (agrees (ap pos r) (agrees (ap pos s) (agrees (ap pos t) (agrees (ap pos u) (rw h refl))))))

  same-equal : compare_precedence a b ≡ same → a ≡ b
  unfolding compare_precedence
  same-equal = all_agree (priority-cases a.priority b.priority) (λ p.
      all_agree (number-cases a.host_rank b.host_rank) (λ q.
        all_agree (number-cases a.path_kind b.path_kind) (λ r.
          all_agree (number-cases a.static_segments b.static_segments) (λ s.
            all_agree (number-cases a.pattern_bytes b.pattern_bytes) (λ t.
              all_agree (number-cases a.predicate_count b.predicate_count)
                (λ u h. fields p q r s t u (ids h)))))))
    where
      ids : compare_ids a.route_id b.route_id ≡ same → a.route_id ≡ b.route_id
      ids h = elim (id-cases a.route_id b.route_id) [
        | inl (e, _) ↦ absurd cc
        | inr (inl (_, q)) ↦ q
        | inr (inr e) ↦ absurd cc
      ]

      fields :
          a.priority ≡ b.priority
          → a.host_rank ≡ b.host_rank
          → a.path_kind ≡ b.path_kind
          → a.static_segments ≡ b.static_segments
          → a.pattern_bytes ≡ b.pattern_bytes
          → a.predicate_count ≡ b.predicate_count
          → a.route_id ≡ b.route_id
          → a ≡ b
      fields p q r s t u w = cc

-- comparePrecedence returns 1 exactly where the first key is above the second, -1 exactly where the second
-- is above the first, and 0 exactly where they are the same key. A key is above another if it has the
-- higher priority; or, field by field among keys that agree so far, the higher rank of the host, the
-- higher kind of path, more static segments, a longer pattern, or more predicates; or, where all of these
-- agree, the smaller identifier.
pub compare_precedence-IsAbove :
    (a b : PrecedenceKey)
    → ((compare_precedence a b ≡ higher) ↔ IsAbove a b)
      × ((compare_precedence a b ≡ lower) ↔ IsAbove b a)
      × ((compare_precedence a b ≡ same) ↔ (a ≡ b))
compare_precedence-IsAbove a b = (
  (higher-IsAbove a b, IsAbove-higher a b),
  (λ h. higher-IsAbove b a (flipped a b lower h), λ h. flipped b a higher (IsAbove-higher b a h)),
  (same-equal a b, λ e. subst (λ x. compare_precedence a x ≡ same) e (compare_self a)),
)
  where
    flipped :
        (x y : PrecedenceKey) (c : Comparison)
        → compare_precedence x y ≡ c
        → compare_precedence y x ≡ flip c
    flipped x y c h = rw h at (compare_precedence-IsPreorder.flips x y)
