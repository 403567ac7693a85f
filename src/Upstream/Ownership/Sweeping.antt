-- ===== src/Upstream/Ownership/Sweeping.antt =====
-- What the two loops of reapNow do to each plan set.
use g_gateway.Base.{
  ℕ, ◌≡◌, refl, sym, ap, subst, ◌∙◌, ◌⊎◌, inl, inr, true, false, not, ◌||◌, Option, none, some,
  List, [], ◌∷◌, arith, get_elem?, set, In, ◌==◌, Bool-cases, Option-cases, some-injective,
}
use g_gateway.Base.Tally.{get_elem?-set}
use g_gateway.Upstream.Registry.Shared.{release_all}
use g_gateway.Upstream.Registry.Keys.{
  identities, transport_keys, selection_keys, health_keys, budget_keys,
}
use g_gateway.Upstream.Registry.{ResourceRefs, no_refs, Registry, release_refs}
use g_gateway.Upstream.Ownership.{PlanSet, sweep, release_sets}

-- After the first loop, a set is as it was, and then it survives if it was retired, and has references
-- if it is not finalised; or it is finalised now, and is among the finalised ones.
abbrev pub SweptAt : List ℕ → List PlanSet → List ℕ → List ℕ → ℕ → PlanSet → Type 0
SweptAt ids ss kept finalized j s =
    ((get_elem? ss j ≡ some s)
      × (In j ids → In j kept)
      × (In j ids → s.finalized ≡ false → (s.refs == 0) ≡ false))
    ⊎ (In j finalized
        × ((t : PlanSet) × (get_elem? ss j ≡ some t) × (s ≡ record t { finalized = true })))

none_some {ℓ} : {A : Type ℓ} {B : Type 0} (o : Option A) (a : A) → o ≡ none → o ≡ some a → B
none_some o a p q = absurd (clash (sym p ∙ q))
  where
    clash : none ≡ some a → ⊥
    clash e = absurd cc

SweptAt-here :
    (id : ℕ) (ids : List ℕ) (ss : List PlanSet) (t : PlanSet) (kept finalized : List ℕ) (j : ℕ)
    (s : PlanSet)
    → get_elem? ss id ≡ some t
    → (t.refs == 0) ≡ true
    → SweptAt ids (set ss id (record t { finalized = true })) kept finalized j s
    → SweptAt (id ∷ ids) ss kept (id ∷ finalized) j s
SweptAt-here id ids ss t kept finalized j s e z (inl (g, k, r)) =
    elim (get_elem?-set ss id j s (record t { finalized = true }) g) [
      | inl (p, q) ↦ inr (inl p, (t, subst (λ x. get_elem? ss x ≡ some t) (sym p) e, sym q))
      | inr (n, h) ↦ inl (
        h,
        λ m. elim m [ inl p ↦ absurd (n p) | inr m' ↦ k m' ],
        λ m. elim m [ inl p ↦ absurd (n p) | inr m' ↦ r m' ],
      )
    ]
SweptAt-here id ids ss t kept finalized j s e z (inr (m, (u, g, q))) =
    elim (get_elem?-set ss id j u (record t { finalized = true }) g) [
      | inl (p, same) ↦ inr (
        inr m,
        (
          t,
          subst (λ x. get_elem? ss x ≡ some t) (sym p) e,
          q ∙ ap (λ (x : PlanSet). record x { finalized = true }) (sym same),
        ),
      )
      | inr (n, h) ↦ inr (inr m, (u, h, q))
    ]

SweptAt-kept :
    (id : ℕ) (ids : List ℕ) (ss : List PlanSet) (t : PlanSet) (kept finalized : List ℕ) (j : ℕ)
    (s : PlanSet)
    → get_elem? ss id ≡ some t
    → (not (t.refs == 0) || t.finalized) ≡ true
    → SweptAt ids ss kept finalized j s
    → SweptAt (id ∷ ids) ss (id ∷ kept) finalized j s
SweptAt-kept id ids ss t kept finalized j s e z (inr h) = inr h
SweptAt-kept id ids ss t kept finalized j s e z (inl (g, k, r)) = inl (
  g,
  λ m. elim m [ inl p ↦ inl p | inr m' ↦ inr (k m') ],
  λ m f. elim m [
    | inl p ↦ busy (some-injective t s (sym e ∙ ap (λ x. get_elem? ss x) (sym p) ∙ g)) f
    | inr m' ↦ r m' f
  ],
)
  where
    busy : t ≡ s → s.finalized ≡ false → (s.refs == 0) ≡ false
    busy q f = tested (subst (λ x. (not (x.refs == 0) || x.finalized) ≡ true) q z) f
      where
        tested :
            (not (s.refs == 0) || s.finalized) ≡ true → s.finalized ≡ false → (s.refs == 0) ≡ false
        tested a b = ground (arith, a, b)

pub sweep-SweptAt :
    (ids : List ℕ) (ss : List PlanSet) (j : ℕ) (s : PlanSet)
    → get_elem? (sweep ids ss).2 j ≡ some s
    → SweptAt ids ss (sweep ids ss).0 (sweep ids ss).1 j s
unfolding sweep
sweep-SweptAt [] ss j s g = inl (g, λ m. m, λ m f. elim m [ ])
sweep-SweptAt (id ∷ ids) ss j s g = elim (Option-cases (get_elem? ss id)) [
  | inl e ↦ rw (e, sweep) (passed e (sweep-SweptAt ids ss j s (rw (e, sweep) at g)))
  | inr (t, e) ↦ elim (Bool-cases (not (t.refs == 0) || t.finalized)) [
    | inl f ↦
        rw (e, f, sweep)
          (SweptAt-kept id ids ss t _ _ j s e f (sweep-SweptAt ids ss j s (rw (e, f, sweep) at g)))
    | inr f ↦
        let ss' = set ss id (record t { finalized = true }) in
        rw (e, f, sweep)
          (SweptAt-here id ids ss t _ _ j s e (ground (arith, f))
            (sweep-SweptAt ids ss' j s (rw (e, f, sweep) at g)))
  ]
]
  where
    passed :
        get_elem? ss id ≡ none
        → SweptAt ids ss (sweep ids ss).0 (sweep ids ss).1 j s
        → SweptAt (id ∷ ids) ss (sweep ids ss).0 (sweep ids ss).1 j s
    passed e (inr h) = inr h
    passed e (inl (h, k, r)) = inl (
      h,
      λ m. elim m [
        | inl p ↦ none_some (get_elem? ss j) s (ap (λ x. get_elem? ss x) p ∙ e) h
        | inr m' ↦ k m'
      ],
      λ m. elim m [
        | inl p ↦ none_some (get_elem? ss j) s (ap (λ x. get_elem? ss x) p ∙ e) h
        | inr m' ↦ r m'
      ],
    )

abbrev SameRetired : Registry → Option (Registry × List ℕ) → Type 0
SameRetired r none = Unit
SameRetired r (some (r', _)) = r'.retired ≡ r.retired

-- A release of references leaves the list of retired sets alone.
release_refs-SameRetired : (r : Registry) (o : ResourceRefs) → SameRetired r (release_refs r o)
unfolding release_refs
release_refs-SameRetired r o =
    elim (Option-cases (release_all identities r.endpoints o.endpoint_ids)) [
      | inl e ↦ rw (e, release_refs) tt
      | inr (a, e) ↦
          elim (Option-cases (release_all transport_keys r.transports o.transport_keys)) [
            | inl f ↦ rw (e, f, release_refs) tt
            | inr (b, f) ↦
                elim (Option-cases (release_all selection_keys r.selections o.selection_keys)) [
                  | inl g ↦ rw (e, f, g, release_refs) tt
                  | inr (c, g) ↦
                      elim (Option-cases (release_all health_keys r.health o.health_keys)) [
                        | inl h ↦ rw (e, f, g, h, release_refs) tt
                        | inr (d, h) ↦
                            elim (Option-cases (release_all budget_keys r.budgets o.budget_keys)) [
                              | inl k ↦ rw (e, f, g, h, k, release_refs) tt
                              | inr (l, k) ↦ rw (e, f, g, h, k, release_refs) refl
                            ]
                      ]
                ]
          ]
    ]

pub release_refs-retired :
    (r r' : Registry) (o : ResourceRefs) (closing : List ℕ)
    → release_refs r o ≡ some (r', closing)
    → r'.retired ≡ r.retired
release_refs-retired r r' o closing e = subst (SameRetired r) e (release_refs-SameRetired r o)

-- After the second loop, a set is as it was, and then it is not among the finalised ones; or it owns
-- nothing any more.
abbrev pub ReleasedAt : List ℕ → List PlanSet → ℕ → PlanSet → Type 0
ReleasedAt ids ss j s =
    (t : PlanSet) × (get_elem? ss j ≡ some t)
    × (((s ≡ t) × (In j ids → ⊥)) ⊎ (s ≡ record t { owned = no_refs }))

ReleasedAt-here :
    (id : ℕ) (ids : List ℕ) (ss : List PlanSet) (t : PlanSet) (j : ℕ) (s : PlanSet)
    → get_elem? ss id ≡ some t
    → ReleasedAt ids (set ss id (record t { owned = no_refs })) j s
    → ReleasedAt (id ∷ ids) ss j s
ReleasedAt-here id ids ss t j s e (u, g, q) =
    elim (get_elem?-set ss id j u (record t { owned = no_refs }) g) [
      | inl (p, same) ↦ (t, subst (λ x. get_elem? ss x ≡ some t) (sym p) e, inr (emptied same q))
      | inr (n, h) ↦ (
        u,
        h,
        elim q [
          | inl (same, m) ↦ inl (same, λ k. elim k [ inl p ↦ n p | inr k' ↦ m k' ])
          | inr same ↦ inr same
        ],
      )
    ]
  where
    emptied :
        record t { owned = no_refs } ≡ u
        → ((s ≡ u) × (In j ids → ⊥)) ⊎ (s ≡ record u { owned = no_refs })
        → s ≡ record t { owned = no_refs }
    emptied p (inl (a, _)) = a ∙ sym p
    emptied p (inr a) = a ∙ ap (λ (x : PlanSet). record x { owned = no_refs }) (sym p)

abbrev pub ReleasedAll :
    List ℕ → Registry → List PlanSet → Option (Registry × List PlanSet) → Type 0
ReleasedAll ids r ss none = Unit
ReleasedAll ids r ss (some (r', ss')) =
    (r'.retired ≡ r.retired)
    × ((j : ℕ) (s : PlanSet) → get_elem? ss' j ≡ some s → ReleasedAt ids ss j s)

pub release_sets-ReleasedAll :
    (ids : List ℕ) (r : Registry) (ss : List PlanSet) → ReleasedAll ids r ss (release_sets ids r ss)
unfolding release_sets
release_sets-ReleasedAll [] r ss = (refl, λ j s g. (s, g, inl (refl, λ m. elim m [ ])))
release_sets-ReleasedAll (id ∷ ids) r ss = elim (Option-cases (get_elem? ss id)) [
  | inl e ↦
      rw (e, release_sets) (passed e (release_sets ids r ss) (release_sets-ReleasedAll ids r ss))
  | inr (t, e) ↦ elim (Option-cases (release_refs r t.owned)) [
    | inl f ↦ rw (e, f, release_sets) tt
    | inr ((r', closing), f) ↦
        rw (e, f, release_sets)
          (further t r' e (release_refs-retired r r' t.owned closing f)
            (release_sets ids r' (set ss id (record t { owned = no_refs })))
            (release_sets-ReleasedAll ids r' (set ss id (record t { owned = no_refs }))))
  ]
]
  where
    passed :
        get_elem? ss id ≡ none
        → (o : Option (Registry × List PlanSet)) → ReleasedAll ids r ss o
        → ReleasedAll (id ∷ ids) r ss o
    passed e none h = tt
    passed e (some (r', ss')) (k, h) = (k, λ j s g. also j s (h j s g))
      where
        also : (j : ℕ) (s : PlanSet) → ReleasedAt ids ss j s → ReleasedAt (id ∷ ids) ss j s
        also j s (t, q, inr m) = (t, q, inr m)
        also j s (t, q, inl (same, m)) = (
          t,
          q,
          inl (
            same,
            λ n. elim n [
              | inl p ↦ none_some (get_elem? ss j) t (ap (λ x. get_elem? ss x) p ∙ e) q
              | inr n' ↦ m n'
            ],
          ),
        )

    further :
        (t : PlanSet) (r' : Registry)
        → get_elem? ss id ≡ some t
        → r'.retired ≡ r.retired
        → (o : Option (Registry × List PlanSet))
        → ReleasedAll ids r' (set ss id (record t { owned = no_refs })) o
        → ReleasedAll (id ∷ ids) r ss o
    further t r' e f none h = tt
    further t r' e f (some (r'', ss')) (k, h) =
        (k ∙ f, λ j s g. ReleasedAt-here id ids ss t j s e (h j s g))
