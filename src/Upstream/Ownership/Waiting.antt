-- ===== src/Upstream/Ownership/Waiting.antt =====
-- The list of retired sets: no set stands in it twice, and a set in it is registered and not finalised.
use g_gateway.Base.{
  ℕ, ◌<◌, ◌≡◌, refl, sym, ap, subst, ◌∙◌, ◌⊎◌, inl, inr, Bool, true, false, not, ◌||◌, Option, none,
  some, List, [], ◌∷◌, ◌++◌, arith, get_elem?, set, length, length-set, length-append, In, ◌==◌,
  Bool-cases, Option-cases,
}
use g_gateway.Base.Tally.{get_elem?-set, get_elem?-append}
use g_gateway.Upstream.Registry.{Registry, no_refs, release_refs}
use g_gateway.Upstream.Ownership.{PlanSet, sweep, release_sets}
use g_gateway.Upstream.Ownership.Invariant.{opens}
use g_gateway.Upstream.Ownership.Sweeping.{sweep-SweptAt}

abbrev pub IsDistinct : List ℕ → Type 0
IsDistinct [] = Unit
IsDistinct (x ∷ xs) = (In x xs → ⊥) × IsDistinct xs

pub record IsWaiting (ids : List ℕ) (ss : List PlanSet) : Type 0 where
  pub known : (i : ℕ) → In i ids → i < length ss
  pub waiting :
      (i : ℕ) (s : PlanSet)
      → get_elem? ss i ≡ some s
      → In i ids
      → (s.finalized ≡ false) × (opens s ≡ 0)
  pub closed : (i : ℕ) (s : PlanSet) → get_elem? ss i ≡ some s → s.finalized ≡ true → opens s ≡ 0
  pub distinct : IsDistinct ids

clash : {b : Bool} → b ≡ false → b ≡ true → ⊥
clash u v = cc

-- One set changes, and stays finalised and registered if it was.
pub IsWaiting-set :
    (ids : List ℕ) (ss : List PlanSet) (i : ℕ) (s s' : PlanSet)
    → IsWaiting ids ss
    → get_elem? ss i ≡ some s
    → s'.finalized ≡ s.finalized
    → (opens s ≡ 0 → opens s' ≡ 0)
    → IsWaiting ids (set ss i s')
IsWaiting-set ids ss i s s' v e f o = record {
  known = λ j m. subst (λ n. j < n) (sym (length-set ss i s')) (v.known j m);
  waiting = λ j t g m. elim (get_elem?-set ss i j t s' g) [
    | inl (p, same) ↦
        let w = v.waiting i s e (subst (λ x. In x ids) p m) in
        (sym (ap (λ x. x.finalized) same) ∙ f ∙ w.0, sym (ap opens same) ∙ o w.1)
    | inr (_, h) ↦ v.waiting j t h m
  ];
  closed = λ j t g q. elim (get_elem?-set ss i j t s' g) [
    | inl (_, same) ↦
        sym (ap opens same) ∙ o (v.closed i s e (sym f ∙ ap (λ x. x.finalized) same ∙ q))
    | inr (_, h) ↦ v.closed j t h q
  ];
  distinct = v.distinct;
}

-- A new set is the last one, and it is not in the list.
pub IsWaiting-snoc :
    (ids : List ℕ) (ss : List PlanSet) (s : PlanSet)
    → IsWaiting ids ss
    → s.finalized ≡ false
    → IsWaiting ids (ss ++ s ∷ [])
IsWaiting-snoc ids ss s v f = record {
  known = λ j m. omega (arith, v.known j m, length-append ss (s ∷ []));
  waiting = λ j t g m. elim (get_elem?-append ss j t s g) [
    | inl (p, _) ↦ absurd (omega (arith, p, v.known j m))
    | inr h ↦ v.waiting j t h m
  ];
  closed = λ j t g q. elim (get_elem?-append ss j t s g) [
    | inl (_, same) ↦ absurd (clash f (ap (λ x. x.finalized) same ∙ q))
    | inr h ↦ v.closed j t h q
  ];
  distinct = v.distinct;
}

In-snoc : (ids : List ℕ) (i j : ℕ) → In j (ids ++ i ∷ []) → In j ids ⊎ (j ≡ i)
In-snoc [] i j (inl p) = inr p
In-snoc [] i j (inr m) = elim m [ ]
In-snoc (x ∷ ids) i j (inl p) = inl (inl p)
In-snoc (x ∷ ids) i j (inr m) = elim (In-snoc ids i j m) [ inl n ↦ inl (inr n) | inr p ↦ inr p ]

IsDistinct-snoc :
    (ids : List ℕ) (i : ℕ) → IsDistinct ids → (In i ids → ⊥) → IsDistinct (ids ++ i ∷ [])
IsDistinct-snoc [] i v n = (λ m. elim m [ ], tt)
IsDistinct-snoc (x ∷ ids) i v n = (
  λ m. elim (In-snoc ids i x m) [ inl k ↦ v.0 k | inr p ↦ n (inl (sym p)) ],
  IsDistinct-snoc ids i v.1 (λ m. n (inr m)),
)

-- A set that was open is registered, and stands last in the list.
pub IsWaiting-register :
    (ids : List ℕ) (ss : List PlanSet) (i : ℕ) (s s' : PlanSet)
    → IsWaiting ids ss
    → get_elem? ss i ≡ some s
    → i < length ss
    → s'.finalized ≡ s.finalized
    → opens s ≡ 1
    → opens s' ≡ 0
    → IsWaiting (ids ++ i ∷ []) (set ss i s')
IsWaiting-register ids ss i s s' v e b f o z =
    let w = IsWaiting-set ids ss i s s' v e f (λ _. z) in
    record {
      known = λ j m. elim (In-snoc ids i j m) [
        | inl k ↦ w.known j k
        | inr p ↦
            subst (λ x. x < length (set ss i s')) (sym p)
              (subst (λ n. i < n) (sym (length-set ss i s')) b)
      ];
      waiting = λ j t g m. elim (get_elem?-set ss i j t s' g) [
        | inl (_, same) ↦
            (sym (ap (λ x. x.finalized) same) ∙ f ∙ unfinished, sym (ap opens same) ∙ z)
        | inr (n, h) ↦ elim (In-snoc ids i j m) [ inl k ↦ v.waiting j t h k | inr p ↦ absurd (n p) ]
      ];
      closed = w.closed;
      distinct = IsDistinct-snoc ids i v.distinct (λ m. omega (arith, o, (v.waiting i s e m).1));
    }
  where
    unfinished : s.finalized ≡ false
    unfinished = elim (Bool-cases s.finalized) [
      | inl t ↦ absurd (omega (arith, o, v.closed i s e t))
      | inr t ↦ t
    ]

-- The first loop of the reaper takes its survivors and the sets it finalises from the list, each once,
-- and no set is both.
record IsParted (ids kept finalized : List ℕ) : Type 0 where
  survivors : (j : ℕ) → In j kept → In j ids
  ended : (j : ℕ) → In j finalized → In j ids
  apart : (j : ℕ) → In j kept → In j finalized → ⊥
  once : IsDistinct kept

sweep-IsParted :
    (ids : List ℕ) (ss : List PlanSet)
    → IsDistinct ids
    → IsParted ids (sweep ids ss).0 (sweep ids ss).1
unfolding sweep
sweep-IsParted [] ss d = record {
  survivors = λ j m. m;
  ended = λ j m. m;
  apart = λ j m n. elim m [ ];
  once = tt;
}
sweep-IsParted (id ∷ ids) ss d = elim (Option-cases (get_elem? ss id)) [
  | inl e ↦
      let v = sweep-IsParted ids ss d.1 in
      rw (e, sweep)
        (record {
          survivors = λ j m. inr (v.survivors j m);
          ended = λ j m. inr (v.ended j m);
          apart = v.apart;
          once = v.once;
        })
  | inr (s, e) ↦ elim (Bool-cases (not (s.refs == 0) || s.finalized)) [
    | inl f ↦
        let v = sweep-IsParted ids ss d.1 in
        rw (e, f, sweep)
          (record {
            survivors = λ j m. elim m [ inl p ↦ inl p | inr n ↦ inr (v.survivors j n) ];
            ended = λ j m. inr (v.ended j m);
            apart = λ j m n. elim m [
              | inl p ↦ d.0 (subst (λ x. In x ids) p (v.ended j n))
              | inr k ↦ v.apart j k n
            ];
            once = (λ m. d.0 (v.survivors id m), v.once);
          })
    | inr f ↦
        let v = sweep-IsParted ids (set ss id (record s { finalized = true })) d.1 in
        rw (e, f, sweep)
          (record {
            survivors = λ j m. inr (v.survivors j m);
            ended = λ j m. elim m [ inl p ↦ inl p | inr n ↦ inr (v.ended j n) ];
            apart = λ j m n. elim n [
              | inl p ↦ d.0 (subst (λ x. In x ids) p (v.survivors j m))
              | inr k ↦ v.apart j m k
            ];
            once = v.once;
          })
  ]
]

sweep-length : (ids : List ℕ) (ss : List PlanSet) → length (sweep ids ss).2 ≡ length ss
unfolding sweep
sweep-length [] ss = refl
sweep-length (id ∷ ids) ss = elim (Option-cases (get_elem? ss id)) [
  | inl e ↦ rw (e, sweep) (sweep-length ids ss)
  | inr (s, e) ↦ elim (Bool-cases (not (s.refs == 0) || s.finalized)) [
    | inl f ↦ rw (e, f, sweep) (sweep-length ids ss)
    | inr f ↦
        let ss' = set ss id (record s { finalized = true }) in
        rw (e, f, sweep) (sweep-length ids ss' ∙ length-set ss id (record s { finalized = true }))
  ]
]

-- After the first loop, the survivors wait.
pub sweep-IsWaiting :
    (ids : List ℕ) (ss : List PlanSet)
    → IsWaiting ids ss
    → IsWaiting (sweep ids ss).0 (sweep ids ss).2
sweep-IsWaiting ids ss v =
    let p = sweep-IsParted ids ss v.distinct in
    record {
      known = λ j m. subst (λ n. j < n) (sym (sweep-length ids ss)) (v.known j (p.survivors j m));
      waiting = λ j s g m. elim (sweep-SweptAt ids ss j s g) [
        | inl (h, _, _) ↦ v.waiting j s h (p.survivors j m)
        | inr (n, _) ↦ absurd (p.apart j m n)
      ];
      closed = λ j s g q. elim (sweep-SweptAt ids ss j s g) [
        | inl (h, _, _) ↦ v.closed j s h q
        | inr (n, (t, h, same)) ↦ ap opens same ∙ (v.waiting j t h (p.ended j n)).1
      ];
      distinct = p.once;
    }

-- Where no listed set has references, the first loop leaves no survivors.
pub sweep-none :
    (ids : List ℕ) (ss : List PlanSet)
    → IsDistinct ids
    → ((j : ℕ) (s : PlanSet)
        → get_elem? ss j ≡ some s
        → In j ids
        → (s.finalized ≡ false) × (s.refs ≡ 0))
    → (sweep ids ss).0 ≡ []
unfolding sweep
sweep-none [] ss d h = refl
sweep-none (id ∷ ids) ss d h = elim (Option-cases (get_elem? ss id)) [
  | inl e ↦ rw (e, sweep) (sweep-none ids ss d.1 (λ j s g m. h j s g (inr m)))
  | inr (s, e) ↦
      let w = h id s e (inl refl) in
      let ss' = set ss id (record s { finalized = true }) in
      rw (e, idle s w, sweep)
        (sweep-none ids ss' d.1 (λ j t g m.
          elim (get_elem?-set ss id j t (record s { finalized = true }) g) [
            | inl (p, _) ↦ absurd (d.0 (subst (λ x. In x ids) p m))
            | inr (_, k) ↦ h j t k (inr m)
          ]))
]
  where
    idle :
        (s : PlanSet)
        → (s.finalized ≡ false) × (s.refs ≡ 0)
        → (not (s.refs == 0) || s.finalized) ≡ false
    idle s w = ground (arith, w.0, w.1)

abbrev SameLength : List PlanSet → Option (Registry × List PlanSet) → Type 0
SameLength ss none = Unit
SameLength ss (some (r, ss')) = length ss' ≡ length ss

release_sets-SameLength :
    (ids : List ℕ) (r : Registry) (ss : List PlanSet) → SameLength ss (release_sets ids r ss)
unfolding release_sets
release_sets-SameLength [] r ss = refl
release_sets-SameLength (id ∷ ids) r ss = elim (Option-cases (get_elem? ss id)) [
  | inl e ↦ rw (e, release_sets) (release_sets-SameLength ids r ss)
  | inr (s, e) ↦ elim (Option-cases (release_refs r s.owned)) [
    | inl f ↦ rw (e, f, release_sets) tt
    | inr ((r', closing), f) ↦
        let ss' = set ss id (record s { owned = no_refs }) in
        rw (e, f, release_sets)
          (shifted ss' (length-set ss id (record s { owned = no_refs })) (release_sets ids r' ss')
            (release_sets-SameLength ids r' ss'))
  ]
]
  where
    shifted :
        (ss' : List PlanSet)
        → length ss' ≡ length ss
        → (o : Option (Registry × List PlanSet)) → SameLength ss' o
        → SameLength ss o
    shifted ss' e none h = tt
    shifted ss' e (some (r', ss'')) h = h ∙ e

pub release_sets-length :
    (ids : List ℕ) (r : Registry) (ss : List PlanSet) (r' : Registry) (ss' : List PlanSet)
    → release_sets ids r ss ≡ some (r', ss')
    → length ss' ≡ length ss
release_sets-length ids r ss r' ss' e = subst (SameLength ss) e (release_sets-SameLength ids r ss)
