-- ===== src/Upstream/Chash/Points.antt =====
-- The points that compileContinuum makes: how many, of which endpoint, under which hash, in which order.
use g_gateway.Base.{
  ℕ, zero, suc, ◌+◌, ◌≤◌, ◌≡◌, refl, sym, ap, subst, ◌∙◌, inl, inr, Bool, true, false, not, some,
  List, [], ◌∷◌, ◌++◌, map, arith, Bytes, Bool-cases, length, length-append, All, count,
  count-append, get_elem?, ltb, ◌==◌, if◌then◌else◌, bytes_eq, bytes_lt,
}
use g_gateway.Base.Order.{insert_by, sort_by, All-insert_by, All-sort_by}
use g_gateway.Upstream.Weights.{WeightedEndpoint, Slot}
use g_gateway.Upstream.Weights.Apportion.{places}
use g_gateway.Upstream.Weights.Terms.{sum_at, names}
use g_gateway.Upstream.Chash.{
  ContinuumPoint, continuum_point_hash, points_of, all_points, sort_continuum_points, point_before,
}

abbrev pub hashes_of : List ContinuumPoint → List ℕ
hashes_of = map (λ (p : ContinuumPoint). p.hash)

abbrev pub ordinals_of : List ContinuumPoint → List ℕ
ordinals_of = map (λ (p : ContinuumPoint). p.endpoint_index)

-- Numbers that do not fall.
abbrev pub Ascending : List ℕ → Type 0
Ascending [] = Unit
Ascending (x ∷ xs) = All (λ y. x ≤ y) xs × Ascending xs

ordered : (p q : ContinuumPoint) → point_before p q ≡ true → p.hash ≤ q.hash
unfolding point_before
ordered p q e = ground (arith, e)

unordered : (p q : ContinuumPoint) → point_before p q ≡ false → q.hash ≤ p.hash
unfolding point_before
unordered p q e = ground (arith, e)

-- The points of hash `lo` or more.
abbrev From : ℕ → List ContinuumPoint → Type 0
From lo = All (λ p. lo ≤ p.hash)

From-trans : (lo hi : ℕ) (ps : List ContinuumPoint) → lo ≤ hi → From hi ps → From lo ps
From-trans lo hi [] l h = tt
From-trans lo hi (p ∷ ps) l h = (omega (arith, l, h.0), From-trans lo hi ps l h.1)

Rising : List ContinuumPoint → Type 0
Rising [] = Unit
Rising (p ∷ ps) = From p.hash ps × Rising ps

insert-Rising :
    (p : ContinuumPoint) (ps : List ContinuumPoint)
    → Rising ps
    → Rising (insert_by point_before p ps)
unfolding Rising insert_by
insert-Rising p [] h = (tt, tt)
insert-Rising p (q ∷ qs) h = elim (Bool-cases (point_before q p)) [
  | inl e ↦
      rw (e, insert_by)
        (
          All-insert_by point_before (λ (x : ContinuumPoint). q.hash ≤ x.hash) p qs (ordered q p e)
              h.0,
          insert-Rising p qs h.1,
        )
  | inr e ↦
      rw (e, insert_by) ((unordered q p e, From-trans p.hash q.hash qs (unordered q p e) h.0), h)
]

sort-Rising : (ps : List ContinuumPoint) → Rising (sort_by point_before ps)
unfolding Rising sort_by
sort-Rising [] = tt
sort-Rising (p ∷ ps) = insert-Rising p (sort_by point_before ps) (sort-Rising ps)

Rising-Ascending : (ps : List ContinuumPoint) → Rising ps → Ascending (hashes_of ps)
unfolding Rising
Rising-Ascending [] h = tt
Rising-Ascending (p ∷ ps) h = (from ps h.0, Rising-Ascending ps h.1)
  where
    from : (qs : List ContinuumPoint) → From p.hash qs → All (λ y. p.hash ≤ y) (hashes_of qs)
    from [] h = tt
    from (q ∷ qs) h = (h.0, from qs h.1)

pub sort_continuum_points-Ascending :
    (ps : List ContinuumPoint) → Ascending (hashes_of (sort_continuum_points ps))
unfolding sort_continuum_points
sort_continuum_points-Ascending ps = Rising-Ascending (sort_by point_before ps) (sort-Rising ps)

count-insert :
    (i : ℕ) (p : ContinuumPoint) (ps : List ContinuumPoint)
    → count i (ordinals_of (insert_by point_before p ps)) ≡ count i (ordinals_of (p ∷ ps))
unfolding insert_by
count-insert i p [] = refl
count-insert i p (q ∷ qs) = elim (Bool-cases (point_before q p)) [
  | inl e ↦ rw (e, insert_by) (omega (arith, count-insert i p qs))
  | inr e ↦ rw (e, insert_by) refl
]

-- Sorting moves the points, and loses none.
pub count-sort_continuum_points :
    (i : ℕ) (ps : List ContinuumPoint)
    → count i (ordinals_of (sort_continuum_points ps)) ≡ count i (ordinals_of ps)
unfolding sort_continuum_points sort_by
count-sort_continuum_points i [] = refl
count-sort_continuum_points i (p ∷ ps) =
    count-insert i p (sort_by point_before ps) ∙ omega (arith, count-sort_continuum_points i ps)

pub length-map : {A B : Type 0} (f : A → B) (xs : List A) → length (map f xs) ≡ length xs
length-map f [] = refl
length-map f (x ∷ xs) = ap suc (length-map f xs)

ordinals-append :
    (ps qs : List ContinuumPoint) → ordinals_of (ps ++ qs) ≡ ordinals_of ps ++ ordinals_of qs
ordinals-append [] qs = refl
ordinals-append (p ∷ ps) qs = ap (λ xs. p.endpoint_index ∷ xs) (ordinals-append ps qs)

-- The endpoint of a slot, and of a point under its hash.
abbrev pub IsNamed : List WeightedEndpoint → ℕ × Bytes → Type 0
IsNamed es (i, identity) =
    (e : WeightedEndpoint) × (get_elem? es i ≡ some e) × (e.identity ≡ identity)

module _ (xxhash : Bytes → ℕ) (es : List WeightedEndpoint) where
  -- The point is of the endpoint, and its hash is that of the endpoint's identity and of a number.
  abbrev pub Stands : ℕ → ℕ → Type 0
  Stands h o =
      (e : WeightedEndpoint) × (get_elem? es o ≡ some e)
      × ((k : ℕ) × (h ≡ continuum_point_hash xxhash e.identity k))

  abbrev IsStanding : ContinuumPoint → Type 0
  IsStanding p = Stands p.hash p.endpoint_index

  IsStanding-of :
      (s : Slot) (k n : ℕ)
      → IsNamed es (s.index, s.identity)
      → All IsStanding (points_of xxhash s k n)
  unfolding points_of
  IsStanding-of s k zero h = tt
  IsStanding-of s k (suc n) h = (
    (h.0, h.1, (k, ap (λ x. continuum_point_hash xxhash x k) (sym h.2))),
    IsStanding-of s (k + 1) n h,
  )

  All-append :
      (ps qs : List ContinuumPoint)
      → All IsStanding ps
      → All IsStanding qs
      → All IsStanding (ps ++ qs)
  All-append [] qs h k = k
  All-append (p ∷ ps) qs h k = (h.0, All-append ps qs h.1 k)

  IsStanding-all :
      (ss : List Slot) → All (IsNamed es) (names ss) → All IsStanding (all_points xxhash ss)
  unfolding all_points
  IsStanding-all [] h = tt
  IsStanding-all (s ∷ ss) h =
      All-append (points_of xxhash s 0 s.assigned) (all_points xxhash ss)
        (IsStanding-of s 0 s.assigned h.0) (IsStanding-all ss h.1)

  at_position :
      (ps : List ContinuumPoint)
      → All IsStanding ps
      → (j h o : ℕ) → get_elem? (hashes_of ps) j ≡ some h
      → get_elem? (ordinals_of ps) j ≡ some o
      → Stands h o
  at_position [] v j h o e f = absurd cc
  at_position (p ∷ ps) v zero h o e f =
      subst (λ x. Stands x o) (g_gateway.Base.some-injective p.hash h e)
        (subst (Stands p.hash) (g_gateway.Base.some-injective p.endpoint_index o f) v.0)
  at_position (p ∷ ps) v (suc j) h o e f = at_position ps v.1 j h o e f

  pub points-Stands :
      (ss : List Slot)
      → All (IsNamed es) (names ss)
      → (j h o : ℕ)
      → get_elem? (hashes_of (sort_continuum_points (all_points xxhash ss))) j ≡ some h
      → get_elem? (ordinals_of (sort_continuum_points (all_points xxhash ss))) j ≡ some o
      → Stands h o
  unfolding sort_continuum_points
  points-Stands ss v =
      at_position (sort_by point_before (all_points xxhash ss))
        (All-sort_by point_before IsStanding (all_points xxhash ss) (IsStanding-all ss v))

  count-points_of :
      (i : ℕ) (s : Slot) (k n : ℕ)
      → count i (ordinals_of (points_of xxhash s k n)) ≡ (if s.index == i then n else 0)
  unfolding points_of
  count-points_of i s k zero = ground arith
  count-points_of i s k (suc n) = ground (arith, count-points_of i s (k + 1) n)

  -- Each endpoint has as many points as were assigned to it, and there are no others.
  pub count-all_points :
      (i : ℕ) (ss : List Slot)
      → count i (ordinals_of (all_points xxhash ss)) ≡ sum_at (λ s. s.assigned) i ss
  unfolding all_points
  count-all_points i [] = refl
  count-all_points i (s ∷ ss) =
      ap (count i) (ordinals-append (points_of xxhash s 0 s.assigned) (all_points xxhash ss))
      ∙ count-append i (ordinals_of (points_of xxhash s 0 s.assigned))
          (ordinals_of (all_points xxhash ss))
      ∙ omega (arith, count-points_of i s 0 s.assigned, count-all_points i ss)

  length-points_of : (s : Slot) (k n : ℕ) → length (points_of xxhash s k n) ≡ n
  unfolding points_of
  length-points_of s k zero = refl
  length-points_of s k (suc n) = ap suc (length-points_of s (k + 1) n)

  pub length-all_points : (ss : List Slot) → length (all_points xxhash ss) ≡ places ss
  unfolding all_points
  length-all_points [] = refl
  length-all_points (s ∷ ss) = omega (
    arith,
    length-append (points_of xxhash s 0 s.assigned) (all_points xxhash ss),
    length-points_of s 0 s.assigned,
    length-all_points ss,
  )
