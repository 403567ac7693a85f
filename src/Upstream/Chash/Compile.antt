-- ===== src/Upstream/Chash/Compile.antt =====
-- The ordinals of a compiled continuum are in range.
use g_gateway.Base.{
  ℕ, zero, suc, ◌+◌, ◌%◌, ◌<◌, ◌≤◌, ◌≡◌, refl, sym, ◌∙◌, ap, subst, Bool, true, false, List, [],
  ◌∷◌, ◌++◌, map, arith, Bytes, Bool-cases, inl, inr, length, All, ltb, if◌then◌else◌, ◌==◌,
  u32_mod, ◌*◌,
}
use g_gateway.Base.Order.{All-sort_by}
use g_gateway.Upstream.Weights.{
  WeightedEndpoint, Slot, active_slots, normalize, divisor_from, sum_from,
}
use g_gateway.Upstream.Weights.Terms.{indexes, indexes-normalize, indexes-assign_capped}
use g_gateway.Upstream.Chash.{
  Continuum, ContinuumPoint, Compiled, ok, err, too_many_active, points_of, all_points,
  assign_points, sort_continuum_points, point_before, compile_active, compile_continuum,
  continuum_points_per_weight, max_continuum_points,
}

pub record IsContinuum (c : Continuum) (count : ℕ) : Type 0 where
  pub same : length c.indexes ≡ length c.hashes
  pub bound : All (λ o. o < count) c.indexes
  pub direct : c.direct < count

module _ (n : ℕ) where
  abbrev Inside : List Slot → Type 0
  Inside ss = All (λ i. i < n) (indexes ss)

  Inside-active_slots :
      (index : ℕ) (es : List WeightedEndpoint)
      → index + length es ≤ n
      → Inside (active_slots index es)
  unfolding active_slots
  Inside-active_slots index [] h = tt
  Inside-active_slots index (e ∷ es) h = elim (Bool-cases (e.weight == 0)) [
    | inl z ↦ rw (z, active_slots) (Inside-active_slots (index + 1) es (omega arith))
    | inr z ↦ rw (z, active_slots) (omega arith, Inside-active_slots (index + 1) es (omega arith))
  ]

  indexes-scaled :
      (ss : List Slot)
      → indexes (
          map
            (λ (s : Slot). record s { assigned = s.weight * continuum_points_per_weight % u32_mod })
            ss)
        ≡ indexes ss
  indexes-scaled [] = refl
  indexes-scaled (s ∷ ss) = ap (λ is. s.index ∷ is) (indexes-scaled ss)

  Inside-assign_points :
      (first : Slot) (rest : List Slot) → Inside (first ∷ rest) → Inside (assign_points first rest)
  unfolding assign_points
  Inside-assign_points first rest h =
      let d = divisor_from first.weight rest in
      let active = normalize d (first ∷ rest) in
      let same = indexes-normalize d (first ∷ rest) in
      subst (All (λ i. i < n))
        (sym (
          either _ _ _ (indexes (first ∷ rest)) (indexes-scaled active ∙ same)
            (indexes-assign_capped (sum_from 0 active) max_continuum_points active ∙ same)))
        h
    where
      either :
          (b : Bool) (xs ys : List Slot) (is : List ℕ)
          → indexes xs ≡ is
          → indexes ys ≡ is
          → indexes (if b then xs else ys) ≡ is
      either true xs ys is p q = p
      either false xs ys is p q = q

  abbrev Points : List ContinuumPoint → Type 0
  Points ps = All (λ (p : ContinuumPoint). p.endpoint_index < n) ps

  All-append : (ps qs : List ContinuumPoint) → Points ps → Points qs → Points (ps ++ qs)
  All-append [] qs h k = k
  All-append (p ∷ ps) qs h k = (h.0, All-append ps qs h.1 k)

  Points-bound :
      (ps : List ContinuumPoint)
      → Points ps
      → All (λ o. o < n) (map (λ (p : ContinuumPoint). p.endpoint_index) ps)
  Points-bound [] h = tt
  Points-bound (p ∷ ps) h = (h.0, Points-bound ps h.1)

  same_length :
      (ps : List ContinuumPoint)
      → length (map (λ (p : ContinuumPoint). p.endpoint_index) ps)
        ≡ length (map (λ (p : ContinuumPoint). p.hash) ps)
  same_length [] = refl
  same_length (p ∷ ps) = ap suc (same_length ps)

module _ (xxhash : Bytes → ℕ) (n : ℕ) where
  Points-points_of :
      (s : Slot) (virtual rounds : ℕ) → s.index < n → Points n (points_of xxhash s virtual rounds)
  unfolding points_of
  Points-points_of s virtual zero h = tt
  Points-points_of s virtual (suc rounds) h = (h, Points-points_of s (virtual + 1) rounds h)

  Points-all_points : (ss : List Slot) → Inside n ss → Points n (all_points xxhash ss)
  unfolding all_points
  Points-all_points [] h = tt
  Points-all_points (s ∷ ss) h =
      All-append n (points_of xxhash s 0 s.assigned) (all_points xxhash ss)
        (Points-points_of s 0 s.assigned h.0) (Points-all_points ss h.1)

  -- An error, or a continuum of the endpoints.
  abbrev pub Ranged : Compiled → Type 0
  Ranged (ok c) = IsContinuum c n
  Ranged (err e) = Unit

  compile_active-Ranged : (ss : List Slot) → 0 < n → Inside n ss → Ranged (compile_active xxhash ss)
  unfolding compile_active sort_continuum_points
  compile_active-Ranged [] k h = tt
  compile_active-Ranged (first ∷ []) k h = record { same = refl; bound = tt; direct = h.0 }
  compile_active-Ranged (first ∷ second ∷ rest) k h =
      either (ltb max_continuum_points (length (first ∷ second ∷ rest)))
        (record { same = same_length n points; bound = Points-bound n points inside; direct = k })
    where
      points : List ContinuumPoint
      points = sort_continuum_points (all_points xxhash (assign_points first (second ∷ rest)))

      inside : Points n points
      inside =
          All-sort_by point_before (λ (p : ContinuumPoint). p.endpoint_index < n)
            (all_points xxhash (assign_points first (second ∷ rest)))
            (Points-all_points (assign_points first (second ∷ rest))
              (Inside-assign_points n first (second ∷ rest) h))

      either :
          (b : Bool)
          → IsContinuum
              (record {
                hashes = map (λ (p : ContinuumPoint). p.hash) points;
                indexes = map (λ (p : ContinuumPoint). p.endpoint_index) points;
                direct = 0;
              })
              n
          → Ranged (
              if b
              then err too_many_active
              else ok (record {
                hashes = map (λ (p : ContinuumPoint). p.hash) points;
                indexes = map (λ (p : ContinuumPoint). p.endpoint_index) points;
                direct = 0;
              }))
      either true v = tt
      either false v = v

-- For a list of endpoints that is not empty, a compiled continuum is of its endpoints.
pub compile_continuum-Ranged :
    (xxhash : Bytes → ℕ) (endpoints : List WeightedEndpoint)
    → 0 < length endpoints
    → Ranged xxhash (length endpoints) (compile_continuum xxhash endpoints)
unfolding compile_continuum
compile_continuum-Ranged xxhash es h =
    compile_active-Ranged xxhash (length es) (active_slots 0 es) h
      (Inside-active_slots (length es) 0 es (omega arith))
