-- ===== src/Upstream/Chash/Choice.antt =====
-- What selectNext of the continuum chooses from.
use native.Mathlib.Nat.{mod-lt}
use g_gateway.Base.{
  ℕ, zero, suc, ◌+◌, ◌%◌, ◌<◌, ◌≤◌, ◌≡◌, refl, sym, ◌∙◌, ap, subst, Bool, true, false, inl, inr,
  List, [], ◌∷◌, arith, length, get_or, All, In, All-of-In, if◌then◌else◌,
}
use native.Mathlib.Decide.{dec_le}
use g_gateway.Upstream.Wrr.Selection.{Chosen, In-get_or, position, residue}
use g_gateway.Upstream.Chash.{Continuum, start_of, select_next}
use g_gateway.Upstream.Chash.Compile.{IsContinuum}
use g_gateway.Upstream.Chash.Ring.{first_hit, ring, points_from, IsRing, select_next-first_hit}

first_hit-Chosen : (os : List ℕ) (p : ℕ → Bool) → Chosen os p (first_hit os p)
first_hit-Chosen [] p = inr (refl, tt)
first_hit-Chosen (o ∷ os) p = either (p o) refl (first_hit-Chosen os p)
  where
    either :
        (b : Bool)
        → p o ≡ b
        → Chosen os p (first_hit os p)
        → Chosen (o ∷ os) p (if b then (o, true) else first_hit os p)
    either true e c = inl (refl, inl refl, e)
    either false e (inl (f, m, t)) = inl (f, inr m, t)
    either false e (inr (f, a)) = inr (f, (e, a))

-- The ring is made of the indexes, and no index is missing from a full turn.
In-ring :
    (xs : List ℕ) (points start offset rounds o : ℕ)
    → 0 < points
    → length xs ≡ points
    → In o (ring xs points start offset rounds)
    → In o xs
In-ring xs points start offset zero o h n m = elim m [ ]
In-ring xs points start offset (suc rounds) o h n (inl e) =
    subst (λ x. In x xs) (sym e)
      (In-get_or xs ((start + offset) % points) (rw n (mod-lt (start + offset) h)))
In-ring xs points start offset (suc rounds) o h n (inr m) =
    In-ring xs points start (offset + 1) rounds o h n m

ring-In :
    (xs : List ℕ) (points start offset rounds k : ℕ)
    → offset ≤ k
    → k < offset + rounds
    → In (get_or xs ((start + k) % points) 0) (ring xs points start offset rounds)
ring-In xs points start offset zero k a b = absurd (omega arith)
ring-In xs points start offset (suc rounds) k a b = elim (dec_le k offset) [
  | yes le ↦ inl (ap (λ t. get_or xs ((start + t) % points) 0) (omega arith))
  | no gt ↦ inr (ring-In xs points start (offset + 1) rounds k (omega arith) (omega arith))
]

ring-covers :
    (xs : List ℕ) (points start o : ℕ)
    → length xs ≡ points
    → In o xs
    → In o (ring xs points start 0 points)
ring-covers xs points start o n m =
    let (i, lt, at) = position o xs m in
    let (k, below, same) = residue points start i (omega (arith, n)) in
    subst (λ x. In x (ring xs points start 0 points)) (ap (λ t. get_or xs t 0) same ∙ at)
      (ring-In xs points start 0 points k (omega arith) (omega arith))

pub In-All : (P : ℕ → Type 0) (xs : List ℕ) (o : ℕ) → All P xs → In o xs → P o
In-All P (x ∷ xs) o a (inl e) = subst P (sym e) a.0
In-All P (x ∷ xs) o a (inr m) = In-All P xs o a.1 m
In-All P [] o a m = elim m [ ]

-- What selectNext of a ring chooses is an endpoint of the ring that is selectable, and it reports none
-- exactly where no endpoint of the ring is.
pub select_next-Chosen :
    (c : Continuum) (sum count : ℕ) (p : ℕ → Bool)
    → IsRing c count
    → Chosen c.indexes p (select_next c sum count p)
select_next-Chosen c sum count p h =
    subst (Chosen c.indexes p) (sym (select_next-first_hit c sum count p h).0)
      (elim (first_hit-Chosen (points_from c sum) p) [
        | inl (e, m, t) ↦ inl (e, In-ring c.indexes n start 0 n _ h.points h.same m, t)
        | inr (e, a) ↦ inr (
          e,
          All-of-In (λ o. p o ≡ false) c.indexes
              (λ o m.
                In-All (λ o. p o ≡ false) (points_from c sum) o a
                  (ring-covers c.indexes n start o h.same m)),
        )
      ])
  where
    n : ℕ
    n = length c.hashes

    start : ℕ
    start = start_of c.hashes sum

-- The ordinals that a continuum chooses from: its direct choice where it has no points.
abbrev pub options_of : List ℕ → Continuum → List ℕ
options_of [] c = c.direct ∷ []
options_of (x ∷ xs) c = c.indexes

pub select_next-options :
    (c : Continuum) (sum count : ℕ) (p : ℕ → Bool)
    → IsContinuum c count
    → Chosen (options_of c.hashes c) p (select_next c sum count p)
unfolding select_next
select_next-options c sum count p h = by_hashes c.hashes c.indexes c.direct h
  where
    direct : (o : ℕ) (b : Bool) → p o ≡ b → Chosen (o ∷ []) p (o, b)
    direct o true e = inl (refl, inl refl, e)
    direct o false e = inr (refl, (e, tt))

    by_hashes :
        (hashes indexes : List ℕ) (o : ℕ)
        → let d : Continuum = record { hashes = hashes; indexes = indexes; direct = o } in
          IsContinuum d count → Chosen (options_of hashes d) p (select_next d sum count p)
    by_hashes [] indexes o v = direct o (p o) refl
    by_hashes (x ∷ xs) indexes o v =
        select_next-Chosen (record { hashes = x ∷ xs; indexes = indexes; direct = o }) sum count p
          (record { points = omega arith; same = v.same; bound = v.bound })
