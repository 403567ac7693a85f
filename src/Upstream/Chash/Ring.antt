-- ===== src/Upstream/Chash/Ring.antt =====
-- selectNext of the continuum as the plain search along the ring.
use native.Mathlib.Nat.{mod-lt, mod-eq_of_lt}
use g_gateway.Base.{
  ℕ, zero, suc, ◌+◌, ◌%◌, ◌<◌, ◌≤◌, ◌≡◌, refl, sym, ◌∙◌, ap, subst, Bool, true, false, not, ◌⊎◌,
  inl, inr, List, [], ◌∷◌, arith, Bool-cases, length, get_or, set, All, ltb, leb, if◌then◌else◌,
}
use g_gateway.Upstream.Chash.{
  Continuum, start_of, search, replicate, scan_distinct, select_next, select_index,
}

-- The first selectable ordinal of a list.
abbrev pub first_hit : List ℕ → (ℕ → Bool) → ℕ × Bool
first_hit [] selectable = (0, false)
first_hit (o ∷ os) selectable = if selectable o then (o, true) else first_hit os selectable

-- The ordinals of `rounds` points in the order of the ring, from the point `offset` after the start.
abbrev pub ring : List ℕ → ℕ → ℕ → ℕ → ℕ → List ℕ
ring indexes points start offset zero = []
ring indexes points start offset (suc rounds) =
    get_or indexes ((start + offset) % points) 0 ∷ ring indexes points start (offset + 1) rounds

abbrev marks : List Bool → ℕ
marks [] = 0
marks (b ∷ bs) = (if b then 1 else 0) + marks bs

marks-le : (bs : List Bool) → marks bs ≤ length bs
marks-le [] = omega arith
marks-le (b ∷ bs) = ground (arith, marks-le bs)

marks-full :
    (bs : List Bool) → length bs ≤ marks bs → (i : ℕ) → i < length bs → get_or bs i false ≡ true
marks-full [] h i p = absurd (omega arith)
marks-full (true ∷ bs) h zero p = refl
marks-full (true ∷ bs) h (suc i) p = marks-full bs (omega arith) i (omega arith)
marks-full (false ∷ bs) h i p = absurd (omega (arith, marks-le bs))

marks-set :
    (bs : List Bool) (i : ℕ)
    → i < length bs
    → get_or bs i false ≡ false
    → marks (set bs i true) ≡ marks bs + 1
marks-set [] i p e = absurd (omega arith)
marks-set (b ∷ bs) zero p e = rw e (omega arith)
marks-set (b ∷ bs) (suc i) p e = omega (arith, marks-set bs i (omega arith) e)

length-set : (bs : List Bool) (i : ℕ) (b : Bool) → length (set bs i b) ≡ length bs
length-set [] i b = refl
length-set (x ∷ bs) zero b = refl
length-set (x ∷ bs) (suc i) b = ap suc (length-set bs i b)

get_or-set :
    (bs : List Bool) (i j : ℕ)
    → get_or (set bs i true) j false ≡ true
    → (j ≡ i) ⊎ (get_or bs j false ≡ true)
get_or-set [] i j e = inr e
get_or-set (x ∷ bs) zero zero e = inl refl
get_or-set (x ∷ bs) zero (suc j) e = inr e
get_or-set (x ∷ bs) (suc i) zero e = inr e
get_or-set (x ∷ bs) (suc i) (suc j) e = elim (get_or-set bs i j e) [
  | inl q ↦ inl (ap suc q)
  | inr q ↦ inr q
]

get_or-replicate : (n i : ℕ) → get_or (replicate n false) i false ≡ false
get_or-replicate zero i = refl
get_or-replicate (suc n) zero = refl
get_or-replicate (suc n) (suc i) = get_or-replicate n i

marks-replicate : (n : ℕ) → marks (replicate n false) ≡ 0
marks-replicate zero = refl
marks-replicate (suc n) = omega (arith, marks-replicate n)

length-replicate : (n : ℕ) → length (replicate n false) ≡ n
length-replicate zero = refl
length-replicate (suc n) = omega (arith, length-replicate n)

All-get_or : (n : ℕ) (xs : List ℕ) (i : ℕ) → All (λ x. x < n) xs → i < length xs → get_or xs i 0 < n
All-get_or n [] i h p = absurd (omega arith)
All-get_or n (x ∷ xs) zero h p = h.0
All-get_or n (x ∷ xs) (suc i) h p = All-get_or n xs i h.1 (omega arith)

-- A continuum of `count` endpoints: every point is of one of them.
pub record IsRing (c : Continuum) (count : ℕ) : Type 0 where
  pub points : 0 < length c.hashes
  pub same : length c.indexes ≡ length c.hashes
  pub bound : All (λ o. o < count) c.indexes

-- What the loop has seen: a mark for each endpoint that is not selectable.
record IsSeen (count : ℕ) (selectable : ℕ → Bool) (seen : List Bool) (distinct : ℕ) : Type 0 where
  size : length seen ≡ count
  counted : distinct ≡ marks seen
  missed : (o : ℕ) → get_or seen o false ≡ true → selectable o ≡ false

module _ (c : Continuum) (p : ℕ → Bool) (count start : ℕ) (h : IsRing c count) where
  ordinal-lt : (offset : ℕ) → get_or c.indexes ((start + offset) % length c.hashes) 0 < count
  ordinal-lt offset =
      All-get_or count c.indexes ((start + offset) % length c.hashes) h.bound
        (rw h.same (mod-lt (start + offset) h.points))

  -- Where no endpoint is selectable, the ring has no hit.
  first_hit_none :
      (offset rounds : ℕ)
      → ((o : ℕ) → o < count → p o ≡ false)
      → first_hit (ring c.indexes (length c.hashes) start offset rounds) p ≡ (0, false)
  first_hit_none offset zero q = refl
  first_hit_none offset (suc rounds) q =
      rw (q (get_or c.indexes ((start + offset) % length c.hashes) 0) (ordinal-lt offset))
        (first_hit_none (offset + 1) rounds q)

  IsSeen-set :
      (seen : List Bool) (distinct o : ℕ)
      → IsSeen count p seen distinct
      → o < count
      → get_or seen o false ≡ false
      → p o ≡ false
      → IsSeen count p (set seen o true) (distinct + 1)
  IsSeen-set seen distinct o s lt e q = record {
    size = length-set seen o true ∙ s.size;
    counted = omega (arith, s.counted, s.size, marks-set seen o (omega (arith, s.size)) e);
    missed = λ j t. elim (get_or-set seen o j t) [
      | inl same ↦ subst (λ x. p x ≡ false) (sym same) q
      | inr old ↦ s.missed j old
    ];
  }

  scan_distinct-first_hit :
      (rounds offset : ℕ) (seen : List Bool) (distinct : ℕ)
      → IsSeen count p seen distinct
      → scan_distinct c p count start offset seen distinct rounds
        ≡ first_hit (ring c.indexes (length c.hashes) start offset rounds) p
  unfolding scan_distinct
  scan_distinct-first_hit zero offset seen distinct s = refl
  scan_distinct-first_hit (suc rounds) offset seen distinct s =
      let o = get_or c.indexes ((start + offset) % length c.hashes) 0 in
      let lt : o < count = ordinal-lt offset in
      elim (Bool-cases (not (ltb distinct count))) [
        | inl full ↦
            rw (full, scan_distinct)
              (sym (
                first_hit_none offset (suc rounds) (λ j q. s.missed j (
                  marks-full seen (ground (arith, full, s.size, s.counted)) j
                    (omega (arith, s.size))))))
        | inr more ↦ elim (Bool-cases (get_or seen o false)) [
          | inl old ↦
              rw (more, old, s.missed o old, scan_distinct)
                (ground (arith, scan_distinct-first_hit rounds (offset + 1) seen distinct s))
          | inr new ↦
              let inside : leb (length seen) o ≡ false = ground (arith, lt, s.size) in
              elim (Bool-cases (p o)) [
                | inl hit ↦ rw (more, new, inside, hit, scan_distinct) refl
                | inr miss ↦
                    rw (more, new, inside, miss, scan_distinct)
                      (scan_distinct-first_hit rounds (offset + 1) (set seen o true) (distinct + 1)
                        (IsSeen-set seen distinct o s lt new miss))
              ]
        ]
      ]

search-le : (hashes : List ℕ) (sum : ℕ) → search hashes sum ≤ length hashes
search-le [] sum = omega arith
search-le (x ∷ xs) sum = ground (arith, search-le xs sum)

start_of-lt : (hashes : List ℕ) (sum : ℕ) → 0 < length hashes → start_of hashes sum < length hashes
unfolding start_of
start_of-lt hashes sum h = ground (arith, search-le hashes sum)

-- The order in which a key tries the points: from its own place, once round the ring.
abbrev pub points_from : Continuum → ℕ → List ℕ
points_from c sum = ring c.indexes (length c.hashes) (start_of c.hashes sum) 0 (length c.hashes)

module _ (c : Continuum) (sum count : ℕ) (p : ℕ → Bool) (h : IsRing c count) where
  abbrev first : ℕ
  first = get_or c.indexes (start_of c.hashes sum) 0

  first-lt : first < count
  first-lt =
      All-get_or count c.indexes (start_of c.hashes sum) h.bound
        (rw h.same (start_of-lt c.hashes sum h.points))

  IsSeen-first : p first ≡ false → IsSeen count p (set (replicate count false) first true) 1
  IsSeen-first miss =
      let seen =
        IsSeen-set c p count 0 h (replicate count false) 0 first
          (record {
            size = length-replicate count;
            counted = sym (marks-replicate count);
            missed = λ o e. absurd (clash (get_or-replicate count o) e);
          })
          first-lt (get_or-replicate count first) miss in
      seen
    where
      clash : {b : Bool} → b ≡ false → b ≡ true → ⊥
      clash u v = cc

start-mod : (points n : ℕ) → n < points → (n + 0) % points ≡ n
start-mod points n h = ap (λ t. t % points) (omega arith) ∙ mod-eq_of_lt h

select_next_of :
    (hash : ℕ) (hashes indexes : List ℕ) (direct sum count : ℕ) (p : ℕ → Bool)
    → let c : Continuum = record { hashes = hash ∷ hashes; indexes = indexes; direct = direct } in
      IsRing c count → select_next c sum count p ≡ first_hit (points_from c sum) p
unfolding select_next
select_next_of hash hashes indexes direct sum count p h =
    let c : Continuum = record { hashes = hash ∷ hashes; indexes = indexes; direct = direct } in
    let start = start_of (hash ∷ hashes) sum in
    rw (start-mod (suc (length hashes)) start (start_of-lt (hash ∷ hashes) sum h.points))
      (elim (Bool-cases (p (get_or indexes start 0))) [
        | inl hit ↦ rw hit refl
        | inr miss ↦ rw miss (
            ap
              (λ n.
                scan_distinct c p count start 1
                  (set (replicate count false) (get_or indexes start 0) true) 1 n)
              (omega arith)
            ∙ scan_distinct-first_hit c p count start h (length hashes) 1 _ 1
                (IsSeen-first c sum count p h miss))
      ])

-- Where every point of a continuum is of one of its endpoints, selectNext chooses what a plain search
-- chooses that tries the points in the order of the ring, without marks and without an early end; and
-- where everything is selectable, this is the choice of selectIndex.
pub select_next-first_hit :
    (c : Continuum) (sum count : ℕ) (p : ℕ → Bool)
    → IsRing c count
    → (select_next c sum count p ≡ first_hit (points_from c sum) p)
      × (select_next c sum count (λ _. true) ≡ (select_index c sum, true))
unfolding select_next select_index
select_next-first_hit c sum count p h = by_hashes c.hashes c.indexes c.direct h
  where
    by_hashes :
        (hashes indexes : List ℕ) (direct : ℕ)
        → let d : Continuum = record { hashes = hashes; indexes = indexes; direct = direct } in
          IsRing d count
          → (select_next d sum count p ≡ first_hit (points_from d sum) p)
            × (select_next d sum count (λ _. true) ≡ (select_index d sum, true))
    by_hashes [] indexes direct r = absurd (omega (arith, r.points))
    by_hashes (x ∷ xs) indexes direct r = (select_next_of x xs indexes direct sum count p r, refl)
