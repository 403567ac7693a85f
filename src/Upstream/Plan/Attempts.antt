-- ===== src/Upstream/Plan/Attempts.antt =====
-- The attempt set as a set of at most five ordinals.
use g_gateway.Base.{
  ℕ, ◌≤◌, ◌≡◌, refl, ◌⊎◌, inl, inr, Bool, true, false, ◌||◌, Option, some, List, [], ◌∷◌, ◌++◌,
  arith, length, length-append, contains, Bool-cases, leb, ◌==◌,
}
use g_gateway.Upstream.Plan.{AttemptSet, attempt_capacity, contains_attempt, add_attempt}

abbrev pub NoDuplicates : List ℕ → Type 0
NoDuplicates [] = Unit
NoDuplicates (x ∷ xs) = (contains xs x ≡ false) × NoDuplicates xs

pub record IsValid (a : AttemptSet) : Type 0 where
  pub bound : length a.ordinals ≤ attempt_capacity
  pub distinct : NoDuplicates a.ordinals

contains-append : (xs : List ℕ) (o x : ℕ) → contains (xs ++ o ∷ []) x ≡ (contains xs x || o == x)
contains-append [] o x = ground arith
contains-append (y ∷ xs) o x = ground (arith, contains-append xs o x)

NoDuplicates-append :
    (xs : List ℕ) (o : ℕ) → NoDuplicates xs → contains xs o ≡ false → NoDuplicates (xs ++ o ∷ [])
NoDuplicates-append [] o d h = (refl, tt)
NoDuplicates-append (x ∷ xs) o d h =
    (ground (arith, contains-append xs o x), NoDuplicates-append xs o d.1 (ground arith))

-- What Add returns: the set unchanged where it holds the ordinal or is full, and otherwise a valid set
-- whose elements are those of the old one and the ordinal.
abbrev pub Added : AttemptSet → ℕ → Option AttemptSet × Bool → Type 0
Added a ordinal result =
    ((result ≡ (some a, false))
      × ((contains_attempt (some a) ordinal ≡ true) ⊎ (length a.ordinals ≡ attempt_capacity)))
    ⊎ ((b : AttemptSet) × (result ≡ (some b, true))
        × (contains_attempt (some a) ordinal ≡ false)
        × IsValid b
        × ((x : ℕ) → contains_attempt (some b) x ≡ (contains_attempt (some a) x || ordinal == x)))

-- Add of a set without duplicates and with at most five ordinals leaves it alone, and returns false,
-- only where it holds the ordinal or five others; otherwise the set gains the ordinal, keeps all it
-- held, and is still without duplicates and of at most five.
pub add_attempt-Added :
    (a : AttemptSet) (ordinal : ℕ) → IsValid a → Added a ordinal (add_attempt (some a) ordinal)
unfolding add_attempt contains_attempt
add_attempt-Added a ordinal v = elim (Bool-cases (contains a.ordinals ordinal)) [
  | inl e ↦ inl (rw e refl, inl e)
  | inr e ↦ elim (Bool-cases (leb attempt_capacity (length a.ordinals))) [
    | inl f ↦ inl (rw (e, f) refl, inr (ground (arith, v.bound)))
    | inr f ↦ inr (
      record { ordinals = a.ordinals ++ ordinal ∷ [] },
      rw (e, f) refl,
      e,
      record {
        bound = ground (arith, length-append a.ordinals (ordinal ∷ []));
        distinct = NoDuplicates-append a.ordinals ordinal v.distinct e;
      },
      λ x. contains-append a.ordinals ordinal x,
    )
  ]
]
