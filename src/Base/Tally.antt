-- ===== src/Base/Tally.antt =====
-- Sums over the elements of a list, where one of them changes.
use Prim.Native.Nat.{ℕ, zero, suc, ◌+◌, ◌≤◌, ◌<◌}
use mathlib.Core.Path.{◌≡◌, refl, ap, subst}
use mathlib.Core.Option.{some}
use mathlib.Core.List.{List, [], ◌∷◌, ◌++◌}
use mathlib.Core.Logic.{◌⊎◌, ◌≢◌, inl, inr}
use native.Mathlib.Omega.{arith}
use g_gateway.Base.Tests.{some-injective}
use g_gateway.Base.Lists.{get_elem?, set, length, All}

module _ {A : Type 0} where
  abbrev pub total : (A → ℕ) → List A → ℕ
  total g [] = 0
  total g (x ∷ xs) = g x + total g xs

  pub total-set :
      (g : A → ℕ) (xs : List A) (i : ℕ) (x y : A)
      → get_elem? xs i ≡ some x
      → total g (set xs i y) + g x ≡ total g xs + g y
  total-set g [] i x y e = cc
  total-set g (z ∷ xs) zero x y e = omega (arith, ap g (some-injective z x e))
  total-set g (z ∷ xs) (suc i) x y e = omega (arith, total-set g xs i x y e)

  pub total-append : (g : A → ℕ) (xs ys : List A) → total g (xs ++ ys) ≡ total g xs + total g ys
  total-append g [] ys = omega arith
  total-append g (x ∷ xs) ys = omega (arith, total-append g xs ys)

  pub total-get :
      (g : A → ℕ) (xs : List A) (i : ℕ) (x : A) → get_elem? xs i ≡ some x → g x ≤ total g xs
  total-get g [] i x e = absurd cc
  total-get g (z ∷ xs) zero x e = omega (arith, ap g (some-injective z x e))
  total-get g (z ∷ xs) (suc i) x e = omega (arith, total-get g xs i x e)

  pub All-set : (P : A → Type 0) (xs : List A) (i : ℕ) (y : A) → All P xs → P y → All P (set xs i y)
  All-set P [] i y h p = tt
  All-set P (x ∷ xs) zero y h p = (p, h.1)
  All-set P (x ∷ xs) (suc i) y h p = (h.0, All-set P xs i y h.1 p)

  pub All-get :
      (P : A → Type 0) (xs : List A) (i : ℕ) (x : A) → All P xs → get_elem? xs i ≡ some x → P x
  All-get P [] i x h e = absurd cc
  All-get P (z ∷ xs) zero x h e = subst P (some-injective z x e) h.0
  All-get P (z ∷ xs) (suc i) x h e = All-get P xs i x h.1 e

  pub All-snoc : (P : A → Type 0) (xs : List A) (y : A) → All P xs → P y → All P (xs ++ y ∷ [])
  All-snoc P [] y h p = (p, tt)
  All-snoc P (x ∷ xs) y h p = (h.0, All-snoc P xs y h.1 p)

  -- What stands in a list with a changed element, or a new last one.
  pub get_elem?-set :
      (xs : List A) (i j : ℕ) (x y : A)
      → get_elem? (set xs i y) j ≡ some x
      → ((j ≡ i) × (y ≡ x)) ⊎ ((j ≢ i) × (get_elem? xs j ≡ some x))
  get_elem?-set [] i j x y e = absurd cc
  get_elem?-set (z ∷ xs) zero zero x y e = inl (refl, some-injective y x e)
  get_elem?-set (z ∷ xs) zero (suc j) x y e = inr (λ p. omega (arith, p), e)
  get_elem?-set (z ∷ xs) (suc i) zero x y e = inr (λ p. omega (arith, p), e)
  get_elem?-set (z ∷ xs) (suc i) (suc j) x y e = elim (get_elem?-set xs i j x y e) [
    | inl (p, q) ↦ inl (ap suc p, q)
    | inr (p, h) ↦ inr (λ q. p (omega (arith, q)), h)
  ]

  pub get_elem?-append :
      (xs : List A) (j : ℕ) (x y : A)
      → get_elem? (xs ++ y ∷ []) j ≡ some x
      → ((j ≡ length xs) × (y ≡ x)) ⊎ (get_elem? xs j ≡ some x)
  get_elem?-append [] zero x y e = inl (refl, some-injective y x e)
  get_elem?-append [] (suc j) x y e = absurd cc
  get_elem?-append (z ∷ xs) zero x y e = inr e
  get_elem?-append (z ∷ xs) (suc j) x y e = elim (get_elem?-append xs j x y e) [
    | inl (p, q) ↦ inl (omega (arith, p), q)
    | inr h ↦ inr h
  ]

  -- An element stands within the length.
  pub get_elem?-length : (xs : List A) (i : ℕ) (x : A) → get_elem? xs i ≡ some x → i < length xs
  get_elem?-length [] i x e = absurd cc
  get_elem?-length (y ∷ xs) zero x e = omega arith
  get_elem?-length (y ∷ xs) (suc i) x e = omega (arith, get_elem?-length xs i x e)
