-- ===== src/Runtime/Publication.antt =====
-- A plan set that is retired: no other plan set changes, and the invariant of the owners is kept.
use g_gateway.Base.{
  ◌-◌, ◌++◌, ◌==◌, Bool-cases, ℕ, zero, suc, ◌≡◌, ◌≢◌, refl, sym, ap, subst, ◌∙◌, Option, none,
  some, List, [], ◌∷◌, get_elem?, set, Option-cases, inl, inr, some-injective,
}
use g_gateway.Upstream.Ownership.{
  PlanSet, Phase, active, marked, registered, dropped, register_retired, release_set,
}
use g_gateway.Upstream.Ownership.Machine.{World, mark_set, register_set, drop_set, with_elem}
use g_gateway.Upstream.Ownership.Invariant.{
  IsOwned, Keeps, Keeps-with_elem, Keeps-mark_set, Keeps-register_set, Keeps-drop_set,
}
use g_gateway.Runtime.{bind_world, retire}

get_elem?_other :
    {A : Type 0} (xs : List A) (i j : ℕ) (y : A) → j ≢ i → get_elem? (set xs i y) j ≡ get_elem? xs j
get_elem?_other [] i j y n = refl
get_elem?_other (x ∷ xs) zero zero y n = absurd (n refl)
get_elem?_other (x ∷ xs) zero (suc j) y n = refl
get_elem?_other (x ∷ xs) (suc i) zero y n = refl
get_elem?_other (x ∷ xs) (suc i) (suc j) y n = get_elem?_other xs i j y (λ e. n (ap suc e))

-- The other plan sets of two worlds.
abbrev pub SameOthers : ℕ → World → Option World → Type 0
SameOthers i w none = Unit
SameOthers i w (some w') = (j : ℕ) → j ≢ i → get_elem? w'.sets j ≡ get_elem? w.sets j

module _ (w : World) (i : ℕ) (s : PlanSet) where
  mark_set-SameOthers : SameOthers i w (mark_set w i s)
  unfolding mark_set
  mark_set-SameOthers = by_phase s.phase refl
    where
      by_phase : (p : Phase) → s.phase ≡ p → SameOthers i w (mark_set w i s)
      by_phase active p = rw (p, mark_set) (λ j n. get_elem?_other w.sets i j _ n)
      by_phase marked p = rw (p, mark_set) (λ j n. refl)
      by_phase registered p = rw (p, mark_set) (λ j n. refl)
      by_phase dropped p = rw (p, mark_set) (λ j n. refl)

  register_set-SameOthers : SameOthers i w (register_set w i s)
  unfolding register_set
  register_set-SameOthers = by_phase s.phase refl
    where
      by_phase : (p : Phase) → s.phase ≡ p → SameOthers i w (register_set w i s)
      by_phase active p = rw (p, register_set) (λ j n. refl)
      by_phase marked p = elim (Option-cases (register_retired w.registry i)) [
        | inl e ↦ rw (p, e, register_set) tt
        | inr (r, e) ↦ rw (p, e, register_set) (λ j n. get_elem?_other w.sets i j _ n)
      ]
      by_phase registered p = rw (p, register_set) (λ j n. refl)
      by_phase dropped p = rw (p, register_set) (λ j n. refl)

  drop_set-SameOthers : SameOthers i w (drop_set w i s)
  unfolding drop_set
  drop_set-SameOthers = by_phase s.phase refl
    where
      by_phase : (p : Phase) → s.phase ≡ p → SameOthers i w (drop_set w i s)
      by_phase active p = rw (p, drop_set) (λ j n. refl)
      by_phase marked p = rw (p, drop_set) (λ j n. refl)
      by_phase registered p = elim (Option-cases (release_set s)) [
        | inl e ↦ rw (p, e, drop_set) tt
        | inr (s', e) ↦ rw (p, e, drop_set) (λ j n. get_elem?_other w.sets i j _ n)
      ]
      by_phase dropped p = rw (p, drop_set) (λ j n. refl)

SameOthers-with_elem :
    (w : World) (f : World → ℕ → PlanSet → Option World) (i : ℕ)
    → ((s : PlanSet) → SameOthers i w (f w i s))
    → SameOthers i w (with_elem w f w.sets i)
SameOthers-with_elem w f i k = elim (Option-cases (get_elem? w.sets i)) [
  | inl e ↦ rw (e, with_elem) (λ j n. refl)
  | inr (s, e) ↦ rw (e, with_elem) (k s)
]

-- One action of a retirement.
record Moved (w : World) (i : ℕ) (o : Option World) : Type 0 where
  world : World
  result : o ≡ some world
  owned : IsOwned world
  others : (j : ℕ) → j ≢ i → get_elem? world.sets j ≡ get_elem? w.sets j

moved : (w : World) (i : ℕ) (o : Option World) → Keeps o → SameOthers i w o → Moved w i o
moved w i none k s = absurd (clash k.1)
  where
    clash : none ≡ some k.0 → ⊥
    clash e = absurd cc
moved w i (some w') k s = record {
  world = w';
  result = refl;
  owned = subst IsOwned (sym (some-injective w' k.0 k.1)) k.2;
  others = s;
}

-- A retirement does not panic, keeps the invariant, and leaves the other plan sets as they are.
pub retire-Moved :
    (w : World) (i : ℕ)
    → IsOwned w
    → (w' : World) × (retire w i ≡ some w')
      × IsOwned w'
      × ((j : ℕ) → j ≢ i → get_elem? w'.sets j ≡ get_elem? w.sets j)
unfolding retire
retire-Moved w i v =
    let a =
      moved w i (with_elem w mark_set w.sets i)
        (Keeps-with_elem w mark_set w.sets i v (λ s e. Keeps-mark_set w i s v e))
        (SameOthers-with_elem w mark_set i (mark_set-SameOthers w i)) in
    let w1 = a.world in
    let b =
      moved w1 i (with_elem w1 register_set w1.sets i)
        (Keeps-with_elem w1 register_set w1.sets i a.owned
          (λ s e. Keeps-register_set w1 i s a.owned e))
        (SameOthers-with_elem w1 register_set i (register_set-SameOthers w1 i)) in
    let w2 = b.world in
    let c =
      moved w2 i (with_elem w2 drop_set w2.sets i)
        (Keeps-with_elem w2 drop_set w2.sets i b.owned (λ s e. Keeps-drop_set w2 i s b.owned e))
        (SameOthers-with_elem w2 drop_set i (drop_set-SameOthers w2 i)) in
    (
      c.world,
      joined w w1 w2 c.world i a.result b.result c.result,
      c.owned,
      λ j n. c.others j n ∙ b.others j n ∙ a.others j n,
    )
  where
    joined :
        (w w1 w2 w3 : World) (i : ℕ)
        → with_elem w mark_set w.sets i ≡ some w1
        → with_elem w1 register_set w1.sets i ≡ some w2
        → with_elem w2 drop_set w2.sets i ≡ some w3
        → bind_world (with_elem w mark_set w.sets i) (λ x.
          bind_world (with_elem x register_set x.sets i) (λ y. with_elem y drop_set y.sets i))
          ≡ some w3
    joined w w1 w2 w3 i p q r = rw (p, q, bind_world) r

pub get_elem?-set_same :
    {A : Type 0} (xs : List A) (i : ℕ) (x y : A)
    → get_elem? xs i ≡ some x
    → get_elem? (set xs i y) i ≡ some y
get_elem?-set_same [] i x y e = cc
get_elem?-set_same (z ∷ xs) zero x y e = refl
get_elem?-set_same (z ∷ xs) (suc i) x y e = get_elem?-set_same xs i x y e

-- An active set that is retired: it is dropped, has one reference less, and stands in the registry's list.
abbrev pub IsRetired : World → ℕ → PlanSet → World → Type 0
IsRetired w i s w' =
    (get_elem? w'.sets i ≡ some (record s { phase = dropped; refs = s.refs - 1 }))
    × (w'.registry.retired ≡ w.registry.retired ++ i ∷ [])

Retires : World → ℕ → PlanSet → Option World → Type 0
Retires w i s none = Unit
Retires w i s (some w') = IsRetired w i s w'

module _ (w : World) (i : ℕ) (s : PlanSet) where
  dropping :
      (w2 : World)
      → get_elem? w2.sets i ≡ some (record s { phase = registered })
      → w2.registry.retired ≡ w.registry.retired ++ i ∷ []
      → Retires w i s (with_elem w2 drop_set w2.sets i)
  unfolding Retires drop_set release_set
  dropping w2 e r = elim (Bool-cases (s.refs == 0)) [
    | inl z ↦ rw (e, z, with_elem, drop_set) tt
    | inr z ↦ rw (e, z, with_elem, drop_set) (get_elem?-set_same w2.sets i _ _ e, r)
  ]

  registering :
      (w1 : World)
      → get_elem? w1.sets i ≡ some (record s { phase = marked })
      → w1.registry ≡ w.registry
      → Retires w i s
          (bind_world (with_elem w1 register_set w1.sets i) (λ w2. with_elem w2 drop_set w2.sets i))
  unfolding Retires register_set register_retired
  registering w1 e r = elim (Bool-cases (w1.registry.active_plan_sets == 0)) [
    | inl z ↦ rw (e, z, with_elem, register_set) tt
    | inr z ↦
        rw (e, z, with_elem, register_set)
          (dropping _ (get_elem?-set_same w1.sets i _ _ e) (ap (λ x. x.retired ++ i ∷ []) r))
  ]

  retire-Retires :
      get_elem? w.sets i ≡ some (record s { phase = active }) → Retires w i s (retire w i)
  unfolding retire mark_set
  retire-Retires e = rw (e, with_elem) (registering _ (get_elem?-set_same w.sets i _ _ e) refl)

pub retire-IsRetired :
    (w w' : World) (i : ℕ) (s : PlanSet)
    → get_elem? w.sets i ≡ some s
    → s.phase ≡ active
    → retire w i ≡ some w'
    → IsRetired w i s w'
unfolding Retires
retire-IsRetired w w' i s e a h =
    subst (Retires w i s) h (retire-Retires w i s (e ∙ ap (λ x. some (record s { phase = x })) a))
