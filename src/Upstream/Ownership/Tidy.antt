-- ===== src/Upstream/Ownership/Tidy.antt =====
-- No plan set is lost: a done candidate and a finalised set own nothing, and a set that was registered
-- waits in the list of retired sets until it is finalised. Every action keeps this.
use g_gateway.Base.{
  ℕ, ◌≡◌, refl, sym, ap, subst, ◌∙◌, ◌⊎◌, inl, inr, true, false, Option, none, some, List, [], ◌∷◌,
  ◌++◌, get_elem?, set, In, ◌==◌, Bool-cases, Option-cases, In-append_left, All,
}
use g_gateway.Base.Tally.{get_elem?-set, get_elem?-length}
use g_gateway.Upstream.Registry.{no_refs, Registry}
use g_gateway.Upstream.Ownership.{
  Candidate, PlanSet, Phase, active, marked, registered, dropped, try_acquire, release_set,
  register_retired,
}
use g_gateway.Upstream.Ownership.Machine.{
  World, enter_set, leave_set, mark_set, register_set, drop_set, with_elem,
}
use g_gateway.Upstream.Ownership.Invariant.{opens}
use g_gateway.Upstream.Ownership.Waiting.{IsWaiting, IsWaiting-set, IsWaiting-register}

abbrev pub IsSpent : Candidate → Type 0
IsSpent c = c.done ≡ true → c.owned ≡ no_refs

pub record AreTidy (r : Registry) (ss : List PlanSet) : Type 0 where
  pub finished :
      (i : ℕ) (s : PlanSet) → get_elem? ss i ≡ some s → s.finalized ≡ true → s.owned ≡ no_refs
  pub listed :
      (i : ℕ) (s : PlanSet)
      → get_elem? ss i ≡ some s
      → opens s ≡ 0
      → s.finalized ≡ false
      → In i r.retired
  pub waiting : IsWaiting r.retired ss

pub record IsTidy (w : World) : Type 0 where
  pub spent : All IsSpent w.candidates
  pub sets : AreTidy w.registry w.sets

-- The world after an action, if it does not panic, is tidy.
abbrev pub Tidies : Option World → Type 0
Tidies none = Unit
Tidies (some w) = IsTidy w

pub Tidies-with_elem :
    {A : Type 0} (w : World) (f : World → ℕ → A → Option World) (xs : List A) (i : ℕ)
    → IsTidy w
    → ((x : A) → get_elem? xs i ≡ some x → Tidies (f w i x))
    → Tidies (with_elem w f xs i)
Tidies-with_elem w f xs i v k = elim (Option-cases (get_elem? xs i)) [
  | inl e ↦ rw (e, with_elem) v
  | inr (x, e) ↦ rw (e, with_elem) (k x e)
]

-- A registry with the same retired sets.
pub same_retired :
    (r r' : Registry) (ss : List PlanSet) → r'.retired ≡ r.retired → AreTidy r ss → AreTidy r' ss
same_retired r r' ss e v = record {
  finished = v.finished;
  listed = λ i s g o f. subst (In i) (sym e) (v.listed i s g o f);
  waiting = subst (λ x. IsWaiting x ss) (sym e) v.waiting;
}

-- One set changes, but not what it owns.
AreTidy-set :
    (r r' : Registry) (ss : List PlanSet) (i : ℕ) (s s' : PlanSet)
    → AreTidy r ss
    → get_elem? ss i ≡ some s
    → s'.owned ≡ s.owned
    → s'.finalized ≡ s.finalized
    → ((j : ℕ) → In j r.retired → In j r'.retired)
    → (opens s' ≡ 0 → (opens s ≡ 0) ⊎ In i r'.retired)
    → IsWaiting r'.retired (set ss i s')
    → AreTidy r' (set ss i s')
AreTidy-set r r' ss i s s' v e o f k p w = record {
  waiting = w;
  finished = λ j t g q. elim (get_elem?-set ss i j t s' g) [
    | inl (_, same) ↦
        ap (λ x. x.owned) (sym same) ∙ o ∙ v.finished i s e (sym f ∙ ap (λ x. x.finalized) same ∙ q)
    | inr (_, h) ↦ v.finished j t h q
  ];
  listed = λ j t g z q. elim (get_elem?-set ss i j t s' g) [
    | inl (same_id, same) ↦
        subst (λ x. In x r'.retired) (sym same_id)
          (elim (p (ap opens same ∙ z)) [
            | inl y ↦ k i (v.listed i s e y (sym f ∙ ap (λ x. x.finalized) same ∙ q))
            | inr m ↦ m
          ])
    | inr (_, h) ↦ k j (v.listed j t h z q)
  ];
}

Tidies-set :
    (w : World) (i : ℕ) (s s' : PlanSet)
    → IsTidy w
    → get_elem? w.sets i ≡ some s
    → s'.owned ≡ s.owned
    → s'.finalized ≡ s.finalized
    → opens s' ≡ opens s
    → IsTidy (record w { sets = set w.sets i s' })
Tidies-set w i s s' v e o f p = record {
  spent = v.spent;
  sets =
      AreTidy-set w.registry w.registry w.sets i s s' v.sets e o f (λ j m. m) (λ z. inl (sym p ∙ z))
        (IsWaiting-set w.registry.retired w.sets i s s' v.sets.waiting e f (λ z. p ∙ z));
}

module _ (w : World) (i : ℕ) (s : PlanSet) (v : IsTidy w) (e : get_elem? w.sets i ≡ some s) where
  pub Tidies-enter_set : Tidies (enter_set w i s)
  unfolding enter_set try_acquire
  Tidies-enter_set = elim (Bool-cases (s.refs == 0)) [
    | inl z ↦ rw (z, enter_set) v
    | inr z ↦ rw (z, enter_set) (Tidies-set w i s _ v e refl refl refl)
  ]

  pub Tidies-leave_set : Tidies (leave_set w i s)
  unfolding leave_set release_set
  Tidies-leave_set = elim (Bool-cases (s.requests == 0)) [
    | inl z ↦ rw (z, leave_set) v
    | inr z ↦ elim (Bool-cases (s.refs == 0)) [
      | inl y ↦ rw (z, y, leave_set) tt
      | inr y ↦ rw (z, y, leave_set) (Tidies-set w i s _ v e refl refl refl)
    ]
  ]

  opens_in : (p : Phase) → s.phase ≡ p → opens s ≡ opens (record s { phase = p })
  opens_in p q = ap (λ x. opens (record s { phase = x })) q

  pub Tidies-mark_set : Tidies (mark_set w i s)
  unfolding mark_set
  Tidies-mark_set = by_phase s.phase refl
    where
      by_phase : (p : Phase) → s.phase ≡ p → Tidies (mark_set w i s)
      by_phase active p =
          rw (p, mark_set) (Tidies-set w i s _ v e refl refl (sym (opens_in active p)))
      by_phase marked p = rw (p, mark_set) v
      by_phase registered p = rw (p, mark_set) v
      by_phase dropped p = rw (p, mark_set) v

  pub Tidies-drop_set : Tidies (drop_set w i s)
  unfolding drop_set release_set
  Tidies-drop_set = by_phase s.phase refl
    where
      by_phase : (p : Phase) → s.phase ≡ p → Tidies (drop_set w i s)
      by_phase active p = rw (p, drop_set) v
      by_phase marked p = rw (p, drop_set) v
      by_phase registered p = elim (Bool-cases (s.refs == 0)) [
        | inl z ↦ rw (p, z, drop_set) tt
        | inr z ↦
            rw (p, z, drop_set) (Tidies-set w i s _ v e refl refl (sym (opens_in registered p)))
      ]
      by_phase dropped p = rw (p, drop_set) v

  pub Tidies-register_set : Tidies (register_set w i s)
  unfolding register_set register_retired
  Tidies-register_set = by_phase s.phase refl
    where
      In-last : (xs : List ℕ) → In i (xs ++ i ∷ [])
      In-last [] = inl refl
      In-last (x ∷ xs) = inr (In-last xs)

      by_phase : (p : Phase) → s.phase ≡ p → Tidies (register_set w i s)
      by_phase active p = rw (p, register_set) v
      by_phase marked p = elim (Bool-cases (w.registry.active_plan_sets == 0)) [
        | inl z ↦ rw (p, z, register_set) tt
        | inr z ↦
            rw (p, z, register_set)
              (record {
                spent = v.spent;
                sets =
                    AreTidy-set w.registry _ w.sets i s _ v.sets e refl refl
                      (λ j m. In-append_left j w.registry.retired (i ∷ []) m)
                      (λ _. inr (In-last w.registry.retired))
                      (IsWaiting-register w.registry.retired w.sets i s _ v.sets.waiting e
                        (get_elem?-length w.sets i s e) refl (opens_in marked p) refl);
              })
      ]
      by_phase registered p = rw (p, register_set) v
      by_phase dropped p = rw (p, register_set) v
