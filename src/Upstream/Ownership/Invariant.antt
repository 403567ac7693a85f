-- ===== src/Upstream/Ownership/Invariant.antt =====
-- The invariant of the registry and its owners, and the steps of the candidates and of the plan sets.
use g_gateway.Base.{
  ℕ, ◌+◌, ◌-◌, ◌≤◌, ◌<◌, ◌≡◌, refl, sym, ap, subst, ◌∙◌, Bool, true, false, Option, none, some,
  List, [], ◌∷◌, ◌++◌, arith, get_elem?, set, All, if◌then◌else◌, ◌==◌, Bool-cases, inl, inr,
}
use g_gateway.Upstream.Registry.{ResourceRefs, no_refs}
use g_gateway.Upstream.Registry.Losses.{release_refs-Loses}
use g_gateway.Upstream.Ownership.{
  Candidate, PlanSet, Phase, active, marked, registered, dropped, TunnelLease, try_acquire,
  release_set, new_plan_set, count_active, finish_candidate, register_retired,
}
use g_gateway.Upstream.Ownership.Machine.{
  World, commit_candidate, rollback_candidate, enter_set, leave_set, mark_set, register_set,
  drop_set, with_elem,
}
use g_gateway.Base.Tally.{total, total-set, total-append, total-get, All-set, All-get, All-snoc}
use g_gateway.Upstream.Ownership.Balance.{
  IsBalanced, IsBalanced-shift, IsBalanced-lose, IsBalanced-Backs,
}

-- A set counts as active until it is registered, and has its owner's reference until it is dropped.
abbrev pub opens : PlanSet → ℕ
opens s = elim s.phase [ active ↦ 1 | marked ↦ 1 | registered ↦ 0 | dropped ↦ 0 ]

abbrev pub owner : PlanSet → ℕ
owner s = elim s.phase [ active ↦ 1 | marked ↦ 1 | registered ↦ 1 | dropped ↦ 0 ]

-- A set's references are its owner's and the requests', and a finalised set has none.
abbrev pub IsHandled : PlanSet → Type 0
IsHandled s = (s.refs ≡ s.requests + owner s) × (s.finalized ≡ true → s.refs ≡ 0)

abbrev pub unreleased : TunnelLease → ℕ
unreleased l = if l.released then 0 else 1

pub record IsOwned (w : World) : Type 0 where
  pub balanced : IsBalanced w.registry w.candidates w.sets w.leases
  pub active_count : w.registry.active_plan_sets ≡ total opens w.sets
  pub lease_count : w.registry.live_tunnel_leases ≡ total unreleased w.leases
  pub handled : All IsHandled w.sets

-- The action does not panic and keeps the invariant.
abbrev pub Keeps : Option World → Type 0
Keeps o = (w : World) × (o ≡ some w) × IsOwned w

-- An action on one owner, by its number.
pub Keeps-with_elem :
    {A : Type 0} (w : World) (f : World → ℕ → A → Option World) (xs : List A) (i : ℕ)
    → IsOwned w
    → ((x : A) → get_elem? xs i ≡ some x → Keeps (f w i x))
    → Keeps (with_elem w f xs i)
Keeps-with_elem w f xs i v k = elim (g_gateway.Base.Option-cases (get_elem? xs i)) [
  | inl e ↦ rw (e, with_elem) (w, refl, v)
  | inr (x, e) ↦ rw (e, with_elem) (k x e)
]

pub Keeps-commit_candidate :
    (w : World) (i : ℕ) (c : Candidate)
    → IsOwned w
    → get_elem? w.candidates i ≡ some c
    → Keeps (commit_candidate w i c)
unfolding commit_candidate finish_candidate new_plan_set count_active
Keeps-commit_candidate w i c v e = elim (Bool-cases c.done) [
  | inl d ↦ rw d (w, refl, v)
  | inr d ↦ rw d (
    _,
    refl,
    record {
      balanced =
          IsBalanced-shift _ _ w.candidates _ w.sets _ w.leases refl refl refl refl refl moved
            v.balanced;
      active_count =
          omega (arith, v.active_count, total-append opens w.sets (new_plan_set c.owned ∷ []));
      lease_count = v.lease_count;
      handled =
          All-snoc IsHandled w.sets (new_plan_set c.owned) v.handled
            (refl, λ (h : false ≡ true). absurd cc);
    },
  )
]
  where
    moved :
        (g : ResourceRefs → ℕ)
        → g no_refs ≡ 0
        → total (λ c. g c.owned) (set w.candidates i (finish_candidate c))
            + total (λ s. g s.owned) (w.sets ++ new_plan_set c.owned ∷ [])
          ≡ total (λ c. g c.owned) w.candidates + total (λ s. g s.owned) w.sets
    moved g z = omega (
      arith,
      z,
      total-set (λ (c : Candidate). g c.owned) w.candidates i c (finish_candidate c) e,
      total-append (λ (s : PlanSet). g s.owned) w.sets (new_plan_set c.owned ∷ []),
    )

pub Keeps-rollback_candidate :
    (w : World) (i : ℕ) (c : Candidate)
    → IsOwned w
    → get_elem? w.candidates i ≡ some c
    → Keeps (rollback_candidate w i c)
unfolding rollback_candidate finish_candidate
Keeps-rollback_candidate w i c v e = elim (Bool-cases c.done) [
  | inl d ↦ rw d (w, refl, v)
  | inr d ↦
      let l = release_refs-Loses w.registry c.owned v.balanced.tables (
        IsBalanced-Backs w.registry c.owned w.candidates w.sets w.leases
          (λ g. omega (arith, total-get (λ (c : Candidate). g c.owned) w.candidates i c e))
          v.balanced) in
      rw (d, l.result)
        (
          _,
          refl,
          record {
            balanced =
                IsBalanced-lose w.registry c.owned w.candidates _ w.sets w.sets w.leases l
                  (λ g z. omega (
                    arith,
                    z,
                    total-set (λ (c : Candidate). g c.owned) w.candidates i c (finish_candidate c)
                        e,
                  ))
                  v.balanced;
            active_count = l.same_active ∙ v.active_count;
            lease_count = l.same_leases ∙ v.lease_count;
            handled = v.handled;
          },
        )
]

-- A set that changes neither what it owns nor whether it counts as active.
Keeps-set :
    (w : World) (i : ℕ) (s s' : PlanSet)
    → IsOwned w
    → get_elem? w.sets i ≡ some s
    → s'.owned ≡ s.owned
    → opens s' ≡ opens s
    → IsHandled s'
    → IsOwned (record w { sets = set w.sets i s' })
Keeps-set w i s s' v e o p h = record {
  balanced =
      IsBalanced-shift _ _ w.candidates _ w.sets _ w.leases refl refl refl refl refl
        (λ g _. omega (arith, ap g o, total-set (λ (s : PlanSet). g s.owned) w.sets i s s' e))
        v.balanced;
  active_count = omega (arith, v.active_count, total-set opens w.sets i s s' e, p);
  lease_count = v.lease_count;
  handled = All-set IsHandled w.sets i s' v.handled h;
}

module _ (w : World) (i : ℕ) (s : PlanSet) (v : IsOwned w) (e : get_elem? w.sets i ≡ some s) where
  handle : IsHandled s
  handle = All-get IsHandled w.sets i s v.handled e

  pub Keeps-enter_set : Keeps (enter_set w i s)
  unfolding enter_set try_acquire
  Keeps-enter_set = elim (Bool-cases (s.refs == 0)) [
    | inl z ↦ rw (z, enter_set) (w, refl, v)
    | inr z ↦
        rw (z, enter_set)
          (
            _,
            refl,
            Keeps-set w i s _ v e refl refl
                (omega (arith, handle.0), λ f. ground (arith, handle.1 f)),
          )
  ]

  pub Keeps-leave_set : Keeps (leave_set w i s)
  unfolding leave_set release_set
  Keeps-leave_set = elim (Bool-cases (s.requests == 0)) [
    | inl z ↦ rw z (w, refl, v)
    | inr z ↦ elim (Bool-cases (s.refs == 0)) [
      | inl y ↦ absurd (ground (arith, handle.0))
      | inr y ↦
          rw (z, y)
            (
              _,
              refl,
              Keeps-set w i s _ v e refl refl
                  (ground (arith, handle.0), λ f. ground (arith, handle.1 f)),
            )
    ]
  ]

  -- The references of a set in a phase.
  refs_in : (p : Phase) → s.phase ≡ p → s.refs ≡ s.requests + owner (record s { phase = p })
  refs_in p e = subst (λ x. s.refs ≡ s.requests + owner (record s { phase = x })) e handle.0

  opens_in : (p : Phase) → s.phase ≡ p → opens s ≡ opens (record s { phase = p })
  opens_in p e = ap (λ x. opens (record s { phase = x })) e

  pub Keeps-mark_set : Keeps (mark_set w i s)
  unfolding mark_set
  Keeps-mark_set = by_phase s.phase refl
    where
      by_phase : (p : Phase) → s.phase ≡ p → Keeps (mark_set w i s)
      by_phase active p =
          rw (p, mark_set)
            (
              _,
              refl,
              Keeps-set w i s _ v e refl (sym (opens_in active p)) (refs_in active p, handle.1),
            )
      by_phase marked p = rw (p, mark_set) (w, refl, v)
      by_phase registered p = rw (p, mark_set) (w, refl, v)
      by_phase dropped p = rw (p, mark_set) (w, refl, v)

  pub Keeps-register_set : Keeps (register_set w i s)
  unfolding register_set register_retired
  Keeps-register_set = by_phase s.phase refl
    where
      by_phase : (p : Phase) → s.phase ≡ p → Keeps (register_set w i s)
      by_phase active p = rw (p, register_set) (w, refl, v)
      by_phase marked p =
          let s' : PlanSet = record s { phase = registered } in
          let counted : 0 < w.registry.active_plan_sets =
            omega (arith, v.active_count, total-get opens w.sets i s e, opens_in marked p) in
          let positive : (w.registry.active_plan_sets == 0) ≡ false = ground (arith, counted) in
          rw (p, positive, register_set, register_retired)
            (
              _,
              refl,
              record {
                balanced =
                    IsBalanced-shift _ _ w.candidates _ w.sets _ w.leases refl refl refl refl refl
                      (λ g _. omega (arith, total-set (λ (s : PlanSet). g s.owned) w.sets i s s' e))
                      v.balanced;
                active_count = omega (
                  arith,
                  v.active_count,
                  total-set opens w.sets i s s' e,
                  opens_in marked p,
                  counted,
                );
                lease_count = v.lease_count;
                handled = All-set IsHandled w.sets i s' v.handled (refs_in marked p, handle.1);
              },
            )
      by_phase registered p = rw (p, register_set) (w, refl, v)
      by_phase dropped p = rw (p, register_set) (w, refl, v)

  pub Keeps-drop_set : Keeps (drop_set w i s)
  unfolding drop_set release_set
  Keeps-drop_set = by_phase s.phase refl
    where
      by_phase : (p : Phase) → s.phase ≡ p → Keeps (drop_set w i s)
      by_phase active p = rw (p, drop_set) (w, refl, v)
      by_phase marked p = rw (p, drop_set) (w, refl, v)
      by_phase registered p =
          let positive : (s.refs == 0) ≡ false = ground (arith, refs_in registered p) in
          rw (p, positive, drop_set, release_set)
            (
              _,
              refl,
              Keeps-set w i s _ v e refl (sym (opens_in registered p)) (
                omega (arith, refs_in registered p),
                λ f. ground (arith, handle.1 f, refs_in registered p),
              ),
            )
      by_phase dropped p = rw (p, drop_set) (w, refl, v)
