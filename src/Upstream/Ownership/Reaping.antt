-- ===== src/Upstream/Ownership/Reaping.antt =====
-- reapNow of reaper.go keeps the invariant and does not panic.
use g_gateway.Base.{
  ℕ, ◌≡◌, refl, ◌∙◌, true, ◌||◌, not, none, some, List, [], ◌∷◌, arith, get_elem?, set, All, ◌==◌,
  Bool-cases, Option-cases, inl, inr,
}
use g_gateway.Upstream.Registry.{ResourceRefs, no_refs, Registry}
use g_gateway.Upstream.Registry.Losses.{release_refs-Loses}
use g_gateway.Upstream.Ownership.{Candidate, PlanSet, TunnelLease, sweep, release_sets, reap_now}
use g_gateway.Upstream.Ownership.Machine.{World}
use g_gateway.Base.Tally.{total, total-set, total-get, All-set, All-get}
use g_gateway.Upstream.Ownership.Balance.{
  IsBalanced, IsBalanced-shift, IsBalanced-lose, IsBalanced-Backs,
}
use g_gateway.Upstream.Ownership.Invariant.{IsOwned, Keeps, IsHandled, opens}

-- The sets before and after a loop of the reaper that leaves the phases and the counts of references.
pub record Swept (ss ss' : List PlanSet) : Type 0 where
  pub owned : (g : ResourceRefs → ℕ) → total (λ s. g s.owned) ss' ≡ total (λ s. g s.owned) ss
  pub active_count : total opens ss' ≡ total opens ss
  pub handled : All IsHandled ss → All IsHandled ss'

Swept-finalized :
    (ss ss' : List PlanSet) (i : ℕ) (s : PlanSet)
    → get_elem? ss i ≡ some s
    → (s.refs == 0) ≡ true
    → Swept (set ss i (record s { finalized = true })) ss'
    → Swept ss ss'
Swept-finalized ss ss' i s e z w = record {
  owned = λ g. omega (arith, w.owned g, total-set (λ (s : PlanSet). g s.owned) ss i s s' e);
  active_count = omega (arith, w.active_count, total-set opens ss i s s' e);
  handled = λ h.
      w.handled
        (All-set IsHandled ss i s' h ((All-get IsHandled ss i s h e).0, λ _. ground (arith, z)));
}
  where
    s' : PlanSet
    s' = record s { finalized = true }

pub Swept-sweep : (ids : List ℕ) (ss : List PlanSet) → Swept ss (sweep ids ss).2
unfolding sweep
Swept-sweep [] ss = record { owned = λ g. refl; active_count = refl; handled = λ h. h }
Swept-sweep (id ∷ ids) ss = elim (Option-cases (get_elem? ss id)) [
  | inl e ↦ rw (e, sweep) (Swept-sweep ids ss)
  | inr (s, e) ↦ elim (Bool-cases (not (s.refs == 0) || s.finalized)) [
    | inl f ↦ rw (e, f, sweep) (Swept-sweep ids ss)
    | inr f ↦
        rw (e, f, sweep)
          (Swept-finalized ss _ id s e (ground (arith, f))
            (Swept-sweep ids (set ss id (record s { finalized = true }))))
  ]
]

-- What release_sets yields.
record Reaped (r : Registry) (cs : List Candidate) (ss : List PlanSet) (ls : List TunnelLease)
    (ids : List ℕ) : Type 0 where
  registry : Registry
  sets : List PlanSet
  result : release_sets ids r ss ≡ some (registry, sets)
  balanced : IsBalanced registry cs sets ls
  active_count : total opens sets ≡ total opens ss
  same_active : registry.active_plan_sets ≡ r.active_plan_sets
  same_leases : registry.live_tunnel_leases ≡ r.live_tunnel_leases
  handled : All IsHandled ss → All IsHandled sets

release_sets-Reaped :
    (cs : List Candidate) (ls : List TunnelLease) (ids : List ℕ) (r : Registry) (ss : List PlanSet)
    → IsBalanced r cs ss ls
    → Reaped r cs ss ls ids
unfolding release_sets
release_sets-Reaped cs ls [] r ss v = record {
  registry = r;
  sets = ss;
  result = refl;
  balanced = v;
  active_count = refl;
  same_active = refl;
  same_leases = refl;
  handled = λ h. h;
}
release_sets-Reaped cs ls (id ∷ ids) r ss v = elim (Option-cases (get_elem? ss id)) [
  | inl e ↦
      let w = release_sets-Reaped cs ls ids r ss v in
      record {
        registry = w.registry;
        sets = w.sets;
        result = rw (e, release_sets) w.result;
        balanced = w.balanced;
        active_count = w.active_count;
        same_active = w.same_active;
        same_leases = w.same_leases;
        handled = w.handled;
      }
  | inr (s, e) ↦
      let s' : PlanSet = record s { owned = no_refs } in
      let l = release_refs-Loses r s.owned v.tables (
        IsBalanced-Backs r s.owned cs ss ls
          (λ g. omega (arith, total-get (λ (s : PlanSet). g s.owned) ss id s e)) v) in
      let w = release_sets-Reaped cs ls ids l.registry (set ss id s') (
        IsBalanced-lose r s.owned cs cs ss (set ss id s') ls l
          (λ g z. omega (arith, z, total-set (λ (s : PlanSet). g s.owned) ss id s s' e)) v) in
      record {
        registry = w.registry;
        sets = w.sets;
        result = rw (e, l.result, release_sets) w.result;
        balanced = w.balanced;
        active_count = omega (arith, w.active_count, total-set opens ss id s s' e);
        same_active = w.same_active ∙ l.same_active;
        same_leases = w.same_leases ∙ l.same_leases;
        handled = λ h. w.handled (All-set IsHandled ss id s' h (All-get IsHandled ss id s h e));
      }
]

pub Keeps-reap :
    (w : World)
    → IsOwned w
    → Keeps (elim (reap_now w.registry w.sets) [
      | none ↦ none
      | some (r, sets) ↦ some (record w { registry = r; sets = sets })
    ])
unfolding reap_now
Keeps-reap w v =
    let q = Swept-sweep w.registry.retired w.sets in
    let p =
      release_sets-Reaped w.candidates w.leases (sweep w.registry.retired w.sets).1
        (record w.registry { retired = (sweep w.registry.retired w.sets).0 })
        (sweep w.registry.retired w.sets).2
        (IsBalanced-shift w.registry _ w.candidates w.candidates w.sets _ w.leases refl refl refl
          refl refl (λ g _. omega (arith, q.owned g)) v.balanced) in
    rw (p.result, reap_now)
      (
        _,
        refl,
        record {
          balanced = p.balanced;
          active_count =
              omega (arith, p.same_active, p.active_count, q.active_count, v.active_count);
          lease_count = p.same_leases ∙ v.lease_count;
          handled = p.handled (q.handled v.handled);
        },
      )
