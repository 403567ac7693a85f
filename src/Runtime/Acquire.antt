-- ===== src/Runtime/Acquire.antt =====
-- Acquire and Release of runtime/manager.go on a manager that has published a snapshot.
use g_gateway.Base.{
  ℕ, zero, suc, ◌+◌, ◌<◌, ◌≡◌, refl, sym, ap, subst, ◌∙◌, true, false, some, List, [], ◌∷◌, arith,
  get_elem?, set, Bool-cases, inl, inr, ◌==◌, some-injective,
}
use g_gateway.Base.Tally.{All-get}
use g_gateway.Upstream.Ownership.{PlanSet, active, try_acquire, release_set}
use g_gateway.Upstream.Ownership.Machine.{World, enter_set, leave_set, with_elem}
use g_gateway.Upstream.Ownership.Invariant.{IsOwned, IsHandled, owner, Keeps-enter_set}
use g_gateway.Runtime.{
  Snapshot, Manager, Lease, Acquiring, loading, trying, rechecking, leased, acquire_step, release,
}
use g_gateway.Runtime.Publication.{get_elem?-set_same}
use g_gateway.Runtime.Managed.{IsCurrent, IsManaged}

try_acquire-some :
    (s : PlanSet)
    → 0 < s.refs
    → try_acquire s ≡ some (record s { refs = s.refs + 1; requests = s.requests + 1 })
unfolding try_acquire
try_acquire-some s h = elim (Bool-cases (s.refs == 0)) [
  | inl z ↦ absurd (ground (arith, z, h))
  | inr z ↦ rw (z, try_acquire) refl
]

enter_set-some :
    (w : World) (i : ℕ) (s s' : PlanSet)
    → try_acquire s ≡ some s'
    → enter_set w i s ≡ some (record w { sets = set w.sets i s' })
unfolding enter_set
enter_set-some w i s s' e = rw (e, enter_set) refl

set-set :
    (xs : List PlanSet) (i : ℕ) (x y : PlanSet)
    → get_elem? xs i ≡ some x
    → set (set xs i y) i x ≡ xs
set-set [] i x y e = refl
set-set (z ∷ xs) zero x y e = ap (λ z. z ∷ xs) (sym (some-injective z x e))
set-set (z ∷ xs) (suc i) x y e = ap (λ xs. z ∷ xs) (set-set xs i x y e)

abbrev pub entered : PlanSet → PlanSet
entered s = record s { refs = s.refs + 1; requests = s.requests + 1 }

leave_set-entered :
    (w : World) (i : ℕ) (s : PlanSet)
    → leave_set w i (entered s) ≡ some (record w { sets = set w.sets i s })
unfolding leave_set release_set
leave_set-entered w i s = ground arith

-- A lease of the snapshot whose plan set has one reference and one request more than before, and nothing
-- else has changed; and Release of the lease gives the manager before back.
abbrev pub Leased : Snapshot → Manager → Manager × Acquiring → Type 0
Leased snapshot m (m', a) =
    (s : PlanSet) × (get_elem? m.world.sets snapshot.plans ≡ some s)
    × (m' ≡ record m {
      world = record m.world { sets = set m.world.sets snapshot.plans (entered s) };
    })
    × (a ≡ leased (record { snapshot = snapshot; released = false }))
    × IsManaged m'
    × (release m' (record { snapshot = snapshot; released = false })
        ≡ some (m, record { snapshot = snapshot; released = true }))

module _ (m : Manager) (snapshot : Snapshot) (v : IsManaged m) (p : m.active ≡ some snapshot) where
  current : IsCurrent m.world (some snapshot)
  current = subst (IsCurrent m.world) p v.current

  module _ (s : PlanSet) (e : get_elem? m.world.sets snapshot.plans ≡ some s)
      (a : s.phase ≡ active) where
    after : World
    after = record m.world { sets = set m.world.sets snapshot.plans (entered s) }

    there :
        get_elem? (set m.world.sets snapshot.plans (entered s)) snapshot.plans ≡ some (entered s)
    there = get_elem?-set_same m.world.sets snapshot.plans s (entered s) e

    acquired : try_acquire s ≡ some (entered s)
    acquired = try_acquire-some s (omega (arith, counted))
      where
        handle : IsHandled s
        handle = All-get IsHandled m.world.sets snapshot.plans s v.owned.handled e

        counted : s.refs ≡ s.requests + 1
        counted = subst (λ x. s.refs ≡ s.requests + owner (record s { phase = x })) a handle.0

    after-IsOwned : IsOwned after
    unfolding after
    after-IsOwned =
        let (w', f, v') = Keeps-enter_set m.world snapshot.plans s v.owned e in
        subst IsOwned
          (sym (
            some-injective after w'
              (sym (enter_set-some m.world snapshot.plans s (entered s) acquired) ∙ f)))
          v'

    released :
        release (record m { world = after }) (record { snapshot = snapshot; released = false })
        ≡ some (m, record { snapshot = snapshot; released = true })
    unfolding release after
    released =
        rw
          (
            there,
            leave_set-entered after snapshot.plans s,
            set-set m.world.sets snapshot.plans s (entered s) e,
            with_elem,
          )
          refl

    granted : Leased snapshot m (acquire_step m (trying snapshot))
    unfolding acquire_step after
    granted =
        rw (e, acquired, acquire_step)
          (
            s,
            refl,
            refl,
            refl,
            record {
              owned = after-IsOwned;
              current = subst (IsCurrent after) (sym p) (entered s, there, a);
            },
            released,
          )

  -- TryAcquire does not fail on the plan set of the published snapshot.
  retried :
      (revision plans : ℕ)
      → plans ≡ snapshot.plans
      → (acquire_step m (trying (record { revision = revision; plans = plans }))).1
        ≡ rechecking (record { revision = revision; plans = plans })
      → ⊥
  unfolding acquire_step
  retried revision plans q h = clash (
      sym (tried current.0 current.1 current.2)
      ∙ ap (λ x. (acquire_step m (trying (record { revision = revision; plans = x }))).1) (sym q)
      ∙ h)
    where
      tried :
          (s : PlanSet)
          → get_elem? m.world.sets snapshot.plans ≡ some s
          → s.phase ≡ active
          → (acquire_step m (trying (record { revision = revision; plans = snapshot.plans }))).1
            ≡ leased (record {
              snapshot = record { revision = revision; plans = snapshot.plans };
              released = false;
            })
      tried s e a = rw (e, acquired s e a, acquire_step) refl

      clash : {l : Lease} {s : Snapshot} → leased l ≡ rechecking s → ⊥
      clash h = absurd cc

  rechecked :
      (tried : Snapshot)
      → (acquire_step m (trying tried)).1 ≡ rechecking tried
      → acquire_step m (rechecking tried) ≡ (m, loading)
  unfolding acquire_step
  rechecked tried h = elim (Bool-cases (snapshot.plans == tried.plans)) [
    | inl e ↦ absurd (retried tried.revision tried.plans (ground (arith, e)) h)
    | inr e ↦ rw (p, e, acquire_step) refl
  ]

  -- On a manager with the invariant that has published a snapshot, the first load of Acquire finds that
  -- snapshot; and where a call has loaded the published snapshot, TryAcquire succeeds. It yields a lease of
  -- the snapshot, for which its plan set gains one reference and one request; nothing else changes, and
  -- the invariant is kept. Release of the lease then gives the manager before TryAcquire back. A load
  -- right after a TryAcquire that fails goes on to a new round.
  pub acquire_step-Leased :
      (acquire_step m loading ≡ (m, trying snapshot))
      × Leased snapshot m (acquire_step m (trying snapshot))
      × ((tried : Snapshot)
          → (acquire_step m (trying tried)).1 ≡ rechecking tried
          → acquire_step m (rechecking tried) ≡ (m, loading))
  unfolding acquire_step
  acquire_step-Leased =
      (rw (p, acquire_step) refl, granted current.0 current.1 current.2, rechecked)
