-- ===== src/Upstream/Ownership/Idle.antt =====
-- When nothing is in use any more, one round of the reaper empties the registry.
use g_gateway.Base.{
  length, ap, ℕ, suc, ◌+◌, ◌≡◌, refl, sym, subst, ◌∙◌, inl, inr, Option, none, some, List, [], ◌∷◌,
  arith, get_elem?, Option-cases, some-injective, All, true,
}
use g_gateway.Base.Tally.{All-get, total}
use g_gateway.Upstream.Registry.{is_drained, no_refs, Registry, Compilers, new_registry}
use g_gateway.Upstream.Ownership.{
  Candidate, PlanSet, Phase, active, marked, registered, dropped, sweep, release_sets, reap_now,
}
use g_gateway.Upstream.Ownership.Machine.{World, Action, reap, run, run_all}
use g_gateway.Upstream.Ownership.Invariant.{IsOwned, IsHandled, opens, owner}
use g_gateway.Upstream.Ownership.Runs.{
  new_world, new_registry-IsOwned, run_all-Keeps, IsOwned-OwnNothing,
}
use g_gateway.Upstream.Ownership.Reaping.{Keeps-reap}
use g_gateway.Upstream.Ownership.Sweeping.{
  SweptAt, sweep-SweptAt, ReleasedAt, ReleasedAll, release_sets-ReleasedAll,
}
use g_gateway.Upstream.Ownership.Waiting.{sweep-none}
use g_gateway.Upstream.Ownership.Tidy.{IsSpent, IsTidy, Tidies}
use g_gateway.Upstream.Ownership.Emptied.{
  owns_nothing_at, opens_at, run_all-Tidies, new_world-IsTidy,
}

All-of_get :
    {A : Type 0} (P : A → Type 0) (xs : List A)
    → ((j : ℕ) (x : A) → get_elem? xs j ≡ some x → P x)
    → All P xs
All-of_get P [] h = tt
All-of_get P (x ∷ xs) h = (h 0 x refl, All-of_get P xs (λ j. h (suc j)))

All-both :
    {A : Type 0} (P Q : A → Type 0) (xs : List A) → All P xs → All Q xs → All (λ x. P x × Q x) xs
All-both P Q [] h v = tt
All-both P Q (x ∷ xs) h v = ((h.0, v.0), All-both P Q xs h.1 v.1)

total-zero : (ss : List PlanSet) → All (λ s. opens s ≡ 0) ss → total opens ss ≡ 0
total-zero [] h = refl
total-zero (s ∷ ss) h = omega (arith, h.0, total-zero ss h.1)

-- Nothing is in use: each candidate is done, each set is retired, without its owner's reference and
-- without a request, and each lease is released.
pub record IsIdle (w : World) : Type 0 where
  pub candidates : All (λ c. c.done ≡ true) w.candidates
  pub sets : All (λ s. (s.phase ≡ dropped) × (s.requests ≡ 0)) w.sets
  pub leases : All (λ l. l.released ≡ true) w.leases

-- Nothing is left: the five tables are empty, no plan set and no lease is counted, and no set is
-- retired.
pub record IsEmptied (r : Registry) : Type 0 where
  pub endpoints : r.endpoints ≡ []
  pub transports : r.transports ≡ []
  pub selections : r.selections ≡ []
  pub health : r.health ≡ []
  pub budgets : r.budgets ≡ []
  pub active_plan_sets : r.active_plan_sets ≡ 0
  pub live_tunnel_leases : r.live_tunnel_leases ≡ 0
  pub retired : r.retired ≡ []

unreferenced :
    (s : PlanSet)
    → IsHandled s × ((s.phase ≡ dropped) × (s.requests ≡ 0))
    → (opens s ≡ 0) × (s.refs ≡ 0)
unreferenced s ((r, _), (d, z)) = by_phase s.phase d r
  where
    by_phase :
        (p : Phase)
        → p ≡ dropped
        → s.refs ≡ s.requests + owner (record s { phase = p })
        → (opens (record s { phase = p }) ≡ 0) × (s.refs ≡ 0)
    by_phase active q e = absurd (phase_clash q)
      where
        phase_clash : active ≡ dropped → ⊥
        phase_clash c = absurd cc
    by_phase marked q e = absurd (phase_clash q)
      where
        phase_clash : marked ≡ dropped → ⊥
        phase_clash c = absurd cc
    by_phase registered q e = absurd (phase_clash q)
      where
        phase_clash : registered ≡ dropped → ⊥
        phase_clash c = absurd cc
    by_phase dropped q e = (refl, omega (arith, e, z))

-- The world after a round of the reaper, where nothing was in use.
module _ (w : World) (v : IsTidy w) (o : IsOwned w) (z : IsIdle w) where
  idle_at : (j : ℕ) (s : PlanSet) → get_elem? w.sets j ≡ some s → (opens s ≡ 0) × (s.refs ≡ 0)
  idle_at j s g = unreferenced s (
      All-get (λ s. IsHandled s × ((s.phase ≡ dropped) × (s.requests ≡ 0))) w.sets j s
        (All-both IsHandled (λ s. (s.phase ≡ dropped) × (s.requests ≡ 0)) w.sets o.handled z.sets)
        g)

  emptied :
      (r : Registry) (ss between : List PlanSet) (kept finalized : List ℕ)
      → ((j : ℕ) (s : PlanSet)
          → get_elem? between j ≡ some s
          → SweptAt w.registry.retired w.sets kept finalized j s)
      → ((j : ℕ) (s : PlanSet) → get_elem? ss j ≡ some s → ReleasedAt finalized between j s)
      → IsOwned (record w { registry = r; sets = ss })
      → r.retired ≡ []
      → IsEmptied r
  emptied r ss between kept finalized swept released o' none_left =
      let (a, b, c, d, e, l) =
        IsOwned-OwnNothing (record w { registry = r; sets = ss }) o'
          (
            spend w.candidates v.spent z.candidates,
            All-of_get (λ s. s.owned ≡ no_refs) ss
                (λ j s g.
                  owns_nothing_at w v r ss between kept finalized swept released idle_at j s
                    (released j s g)),
            z.leases,
          ) in
      record {
        endpoints = a;
        transports = b;
        selections = c;
        health = d;
        budgets = e;
        active_plan_sets =
            o'.active_count
            ∙ total-zero ss (
                All-of_get (λ s. opens s ≡ 0) ss
                  (λ j s g.
                    opens_at w v r ss between kept finalized swept released idle_at j s
                      (released j s g)));
        live_tunnel_leases = l;
        retired = none_left;
      }
    where
      spend :
          (cs : List Candidate)
          → All IsSpent cs
          → All (λ c. c.done ≡ true) cs
          → All (λ c. c.owned ≡ no_refs) cs
      spend [] h k = tt
      spend (c ∷ cs) h k = (h.0 k.0, spend cs h.1 k.1)

  -- The round goes through, and the registry after it is empty.
  reap_idle :
      (w' : World) × (◌≡◌ {A = Option World}
        (elim (reap_now w.registry w.sets) [
          | none ↦ none
          | some (r, sets) ↦ some (record w { registry = r; sets = sets })
        ])
        (some w'))
      × IsEmptied w'.registry
  unfolding reap_now
  reap_idle =
      let (w', e, o') = Keeps-reap w o in
      elim (Option-cases (
        release_sets (sweep w.registry.retired w.sets).1 left
          (sweep w.registry.retired w.sets).2)) [
            | inl h ↦ absurd (stuck w' h (rw (h, reap_now) at e))
            | inr ((r, ss), h) ↦
                let same : record w { registry = r; sets = ss } ≡ w' =
                  some-injective _ w' (rw (h, reap_now) at e) in
                (
                  record w { registry = r; sets = ss },
                  rw (h, reap_now) refl,
                  emptied r ss _ _ _ (sweep-SweptAt w.registry.retired w.sets) (released r ss h).1
                      (subst IsOwned (sym same) o') ((released r ss h).0 ∙ no_survivors),
                )
          ]
    where
      no_survivors : (sweep w.registry.retired w.sets).0 ≡ []
      no_survivors =
          sweep-none w.registry.retired w.sets v.sets.waiting.distinct
            (λ j s g m. ((v.sets.waiting.waiting j s g m).0, (idle_at j s g).1))

      left : Registry
      left = record w.registry { retired = (sweep w.registry.retired w.sets).0 }

      stuck :
          (w' : World)
          → release_sets
              (sweep w.registry.retired w.sets).1
              left
              (sweep w.registry.retired w.sets).2
            ≡ none
          → none ≡ some w'
          → ⊥
      stuck w' h q = absurd cc

      released :
          (r : Registry) (ss : List PlanSet)
          → release_sets
              (sweep w.registry.retired w.sets).1
              left
              (sweep w.registry.retired w.sets).2
            ≡ some (r, ss)
          → ReleasedAll
              (sweep w.registry.retired w.sets).1
              left
              (sweep w.registry.retired w.sets).2
              (some (r, ss))
      released r ss h =
          subst
            (ReleasedAll (sweep w.registry.retired w.sets).1 left
              (sweep w.registry.retired w.sets).2)
            h
            (release_sets-ReleasedAll (sweep w.registry.retired w.sets).1 left
              (sweep w.registry.retired w.sets).2)

emptied-drained : (r : Registry) → IsEmptied r → is_drained r ≡ true
unfolding is_drained
emptied-drained r v = ground (
  arith,
  ap length v.endpoints,
  ap length v.transports,
  ap length v.selections,
  ap length v.health,
  ap length v.budgets,
  ap length v.retired,
  v.active_plan_sets,
  v.live_tunnel_leases,
)

-- After any sequence of actions on a new registry, if nothing is in use any more (each candidate is
-- committed or rolled back, each plan set is retired, without its owner's reference and without a
-- request, and each tunnel lease is released), then one round of the reaper goes through without a panic
-- and leaves the registry as Close waits for it: its five tables are empty, no plan set is active or
-- retired, and no lease is counted.
pub reap-IsEmptied :
    (lib : Compilers) (n : ℕ) (r : Registry) (actions : List Action) (w : World)
    → new_registry n ≡ some r
    → run_all lib (new_world r) actions ≡ some w
    → IsIdle w
    → (w' : World) × (run lib w reap ≡ some w')
      × IsEmptied w'.registry
      × (is_drained w'.registry ≡ true)
unfolding run
reap-IsEmptied lib n r actions w e h z =
    let (w1, q, o) = run_all-Keeps lib (new_world r) actions (new_registry-IsOwned n r e) in
    let (w', g, d) =
      reap_idle w
        (subst Tidies h (run_all-Tidies lib (new_world r) actions (new_world-IsTidy n r e)))
        (subst IsOwned (some-injective w1 w (sym q ∙ h)) o) z in
    (w', g, d, emptied-drained w'.registry d)
