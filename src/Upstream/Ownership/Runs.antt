-- ===== src/Upstream/Ownership/Runs.antt =====
-- Every sequence of actions on the registry and its owners.
use g_gateway.Base.{
  ℕ, ◌+◌, ◌≡◌, refl, ap, subst, ◌∙◌, ◌||◌, ltb, Bool-cases, inl, inr, some-injective, true, false,
  none, some, List, [], ◌∷◌, arith, All,
}
use g_gateway.Upstream.Registry.Shared.{times, empty_table}
use g_gateway.Upstream.Registry.Keys.{
  identities, transport_keys, selection_keys, health_keys, budget_keys,
}
use g_gateway.Upstream.Registry.{ResourceRefs, no_refs, Registry, Compilers, new_registry}
use g_gateway.Upstream.Ownership.{Candidate, PlanSet, TunnelLease}
use g_gateway.Upstream.Ownership.Machine.{
  World, Action, preparation, commit, rollback, enter, leave, mark, register, drop_owner, reap, pin,
  unpin, run, run_all, commit_candidate, rollback_candidate, enter_set, leave_set, mark_set,
  register_set, drop_set, release_pinned,
}
use g_gateway.Base.Tally.{total}
use g_gateway.Upstream.Ownership.Balance.{held}
use g_gateway.Upstream.Ownership.Invariant.{
  IsOwned, Keeps, unreleased, Keeps-with_elem, Keeps-commit_candidate, Keeps-rollback_candidate,
  Keeps-enter_set, Keeps-leave_set, Keeps-mark_set, Keeps-register_set, Keeps-drop_set,
}
use g_gateway.Upstream.Ownership.Preparing.{Keeps-prepare}
use g_gateway.Upstream.Ownership.Reaping.{Keeps-reap}
use g_gateway.Upstream.Ownership.Leases.{Keeps-pin, Keeps-release_pinned}

-- A new registry has no owners.
abbrev pub new_world : Registry → World
new_world r = record { registry = r; candidates = []; sets = []; leases = [] }

abbrev empty_registry : ℕ → Registry
empty_registry n = record {
  max_retired_snapshots = n;
  closed = false;
  endpoints = [];
  transports = [];
  selections = [];
  health = [];
  budgets = [];
  allocated = 0;
  generation = 0;
  active_plan_sets = 0;
  live_tunnel_leases = 0;
  retired = [];
}

-- A new registry without owners has the invariant.
pub new_registry-IsOwned : (n : ℕ) (r : Registry) → new_registry n ≡ some r → IsOwned (new_world r)
unfolding new_registry
new_registry-IsOwned n r e = elim (Bool-cases (ltb n 1 || ltb 1024 n)) [
  | inl f ↦ absurd (clash (rw f at e))
  | inr f ↦ subst (λ x. IsOwned (new_world x)) (some-injective _ r (rw f at e)) fresh
]
  where
    clash : (none ≡ some r) → ⊥
    clash h = absurd cc

    fresh : IsOwned (new_world (empty_registry n))
    fresh = record {
      balanced = record {
        tables = record {
          endpoints = tt;
          transports = tt;
          selections = tt;
          health = tt;
          budgets = tt;
        };
        endpoints = λ j. refl;
        transports = λ j. refl;
        selections = λ j. refl;
        health = λ j. refl;
        budgets = λ j. refl;
        pinned = tt;
      };
      active_count = refl;
      lease_count = refl;
      handled = tt;
    }

module _ (lib : Compilers) where
  -- Every action on a registry and owners with the invariant goes through without a panic, and keeps the
  -- invariant.
  pub run-Keeps : (w : World) (a : Action) → IsOwned w → Keeps (run lib w a)
  unfolding run
  run-Keeps w (preparation us) v = Keeps-prepare lib w us v
  run-Keeps w (commit i) v =
      Keeps-with_elem w commit_candidate w.candidates i v (λ c e. Keeps-commit_candidate w i c v e)
  run-Keeps w (rollback i) v =
      Keeps-with_elem w rollback_candidate w.candidates i v
        (λ c e. Keeps-rollback_candidate w i c v e)
  run-Keeps w (enter i) v =
      Keeps-with_elem w enter_set w.sets i v (λ s e. Keeps-enter_set w i s v e)
  run-Keeps w (leave i) v =
      Keeps-with_elem w leave_set w.sets i v (λ s e. Keeps-leave_set w i s v e)
  run-Keeps w (mark i) v = Keeps-with_elem w mark_set w.sets i v (λ s e. Keeps-mark_set w i s v e)
  run-Keeps w (register i) v =
      Keeps-with_elem w register_set w.sets i v (λ s e. Keeps-register_set w i s v e)
  run-Keeps w (drop_owner i) v =
      Keeps-with_elem w drop_set w.sets i v (λ s e. Keeps-drop_set w i s v e)
  run-Keeps w reap v = Keeps-reap w v
  run-Keeps w (pin key n) v = Keeps-pin w key n v
  run-Keeps w (unpin i) v =
      Keeps-with_elem w release_pinned w.leases i v (λ l e. Keeps-release_pinned w i l v e)

  -- Every sequence of actions on a registry and owners with the invariant, in whatever order, goes
  -- through without a panic and keeps the invariant.
  pub run_all-Keeps :
      (w : World) (actions : List Action) → IsOwned w → Keeps (run_all lib w actions)
  unfolding run_all
  run_all-Keeps w [] v = (w, refl, v)
  run_all-Keeps w (a ∷ rest) v =
      let (w', e, v') = run-Keeps w a v in rw (e, run_all) (run_all-Keeps w' rest v')

-- Owners that own nothing.
abbrev pub OwnNothing : World → Type 0
OwnNothing w =
    All (λ c. c.owned ≡ no_refs) w.candidates
    × All (λ s. s.owned ≡ no_refs) w.sets
    × All (λ l. l.released ≡ true) w.leases

total-zero :
    {A : Type 0} (P : A → Type 0) (g : A → ℕ) (xs : List A)
    → ((x : A) → P x → g x ≡ 0)
    → All P xs
    → total g xs ≡ 0
total-zero P g [] h p = refl
total-zero P g (x ∷ xs) h p = omega (arith, h x p.0, total-zero P g xs h p.1)

module _ (w : World) (v : IsOwned w) (z : OwnNothing w) where
  owe_nothing :
      (g : ResourceRefs → ℕ)
      → g no_refs ≡ 0
      → total (λ c. g c.owned) w.candidates + total (λ s. g s.owned) w.sets ≡ 0
  owe_nothing g h = omega (
    arith,
    total-zero (λ (c : Candidate). c.owned ≡ no_refs) (λ c. g c.owned) w.candidates
        (λ c e. ap g e ∙ h) z.0,
    total-zero (λ (s : PlanSet). s.owned ≡ no_refs) (λ s. g s.owned) w.sets (λ s e. ap g e ∙ h) z.1,
  )

  -- Where the registry and its owners have the invariant and no owner owns anything, the registry's five
  -- tables are empty, and no lease is counted.
  pub IsOwned-OwnNothing :
      (w.registry.endpoints ≡ [])
      × (w.registry.transports ≡ [])
      × (w.registry.selections ≡ [])
      × (w.registry.health ≡ [])
      × (w.registry.budgets ≡ [])
      × (w.registry.live_tunnel_leases ≡ 0)
  IsOwned-OwnNothing = (
    empty_table identities _ v.balanced.tables.endpoints
        (λ j. v.balanced.endpoints j ∙ owe_nothing (λ o. times identities o.endpoint_ids j) refl),
    empty_table transport_keys _ v.balanced.tables.transports (λ j. omega (
      arith,
      v.balanced.transports j,
      owe_nothing (λ o. times transport_keys o.transport_keys j) refl,
      total-zero (λ (l : TunnelLease). l.released ≡ true) (held j) w.leases (λ l e. rw e refl) z.2,
    )),
    empty_table selection_keys _ v.balanced.tables.selections (λ j.
        v.balanced.selections j ∙ owe_nothing (λ o. times selection_keys o.selection_keys j) refl),
    empty_table health_keys _ v.balanced.tables.health
        (λ j. v.balanced.health j ∙ owe_nothing (λ o. times health_keys o.health_keys j) refl),
    empty_table budget_keys _ v.balanced.tables.budgets
        (λ j. v.balanced.budgets j ∙ owe_nothing (λ o. times budget_keys o.budget_keys j) refl),
    v.lease_count
        ∙ total-zero (λ (l : TunnelLease). l.released ≡ true) unreleased w.leases (λ l e. rw e refl)
            z.2,
  )
