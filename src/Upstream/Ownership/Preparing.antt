-- ===== src/Upstream/Ownership/Preparing.antt =====
-- Prepare of registry.go: what each of its results does to the reference counts.
use g_gateway.Base.{
  ◌+◌, ◌≡◌, refl, ◌∙◌, true, false, ◌||◌, Option, none, some, List, [], ◌∷◌, ◌++◌, Bytes, arith,
  length, leb, Bool-cases, inl, inr,
}
use g_gateway.Model.{Upstream}
use g_gateway.Upstream.Fingerprint.{TransportKey, HealthKey, BudgetKey}
use g_gateway.Upstream.Registry.Shared.{refs, times}
use g_gateway.Upstream.Registry.Keys.{
  SelectionKey, identities, transport_keys, selection_keys, health_keys, budget_keys,
}
use g_gateway.Upstream.Registry.{
  ResourceRefs, no_refs, Registry, Compilers, prepare_plans, Prepared, refused, rolled_back,
  candidate, prepare,
}
use g_gateway.Upstream.Registry.Gains.{Gains, Gains-prepare_plans}
use g_gateway.Upstream.Registry.Losses.{AreTables, Backs, Loses, release_refs-Loses}
use g_gateway.Upstream.Ownership.{Candidate}
use g_gateway.Upstream.Ownership.Machine.{World, prepared}
use g_gateway.Base.Tally.{total-append}
use g_gateway.Upstream.Ownership.Balance.{IsBalanced, IsBalanced-gain, IsBalanced-lose}
use g_gateway.Upstream.Ownership.Invariant.{IsOwned, Keeps}

-- In every table, the second registry has the references of the first one and those of the keys.
pub record Owns (r r' : Registry) (o : ResourceRefs) : Type 0 where
  pub tables : AreTables r'
  pub endpoints :
      (j : Bytes)
      → refs identities r'.endpoints j
        ≡ refs identities r.endpoints j + times identities o.endpoint_ids j
  pub transports :
      (j : TransportKey)
      → refs transport_keys r'.transports j
        ≡ refs transport_keys r.transports j + times transport_keys o.transport_keys j
  pub selections :
      (j : SelectionKey)
      → refs selection_keys r'.selections j
        ≡ refs selection_keys r.selections j + times selection_keys o.selection_keys j
  pub health :
      (j : HealthKey)
      → refs health_keys r'.health j
        ≡ refs health_keys r.health j + times health_keys o.health_keys j
  pub budgets :
      (j : BudgetKey)
      → refs budget_keys r'.budgets j
        ≡ refs budget_keys r.budgets j + times budget_keys o.budget_keys j

Owns-gain : (r r' : Registry) (o : ResourceRefs) → AreTables r → Gains r r' no_refs o → Owns r r' o
Owns-gain r r' o v g = record {
  tables = record {
    endpoints = g.endpoints.valid v.endpoints;
    transports = g.transports.valid v.transports;
    selections = g.selections.valid v.selections;
    health = g.health.valid v.health;
    budgets = g.budgets.valid v.budgets;
  };
  endpoints = λ j. omega (arith, g.endpoints.balance j);
  transports = λ j. omega (arith, g.transports.balance j);
  selections = λ j. omega (arith, g.selections.balance j);
  health = λ j. omega (arith, g.health.balance j);
  budgets = λ j. omega (arith, g.budgets.balance j);
}

Owns-Backs : (r r' : Registry) (o : ResourceRefs) → Owns r r' o → Backs r' o
Owns-Backs r r' o w = record {
  endpoints = λ j. omega (arith, w.endpoints j);
  transports = λ j. omega (arith, w.transports j);
  selections = λ j. omega (arith, w.selections j);
  health = λ j. omega (arith, w.health j);
  budgets = λ j. omega (arith, w.budgets j);
}

Owns-lose :
    (r r' : Registry) (o : ResourceRefs)
    → Owns r r' o
    → (l : Loses r' o) → Owns r l.registry no_refs
Owns-lose r r' o w l = record {
  tables = l.tables;
  endpoints = λ j. omega (arith, w.endpoints j, l.endpoints j);
  transports = λ j. omega (arith, w.transports j, l.transports j);
  selections = λ j. omega (arith, w.selections j, l.selections j);
  health = λ j. omega (arith, w.health j, l.health j);
  budgets = λ j. omega (arith, w.budgets j, l.budgets j);
}

-- Prepare refuses where the registry is closed or keeps too many retired sets; it fails with every
-- reference count as it was; or it succeeds, with the new references those that the candidate owns.
abbrev pub Settles : Registry → Option Prepared → Type 0
Settles r none = ⊥
Settles r (some refused) = (r.closed || leb r.max_retired_snapshots (length r.retired)) ≡ true
Settles r (some (rolled_back r')) = Owns r r' no_refs
Settles r (some (candidate r' o)) = Owns r r' o

module _ (lib : Compilers) where
  gains :
      (r : Registry) (us : List Upstream)
      → Gains r
          (prepare_plans lib us 0 0 (r, no_refs)).0.0
          no_refs
          (prepare_plans lib us 0 0 (r, no_refs)).0.1
  gains r us = Gains-prepare_plans lib us 0 0 (r, no_refs)

  after : (r : Registry) → List Upstream → Registry
  after r us = (prepare_plans lib us 0 0 (r, no_refs)).0.0

  owned_by : (r : Registry) → List Upstream → ResourceRefs
  owned_by r us = (prepare_plans lib us 0 0 (r, no_refs)).0.1

  undo : (r : Registry) (us : List Upstream) → AreTables r → Loses (after r us) (owned_by r us)
  unfolding after owned_by
  undo r us v =
      let w = Owns-gain r (after r us) (owned_by r us) v (gains r us) in
      release_refs-Loses (after r us) (owned_by r us) w.tables
        (Owns-Backs r (after r us) (owned_by r us) w)

  -- The three results of Prepare.
  prepare-cases :
      (P : Option Prepared → Type 0) (r : Registry) (us : List Upstream) (v : AreTables r)
      → ((r.closed || leb r.max_retired_snapshots (length r.retired)) ≡ true → P (some refused))
      → P (some (candidate (after r us) (owned_by r us)))
      → P (some (rolled_back (undo r us v).registry))
      → P (prepare lib r us)
  unfolding prepare after owned_by
  prepare-cases P r us v p q s =
      elim (Bool-cases (r.closed || leb r.max_retired_snapshots (length r.retired))) [
        | inl e ↦ rw (e, prepare) (p e)
        | inr e ↦ elim (Bool-cases (prepare_plans lib us 0 0 (r, no_refs)).1) [
          | inl f ↦ rw (e, f, prepare) q
          | inr f ↦ rw (e, f, (undo r us v).result, prepare) s
        ]
      ]

  -- On a registry whose tables are well formed, Prepare does not panic. Where it refuses, the registry
  -- is closed or keeps too many retired sets; where it fails, the tables are well formed and every
  -- reference count is as before; where it succeeds, the tables are well formed and every reference
  -- count has grown by what the candidate owns.
  pub prepare-Settles :
      (r : Registry) (us : List Upstream) → AreTables r → Settles r (prepare lib r us)
  unfolding after owned_by
  prepare-Settles r us v =
      let w = Owns-gain r (after r us) (owned_by r us) v (gains r us) in
      prepare-cases (Settles r) r us v (λ e. e) w
        (Owns-lose r (after r us) (owned_by r us) w (undo r us v))

  pub Keeps-prepare :
      (w : World) (us : List Upstream)
      → IsOwned w
      → Keeps (elim (prepare lib w.registry us) [ none ↦ none | some p ↦ some (prepared w p) ])
  unfolding after owned_by prepared
  Keeps-prepare w us v =
      prepare-cases (λ o. Keeps (elim o [ none ↦ none | some p ↦ some (prepared w p) ])) r us
        v.balanced.tables (λ _. (w, refl, v))
        (
          _,
          refl,
          record {
            balanced = with_candidate;
            active_count = g.same_active ∙ v.active_count;
            lease_count = g.same_leases ∙ v.lease_count;
            handled = v.handled;
          },
        )
        (
          _,
          refl,
          record {
            balanced =
                IsBalanced-lose (after r us) o (w.candidates ++ c ∷ []) w.candidates w.sets w.sets
                  w.leases l
                  (λ h _.
                    omega
                      (arith, total-append (λ (c : Candidate). h c.owned) w.candidates (c ∷ [])))
                  with_candidate;
            active_count = l.same_active ∙ g.same_active ∙ v.active_count;
            lease_count = l.same_leases ∙ g.same_leases ∙ v.lease_count;
            handled = v.handled;
          },
        )
    where
      r : Registry
      r = w.registry

      o : ResourceRefs
      o = owned_by r us

      c : Candidate
      c = record { owned = o; done = false }

      g : Gains r (after r us) no_refs o
      g = gains r us

      l : Loses (after r us) o
      l = undo r us v.balanced.tables

      with_candidate : IsBalanced (after r us) (w.candidates ++ c ∷ []) w.sets w.leases
      with_candidate = IsBalanced-gain r (after r us) o w.candidates w.sets w.leases g v.balanced
