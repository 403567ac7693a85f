-- ===== src/Upstream/Ownership/Balance.antt =====
-- The balance of the registry and its owners: in every table, a key is referenced exactly as often as
-- the candidates, the plan sets and the leases own it.
use g_gateway.Base.{
  ℕ, ◌+◌, ◌≤◌, ◌<◌, ◌≡◌, refl, sym, subst, ◌∙◌, false, List, [], ◌∷◌, ◌++◌, Bytes, arith, All,
  if◌then◌else◌,
}
use g_gateway.Upstream.Fingerprint.{TransportKey, HealthKey, BudgetKey}
use g_gateway.Upstream.Registry.Shared.{EqKey, refs, times, one_if, one_if_self, runtime, IsTable}
use g_gateway.Upstream.Registry.Keys.{
  SelectionKey, identities, transport_keys, selection_keys, health_keys, budget_keys,
}
use g_gateway.Upstream.Registry.{ResourceRefs, no_refs, Registry}
use g_gateway.Upstream.Registry.Gains.{Gains}
use g_gateway.Upstream.Registry.Losses.{AreTables, Backs, Loses}
use g_gateway.Upstream.Ownership.{Candidate, PlanSet, TunnelLease}
use g_gateway.Base.Tally.{total, total-append}

-- What the leases hold of a transport.
abbrev pub held : TransportKey → TunnelLease → ℕ
held j l = if l.released then 0 else one_if transport_keys l.key j

-- A lease that is not released is of the transport that its key has in the registry.
abbrev pub IsPinned : Registry → TunnelLease → Type 0
IsPinned r l = l.released ≡ false → runtime transport_keys r.transports l.key ≡ l.runtime

module _ {K : Type 0} (E : EqKey K) (f : ResourceRefs → List K) where
  -- How often the candidates and the plan sets own a key of a table.
  abbrev pub owed : List Candidate → List PlanSet → K → ℕ
  owed cs ss j = total (λ c. times E (f c.owned) j) cs + total (λ s. times E (f s.owned) j) ss

pub record IsBalanced (r : Registry) (cs : List Candidate) (ss : List PlanSet)
    (ls : List TunnelLease) : Type 0 where
  pub tables : AreTables r
  pub endpoints :
      (j : Bytes) → refs identities r.endpoints j ≡ owed identities (λ o. o.endpoint_ids) cs ss j
  pub transports :
      (j : TransportKey)
      → refs transport_keys r.transports j
        ≡ owed transport_keys (λ o. o.transport_keys) cs ss j + total (held j) ls
  pub selections :
      (j : SelectionKey)
      → refs selection_keys r.selections j ≡ owed selection_keys (λ o. o.selection_keys) cs ss j
  pub health :
      (j : HealthKey) → refs health_keys r.health j ≡ owed health_keys (λ o. o.health_keys) cs ss j
  pub budgets :
      (j : BudgetKey) → refs budget_keys r.budgets j ≡ owed budget_keys (λ o. o.budget_keys) cs ss j
  pub pinned : All (IsPinned r) ls

-- Leases stay pinned where the registry keeps the transports that they hold.
pub All-IsPinned :
    (r r' : Registry) (ls : List TunnelLease)
    → ((j : TransportKey)
        → 0 < total (held j) ls
        → runtime transport_keys r'.transports j ≡ runtime transport_keys r.transports j)
    → All (IsPinned r) ls
    → All (IsPinned r') ls
All-IsPinned r r' [] h p = tt
All-IsPinned r r' (l ∷ ls) h p =
    (λ e. h l.key (own e) ∙ p.0 e, All-IsPinned r r' ls (λ j q. h j (omega (arith, q))) p.1)
  where
    own : l.released ≡ false → 0 < total (held l.key) (l ∷ ls)
    own e = rw e (omega (arith, one_if_self transport_keys l.key))

-- Owners that own the same, taken together, keep the balance.
pub IsBalanced-shift :
    (r r' : Registry) (cs cs' : List Candidate) (ss ss' : List PlanSet) (ls : List TunnelLease)
    → r'.endpoints ≡ r.endpoints
    → r'.transports ≡ r.transports
    → r'.selections ≡ r.selections
    → r'.health ≡ r.health
    → r'.budgets ≡ r.budgets
    → ((g : ResourceRefs → ℕ)
        → g no_refs ≡ 0
        → total (λ c. g c.owned) cs' + total (λ s. g s.owned) ss'
          ≡ total (λ c. g c.owned) cs + total (λ s. g s.owned) ss)
    → IsBalanced r cs ss ls
    → IsBalanced r' cs' ss' ls
IsBalanced-shift r r' cs cs' ss ss' ls e t s h b k v = record {
  tables = record {
    endpoints = subst (IsTable identities) (sym e) v.tables.endpoints;
    transports = subst (IsTable transport_keys) (sym t) v.tables.transports;
    selections = subst (IsTable selection_keys) (sym s) v.tables.selections;
    health = subst (IsTable health_keys) (sym h) v.tables.health;
    budgets = subst (IsTable budget_keys) (sym b) v.tables.budgets;
  };
  endpoints = λ j. rw e (v.endpoints j ∙ sym (k (λ o. times identities o.endpoint_ids j) refl));
  transports = λ j.
      rw t (omega (arith, v.transports j, k (λ o. times transport_keys o.transport_keys j) refl));
  selections =
      λ j. rw s (v.selections j ∙ sym (k (λ o. times selection_keys o.selection_keys j) refl));
  health = λ j. rw h (v.health j ∙ sym (k (λ o. times health_keys o.health_keys j) refl));
  budgets = λ j. rw b (v.budgets j ∙ sym (k (λ o. times budget_keys o.budget_keys j) refl));
  pinned = All-IsPinned r r' ls (λ j q. rw t refl) v.pinned;
}

-- A preparation's references are those of the new candidate.
pub IsBalanced-gain :
    (r r' : Registry) (o : ResourceRefs) (cs : List Candidate) (ss : List PlanSet)
    (ls : List TunnelLease)
    → Gains r r' no_refs o
    → IsBalanced r cs ss ls
    → IsBalanced r' (cs ++ record { owned = o; done = false } ∷ []) ss ls
IsBalanced-gain r r' o cs ss ls g v = record {
  tables = record {
    endpoints = g.endpoints.valid v.tables.endpoints;
    transports = g.transports.valid v.tables.transports;
    selections = g.selections.valid v.tables.selections;
    health = g.health.valid v.tables.health;
    budgets = g.budgets.valid v.tables.budgets;
  };
  endpoints = λ j. omega (
    arith,
    v.endpoints j,
    g.endpoints.balance j,
    more (λ o'. times identities o'.endpoint_ids j),
  );
  transports = λ j. omega (
    arith,
    v.transports j,
    g.transports.balance j,
    more (λ o'. times transport_keys o'.transport_keys j),
  );
  selections = λ j. omega (
    arith,
    v.selections j,
    g.selections.balance j,
    more (λ o'. times selection_keys o'.selection_keys j),
  );
  health = λ j.
      omega
        (arith, v.health j, g.health.balance j, more (λ o'. times health_keys o'.health_keys j));
  budgets = λ j.
      omega
        (arith, v.budgets j, g.budgets.balance j, more (λ o'. times budget_keys o'.budget_keys j));
  pinned =
      All-IsPinned r r' ls (λ j q. g.transports.stable j (omega (arith, v.transports j))) v.pinned;
}
  where
    more :
        (h : ResourceRefs → ℕ)
        → total (λ c. h c.owned) (cs ++ record { owned = o; done = false } ∷ [])
          ≡ total (λ c. h c.owned) cs + h o
    more h = omega (
      arith,
      total-append (λ (c : Candidate). h c.owned) cs (record { owned = o; done = false } ∷ []),
    )

-- An owner that owns nothing any more has given it back.
pub IsBalanced-lose :
    (r : Registry) (o : ResourceRefs) (cs cs' : List Candidate) (ss ss' : List PlanSet)
    (ls : List TunnelLease) (l : Loses r o)
    → ((g : ResourceRefs → ℕ)
        → g no_refs ≡ 0
        → total (λ c. g c.owned) cs' + total (λ s. g s.owned) ss' + g o
          ≡ total (λ c. g c.owned) cs + total (λ s. g s.owned) ss)
    → IsBalanced r cs ss ls
    → IsBalanced l.registry cs' ss' ls
IsBalanced-lose r o cs cs' ss ss' ls l k v = record {
  tables = l.tables;
  endpoints = λ j.
      omega
        (arith, v.endpoints j, l.endpoints j, k (λ o'. times identities o'.endpoint_ids j) refl);
  transports = transports';
  selections = λ j. omega (
    arith,
    v.selections j,
    l.selections j,
    k (λ o'. times selection_keys o'.selection_keys j) refl,
  );
  health =
      λ j. omega (arith, v.health j, l.health j, k (λ o'. times health_keys o'.health_keys j) refl);
  budgets = λ j.
      omega (arith, v.budgets j, l.budgets j, k (λ o'. times budget_keys o'.budget_keys j) refl);
  pinned = All-IsPinned r l.registry ls (λ j q. l.stable j (omega (arith, transports' j))) v.pinned;
}
  where
    transports' :
        (j : TransportKey)
        → refs transport_keys l.registry.transports j
          ≡ owed transport_keys (λ o'. o'.transport_keys) cs' ss' j + total (held j) ls
    transports' j = omega (
      arith,
      v.transports j,
      l.transports j,
      k (λ o'. times transport_keys o'.transport_keys j) refl,
    )

-- What an owner owns is referenced.
pub IsBalanced-Backs :
    (r : Registry) (o : ResourceRefs) (cs : List Candidate) (ss : List PlanSet)
    (ls : List TunnelLease)
    → ((g : ResourceRefs → ℕ) → g o ≤ total (λ c. g c.owned) cs + total (λ s. g s.owned) ss)
    → IsBalanced r cs ss ls
    → Backs r o
IsBalanced-Backs r o cs ss ls k v = record {
  endpoints = λ j. omega (arith, v.endpoints j, k (λ o'. times identities o'.endpoint_ids j));
  transports =
      λ j. omega (arith, v.transports j, k (λ o'. times transport_keys o'.transport_keys j));
  selections =
      λ j. omega (arith, v.selections j, k (λ o'. times selection_keys o'.selection_keys j));
  health = λ j. omega (arith, v.health j, k (λ o'. times health_keys o'.health_keys j));
  budgets = λ j. omega (arith, v.budgets j, k (λ o'. times budget_keys o'.budget_keys j));
}
