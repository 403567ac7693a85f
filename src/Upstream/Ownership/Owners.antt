-- ===== src/Upstream/Ownership/Owners.antt =====
-- Candidates and leases keep the plan sets tidy.
use g_gateway.Base.{
  ℕ, ◌≡◌, refl, ap, subst, ◌∙◌, inl, inr, true, false, not, ◌||◌, Option, none, some, List, [], ◌∷◌,
  ◌++◌, arith, ◌==◌, Bool-cases, Option-cases, leb, length,
}
use g_gateway.Base.Tally.{get_elem?-append, All-set, All-snoc}
use g_gateway.Model.{Upstream}
use g_gateway.Upstream.Fingerprint.{TransportKey}
use g_gateway.Upstream.Registry.Shared.{find, release}
use g_gateway.Upstream.Registry.Keys.{transport_keys}
use g_gateway.Upstream.Registry.{no_refs, Registry, Compilers, prepare, prepare_plans, release_refs}
use g_gateway.Upstream.Registry.Gains.{Gains, Gains-prepare_plans}
use g_gateway.Upstream.Ownership.{
  Candidate, TunnelLease, new_plan_set, count_active, finish_candidate, acquire_lease,
  release_lease,
}
use g_gateway.Upstream.Ownership.Machine.{
  World, commit_candidate, rollback_candidate, release_pinned, prepared,
}
use g_gateway.Upstream.Ownership.Invariant.{opens}
use g_gateway.Upstream.Ownership.Sweeping.{release_refs-retired}
use g_gateway.Upstream.Ownership.Waiting.{IsWaiting-snoc}
use g_gateway.Upstream.Ownership.Tidy.{IsSpent, IsTidy, Tidies, same_retired}

module _ (w : World) (i : ℕ) (c : Candidate) (v : IsTidy w) where
  pub Tidies-commit_candidate : Tidies (commit_candidate w i c)
  unfolding commit_candidate finish_candidate new_plan_set count_active
  Tidies-commit_candidate = elim (Bool-cases c.done) [
    | inl d ↦ rw (d, commit_candidate) v
    | inr d ↦
        rw (d, commit_candidate)
          (record {
            spent = All-set IsSpent w.candidates i _ v.spent (λ _. refl);
            sets = record {
              waiting =
                  IsWaiting-snoc w.registry.retired w.sets (new_plan_set c.owned) v.sets.waiting
                    refl;
              finished = λ j s g f. elim (get_elem?-append w.sets j s (new_plan_set c.owned) g) [
                | inl (_, same) ↦ absurd (clash (ap (λ x. x.finalized) same ∙ f))
                | inr h ↦ v.sets.finished j s h f
              ];
              listed = λ j s g z f. elim (get_elem?-append w.sets j s (new_plan_set c.owned) g) [
                | inl (_, same) ↦ absurd (omega (arith, ap opens same, z))
                | inr h ↦ v.sets.listed j s h z f
              ];
            };
          })
  ]
    where
      clash : false ≡ true → ⊥
      clash q = absurd cc

  pub Tidies-rollback_candidate : Tidies (rollback_candidate w i c)
  unfolding rollback_candidate finish_candidate
  Tidies-rollback_candidate = elim (Bool-cases c.done) [
    | inl d ↦ rw (d, rollback_candidate) v
    | inr d ↦ elim (Option-cases (release_refs w.registry c.owned)) [
      | inl e ↦ rw (d, e, rollback_candidate) tt
      | inr ((r, closing), e) ↦
          rw (d, e, rollback_candidate)
            (record {
              spent = All-set IsSpent w.candidates i _ v.spent (λ _. refl);
              sets =
                  same_retired w.registry r w.sets
                    (release_refs-retired w.registry r c.owned closing e) v.sets;
            })
    ]
  ]

abbrev SameLeased : Registry → Option (Registry × Option ℕ) → Type 0
SameLeased r none = Unit
SameLeased r (some (r', _)) = r'.retired ≡ r.retired

release_lease-SameLeased :
    (r : Registry) (key : TransportKey) (n : ℕ) → SameLeased r (release_lease r key n)
unfolding release_lease
release_lease-SameLeased r key n = elim (Option-cases (find transport_keys r.transports key)) [
  | inl e ↦ rw (e, release_lease) tt
  | inr (x, e) ↦
      elim (Bool-cases (not (x.runtime == n) || x.refs == 0 || r.live_tunnel_leases == 0)) [
        | inl f ↦ rw (e, f, release_lease) tt
        | inr f ↦ elim (Option-cases (release transport_keys r.transports key)) [
          | inl g ↦ rw (e, f, g, release_lease) tt
          | inr ((t, d), g) ↦ rw (e, f, g, release_lease) refl
        ]
      ]
]

abbrev SamePinned : Registry → Option Registry → Type 0
SamePinned r none = Unit
SamePinned r (some r') = r'.retired ≡ r.retired

acquire_lease-SamePinned :
    (r : Registry) (key : TransportKey) (n : ℕ) → SamePinned r (acquire_lease r key n)
unfolding acquire_lease
acquire_lease-SamePinned r key n = elim (Option-cases (find transport_keys r.transports key)) [
  | inl e ↦ rw (e, acquire_lease) tt
  | inr (x, e) ↦ elim (Bool-cases (not (x.runtime == n) || x.refs == 0)) [
    | inl f ↦ rw (e, f, acquire_lease) tt
    | inr f ↦ rw (e, f, acquire_lease) refl
  ]
]

module _ (w : World) (v : IsTidy w) where
  pub Tidies-release_pinned : (i : ℕ) (l : TunnelLease) → Tidies (release_pinned w i l)
  unfolding release_pinned
  Tidies-release_pinned i l = elim (Bool-cases l.released) [
    | inl d ↦ rw (d, release_pinned) v
    | inr d ↦ elim (Option-cases (release_lease w.registry l.key l.runtime)) [
      | inl e ↦ rw (d, e, release_pinned) tt
      | inr ((r, closing), e) ↦
          rw (d, e, release_pinned)
            (record {
              spent = v.spent;
              sets =
                  same_retired w.registry r w.sets
                    (subst (SameLeased w.registry) e
                      (release_lease-SameLeased w.registry l.key l.runtime))
                    v.sets;
            })
    ]
  ]

  pub Tidies-pin :
      (key : TransportKey) (n : ℕ)
      → Tidies (elim (acquire_lease w.registry key n) [
        | none ↦ some w
        | some r ↦ some (record w {
          registry = r;
          leases = w.leases ++ record { key = key; runtime = n; released = false } ∷ [];
        })
      ])
  Tidies-pin key n = elim (Option-cases (acquire_lease w.registry key n)) [
    | inl e ↦ rw e v
    | inr (r, e) ↦ rw e (record {
      spent = v.spent;
      sets =
          same_retired w.registry r w.sets
            (subst (SamePinned w.registry) e (acquire_lease-SamePinned w.registry key n)) v.sets;
    })
  ]

  pub Tidies-prepare :
      (lib : Compilers) (us : List Upstream)
      → Tidies (elim (prepare lib w.registry us) [ none ↦ none | some p ↦ some (prepared w p) ])
  unfolding prepare prepared
  Tidies-prepare lib us =
      elim (Bool-cases
        (w.registry.closed || leb w.registry.max_retired_snapshots (length w.registry.retired))) [
          | inl e ↦ rw (e, prepare) v
          | inr e ↦ elim (Bool-cases (prepare_plans lib us 0 0 (w.registry, no_refs)).1) [
            | inl f ↦
                rw (e, f, prepare)
                  (record {
                    spent =
                        All-snoc IsSpent w.candidates _ v.spent (λ (q : false ≡ true). absurd cc);
                    sets = same_retired w.registry after w.sets g.same_retired v.sets;
                  })
            | inr f ↦
                elim (Option-cases
                  (release_refs after (prepare_plans lib us 0 0 (w.registry, no_refs)).0.1)) [
                    | inl h ↦ rw (e, f, h, prepare) tt
                    | inr ((r, closing), h) ↦
                        rw (e, f, h, prepare)
                          (record {
                            spent = v.spent;
                            sets =
                                same_retired w.registry r w.sets
                                  (release_refs-retired after r
                                      (prepare_plans lib us 0 0 (w.registry, no_refs)).0.1 closing h
                                    ∙ g.same_retired)
                                  v.sets;
                          })
                  ]
          ]
        ]
    where
      after : Registry
      after = (prepare_plans lib us 0 0 (w.registry, no_refs)).0.0

      g : Gains w.registry after no_refs (prepare_plans lib us 0 0 (w.registry, no_refs)).0.1
      g = Gains-prepare_plans lib us 0 0 (w.registry, no_refs)
