-- ===== src/Upstream/Ownership/Emptied.antt =====
-- The plan sets between and after the loops of the reaper, and every run of actions keeps them tidy.
use g_gateway.Base.{
  ltb, ◌||◌, length, ◌<◌, some-injective, ℕ, ◌≡◌, sym, ap, subst, ◌∙◌, inl, inr, Bool, true, false,
  Option, none, some, List, [], ◌∷◌, arith, get_elem?, In, ◌==◌, Bool-cases, Option-cases,
}
use g_gateway.Upstream.Registry.{new_registry, no_refs, Registry, Compilers}
use g_gateway.Upstream.Ownership.{PlanSet, sweep, release_sets, reap_now}
use g_gateway.Upstream.Ownership.Machine.{
  World, Action, preparation, commit, rollback, enter, leave, mark, register, drop_owner, reap, pin,
  unpin, run, run_all, commit_candidate, rollback_candidate, enter_set, leave_set, mark_set,
  register_set, drop_set, release_pinned,
}
use g_gateway.Upstream.Ownership.Invariant.{opens}
use g_gateway.Upstream.Ownership.Runs.{new_world}
use g_gateway.Upstream.Ownership.Sweeping.{
  SweptAt, sweep-SweptAt, ReleasedAt, ReleasedAll, release_sets-ReleasedAll,
}
use g_gateway.Upstream.Ownership.Waiting.{IsWaiting, sweep-IsWaiting, release_sets-length}
use g_gateway.Upstream.Ownership.Tidy.{
  AreTidy, IsTidy, Tidies, Tidies-with_elem, Tidies-enter_set, Tidies-leave_set, Tidies-mark_set,
  Tidies-register_set, Tidies-drop_set,
}
use g_gateway.Upstream.Ownership.Owners.{
  Tidies-commit_candidate, Tidies-rollback_candidate, Tidies-release_pinned, Tidies-pin,
  Tidies-prepare,
}

clash : {b : Bool} → b ≡ false → b ≡ true → ⊥
clash u v = cc

-- The plan sets between and after the loops of the reaper.
module _ (w : World) (v : IsTidy w) (r : Registry) (ss between : List PlanSet)
    (kept finalized : List ℕ)
    (swept : (j : ℕ) (s : PlanSet)
      → get_elem? between j ≡ some s
      → SweptAt w.registry.retired w.sets kept finalized j s)
    (released : (j : ℕ) (s : PlanSet)
      → get_elem? ss j ≡ some s
      → ReleasedAt finalized between j s) where
  finished_at :
      (j : ℕ) (s : PlanSet)
      → ReleasedAt finalized between j s
      → s.finalized ≡ true
      → s.owned ≡ no_refs
  finished_at j s (t, h, inr same) f = ap (λ x. x.owned) same
  finished_at j s (t, h, inl (same, m)) f = elim (swept j t h) [
    | inl (g, _, _) ↦
        ap (λ x. x.owned) same ∙ v.sets.finished j t g (sym (ap (λ x. x.finalized) same) ∙ f)
    | inr (n, _) ↦ absurd (m n)
  ]

  -- What a set was between the loops.
  before :
      (j : ℕ) (s : PlanSet)
      → ReleasedAt finalized between j s
      → (t : PlanSet) × (get_elem? between j ≡ some t)
        × (s.finalized ≡ t.finalized)
        × (opens s ≡ opens t)
  before j s (t, h, inr same) = (t, h, ap (λ x. x.finalized) same, ap opens same)
  before j s (t, h, inl (same, _)) = (t, h, ap (λ x. x.finalized) same, ap opens same)

  listed_at :
      (j : ℕ) (s : PlanSet)
      → ReleasedAt finalized between j s
      → opens s ≡ 0
      → s.finalized ≡ false
      → In j kept
  listed_at j s e z f =
      let (t, h, p, q) = before j s e in
      elim (swept j t h) [
        | inl (g, k, _) ↦ k (v.sets.listed j t g (sym q ∙ z) (sym p ∙ f))
        | inr (_, (u, _, same)) ↦ absurd (clash (sym p ∙ f) (ap (λ x. x.finalized) same))
      ]

  reaped-IsWaiting : length ss ≡ length between → IsWaiting kept between → IsWaiting kept ss
  reaped-IsWaiting l b = record {
    known = λ j m. subst (λ n. j < n) (sym l) (b.known j m);
    waiting = λ j s g m.
        let (t, h, p, q) = before j s (released j s g) in
        let x = b.waiting j t h m in (p ∙ x.0, q ∙ x.1);
    closed =
        λ j s g f. let (t, h, p, q) = before j s (released j s g) in q ∙ b.closed j t h (sym p ∙ f);
    distinct = b.distinct;
  }

  reaped-AreTidy :
      r.retired ≡ kept → length ss ≡ length between → IsWaiting kept between → AreTidy r ss
  reaped-AreTidy e l b = record {
    waiting = subst (λ x. IsWaiting x ss) (sym e) (reaped-IsWaiting l b);
    finished = λ j s g f. finished_at j s (released j s g) f;
    listed = λ j s g z f. subst (In j) (sym e) (listed_at j s (released j s g) z f);
  }

  -- Where every set is registered and has no references, none owns anything after the loops.
  pub owns_nothing_at :
      ((j : ℕ) (s : PlanSet) → get_elem? w.sets j ≡ some s → (opens s ≡ 0) × (s.refs ≡ 0))
      → (j : ℕ) (s : PlanSet) → ReleasedAt finalized between j s
      → s.owned ≡ no_refs
  owns_nothing_at idle j s (t, h, inr same) = ap (λ x. x.owned) same
  owns_nothing_at idle j s (t, h, inl (same, m)) = elim (swept j t h) [
    | inr (n, _) ↦ absurd (m n)
    | inl (g, _, busy) ↦ elim (Bool-cases t.finalized) [
      | inl f ↦ ap (λ x. x.owned) same ∙ v.sets.finished j t g f
      | inr f ↦ absurd (referenced t (busy (v.sets.listed j t g (idle j t g).0 f) f) (idle j t g).1)
    ]
  ]
    where
      referenced : (t : PlanSet) → (t.refs == 0) ≡ false → t.refs ≡ 0 → ⊥
      referenced t a b = ground (arith, a, b)

  -- The reaper leaves the phase of a set.
  pub opens_at :
      ((j : ℕ) (s : PlanSet) → get_elem? w.sets j ≡ some s → (opens s ≡ 0) × (s.refs ≡ 0))
      → (j : ℕ) (s : PlanSet) → ReleasedAt finalized between j s
      → opens s ≡ 0
  opens_at idle j s e =
      let (t, h, _, q) = before j s e in
      elim (swept j t h) [
        | inl (g, _, _) ↦ q ∙ (idle j t g).0
        | inr (_, (u, g, same)) ↦ q ∙ ap opens same ∙ (idle j u g).0
      ]

abbrev in_world : World → Option (Registry × List PlanSet) → Option World
in_world w none = none
in_world w (some (r, ss)) = some (record w { registry = r; sets = ss })

pub Tidies-reap :
    (w : World)
    → IsTidy w
    → Tidies (elim (reap_now w.registry w.sets) [
      | none ↦ none
      | some (r, sets) ↦ some (record w { registry = r; sets = sets })
    ])
unfolding reap_now
Tidies-reap w v =
    elim (Option-cases
      (release_sets (sweep w.registry.retired w.sets).1 left (sweep w.registry.retired w.sets).2)) [
        | inl e ↦ rw (e, reap_now) tt
        | inr ((r, ss), e) ↦
            let h = released r ss e in
            rw (e, reap_now)
              (record {
                spent = v.spent;
                sets =
                    reaped-AreTidy w v r ss _ _ _ (sweep-SweptAt w.registry.retired w.sets) h.1 h.0
                      (release_sets-length (sweep w.registry.retired w.sets).1 left
                        (sweep w.registry.retired w.sets).2 r ss e)
                      (sweep-IsWaiting w.registry.retired w.sets v.sets.waiting);
              })
      ]
  where
    left : Registry
    left = record w.registry { retired = (sweep w.registry.retired w.sets).0 }

    released :
        (r : Registry) (ss : List PlanSet)
        → release_sets (sweep w.registry.retired w.sets).1 left (sweep w.registry.retired w.sets).2
          ≡ some (r, ss)
        → ReleasedAll
            (sweep w.registry.retired w.sets).1
            left
            (sweep w.registry.retired w.sets).2
            (some (r, ss))
    released r ss e =
        subst
          (ReleasedAll (sweep w.registry.retired w.sets).1 left (sweep w.registry.retired w.sets).2)
          e
          (release_sets-ReleasedAll (sweep w.registry.retired w.sets).1 left
            (sweep w.registry.retired w.sets).2)

module _ (lib : Compilers) where
  run-Tidies : (w : World) (a : Action) → IsTidy w → Tidies (run lib w a)
  unfolding run
  run-Tidies w (preparation us) v = Tidies-prepare w v lib us
  run-Tidies w (commit i) v =
      Tidies-with_elem w commit_candidate w.candidates i v (λ c e. Tidies-commit_candidate w i c v)
  run-Tidies w (rollback i) v =
      Tidies-with_elem w rollback_candidate w.candidates i v
        (λ c e. Tidies-rollback_candidate w i c v)
  run-Tidies w (enter i) v =
      Tidies-with_elem w enter_set w.sets i v (λ s e. Tidies-enter_set w i s v e)
  run-Tidies w (leave i) v =
      Tidies-with_elem w leave_set w.sets i v (λ s e. Tidies-leave_set w i s v e)
  run-Tidies w (mark i) v =
      Tidies-with_elem w mark_set w.sets i v (λ s e. Tidies-mark_set w i s v e)
  run-Tidies w (register i) v =
      Tidies-with_elem w register_set w.sets i v (λ s e. Tidies-register_set w i s v e)
  run-Tidies w (drop_owner i) v =
      Tidies-with_elem w drop_set w.sets i v (λ s e. Tidies-drop_set w i s v e)
  run-Tidies w reap v = Tidies-reap w v
  run-Tidies w (pin key n) v = Tidies-pin w v key n
  run-Tidies w (unpin i) v =
      Tidies-with_elem w release_pinned w.leases i v (λ l e. Tidies-release_pinned w v i l)

  pub run_all-Tidies :
      (w : World) (actions : List Action) → IsTidy w → Tidies (run_all lib w actions)
  unfolding run_all
  run_all-Tidies w [] v = v
  run_all-Tidies w (a ∷ rest) v = elim (Option-cases (run lib w a)) [
    | inl e ↦ rw (e, run_all) tt
    | inr (w', e) ↦ rw (e, run_all) (run_all-Tidies w' rest (subst Tidies e (run-Tidies w a v)))
  ]

pub new_world-IsTidy : (n : ℕ) (r : Registry) → new_registry n ≡ some r → IsTidy (new_world r)
unfolding new_registry
new_world-IsTidy n r e = record {
  spent = tt;
  sets = record {
    finished = λ i s g f. absurd (clash_none s g);
    listed = λ i s g z f. absurd (clash_none s g);
    waiting =
        subst (λ x. IsWaiting x []) (sym nothing_retired)
          (record {
            known = λ i m. elim m [ ];
            waiting = λ i s g m. elim m [ ];
            closed = λ i s g f. absurd (clash_none s g);
            distinct = tt;
          });
  };
}
  where
    clash_none : (s : PlanSet) → none ≡ some s → ⊥
    clash_none s h = absurd cc

    refused : none ≡ some r → ⊥
    refused h = absurd cc

    nothing_retired : r.retired ≡ []
    nothing_retired = elim (Bool-cases (ltb n 1 || ltb 1024 n)) [
      | inl f ↦ absurd (refused (rw f at e))
      | inr f ↦ ap (λ x. x.retired) (sym (some-injective _ r (rw f at e)))
    ]
