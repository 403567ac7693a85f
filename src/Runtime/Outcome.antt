-- ===== src/Runtime/Outcome.antt =====
-- What Apply and Close do when no other goroutine runs between their steps.
use g_gateway.Base.{
  ℕ, ◌-◌, ◌≡◌, ◌≢◌, refl, sym, ap, subst, ◌∙◌, Bool, true, false, Option, none, some, List, [], ◌∷◌,
  ◌++◌, arith, get_elem?, set, length, Bool-cases, Option-cases, inl, inr, if◌then◌else◌,
  some-injective,
}
use g_gateway.Base.Tally.{get_elem?-length}
use g_gateway.Model.{Upstream}
use g_gateway.Upstream.Registry.{Compilers, Prepared, refused, rolled_back, candidate, prepare}
use g_gateway.Upstream.Ownership.{Candidate, dropped, new_plan_set, count_active, finish_candidate}
use g_gateway.Upstream.Ownership.Machine.{World, commit_candidate, prepared}
use g_gateway.Upstream.Ownership.Invariant.{
  IsOwned, Keeps, Keeps-commit_candidate, Keeps-rollback_candidate,
}
use g_gateway.Upstream.Ownership.Preparing.{Keeps-prepare}
use g_gateway.Runtime.{
  Snapshot, Manager, manager_closed, stale_revision, retire_active, Builder, publish, give_up,
  builds, after_prepare, is_stale, apply, close,
}
use g_gateway.Runtime.Publication.{retire-Moved, retire-IsRetired}
use g_gateway.Runtime.Managed.{
  IsCurrent, IsManaged, Replaced, prepares, Outcome, get_elem?-append_left, get_elem?-last,
  retired_active, SameSets, rollback_candidate-SameSets, IsCurrent-sets,
}

module _ (lib : Compilers) (build : Builder) (upstreams : List Upstream) (m : Manager)
    (v : IsManaged m) (revision : ℕ) (opened : m.closed ≡ false)
    (fresh : is_stale m.active revision ≡ false)
    (ready : prepares (prepare lib m.world.registry upstreams) ≡ true) (w : World) (i : ℕ)
    (c : Candidate) (o : IsOwned w) (sets : w.sets ≡ m.world.sets)
    (e : get_elem? w.candidates i ≡ some c) (live : c.done ≡ false) where
  committed : World
  committed = record w {
    registry = count_active w.registry;
    candidates = set w.candidates i (finish_candidate c);
    sets = w.sets ++ new_plan_set c.owned ∷ [];
  }

  commit_result : commit_candidate w i c ≡ some committed
  unfolding commit_candidate committed
  commit_result = rw (live, commit_candidate) refl

  committed-IsOwned : IsOwned committed
  committed-IsOwned =
      let (w', f, v') = Keeps-commit_candidate w i c o e in
      subst IsOwned (sym (some-injective committed w' (sym commit_result ∙ f))) v'

  earlier : (snapshot : Snapshot) → m.active ≡ some snapshot → length w.sets ≢ snapshot.plans
  earlier snapshot p q =
      let (s, f, _) = subst (IsCurrent m.world) p v.current in
      omega (arith, q, ap length sets, get_elem?-length m.world.sets snapshot.plans s f)

  stays : (old : Option Snapshot) → IsCurrent m.world old → IsCurrent committed old
  unfolding committed
  stays none h = tt
  stays (some old) (s, g, a) = (
    s,
    get_elem?-append_left w.sets _ old.plans s (ap (λ ss. get_elem? ss old.plans) sets ∙ g),
    a,
  )

  replaced :
      (old : Option Snapshot) (w' : World)
      → IsCurrent m.world old
      → Replaced committed old w'
      → Replaced m.world old w'
  unfolding committed stays
  replaced none w' h k = tt
  replaced (some old) w' (s, g, a) (t, f, b, r) = (
    s,
    g,
    a,
    subst
        (λ x. get_elem? w'.sets old.plans ≡ some (record x { phase = dropped; refs = x.refs - 1 }))
        (some-injective t s (sym f ∙ (stays (some old) (s, g, a)).1)) r,
  )

  publish-Outcome :
      builds (build revision upstreams) revision ≡ true
      → Outcome lib build m revision upstreams (publish m w i c revision)
  unfolding publish committed new_plan_set
  publish-Outcome built =
      let (w', f, v', k, r) =
        retired_active committed m.active (length w.sets) committed-IsOwned
          (stays m.active v.current) earlier in
      let stands = k ∙ get_elem?-last w.sets (new_plan_set c.owned) in
      rw (commit_result, f, publish)
        (
          record { owned = v'; current = (new_plan_set c.owned, stands, refl) },
          refl,
          (
            opened,
            fresh,
            ready,
            built,
            (
              ap (λ ss. some (record { revision = revision; plans = length ss })) sets,
              (c.owned, ap (λ ss. get_elem? w'.sets (length ss)) (sym sets) ∙ stands),
              replaced m.active w' v.current r,
            ),
          ),
        )

  give_up-Outcome :
      builds (build revision upstreams) revision ≡ false
      → Outcome lib build m revision upstreams (give_up m w i c)
  unfolding give_up
  give_up-Outcome unbuilt =
      let (w', f, v') = Keeps-rollback_candidate w i c o e in
      let same = subst (SameSets w) f (rollback_candidate-SameSets w i c) in
      rw (f, give_up)
        (
          record {
            owned = v';
            current =
                subst (λ ss. IsCurrent (record w' { sets = ss }) m.active) (sym (same ∙ sets))
                  (IsCurrent-sets m.world w' m.active v.current);
          },
          refl,
          (opened, fresh, ready, unbuilt, (refl, same ∙ sets)),
        )

module _ (lib : Compilers) (build : Builder) (m : Manager) (v : IsManaged m) (revision : ℕ)
    (upstreams : List Upstream) where
  after_prepare-Outcome :
      m.closed ≡ false
      → is_stale m.active revision ≡ false
      → (p : Prepared) → prepare lib m.world.registry upstreams ≡ some p
      → IsOwned (prepared m.world p)
      → Outcome lib build m revision upstreams (after_prepare build m revision upstreams p)
  unfolding after_prepare prepared
  after_prepare-Outcome opened fresh refused g o =
      (v, refl, (opened, fresh, ap prepares g, (refl, refl)))
  after_prepare-Outcome opened fresh (rolled_back r) g o = (
    record {
      owned = o;
      current = IsCurrent-sets m.world (record m.world { registry = r }) m.active v.current;
    },
    refl,
    (opened, fresh, ap prepares g, (refl, refl)),
  )
  after_prepare-Outcome opened fresh (candidate r owned) g o =
      elim (Bool-cases (builds (build revision upstreams) revision)) [
        | inl e ↦
            rw (e, after_prepare)
              (publish-Outcome lib build upstreams m v revision opened fresh (ap prepares g)
                (prepared m.world (candidate r owned)) (length m.world.candidates) c o refl stands
                refl e)
        | inr e ↦
            rw (e, after_prepare)
              (give_up-Outcome lib build upstreams m v revision opened fresh (ap prepares g)
                (prepared m.world (candidate r owned)) (length m.world.candidates) c o refl stands
                refl e)
      ]
    where
      c : Candidate
      c = record { owned = owned; done = false }

      stands : get_elem? (m.world.candidates ++ c ∷ []) (length m.world.candidates) ≡ some c
      stands = get_elem?-last m.world.candidates c

  decided :
      (closed stale : Bool)
      → m.closed ≡ closed
      → is_stale m.active revision ≡ stale
      → Outcome lib build m revision upstreams (
          if closed
          then some (m, manager_closed)
          else if stale
          then some (m, stale_revision)
          else elim (prepare lib m.world.registry upstreams) [
            | none ↦ none
            | some p ↦ after_prepare build m revision upstreams p
          ])
  decided true stale e f = (v, refl, (e, refl))
  decided false true e f = (v, refl, (e, f, refl))
  decided false false e f = elim (Option-cases (prepare lib m.world.registry upstreams)) [
    | inl g ↦ absurd (panics (prepared_keeps none g))
    | inr (p, g) ↦ rw g (after_prepare-Outcome e f p g (kept p (prepared_keeps (some p) g)))
  ]
    where
      prepared_keeps :
          (o : Option Prepared)
          → prepare lib m.world.registry upstreams ≡ o
          → Keeps (elim o [ none ↦ none | some p ↦ some (prepared m.world p) ])
      prepared_keeps o g =
          subst (λ x. Keeps (elim x [ none ↦ none | some p ↦ some (prepared m.world p) ])) g
            (Keeps-prepare lib m.world upstreams v.owned)

      panics : Keeps none → ⊥
      panics k = absurd (clash k.1)
        where
          clash : none ≡ some k.0 → ⊥
          clash h = absurd cc

      kept : (p : Prepared) → Keeps (some (prepared m.world p)) → IsOwned (prepared m.world p)
      kept p k = subst IsOwned (sym (some-injective (prepared m.world p) k.0 k.1)) k.2

  -- On a manager with the invariant, Apply does not panic and keeps the invariant, and it returns one of
  -- five results, each where it should. A call on a closed manager and, on one that is open, a revision
  -- that is not newer than the published one change nothing. Otherwise, where Prepare fails, or where it
  -- succeeds and the builder yields no snapshot of the revision, the published snapshot and all plan sets
  -- stay. Where both succeed, the revision is published, on a new plan set that has its owner's reference,
  -- and the plan set of the snapshot before it is retired and loses its owner's reference.
  pub apply-Outcome : Outcome lib build m revision upstreams (apply lib build m revision upstreams)
  unfolding apply
  apply-Outcome = decided m.closed (is_stale m.active revision) refl refl

-- On a manager with the invariant, Close does not panic, keeps the invariant, and leaves a manager that is
-- closed and publishes nothing; the plan set of the snapshot that was published, if there was one, is
-- retired and loses its owner's reference.
pub close-IsManaged :
    (m : Manager)
    → IsManaged m
    → (m' : Manager) × (close m ≡ some m')
      × IsManaged m'
      × (m'.active ≡ none)
      × (m'.closed ≡ true)
      × Replaced m.world m.active m'.world
unfolding close
close-IsManaged m v =
    let (w, e, o, r) = retired m.world m.active v.owned v.current in
    (
      record m { world = w; active = none; closed = true },
      rw (e, close) refl,
      record { owned = o; current = tt },
      refl,
      refl,
      r,
    )
  where
    retired :
        (w : World) (old : Option Snapshot)
        → IsOwned w
        → IsCurrent w old
        → (w' : World) × (retire_active w old ≡ some w') × IsOwned w' × Replaced w old w'
    retired w none o c = (w, refl, o, tt)
    retired w (some old) o (s, g, a) =
        let (w', e, o', _) = retire-Moved w old.plans o in
        (w', e, o', (s, g, a, (retire-IsRetired w w' old.plans s g a e).0))
