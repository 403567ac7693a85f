-- ===== src/Runtime/Managed.antt =====
-- The manager's invariant, the outcomes of Apply, and lemmas on the plan sets that they speak of.
use g_gateway.Base.{
  ℕ, zero, suc, ◌-◌, ◌≡◌, ◌≢◌, refl, Bool, true, false, Option, none, some, List, [], ◌∷◌, ◌++◌,
  get_elem?, length, Bool-cases, Option-cases, inl, inr,
}
use g_gateway.Model.{Upstream}
use g_gateway.Upstream.Registry.{
  ResourceRefs, Compilers, Prepared, refused, rolled_back, candidate, prepare, release_refs,
}
use g_gateway.Upstream.Ownership.{Candidate, PlanSet, active, dropped, new_plan_set}
use g_gateway.Upstream.Ownership.Machine.{World, rollback_candidate}
use g_gateway.Upstream.Ownership.Invariant.{IsOwned}
use g_gateway.Runtime.{
  Snapshot, Manager, Applied, manager_closed, stale_revision, prepare_failed, build_failed, applied,
  retire_active, Builder, builds, is_stale,
}
use g_gateway.Runtime.Publication.{retire-Moved, retire-IsRetired}

-- The published snapshot's plan set is active.
abbrev pub IsCurrent : World → Option Snapshot → Type 0
IsCurrent w none = Unit
IsCurrent w (some snapshot) =
    (s : PlanSet) × (get_elem? w.sets snapshot.plans ≡ some s) × (s.phase ≡ active)

pub record IsManaged (m : Manager) : Type 0 where
  pub owned : IsOwned m.world
  pub current : IsCurrent m.world m.active

-- The plan set of the snapshot that was published before, if any, is retired: it was active, it is
-- dropped now, and its owner's reference is gone.
abbrev pub Replaced : World → Option Snapshot → World → Type 0
Replaced w none w' = Unit
Replaced w (some old) w' =
    (s : PlanSet) × (get_elem? w.sets old.plans ≡ some s)
    × (s.phase ≡ active)
    × (get_elem? w'.sets old.plans ≡ some (record s { phase = dropped; refs = s.refs - 1 }))

abbrev pub prepares : Option Prepared → Bool
prepares none = false
prepares (some refused) = false
prepares (some (rolled_back r)) = false
prepares (some (candidate r owned)) = true

-- The old snapshot stays, and no plan set changes.
abbrev pub Unchanged : Manager → Manager → Type 0
Unchanged m m' = (m'.active ≡ m.active) × (m'.world.sets ≡ m.world.sets)

-- The snapshot of the revision, on a new plan set that has its owner's reference, replaces the old one.
abbrev pub Published : Manager → ℕ → Manager → Type 0
Published m revision m' =
    (m'.active ≡ some (record { revision = revision; plans = length m.world.sets }))
    × ((owned : ResourceRefs) × (get_elem? m'.world.sets (length m.world.sets)
          ≡ some (new_plan_set owned)))
    × Replaced m.world m.active m'.world

-- What Apply of a revision does, for each of its results and exactly where it has that result.
abbrev pub Outcome :
    Compilers → Builder → Manager → ℕ → List Upstream → Option (Manager × Applied) → Type 0
Outcome lib build m revision upstreams none = ⊥
Outcome lib build m revision upstreams (some (m', a)) =
    IsManaged m' × (m'.closed ≡ m.closed) × (elim a [
      | manager_closed ↦ (m.closed ≡ true) × (m' ≡ m)
      | stale_revision ↦ (m.closed ≡ false) × (is_stale m.active revision ≡ true) × (m' ≡ m)
      | prepare_failed ↦
          (m.closed ≡ false)
          × (is_stale m.active revision ≡ false)
          × (prepares (prepare lib m.world.registry upstreams) ≡ false)
          × Unchanged m m'
      | build_failed ↦
          (m.closed ≡ false)
          × (is_stale m.active revision ≡ false)
          × (prepares (prepare lib m.world.registry upstreams) ≡ true)
          × (builds (build revision upstreams) revision ≡ false)
          × Unchanged m m'
      | applied ↦
          (m.closed ≡ false)
          × (is_stale m.active revision ≡ false)
          × (prepares (prepare lib m.world.registry upstreams) ≡ true)
          × (builds (build revision upstreams) revision ≡ true)
          × Published m revision m'
    ])

pub get_elem?-append_left :
    {A : Type 0} (xs ys : List A) (i : ℕ) (x : A)
    → get_elem? xs i ≡ some x
    → get_elem? (xs ++ ys) i ≡ some x
get_elem?-append_left [] ys i x e = cc
get_elem?-append_left (z ∷ xs) ys zero x e = e
get_elem?-append_left (z ∷ xs) ys (suc i) x e = get_elem?-append_left xs ys i x e

pub get_elem?-last :
    {A : Type 0} (xs : List A) (x : A) → get_elem? (xs ++ x ∷ []) (length xs) ≡ some x
get_elem?-last [] x = refl
get_elem?-last (y ∷ xs) x = get_elem?-last xs x

pub retired_active :
    (w : World) (old : Option Snapshot) (new : ℕ)
    → IsOwned w
    → IsCurrent w old
    → ((snapshot : Snapshot) → old ≡ some snapshot → new ≢ snapshot.plans)
    → (w' : World) × (retire_active w old ≡ some w')
      × IsOwned w'
      × (get_elem? w'.sets new ≡ get_elem? w.sets new)
      × Replaced w old w'
retired_active w none new v c n = (w, refl, v, refl, tt)
retired_active w (some old) new v (s, g, a) n =
    let (w', e, v', k) = retire-Moved w old.plans v in
    (w', e, v', k new (n old refl), (s, g, a, (retire-IsRetired w w' old.plans s g a e).0))

abbrev pub SameSets : World → Option World → Type 0
SameSets w none = Unit
SameSets w (some w') = w'.sets ≡ w.sets

pub rollback_candidate-SameSets :
    (w : World) (i : ℕ) (c : Candidate) → SameSets w (rollback_candidate w i c)
unfolding rollback_candidate
rollback_candidate-SameSets w i c = elim (Bool-cases c.done) [
  | inl d ↦ rw (d, rollback_candidate) refl
  | inr d ↦ elim (Option-cases (release_refs w.registry c.owned)) [
    | inl e ↦ rw (d, e, rollback_candidate) tt
    | inr ((r, _), e) ↦ rw (d, e, rollback_candidate) refl
  ]
]

pub IsCurrent-sets :
    (w w' : World) (active : Option Snapshot)
    → IsCurrent w active
    → IsCurrent (record w' { sets = w.sets }) active
IsCurrent-sets w w' none h = tt
IsCurrent-sets w w' (some snapshot) h = h
