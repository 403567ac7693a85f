-- ===== src/Upstream/Ownership/Machine.antt =====
-- The methods of registry.go, plan.go and reaper.go that move ownership, as actions on the registry and
-- its owners. An action that is not enabled does nothing; `none` is a panic. Retire's two calls are
-- three actions, since other goroutines run between them. A caller releases a plan set only where it
-- has acquired it, and each lease is released by its own number.
use g_gateway.Base.{
  ℕ, ◌-◌, true, false, Option, none, some, List, [], ◌∷◌, ◌++◌, ◌==◌, if◌then◌else◌, get_elem?, set,
}
use g_gateway.Model.{Upstream}
use g_gateway.Upstream.Fingerprint.{TransportKey}
use g_gateway.Upstream.Registry.{
  Registry, Compilers, Prepared, refused, rolled_back, candidate, prepare, release_refs,
}
use g_gateway.Upstream.Ownership.{
  Candidate, PlanSet, active, marked, registered, dropped, TunnelLease, try_acquire, release_set,
  new_plan_set, count_active, finish_candidate, register_retired, acquire_lease, release_lease,
  reap_now,
}

pub record World : Type 0 where
  pub registry : Registry
  pub candidates : List Candidate
  pub sets : List PlanSet
  pub leases : List TunnelLease

pub data Action : Type 0 where
  preparation : List Upstream → Action
  commit : ℕ → Action
  rollback : ℕ → Action
  enter : ℕ → Action
  leave : ℕ → Action
  mark : ℕ → Action
  register : ℕ → Action
  drop_owner : ℕ → Action
  reap : Action
  pin : TransportKey → ℕ → Action
  unpin : ℕ → Action

-- Commit and Rollback of a candidate.
unfoldable pub commit_candidate : World → ℕ → Candidate → Option World
commit_candidate w i c =
    if c.done
    then some w
    else some (record w {
      registry = count_active w.registry;
      candidates = set w.candidates i (finish_candidate c);
      sets = w.sets ++ new_plan_set c.owned ∷ [];
    })

unfoldable pub rollback_candidate : World → ℕ → Candidate → Option World
rollback_candidate w i c = if c.done then some w else (elim (release_refs w.registry c.owned) [
  | none ↦ none
  | some (r, _) ↦
      some (record w { registry = r; candidates = set w.candidates i (finish_candidate c) })
])

unfoldable pub enter_set : World → ℕ → PlanSet → Option World
enter_set w i s = elim (try_acquire s) [
  | none ↦ some w
  | some s' ↦ some (record w { sets = set w.sets i s' })
]

unfoldable pub leave_set : World → ℕ → PlanSet → Option World
leave_set w i s = if s.requests == 0 then some w else (elim (release_set s) [
  | none ↦ none
  | some s' ↦ some (record w { sets = set w.sets i (record s' { requests = s.requests - 1 }) })
])

unfoldable pub mark_set : World → ℕ → PlanSet → Option World
mark_set w i s = elim s.phase [
  | active ↦ some (record w { sets = set w.sets i (record s { phase = marked }) })
  | marked ↦ some w
  | registered ↦ some w
  | dropped ↦ some w
]

unfoldable pub register_set : World → ℕ → PlanSet → Option World
register_set w i s = elim s.phase [
  | active ↦ some w
  | marked ↦ elim (register_retired w.registry i) [
    | none ↦ none
    | some r ↦
        some (record w { registry = r; sets = set w.sets i (record s { phase = registered }) })
  ]
  | registered ↦ some w
  | dropped ↦ some w
]

unfoldable pub drop_set : World → ℕ → PlanSet → Option World
drop_set w i s = elim s.phase [
  | active ↦ some w
  | marked ↦ some w
  | registered ↦ elim (release_set s) [
    | none ↦ none
    | some s' ↦ some (record w { sets = set w.sets i (record s' { phase = dropped }) })
  ]
  | dropped ↦ some w
]

unfoldable pub release_pinned : World → ℕ → TunnelLease → Option World
release_pinned w i l =
    if l.released then some w else (elim (release_lease w.registry l.key l.runtime) [
      | none ↦ none
      | some (r, _) ↦
          some (record w { registry = r; leases = set w.leases i (record l { released = true }) })
    ])

abbrev pub with_elem {ℓ} :
    {A : Type ℓ} → World → (World → ℕ → A → Option World) → List A → ℕ → Option World
with_elem w f xs i = elim (get_elem? xs i) [ none ↦ some w | some x ↦ f w i x ]

-- The result of Prepare in the world.
unfoldable pub prepared : World → Prepared → World
prepared w refused = w
prepared w (rolled_back r) = record w { registry = r }
prepared w (candidate r owned) = record w {
  registry = r;
  candidates = w.candidates ++ record { owned = owned; done = false } ∷ [];
}

unfoldable pub run : Compilers → World → Action → Option World
run lib w (preparation us) = elim (prepare lib w.registry us) [
  | none ↦ none
  | some p ↦ some (prepared w p)
]
run lib w (commit i) = with_elem w commit_candidate w.candidates i
run lib w (rollback i) = with_elem w rollback_candidate w.candidates i
run lib w (enter i) = with_elem w enter_set w.sets i
run lib w (leave i) = with_elem w leave_set w.sets i
run lib w (mark i) = with_elem w mark_set w.sets i
run lib w (register i) = with_elem w register_set w.sets i
run lib w (drop_owner i) = with_elem w drop_set w.sets i
run lib w reap = elim (reap_now w.registry w.sets) [
  | none ↦ none
  | some (r, sets) ↦ some (record w { registry = r; sets = sets })
]
run lib w (pin key runtime) = elim (acquire_lease w.registry key runtime) [
  | none ↦ some w
  | some r ↦ some (record w {
    registry = r;
    leases = w.leases ++ record { key = key; runtime = runtime; released = false } ∷ [];
  })
]
run lib w (unpin i) = with_elem w release_pinned w.leases i

unfoldable pub run_all : Compilers → World → List Action → Option World
run_all lib w [] = some w
run_all lib w (a ∷ rest) = elim (run lib w a) [ none ↦ none | some w' ↦ run_all lib w' rest ]
