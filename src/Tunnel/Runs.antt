-- ===== src/Tunnel/Runs.antt =====
-- Every sequence of steps of the tunnel registry, and the runs after which nothing is left to do.
use g_gateway.Base.{
  ℕ, ◌+◌, ◌<◌, ◌≤◌, ◌≡◌, refl, sym, subst, ◌⊎◌, inl, inr, Bool, Option, none, some, List, [], ◌∷◌,
  get_elem?, length, arith, All, Option-cases, u64_mod,
}
use g_gateway.Base.Tally.{total}
use g_gateway.Tunnel.{
  RegistrationState, done, Cleanup, untouched, cleaned, Registration, Registry, new_registry,
  close_admission, activate, open_tunnel, returned, rollback, finish, expire, Step, registering,
  closing, activating, announcing, returning, rolling_back, finishing_up, cleaning, expiring,
  at_position, run, run_all,
}
use g_gateway.Tunnel.Invariant.{
  uncleaned, live, IsConsistent, IsValid, Keeps, new_registry-IsValid, register-Keeps, by_fields,
}
use g_gateway.Tunnel.Steps.{
  activate-IsValid, open_tunnel-IsValid, returned-IsValid, rollback-IsValid, finish-IsValid,
  clean_up-Goes,
}
use g_gateway.Tunnel.Drain.{expire-NonePending}

next_id-activate : (r : Registry) (i : ℕ) (g : Registration) → (activate r i g).next_id ≡ r.next_id
unfolding activate
next_id-activate r i g = ground arith

next_id-open_tunnel :
    (r : Registry) (i : ℕ) (g : Registration) → (open_tunnel r i g).next_id ≡ r.next_id
unfolding open_tunnel
next_id-open_tunnel r i g = ground arith

next_id-returned : (r : Registry) (i : ℕ) (g : Registration) → (returned r i g).next_id ≡ r.next_id
unfolding returned
next_id-returned r i g = ground arith

next_id-rollback : (r : Registry) (i : ℕ) (g : Registration) → (rollback r i g).next_id ≡ r.next_id
unfolding rollback
next_id-rollback r i g = ground arith

next_id-finish : (r : Registry) (i : ℕ) (g : Registration) → (finish r i g).next_id ≡ r.next_id
unfolding finish
next_id-finish r i g = ground arith

-- Both registries are valid and have given as many ids, so that they have as many registrations.
length-next_id :
    (r r' : Registry)
    → IsValid r
    → IsValid r'
    → r'.next_id ≡ r.next_id
    → length r'.all ≤ length r.all + 1
length-next_id r r' v v' e = omega (arith, v.counted, v'.counted, e)

at_position-Keeps :
    (r : Registry) (f : Registry → ℕ → Registration → Registry) (i : ℕ)
    → IsValid r
    → ((g : Registration) → get_elem? r.all i ≡ some g → IsValid (f r i g))
    → ((g : Registration) → (f r i g).next_id ≡ r.next_id)
    → Keeps (length r.all + 1) (some (at_position r f i))
at_position-Keeps r f i v k n = elim (Option-cases (get_elem? r.all i)) [
  | inl e ↦ rw (e, at_position) (r, refl, v, omega arith)
  | inr (g, e) ↦ rw (e, at_position) (_, refl, k g e, length-next_id r (f r i g) v (k g e) (n g))
]

run-Keeps :
    (r : Registry) (step : Step)
    → IsValid r
    → length r.all + 1 < u64_mod
    → Keeps (length r.all + 1) (run r step)
unfolding run close_admission expire
run-Keeps r registering v b = register-Keeps r v b
run-Keeps r closing v b = (
  _,
  refl,
  record {
    consistent = v.consistent;
    waiting = v.waiting;
    balance = v.balance;
    counted = v.counted;
    numbered = v.numbered;
    listed = v.listed;
  },
  omega arith,
)
run-Keeps r (activating i) v b =
    at_position-Keeps r activate i v (activate-IsValid r i v) (next_id-activate r i)
run-Keeps r (announcing i) v b =
    at_position-Keeps r open_tunnel i v (open_tunnel-IsValid r i v) (next_id-open_tunnel r i)
run-Keeps r (returning i) v b =
    at_position-Keeps r returned i v (returned-IsValid r i v) (next_id-returned r i)
run-Keeps r (rolling_back i) v b =
    at_position-Keeps r rollback i v (rollback-IsValid r i v) (next_id-rollback r i)
run-Keeps r (finishing_up i) v b =
    at_position-Keeps r finish i v (finish-IsValid r i v) (next_id-finish r i)
run-Keeps r (cleaning i) v b = elim (Option-cases (get_elem? r.all i)) [
  | inl e ↦ rw (e, run) (r, refl, v, omega arith)
  | inr (g, e) ↦
      let (r', q, v', n) = clean_up-Goes r i v g e in rw (e, run) (r', q, v', omega (arith, n))
]
run-Keeps r expiring v b =
    let v' = (expire-NonePending r v).0 in (_, refl, v', length-next_id r _ v v' refl)

-- From a valid registry, every sequence of steps with which there are fewer than 2^64 registrations at
-- most goes through without a panic of the WaitGroup, and ends in a valid registry: `release` has been
-- called once for each registration whose cleanup has come that far, and not for any other; the
-- WaitGroup counts those whose cleanup has not ended; and the calls of TunnelOpened exceed those of
-- TunnelClosed by the registrations for which the first has been made and the second is still due.
pub steps-Keeps :
    (r : Registry) (steps : List Step)
    → IsValid r
    → length r.all + length steps < u64_mod
    → Keeps (length r.all + length steps) (run_all r steps)
unfolding run_all
steps-Keeps r [] v b = (r, refl, v, omega arith)
steps-Keeps r (step ∷ steps) v b =
    let (r', e, v', n) = run-Keeps r step v (omega (arith, b)) in
    let (r'', e', v'', n') = steps-Keeps r' steps v' (omega (arith, b, n)) in
    rw (e, run_all) (r'', e', v'', omega (arith, n, n'))

-- Nothing is left to do for a registration: it is done, no finish is due, and no cleanup is under way.
abbrev pub IsOver : Registration → Type 0
IsOver g =
    (g.state ≡ done) × (g.finishing ≡ none) × ((g.cleanup ≡ untouched) ⊎ (g.cleanup ≡ cleaned))

abbrev Ended : Registration → Type 0
Ended g = (uncleaned g ≡ 0) × (live g ≡ 0) × (g.releases ≡ 1)

over : (g : Registration) → IsConsistent g → IsOver g → Ended g
over g c (p, q, u) = elim u [
  | inl u ↦
      absurd
        (clash (subst IsConsistent (fields g.state g.finishing g.cleanup untouched p q u) c).1.1)
  | inr u ↦
      let e = fields g.state g.finishing g.cleanup cleaned p q u in
      subst Ended (sym e) (refl, refl, (subst IsConsistent e c).0)
]
  where
    fields :
        (s : RegistrationState) (f : Option Bool) (k k' : Cleanup)
        → s ≡ done
        → f ≡ none
        → k ≡ k'
        → by_fields g s g.opening f k ≡ by_fields g done g.opening none k'
    fields s f k k' p q u = cc

    clash : (b : Bool) × (none ≡ some b) → ⊥
    clash h = absurd cc

over-All :
    (gs : List Registration)
    → All IsConsistent gs
    → All IsOver gs
    → (total uncleaned gs ≡ 0) × (total live gs ≡ 0) × All (λ (g : Registration). g.releases ≡ 1) gs
over-All [] c o = (refl, refl, tt)
over-All (g ∷ gs) c o =
    let a = over g c.0 o.0 in
    let b = over-All gs c.1 o.1 in (omega (arith, a.0, b.0), omega (arith, a.1, b.1), (a.2, b.2))

-- What a registry has come to: every `release` has been called once, the WaitGroup is at zero, and
-- every opened tunnel has been closed for the observer.
abbrev pub Settled : Option Registry → Type 0
Settled o =
    (r : Registry) × (o ≡ some r)
    × (All IsOver r.all
        → (r.wait ≡ 0) × (r.opened ≡ r.closed) × All (λ (g : Registration). g.releases ≡ 1) r.all)

-- Every sequence of fewer than 2^64 steps from a new registry goes through, and if it ends where every
-- registration is done, with no finish due and no cleanup under way, then the WaitGroup is at zero, so
-- that Drain returns, TunnelClosed has been called as often as TunnelOpened, and `release` once for each
-- registration.
pub run_all-Settled :
    (steps : List Step) → length steps < u64_mod → Settled (run_all new_registry steps)
run_all-Settled steps b =
    let (r, e, v, _) = steps-Keeps new_registry steps new_registry-IsValid (omega (arith, b)) in
    (
      r,
      e,
      λ o.
          let t = over-All r.all v.consistent o in
          (omega (arith, v.waiting, t.0), omega (arith, v.balance, t.1), t.2),
    )
