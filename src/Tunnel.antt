-- ===== src/Tunnel.antt =====
-- internal/tunnel/registry.go: the registry of tunnels and its transactions. A registration is known by
-- its position in the list of all of them, which stands for the pointer to it; the map goes from ids to
-- positions. A section under the mutex is one step, and so is each call after it: TunnelOpened, what
-- cleanup.Do decides, TunnelClosed, `release` and Done. A panic of the WaitGroup is `none`. The session,
-- the bytes that it copies and what the callbacks do are left out; Drain's second section is `expire`.
pub mod Invariant
pub mod Shape
pub mod Steps
pub mod Drain
pub mod Runs
pub mod Tests
use g_gateway.Base.{
  ℕ, ◌+◌, ◌-◌, ◌%◌, Bool, true, false, Option, none, some, List, [], ◌∷◌, ◌++◌, ◌==◌, if◌then◌else◌,
  get_elem?, set, length, filterb, not, u64_mod,
}

pub data RegistrationState : Type 0 where
  pending active done : RegistrationState

-- How far cleanup.Do has come: the next thing that it does is to call TunnelClosed, `release` or Done.
pub data Cleanup : Type 0 where
  untouched notifying releasing ending cleaned : Cleanup

-- `opening` tells whether the call of TunnelOpened is due, and `finishing` is the argument of the call of
-- finish that is due, if one is. `releases` counts the calls of `release`.
pub record Registration : Type 0 where
  pub id : ℕ
  pub state : RegistrationState
  pub opening : Bool
  pub finishing : Option Bool
  pub cleanup : Cleanup
  pub releases : ℕ

-- The registry with all registrations there ever were, and the calls that the observer has seen.
pub record Registry : Type 0 where
  pub admission_closed : Bool
  pub next_id : ℕ
  pub registrations : List (ℕ × ℕ)
  pub wait : ℕ
  pub all : List Registration
  pub opened : ℕ
  pub closed : ℕ

abbrev pub new_registry : Registry
new_registry = record {
  admission_closed = false;
  next_id = 0;
  registrations = [];
  wait = 0;
  all = [];
  opened = 0;
  closed = 0;
}

abbrev pub delete : ℕ → List (ℕ × ℕ) → List (ℕ × ℕ)
delete id entries = filterb (λ (e : ℕ × ℕ). not (e.0 == id)) entries

-- Register: `none` is ErrAdmissionClosed.
unfoldable pub register : Registry → Option Registry
register r =
    let id = (r.next_id + 1) % u64_mod in
    if r.admission_closed
    then none
    else some (record r {
      next_id = id;
      registrations = (id, length r.all) ∷ delete id r.registrations;
      wait = r.wait + 1;
      all =
          r.all
          ++ record {
            id = id;
            state = pending;
            opening = false;
            finishing = none;
            cleanup = untouched;
            releases = 0;
          }
            ∷ [];
    })

unfoldable pub close_admission : Registry → Registry
close_admission r = record r { admission_closed = true }

-- Activate's section under the mutex.
unfoldable pub activate : Registry → ℕ → Registration → Registry
activate r i g = elim g.state [
  | pending ↦ record r { all = set r.all i (record g { state = active; opening = true }) }
  | active ↦ r
  | done ↦ r
]

-- Activate's call of TunnelOpened, before it starts the session's goroutine.
unfoldable pub open_tunnel : Registry → ℕ → Registration → Registry
open_tunnel r i g =
    if g.opening
    then record r { all = set r.all i (record g { opening = false }); opened = r.opened + 1 }
    else r

-- What the session's goroutine does under the mutex when the session has returned. It runs only where
-- TunnelOpened has been called.
unfoldable pub returned : Registry → ℕ → Registration → Registry
returned r i g = if g.opening then r else (elim g.state [
  | pending ↦ r
  | active ↦ record r {
    all = set r.all i (record g { state = done; finishing = some true });
    registrations = delete g.id r.registrations;
  }
  | done ↦ r
])

unfoldable pub rollback : Registry → ℕ → Registration → Registry
rollback r i g = elim g.state [
  | pending ↦ record r {
    all = set r.all i (record g { state = done; finishing = some false });
    registrations = delete g.id r.registrations;
  }
  | active ↦ r
  | done ↦ r
]

-- The start of finish, where a call of it is due: only the first call goes into the cleanup.
unfoldable pub finish : Registry → ℕ → Registration → Registry
finish r i g = elim g.finishing [
  | none ↦ r
  | some was_active ↦ elim g.cleanup [
    | untouched ↦ record r {
      all =
          set r.all i
            (record g { finishing = none; cleanup = if was_active then notifying else releasing });
    }
    | other ↦ record r { all = set r.all i (record g { finishing = none }) }
  ]
]

-- The next call of the cleanup.
unfoldable pub clean_up : Registry → ℕ → Registration → Option Registry
clean_up r i g = elim g.cleanup [
  | untouched ↦ some r
  | notifying ↦
      some
        (record r { all = set r.all i (record g { cleanup = releasing }); closed = r.closed + 1 })
  | releasing ↦
      some
        (record r { all = set r.all i (record g { cleanup = ending; releases = g.releases + 1 }) })
  | ending ↦
      if r.wait == 0
      then none
      else some (record r { all = set r.all i (record g { cleanup = cleaned }); wait = r.wait - 1 })
  | cleaned ↦ some r
]

-- The loop of Drain at its deadline, over the entries of the map: the entries that stay, and all
-- registrations.
unfoldable pub drain_all : List (ℕ × ℕ) → List Registration → List (ℕ × ℕ) × List Registration
drain_all [] all = ([], all)
drain_all ((id, i) ∷ entries) all = elim (get_elem? all i) [
  | none ↦ drain_all entries all
  | some g ↦
      let (kept, after) = drain_all entries all in
      let ended =
        drain_all entries (set all i (record g { state = done; finishing = some false })) in
      elim g.state [
        | pending ↦ ended
        | active ↦ ((id, i) ∷ kept, after)
        | done ↦ ((id, i) ∷ kept, after)
      ]
]

unfoldable pub expire : Registry → Registry
expire r =
    let (kept, all) = drain_all r.registrations r.all in
    record r { registrations = kept; all = all }

pub data Step : Type 0 where
  registering : Step
  closing : Step
  activating : ℕ → Step
  announcing : ℕ → Step
  returning : ℕ → Step
  rolling_back : ℕ → Step
  finishing_up : ℕ → Step
  cleaning : ℕ → Step
  expiring : Step

abbrev pub at_position : Registry → (Registry → ℕ → Registration → Registry) → ℕ → Registry
at_position r f i = elim (get_elem? r.all i) [ none ↦ r | some g ↦ f r i g ]

-- A step that is not enabled does nothing. A rejected registration leaves the registry as it is.
unfoldable pub run : Registry → Step → Option Registry
run r registering = elim (register r) [ none ↦ some r | some r' ↦ some r' ]
run r closing = some (close_admission r)
run r (activating i) = some (at_position r activate i)
run r (announcing i) = some (at_position r open_tunnel i)
run r (returning i) = some (at_position r returned i)
run r (rolling_back i) = some (at_position r rollback i)
run r (finishing_up i) = some (at_position r finish i)
run r (cleaning i) = elim (get_elem? r.all i) [ none ↦ some r | some g ↦ clean_up r i g ]
run r expiring = some (expire r)

unfoldable pub run_all : Registry → List Step → Option Registry
run_all r [] = some r
run_all r (step ∷ steps) = elim (run r step) [ none ↦ none | some r' ↦ run_all r' steps ]
