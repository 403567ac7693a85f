-- ===== src/Tunnel/Tests.antt =====
-- Runs of the tunnel registry, and its theorems at one of them.
use g_gateway.Base.{
  true, false, ◌≡◌, refl, sym, subst, ◌∙◌, some-injective, none, some, List, [], ◌∷◌, arith,
}
use g_gateway.Tunnel.{
  Registry, new_registry, register, close_admission, activate, open_tunnel, returned, rollback,
  finish, clean_up, untouched, cleaned, drain_all, expire, Step, registering, closing, activating,
  announcing, returning, rolling_back, finishing_up, cleaning, expiring, run, run_all, active,
  pending, done,
}
use g_gateway.Tunnel.Invariant.{IsValid, Keeps, new_registry-IsValid}
use g_gateway.Tunnel.Drain.{NonePending, expire-NonePending}
use g_gateway.Tunnel.Runs.{Settled, steps-Keeps, run_all-Settled}

-- One tunnel runs to its end, one is rolled back, one is ended by the deadline, and one comes too late.
-- The steps of their cleanups alternate.
abbrev steps : List Step
steps =
    registering
    ∷ activating 0
    ∷ registering
    ∷ rolling_back 1
    ∷ registering
    ∷ closing
    ∷ registering
    ∷ finishing_up 1
    ∷ expiring
    ∷ returning 0
    ∷ announcing 0
    ∷ returning 0
    ∷ finishing_up 2
    ∷ finishing_up 0
    ∷ cleaning 0
    ∷ cleaning 2
    ∷ cleaning 1
    ∷ cleaning 0
    ∷ cleaning 1
    ∷ cleaning 2
    ∷ cleaning 0
    ∷ []

steps-Keeps_example : Keeps 21 (run_all new_registry steps)
steps-Keeps_example = steps-Keeps new_registry steps new_registry-IsValid (omega arith)

run_all-Settled_example : Settled (run_all new_registry steps)
run_all-Settled_example = run_all-Settled steps (omega arith)

abbrev ended : Registry
ended = record {
  admission_closed = true;
  next_id = 3;
  registrations = [];
  wait = 0;
  all =
      record {
        id = 1;
        state = done;
        opening = false;
        finishing = none;
        cleanup = cleaned;
        releases = 1;
      }
      ∷ record {
        id = 2;
        state = done;
        opening = false;
        finishing = none;
        cleanup = cleaned;
        releases = 1;
      }
      ∷ record {
        id = 3;
        state = done;
        opening = false;
        finishing = none;
        cleanup = cleaned;
        releases = 1;
      }
      ∷ [];
  opened = 1;
  closed = 1;
}

steps_run : run_all new_registry steps ≡ some ended
unfolding run_all run register close_admission activate open_tunnel returned rollback finish
    clean_up drain_all expire
steps_run = refl

-- One tunnel is active, and one is pending.
abbrev busy : Registry
busy = record {
  admission_closed = true;
  next_id = 2;
  registrations = (2, 1) ∷ (1, 0) ∷ [];
  wait = 2;
  all =
      record {
        id = 1;
        state = active;
        opening = true;
        finishing = none;
        cleanup = untouched;
        releases = 0;
      }
      ∷ record {
        id = 2;
        state = pending;
        opening = false;
        finishing = none;
        cleanup = untouched;
        releases = 0;
      }
      ∷ [];
  opened = 0;
  closed = 0;
}

abbrev start : List Step
start = registering ∷ registering ∷ activating 0 ∷ closing ∷ []

start_run : run_all new_registry start ≡ some busy
unfolding run_all run register close_admission activate
start_run = refl

busy-IsValid : IsValid busy
busy-IsValid =
    let k = steps-Keeps new_registry start new_registry-IsValid (omega arith) in
    subst IsValid (some-injective k.0 busy (sym k.1 ∙ start_run)) k.2

expire-NonePending_example : IsValid (expire busy) × NonePending (expire busy).all
expire-NonePending_example = expire-NonePending busy busy-IsValid
