-- ===== src/Tunnel/Shape.antt =====
-- The registrations that the invariant of the tunnel registry allows.
use g_gateway.Base.{◌≡◌, ◌≢◌, refl, ◌∙◌, Bool, false, Option, none, some}
use g_gateway.Tunnel.{
  RegistrationState, pending, active, done, Cleanup, untouched, notifying, releasing, ending,
  cleaned, Registration,
}
use g_gateway.Tunnel.Invariant.{IsConsistent, by_fields}

-- What a consistent registration may look like.
pub data Shape (g : Registration) : Type 0 where
  waits : g ≡ by_fields g pending false none untouched → Shape g
  runs : (o : Bool) → g ≡ by_fields g active o none untouched → Shape g
  ends : (b : Bool) → g ≡ by_fields g done false (some b) untouched → Shape g
  cleans : (c : Cleanup) → c ≢ untouched → g ≡ by_fields g done false none c → Shape g

recognise :
    (g : Registration) (s : RegistrationState) (o : Bool) (f : Option Bool) (c : Cleanup)
    → g ≡ by_fields g s o f c
    → IsConsistent (by_fields g s o f c)
    → Shape g
recognise g pending o f c e (_, (p, q, r)) = waits (e ∙ cong p q r)
  where
    cong :
        o ≡ false
        → f ≡ none
        → c ≡ untouched
        → by_fields g pending o f c ≡ by_fields g pending false none untouched
    cong p q r = cc
recognise g active o f c e (_, (q, r)) = runs o (e ∙ cong q r)
  where
    cong : f ≡ none → c ≡ untouched → by_fields g active o f c ≡ by_fields g active o none untouched
    cong q r = cc
recognise g done o f untouched e (_, (p, (b, q))) = ends b (e ∙ cong p q)
  where
    cong :
        o ≡ false
        → f ≡ some b
        → by_fields g done o f untouched ≡ by_fields g done false (some b) untouched
    cong p q = cc
recognise g done o f notifying e (_, (p, q)) = cleans notifying (λ h. absurd cc) (e ∙ cong p q)
  where
    cong :
        o ≡ false
        → f ≡ none
        → by_fields g done o f notifying ≡ by_fields g done false none notifying
    cong p q = cc
recognise g done o f releasing e (_, (p, q)) = cleans releasing (λ h. absurd cc) (e ∙ cong p q)
  where
    cong :
        o ≡ false
        → f ≡ none
        → by_fields g done o f releasing ≡ by_fields g done false none releasing
    cong p q = cc
recognise g done o f ending e (_, (p, q)) = cleans ending (λ h. absurd cc) (e ∙ cong p q)
  where
    cong : o ≡ false → f ≡ none → by_fields g done o f ending ≡ by_fields g done false none ending
    cong p q = cc
recognise g done o f cleaned e (_, (p, q)) = cleans cleaned (λ h. absurd cc) (e ∙ cong p q)
  where
    cong : o ≡ false → f ≡ none → by_fields g done o f cleaned ≡ by_fields g done false none cleaned
    cong p q = cc

pub shape : (g : Registration) → IsConsistent g → Shape g
shape g h = recognise g g.state g.opening g.finishing g.cleanup refl h
