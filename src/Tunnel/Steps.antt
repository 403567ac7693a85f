-- ===== src/Tunnel/Steps.antt =====
-- The steps on one registration keep the invariant, and the WaitGroup does not panic.
use g_gateway.Base.{
  ℕ, suc, ◌+◌, ◌-◌, ◌≡◌, ◌≢◌, refl, sym, ap, subst, ◌∙◌, Bool, true, false, Option, none, some,
  ◌==◌, if◌then◌else◌, get_elem?, set, arith, In, List, Bool-cases, inl, inr,
}
use g_gateway.Base.Tally.{total-get, All-get}
use g_gateway.Tunnel.{
  pending, active, done, Cleanup, untouched, notifying, releasing, ending, cleaned, Registration,
  Registry, delete, activate, open_tunnel, returned, rollback, finish, clean_up,
}
use g_gateway.Tunnel.Invariant.{uncleaned, IsConsistent, IsValid, IsValid-set, by_fields, In-delete}
use g_gateway.Tunnel.Shape.{waits, runs, ends, cleans, shape}

module _ (r : Registry) (i : ℕ) (v : IsValid r) where
  abbrev pub There : Registration → Type 0
  There g = get_elem? r.all i ≡ some g

  consistent : (g : Registration) → There g → IsConsistent g
  consistent g e = All-get IsConsistent r.all i g v.consistent e

  -- A step on a registration may be looked at by its shape.
  by_shape :
      (P : Registration → Type 0) (g : Registration)
      → There g
      → (There (by_fields g pending false none untouched)
          → P (by_fields g pending false none untouched))
      → ((o : Bool)
          → There (by_fields g active o none untouched)
          → P (by_fields g active o none untouched))
      → ((b : Bool)
          → There (by_fields g done false (some b) untouched)
          → P (by_fields g done false (some b) untouched))
      → ((c : Cleanup)
          → c ≢ untouched
          → There (by_fields g done false none c)
          → P (by_fields g done false none c))
      → P g
  by_shape P g e w u d k = elim (shape g (consistent g e)) [
    | waits q ↦ subst P (sym q) (w (subst There q e))
    | runs o q ↦ subst P (sym q) (u o (subst There q e))
    | ends b q ↦ subst P (sym q) (d b (subst There q e))
    | cleans c n q ↦ subst P (sym q) (k c n (subst There q e))
  ]

  pub activate-IsValid : (g : Registration) → There g → IsValid (activate r i g)
  unfolding activate
  activate-IsValid g e =
      by_shape (λ x. IsValid (activate r i x)) g e
        (λ e.
          let c = consistent _ e in
          IsValid-set r i _ _ r.registrations r.wait r.opened r.closed v e (c.0, (refl, refl)) refl
            (λ q. absurd cc) (λ j h _. h) refl refl)
        (λ o e. v) (λ b e. v) (λ c n e. v)

  pub open_tunnel-IsValid : (g : Registration) → There g → IsValid (open_tunnel r i g)
  unfolding open_tunnel
  open_tunnel-IsValid g e =
      by_shape (λ x. IsValid (open_tunnel r i x)) g e (λ e. v) announced (λ b e. v) (λ c n e. v)
    where
      announced :
          (o : Bool)
          → There (by_fields g active o none untouched)
          → IsValid (open_tunnel r i (by_fields g active o none untouched))
      announced false e = v
      announced true e =
          let c = consistent _ e in
          IsValid-set r i _ _ r.registrations r.wait (r.opened + 1) r.closed v e (c.0, (refl, refl))
            refl (λ q. absurd cc) (λ j h _. h) refl (omega arith)

  -- An entry that is deleted is that of the registration itself.
  kept_entries :
      (g : Registration)
      → There g
      → (j : ℕ) → In (suc j, j) r.registrations
      → j ≢ i
      → In (suc j, j) (delete g.id r.registrations)
  kept_entries g e j h n =
      subst (λ x. In (suc j, j) (delete x r.registrations)) (sym (v.numbered i g e))
        (In-delete i j r.registrations h n)

  pub returned-IsValid : (g : Registration) → There g → IsValid (returned r i g)
  unfolding returned
  returned-IsValid g e =
      by_shape (λ x. IsValid (returned r i x)) g e (λ e. v) over (λ b e. v) (λ c n e. v)
    where
      over :
          (o : Bool)
          → There (by_fields g active o none untouched)
          → IsValid (returned r i (by_fields g active o none untouched))
      over true e = v
      over false e =
          let c = consistent _ e in
          IsValid-set r i _ _ (delete g.id r.registrations) r.wait r.opened r.closed v e
            (c.0, (refl, (true, refl))) refl (λ q. absurd cc) (kept_entries _ e) refl (omega arith)

  pub ended-IsValid :
      (g : Registration)
      → There g
      → g.state ≡ pending
      → (entries : List (ℕ × ℕ))
      → ((j : ℕ) → In (suc j, j) r.registrations → j ≢ i → In (suc j, j) entries)
      → IsValid (record r {
        registrations = entries;
        all = set r.all i (record g { state = done; finishing = some false });
      })
  ended-IsValid g e p entries keep =
      by_shape
        (λ x.
          x.state ≡ pending
          → IsValid (record r {
            registrations = entries;
            all = set r.all i (record x { state = done; finishing = some false });
          }))
        g e
        (λ e _.
          let c = consistent _ e in
          IsValid-set r i _ _ entries r.wait r.opened r.closed v e (c.0, (refl, (false, refl))) refl
            (λ q. absurd cc) keep refl (omega arith))
        (λ o e (q : active ≡ pending). absurd cc) (λ b e (q : done ≡ pending). absurd cc)
        (λ c n e (q : done ≡ pending). absurd cc) p

  pub rollback-IsValid : (g : Registration) → There g → IsValid (rollback r i g)
  unfolding rollback
  rollback-IsValid g e =
      by_shape (λ x. IsValid (rollback r i x)) g e
        (λ e. ended-IsValid _ e refl (delete g.id r.registrations) (kept_entries _ e)) (λ o e. v)
        (λ b e. v) (λ c n e. v)

  pub finish-IsValid : (g : Registration) → There g → IsValid (finish r i g)
  unfolding finish
  finish-IsValid g e =
      by_shape (λ x. IsValid (finish r i x)) g e (λ e. v) (λ o e. v) begins (λ c n e. v)
    where
      begins :
          (b : Bool)
          → There (by_fields g done false (some b) untouched)
          → IsValid (finish r i (by_fields g done false (some b) untouched))
      begins true e =
          let c = consistent _ e in
          IsValid-set r i _ _ r.registrations r.wait r.opened r.closed v e (c.0, (refl, refl)) refl
            (λ q. absurd cc) (λ j h _. h) refl (omega arith)
      begins false e =
          let c = consistent _ e in
          IsValid-set r i _ _ r.registrations r.wait r.opened r.closed v e (c.0, (refl, refl)) refl
            (λ q. absurd cc) (λ j h _. h) refl (omega arith)

  -- The step goes through and keeps the invariant.
  abbrev pub Goes : Option Registry → Type 0
  Goes o =
      (r' : Registry) × (o ≡ some r')
      × IsValid r'
      × (g_gateway.Base.length r'.all ≡ g_gateway.Base.length r.all)

  pub clean_up-Goes : (g : Registration) → There g → Goes (clean_up r i g)
  unfolding clean_up
  clean_up-Goes g e =
      by_shape (λ x. Goes (clean_up r i x)) g e (λ e. (r, refl, v, refl))
        (λ o e. (r, refl, v, refl)) (λ b e. (r, refl, v, refl)) next
    where
      next :
          (c : Cleanup)
          → c ≢ untouched
          → There (by_fields g done false none c)
          → Goes (clean_up r i (by_fields g done false none c))
      next untouched n e = absurd (n refl)
      next notifying n e =
          let c = consistent _ e in
          (
            _,
            refl,
            IsValid-set r i _ _ r.registrations r.wait r.opened (r.closed + 1) v e
                (c.0, (refl, refl)) refl (λ q. absurd cc) (λ j h _. h) refl (omega arith),
            g_gateway.Base.length-set r.all i _,
          )
      next releasing n e =
          let c = consistent _ e in
          (
            _,
            refl,
            IsValid-set r i _ _ r.registrations r.wait r.opened r.closed v e
                (omega (arith, c.0), (refl, refl)) refl (λ q. absurd cc) (λ j h _. h) refl refl,
            g_gateway.Base.length-set r.all i _,
          )
      next ending n e =
          let c = consistent _ e in
          let counts = total-get uncleaned r.all i _ e in
          let waited : (r.wait == 0) ≡ false = ground (arith, counts, v.waiting) in
          rw waited (
            _,
            refl,
            IsValid-set r i _ _ r.registrations (r.wait - 1) r.opened r.closed v e
                (c.0, (refl, refl)) refl (λ q. absurd cc) (λ j h _. h)
                (omega (arith, counts, v.waiting)) refl,
            g_gateway.Base.length-set r.all i _,
          )
      next cleaned n e = (r, refl, v, refl)
