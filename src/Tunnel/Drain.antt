-- ===== src/Tunnel/Drain.antt =====
-- Drain at its deadline ends every pending registration.
use g_gateway.Base.{
  ℕ, ◌≡◌, refl, sym, ap, subst, ◌∙◌, inl, inr, ◌≢◌, false, none, some, List, [], ◌∷◌, get_elem?,
  set, Option-cases, some-injective,
}
use g_gateway.Tunnel.{
  RegistrationState, pending, active, done, Registration, Registry, drain_all, expire,
}
use g_gateway.Tunnel.Invariant.{IsValid}
use g_gateway.Tunnel.Steps.{ended-IsValid}

abbrev pub NonePending : List Registration → Type 0
NonePending all = (j : ℕ) (g : Registration) → get_elem? all j ≡ some g → g.state ≢ pending

abbrev with_all : Registry → List (ℕ × ℕ) → List Registration → Registry
with_all r entries all = record r { registrations = entries; all = all }

-- An entry that is not of a pending registration may be passed over.
IsValid-pass :
    (r : Registry) (id i : ℕ) (entries : List (ℕ × ℕ))
    → ((g : Registration) → get_elem? r.all i ≡ some g → g.state ≢ pending)
    → IsValid (with_all r ((id, i) ∷ entries) r.all)
    → IsValid (with_all r entries r.all)
IsValid-pass r id i entries n v = record {
  consistent = v.consistent;
  waiting = v.waiting;
  balance = v.balance;
  counted = v.counted;
  numbered = v.numbered;
  listed = λ j g e p. elim (v.listed j g e p) [
    | inl q ↦ absurd (n g (subst (λ x. get_elem? r.all x ≡ some g) (ap (λ x. x.1) q) e) p)
    | inr h ↦ h
  ];
}

-- Where nothing is pending, any entries will do.
IsValid-entries :
    (r : Registry) (entries : List (ℕ × ℕ))
    → NonePending r.all
    → IsValid r
    → IsValid (with_all r entries r.all)
IsValid-entries r entries n v = record {
  consistent = v.consistent;
  waiting = v.waiting;
  balance = v.balance;
  counted = v.counted;
  numbered = v.numbered;
  listed = λ j g e p. absurd (n j g e p);
}

abbrev Drains : Registry → List (ℕ × ℕ) → List Registration → Type 0
Drains r entries all =
    IsValid (with_all r (drain_all entries all).0 (drain_all entries all).1)
    × NonePending (drain_all entries all).1

drain_all-Drains :
    (r : Registry) (entries : List (ℕ × ℕ)) (all : List Registration)
    → IsValid (with_all r entries all)
    → Drains r entries all
unfolding drain_all
drain_all-Drains r [] all v = (v, λ j g e p. v.listed j g e p)
drain_all-Drains r ((id, i) ∷ entries) all v = elim (Option-cases (get_elem? all i)) [
  | inl e ↦
      rw (e, drain_all)
        (drain_all-Drains r entries all
          (IsValid-pass (with_all r [] all) id i entries (λ g f. absurd (clash g e f)) v))
  | inr (g, e) ↦ by_state (λ after. drain_all-Drains r entries after) g e g.state refl
]
  where
    clash : (g : Registration) → get_elem? all i ≡ none → get_elem? all i ≡ some g → ⊥
    clash g e f = absurd cc

    -- An entry that stays.
    passed :
        (g : Registration) (s : RegistrationState)
        → ((after : List Registration)
            → IsValid (with_all r entries after)
            → Drains r entries after)
        → get_elem? all i ≡ some g
        → g.state ≡ s
        → s ≢ pending
        → IsValid (with_all r ((id, i) ∷ (drain_all entries all).0) (drain_all entries all).1)
          × NonePending (drain_all entries all).1
    passed g s rest e p n =
        let d = rest all (
          IsValid-pass (with_all r [] all) id i entries
            (λ h f q. n (sym p ∙ ap (λ x. x.state) (some-injective g h (sym e ∙ f)) ∙ q)) v) in
        (
          IsValid-entries (with_all r (drain_all entries all).0 (drain_all entries all).1)
              ((id, i) ∷ (drain_all entries all).0) d.1 d.0,
          d.1,
        )

    by_state :
        ((after : List Registration) → IsValid (with_all r entries after) → Drains r entries after)
        → (g : Registration) → get_elem? all i ≡ some g
        → (s : RegistrationState) → g.state ≡ s
        → Drains r ((id, i) ∷ entries) all
    by_state rest g e pending p =
        rw (e, p, drain_all)
          (rest (set all i (record g { state = done; finishing = some false })) (
            ended-IsValid (with_all r ((id, i) ∷ entries) all) i v g e p entries
              (λ j h n. elim h [ inl q ↦ absurd (n (ap (λ x. x.1) q)) | inr q ↦ q ])))
    by_state rest g e active p = rw (e, p, drain_all) (passed g active rest e p (λ q. absurd cc))
    by_state rest g e done p = rw (e, p, drain_all) (passed g done rest e p (λ q. absurd cc))

-- On a valid registry, Drain at its deadline leaves a valid registry in which no registration is
-- pending.
pub expire-NonePending :
    (r : Registry) → IsValid r → IsValid (expire r) × NonePending (expire r).all
unfolding expire
expire-NonePending r v = drain_all-Drains r r.registrations r.all v
