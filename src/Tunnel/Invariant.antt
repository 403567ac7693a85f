-- ===== src/Tunnel/Invariant.antt =====
-- The invariant of the tunnel registry, and the steps under the mutex.
use g_gateway.Base.{
  ℕ, suc, ◌+◌, ◌%◌, ◌<◌, ◌≤◌, ◌≡◌, refl, sym, ap, subst, ◌∙◌, ◌⊎◌, inl, inr, ◌≢◌, Bool, true, false,
  not, Option, none, some, List, [], ◌∷◌, ◌++◌, ◌==◌, if◌then◌else◌, get_elem?, set, length,
  length-set, length-append, arith, All, In, Bool-cases, u64_mod,
}
use g_gateway.Base.Tally.{
  total, total-set, total-append, All-set, All-get, All-snoc, get_elem?-set, get_elem?-append,
}
use g_gateway.Tunnel.{
  RegistrationState, pending, active, done, Cleanup, untouched, notifying, releasing, ending,
  cleaned, Registration, Registry, new_registry, delete, register, registering, run,
}

abbrev pub uncleaned : Registration → ℕ
uncleaned g = elim g.cleanup [
  | untouched ↦ 1
  | notifying ↦ 1
  | releasing ↦ 1
  | ending ↦ 1
  | cleaned ↦ 0
]

abbrev due : Option Bool → ℕ
due none = 0
due (some was_active) = if was_active then 1 else 0

-- A tunnel that the observer has seen opened and not closed.
abbrev pub live : Registration → ℕ
live g =
    (elim g.state [ pending ↦ 0 | active ↦ if g.opening then 0 else 1 | done ↦ 0 ])
    + due g.finishing
    + (elim g.cleanup [ untouched ↦ 0 | notifying ↦ 1 | releasing ↦ 0 | ending ↦ 0 | cleaned ↦ 0 ])

-- `release` is called once, in the cleanup; and a finish is due, or the cleanup has begun, exactly for a
-- registration that is done.
abbrev pub IsConsistent : Registration → Type 0
IsConsistent g =
    (g.releases ≡ (elim g.cleanup [
      | untouched ↦ 0
      | notifying ↦ 0
      | releasing ↦ 0
      | ending ↦ 1
      | cleaned ↦ 1
    ]))
    × (elim g.state [
      | pending ↦ (g.opening ≡ false) × (g.finishing ≡ none) × (g.cleanup ≡ untouched)
      | active ↦ (g.finishing ≡ none) × (g.cleanup ≡ untouched)
      | done ↦ (g.opening ≡ false) × (elim g.cleanup [
        | untouched ↦ (b : Bool) × (g.finishing ≡ some b)
        | other ↦ g.finishing ≡ none
      ])
    ])

pub record IsValid (r : Registry) : Type 0 where
  pub consistent : All IsConsistent r.all
  pub waiting : r.wait ≡ total uncleaned r.all
  pub balance : r.opened ≡ r.closed + total live r.all
  pub counted : r.next_id ≡ length r.all
  pub numbered : (i : ℕ) (g : Registration) → get_elem? r.all i ≡ some g → g.id ≡ suc i
  pub listed :
      (i : ℕ) (g : Registration)
      → get_elem? r.all i ≡ some g
      → g.state ≡ pending
      → In (suc i, i) r.registrations

-- The step goes through, keeps the invariant, and adds at most one registration.
abbrev pub Keeps : ℕ → Option Registry → Type 0
Keeps n o = (r : Registry) × (o ≡ some r) × IsValid r × (length r.all ≤ n)

pub new_registry-IsValid : IsValid new_registry
new_registry-IsValid = record {
  consistent = tt;
  waiting = refl;
  balance = refl;
  counted = refl;
  numbered = λ i g e. absurd (none_some e);
  listed = λ i g e p. absurd (none_some e);
}
  where
    none_some : {g : Registration} → none ≡ some g → ⊥
    none_some e = absurd cc

pub In-delete :
    (i j : ℕ) (entries : List (ℕ × ℕ))
    → In (suc j, j) entries
    → j ≢ i
    → In (suc j, j) (delete (suc i) entries)
In-delete i j [] h n = h
In-delete i j ((k, p) ∷ entries) h n = elim (Bool-cases (k == suc i)) [
  | inl e ↦
      rw (e, delete)
        (elim h [
          | inl q ↦ absurd (n (ground (arith, e, ap (λ x. x.0) q)))
          | inr q ↦ In-delete i j entries q n
        ])
  | inr e ↦ rw (e, delete) (elim h [ inl q ↦ inl q | inr q ↦ inr (In-delete i j entries q n) ])
]

abbrev fresh : ℕ → Registration
fresh id = record {
  id = id;
  state = pending;
  opening = false;
  finishing = none;
  cleanup = untouched;
  releases = 0;
}

pub register-Keeps :
    (r : Registry)
    → IsValid r
    → length r.all + 1 < u64_mod
    → Keeps (length r.all + 1) (run r registering)
unfolding run register
register-Keeps r v b = decide r.admission_closed
  where
    id : ℕ
    id = (r.next_id + 1) % u64_mod

    plain : id ≡ suc (length r.all)
    plain = omega (arith, v.counted, b)

    grown : Registry
    grown = record r {
      next_id = id;
      registrations = (id, length r.all) ∷ delete id r.registrations;
      wait = r.wait + 1;
      all = r.all ++ fresh id ∷ [];
    }

    none_there : (g : Registration) (i : ℕ) → get_elem? r.all i ≡ some g → i ≢ length r.all
    none_there g i e q = omega (arith, q, g_gateway.Base.Tally.get_elem?-length r.all i g e)

    decide :
        (b : Bool)
        → Keeps
            (length r.all + 1)
            (elim (if b then none else some grown) [ none ↦ some r | some r' ↦ some r' ])
    decide true = (r, refl, v, omega arith)
    decide false = (
      grown,
      refl,
      record {
        consistent = All-snoc IsConsistent r.all (fresh id) v.consistent (refl, (refl, refl, refl));
        waiting = omega (arith, v.waiting, total-append uncleaned r.all (fresh id ∷ []));
        balance = omega (arith, v.balance, total-append live r.all (fresh id ∷ []));
        counted = omega (arith, plain, length-append r.all (fresh id ∷ []));
        numbered = λ i g q. elim (get_elem?-append r.all i g (fresh id) q) [
          | inl (h, y) ↦ ap (λ x. x.id) (sym y) ∙ plain ∙ ap suc (sym h)
          | inr h ↦ v.numbered i g h
        ];
        listed = λ i g q p. elim (get_elem?-append r.all i g (fresh id) q) [
          | inl (h, _) ↦ inl (ap (λ x. (suc x, x)) h ∙ ap (λ x. (x, length r.all)) (sym plain))
          | inr h ↦ inr (
              subst (λ x. In (suc i, i) (delete x r.registrations)) (sym plain)
                (In-delete (length r.all) i r.registrations (v.listed i g h p) (none_there g i h)))
        ];
      },
      omega (arith, length-append r.all (fresh id ∷ [])),
    )

-- One registration changes, and is not pending afterwards.
pub IsValid-set :
    (r : Registry) (i : ℕ) (g g' : Registration) (entries : List (ℕ × ℕ)) (wait opened closed : ℕ)
    → IsValid r
    → get_elem? r.all i ≡ some g
    → IsConsistent g'
    → g'.id ≡ g.id
    → g'.state ≢ pending
    → ((j : ℕ) → In (suc j, j) r.registrations → j ≢ i → In (suc j, j) entries)
    → wait + uncleaned g ≡ r.wait + uncleaned g'
    → opened + r.closed + live g ≡ r.opened + closed + live g'
    → IsValid (record r {
      registrations = entries;
      wait = wait;
      all = set r.all i g';
      opened = opened;
      closed = closed;
    })
IsValid-set r i g g' entries wait opened closed v e c d n keep p q = record {
  consistent = All-set IsConsistent r.all i g' v.consistent c;
  waiting = omega (arith, v.waiting, p, total-set uncleaned r.all i g g' e);
  balance = omega (arith, v.balance, q, total-set live r.all i g g' e);
  counted = v.counted ∙ sym (length-set r.all i g');
  numbered = λ j x h. elim (get_elem?-set r.all i j x g' h) [
    | inl (m, y) ↦ ap (λ z. z.id) (sym y) ∙ d ∙ v.numbered i g e ∙ ap suc (sym m)
    | inr (_, y) ↦ v.numbered j x y
  ];
  listed = λ j x h s. elim (get_elem?-set r.all i j x g' h) [
    | inl (_, y) ↦ absurd (n (ap (λ z. z.state) y ∙ s))
    | inr (m, y) ↦ keep j (v.listed j x y s) m
  ];
}

-- A registration, by the fields that the steps branch on.
abbrev pub by_fields :
    Registration → RegistrationState → Bool → Option Bool → Cleanup → Registration
by_fields g state opening finishing cleanup = record g {
  state = state;
  opening = opening;
  finishing = finishing;
  cleanup = cleanup;
}
