-- ===== src/Upstream/Registry/Shared.antt =====
-- A table of shared runtimes with reference counts: the map from a key to an entry, as an association
-- list. A runtime is the number of its allocation; a panic is `none`. The count of
-- references, an int in the code, is a natural number that does not wrap.
use g_gateway.Base.{
  ℕ, ◌+◌, ◌-◌, ◌≤◌, ◌<◌, ◌≡◌, refl, sym, ap, ◌∙◌, subst, inl, inr, ◌↔◌, Bool, true, false, Option,
  none, some, List, [], ◌∷◌, ◌==◌, if◌then◌else◌, arith, Bool-cases, some-injective,
}

pub record Entry : Type 0 where
  pub runtime : ℕ
  pub refs : ℕ

abbrev pub Table : Type 0 → Type 0
Table K = List (K × Entry)

-- Equality of the keys.
pub record EqKey (K : Type 0) : Type 0 where
  pub eq : K → K → Bool
  pub eq_iff : (a b : K) → (eq a b ≡ true) ↔ (a ≡ b)

module _ {K : Type 0} (E : EqKey K) where
  abbrev pub find : Table K → K → Option Entry
  find [] key = none
  find ((k, e) ∷ rest) key = if E.eq k key then some e else find rest key

  -- The entry of the key, made with a fresh runtime where there is none, gains a reference. The result
  -- tells whether it was made.
  unfoldable pub acquire : Table K → K → ℕ → Table K × Entry × Bool
  acquire [] key fresh =
      let e : Entry = record { runtime = fresh; refs = 1 } in ((key, e) ∷ [], e, true)
  acquire ((k, e) ∷ rest) key fresh =
      let (rest', e', made) = acquire rest key fresh in
      let gained : Entry = record e { refs = e.refs + 1 } in
      if E.eq k key then ((k, gained) ∷ rest, gained, false) else ((k, e) ∷ rest', e', made)

  -- The entry loses a reference, and is deleted with the last one; the result is then its runtime. A
  -- missing entry, or one without references, is a panic.
  unfoldable pub release : Table K → K → Option (Table K × Option ℕ)
  release [] key = none
  release ((k, e) ∷ rest) key =
      let deeper = release rest key in
      if E.eq k key
      then (if e.refs == 0
          then none
          else if e.refs == 1
          then some (rest, some e.runtime)
          else some ((k, record e { refs = e.refs - 1 }) ∷ rest, none))
      else (elim deeper [ none ↦ none | some (rest', deleted) ↦ some ((k, e) ∷ rest', deleted) ])

  -- One of the loops of releaseRefsLocked: the table and the runtimes that are deleted.
  unfoldable pub release_all : Table K → List K → Option (Table K × List ℕ)
  release_all table [] = some (table, [])
  release_all table (key ∷ keys) = elim (release table key) [
    | none ↦ none
    | some (table', deleted) ↦ elim (release_all table' keys) [
      | none ↦ none
      | some (table'', others) ↦
          some (table'', elim deleted [ none ↦ others | some runtime ↦ runtime ∷ others ])
    ]
  ]

  -- The references of a key.
  abbrev pub refs : Table K → K → ℕ
  refs [] key = 0
  refs ((k, e) ∷ rest) key = if E.eq k key then e.refs else refs rest key

  abbrev pub one_if : K → K → ℕ
  one_if k key = if E.eq k key then 1 else 0

  -- How often a key is owned.
  abbrev pub times : List K → K → ℕ
  times [] key = 0
  times (k ∷ ks) key = one_if k key + times ks key

  -- No key stands twice, and every entry is referenced.
  abbrev pub IsTable : Table K → Type 0
  IsTable [] = Unit
  IsTable ((k, e) ∷ rest) = (refs rest k ≡ 0) × (0 < e.refs) × IsTable rest

  eq_self : (k : K) → E.eq k k ≡ true
  eq_self k = (E.eq_iff k k).1 refl

  -- Keys that are equal behave alike.
  eq_swap : (k key j : K) → E.eq k key ≡ true → E.eq key j ≡ E.eq k j
  eq_swap k key j h = ap (λ x. E.eq x j) (sym ((E.eq_iff k key).0 h))

  eq_differ : (k key j : K) → E.eq k key ≡ false → E.eq k j ≡ true → E.eq key j ≡ false
  eq_differ k key j h i = elim (Bool-cases (E.eq key j)) [
    | inl e ↦
        absurd (clash h ((E.eq_iff k key).1 ((E.eq_iff k j).0 i ∙ sym ((E.eq_iff key j).0 e))))
    | inr e ↦ e
  ]
    where
      clash : {b : Bool} → b ≡ false → b ≡ true → ⊥
      clash p q = cc

  one_if_other : (k key : K) → E.eq k key ≡ false → one_if key k ≡ 0
  one_if_other k key f = ground (arith, eq_differ k key k f (eq_self k))

  pub one_if_self : (k : K) → one_if k k ≡ 1
  one_if_self k = ground (arith, eq_self k)

  -- The runtime of a key that is referenced.
  abbrev pub runtime : Table K → K → ℕ
  runtime [] key = 0
  runtime ((k, e) ∷ rest) key = if E.eq k key then e.runtime else runtime rest key

  -- The entry that is found.
  pub find_refs :
      (t : Table K) (key : K) (e : Entry)
      → find t key ≡ some e
      → (e.refs ≡ refs t key) × (e.runtime ≡ runtime t key)
  find_refs [] key e h = absurd cc
  find_refs ((k, e') ∷ rest) key e h = elim (Bool-cases (E.eq k key)) [
    | inl f ↦ rw f (ap (λ x. x.refs) (sym (same f)), ap (λ x. x.runtime) (sym (same f)))
    | inr f ↦ rw f (find_refs rest key e (rw f at h))
  ]
    where
      same : E.eq k key ≡ true → e' ≡ e
      same f = some-injective e' e (rw f at h)

  pub find-some : (t : Table K) (key : K) → 0 < refs t key → (e : Entry) × (find t key ≡ some e)
  find-some [] key h = absurd (omega arith)
  find-some ((k, e') ∷ rest) key h = elim (Bool-cases (E.eq k key)) [
    | inl f ↦ rw f (e', refl)
    | inr f ↦ rw f (find-some rest key (rw f at h))
  ]

  pub runtime-acquire :
      (t : Table K) (key : K) (fresh : ℕ) (j : K)
      → 0 < refs t j
      → runtime (acquire t key fresh).0 j ≡ runtime t j
  unfolding acquire
  runtime-acquire [] key fresh j h = absurd (omega arith)
  runtime-acquire ((k, e) ∷ rest) key fresh j h =
      ground (arith, runtime-acquire rest key fresh j, eq_swap k key j, eq_differ k key j)

  pub refs-acquire :
      (t : Table K) (key : K) (fresh : ℕ) (j : K)
      → refs (acquire t key fresh).0 j ≡ refs t j + one_if key j
  unfolding acquire
  refs-acquire [] key fresh j = ground arith
  refs-acquire ((k, e) ∷ rest) key fresh j =
      ground (arith, refs-acquire rest key fresh j, eq_swap k key j, eq_differ k key j)

  pub acquire-IsTable :
      (t : Table K) (key : K) (fresh : ℕ) → IsTable t → IsTable (acquire t key fresh).0
  unfolding acquire
  acquire-IsTable [] key fresh h = (refl, omega arith, tt)
  acquire-IsTable ((k, e) ∷ rest) key fresh h = elim (Bool-cases (E.eq k key)) [
    | inl f ↦ rw f (h.0, omega arith, h.2)
    | inr f ↦ rw f (
      omega (arith, refs-acquire rest key fresh k, one_if_other k key f, h.0),
      h.1,
      acquire-IsTable rest key fresh h.2,
    )
  ]

  -- What a release of a referenced key does to the table.
  pub record Released (t : Table K) (key : K) : Type 0 where
    pub table : Table K
    pub deleted : Option ℕ
    pub result : release t key ≡ some (table, deleted)
    pub lost : (j : K) → refs table j + one_if key j ≡ refs t j
    pub valid : IsTable table
    pub stable : (j : K) → 0 < refs table j → runtime table j ≡ runtime t j

  release_here :
      (k : K) (e : Entry) (rest : Table K) (key : K)
      → IsTable ((k, e) ∷ rest)
      → E.eq k key ≡ true
      → Released ((k, e) ∷ rest) key
  unfolding release
  release_here k e rest key h f = elim (Bool-cases (e.refs == 1)) [
    | inl g ↦ record {
      table = rest;
      deleted = some e.runtime;
      result = ground (arith, h.1);
      lost = λ j. ground (arith, eq_swap k key j f, absent j);
      valid = h.2;
      stable = λ j p. ground (arith, absent j);
    }
    | inr g ↦ record {
      table = (k, record e { refs = e.refs - 1 }) ∷ rest;
      deleted = none;
      result = ground (arith, h.1);
      lost = λ j. ground (arith, eq_swap k key j f, h.1);
      valid = (h.0, ground (arith, h.1), h.2);
      stable = λ j p. refl;
    }
  ]
    where
      absent : (j : K) → E.eq k j ≡ true → refs rest j ≡ 0
      absent j i = subst (λ x. refs rest x ≡ 0) ((E.eq_iff k j).0 i) h.0

  pub release-Released : (t : Table K) (key : K) → IsTable t → 0 < refs t key → Released t key
  unfolding release
  release-Released [] key h p = absurd (omega arith)
  release-Released ((k, e) ∷ rest) key h p = elim (Bool-cases (E.eq k key)) [
    | inl f ↦ release_here k e rest key h f
    | inr f ↦
        let r = release-Released rest key h.2 (rw f at p) in
        record {
          table = (k, e) ∷ r.table;
          deleted = r.deleted;
          result = rw (f, r.result) refl;
          lost = λ j. ground (arith, r.lost j, eq_differ k key j f);
          valid = (omega (arith, r.lost k, h.0), h.1, r.valid);
          stable = λ j q. ground (arith, r.stable j);
        }
  ]

  pub record AllReleased (t : Table K) (keys : List K) : Type 0 where
    pub table : Table K
    pub deleted : List ℕ
    pub result : release_all t keys ≡ some (table, deleted)
    pub lost : (j : K) → refs table j + times keys j ≡ refs t j
    pub valid : IsTable table
    pub stable : (j : K) → 0 < refs table j → runtime table j ≡ runtime t j

  release_all_cons :
      (t u w : Table K) (key : K) (keys : List K) (deleted : Option ℕ) (others : List ℕ)
      → release t key ≡ some (u, deleted)
      → release_all u keys ≡ some (w, others)
      → release_all t (key ∷ keys) ≡ some (w, elim deleted [ none ↦ others | some x ↦ x ∷ others ])
  unfolding release_all
  release_all_cons t u w key keys deleted others p q = rw (p, q, release_all) refl

  -- Where every key is referenced as often as it is to be released, no release panics.
  pub release_all-AllReleased :
      (t : Table K) (keys : List K)
      → IsTable t
      → ((j : K) → times keys j ≤ refs t j)
      → AllReleased t keys
  unfolding release_all
  release_all-AllReleased t [] h p = record {
    table = t;
    deleted = [];
    result = refl;
    lost = λ j. omega arith;
    valid = h;
    stable = λ j q. refl;
  }
  release_all-AllReleased t (key ∷ keys) h p =
      let r = release-Released t key h (omega (arith, p key, one_if_self key)) in
      let rs = release_all-AllReleased r.table keys r.valid (λ j. omega (arith, r.lost j, p j)) in
      record {
        table = rs.table;
        deleted = elim r.deleted [ none ↦ rs.deleted | some x ↦ x ∷ rs.deleted ];
        result =
            release_all_cons t r.table rs.table key keys r.deleted rs.deleted r.result rs.result;
        lost = λ j. omega (arith, r.lost j, rs.lost j);
        valid = rs.valid;
        stable = λ j q. rs.stable j q ∙ r.stable j (omega (arith, rs.lost j));
      }

  -- A table without references is empty.
  pub empty_table : (t : Table K) → IsTable t → ((j : K) → refs t j ≡ 0) → t ≡ []
  empty_table [] h p = refl
  empty_table ((k, e) ∷ rest) h p = absurd (ground (arith, p k, eq_self k, h.1))
