-- ===== src/Upstream/Wrr/Selection.antt =====
-- Choosing from a compiled schedule.
use native.Mathlib.Nat.{mod-add-mod, mod-eq_of_lt, mod-lt, add-mod_right}
use native.Mathlib.Decide.{dec_le}
use g_gateway.Base.{
  ℕ, zero, suc, ◌+◌, ◌-◌, ◌%◌, ◌<◌, ◌≤◌, ◌≡◌, refl, sym, ◌∙◌, ap, subst, Bool, true, false, ◌⊎◌,
  inl, inr, List, [], ◌∷◌, arith, Bool-cases, length, get_or, In, All, All-of-In, u64_mod,
}
use g_gateway.Upstream.Wrr.{WrrSelector, next_ticket, select_index, scan, select_next}

pub next_ticket_lem : (n : ℕ) → n + 1 ≤ u64_mod → next_ticket n ≡ (n, (n + 1) % u64_mod)
unfolding next_ticket
next_ticket_lem n h = ground arith

pub In-get_or : (xs : List ℕ) (i : ℕ) → i < length xs → In (get_or xs i 0) xs
In-get_or [] i h = absurd (omega arith)
In-get_or (x ∷ xs) zero h = inl refl
In-get_or (x ∷ xs) (suc i) h = inr (In-get_or xs i (omega arith))

pub position : (o : ℕ) (xs : List ℕ) → In o xs → (i : ℕ) × (i < length xs) × (get_or xs i 0 ≡ o)
position o [] h = elim h [ ]
position o (x ∷ xs) (inl e) = (0, omega arith, sym e)
position o (x ∷ xs) (inr h) = let (i, lt, e) = position o xs h in (suc i, omega arith, e)

-- What an unsuccessful scan has seen, and what a successful one has found.
scan-false :
    (xs : List ℕ) (selectable : ℕ → Bool) (start offset rounds k : ℕ)
    → (scan xs selectable start offset rounds).1 ≡ false
    → offset ≤ k
    → k < offset + rounds
    → selectable (get_or xs ((start + k) % u64_mod % length xs) 0) ≡ false
unfolding scan
scan-false xs p start offset zero k e a b = absurd (omega arith)
scan-false xs p start offset (suc rounds) k e a b =
    elim (Bool-cases (p (get_or xs ((start + offset) % u64_mod % length xs) 0))) [
      | inl hit ↦ absurd (cc (rw (hit, scan) at e))
      | inr miss ↦ elim (dec_le k offset) [
        | yes le ↦ let same : k ≡ offset = omega arith in rw same miss
        | no gt ↦
            scan-false xs p start (offset + 1) rounds k (rw (miss, scan) at e) (omega arith)
              (omega arith)
      ]
    ]

scan-true :
    (xs : List ℕ) (selectable : ℕ → Bool) (start offset rounds : ℕ)
    → 0 < length xs
    → (scan xs selectable start offset rounds).1 ≡ true
    → In (scan xs selectable start offset rounds).0 xs
      × (selectable (scan xs selectable start offset rounds).0 ≡ true)
unfolding scan
scan-true xs p start offset zero h e = absurd (cc e)
scan-true xs p start offset (suc rounds) h e =
    elim (Bool-cases (p (get_or xs ((start + offset) % u64_mod % length xs) 0))) [
      | inl hit ↦ rw (hit, scan) (In-get_or xs _ (mod-lt ((start + offset) % u64_mod) h), hit)
      | inr miss ↦
          rw (miss, scan) (scan-true xs p start (offset + 1) rounds h (rw (miss, scan) at e))
    ]

-- Every position of a schedule of `n` is met within `n` steps from any start.
pub residue : (n start i : ℕ) → i < n → (k : ℕ) × (k < n) × ((start + k) % n ≡ i)
residue n start i h =
    let q = start % n in
    let low : q < n = mod-lt start (omega arith) in
    elim (dec_le q i) [
      | yes le ↦ (
        i - q,
        omega arith,
        sym (mod-add-mod start n (i - q)) ∙ ap (λ t. t % n) (omega arith) ∙ mod-eq_of_lt h,
      )
      | no gt ↦ (
        i + n - q,
        omega arith,
        sym (mod-add-mod start n (i + n - q))
            ∙ ap (λ t. t % n) (omega arith)
            ∙ add-mod_right i n
            ∙ mod-eq_of_lt h,
      )
    ]

scan-All :
    (xs : List ℕ) (selectable : ℕ → Bool) (start : ℕ)
    → start + length xs ≤ u64_mod
    → (scan xs selectable start 0 (length xs)).1 ≡ false
    → All (λ o. selectable o ≡ false) xs
scan-All xs p start fits e =
    All-of-In (λ o. p o ≡ false) xs
      λ o m.
        let (i, lt, at) = position o xs m in
        let (k, below, same) = residue (length xs) start i lt in
        let seen = scan-false xs p start 0 (length xs) k e (omega arith) (omega arith) in
        let plain : (start + k) % u64_mod ≡ start + k = mod-eq_of_lt (omega arith) in
        subst (λ v. p v ≡ false)
          (ap (λ t. get_or xs (t % length xs) 0) plain ∙ ap (λ t. get_or xs t 0) same ∙ at) seen

-- The ordinals that a selector can choose.
abbrev candidates_of : List ℕ → ℕ → List ℕ
candidates_of [] direct = direct ∷ []
candidates_of (x ∷ xs) direct = x ∷ xs

abbrev pub candidates : WrrSelector → List ℕ
candidates s = candidates_of s.schedule s.direct

-- A result of selectNext: a selectable candidate, or none where no candidate is selectable.
abbrev pub Chosen : List ℕ → (ℕ → Bool) → ℕ × Bool → Type 0
Chosen options selectable r =
    ((r.1 ≡ true) × In r.0 options × (selectable r.0 ≡ true))
    ⊎ ((r.1 ≡ false) × All (λ o. selectable o ≡ false) options)

scan-Chosen :
    (xs : List ℕ) (selectable : ℕ → Bool) (start : ℕ)
    → 0 < length xs
    → start + length xs ≤ u64_mod
    → Chosen xs selectable (scan xs selectable start 0 (length xs))
scan-Chosen xs p start h fits = elim (Bool-cases (scan xs p start 0 (length xs)).1) [
  | inl e ↦ let (m, t) = scan-true xs p start 0 (length xs) h e in inl (e, m, t)
  | inr e ↦ inr (e, scan-All xs p start fits e)
]

select_next_of :
    (xs : List ℕ) (direct sequence : ℕ) (selectable : ℕ → Bool)
    → sequence + length xs + 1 ≤ u64_mod
    → Chosen
        (candidates_of xs direct)
        selectable
        (select_next (record { schedule = xs; direct = direct }) sequence selectable).0
unfolding select_next
select_next_of [] direct sequence p h = elim (Bool-cases (p direct)) [
  | inl e ↦ inl (e, inl refl, e)
  | inr e ↦ inr (e, (e, tt))
]
select_next_of (x ∷ xs) direct sequence p h =
    let n = length (x ∷ xs) in
    let ticket = next_ticket_lem sequence (omega arith) in
    subst (Chosen (x ∷ xs) p) (sym (ap (λ t. scan (x ∷ xs) p t.0 0 n) ticket))
      (scan-Chosen (x ∷ xs) p sequence (omega arith) (omega arith))

-- While the ticket counter does not wrap during the call, selectNext returns a candidate that is
-- selectable, and reports none exactly where no candidate is selectable.
pub select_next-Chosen :
    (s : WrrSelector) (sequence : ℕ) (selectable : ℕ → Bool)
    → sequence + length s.schedule + 1 ≤ u64_mod
    → Chosen (candidates s) selectable (select_next s sequence selectable).0
select_next-Chosen s sequence p h = select_next_of s.schedule s.direct sequence p h

select_index_of :
    (xs : List ℕ) (direct sequence : ℕ) (selectable : ℕ → Bool)
    → let s : WrrSelector = record { schedule = xs; direct = direct } in
      sequence + 1 ≤ u64_mod
      → selectable (select_index s sequence).0 ≡ true
      → select_next s sequence selectable
        ≡ (((select_index s sequence).0, true), (select_index s sequence).1)
unfolding select_next select_index scan
select_index_of [] direct sequence p h e = rw e
select_index_of (x ∷ xs) direct sequence p h e =
    let ticket = next_ticket_lem sequence h in
    let first : (sequence + 0) % u64_mod ≡ sequence = omega arith in
    let here = rw (ticket, select_index) at e in
    rw (ticket, select_next, select_index) (rw (first, here))

-- Where the endpoint whose turn it is can be selected, selectNext is selectIndex.
pub select_next-select_index :
    (s : WrrSelector) (sequence : ℕ) (selectable : ℕ → Bool)
    → sequence + 1 ≤ u64_mod
    → selectable (select_index s sequence).0 ≡ true
    → select_next s sequence selectable
      ≡ (((select_index s sequence).0, true), (select_index s sequence).1)
select_next-select_index s sequence p h e = select_index_of s.schedule s.direct sequence p h e
