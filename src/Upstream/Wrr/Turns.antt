-- ===== src/Upstream/Wrr/Turns.antt =====
-- A full cycle of selections.
use native.Mathlib.Nat.{mod-eq_of_lt, add-mod_right}
use g_gateway.Base.{
  ℕ, zero, suc, ◌+◌, ◌%◌, ◌<◌, ◌≡◌, refl, ◌∙◌, ap, List, [], ◌∷◌, arith, length, get_or, count,
  ◌==◌, if◌then◌else◌, u64_mod,
}
use g_gateway.Upstream.Wrr.{WrrSelector, select_index}
use g_gateway.Upstream.Wrr.Selection.{next_ticket_lem}

-- The endpoints of the next `n` calls of selectIndex.
unfoldable pub turns : ℕ → WrrSelector → ℕ → List ℕ
turns zero s sequence = []
turns (suc n) s sequence = (select_index s sequence).0 ∷ turns n s (select_index s sequence).1

-- A sum over `n` consecutive tickets.
window : (ℕ → ℕ) → ℕ → ℕ → ℕ
window f start zero = 0
window f start (suc n) = f start + window f (start + 1) n

window-last : (f : ℕ → ℕ) (start n : ℕ) → window f start (suc n) ≡ window f start n + f (start + n)
unfolding window
window-last f start zero = omega (arith, ap f (plain start))
  where
    plain : (a : ℕ) → a ≡ a + 0
    plain a = omega arith
window-last f start (suc n) = omega (arith, window-last f (start + 1) n, ap f (assoc start n))
  where
    assoc : (a b : ℕ) → a + 1 + b ≡ a + suc b
    assoc a b = omega arith

module _ (f : ℕ → ℕ) (n : ℕ) (periodic : (t : ℕ) → f (t + n) ≡ f t) where
  window-shift : (start : ℕ) → window f (start + 1) n ≡ window f start n
  unfolding window
  window-shift start = omega (arith, window-last f start n, periodic start)

  window-start : (start : ℕ) → window f start n ≡ window f 0 n
  window-start zero = refl
  window-start (suc start) =
      ap (λ (t : ℕ). window f t n) (omega arith) ∙ window-shift start ∙ window-start start

abbrev hit : ℕ → List ℕ → ℕ → ℕ
hit i xs t = if get_or xs (t % length xs) 0 == i then 1 else 0

-- A window over a list's own positions counts its occurrences.
window-count :
    (i : ℕ) (ys : List ℕ) (f : ℕ → ℕ) (start : ℕ)
    → ((k : ℕ) → k < length ys → f (start + k) ≡ (if get_or ys k 0 == i then 1 else 0))
    → window f start (length ys) ≡ count i ys
unfolding window
window-count i [] f start h = refl
window-count i (y ∷ ys) f start h =
    let here = h 0 (omega arith) in
    let rest =
      window-count i ys f (start + 1) (λ k lt. ap f (shift start k) ∙ h (suc k) (omega arith)) in
    omega (arith, ap f (plain start), here, rest)
  where
    shift : (a b : ℕ) → a + 1 + b ≡ a + suc b
    shift a b = omega arith

    plain : (a : ℕ) → a ≡ a + 0
    plain a = omega arith

hit_periodic : (i : ℕ) (xs : List ℕ) (t : ℕ) → hit i xs (t + length xs) ≡ hit i xs t
hit_periodic i xs t =
    ap (λ (k : ℕ). if get_or xs k 0 == i then 1 else 0) (add-mod_right t (length xs))

-- The hits of a run of turns are a window of the schedule.
count-turns-window :
    (i n x : ℕ) (xs : List ℕ) (direct sequence : ℕ)
    → sequence + n < u64_mod
    → count i (turns n (record { schedule = x ∷ xs; direct = direct }) sequence)
      ≡ window (hit i (x ∷ xs)) sequence n
unfolding turns window select_index
count-turns-window i zero x xs direct sequence h = refl
count-turns-window i (suc n) x xs direct sequence h =
    let ticket = next_ticket_lem sequence (omega arith) in
    let after : (sequence + 1) % u64_mod ≡ sequence + 1 = omega arith in
    rw (ticket, after, select_index)
      (ap (λ (t : ℕ). hit i (x ∷ xs) sequence + t)
        (count-turns-window i n x xs direct (sequence + 1) (omega arith)))

count-turns_of :
    (i : ℕ) (xs : List ℕ) (direct sequence : ℕ)
    → sequence + length xs < u64_mod
    → count i (turns (length xs) (record { schedule = xs; direct = direct }) sequence) ≡ count i xs
unfolding turns
count-turns_of i [] direct sequence h = refl
count-turns_of i (x ∷ xs) direct sequence h =
    let n = length (x ∷ xs) in
    count-turns-window i n x xs direct sequence h
    ∙ window-start (hit i (x ∷ xs)) n (hit_periodic i (x ∷ xs)) sequence
    ∙ window-count i (x ∷ xs) (hit i (x ∷ xs)) 0 (λ k lt.
      ap (λ (t : ℕ). if get_or (x ∷ xs) t 0 == i then 1 else 0)
        (ap (λ (t : ℕ). t % n) (omega arith) ∙ mod-eq_of_lt lt))

-- Any run of as many calls of selectIndex as the schedule is long, wherever it starts, chooses each
-- endpoint as often as the schedule holds it, while the sequence stays below the end of its word.
pub count-turns :
    (i : ℕ) (s : WrrSelector) (sequence : ℕ)
    → sequence + length s.schedule < u64_mod
    → count i (turns (length s.schedule) s sequence) ≡ count i s.schedule
count-turns i s sequence h = count-turns_of i s.schedule s.direct sequence h
