-- ===== src/Upstream/Wrr/Schedule.antt =====
-- The schedule that the deadline heap yields holds each slot as often as it has places.
use g_gateway.Base.{
  ℕ, zero, suc, ◌+◌, ◌-◌, ◌<◌, ◌≤◌, ◌≡◌, refl, Bool-cases, inl, inr, some, List, [], ◌∷◌, ◌++◌, All,
  arith, count, count-append, length, length-append, ◌==◌, if◌then◌else◌, u32_mod,
}
use g_gateway.Upstream.Wrr.{WrrSlot, less, pop_min, push_again, drain}

-- A measure of the slots, added up over the heap.
abbrev pub total : (WrrSlot → ℕ) → List WrrSlot → ℕ
total f [] = 0
total f (x ∷ xs) = f x + total f xs

total-pop_min :
    (f : WrrSlot → ℕ) (x : WrrSlot) (xs : List WrrSlot)
    → f (pop_min x xs).0 + total f (pop_min x xs).1 ≡ f x + total f xs
unfolding pop_min
total-pop_min f x [] = refl
total-pop_min f x (y ∷ ys) = elim (Bool-cases (less (pop_min y ys).0 x)) [
  | inl e ↦ rw (e, pop_min) (omega (arith, total-pop_min f y ys))
  | inr e ↦ rw (e, pop_min) (omega (arith, total-pop_min f y ys))
]

All-pop_min {κ} :
    (P : WrrSlot → Type κ) (x : WrrSlot) (xs : List WrrSlot)
    → P x
    → All P xs
    → P (pop_min x xs).0 × All P (pop_min x xs).1
unfolding pop_min
All-pop_min P x [] p h = (p, h)
All-pop_min P x (y ∷ ys) p h =
    let (a, b) = All-pop_min P y ys h.0 h.1 in
    elim (Bool-cases (less (pop_min y ys).0 x)) [
      | inl e ↦ rw (e, pop_min) (a, (p, b))
      | inr e ↦ rw (e, pop_min) (p, (a, b))
    ]

-- A slot in the heap has a place left, and its counts fit their words.
abbrev pub IsLive : WrrSlot → Type 0
IsLive s = (s.emitted < s.slot.assigned) × (s.slot.assigned < u32_mod)

abbrev pub remaining : WrrSlot → ℕ
remaining s = s.slot.assigned - s.emitted

abbrev pub owed : ℕ → WrrSlot → ℕ
owed i s = if s.slot.index == i then remaining s else 0

-- A round takes one place from the slot that it emits.
push_again_lem :
    (s : WrrSlot) (rest : List WrrSlot) (i : ℕ)
    → IsLive s
    → All IsLive rest
    → (total remaining (push_again s rest) + 1 ≡ remaining s + total remaining rest)
      × (total (owed i) (push_again s rest) + (if s.slot.index == i then 1 else 0)
          ≡ owed i s + total (owed i) rest)
      × All IsLive (push_again s rest)
unfolding push_again
push_again_lem s rest i l h = ground arith

-- With a round of fuel for each place, the loop ends, and appends each index as often as its slots
-- have places left.
pub record Drained (heap : List WrrSlot) (out schedule : List ℕ) : Type 0 where
  pub counted : (i : ℕ) → count i schedule ≡ count i out + total (owed i) heap
  pub long : length schedule ≡ length out + total remaining heap

pub drain-Drained :
    (fuel : ℕ) (heap : List WrrSlot) (out : List ℕ)
    → All IsLive heap
    → total remaining heap ≤ fuel
    → (schedule : List ℕ) × (drain fuel heap out ≡ some schedule) × Drained heap out schedule
unfolding drain
drain-Drained zero [] out h le =
    (out, refl, record { counted = λ i. omega arith; long = omega arith })
drain-Drained (suc fuel) [] out h le =
    (out, refl, record { counted = λ i. omega arith; long = omega arith })
drain-Drained zero (x ∷ xs) out h le = absurd (omega arith)
drain-Drained (suc fuel) (x ∷ xs) out h le =
    let s = (pop_min x xs).0 in
    let rest = (pop_min x xs).1 in
    let (live, others) = All-pop_min IsLive x xs h.0 h.1 in
    let all = total-pop_min remaining x xs in
    let (spent, _, left) = push_again_lem s rest 0 live others in
    let (schedule, ends, d) =
      drain-Drained fuel (push_again s rest) (out ++ s.slot.index ∷ []) left
        (omega (arith, spent, all)) in
    (
      schedule,
      ends,
      record {
        counted = λ i. omega (
          arith,
          d.counted i,
          count-append i out (s.slot.index ∷ []),
          (push_again_lem s rest i live others).1,
          total-pop_min (owed i) x xs,
        );
        long = omega (arith, d.long, length-append out (s.slot.index ∷ []), spent, all);
      },
    )
