-- ===== src/Upstream/Weights/Gcd.antt =====
-- The greatest common divisor, and the weights in lowest terms.
use mathlib.Core.WellFounded.{Acc}
use native.Mathlib.Decide.{dec_lt}
use mathlib.Core.Logic.{dif_pos, dif_neg}
use native.Mathlib.Bridge.{le_prop}
use native.Mathlib.Nat.{div-add-mod}
use g_gateway.Base.{ℕ, ◌+◌, ◌*◌, ◌/◌, ◌%◌, ◌<◌, ◌≡◌, sym, List, [], ◌∷◌, All, arith}
use g_gateway.Base.Order.{lt_wf}
use g_gateway.Upstream.Weights.{Slot, gcd_acc, greatest_common_divisor, divisor_from}

abbrev pub Divides : ℕ → ℕ → Type 0
Divides d n = (k : ℕ) × (n ≡ k * d)

Divides-combine : (d a b q r : ℕ) → a ≡ b * q + r → Divides d b → Divides d r → Divides d a
Divides-combine d a b q r e (k, p) (l, s) = (k * q + l, rw (e, p, s) (omega arith))

pub Divides-trans : (c d n : ℕ) → Divides c d → Divides d n → Divides c n
Divides-trans c d n (k, p) (l, s) = (l * k, rw (s, p) (omega arith))

gcd_acc-Divides :
    (left right : ℕ) (w : Acc ◌<◌ right)
    → Divides (gcd_acc left right w) left × Divides (gcd_acc left right w) right
unfolding gcd_acc
gcd_acc-Divides left right (Acc.intro _ smaller) = elim (dec_lt 0 right) [
  | yes h ↦
      let (p, q) = gcd_acc-Divides right (left % right) (smaller (left % right) (omega arith)) in
      rw (dif_pos _ le_prop h) (
        Divides-combine _ left right (left / right) (left % right) (sym (div-add-mod left right)) p
            q,
        p,
      )
  | no n ↦ rw (dif_neg _ n) ((1, omega arith), (0, omega arith))
]

gcd_acc_pos : (left right : ℕ) (w : Acc ◌<◌ right) → 0 < left → 0 < gcd_acc left right w
unfolding gcd_acc
gcd_acc_pos left right (Acc.intro _ smaller) h = elim (dec_lt 0 right) [
  | yes p ↦
      rw (dif_pos _ le_prop p)
        (gcd_acc_pos right (left % right) (smaller (left % right) (omega arith)) p)
  | no n ↦ rw (dif_neg _ n) h
]

pub gcd-Divides :
    (left right : ℕ)
    → Divides (greatest_common_divisor left right) left
      × Divides (greatest_common_divisor left right) right
unfolding greatest_common_divisor
gcd-Divides left right = gcd_acc-Divides left right (lt_wf.apply right)

pub gcd_pos : (left right : ℕ) → 0 < left → 0 < greatest_common_divisor left right
unfolding greatest_common_divisor
gcd_pos left right h = gcd_acc_pos left right (lt_wf.apply right) h

-- The divisor of the loop divides the start and every weight.
pub divisor_from-Divides :
    (d : ℕ) (ss : List Slot)
    → Divides (divisor_from d ss) d × All (λ s. Divides (divisor_from d ss) s.weight) ss
unfolding divisor_from
divisor_from-Divides d [] = ((1, omega arith), tt)
divisor_from-Divides d (s ∷ ss) =
    let (p, q) = divisor_from-Divides (greatest_common_divisor d s.weight) ss in
    let (l, r) = gcd-Divides d s.weight in
    (Divides-trans _ _ d p l, (Divides-trans _ _ s.weight p r, q))

pub divisor_from_pos : (d : ℕ) (ss : List Slot) → 0 < d → 0 < divisor_from d ss
unfolding divisor_from
divisor_from_pos d [] h = h
divisor_from_pos d (s ∷ ss) h =
    divisor_from_pos (greatest_common_divisor d s.weight) ss (gcd_pos d s.weight h)
