-- ===== src/Upstream/Wrr/Compile.antt =====
-- What compileWRR returns.
use g_gateway.Base.{
  ℕ, ◌*◌, ◌<◌, ◌≤◌, ◌≡◌, refl, ◌≢◌, sym, ◌∙◌, ap, subst, ◌⊎◌, inl, inr, true, some, List, [], ◌∷◌,
  All, arith, Bool-cases, length, count, ltb, ltb→lt, ◌==◌, u32_mod,
}
use g_gateway.Upstream.Weights.{WeightedEndpoint, Slot, active_slots}
use g_gateway.Upstream.Weights.Apportion.{places}
use g_gateway.Upstream.Weights.Terms.{
  indexes, Weighty, active_slots-Weighty, sum_at, weight_at, sum_at-weight, sum_at_none,
}
use g_gateway.Upstream.Wrr.{
  state_required, no_positive_weight, too_many_active, Compiled, ok, err, pending, drain, assign,
  wrr_fuel, compile_active, compile_wrr, max_wrr_schedule,
}
use g_gateway.Upstream.Wrr.Schedule.{total, remaining, owed, IsLive, Drained, drain-Drained}
use g_gateway.Upstream.Wrr.Assign.{Assigned, assign-Assigned}

pending-total :
    (ss : List Slot) (i : ℕ)
    → (total remaining (pending ss) ≡ places ss)
      × (total (owed i) (pending ss) ≡ sum_at (λ s. s.assigned) i ss)
pending-total [] i = (refl, refl)
pending-total (s ∷ ss) i = let (a, b) = pending-total ss i in (omega (arith, a), ground (arith, b))

pending-IsLive :
    (ss : List Slot)
    → All (λ s. 1 ≤ s.assigned) ss
    → places ss ≤ max_wrr_schedule
    → All IsLive (pending ss)
pending-IsLive [] h b = tt
pending-IsLive (s ∷ ss) h b = ((h.0, omega arith), pending-IsLive ss h.1 (omega arith))

pub sum_at-count :
    (i : ℕ) (ss : List Slot)
    → All (λ s. 1 ≤ s.assigned) ss
    → count i (indexes ss) ≤ sum_at (λ s. s.assigned) i ss
sum_at-count i [] h = omega arith
sum_at-count i (s ∷ ss) h = ground (arith, sum_at-count i ss h.1)

pub sum_at-zero :
    (f : Slot → ℕ) (i : ℕ) (ss : List Slot) → count i (indexes ss) ≡ 0 → sum_at f i ss ≡ 0
sum_at-zero f i [] h = refl
sum_at-zero f i (s ∷ ss) h = ground (arith, sum_at-zero f i ss)

pub count-one : (i : ℕ) (ss : List Slot) → sum_at (λ _. 1) i ss ≡ count i (indexes ss)
count-one i [] = refl
count-one i (s ∷ ss) = omega (arith, count-one i ss)

-- A schedule for the endpoints: at most `max_wrr_schedule` long, with every endpoint of positive
-- weight in it and no other, and either in exact proportion to the weights or of full length.
pub record Scheduled (endpoints : List WeightedEndpoint) (schedule : List ℕ) : Type 0 where
  pub bound : length schedule ≤ max_wrr_schedule
  pub present : (i : ℕ) → 0 < weight_at endpoints i → 1 ≤ count i schedule
  pub absent : (i : ℕ) → weight_at endpoints i ≡ 0 → count i schedule ≡ 0
  pub shape :
      ((d : ℕ) × (0 < d) × ((i : ℕ) → count i schedule * d ≡ weight_at endpoints i))
      ⊎ (length schedule ≡ max_wrr_schedule)

module _ (es : List WeightedEndpoint) (short : length es ≤ u32_mod) where
  pub at : (i : ℕ) → sum_at (λ s. s.weight) i (active_slots 0 es) ≡ weight_at es i
  at i = sum_at-weight 0 i es (omega arith) (omega arith) ∙ ap (weight_at es) (omega arith)

  pub none_at : (f : Slot → ℕ) (i : ℕ) → weight_at es i ≡ 0 → sum_at f i (active_slots 0 es) ≡ 0
  none_at f i z =
      sum_at_none f 0 i es (omega arith) (omega arith) (ap (weight_at es) (omega arith) ∙ z)

  pub some_at : (i : ℕ) → 0 < weight_at es i → 1 ≤ count i (indexes (active_slots 0 es))
  some_at i p = elim (Bool-cases (count i (indexes (active_slots 0 es)) == 0)) [
    | inl z ↦
        let none = sum_at-zero (λ s. s.weight) i (active_slots 0 es) (ground arith) in
        absurd (omega (arith, at i, none))
    | inr nz ↦ ground arith
  ]

  Assigned-Scheduled :
      (ss : List Slot) (schedule : List ℕ)
      → Assigned (active_slots 0 es) ss
      → Drained (pending ss) [] schedule
      → Scheduled es schedule
  Assigned-Scheduled ss schedule a d =
      let counted : (i : ℕ) → count i schedule ≡ sum_at (λ s. s.assigned) i ss =
        λ i. omega (arith, d.counted i, (pending-total ss i).1) in
      record {
        bound = omega (arith, d.long, (pending-total ss 0).0, a.bound);
        present = λ i p.
            omega
              (arith, counted i, sum_at-count i ss a.positive, ap (count i) a.same, some_at i p);
        absent = λ i z.
            counted i
            ∙ sum_at-zero (λ s. s.assigned) i ss
                (ap (count i) a.same
                  ∙ sym (count-one i (active_slots 0 es))
                  ∙ none_at (λ _. 1) i z);
        shape = elim a.shape [
          | inl (d', p, q) ↦ inl (d', p, λ i. ap (λ (t : ℕ). t * d') (counted i) ∙ q i ∙ at i)
          | inr full ↦ inr (omega (arith, d.long, (pending-total ss 0).0, full))
        ];
      }

-- What a result of compileWRR says of the endpoints.
abbrev Selects : List WeightedEndpoint → List ℕ → ℕ → Type 0
Selects es [] direct = (0 < weight_at es direct) × ((i : ℕ) → i ≢ direct → weight_at es i ≡ 0)
Selects es (x ∷ xs) direct = Scheduled es (x ∷ xs)

abbrev pub Outcome : List WeightedEndpoint → Compiled → Type 0
Outcome es (err state_required) = ⊥
Outcome es (err no_positive_weight) = (i : ℕ) → weight_at es i ≡ 0
Outcome es (err too_many_active) = max_wrr_schedule < length (active_slots 0 es)
Outcome es (ok s) = Selects es s.schedule s.direct

Scheduled-Selects :
    (es : List WeightedEndpoint) (schedule : List ℕ)
    → (i : ℕ) → 0 < weight_at es i
    → Scheduled es schedule
    → Selects es schedule 0
Scheduled-Selects es [] i p s = absurd (omega (arith, s.present i p))
Scheduled-Selects es (x ∷ xs) i p s = s

module _ (es : List WeightedEndpoint) (short : length es ≤ u32_mod)
    (words : All (λ e. e.weight < u32_mod) es) where
  compile_scheduled :
      (first second : Slot) (rest : List Slot)
      → active_slots 0 es ≡ first ∷ second ∷ rest
      → length (first ∷ second ∷ rest) ≤ max_wrr_schedule
      → (s : List ℕ) × (drain wrr_fuel (pending (assign first (second ∷ rest))) [] ≡ some s)
        × Selects es s 0
  compile_scheduled first second rest e few =
      let weighty = subst Weighty e (active_slots-Weighty 0 es words) in
      let a = assign-Assigned first (second ∷ rest) weighty few in
      let ss = assign first (second ∷ rest) in
      let (s, ends, d) =
        drain-Drained wrr_fuel (pending ss) [] (pending-IsLive ss a.positive a.bound)
          (omega (arith, (pending-total ss 0).0, a.bound)) in
      let here = at es short first.index in
      let heavy : 0 < weight_at es first.index =
        ground (arith, here, ap (sum_at (λ s. s.weight) first.index) e, weighty.0.0) in
      (
        s,
        ends,
        Scheduled-Selects es s first.index heavy
            (Assigned-Scheduled es short ss s (subst (λ t. Assigned t ss) (sym e) a) d),
      )

  compile_active-Outcome :
      (slots : List Slot)
      → active_slots 0 es ≡ slots
      → (r : Compiled) × (compile_active slots ≡ some r) × Outcome es r
  unfolding compile_active
  compile_active-Outcome [] e =
      (err no_positive_weight, refl, λ i. sym (at es short i) ∙ ap (sum_at (λ s. s.weight) i) e)
  compile_active-Outcome (s ∷ []) e =
      let weighty = subst Weighty e (active_slots-Weighty 0 es words) in
      (
        ok (record { schedule = []; direct = s.index }),
        refl,
        (
          ground (arith, at es short s.index, ap (sum_at (λ s. s.weight) s.index) e, weighty.0.0),
          λ i n. ground (arith, at es short i, ap (sum_at (λ s. s.weight) i) e),
        ),
      )
  compile_active-Outcome (first ∷ second ∷ rest) e =
      elim (Bool-cases (ltb max_wrr_schedule (length (first ∷ second ∷ rest)))) [
        | inl many ↦
            rw (many, compile_active)
              (
                err too_many_active,
                refl,
                omega (
                  arith,
                  ap length e,
                  ltb→lt max_wrr_schedule (length (first ∷ second ∷ rest)) many,
                ),
              )
        | inr few ↦
            let (s, ends, good) = compile_scheduled first second rest e (ground arith) in
            rw (few, ends, compile_active) (ok (record { schedule = s; direct = 0 }), refl, good)
      ]

-- For endpoints whose weights are 32-bit words, and no more of them than a 32-bit ordinal can name,
-- compileWRR ends and returns a result: an error where no endpoint has a positive weight, or more
-- than 8,192 of them have; the only endpoint of positive weight; or a schedule of at most 8,192
-- places that holds exactly the endpoints of positive weight, and is either in exact proportion to
-- the weights or 8,192 long.
pub compile_wrr-Outcome :
    (es : List WeightedEndpoint)
    → length es ≤ u32_mod
    → All (λ e. e.weight < u32_mod) es
    → (r : Compiled) × (compile_wrr es true ≡ some r) × Outcome es r
unfolding compile_wrr
compile_wrr-Outcome es short words = compile_active-Outcome es short words (active_slots 0 es) refl
