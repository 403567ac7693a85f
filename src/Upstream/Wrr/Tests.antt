-- ===== src/Upstream/Wrr/Tests.antt =====
-- Schedules and selections at concrete endpoints.
use g_gateway.Base.{◌≡◌, refl, true, some, [], ◌∷◌, arith, bytes, List, count, ◌==◌}
use g_gateway.Upstream.Weights.{WeightedEndpoint, active_slots, divisor_from, normalize, sum_from}
use g_gateway.Upstream.Wrr.{
  WrrSelector, Compiled, ok, compile_active, compile_wrr, assign, drain, scan, next_ticket,
  select_index, select_next,
}
use g_gateway.Upstream.Wrr.Compile.{Outcome, compile_wrr-Outcome}
use g_gateway.Upstream.Wrr.Selection.{
  Chosen, candidates, select_next-Chosen, select_next-select_index,
}
use g_gateway.Upstream.Wrr.Turns.{turns, count-turns}

-- What the compiler and the selections compute with.
wrr : Unit {0}
unfolding compile_wrr compile_active assign drain active_slots divisor_from normalize sum_from
    select_index select_next next_ticket scan
wrr = tt

abbrev three : List WeightedEndpoint
three =
    record { identity = bytes "http://a:80"; weight = 4 }
    ∷ record { identity = bytes "http://b:80"; weight = 0 }
    ∷ record { identity = bytes "http://c:80"; weight = 2 }
    ∷ []

abbrev selector : WrrSelector
selector = record { schedule = 0 ∷ 0 ∷ 2 ∷ []; direct = 0 }

compiled_three : compile_wrr three true ≡ some (ok selector)
unfolding wrr
compiled_three = refl

around : turns 4 selector 5 ≡ 2 ∷ 0 ∷ 0 ∷ 2 ∷ []
unfolding wrr turns
around = refl

skipped : select_next selector 4 (λ o. o == 2) ≡ ((2, true), 5)
unfolding wrr
skipped = refl

compile_wrr-Outcome_example : (r : Compiled) × (compile_wrr three true ≡ some r) × Outcome three r
compile_wrr-Outcome_example = compile_wrr-Outcome three (omega arith) (omega arith)

select_next-Chosen_example :
    Chosen (candidates selector) (λ o. o == 2) (select_next selector 4 (λ o. o == 2)).0
select_next-Chosen_example = select_next-Chosen selector 4 (λ o. o == 2) (omega arith)

select_next-select_index_example :
    select_next selector 4 (λ o. o == 0)
    ≡ (((select_index selector 4).0, true), (select_index selector 4).1)
unfolding wrr
select_next-select_index_example =
    select_next-select_index selector 4 (λ o. o == 0) (omega arith) refl

count-turns_example : count 0 (turns 3 selector 5) ≡ 2
count-turns_example = count-turns 0 selector 5 (omega arith)
