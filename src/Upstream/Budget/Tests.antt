-- ===== src/Upstream/Budget/Tests.antt =====
-- Budgets at concrete policies.
use g_gateway.Base.{ℕ, ◌+◌, ◌≤◌, ◌<◌, ◌≡◌, refl, ◌⊎◌, true, false, [], arith}
use g_gateway.Model.{RetryBudgetPolicy}
use g_gateway.Upstream.Budget.{
  RetryBudget, RetryPermit, done, panic_invalid, panic_twice, new_retry_budget, credit_primary,
  reserve_slot, record_max_observed, pay_credit, acquire, release, permit, no_permit,
  retry_credit_unit,
}
use g_gateway.Upstream.Budget.Methods.{IsValid, acquire_cases, release-acquire}
use g_gateway.Upstream.Budget.Threads.{System, Step, Reach, initial, Reach-inflight}

abbrev tenth : RetryBudgetPolicy
tenth = record { ratio_per1000 = 600; burst = 2; max_inflight = 1 }

-- Two primaries pay for one retry.
abbrev paid : RetryBudget
paid = record {
  ratio = 600;
  max_credits = 2000;
  max_inflight = 1;
  credits = 1200;
  inflight = 0;
  max_observed = 0;
}

credited : credit_primary (credit_primary (new_retry_budget tenth)) ≡ paid
unfolding new_retry_budget credit_primary
credited = refl

one_at_a_time : (acquire (acquire paid).0).2 ≡ false
unfolding acquire
one_at_a_time = refl

paid-IsValid : IsValid paid
paid-IsValid = omega arith

acquire_cases_example :
    ((0 < paid.max_inflight)
      × (retry_credit_unit ≤ 1200)
      × ((acquire paid).1 ≡ permit)
      × ((acquire paid).2 ≡ true)
      × ((acquire paid).0.inflight ≡ 0 + 1)
      × ((acquire paid).0.credits + retry_credit_unit ≡ 1200))
    ⊎ (((paid.max_inflight ≤ 0) ⊎ (1200 < retry_credit_unit))
        × ((acquire paid).1 ≡ no_permit)
        × ((acquire paid).2 ≡ false)
        × ((acquire paid).0.inflight ≡ 0)
        × ((acquire paid).0.credits ≡ 1200))
acquire_cases_example = acquire_cases paid paid-IsValid

release-acquire_example :
    (b' : RetryBudget) × (p : RetryPermit) × (release (acquire paid).1 (acquire paid).0 ≡ done p b')
    × (b'.inflight ≡ 0)
    × (release p b' ≡ panic_twice p)
    × (release no_permit b' ≡ panic_invalid)
unfolding acquire
release-acquire_example = release-acquire paid paid-IsValid refl

-- Two primaries are credited and one retry is granted.
abbrev start : System
start = initial paid

granted : Reach (initial (new_retry_budget tenth)) (record start {
  budget = record paid { credits = 200; inflight = 1; max_observed = 1 };
  holding = 1;
  primaries = 2;
  retries = 1;
})
unfolding new_retry_budget credit_primary reserve_slot record_max_observed pay_credit
granted =
    Reach.next
      (Reach.next
        (Reach.next (Reach.next (Reach.next Reach.here (Step.credit _)) (Step.credit _))
          (Step.reserve _ (record paid { inflight = 1 }) refl))
        (Step.observe _ 1 [] [] refl))
      (Step.pay _ (record paid { credits = 200; inflight = 1; max_observed = 1 }) 0 refl refl)

Reach-inflight_example : (◌≡◌ {A = ℕ} 1 (0 + 0 + 0 + 1)) × (1 ≤ 1) × (1 ≤ 1)
Reach-inflight_example = Reach-inflight tenth (omega arith) (omega arith) (omega arith) granted
