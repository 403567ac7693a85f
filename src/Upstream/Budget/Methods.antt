-- ===== src/Upstream/Budget/Methods.antt =====
-- The methods of one caller without interference.
use g_gateway.Base.{◌+◌, ◌≤◌, ◌<◌, ◌≡◌, refl, ◌⊎◌, true, false, arith, u32_mod, u64_mod, u16_mod}
use g_gateway.Model.{RetryBudgetPolicy}
use g_gateway.Upstream.Budget.{
  RetryBudget, RetryPermit, done, panic_invalid, panic_twice, new_retry_budget, credit_primary,
  acquire, release, permit, no_permit, retry_credit_unit,
}

-- The bounds on a budget's constants keep its sums inside the machine words, and the counters are
-- inside the constants.
pub record IsValid (b : RetryBudget) : Type 0 where
  pub word_credits : b.max_credits + b.ratio < u64_mod
  pub word_inflight : b.max_inflight < u32_mod
  pub credits_bound : b.credits ≤ b.max_credits
  pub inflight_bound : b.inflight ≤ b.max_inflight
  pub observed_bound : b.max_observed ≤ b.max_inflight

-- A budget made from a policy of 16-bit numbers is valid.
pub new-IsValid :
    (p : RetryBudgetPolicy)
    → p.ratio_per1000 < u16_mod
    → p.burst < u16_mod
    → p.max_inflight < u16_mod
    → IsValid (new_retry_budget p)
unfolding new_retry_budget
new-IsValid p r b m = omega arith

pub credit_primary-IsValid : (b : RetryBudget) → IsValid b → IsValid (credit_primary b)
unfolding credit_primary
credit_primary-IsValid b v = ground arith

-- A primary request adds at most the ratio.
pub credit_primary-credits :
    (b : RetryBudget)
    → IsValid b
    → ((credit_primary b).credits ≤ b.credits + b.ratio)
      × ((credit_primary b).inflight ≡ b.inflight)
unfolding credit_primary
credit_primary-credits b v = ground arith

pub acquire-IsValid : (b : RetryBudget) → IsValid b → IsValid (acquire b).0
unfolding acquire
acquire-IsValid b v = ground arith

-- Acquire succeeds exactly when a slot and a whole credit unit are free. Then it takes one of
-- each; otherwise it leaves the credits and the slots as they were.
pub acquire_cases :
    (b : RetryBudget)
    → IsValid b
    → ((b.inflight < b.max_inflight)
        × (retry_credit_unit ≤ b.credits)
        × ((acquire b).1 ≡ permit)
        × ((acquire b).2 ≡ true)
        × ((acquire b).0.inflight ≡ b.inflight + 1)
        × ((acquire b).0.credits + retry_credit_unit ≡ b.credits))
      ⊎ (((b.max_inflight ≤ b.inflight) ⊎ (b.credits < retry_credit_unit))
          × ((acquire b).1 ≡ no_permit)
          × ((acquire b).2 ≡ false)
          × ((acquire b).0.inflight ≡ b.inflight)
          × ((acquire b).0.credits ≡ b.credits))
unfolding acquire
acquire_cases b v = ground arith

-- A permit gives back the slot it took, once: a second release of the same permit panics, and so
-- does the release of a permit that was never granted.
pub release-acquire :
    (b : RetryBudget)
    → IsValid b
    → (acquire b).2 ≡ true
    → (b' : RetryBudget) × (p : RetryPermit) × (release (acquire b).1 (acquire b).0 ≡ done p b')
      × (b'.inflight ≡ b.inflight)
      × (release p b' ≡ panic_twice p)
      × (release no_permit b' ≡ panic_invalid)
unfolding acquire release
release-acquire b v granted = (
  record (acquire b).0 { inflight = b.inflight },
  record { budget = true; released = true },
  ground arith,
  refl,
  refl,
  refl,
)
