-- ===== src/Upstream/Budget.antt =====
-- internal/upstream/budget.go. A load and the compare-and-swap that succeeds on the loaded value are
-- one atomic step, and a failed compare-and-swap changes nothing: each loop of the source is a step
-- on the budget. `credit_primary`, `acquire` and `release` are the methods without interference;
-- Budget/Threads.antt interleaves their steps.
pub mod Methods
pub mod Threads
mod Tests
use g_gateway.Base.{
  ℕ, ◌+◌, ◌-◌, ◌*◌, ◌%◌, ◌≡◌, Bool, true, false, Option, none, some, ltb, leb, if◌then◌else◌,
  u32_mod, u64_mod,
}
use g_gateway.Model.{RetryBudgetPolicy}

abbrev pub retry_credit_unit : ℕ
retry_credit_unit = 1000

pub record RetryBudget : Type 0 where
  pub ratio : ℕ
  pub max_credits : ℕ
  pub max_inflight : ℕ
  pub credits : ℕ
  pub inflight : ℕ
  pub max_observed : ℕ

-- `budget` tells whether the pointer is set.
pub record RetryPermit : Type 0 where
  pub budget : Bool
  pub released : Bool

pub data Released : Type 0 where
  done : RetryPermit → RetryBudget → Released
  panic_invalid : Released
  panic_twice : RetryPermit → Released

pub new_retry_budget : RetryBudgetPolicy → RetryBudget
new_retry_budget policy = record {
  ratio = policy.ratio_per1000;
  max_credits = policy.burst * retry_credit_unit % u64_mod;
  max_inflight = policy.max_inflight;
  credits = 0;
  inflight = 0;
  max_observed = 0;
}

unfoldable pub credit_primary : RetryBudget → RetryBudget
credit_primary b =
    let next = (b.credits + b.ratio) % u64_mod in
    if leb b.max_credits b.credits
    then b
    else record b { credits = if ltb b.max_credits next then b.max_credits else next }

-- The first loop of Acquire, but for `record_max_observed`: `none` is the refusal.
unfoldable pub reserve_slot : RetryBudget → Option RetryBudget
reserve_slot b =
    if leb b.max_inflight b.inflight
    then none
    else some (record b { inflight = (b.inflight + 1) % u32_mod })

unfoldable pub record_max_observed : RetryBudget → ℕ → RetryBudget
record_max_observed b value =
    if leb value b.max_observed then b else record b { max_observed = value }

-- `inflight.Add(^uint32(0))`.
unfoldable pub return_slot : RetryBudget → RetryBudget
return_slot b = record b { inflight = (b.inflight + (u32_mod - 1)) % u32_mod }

-- The second loop of Acquire: `none` when there is less than one credit unit.
unfoldable pub pay_credit : RetryBudget → Option RetryBudget
pay_credit b =
    if ltb b.credits retry_credit_unit
    then none
    else some (record b { credits = b.credits - retry_credit_unit })

abbrev permit : RetryPermit
permit = record { budget = true; released = false }

abbrev no_permit : RetryPermit
no_permit = record { budget = false; released = false }

unfoldable pub acquire : RetryBudget → RetryBudget × RetryPermit × Bool
unfolding reserve_slot record_max_observed return_slot pay_credit
acquire b = elim (reserve_slot b) [
  | none ↦ (b, no_permit, false)
  | some reserved ↦
      let observed = record_max_observed reserved reserved.inflight in
      elim (pay_credit observed) [
        | none ↦ (return_slot observed, no_permit, false)
        | some paid ↦ (paid, permit, true)
      ]
]

unfoldable pub release : RetryPermit → RetryBudget → Released
unfolding return_slot
release p b =
    if p.budget
    then (if p.released then panic_twice p else done (record p { released = true }) (return_slot b))
    else panic_invalid
