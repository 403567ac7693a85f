-- ===== src/Proxy/Serving/Paid.antt =====
-- The retry budget while a request's attempts are paid for.
use g_gateway.Base.{
  ℕ, ◌+◌, ◌-◌, ◌*◌, ◌%◌, u32_mod, ◌≤◌, ◌≡◌, refl, sym, subst, ap, Bool, true, false, Option, none,
  some, arith, length, inl, inr, if◌then◌else◌,
}
use g_gateway.Upstream.Budget.{
  RetryBudget, RetryPermit, done, retry_credit_unit, acquire, release, return_slot,
}
use g_gateway.Upstream.Budget.Methods.{IsValid, acquire-IsValid, acquire_cases}
use g_gateway.Proxy.Serving.{Served}

abbrev pub slots : Bool → ℕ
slots held = if held then 1 else 0

-- The budget while `n` attempts are paid for: one slot more is taken where a permit is held, and each
-- attempt but the first has cost a whole credit.
pub record IsPaying (slots_before credits_before n : ℕ) (held : Bool) (permit : RetryPermit)
    (b : RetryBudget) : Type 0 where
  pub valid : IsValid b
  pub inflight : b.inflight ≡ slots_before + slots held
  pub credits : b.credits + n * retry_credit_unit ≤ credits_before + retry_credit_unit
  pub permitted : held ≡ true → permit ≡ record { budget = true; released = false }

module _ (slots_before credits_before : ℕ) where
  pub acquire-IsPaying :
      (n : ℕ) (p : RetryPermit) (b : RetryBudget)
      → IsPaying slots_before credits_before n false p b
      → (acquire b).2 ≡ true
      → IsPaying slots_before credits_before (n + 1) true (acquire b).1 (acquire b).0
  acquire-IsPaying n p b v e = elim (acquire_cases b v.valid) [
    | inl (i, c, q, _, j, d) ↦ record {
      valid = acquire-IsValid b v.valid;
      inflight = omega (arith, j, v.inflight);
      credits = omega (arith, d, v.credits);
      permitted = λ _. q;
    }
    | inr (_, _, f, _, _) ↦ absurd cc
  ]

  pub refuse-IsPaying :
      (n : ℕ) (p : RetryPermit) (b : RetryBudget)
      → IsPaying slots_before credits_before n false p b
      → (acquire b).2 ≡ false
      → IsPaying slots_before credits_before n false (acquire b).1 (acquire b).0
  refuse-IsPaying n p b v e = elim (acquire_cases b v.valid) [
    | inl (i, c, q, f, j, d) ↦ absurd cc
    | inr (_, _, f, j, d) ↦ record {
      valid = acquire-IsValid b v.valid;
      inflight = omega (arith, j, v.inflight);
      credits = omega (arith, d, v.credits);
      permitted = λ (h : false ≡ true). absurd cc;
    }
  ]

  -- A permit that is held is released without a panic.
  pub release-IsPaying :
      (n : ℕ) (p : RetryPermit) (b : RetryBudget)
      → IsPaying slots_before credits_before n true p b
      → (b' : RetryBudget) × (release p b ≡ done (record { budget = true; released = true }) b')
        × IsPaying slots_before credits_before n false
            (record { budget = true; released = true })
            b'
  unfolding release return_slot
  release-IsPaying n p b v = (
    record b { inflight = slots_before },
    released,
    record {
      valid = shrunk;
      inflight = omega arith;
      credits = v.credits;
      permitted = λ (h : false ≡ true). absurd cc;
    },
  )
    where
      granted : RetryPermit
      granted = record { budget = true; released = false }

      shrunk : IsValid (record b { inflight = slots_before })
      shrunk = record {
        word_credits = v.valid.word_credits;
        word_inflight = v.valid.word_inflight;
        credits_bound = v.valid.credits_bound;
        inflight_bound = omega (arith, v.inflight, v.valid.inflight_bound);
        observed_bound = v.valid.observed_bound;
      }

      wrapped : (b.inflight + (u32_mod - 1)) % u32_mod ≡ slots_before
      wrapped = omega (arith, v.inflight, v.valid.inflight_bound, v.valid.word_inflight)

      released :
          release p b
          ≡ done (record { budget = true; released = true }) (record b { inflight = slots_before })
      released =
          subst
            (λ q.
              release q b
              ≡ done (record { budget = true; released = true })
                  (record b { inflight = slots_before }))
            (sym (v.permitted refl))
            (ap (λ m. done (record { budget = true; released = true }) (record b { inflight = m }))
              wrapped)

  -- The budget of a run, where there is one, is paid; without a budget only the first attempt is paid for.
  abbrev pub Paid : Bool → ℕ → Bool → RetryPermit → Option RetryBudget → Type 0
  Paid has_budget n held permit none = (has_budget ≡ false) × (held ≡ false) × (n ≡ 1)
  Paid has_budget n held permit (some b) =
      (has_budget ≡ true) × IsPaying slots_before credits_before n held permit b

  -- The state of a run: its release has not panicked, the plan has as many endpoints as before, and
  -- the budget is paid.
  pub record IsServed {τ : Type 0} (endpoints : ℕ) (has_budget : Bool) (n : ℕ) (held : Bool)
      (s : Served τ) : Type 0 where
    pub calm : s.panicked ≡ false
    pub endpoints_same : length s.plan.endpoints ≡ endpoints
    pub paid : Paid has_budget n held s.permit s.budget
