-- ===== src/Upstream/Budget/Threads.antt =====
-- Requests that share one budget. Each constructor of `Step` is one atomic step of one of them; a
-- request that has taken a slot is recording its observed maximum, paying, giving its slot back,
-- or holding a permit. `primaries` and `retries` count what has been credited and granted so far.
use g_gateway.Base.{
  ℕ, suc, ◌+◌, ◌*◌, ◌≤◌, ◌<◌, ◌≡◌, refl, ◌∙◌, ap, subst, List, [], ◌∷◌, ◌++◌, none, some, arith,
  length, All, u16_mod, u32_mod, u64_mod,
}
use g_gateway.Model.{RetryBudgetPolicy}
use g_gateway.Upstream.Budget.{
  new_retry_budget, RetryBudget, credit_primary, reserve_slot, record_max_observed, return_slot,
  pay_credit, retry_credit_unit,
}

pub record System : Type 0 where
  pub budget : RetryBudget
  pub recording : List ℕ
  pub paying : ℕ
  pub refused : ℕ
  pub holding : ℕ
  pub primaries : ℕ
  pub retries : ℕ

pub data Step : System → System → Type 0 where
  credit :
      (s : System)
      → Step s (record s { budget = credit_primary s.budget; primaries = s.primaries + 1 })
  reserve :
      (s : System) (b : RetryBudget)
      → reserve_slot s.budget ≡ some b
      → Step s (record s { budget = b; recording = b.inflight ∷ s.recording })
  observe :
      (s : System) (value : ℕ) (before after : List ℕ)
      → s.recording ≡ before ++ value ∷ after
      → Step s (record s {
        budget = record_max_observed s.budget value;
        recording = before ++ after;
        paying = s.paying + 1;
      })
  pay :
      (s : System) (b : RetryBudget) (others : ℕ)
      → s.paying ≡ suc others
      → pay_credit s.budget ≡ some b
      → Step s (record s {
        budget = b;
        paying = others;
        holding = s.holding + 1;
        retries = s.retries + 1;
      })
  refuse :
      (s : System) (others : ℕ)
      → s.paying ≡ suc others
      → pay_credit s.budget ≡ none
      → Step s (record s { paying = others; refused = s.refused + 1 })
  give_back :
      (s : System) (others : ℕ)
      → s.refused ≡ suc others
      → Step s (record s { budget = return_slot s.budget; refused = others })
  release :
      (s : System) (others : ℕ)
      → s.holding ≡ suc others
      → Step s (record s { budget = return_slot s.budget; holding = others })

pub data Reach (s : System) : System → Type 0 where
  here : Reach s s
  next : {t u : System} → Reach s t → Step t u → Reach s u

-- Nobody has called the budget yet.
abbrev pub initial : RetryBudget → System
initial b = record {
  budget = b;
  recording = [];
  paying = 0;
  refused = 0;
  holding = 0;
  primaries = 0;
  retries = 0;
}

-- The constants of the budget, which no step changes, and what they bound.
pub record Inv (ratio max_credits max_inflight : ℕ) (s : System) : Type 0 where
  pub same_ratio : s.budget.ratio ≡ ratio
  pub same_credits : s.budget.max_credits ≡ max_credits
  pub same_inflight : s.budget.max_inflight ≡ max_inflight
  pub slots : s.budget.inflight ≡ length s.recording + s.paying + s.refused + s.holding
  pub slots_bound : s.budget.inflight ≤ max_inflight
  pub observed_bound : s.budget.max_observed ≤ max_inflight
  pub recorded : All (λ v. v ≤ max_inflight) s.recording
  pub credits_bound : s.budget.credits ≤ max_credits
  pub amplification : s.retries * retry_credit_unit + s.budget.credits ≤ ratio * s.primaries

All-remove :
    (n v : ℕ) (xs ys : List ℕ)
    → All (λ u. u ≤ n) (xs ++ v ∷ ys)
    → (v ≤ n) × All (λ u. u ≤ n) (xs ++ ys)
All-remove n v [] ys h = (h.0, h.1)
All-remove n v (x ∷ xs) ys h = let (p, q) = All-remove n v xs ys h.1 in (p, (h.0, q))

length-remove : (v : ℕ) (xs ys : List ℕ) → length (xs ++ v ∷ ys) ≡ suc (length (xs ++ ys))
length-remove v [] ys = refl
length-remove v (x ∷ xs) ys = omega (arith, length-remove v xs ys)

-- A credit adds at most the ratio, stays under the cap and touches nothing else.
credit_bounds :
    (b : RetryBudget)
    → b.max_credits + b.ratio < u64_mod
    → b.credits ≤ b.max_credits
    → ((credit_primary b).credits ≤ b.credits + b.ratio)
      × ((credit_primary b).credits ≤ b.max_credits)
      × ((credit_primary b).ratio ≡ b.ratio)
      × ((credit_primary b).max_credits ≡ b.max_credits)
      × ((credit_primary b).max_inflight ≡ b.max_inflight)
      × ((credit_primary b).inflight ≡ b.inflight)
      × ((credit_primary b).max_observed ≡ b.max_observed)
unfolding credit_primary
credit_bounds b w c = ground arith

observed_bounds :
    (b : RetryBudget) (value n : ℕ)
    → value ≤ n
    → b.max_observed ≤ n
    → ((record_max_observed b value).max_observed ≤ n)
      × ((record_max_observed b value).ratio ≡ b.ratio)
      × ((record_max_observed b value).max_credits ≡ b.max_credits)
      × ((record_max_observed b value).max_inflight ≡ b.max_inflight)
      × ((record_max_observed b value).inflight ≡ b.inflight)
      × ((record_max_observed b value).credits ≡ b.credits)
unfolding record_max_observed
observed_bounds b value n h k = ground arith

module _ (ratio max_credits max_inflight : ℕ)
    (word : (max_credits + ratio < u64_mod) × (max_inflight < u32_mod)) where
  Step-Inv :
      {s t : System}
      → Step s t
      → Inv ratio max_credits max_inflight s
      → Inv ratio max_credits max_inflight t
  unfolding reserve_slot return_slot pay_credit
  Step-Inv (credit s) v =
      let (grown, capped, r, c, i, n, m) = credit_bounds s.budget (omega arith) (omega arith) in
      record {
        same_ratio = r ∙ v.same_ratio;
        same_credits = c ∙ v.same_credits;
        same_inflight = i ∙ v.same_inflight;
        slots = n ∙ v.slots;
        slots_bound = omega arith;
        observed_bound = omega arith;
        recorded = v.recorded;
        credits_bound = omega arith;
        amplification = grind (arith, v.amplification, grown, v.same_ratio);
      }
  Step-Inv (reserve s b e) v = ground arith
  Step-Inv (observe s value before after e) v =
      let (fits, rest) =
        All-remove max_inflight value before after
          (subst (All (λ u. u ≤ max_inflight)) e v.recorded) in
      let (m, r, c, i, n, k) = observed_bounds s.budget value max_inflight fits v.observed_bound in
      record {
        same_ratio = r ∙ v.same_ratio;
        same_credits = c ∙ v.same_credits;
        same_inflight = i ∙ v.same_inflight;
        slots = omega (arith, v.slots, n, ap length e, length-remove value before after);
        slots_bound = omega (arith, n);
        observed_bound = m;
        recorded = rest;
        credits_bound = omega (arith, k);
        amplification = omega (arith, k, v.amplification);
      }
  Step-Inv (pay s b others e p) v = ground arith
  Step-Inv (refuse s others e p) v = ground arith
  Step-Inv (give_back s others e) v = ground arith
  Step-Inv (release s others e) v = ground arith

  Reach-Inv :
      {s t : System}
      → Inv ratio max_credits max_inflight s
      → Reach s t
      → Inv ratio max_credits max_inflight t
  Reach-Inv v here = v
  Reach-Inv v (next r st) = Step-Inv st (Reach-Inv v r)

module _ (p : RetryBudgetPolicy) (ratio : p.ratio_per1000 < u16_mod) (burst : p.burst < u16_mod)
    (inflight : p.max_inflight < u16_mod) where
  new-Inv :
      Inv p.ratio_per1000
        (p.burst * retry_credit_unit)
        p.max_inflight
        (initial (new_retry_budget p))
  unfolding new_retry_budget
  new-Inv = record {
    same_ratio = refl;
    same_credits = omega arith;
    same_inflight = refl;
    slots = refl;
    slots_bound = omega arith;
    observed_bound = omega arith;
    recorded = tt;
    credits_bound = omega arith;
    amplification = omega arith;
  }

  reached :
      {s : System}
      → Reach (initial (new_retry_budget p)) s
      → Inv p.ratio_per1000 (p.burst * retry_credit_unit) p.max_inflight s
  reached r =
      Reach-Inv p.ratio_per1000 (p.burst * retry_credit_unit) p.max_inflight
        (omega arith, omega arith) new-Inv r

-- However the requests that share a new budget interleave, its in-flight count is the number of
-- requests that own a slot, and neither it nor its observed maximum exceeds the policy's bound. The
-- policy's numbers are 16-bit words.
pub Reach-inflight :
    (p : RetryBudgetPolicy)
    → p.ratio_per1000 < u16_mod
    → p.burst < u16_mod
    → p.max_inflight < u16_mod
    → {s : System} → Reach (initial (new_retry_budget p)) s
    → (s.budget.inflight ≡ length s.recording + s.paying + s.refused + s.holding)
      × (s.budget.inflight ≤ p.max_inflight)
      × (s.budget.max_observed ≤ p.max_inflight)
Reach-inflight p r b m w = let v = reached p r b m w in (v.slots, v.slots_bound, v.observed_bound)
