-- ===== src/Proxy/Serving/Spending.antt =====
-- A request's attempts and its upstream's retry budget.
use g_gateway.Base.{
  ℕ, ◌+◌, ◌*◌, ◌≤◌, ◌<◌, ◌≡◌, refl, sym, subst, ◌∙◌, Bool, true, false, Option, none, some, set,
  get_elem?, arith, length, length-set, some-injective, All,
}
use g_gateway.Model.{RetryPolicy}
use g_gateway.Upstream.Health.{EndpointHealth, Observation}
use g_gateway.Upstream.Budget.{
  RetryBudget, RetryPermit, done, panic_invalid, panic_twice, retry_credit_unit, release,
}
use g_gateway.Upstream.Budget.Methods.{IsValid, credit_primary-IsValid, credit_primary-credits}
use g_gateway.Upstream.HashKey.{HashRequest}
use g_gateway.Upstream.Plan.{
  Plan, Selection, selected, no_endpoint, no_healthy_endpoint, select_next,
}
use g_gateway.Upstream.Plan.Selecting.{Within, select_next-Within}
use g_gateway.Proxy.{AttemptRequest, Run, execute_attempts}
use g_gateway.Proxy.Retry.{Errors}
use g_gateway.Proxy.Carried.{IsInvariant, execute_attempts-Carried}
use g_gateway.Proxy.Serving.{
  Served, Transport, plan_credit_primary, plan_acquire_retry, observe_selection, release_served,
  acquire_served, select_served, serving,
}
use g_gateway.Proxy.Serving.Paid.{
  acquire-IsPaying, refuse-IsPaying, release-IsPaying, Paid, IsServed,
}

module _ {τ ε : Type 0} (T : Transport τ ε) (find : Errors ε) (policy : RetryPolicy)
    (request : AttemptRequest) (hashed : Option HashRequest) where
  module _ (slots_before credits_before endpoints : ℕ) (has_budget : Bool) where
    abbrev ServedAt : ℕ → Bool → Served τ → Type 0
    ServedAt n held s = IsServed slots_before credits_before endpoints has_budget n held s

    acquired :
        (n : ℕ) (p : RetryPermit) (budget : Option RetryBudget)
        → (plan_acquire_retry budget).2 ≡ true
        → Paid slots_before credits_before has_budget n false p budget
        → Paid slots_before credits_before has_budget
            (n + 1)
            true
            (plan_acquire_retry budget).1
            (plan_acquire_retry budget).0
    unfolding plan_acquire_retry
    acquired n p none e v = absurd cc
    acquired n p (some b) e v = (v.0, acquire-IsPaying slots_before credits_before n p b v.1 e)

    not_acquired :
        (n : ℕ) (p : RetryPermit) (budget : Option RetryBudget)
        → (plan_acquire_retry budget).2 ≡ false
        → Paid slots_before credits_before has_budget n false p budget
        → Paid slots_before credits_before has_budget n false
            (plan_acquire_retry budget).1
            (plan_acquire_retry budget).0
    unfolding plan_acquire_retry
    not_acquired n p none e v = v
    not_acquired n p (some b) e v = (v.0, refuse-IsPaying slots_before credits_before n p b v.1 e)

    release_served-lem :
        (n : ℕ) (s : Served τ) → ServedAt n true s → ServedAt n false (release_served s)
    unfolding release_served
    release_served-lem n s v = by_budget s.budget v.paid
      where
        by_budget :
            (budget : Option RetryBudget)
            → Paid slots_before credits_before has_budget n true s.permit budget
            → IsServed slots_before credits_before endpoints has_budget n false
                (elim budget as (λ _. Served τ) [
                  | none ↦ record s { panicked = true }
                  | some b ↦ elim (release s.permit b) as (λ _. Served τ) [
                    | done permit b' ↦ record s { permit = permit; budget = some b' }
                    | panic_invalid ↦ record s { panicked = true }
                    | panic_twice permit ↦ record s { permit = permit; panicked = true }
                  ]
                ])
        by_budget none (_, h, _) = absurd cc
        by_budget (some b) (h, w) =
            let (b', e, w') = release-IsPaying slots_before credits_before n s.permit b w in
            rw e (record { calm = v.calm; endpoints_same = v.endpoints_same; paid = (h, w') })

    observe_selection-length :
        (p : Plan) (o : ℕ) (x : Observation)
        → length (observe_selection p o x).endpoints ≡ length p.endpoints
    unfolding observe_selection
    observe_selection-length p o x = by_endpoint (get_elem? p.endpoints o)
      where
        by_endpoint :
            (e : Option (Option EndpointHealth))
            → length
                (elim e as (λ _. Plan) [
                  | none ↦ p
                  | some none ↦ p
                  | some (some h) ↦ record p {
                    endpoints = set p.endpoints o (some (g_gateway.Upstream.Health.observe h x).0);
                  }
                ]).endpoints
              ≡ length p.endpoints
        by_endpoint none = refl
        by_endpoint (some none) = refl
        by_endpoint (some (some h)) =
            length-set p.endpoints o (some (g_gateway.Upstream.Health.observe h x).0)

    IsInvariant-Served :
        IsInvariant (serving T find policy request hashed) ServedAt (λ o. o < endpoints)
    unfolding select_served acquire_served
    IsInvariant-Served = record {
      select =
          λ n h s a v. record { calm = v.calm; endpoints_same = v.endpoints_same; paid = v.paid };
      choose = λ n h s a o v e.
          subst (λ m. o < m) v.endpoints_same
            (within s o (select_next s.plan s.sequence hashed (some a)).0
              (select_next-Within s.plan s.sequence hashed (some a)) e);
      send =
          λ n h s o k v. record { calm = v.calm; endpoints_same = v.endpoints_same; paid = v.paid };
      give_back = release_served-lem;
      see = λ n s o x v. record {
        calm = v.calm;
        endpoints_same = observe_selection-length s.plan o _ ∙ v.endpoints_same;
        paid = v.paid;
      };
      refuse = λ n s e v. record {
        calm = v.calm;
        endpoints_same = v.endpoints_same;
        paid = not_acquired n s.permit s.budget e v.paid;
      };
      pay = λ n s e v. record {
        calm = v.calm;
        endpoints_same = v.endpoints_same;
        paid = acquired n s.permit s.budget e v.paid;
      };
      empty = λ n s x v. record { calm = v.calm; endpoints_same = v.endpoints_same; paid = v.paid };
    }
      where
        within :
            (s : Served τ) (o : ℕ) (x : Selection)
            → Within s.plan x
            → (elim x as (λ _. Option ℕ) [
              | selected ordinal fallback ↦ some ordinal
              | no_endpoint ↦ none
              | no_healthy_endpoint ↦ none
            ])
              ≡ some o
            → o < length s.plan.endpoints
        within s o (selected ordinal fallback) w e =
            subst (λ m. m < length s.plan.endpoints) (some-injective ordinal o e) w
        within s o no_endpoint w e = absurd cc
        within s o no_healthy_endpoint w e = absurd cc

-- A budget that is there is valid.
abbrev pub IsSound : Option RetryBudget → Type 0
IsSound none = Unit
IsSound (some b) = IsValid b

-- The budget before and after a run that sent so many requests.
abbrev pub Spent : Option RetryBudget → Option RetryBudget → ℕ → Type 0
Spent none after sent = (after ≡ none) × (sent ≤ 1)
Spent (some b) after sent =
    (b' : RetryBudget) × (after ≡ some b')
    × IsValid b'
    × (b'.inflight ≡ b.inflight)
    × (b'.credits + sent * retry_credit_unit ≤ b.credits + b.ratio + retry_credit_unit)

-- For every transport, whatever it answers: a run of executeAttempts on a plan with a valid retry
-- budget, or without one, panics at no release of a permit, and sends requests to endpoints of the plan
-- only. Without a budget, it sends at most one request. With one, the budget is valid afterwards, its
-- in-flight count is what it was before, and every request after the first has cost a whole credit unit
-- of the credits that were there and of the ratio that the request itself adds.
pub execute_attempts-Spent :
    {τ ε : Type 0} (T : Transport τ ε) (find : Errors ε) (policy : RetryPolicy)
    (request : AttemptRequest) (hashed : Option HashRequest) (eligible : Bool) (s : Served τ)
    → IsSound s.budget
    → s.panicked ≡ false
    → let r = (execute_attempts (serving T find policy request hashed) policy eligible s).1 in
      (r.environment.panicked ≡ false)
      × All (λ o. o < length s.plan.endpoints) r.sent
      × Spent s.budget r.environment.budget (length r.sent)
unfolding plan_credit_primary
execute_attempts-Spent {τ} T find policy request hashed eligible s v calm =
    by_budget s.budget refl v
  where
    result : Run (Served τ)
    result = (execute_attempts (serving T find policy request hashed) policy eligible s).1

    unpaid :
        (n k : ℕ) (permit : RetryPermit) (after : Option RetryBudget)
        → Paid 0 0 false n false permit after
        → k ≤ n
        → Spent none after k
    unpaid n k permit none w l = (refl, omega (arith, w.2, l))
    unpaid n k permit (some b) w l = absurd cc

    paid :
        (b : RetryBudget) (n k : ℕ) (permit : RetryPermit) (after : Option RetryBudget)
        → Paid b.inflight (b.credits + b.ratio) true n false permit after
        → k ≤ n
        → Spent (some b) after k
    paid b n k permit none w l = absurd cc
    paid b n k permit (some b') w l =
        (b', refl, w.1.valid, omega (arith, w.1.inflight), omega (arith, w.1.credits, l))

    by_budget :
        (budget : Option RetryBudget)
        → s.budget ≡ budget
        → IsSound budget
        → (result.environment.panicked ≡ false)
          × All (λ o. o < length s.plan.endpoints) result.sent
          × Spent budget result.environment.budget (length result.sent)
    by_budget none e v =
        let (n, w, l, g) =
          execute_attempts-Carried _ _ _
            (IsInvariant-Served T find policy request hashed 0 0 (length s.plan.endpoints) false)
            policy eligible s
            (record {
              calm = calm;
              endpoints_same = refl;
              paid =
                  subst (λ x. Paid 0 0 false 1 false s.permit (plan_credit_primary x)) (sym e)
                    (refl, refl, refl);
            }) in
        (w.calm, g, unpaid n _ _ _ w.paid l)
    by_budget (some b) e v =
        let c = credit_primary-credits b v in
        let (n, w, l, g) =
          execute_attempts-Carried _ _ _
            (IsInvariant-Served T find policy request hashed b.inflight (b.credits + b.ratio)
              (length s.plan.endpoints) true)
            policy eligible s
            (record {
              calm = calm;
              endpoints_same = refl;
              paid =
                  subst
                    (λ x.
                      Paid b.inflight (b.credits + b.ratio) true 1 false s.permit
                        (plan_credit_primary x))
                    (sym e)
                    (
                      refl,
                      record {
                        valid = credit_primary-IsValid b v;
                        inflight = omega (arith, c.1);
                        credits = omega (arith, c.0);
                        permitted = λ (h : false ≡ true). absurd cc;
                      },
                    );
            }) in
        (w.calm, g, paid b n _ _ _ w.paid l)
