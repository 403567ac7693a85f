-- ===== src/Proxy/Attempts.antt =====
-- The loop of attempts: its bound, its permits, and the endpoints it goes to.
use g_gateway.Base.{
  ℕ, zero, suc, ◌+◌, ◌≤◌, ◌<◌, ◌≡◌, ◌≢◌, refl, sym, ap, subst, ◌∙◌, Bool, true, false, not, ◌||◌,
  Option, none, some, List, [], ◌∷◌, ◌++◌, ◌==◌, leb, some-injective, if◌then◌else◌, length,
  length-append, arith, Bool-cases, Option-cases, inl, inr,
}
use g_gateway.Model.{RetryPolicy}
use g_gateway.Upstream.Plan.{AttemptSet, add_attempt, contains_attempt, attempt_capacity}
use g_gateway.Upstream.Plan.Attempts.{IsValid, NoDuplicates, add_attempt-Added}
use g_gateway.Proxy.{
  Finish, no_healthy_endpoint, clone_failed, exhausted, Attempting, Run, Next, stop, again,
  clamp_attempts, add_to, release_if, after_answer, attempt_once, attempts_loop, execute_attempts,
  not_suppressed,
}

abbrev held : Bool → ℕ
held permit = if permit then 1 else 0

-- Before an attempt: the endpoints that requests went to are the attempted ones, and one permit is held
-- where the attempt is a retry.
record IsReady {σ : Type 0} (r : Run σ) (attempted : AttemptSet) (permit : Bool) : Type 0 where
  same : r.sent ≡ attempted.ordinals
  valid : IsValid attempted
  balance : r.acquired ≡ r.released + held permit

-- At the end: the loop has not run out of attempts, every permit is released, and no endpoint was tried
-- twice.
pub record IsFinished {σ ρ : Type 0} (finish : Finish ρ) (r : Run σ) : Type 0 where
  pub ended : finish ≢ exhausted
  pub balance : r.acquired ≡ r.released
  pub distinct : NoDuplicates r.sent

add_attempt-ordinals :
    (a b : AttemptSet) (ordinal : ℕ)
    → add_attempt (some a) ordinal ≡ (some b, true)
    → b.ordinals ≡ a.ordinals ++ ordinal ∷ []
unfolding add_attempt
add_attempt-ordinals a b ordinal e =
    elim (Bool-cases
      (contains_attempt (some a) ordinal || leb attempt_capacity (length a.ordinals))) [
        | inl f ↦ absurd (full (rw f at e))
        | inr f ↦
            ap (λ x. x.ordinals)
              (some-injective b (record { ordinals = a.ordinals ++ ordinal ∷ [] })
                (ap (λ p. p.0) (sym (rw f at e))))
      ]
  where
    full : ◌≡◌ {A = Option AttemptSet × Bool} (some a, false) (some b, true) → ⊥
    full h = absurd (clash (ap (λ p. p.1) h))
      where
        clash : false ≡ true → ⊥
        clash q = absurd cc

add_to-add_attempt :
    (a : AttemptSet) (ordinal : ℕ) (o : Option AttemptSet × Bool)
    → add_attempt (some a) ordinal ≡ o
    → add_to a ordinal ≡ (elim o.0 [ none ↦ a | some b ↦ b ], o.1)
unfolding add_to
add_to-add_attempt a ordinal o e =
    ap (λ p. (elim p.0 as (λ _. AttemptSet) [ none ↦ a | some b ↦ b ], p.1)) e

module _ {σ ρ : Type 0} (E : Attempting σ ρ) where
  Once : ℕ → Bool → ℕ → List ℕ → Next σ ρ → Type 0
  Once max eligible attempt sent (stop finish r) =
      IsFinished finish r × (length r.sent ≤ length sent + 1)
  Once max eligible attempt sent (again ordinal attempted r) =
      IsReady r attempted true
      × (length r.sent ≡ length sent + 1)
      × ((attempt == max) ≡ false)
      × (eligible ≡ true)

  -- A permit that is held is released.
  release_if-balance :
      (permit : Bool) (r : Run σ)
      → r.acquired ≡ r.released + held permit
      → (release_if E permit r).acquired ≡ (release_if E permit r).released
  release_if-balance false r h = omega (arith, h)
  release_if-balance true r h = omega (arith, h)

  release_if-sent : (permit : Bool) (r : Run σ) → (release_if E permit r).sent ≡ r.sent
  release_if-sent false r = refl
  release_if-sent true r = refl

  after_answer-Once :
      (max : ℕ) (eligible : Bool) (attempt : ℕ) (attempted : AttemptSet) (response : ρ) (r : Run σ)
      (sent : List ℕ)
      → r.sent ≡ attempted.ordinals
      → IsValid attempted
      → r.acquired ≡ r.released
      → length r.sent ≡ length sent + 1
      → Once max eligible attempt sent (after_answer E max eligible attempt attempted response r)
  unfolding Once after_answer
  after_answer-Once max eligible attempt attempted response r sent same valid balance grown =
      elim (Bool-cases
        (not eligible || not (E.retry response) || attempt == max || E.cancelled r.environment)) [
          | inl e ↦
              rw (e, after_answer)
                (
                  record { ended = λ q. absurd cc; balance = balance; distinct = distinct },
                  omega (arith, grown),
                )
          | inr e ↦ elim (Bool-cases (E.acquire_retry r.environment).1) [
            | inr f ↦
                rw (e, f, after_answer)
                  (
                    record { ended = λ q. absurd cc; balance = balance; distinct = distinct },
                    omega (arith, grown),
                  )
            | inl f ↦
                elim (Option-cases (E.select_next (E.acquire_retry r.environment).0 attempted).1) [
                  | inl g ↦
                      rw (e, f, g, after_answer)
                        (
                          record {
                            ended = λ q. absurd cc;
                            balance = omega (arith, balance);
                            distinct = distinct;
                          },
                          omega (arith, grown),
                        )
                  | inr (o, g) ↦
                      rw (e, f, g, after_answer)
                        (
                          record { same = same; valid = valid; balance = omega (arith, balance) },
                          grown,
                          ground (arith, e),
                          ground (arith, e),
                        )
                ]
          ]
        ]
    where
      distinct : NoDuplicates r.sent
      distinct = subst NoDuplicates (sym same) valid.distinct

  attempt_once-Once :
      (max : ℕ) (eligible : Bool) (attempt : ℕ) (permit : Bool) (ordinal : ℕ)
      (attempted : AttemptSet) (r : Run σ)
      → IsReady r attempted permit
      → Once max eligible attempt r.sent
          (attempt_once E max eligible attempt permit ordinal attempted r)
  unfolding Once attempt_once
  attempt_once-Once max eligible attempt permit ordinal attempted r v =
      elim (add_attempt-Added attempted ordinal v.valid) [
        | inl (e, _) ↦
            rw (add_to-add_attempt attempted ordinal (some attempted, false) e, attempt_once)
              (stopped no_healthy_endpoint r (λ q. absurd cc) refl v.balance)
        | inr (b, e, _, valid, _) ↦ elim (Bool-cases (E.clone r.environment ordinal attempt)) [
          | inr f ↦
              rw (add_to-add_attempt attempted ordinal (some b, true) e, f, attempt_once)
                (let t =
                    stopped clone_failed (record r { attempts = attempt }) (λ q. absurd cc) refl
                      v.balance in
                  (
                    record { ended = t.0.ended; balance = t.0.balance; distinct = t.0.distinct },
                    t.1,
                  ))
          | inl f ↦
              rw (add_to-add_attempt attempted ordinal (some b, true) e, f, attempt_once)
                (answered_once b e valid)
        ]
      ]
    where
      stopped :
          (finish : Finish ρ) (r' : Run σ)
          → finish ≢ exhausted
          → r'.sent ≡ r.sent
          → r'.acquired ≡ r'.released + held permit
          → IsFinished finish (release_if E permit r')
            × (length (release_if E permit r').sent ≤ length r.sent + 1)
      stopped finish r' n same h =
          let kept = release_if-sent permit r' ∙ same in
          (
            record {
              ended = n;
              balance = release_if-balance permit r' h;
              distinct = subst NoDuplicates (sym (kept ∙ v.same)) v.valid.distinct;
            },
            omega (arith, ap length kept),
          )

      answering : Run σ
      answering = record r {
        attempts = attempt;
        environment = (E.round_trip r.environment ordinal attempt).0;
        sent = r.sent ++ ordinal ∷ [];
      }

      answered_once :
          (b : AttemptSet)
          → add_attempt (some attempted) ordinal ≡ (some b, true)
          → IsValid b
          → Once max eligible attempt r.sent (
              after_answer E max eligible attempt b
                (E.round_trip r.environment ordinal attempt).1
                (record (release_if E permit answering) {
                  environment =
                      E.observe
                        (release_if E permit answering).environment
                        ordinal
                        (E.round_trip r.environment ordinal attempt).1;
                }))
      answered_once b e valid =
          after_answer-Once max eligible attempt b _ _ r.sent
            (release_if-sent permit answering
              ∙ ap (λ xs. xs ++ ordinal ∷ []) v.same
              ∙ sym (add_attempt-ordinals attempted b ordinal e))
            valid (release_if-balance permit answering v.balance)
            (omega (
              arith,
              ap length (release_if-sent permit answering),
              length-append r.sent (ordinal ∷ []),
            ))

  -- The loop, where its attempts and those that are left come to the bound.
  attempts_loop-IsFinished :
      (left max : ℕ) (eligible : Bool) (attempt : ℕ) (permit : Bool) (ordinal : ℕ)
      (attempted : AttemptSet) (r : Run σ)
      → attempt + left ≡ max + 1
      → 0 < left
      → IsReady r attempted permit
      → let (finish, r') = attempts_loop E left max eligible attempt permit ordinal attempted r in
        IsFinished finish r' × (length r'.sent ≤ length r.sent + (if eligible then left else 1))
  unfolding attempts_loop Once
  attempts_loop-IsFinished zero max eligible attempt permit ordinal attempted r h p v =
      absurd (omega (arith, p))
  attempts_loop-IsFinished (suc left) max eligible attempt permit ordinal attempted r h p v =
      next (attempt_once E max eligible attempt permit ordinal attempted r) refl
        (attempt_once-Once max eligible attempt permit ordinal attempted r v)
        (λ o a r' q w.
          attempts_loop-IsFinished left max eligible (attempt + 1) true o a r' (omega (arith, h)) q
            w)
    where
      next :
          (n : Next σ ρ)
          → attempt_once E max eligible attempt permit ordinal attempted r ≡ n
          → Once max eligible attempt r.sent n
          → ((o : ℕ) (a : AttemptSet) (r' : Run σ)
              → 0 < left
              → IsReady r' a true
              → let (finish, r'') = attempts_loop E left max eligible (attempt + 1) true o a r' in
                IsFinished finish r''
                × (length r''.sent ≤ length r'.sent + (if eligible then left else 1)))
          → let (finish, r') = (elim n as (λ _. Finish ρ × Run σ) [
            | stop finish r' ↦ (finish, r')
            | again o a r' ↦ attempts_loop E left max eligible (attempt + 1) true o a r'
          ]) in
            IsFinished finish r'
            × (length r'.sent ≤ length r.sent + (if eligible then suc left else 1))
      next (stop finish r') e o rest = (o.0, ground (arith, o.1))
      next (again ordinal a r') e o rest =
          let more : 0 < left = ground (arith, h, o.2) in
          let w = rest ordinal a r' more o.0 in (w.0, ground (arith, w.1, o.1, o.3))

  -- For every plan and transport, whatever they answer, executeAttempts ends with an answer or with an
  -- error of its own, and never runs out of its loop; every retry permit that it acquires is released
  -- by then; no endpoint is tried twice; and requests are sent at most as often as the policy allows,
  -- never more than five times, and at most once where the request is not eligible for a retry.
  pub execute_attempts-IsFinished :
      (policy : RetryPolicy) (eligible : Bool) (environment : σ)
      → let (finish, r) = execute_attempts E policy eligible environment in
        IsFinished finish r
        × (length r.sent ≤ (if eligible then clamp_attempts policy.max_attempts else 1))
        × (length r.sent ≤ 5)
  unfolding execute_attempts
  execute_attempts-IsFinished policy eligible environment =
      elim (Option-cases (E.select_next (E.credit_primary environment) empty).1) [
        | inl e ↦
            rw (e, execute_attempts)
              (
                record { ended = λ q. absurd cc; balance = refl; distinct = tt },
                omega arith,
                omega arith,
              )
        | inr (o, e) ↦
            let w =
              attempts_loop-IsFinished max max eligible 1 false o empty begun (omega arith) positive
                ready in
            rw (e, execute_attempts) (w.0, ground (arith, w.1), ground (arith, w.1))
      ]
    where
      empty : AttemptSet
      empty = record { ordinals = [] }

      max : ℕ
      max = clamp_attempts policy.max_attempts

      begun : Run σ
      begun = record {
        environment = (E.select_next (E.credit_primary environment) empty).0;
        attempts = 0;
        suppressed = not_suppressed;
        sent = [];
        acquired = 0;
        released = 0;
      }

      positive : 0 < max
      positive = ground arith

      ready : IsReady begun empty false
      ready = record {
        same = refl;
        valid = record { bound = omega arith; distinct = tt };
        balance = refl;
      }
