-- ===== src/Proxy/Carried.antt =====
-- An invariant of what the loop of attempts calls is carried through the loop.
use g_gateway.Base.{
  ℕ, zero, suc, ◌+◌, ◌≤◌, ◌<◌, ◌≡◌, refl, sym, subst, ap, ◌∙◌, Bool, true, false, not, ◌||◌, some,
  [], ◌∷◌, ◌++◌, ◌==◌, length, length-append, arith, Bool-cases, Option-cases, inl, inr, All,
}
use g_gateway.Base.Tally.{All-snoc}
use g_gateway.Model.{RetryPolicy}
use g_gateway.Upstream.Plan.{AttemptSet}
use g_gateway.Proxy.{
  Finish, Attempting, Run, Next, stop, again, clamp_attempts, add_to, release_if, after_answer,
  attempt_once, attempts_loop, execute_attempts,
}

-- A predicate on the number of attempts that are paid for, on whether a permit is held, and on the state,
-- that every operation keeps; every selected endpoint is a good one.
pub record IsInvariant {σ ρ : Type 0} (E : Attempting σ ρ) (P : ℕ → Bool → σ → Type 0)
    (G : ℕ → Type 0) : Type 0 where
  pub select : (n : ℕ) (h : Bool) (s : σ) (a : AttemptSet) → P n h s → P n h (E.select_next s a).0
  pub choose :
      (n : ℕ) (h : Bool) (s : σ) (a : AttemptSet) (o : ℕ)
      → P n h s
      → (E.select_next s a).1 ≡ some o
      → G o
  pub send : (n : ℕ) (h : Bool) (s : σ) (o k : ℕ) → P n h s → P n h (E.round_trip s o k).0
  pub give_back : (n : ℕ) (s : σ) → P n true s → P n false (E.release_retry s)
  pub see : (n : ℕ) (s : σ) (o : ℕ) (x : ρ) → P n false s → P n false (E.observe s o x)
  pub refuse :
      (n : ℕ) (s : σ)
      → (E.acquire_retry s).1 ≡ false
      → P n false s
      → P n false (E.acquire_retry s).0
  pub pay :
      (n : ℕ) (s : σ)
      → (E.acquire_retry s).1 ≡ true
      → P n false s
      → P (n + 1) true (E.acquire_retry s).0
  pub empty : (n : ℕ) (s : σ) (x : ρ) → P n true s → P n true (E.drain s x)

module _ {σ ρ : Type 0} (E : Attempting σ ρ) (P : ℕ → Bool → σ → Type 0) (G : ℕ → Type 0)
    (I : IsInvariant E P G) where
  -- No permit is held, and no more requests were sent, all to good endpoints, than are paid for.
  abbrev pub Carried : Run σ → Type 0
  Carried r = (n : ℕ) × P n false r.environment × (length r.sent ≤ n) × All G r.sent

  abbrev Going : Bool → ℕ → Run σ → Type 0
  Going permit o r =
      (n : ℕ) × P n permit r.environment × (length r.sent + 1 ≤ n) × All G r.sent × G o

  abbrev Step : ℕ → ℕ → Next σ ρ → Type 0
  Step max attempt (stop finish r) = Carried r
  Step max attempt (again o attempted r) = ((attempt == max) ≡ false) × Going true o r

  release_if-P :
      (permit : Bool) (n : ℕ) (r : Run σ)
      → P n permit r.environment
      → P n false (release_if E permit r).environment
  release_if-P false n r v = v
  release_if-P true n r v = I.give_back n r.environment v

  release_if-sent : (permit : Bool) (r : Run σ) → (release_if E permit r).sent ≡ r.sent
  release_if-sent false r = refl
  release_if-sent true r = refl

  after_answer-Step :
      (max : ℕ) (eligible : Bool) (attempt : ℕ) (attempted : AttemptSet) (response : ρ) (r : Run σ)
      → Carried r
      → Step max attempt (after_answer E max eligible attempt attempted response r)
  unfolding after_answer
  after_answer-Step max eligible attempt attempted response r (n, p, l, g) =
      elim (Bool-cases
        (not eligible || not (E.retry response) || attempt == max || E.cancelled r.environment)) [
          | inl e ↦ rw (e, after_answer) (n, p, l, g)
          | inr e ↦ elim (Bool-cases (E.acquire_retry r.environment).1) [
            | inr f ↦ rw (e, f, after_answer) (n, I.refuse n r.environment f p, l, g)
            | inl f ↦
                let paid = I.select (n + 1) true _ attempted (I.pay n r.environment f p) in
                elim (Option-cases (E.select_next (E.acquire_retry r.environment).0 attempted).1) [
                  | inl k ↦
                      rw (e, f, k, after_answer)
                        (n + 1, I.give_back (n + 1) _ paid, omega (arith, l), g)
                  | inr (o, k) ↦
                      rw (e, f, k, after_answer)
                        (
                          ground (arith, e),
                          (
                            n + 1,
                            I.empty (n + 1) _ response paid,
                            omega (arith, l),
                            g,
                            I.choose (n + 1) true _ attempted o (I.pay n r.environment f p) k,
                          ),
                        )
                ]
          ]
        ]

  attempt_once-Step :
      (max : ℕ) (eligible : Bool) (attempt : ℕ) (permit : Bool) (ordinal : ℕ)
      (attempted : AttemptSet) (r : Run σ)
      → Going permit ordinal r
      → Step max attempt (attempt_once E max eligible attempt permit ordinal attempted r)
  unfolding attempt_once
  attempt_once-Step max eligible attempt permit ordinal attempted r (n, p, l, g, good) =
      elim (Bool-cases (add_to attempted ordinal).1) [
        | inr e ↦ rw (e, attempt_once) (stopped r p refl)
        | inl e ↦ elim (Bool-cases (E.clone r.environment ordinal attempt)) [
          | inr f ↦ rw (e, f, attempt_once) (stopped (record r { attempts = attempt }) p refl)
          | inl f ↦
              rw (e, f, attempt_once)
                (after_answer-Step max eligible attempt (add_to attempted ordinal).0 _ _ answered)
        ]
      ]
    where
      stopped :
          (r' : Run σ)
          → P n permit r'.environment
          → r'.sent ≡ r.sent
          → Carried (release_if E permit r')
      stopped r' q same = (
        n,
        release_if-P permit n r' q,
        omega (arith, l, ap length (release_if-sent permit r' ∙ same)),
        subst (All G) (sym (release_if-sent permit r' ∙ same)) g,
      )

      sent : Run σ
      sent = record r {
        attempts = attempt;
        environment = (E.round_trip r.environment ordinal attempt).0;
        sent = r.sent ++ ordinal ∷ [];
      }

      answered : Carried (record (release_if E permit sent) {
        environment =
            E.observe
              (release_if E permit sent).environment
              ordinal
              (E.round_trip r.environment ordinal attempt).1;
      })
      answered = (
        n,
        I.see n _ ordinal _
            (release_if-P permit n sent (I.send n permit r.environment ordinal attempt p)),
        omega (
          arith,
          l,
          ap length (release_if-sent permit sent),
          length-append r.sent (ordinal ∷ []),
        ),
        subst (All G) (sym (release_if-sent permit sent)) (All-snoc G r.sent ordinal g good),
      )

  attempts_loop-Carried :
      (left max : ℕ) (eligible : Bool) (attempt : ℕ) (permit : Bool) (ordinal : ℕ)
      (attempted : AttemptSet) (r : Run σ)
      → attempt + left ≡ max + 1
      → 0 < left
      → Going permit ordinal r
      → Carried (attempts_loop E left max eligible attempt permit ordinal attempted r).1
  unfolding attempts_loop
  attempts_loop-Carried zero max eligible attempt permit ordinal attempted r h p v =
      absurd (omega (arith, p))
  attempts_loop-Carried (suc left) max eligible attempt permit ordinal attempted r h p v =
      next (attempt_once E max eligible attempt permit ordinal attempted r)
        (attempt_once-Step max eligible attempt permit ordinal attempted r v)
        (λ o a r' q w.
          attempts_loop-Carried left max eligible (attempt + 1) true o a r' (omega (arith, h)) q w)
    where
      next :
          (n : Next σ ρ)
          → Step max attempt n
          → ((o : ℕ) (a : AttemptSet) (r' : Run σ)
              → 0 < left
              → Going true o r'
              → Carried (attempts_loop E left max eligible (attempt + 1) true o a r').1)
          → Carried
              (elim n as (λ _. Finish ρ × Run σ) [
                | stop finish r' ↦ (finish, r')
                | again o a r' ↦ attempts_loop E left max eligible (attempt + 1) true o a r'
              ]).1
      next (stop finish r') v rest = v
      next (again o a r') v rest = rest o a r' (ground (arith, h, v.0)) v.1

  -- The whole run carries the invariant.
  pub execute_attempts-Carried :
      (policy : RetryPolicy) (eligible : Bool) (environment : σ)
      → P 1 false (E.credit_primary environment)
      → Carried (execute_attempts E policy eligible environment).1
  unfolding execute_attempts
  execute_attempts-Carried policy eligible environment v =
      let w = I.select 1 false (E.credit_primary environment) (record { ordinals = [] }) v in
      elim (Option-cases
        (E.select_next (E.credit_primary environment) (record { ordinals = [] })).1) [
          | inl e ↦ rw (e, execute_attempts) (1, w, omega arith, tt)
          | inr (o, e) ↦
              rw (e, execute_attempts)
                (attempts_loop-Carried (clamp_attempts policy.max_attempts)
                  (clamp_attempts policy.max_attempts) eligible 1 false o _ _ (omega arith)
                  (ground arith) (1, w, omega arith, tt, I.choose 1 false _ _ o v e))
        ]
