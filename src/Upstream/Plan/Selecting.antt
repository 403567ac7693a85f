-- ===== src/Upstream/Plan/Selecting.antt =====
-- SelectNext of a plan: which endpoint it returns, and when it fails.
use g_gateway.Base.{
  ℕ, ◌+◌, ◌<◌, ◌≤◌, ◌≡◌, refl, sym, subst, Bool, true, false, not, ◌||◌, inl, inr, Option, none,
  some, List, [], ◌∷◌, arith, Bool-cases, some-injective, length, get_elem?, In, leb, u64_mod,
}
use g_gateway.Base.Tally.{get_elem?-length}
use g_gateway.Model.{BalancerType}
use g_gateway.Upstream.Health.{EndpointHealth, selectable}
use g_gateway.Upstream.HashKey.{HashRequest}
use g_gateway.Upstream.Wrr.{WrrSelector}
use g_gateway.Upstream.Wrr.Selection.{Chosen, candidates, select_next-Chosen}
use g_gateway.Upstream.Chash.{Continuum}
use g_gateway.Upstream.Chash.Choice.{In-All, options_of, select_next-options}
use g_gateway.Upstream.Chash.Compile.{IsContinuum}
use g_gateway.Upstream.Plan.{
  Plan, AttemptSet, Selection, selected, no_endpoint, no_healthy_endpoint, contains_attempt,
  endpoint_selectable, select_next, chosen, is_none,
}

-- An endpoint of the plan that was not attempted, and whose health, if it is tracked, is not bad.
pub record IsOpen (p : Plan) (attempted : Option AttemptSet) (ordinal : ℕ) : Type 0 where
  pub health : Option EndpointHealth
  pub endpoint : get_elem? p.endpoints ordinal ≡ some health
  pub fresh : contains_attempt attempted ordinal ≡ false
  pub healthy : (h : EndpointHealth) → health ≡ some h → selectable h ≡ true

-- The ordinals that the plan's balancer chooses from.
abbrev pub options : Plan → List ℕ
options p = elim p.algorithm [
  | BalancerType.weighted_round_robin ↦ candidates p.wrr
  | BalancerType.consistent_hash ↦ options_of p.continuum.hashes p.continuum
  | BalancerType.other name ↦ []
]

-- A plan that can serve: it has endpoints and a transport, its balancer is one of the two known ones,
-- and a continuum is one of its endpoints.
pub record IsServing (p : Plan) : Type 0 where
  pub transport : p.has_transport ≡ true
  pub endpoints : 0 < length p.endpoints
  pub balancer : elim p.algorithm as (λ _. Type 0) [
    | BalancerType.weighted_round_robin ↦ Unit {0}
    | BalancerType.consistent_hash ↦ IsContinuum p.continuum (length p.endpoints)
    | BalancerType.other name ↦ ⊥
  ]

-- What a selection means.
abbrev pub Selects : Plan → Option AttemptSet → Selection → Type 0
Selects p attempted (selected ordinal fallback) =
    In ordinal (options p) × IsOpen p attempted ordinal
Selects p attempted no_endpoint = ⊥
Selects p attempted no_healthy_endpoint =
    (ordinal : ℕ) → In ordinal (options p) → IsOpen p attempted ordinal → ⊥

module _ (p : Plan) (attempted : Option AttemptSet) where
  endpoint_selectable-IsOpen :
      (o : ℕ) → endpoint_selectable p attempted o ≡ true → IsOpen p attempted o
  unfolding endpoint_selectable
  endpoint_selectable-IsOpen o e =
      elim (Bool-cases (leb (length p.endpoints) o || contains_attempt attempted o)) [
        | inl f ↦ absurd (clash (rw (f, endpoint_selectable) at e))
        | inr f ↦
            found (get_elem? p.endpoints o) refl (ground (arith, f))
              (rw (f, endpoint_selectable) at e)
      ]
    where
      clash : false ≡ true → ⊥
      clash q = absurd cc

      found :
          (g : Option (Option EndpointHealth))
          → get_elem? p.endpoints o ≡ g
          → contains_attempt attempted o ≡ false
          → (elim g as (λ _. Bool) [
            | none ↦ false
            | some x ↦ elim x as (λ _. Bool) [ none ↦ true | some h ↦ selectable h ]
          ])
            ≡ true
          → IsOpen p attempted o
      found none q f t = absurd (clash t)
      found (some none) q f t = record {
        health = none;
        endpoint = q;
        fresh = f;
        healthy = λ h r. absurd (none_some h r);
      }
        where
          none_some : (h : EndpointHealth) → none ≡ some h → ⊥
          none_some h r = absurd cc
      found (some (some h)) q f t = record {
        health = some h;
        endpoint = q;
        fresh = f;
        healthy = λ h' r. subst (λ x. selectable x ≡ true) (some-injective h h' r) t;
      }

  IsOpen-endpoint_selectable :
      (o : ℕ) → IsOpen p attempted o → endpoint_selectable p attempted o ≡ true
  unfolding endpoint_selectable
  IsOpen-endpoint_selectable o h =
      let inside : leb (length p.endpoints) o ≡ false =
        ground (arith, get_elem?-length p.endpoints o h.health h.endpoint) in
      rw (inside, h.fresh, h.endpoint, endpoint_selectable) (known h.health h.healthy)
    where
      known :
          (x : Option EndpointHealth)
          → ((y : EndpointHealth) → x ≡ some y → selectable y ≡ true)
          → (elim x as (λ _. Bool) [ none ↦ true | some y ↦ selectable y ]) ≡ true
      known none f = refl
      known (some y) f = f y refl

  chosen-Selects :
      (os : List ℕ) (fallback : Bool) (r : ℕ × Bool)
      → os ≡ options p
      → Chosen os (endpoint_selectable p attempted) r
      → Selects p attempted (chosen p fallback r)
  chosen-Selects os fallback (o, ok) same (inl (e, m, t)) =
      let h = endpoint_selectable-IsOpen o t in
      let inside : leb (length p.endpoints) o ≡ false =
        ground (arith, get_elem?-length p.endpoints o h.health h.endpoint) in
      rw (e, inside) (subst (In o) same m, h)
  chosen-Selects os fallback (o, ok) same (inr (e, a)) = rw e (λ j m h.
      clash
        (In-All (λ x. endpoint_selectable p attempted x ≡ false) os j a (subst (In j) (sym same) m))
        (IsOpen-endpoint_selectable j h))
    where
      clash : {b : Bool} → b ≡ false → b ≡ true → ⊥
      clash u v = cc

-- SelectNext of a serving plan, while the ticket counter does not wrap: a selection is an endpoint of
-- the plan among those that its balancer chooses from, not attempted before, whose health is not known
-- to be bad; ErrNoHealthyEndpoint is returned only where there is none such; and ErrNoEndpoint is
-- never returned.
pub select_next-Selects :
    (p : Plan) (sequence : ℕ) (request : Option HashRequest) (attempted : Option AttemptSet)
    → IsServing p
    → sequence + length p.wrr.schedule + 1 ≤ u64_mod
    → Selects p attempted (select_next p sequence request attempted).0
unfolding select_next
select_next-Selects p sequence request attempted v fits =
    by_fields p.algorithm p.endpoints p.has_transport p.wrr p.continuum p.hash_key v fits
  where
    by_fields :
        (algorithm : BalancerType) (endpoints : List (Option EndpointHealth)) (has_transport : Bool)
        (wrr : WrrSelector) (continuum : Continuum) (hash_key : Option HashRequest → ℕ × Bool)
        → let q : Plan = record {
          algorithm = algorithm;
          endpoints = endpoints;
          has_transport = has_transport;
          wrr = wrr;
          continuum = continuum;
          hash_key = hash_key;
        } in
          IsServing q
          → sequence + length wrr.schedule + 1 ≤ u64_mod
          → Selects q attempted (select_next q sequence request attempted).0
    by_fields algorithm [] b wrr c k u f = absurd (omega (arith, u.endpoints))
    by_fields algorithm (x ∷ xs) false wrr c k u f = absurd (clash u.transport)
      where
        clash : false ≡ true → ⊥
        clash e = absurd cc
    by_fields (BalancerType.other name) (x ∷ xs) true wrr c k u f = absurd u.balancer
    by_fields BalancerType.weighted_round_robin (x ∷ xs) true wrr c k u f =
        let q : Plan = record {
          algorithm = BalancerType.weighted_round_robin;
          endpoints = x ∷ xs;
          has_transport = true;
          wrr = wrr;
          continuum = c;
          hash_key = k;
        } in
        chosen-Selects q attempted (candidates wrr) false _ refl
          (select_next-Chosen wrr sequence (endpoint_selectable q attempted) f)
    by_fields BalancerType.consistent_hash (x ∷ xs) true wrr c k u f =
        let q : Plan = record {
          algorithm = BalancerType.consistent_hash;
          endpoints = x ∷ xs;
          has_transport = true;
          wrr = wrr;
          continuum = c;
          hash_key = k;
        } in
        chosen-Selects q attempted (options_of c.hashes c) (k request).1 _ refl (
          select_next-options c (k request).0 (length (x ∷ xs)) (endpoint_selectable q attempted)
            u.balancer)

-- A selection is of an endpoint of the plan.
abbrev pub Within : Plan → Selection → Type 0
Within p (selected ordinal fallback) = ordinal < length p.endpoints
Within p no_endpoint = Unit
Within p no_healthy_endpoint = Unit

chosen-Within : (p : Plan) (fallback : Bool) (r : ℕ × Bool) → Within p (chosen p fallback r)
chosen-Within p fallback (o, false) = tt
chosen-Within p fallback (o, true) = elim (Bool-cases (leb (length p.endpoints) o)) [
  | inl e ↦ rw e tt
  | inr e ↦ rw e (ground (arith, e))
]

pub select_next-Within :
    (p : Plan) (sequence : ℕ) (request : Option HashRequest) (attempted : Option AttemptSet)
    → Within p (select_next p sequence request attempted).0
unfolding select_next
select_next-Within p sequence request attempted =
    elim (Bool-cases (is_none p.endpoints || not p.has_transport)) [
      | inl e ↦ rw e tt
      | inr e ↦ rw e (by_algorithm p.algorithm)
    ]
  where
    by_algorithm :
        (b : BalancerType)
        → Within p
            (elim b as (λ _. Selection × ℕ) [
              | BalancerType.weighted_round_robin ↦
                  let (result, after) =
                    g_gateway.Upstream.Wrr.select_next p.wrr sequence
                      (endpoint_selectable p attempted) in
                  (chosen p false result, after)
              | BalancerType.consistent_hash ↦
                  let (sum, fallback) = p.hash_key request in
                  (
                    chosen p fallback (
                        g_gateway.Upstream.Chash.select_next p.continuum sum
                          (length p.endpoints)
                          (endpoint_selectable p attempted)),
                    sequence,
                  )
              | BalancerType.other name ↦ (no_endpoint, sequence)
            ]).0
    by_algorithm BalancerType.weighted_round_robin = chosen-Within p false _
    by_algorithm BalancerType.consistent_hash = chosen-Within p _ _
    by_algorithm (BalancerType.other name) = tt
