-- ===== src/Upstream/Plan/Tests.antt =====
-- Attempt sets at concrete ordinals.
use g_gateway.Base.{◌≡◌, refl, true, false, none, some, [], ◌∷◌, arith}
use g_gateway.Model.{BalancerType}
use g_gateway.Upstream.Chash
use g_gateway.Upstream.Chash.{Continuum}
use g_gateway.Upstream.Plan.{
  AttemptSet, Plan, selected, contains_attempt, add_attempt, endpoint_selectable, select_next,
}
use g_gateway.Upstream.Plan.Selecting.{IsServing, Selects, select_next-Selects}
use g_gateway.Upstream.Plan.Attempts.{IsValid, Added, add_attempt-Added}

abbrev tried : AttemptSet
tried = record { ordinals = 3 ∷ 1 ∷ [] }

again : add_attempt (some tried) 1 ≡ (some tried, false)
unfolding add_attempt contains_attempt
again = refl

tried-IsValid : IsValid tried
tried-IsValid = record { bound = omega arith; distinct = (refl, (refl, tt)) }

add_attempt-Added_example : Added tried 4 (add_attempt (some tried) 4)
add_attempt-Added_example = add_attempt-Added tried 4 tried-IsValid

-- Three endpoints, of which the first is twice as heavy as each of the others, on a ring of four points.
abbrev circle : Continuum
circle = record { hashes = 10 ∷ 20 ∷ 30 ∷ 40 ∷ []; indexes = 0 ∷ 1 ∷ 0 ∷ 2 ∷ []; direct = 0 }

abbrev plan : Plan
plan = record {
  algorithm = BalancerType.consistent_hash;
  endpoints = none ∷ none ∷ none ∷ [];
  has_transport = true;
  wrr = record { schedule = 0 ∷ 1 ∷ 0 ∷ 2 ∷ []; direct = 0 };
  continuum = circle;
  hash_key = λ request. (25, false);
}

abbrev once : AttemptSet
once = record { ordinals = 0 ∷ [] }

-- The key 25 falls on the third point; where its endpoint was tried, the fourth point is next.
plan_run : (select_next plan 0 none (some once)).0 ≡ selected 2 false
unfolding select_next endpoint_selectable contains_attempt Chash.select_next Chash.scan_distinct
    Chash.start_of
plan_run = refl

plan-IsServing : IsServing plan
plan-IsServing = record {
  transport = refl;
  endpoints = omega arith;
  balancer = record { same = refl; bound = omega arith; direct = omega arith };
}

select_next-Selects_example : Selects plan (some once) (select_next plan 0 none (some once)).0
select_next-Selects_example =
    select_next-Selects plan 0 none (some once) plan-IsServing (omega arith)
