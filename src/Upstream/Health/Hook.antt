-- ===== src/Upstream/Health/Hook.antt =====
-- The transition hook: called with each change of state and at no other time.
use g_gateway.Base.{◌≡◌, refl, ◌≢◌, ◌⊎◌, inl, inr, Bool-cases, none, true, arith}
use g_gateway.Upstream.Health.{
  Observation, EndpointHealth, Delivery, classify_http, deliver, same_state, apply, settle,
  observe_locked, observe,
}
use g_gateway.Upstream.Health.Transitions.{classify-source, apply-state}

-- What a call of Observe that takes `h` to `h'` hands to the hook of `h`.
abbrev pub Reported : EndpointHealth → Observation → EndpointHealth → Delivery → Type 0
Reported h o h' d =
    ((h'.state ≡ h.state) × (d ≡ none))
    ⊎ ((h'.state ≢ h.state)
        × (d
            ≡ deliver h.on_change (record {
              endpoint_id = h.identity;
              generation = h.generation;
              source = o.source;
              from = h.state;
              to = h'.state;
            }))
        × (h'.successes ≡ 0)
        × (h'.http ≡ 0)
        × (h'.transport ≡ 0)
        × (h'.timeouts ≡ 0))

same_state_self : (h : EndpointHealth) → same_state h.state h.state ≡ true
same_state_self h = ground arith

settle-Reported :
    (h : EndpointHealth) (o : Observation) → Reported h o (settle h o).0 (settle h o).1
unfolding settle
settle-Reported h o = elim (Bool-cases (same_state (apply h h.state o).1 h.state)) [
  | inl e ↦ rw e (inl (apply-state h o o.kind refl, refl))
  | inr e ↦ rw e (inr (λ p. cc (same_state_self h, e, p), refl, refl, refl, refl, refl))
]

-- Every observation either leaves the state alone and calls no hook, or changes it, resets all four
-- counters and calls the installed hook once, with the endpoint's identity and generation, the
-- observation's source, the old state and the new one.
pub observe-Reported :
    (h : EndpointHealth) (o : Observation) → Reported h o (observe h o).0 (observe h o).1
unfolding observe observe_locked
observe-Reported h o =
    ground (arith, settle-Reported h (classify_http h.policy o), classify-source h o)
