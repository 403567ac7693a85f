-- ===== src/Upstream.antt =====
-- internal/upstream: endpoint health, retry budgets, balancers, plans and their ownership.
pub mod Health
pub mod Budget
pub mod Weights
pub mod Wrr
pub mod HashKey
pub mod Chash
pub mod Plan
pub mod Fingerprint
pub mod Registry
pub mod Ownership
