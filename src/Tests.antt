-- ===== src/Tests.antt =====
-- The theorems at concrete situations, and evaluations of the model.
pub mod Samples
pub mod Tier
pub mod Api
pub mod Taxonomy
pub mod Rules
pub mod Validation
pub mod TaskQueue
pub mod DelegatedToken
pub mod RateLimiter
pub mod QueueApi
pub mod Audit
pub mod Governance
