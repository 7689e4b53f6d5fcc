-- ===== src/Tier.antt =====
-- packages/core/knowledge-base/tier-mapping.ts: which product tier of each tax software provider a tax
-- situation maps to.
pub mod Types
pub mod Conditions
pub mod Providers
pub mod Engine
