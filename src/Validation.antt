-- ===== src/Validation.antt =====
-- packages/core/knowledge-base/validation-engine.ts: runs the validation rules on a tax situation.
pub mod Completeness
pub mod Confidence
pub mod Engine
pub mod Chains
