-- ===== src/Taxonomy.antt =====
-- packages/core/knowledge-base/form-taxonomy.ts: the IRS forms, what triggers them, and the traversal of
-- their dependencies.
pub mod Types
pub mod Forms
pub mod Trigger
pub mod Traversal
pub mod RequiredForms
