-- ===== src/Governance.antt =====
-- The governance of AI output and protected actions: ai-governance.
pub mod Classification
pub mod Audit
pub mod Store
pub mod Provenance
pub mod Deterministic
pub mod HumanReview
pub mod Protected
mod Tests
