-- ===== src/Sdk.antt =====
-- The shared partner SDK (shared/sdk).
pub mod Retries
pub mod Circuit
pub mod Idempotency
pub mod Replay
mod Tests
