-- ===== src/Patches.antt =====
-- The PATCHES partner API (patches/lib).
pub mod Store
pub mod RateLimit
pub mod Policy
pub mod Bodies
pub mod Activation
pub mod StateChange
pub mod Security
mod Tests
