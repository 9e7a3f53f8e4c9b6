-- ===== src/LawShield.antt =====
-- law-shield: the durable processor behind the Law Shield gateway, and what the ARMA side sends it.
pub mod Store
pub mod Envelope
pub mod Redaction
pub mod Disclosure
pub mod Processor
pub mod Ledger
pub mod Reconciliation
pub mod Authorization
mod Tests
