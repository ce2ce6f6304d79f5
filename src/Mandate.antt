-- ===== src/Mandate.antt =====
-- src/mandate.rs: the mandate document, its checks and the spend ledger.
pub mod Period
pub mod Jurisdiction
pub mod Terms
pub mod Ledger
pub mod Signature
pub mod Evaluate
pub mod Reserve
