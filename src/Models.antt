-- ===== src/Models.antt =====
-- src/models.rs: the documents that the handler keeps and the records that they hold.
pub mod Parties
pub mod Transactions
pub mod Subscriptions
pub mod Peers
