-- ===== src/Service.antt =====
-- src/service: the handlers of the intents, over the state of the handler that they change.
mod Steps
pub mod Payment
pub mod Parts
pub mod Purchase
pub mod Negotiate
pub mod Orders
pub mod States
pub mod Sweep
pub mod Renewals
pub mod Gate
pub mod Catalog
pub mod Subscribe
pub mod Pipeline
pub use Steps.*
