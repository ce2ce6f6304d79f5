-- ===== src/Examples.antt =====
-- Concrete inputs, and the theorems at them.
mod Clock
mod Documents
mod Stores
mod Purchases
mod Requests
mod Renewals
mod Plans
mod Mandates
mod Keys
mod Limits
mod Deliveries
mod Charges
