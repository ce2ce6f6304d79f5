-- ===== src/Lib.antt =====
-- The core of the ICP handler: mandates and their budgets, idempotency keys, rate limits, the store of
-- transactions and subscriptions, purchases and renewals, the webhook outbox and pricing.
--
-- An agent calls an intent under a mandate, a signed statement of what it may buy. The handler limits
-- the caller's rate, claims the request's idempotency key, evaluates the mandate against the intent and
-- runs the intent's handler, which reads and writes the documents of the state store and reserves the
-- amount of a purchase in the ledger of the mandate; then it stores the response under the key and
-- enqueues the events for the webhook worker. Timers renew subscriptions and expire quotes.
--
-- Errors                src/errors.rs: ApiError, code_and_status, retriable; and the results of fallible
--                       calls, which can also panic
-- Models                src/models.rs: Transaction, Subscription, PeerQuote and what they hold
-- Intent                src/intent.rs: Intent and its parse, wire_name, scope, is_state_change
-- Mandate.Terms         src/mandate.rs: MandatePayload and what it holds
-- Mandate.Period        src/mandate.rs: parse_period
-- Mandate.Jurisdiction  src/mandate.rs: jurisdiction_authorizes
-- Mandate.Ledger        src/mandate.rs: MandateLedger, in memory and in SQLite
-- Mandate.Signature     src/mandate.rs: split_compact, decode_unverified, verify_signature
-- Mandate.Evaluate      src/mandate.rs: evaluate, cut where its numbered steps are
-- Mandate.Reserve       src/service/helpers.rs: reserve_mandate_spend
-- Idempotency           src/idempotency.rs: IdempotencyStore, in memory and in SQLite
-- RateLimit             src/rate_limit.rs: RateLimiter
-- StateStore            src/state_store.rs: JsonStore, in memory and in SQLite
-- StateStore.Listing    src/state_store.rs: the lists of a tenant and of what is due, for any documents
-- StateStore.Transactions, StateStore.Subscriptions, StateStore.PeerQuotes
--                       src/state_store.rs: TransactionStore, SubscriptionStore, PeerQuoteStore
-- Service.Payment       src/service/helpers.rs: validate_payment_instrument
-- Service.Parts         src/service/helpers.rs: transaction_for_input, ensure_quote_open
-- Service.Purchase      src/service/purchase.rs: do_authorize, do_buy, persist_order_for_transaction
-- Service.Catalog       src/service/catalog.rs: do_search, do_describe, do_quote; fresh_transaction of
--                       src/service/helpers.rs
-- Service.Negotiate     src/service/negotiate.rs: do_negotiate, do_confirm_receipt
-- Service.Orders        src/service/orders.rs: do_track, do_return; tick_expiries of
--                       src/service/lifecycle.rs
-- Service.Renewals      src/service/lifecycle.rs: tick_subscriptions and the dunning schedule
-- Service.Subscribe     src/service/subscriptions.rs: do_subscribe, do_renew, do_pause,
--                       do_cancel_subscription
-- Service.Gate          src/service/mod.rs: handle_intent up to the intent's own handler
-- Service.Pipeline      src/service/mod.rs: handle_intent_idempotent
-- Service.States        the moves between the states of a transaction that the handlers make
-- Webhook               src/webhook/types.rs, and backoff_for of src/webhook/worker.rs
-- Webhook.Changes       src/webhook/outbox.rs: the changes that its operations make to one delivery
-- Webhook.Outbox        src/webhook/outbox.rs: WebhookOutbox, in memory and in SQLite
-- Pricing               src/service/helpers.rs: price_request_items, flat_tax_minor,
--                       apply_discount_to_totals, with the amounts of src/models.rs
-- Chrono, Storage       the crate chrono as a parameter; the ways in which one access to a store can fail
-- Prelude               tests, options, integers, machine words, text, sequences and keyed maps
-- Examples              the theorems at concrete inputs
--
-- A store is a value that an operation takes and gives back. A hash map and a table with a primary key
-- are association lists, in the order in which they are scanned. An operation takes an Attempt, which
-- says whether the lock is not poisoned and which steps of the database access go through. A write lock
-- and an immediate transaction make the calls of concurrent workers a sequence, and the lock on a
-- transaction makes the calls of the handlers on it one, so the theorems on concurrent calls are on
-- lists of calls; what others do between two accesses of one call is a function on the store.
-- A handler is a function on the transactions and the ledger that answers a result. An i64 is an
-- integer with its saturating and wrapping operations written out; a u32, a Duration of std and an
-- Instant are natural numbers; instants and durations of chrono are integers of nanoseconds, and the
-- sum of an instant and a billing period or a retry's wait is taken inside the range of chrono. Every
-- function is structural, so no fuel is needed; the polls of a key are the 20 of the source.
--
-- Parameters: chrono (its ranges, its printing and parsing; a printed instant reads back, so the
-- instants of the model are those of the years 0 to 9999, whose texts order as they do; the addition
-- of months and the checked one of a duration), Base64, JSON (a printed document reads back) and
-- Ed25519, the resolver of a principal's keys (src/resolver.rs), the commerce engine (src/commerce.rs:
-- its orders and its discounts), the lossy reading of UTF-8, the digest of an envelope, the id drawn for
-- a transaction, the reading of an intent's parameters and of a percentage, and the printing of a line
-- item's id, of an offer and of the key for an intent's id. The charge of an automatic renewal and, in
-- the pipeline, the handler of the intent are parameters too. The text of an error and the log are left
-- out.
--
-- Not modelled: the handlers of quotes between agents, refunds, receipts and events, webhook subscribers
-- and destination addresses, the Redis limiter, the delivery worker's tick and the compatibility
-- surfaces. Not modelled, as calls of libraries and glue: the worker's HTTP calls, the
-- migrations of the database, and the HTTP, gRPC and MCP surfaces.
pub mod Prelude
pub mod Chrono
pub mod Storage
pub mod Errors
pub mod Models
pub mod Intent
pub mod Mandate
pub mod Idempotency
pub mod RateLimit
pub mod StateStore
pub mod Service
pub mod Webhook
pub mod Pricing
mod Examples
