-- ===== src/Service/Negotiate.antt =====
-- src/service/negotiate.rs: counter-offers and the buyer's confirmation of receipt. The JSON text of an
-- offer and the key that counts it are parameters, and of the percentage it is known what the source's
-- floating-point arithmetic makes of it.
pub mod Price
use stateset_icp_handler.Prelude.{
  ℕ, ◌/◌, suc, String, Bool, true, false, not, ◌&&◌, Option, none, some, [], ◌∷◌, map_some,
  unwrap_or, is_some_and, length, filter_by, if◌then◌else◌,
}
use stateset_icp_handler.Prelude.Int.{ℤ, pos, negsuc, ◌-ℤ◌, ◌*ℤ◌, ltb_ℤ}
use stateset_icp_handler.Prelude.Keyed.{Keyed, get as entry, insert as put, string_eq}
use stateset_icp_handler.Prelude.Text.{codes, strip_prefix_str}
use stateset_icp_handler.Errors.{Result, ok, err, ensure, invalid_request, precondition_failed}
use stateset_icp_handler.Chrono.{Chrono}
use stateset_icp_handler.Storage.{Attempt}
use stateset_icp_handler.Pricing.{Money, money, total_amount_minor}
use stateset_icp_handler.Models.Transactions.{
  Transaction, TransactionState, quoted, captured, fulfilled, completed, same_state,
}
use stateset_icp_handler.StateStore.{Serde}
use stateset_icp_handler.Service.Steps.{Stateful, ◌>>=◌, ◌>>◌, lift}
use stateset_icp_handler.Service.Parts.{Outcome, Shop, transaction_for_input, update_transaction}
use stateset_icp_handler.Service.Purchase.{outcome}

-- An `f64` percentage: whether it lies in [0.0, 90.0], and `(10_000.0 - pct * 100.0) as i128`.
pub record Percent : Type 0 where
  pub in_range : Bool
  pub kept : ℤ

pub record NegotiateParams : Type 0 where
  pub transaction_id : String
  pub proposed_total : Option Money
  pub discount_pct : Option Percent
  pub message : Option String

pub record ConfirmReceiptParams : Type 0 where
  pub transaction_id : String
  pub note : Option String

-- The key of the n-th offer, and the text of an offer from one amount to another.
pub record Offers : Type 0 where
  pub history_key : ℕ → String
  pub offer_json : ℤ → ℤ → String → NegotiateParams → ℤ → String → String

-- Division towards zero.
abbrev pub per_10000 : ℤ → ℤ
per_10000 (pos n) = pos (n / 10000)
per_10000 (negsuc n) = pos 0 -ℤ pos (suc n / 10000)

abbrev pub is_none {ℓ} : {A : Type ℓ} → Option A → Bool
is_none none = true
is_none (some a) = false

-- An offer wins over a percentage.
unfoldable pub new_total_minor : NegotiateParams → ℤ → Result ℤ
new_total_minor params original = elim params.proposed_total [
  | some pt ↦ if ltb_ℤ pt.amount_minor (pos 0) then err invalid_request else ok pt.amount_minor
  | none ↦
      ok
        (per_10000 (original *ℤ unwrap_or (map_some (λ p. p.kept) params.discount_pct) (pos 10000)))
]

abbrev pub negotiations : Keyed String String → ℕ
negotiations refs = length (
    filter_by (λ r. is_some_and (strip_prefix_str (codes "negotiation_") (codes r.0)) (λ _. true))
      refs)

abbrev pub renegotiate_with :
    Offers → NegotiateParams → ℤ → ℤ → String → String → ℤ → Transaction → Transaction
renegotiate_with offers params original total currency agent now t = record t {
  totals = record t.totals { total = some (money total currency) };
  external_refs =
      put (offers.history_key (negotiations t.external_refs))
        (offers.offer_json (unwrap_or (map_some (λ m. m.amount_minor) t.totals.total) original)
          total currency params now agent)
        t.external_refs;
  updated_at = now;
}

abbrev pub is_paid : TransactionState → Bool
is_paid captured = true
is_paid fulfilled = true
is_paid completed = true
is_paid _ = false

abbrev pub note_refs : Option String → Keyed String String → Keyed String String
note_refs none refs = refs
note_refs (some note) refs = put "receipt_note" note refs

abbrev pub confirm_with : Chrono → ConfirmReceiptParams → String → ℤ → Transaction → Transaction
confirm_with chrono params agent now t = record t {
  external_refs = note_refs params.note (
      put "receipt_confirmed_by" agent
        (put "receipt_confirmed_at" (chrono.to_rfc3339 now) t.external_refs));
  updated_at = now;
}

module _ (serde : Serde Transaction) (chrono : Chrono) where
  -- The accesses are the read and the write.
  unfoldable pub do_negotiate :
      Offers → Attempt → Attempt → String → String → ℤ → NegotiateParams → Stateful Shop Outcome
  do_negotiate offers found written tenant_id agent now params = do
    lift (
        ensure (not (is_none params.proposed_total && is_none params.discount_pct)) invalid_request)
    lift (ensure (not (is_some_and params.discount_pct (λ p. not p.in_range))) invalid_request)
    txn ← transaction_for_input serde chrono found params.transaction_id tenant_id
    lift (ensure (same_state txn.state quoted) precondition_failed)
    total ← lift (new_total_minor params (total_amount_minor txn.totals))
    updated ← update_transaction serde chrono written params.transaction_id (
        renegotiate_with offers params (total_amount_minor txn.totals) total txn.currency agent now)
    lift (ok (outcome updated none))

  unfoldable pub do_confirm_receipt :
      Attempt → Attempt → String → String → ℤ → ConfirmReceiptParams → Stateful Shop Outcome
  do_confirm_receipt found written tenant_id agent now params = do
    txn ← transaction_for_input serde chrono found params.transaction_id tenant_id
    lift (ensure (is_paid txn.state) precondition_failed)
    lift (ensure (is_none (entry "receipt_confirmed_at" txn.external_refs)) precondition_failed)
    updated ←
        update_transaction serde chrono written params.transaction_id
          (confirm_with chrono params agent now)
    lift (ok (outcome updated none))
