-- ===== src/Models/Subscriptions.antt =====
-- src/models.rs: a subscription, its statuses and its cadence.
use stateset_icp_handler.Prelude.{ℕ, String, ◌≡◌, refl, Bool, true, false, Option, List, eqb}
use stateset_icp_handler.Prelude.Int.{ℤ}
use stateset_icp_handler.Prelude.Keyed.{◌==◌, string_eq}
use stateset_icp_handler.Pricing.{RequestItem}
use stateset_icp_handler.Models.Parties.{Address, Buyer, PaymentInstrument}

pub data SubscriptionStatus : Type 0 where
  trialing active paused canceled past_due : SubscriptionStatus

abbrev pub discriminant : SubscriptionStatus → ℕ
discriminant trialing = 0
discriminant active = 1
discriminant paused = 2
discriminant canceled = 3
discriminant past_due = 4

abbrev pub same_status : SubscriptionStatus → SubscriptionStatus → Bool
same_status s t = eqb (discriminant s) (discriminant t)

unfoldable pub wire_name : SubscriptionStatus → String
wire_name trialing = "trialing"
wire_name active = "active"
wire_name paused = "paused"
wire_name canceled = "canceled"
wire_name past_due = "past_due"

unfoldable pub is_terminal : SubscriptionStatus → Bool
is_terminal canceled = true
is_terminal _ = false

pub data BillingCadence : Type 0 where
  weekly monthly annual : BillingCadence

pub record Subscription : Type 0 where
  pub id : String
  pub status : SubscriptionStatus
  pub agent_id : String
  pub tenant_id : String
  pub mandate_jti : Option String
  pub buyer : Buyer
  pub ship_to : Option Address
  pub items : List RequestItem
  pub currency : String
  pub cadence : BillingCadence
  pub current_period_start : ℤ
  pub current_period_end : ℤ
  pub next_charge_at : ℤ
  pub charges_completed : ℕ
  pub last_transaction_id : Option String
  pub payment_instrument : Option PaymentInstrument
  pub created_at : ℤ
  pub updated_at : ℤ
  pub canceled_at : Option ℤ
  pub paused_at : Option ℤ
  pub failed_renewal_attempts : ℕ
  pub trial_end : Option ℤ

pub same_status-wire_name :
    (s t : SubscriptionStatus) → (wire_name s == wire_name t) ≡ same_status s t
unfolding wire_name
same_status-wire_name trialing trialing = refl
same_status-wire_name trialing _ = refl
same_status-wire_name active trialing = refl
same_status-wire_name active _ = refl
same_status-wire_name paused trialing = refl
same_status-wire_name paused _ = refl
same_status-wire_name canceled trialing = refl
same_status-wire_name canceled _ = refl
same_status-wire_name past_due trialing = refl
same_status-wire_name past_due _ = refl
