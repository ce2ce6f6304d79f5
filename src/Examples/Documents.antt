-- ===== src/Examples/Documents.antt =====
-- Documents and stores of them for the examples, and a calendar that orders what it prints.
use stateset_icp_handler.Prelude.{
  String, ◌≡◌, refl, sym, Bool, false, Option, none, some, [], Bool-cases, inl, inr, eq_iff,
}
use stateset_icp_handler.Prelude.Int.{ℤ, pos, negsuc, ltb_ℤ}
use stateset_icp_handler.Prelude.Keyed.{Keyed, ◌==◌, string_eq}
use stateset_icp_handler.Chrono.{Chrono, IsOrdered}
use stateset_icp_handler.Pricing.{money}
use stateset_icp_handler.Models.Parties.{Buyer, card}
use stateset_icp_handler.Models.Transactions.{Transaction, TransactionState}
use stateset_icp_handler.Models.Subscriptions.{Subscription, SubscriptionStatus, monthly}
use stateset_icp_handler.StateStore.{Serde, JsonRow, write_columns}
use stateset_icp_handler.Examples.Clock.{calendar, read_instant, print_instant, parse-print}

abbrev pub instant_before : Option ℤ → Option ℤ → Bool
instant_before none o = false
instant_before (some a) none = false
instant_before (some a) (some b) = ltb_ℤ a b

abbrev pub ordered_calendar : Chrono
ordered_calendar = record calendar {
  text_before = λ s t. instant_before (read_instant s) (read_instant t);
}

printed_order :
    (a b : ℤ)
    → instant_before (read_instant (print_instant a)) (read_instant (print_instant b)) ≡ ltb_ℤ a b
printed_order a b = rw (parse-print a) (rw (parse-print b) refl)

printed_not_empty : (t : ℤ) → (print_instant t == "") ≡ false
unfolding print_instant
printed_not_empty (pos n) = elim (Bool-cases (print_instant (pos n) == "")) [
  | inl e ↦ cc ((eq_iff (print_instant (pos n)) "").0 e)
  | inr e ↦ e
]
printed_not_empty (negsuc n) = elim (Bool-cases (print_instant (negsuc n) == "")) [
  | inl e ↦ cc ((eq_iff (print_instant (negsuc n)) "").0 e)
  | inr e ↦ e
]

pub ordered_calendar-IsOrdered : IsOrdered ordered_calendar
ordered_calendar-IsOrdered = record {
  order = λ a b p q. printed_order a b;
  not_empty = printed_not_empty;
}

-- A type of documents that are their own text.
abbrev pub texts : Serde String
texts = record {
  to_string = λ s. some s;
  from_str = λ s. some s;
  from_str-to_string = λ v json e. sym e;
}

abbrev pub nobody : Buyer
nobody = record {
  first_name = none;
  last_name = none;
  email = none;
  phone_number = none;
  principal_did = none;
}

abbrev pub quote_of : String → TransactionState → String → ℤ → Transaction
quote_of id state tenant_id end = record {
  id = id;
  state = state;
  agent_id = "agent";
  tenant_id = tenant_id;
  mandate_jti = none;
  currency = "USD";
  jurisdiction = none;
  buyer = nobody;
  ship_to = none;
  bill_to = none;
  line_items = [];
  totals = record {
    subtotal = some (money (pos 1000) "USD");
    discount = none;
    shipping = none;
    tax = some (money (pos 87) "USD");
    total = some (money (pos 1087) "USD");
  };
  order_id = none;
  quote_expires_at = some end;
  created_at = pos 1;
  updated_at = pos 1;
  external_refs = [];
}

abbrev pub plan_of : String → SubscriptionStatus → ℤ → Subscription
plan_of id status due = record {
  id = id;
  status = status;
  agent_id = "agent";
  tenant_id = "acme";
  mandate_jti = none;
  buyer = nobody;
  ship_to = none;
  items = [];
  currency = "USD";
  cadence = monthly;
  current_period_start = pos 1;
  current_period_end = due;
  next_charge_at = due;
  charges_completed = 1;
  last_transaction_id = none;
  payment_instrument = some (card (some "tok") none none);
  created_at = pos 1;
  updated_at = pos 1;
  canceled_at = none;
  paused_at = none;
  failed_renewal_attempts = 0;
  trial_end = none;
}

pub never_written :
    {T : Type 0} (read : String → Option T) (v : T) (json : String)
    → ◌≡◌ {A = Option String} none (some json)
    → read json ≡ some v
never_written read v json e = cc

-- A table whose texts `read` knows; it writes nothing.
abbrev pub read_only : {T : Type 0} → (String → Option T) → Serde T
read_only read = record {
  to_string = λ v. none;
  from_str = read;
  from_str-to_string = never_written read;
}

abbrev pub row_of : String → Keyed String String → JsonRow
row_of text index = record { payload_json = text; columns = write_columns index [] }
