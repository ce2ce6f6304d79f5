-- ===== src/Models/Transactions.antt =====
-- src/models.rs: a transaction and its states, with the wire names of src/state_store.rs.
use stateset_icp_handler.Prelude.{ℕ, String, ◌≡◌, refl, Bool, true, false, Option, List, eqb}
use stateset_icp_handler.Prelude.Int.{ℤ}
use stateset_icp_handler.Prelude.Keyed.{Keyed, ◌==◌, string_eq}
use stateset_icp_handler.Pricing.{LineItem, Totals}
use stateset_icp_handler.Models.Parties.{Address, Buyer}

pub data TransactionState : Type 0 where
  draft quoted authorized captured fulfilled completed reversed canceled expired : TransactionState

-- The discriminants, by which the derived equality compares.
abbrev pub discriminant : TransactionState → ℕ
discriminant draft = 0
discriminant quoted = 1
discriminant authorized = 2
discriminant captured = 3
discriminant fulfilled = 4
discriminant completed = 5
discriminant reversed = 6
discriminant canceled = 7
discriminant expired = 8

abbrev pub same_state : TransactionState → TransactionState → Bool
same_state s t = eqb (discriminant s) (discriminant t)

unfoldable pub is_terminal : TransactionState → Bool
is_terminal completed = true
is_terminal reversed = true
is_terminal canceled = true
is_terminal expired = true
is_terminal _ = false

unfoldable pub transaction_state_wire_name : TransactionState → String
transaction_state_wire_name draft = "draft"
transaction_state_wire_name quoted = "quoted"
transaction_state_wire_name authorized = "authorized"
transaction_state_wire_name captured = "captured"
transaction_state_wire_name fulfilled = "fulfilled"
transaction_state_wire_name completed = "completed"
transaction_state_wire_name reversed = "reversed"
transaction_state_wire_name canceled = "canceled"
transaction_state_wire_name expired = "expired"

pub record Transaction : Type 0 where
  pub id : String
  pub state : TransactionState
  pub agent_id : String
  pub tenant_id : String
  pub mandate_jti : Option String
  pub currency : String
  pub jurisdiction : Option String
  pub buyer : Buyer
  pub ship_to : Option Address
  pub bill_to : Option Address
  pub line_items : List LineItem
  pub totals : Totals
  pub order_id : Option String
  pub quote_expires_at : Option ℤ
  pub created_at : ℤ
  pub updated_at : ℤ
  pub external_refs : Keyed String String

pub same_state_wire_name :
    (s t : TransactionState)
    → (transaction_state_wire_name s == transaction_state_wire_name t) ≡ same_state s t
unfolding transaction_state_wire_name
same_state_wire_name draft draft = refl
same_state_wire_name draft _ = refl
same_state_wire_name quoted draft = refl
same_state_wire_name quoted _ = refl
same_state_wire_name authorized draft = refl
same_state_wire_name authorized _ = refl
same_state_wire_name captured draft = refl
same_state_wire_name captured _ = refl
same_state_wire_name fulfilled draft = refl
same_state_wire_name fulfilled _ = refl
same_state_wire_name completed draft = refl
same_state_wire_name completed _ = refl
same_state_wire_name reversed draft = refl
same_state_wire_name reversed _ = refl
same_state_wire_name canceled draft = refl
same_state_wire_name canceled _ = refl
same_state_wire_name expired draft = refl
same_state_wire_name expired _ = refl
