-- ===== src/Models/Peers.antt =====
-- src/models.rs: a quote between two agents and its statuses. The parameters of a service are a JSON
-- value, kept as its text.
use stateset_icp_handler.Prelude.{ℕ, String, ◌≡◌, refl, Bool, Option, eqb}
use stateset_icp_handler.Prelude.Int.{ℤ}
use stateset_icp_handler.Prelude.Keyed.{◌==◌, string_eq}
use stateset_icp_handler.Pricing.{Money}

pub data PeerQuoteStatus : Type 0 where
  pending quoted accepted expired rejected : PeerQuoteStatus

abbrev pub discriminant : PeerQuoteStatus → ℕ
discriminant pending = 0
discriminant quoted = 1
discriminant accepted = 2
discriminant expired = 3
discriminant rejected = 4

abbrev pub same_status : PeerQuoteStatus → PeerQuoteStatus → Bool
same_status s t = eqb (discriminant s) (discriminant t)

unfoldable pub wire_name : PeerQuoteStatus → String
wire_name pending = "pending"
wire_name quoted = "quoted"
wire_name accepted = "accepted"
wire_name expired = "expired"
wire_name rejected = "rejected"

pub data A2aServiceKind : Type 0 where
  compute data_feed image_generation ad_hoc : A2aServiceKind

pub record A2aServiceSpec : Type 0 where
  pub kind : A2aServiceKind
  pub description : String
  pub params : String

pub record PeerQuote : Type 0 where
  pub id : String
  pub status : PeerQuoteStatus
  pub tenant_id : String
  pub requester_agent_id : String
  pub peer_agent_id : String
  pub service : A2aServiceSpec
  pub price : Option Money
  pub created_at : ℤ
  pub updated_at : ℤ
  pub expires_at : ℤ
  pub accepted_at : Option ℤ
  pub charge_transaction_id : Option String
  pub mandate_jti : Option String
  pub reference_id : Option String

pub same_status-wire_name : (s t : PeerQuoteStatus) → (wire_name s == wire_name t) ≡ same_status s t
unfolding wire_name
same_status-wire_name pending pending = refl
same_status-wire_name pending _ = refl
same_status-wire_name quoted pending = refl
same_status-wire_name quoted _ = refl
same_status-wire_name accepted pending = refl
same_status-wire_name accepted _ = refl
same_status-wire_name expired pending = refl
same_status-wire_name expired _ = refl
same_status-wire_name rejected pending = refl
same_status-wire_name rejected _ = refl
