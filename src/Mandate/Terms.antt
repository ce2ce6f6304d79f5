-- ===== src/Mandate/Terms.antt =====
-- The mandate document of src/mandate.rs.
use stateset_icp_handler.Prelude.{String, Bool, List, Option}
use stateset_icp_handler.Prelude.Int.{ℤ}

pub record MandateBudget : Type 0 where
  pub currency : String
  pub amount_minor : ℤ
  pub per_transaction : Option ℤ
  pub period : Option String

pub record MandatePolicies : Type 0 where
  pub require_receipt : Bool
  pub require_shipping_address_confirmation : Bool
  pub prohibit_subscriptions : Bool

pub record MandateTerms : Type 0 where
  pub version : String
  pub scope : List String
  pub budget : MandateBudget
  pub merchants : List String
  pub categories : List String
  pub jurisdictions : List String
  pub policies : MandatePolicies
  pub linked_payment_methods : List String

pub record MandatePayload : Type 0 where
  pub iss : String
  pub sub : String
  pub iat : ℤ
  pub nbf : ℤ
  pub exp : ℤ
  pub jti : String
  pub icp : MandateTerms

pub record JwsHeader : Type 0 where
  pub alg : String
  pub kid : Option String
