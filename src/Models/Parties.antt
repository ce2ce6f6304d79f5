-- ===== src/Models/Parties.antt =====
-- src/models.rs: who buys, where to, and with which payment instrument.
use stateset_icp_handler.Prelude.{String, Option}

pub record Address : Type 0 where
  pub name : Option String
  pub line_one : Option String
  pub line_two : Option String
  pub city : Option String
  pub state : Option String
  pub postal_code : Option String
  pub country : Option String
  pub phone_number : Option String
  pub email : Option String

pub record Buyer : Type 0 where
  pub first_name : Option String
  pub last_name : Option String
  pub email : Option String
  pub phone_number : Option String
  pub principal_did : Option String

pub data PaymentInstrument : Type 0 where
  -- token, last digits, brand
  card : Option String → Option String → Option String → PaymentInstrument
  -- token, provider
  delegated_vault : String → Option String → PaymentInstrument
  -- asset, chain, from, network memo
  stablecoin : String → String → String → Option String → PaymentInstrument
  -- peer agent, memo
  a2a : String → Option String → PaymentInstrument
  -- provider, authorization id, instrument hint
  external_authorization : String → String → Option String → PaymentInstrument
