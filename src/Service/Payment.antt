-- ===== src/Service/Payment.antt =====
-- src/service/helpers.rs: what a payment instrument must hold.
use stateset_icp_handler.Prelude.{
  String, Bool, true, false, not, ◌&&◌, Option, none, some, is_some_and, is_empty,
}
use stateset_icp_handler.Prelude.Keyed.{◌==◌, string_eq}
use stateset_icp_handler.Prelude.Text.{codes, trim}
use stateset_icp_handler.Errors.{Result, ok, ◌>>◌, ensure, invalid_request, precondition_failed}
use stateset_icp_handler.Models.Parties.{
  PaymentInstrument, card, delegated_vault, stablecoin, a2a, external_authorization,
}

unfoldable pub require_non_empty : Option String → Result (Unit {0})
require_non_empty value =
    ensure (is_some_and value (λ v. not (is_empty (trim (codes v))))) invalid_request

-- An `if let Some(…)` around a check.
abbrev pub if_given : Option String → (Option String → Result (Unit {0})) → Result (Unit {0})
if_given none check = ok tt
if_given (some v) check = check (some v)

unfoldable pub instrument_complete : PaymentInstrument → Result (Unit {0})
unfolding require_non_empty
instrument_complete (card token last_digits brand) = require_non_empty token
instrument_complete (delegated_vault token provider) =
    require_non_empty (some token) >> if_given provider require_non_empty
instrument_complete (stablecoin asset chain sender network_memo) =
    require_non_empty (some asset)
    >> require_non_empty (some chain)
    >> require_non_empty (some sender)
instrument_complete (a2a peer_agent_id memo) = require_non_empty (some peer_agent_id)
instrument_complete (external_authorization provider authorization_id instrument_hint) =
    require_non_empty (some provider) >> require_non_empty (some authorization_id)

abbrev pub is_external : PaymentInstrument → Bool
is_external (external_authorization _ _ _) = true
is_external _ = false

unfoldable pub validate_payment_instrument : PaymentInstrument → String → Result (Unit {0})
unfolding instrument_complete
validate_payment_instrument payment execution_mode =
    instrument_complete payment
    >> ensure (not (execution_mode == "external_required" && not (is_external payment)))
        precondition_failed
