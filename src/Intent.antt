-- ===== src/Intent.antt =====
-- src/intent.rs: the intents, their wire names and the mandate scope that gates each.
use stateset_icp_handler.Prelude.{
  ℕ, ◌≡◌, sym, refl, Bool, true, false, Option, none, some, String, List, unwrap_or, if◌then◌else◌,
  arith,
}
use stateset_icp_handler.Prelude.Text.{codes, codes_eq, trim, strip_prefix_str, codes_eq-true}
use stateset_icp_handler.Errors.{Result, ok, err, intent_not_supported}

pub data Intent : Type 0 where
  search describe quote negotiate authorize buy pay subscribe renew pause : Intent
  cancel_subscription track confirm_receipt return refund_request a2a_pay a2a_quote : Intent

-- The wire name without `intent.`, which `parse` matches.
pub bare_name : Intent → String
bare_name search = "search"
bare_name describe = "describe"
bare_name quote = "quote"
bare_name negotiate = "negotiate"
bare_name authorize = "authorize"
bare_name buy = "buy"
bare_name pay = "pay"
bare_name subscribe = "subscribe"
bare_name renew = "renew"
bare_name pause = "pause"
bare_name cancel_subscription = "cancel_subscription"
bare_name track = "track"
bare_name confirm_receipt = "confirm_receipt"
bare_name return = "return"
bare_name refund_request = "refund_request"
bare_name a2a_pay = "a2a_pay"
bare_name a2a_quote = "a2a_quote"

-- The arms of the `match` on the name, in order.
unfoldable pub match_name : List ℕ → Result Intent
match_name name =
    if codes_eq (codes "search") name
    then ok search
    else if codes_eq (codes "describe") name
    then ok describe
    else if codes_eq (codes "quote") name
    then ok quote
    else if codes_eq (codes "negotiate") name
    then ok negotiate
    else if codes_eq (codes "authorize") name
    then ok authorize
    else if codes_eq (codes "buy") name
    then ok buy
    else if codes_eq (codes "pay") name
    then ok pay
    else if codes_eq (codes "subscribe") name
    then ok subscribe
    else if codes_eq (codes "renew") name
    then ok renew
    else if codes_eq (codes "pause") name
    then ok pause
    else if codes_eq (codes "cancel_subscription") name
    then ok cancel_subscription
    else if codes_eq (codes "track") name
    then ok track
    else if codes_eq (codes "confirm_receipt") name
    then ok confirm_receipt
    else if codes_eq (codes "return") name
    then ok return
    else if codes_eq (codes "refund_request") name
    then ok refund_request
    else if codes_eq (codes "a2a_pay") name
    then ok a2a_pay
    else if codes_eq (codes "a2a_quote") name
    then ok a2a_quote
    else err intent_not_supported

-- What `parse` looks up: the trimmed text, without one leading `intent.`.
unfoldable pub name_of : List ℕ → List ℕ
unfolding trim strip_prefix_str
name_of s = let trimmed = trim s in unwrap_or (strip_prefix_str (codes "intent.") trimmed) trimmed

unfoldable pub parse : List ℕ → Result Intent
unfolding name_of match_name
parse s = match_name (name_of s)

pub wire_name : Intent → String
wire_name search = "intent.search"
wire_name describe = "intent.describe"
wire_name quote = "intent.quote"
wire_name negotiate = "intent.negotiate"
wire_name authorize = "intent.authorize"
wire_name buy = "intent.buy"
wire_name pay = "intent.pay"
wire_name subscribe = "intent.subscribe"
wire_name renew = "intent.renew"
wire_name pause = "intent.pause"
wire_name cancel_subscription = "intent.cancel_subscription"
wire_name track = "intent.track"
wire_name confirm_receipt = "intent.confirm_receipt"
wire_name return = "intent.return"
wire_name refund_request = "intent.refund_request"
wire_name a2a_pay = "intent.a2a_pay"
wire_name a2a_quote = "intent.a2a_quote"

unfoldable pub scope : Intent → Option String
scope search = none
scope describe = none
scope quote = some "quote"
scope negotiate = some "quote"
scope authorize = some "buy"
scope buy = some "buy"
scope pay = some "buy"
scope subscribe = some "subscribe"
scope renew = some "subscribe"
scope pause = some "subscribe"
scope cancel_subscription = some "subscribe"
scope track = some "fulfill"
scope confirm_receipt = some "fulfill"
scope return = some "return"
scope refund_request = some "return"
scope a2a_pay = some "pay_peer"
scope a2a_quote = some "pay_peer"

unfoldable pub is_state_change : Intent → Bool
is_state_change search = false
is_state_change describe = false
is_state_change track = false
is_state_change _ = true

match_name_sound :
    (s : List ℕ) (i : Intent) → match_name s ≡ ok i → codes_eq (codes (bare_name i)) s ≡ true
unfolding match_name bare_name
match_name_sound s search h = ground arith
match_name_sound s _ h = ground arith

parse-wire_name : (i : Intent) → parse (codes (wire_name i)) ≡ ok i
unfolding parse wire_name codes_eq
parse-wire_name search = refl
parse-wire_name _ = refl

-- A text that parses is, once trimmed and rid of one leading `intent.`, exactly the name of the
-- intent that it parses to, and that intent's wire name parses to it too.
pub parse_exact :
    (s : List ℕ) (i : Intent)
    → parse s ≡ ok i
    → (name_of s ≡ codes (bare_name i)) × (parse (codes (wire_name i)) ≡ ok i)
parse_exact s i h = (
  sym (codes_eq-true _ _ (match_name_sound (name_of s) i (unfold parse in h))),
  parse-wire_name i,
)

-- Every intent that creates or moves a transaction is gated by a mandate's scope.
pub state_change_has_scope :
    (i : Intent) → is_state_change i ≡ true → (s : String) × (scope i ≡ some s)
unfolding is_state_change scope
state_change_has_scope search h = cc
state_change_has_scope describe h = cc
state_change_has_scope quote h = ("quote", refl)
state_change_has_scope negotiate h = ("quote", refl)
state_change_has_scope authorize h = ("buy", refl)
state_change_has_scope buy h = ("buy", refl)
state_change_has_scope pay h = ("buy", refl)
state_change_has_scope subscribe h = ("subscribe", refl)
state_change_has_scope renew h = ("subscribe", refl)
state_change_has_scope pause h = ("subscribe", refl)
state_change_has_scope cancel_subscription h = ("subscribe", refl)
state_change_has_scope track h = ("fulfill", refl)
state_change_has_scope confirm_receipt h = ("fulfill", refl)
state_change_has_scope return h = ("return", refl)
state_change_has_scope refund_request h = ("return", refl)
state_change_has_scope a2a_pay h = ("pay_peer", refl)
state_change_has_scope a2a_quote h = ("pay_peer", refl)
