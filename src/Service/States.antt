-- ===== src/Service/States.antt =====
-- The states of a transaction under the handlers of src/service, as a relation.
pub mod Handlers
pub mod Calls
use stateset_icp_handler.Prelude.{
  String, ◌≡◌, inl, inr, refl, ap, sym, ◌∙◌, subst, true, some, [], ◌∷◌, Bool-cases, is_some_and,
  arith, if◌then◌else◌,
}
use stateset_icp_handler.Prelude.Int.{ℤ, leb_ℤ}
use stateset_icp_handler.Prelude.Keyed.{string_eq, ◌==◌}
use stateset_icp_handler.Errors.{Result, ok, err, panic}
use stateset_icp_handler.Chrono.{Chrono}
use stateset_icp_handler.Storage.{Attempt}
use stateset_icp_handler.Models.Transactions.{
  Transaction, TransactionState, draft, quoted, authorized, captured, fulfilled, completed,
  reversed, canceled, expired, same_state,
}
use stateset_icp_handler.StateStore.{Serde, JsonStore}
use stateset_icp_handler.StateStore.Refines.{view}
use stateset_icp_handler.StateStore.Atomic.{update_all_or_nothing}
use stateset_icp_handler.StateStore.Transactions.{update, index_columns, is_open, is_due}
use stateset_icp_handler.Service.Steps.{Stateful, continue}
use stateset_icp_handler.Service.Parts.{Shop, update_transaction, ensure_quote_open, expire_if_over}

-- The moves that the handlers make: a purchase completes a quote or an authorization, a quote whose
-- time is over expires, and a return reverses any transaction.
pub data Move : TransactionState → TransactionState → Type 0 where
  authorizes : Move quoted authorized
  buys_quoted : Move quoted completed
  buys_authorized : Move authorized completed
  expires_draft : Move draft expired
  expires_quoted : Move quoted expired
  reverses : (s : TransactionState) → Move s reversed

pub data Reach (s : TransactionState) : TransactionState → Type 0 where
  stays : Reach s s
  moves_on : {t u : TransactionState} → Reach s t → Move t u → Reach s u

pub Reach-trans : {s t u : TransactionState} → Reach s t → Reach t u → Reach s u
Reach-trans r stays = r
Reach-trans r (moves_on q m) = moves_on (Reach-trans r q) m

open_expires : (s : TransactionState) → is_open s ≡ true → Move s expired
open_expires draft h = expires_draft
open_expires quoted h = expires_quoted
open_expires authorized h = cc
open_expires captured h = cc
open_expires fulfilled h = cc
open_expires completed h = cc
open_expires reversed h = cc
open_expires canceled h = cc
open_expires expired h = cc

due_open : (now : ℤ) (v : Transaction) → is_due now v ≡ true → is_open v.state ≡ true
due_open now v h = ground arith

pub is_quoted : (s : TransactionState) → same_state s quoted ≡ true → s ≡ quoted
is_quoted draft h = cc
is_quoted quoted h = refl
is_quoted authorized h = cc
is_quoted captured h = cc
is_quoted fulfilled h = cc
is_quoted completed h = cc
is_quoted reversed h = cc
is_quoted canceled h = cc
is_quoted expired h = cc

pub some_same : {A : Type 0} {a b : A} → some a ≡ some b → a ≡ b
some_same e = cc

module _ (serde : Serde Transaction) (chrono : Chrono) where
  -- No transaction is lost, and each moves by those moves.
  abbrev pub Moves : JsonStore Transaction → JsonStore Transaction → Type 0
  Moves s s' =
      (id : String) (t : Transaction)
      → view serde s id ≡ some t
      → (t' : Transaction) × (view serde s' id ≡ some t') × Reach t.state t'.state

  pub Moves-refl : (s : JsonStore Transaction) → Moves s s
  Moves-refl s id t h = (t, h, stays)

  Moves-trans : (s s' s'' : JsonStore Transaction) → Moves s s' → Moves s' s'' → Moves s s''
  Moves-trans s s' s'' m n id t h =
      let (t', h', r) = m id t h in let (t'', h'', q) = n id t' h' in (t'', h'', Reach-trans r q)

  -- An update whose change moves the transaction that is there.
  pub update-Moves :
      (a : Attempt) (s : JsonStore Transaction) (id : String) (f : Transaction → Transaction)
      → ((v : Transaction) → view serde s id ≡ some v → Reach v.state (f v).state)
      → Moves s (update serde chrono a s id f).1
  unfolding update
  update-Moves a s id f moves j t h =
      elim (update_all_or_nothing serde (index_columns chrono) a s id f) [
        | inl (missing, kept) ↦ (t, kept j ∙ h, stays)
        | inr (v, found, changed, after) ↦ elim (Bool-cases (id == j)) [
          | inl e ↦
              let same = (string_eq.same_iff id j).0 e in
              let was : v ≡ t = some_same (sym found ∙ (ap (view serde s) same ∙ h)) in
              (
                f v,
                after j ∙ ap (λ b. if b then some (f v) else view serde s j) e,
                subst (λ u. Reach u.state (f v).state) was (moves v found),
              )
          | inr e ↦ (t, after j ∙ (ap (λ b. if b then some (f v) else view serde s j) e ∙ h), stays)
        ]
      ]

  pub continue-Moves :
      {A B : Type 0} (r : Result A × Shop) (step : A → Stateful Shop B) (s : Shop)
      → Moves s.transactions r.1.transactions
      → ((a : A) → r.0 ≡ ok a → Moves r.1.transactions (step a r.1).1.transactions)
      → Moves s.transactions (continue r step).1.transactions
  continue-Moves (panic, s') step s m k = m
  continue-Moves (err e, s') step s m k = m
  continue-Moves (ok a, s') step s m k =
      Moves-trans s.transactions s'.transactions (step a s').1.transactions m (k a refl)

  pub check-Moves :
      {A B : Type 0} (r : Result A) (step : A → Stateful Shop B) (s : Shop)
      → ((a : A) → r ≡ ok a → Moves s.transactions (step a s).1.transactions)
      → Moves s.transactions (continue (r, s) step).1.transactions
  check-Moves r step s k = continue-Moves (r, s) step s (Moves-refl s.transactions) k

  pub write-Moves :
      (a : Attempt) (id : String) (f : Transaction → Transaction) (s : Shop)
      → ((v : Transaction) → view serde s.transactions id ≡ some v → Reach v.state (f v).state)
      → Moves s.transactions (update_transaction serde chrono a id f s).1.transactions
  unfolding update_transaction
  write-Moves a id f s moves = update-Moves a s.transactions id f moves

  expired-Moves : (now : ℤ) (v : Transaction) → Reach v.state (expire_if_over now v).state
  expired-Moves now v = elim (Bool-cases (is_due now v)) [
    | inl e ↦
        subst (λ (u : Transaction). Reach v.state u.state)
          (ap (λ b. if b then record v { state = expired; updated_at = now } else v) (sym e))
          (moves_on stays (open_expires v.state (due_open now v e)))
    | inr e ↦
        subst (λ (u : Transaction). Reach v.state u.state)
          (ap (λ b. if b then record v { state = expired; updated_at = now } else v) (sym e)) stays
  ]

  pub quote_open-Moves :
      (a : Attempt) (txn : Transaction) (now : ℤ) (s : Shop)
      → Moves s.transactions (ensure_quote_open serde chrono a txn now s).1.transactions
  unfolding ensure_quote_open
  quote_open-Moves a txn now s =
      elim (Bool-cases (is_some_and txn.quote_expires_at (λ expires_at. leb_ℤ expires_at now))) [
        | inl e ↦ elim (Bool-cases (is_open txn.state)) [
          | inl c ↦
              rw (e, ensure_quote_open)
                (rw (c, ensure_quote_open)
                  (update-Moves a s.transactions txn.id (expire_if_over now)
                    (λ v h. expired-Moves now v)))
          | inr c ↦
              rw (e, ensure_quote_open) (rw (c, ensure_quote_open) (Moves-refl s.transactions))
        ]
        | inr e ↦ rw (e, ensure_quote_open) (Moves-refl s.transactions)
      ]
