-- ===== src/Examples/Stores.antt =====
-- The theorems on the document stores (src/state_store.rs) at concrete inputs.
use stateset_icp_handler.Prelude.{
  ◌≤◌, String, ◌≡◌, refl, subst, false, inl, inr, eq_iff, Option, none, some, List, [], ◌∷◌, length,
  filter_by, arith, if◌then◌else◌,
}
use stateset_icp_handler.Prelude.Int.{pos}
use stateset_icp_handler.Prelude.Keyed.{Keyed, get as entry, ◌==◌, string_eq}
use stateset_icp_handler.Prelude.Sequences.{All, IsSorted, filter_map}
use stateset_icp_handler.Storage.{smooth}
use stateset_icp_handler.Models.Transactions.{Transaction, TransactionState}
use stateset_icp_handler.Models.Subscriptions.{Subscription, SubscriptionStatus}
use stateset_icp_handler.StateStore.{JsonStore, sqlite, write_columns, update}
use stateset_icp_handler.StateStore.Refines.{
  Request, insert_request, get_request, update_request, serve_all, answers, view,
  store_serves_as_map,
}
use stateset_icp_handler.StateStore.Atomic.{IsAllOrNothing, update_all_or_nothing}
use stateset_icp_handler.StateStore.Synced.{
  IsSynced, IsWritten, write_columns-IsWritten, after_all, after_all-IsSynced,
}
use stateset_icp_handler.StateStore.Listing.{newer, list_for_tenant}
use stateset_icp_handler.StateStore.Listing.Tenants.{IsOwn, list_for_tenant-IsOwn}
use stateset_icp_handler.StateStore.Listing.Due.{documents}
use stateset_icp_handler.StateStore.Transactions as Transactions
use stateset_icp_handler.StateStore.Subscriptions as Subscriptions
use stateset_icp_handler.Examples.Documents.{
  texts, quote_of, plan_of, read_only, row_of, ordered_calendar, ordered_calendar-IsOrdered,
}

abbrev initial : String → Keyed String String
initial s = ("text", s) ∷ []

abbrev requests : List (Request String)
requests =
    insert_request "a" "one"
    ∷ update_request "a" (λ s. "two")
    ∷ update_request "b" (λ s. "three")
    ∷ get_request "a"
    ∷ []

store_serves_as_map_example :
    serve_all texts initial (sqlite (("b", row_of "old" []) ∷ [])) requests
    ≡ answers (view texts (sqlite (("b", row_of "old" []) ∷ []))) requests
store_serves_as_map_example =
    store_serves_as_map texts initial (λ v. (v, refl)) (sqlite (("b", row_of "old" []) ∷ []))
      requests

-- The commit fails.
update_all_or_nothing_example :
    IsAllOrNothing texts
      (sqlite (("b", row_of "old" []) ∷ []))
      "b"
      (λ s. "new")
      (update texts
        (record smooth { commit = false })
        (sqlite (("b", row_of "old" []) ∷ []))
        "b"
        (λ s. "new")
        initial)
update_all_or_nothing_example =
    update_all_or_nothing texts initial (record smooth { commit = false })
      (sqlite (("b", row_of "old" []) ∷ [])) "b" (λ s. "new")

after_all-IsSynced_example : IsSynced texts initial (
    after_all texts initial (sqlite []) (
      (smooth, insert_request "a" "one")
      ∷ (record smooth { write = false }, update_request "a" (λ s. "two"))
      ∷ []))
unfolding entry
after_all-IsSynced_example =
    after_all-IsSynced texts initial (λ v. (refl, tt)) (sqlite [])
      ((smooth, insert_request "a" "one")
        ∷ (record smooth { write = false }, update_request "a" (λ s. "two"))
        ∷ [])
      tt

abbrev quote : Transaction
quote = quote_of "t1" TransactionState.quoted "acme" (pos 5)

abbrev read_quote : String → Option Transaction
read_quote text = if text == "q" then some quote else none

abbrev quotes : JsonStore Transaction
quotes = sqlite (("t1", row_of "q" (Transactions.index_columns ordered_calendar quote)) ∷ [])

quotes-IsSynced :
    IsSynced (read_only read_quote) (Transactions.index_columns ordered_calendar) quotes
quotes-IsSynced = (
  λ v e.
      subst
        (λ (t : Transaction).
          IsWritten (Transactions.index_columns ordered_calendar t)
            (write_columns (Transactions.index_columns ordered_calendar quote) []))
        (cc e)
        (write_columns-IsWritten (Transactions.index_columns ordered_calendar quote) []
          ((Transactions.index_columns-IsIndexed ordered_calendar).distinct quote)),
  tt,
)

due_for_expiry_exact_example :
    Transactions.list_due_for_expiry
      (read_only read_quote)
      ordered_calendar
      smooth
      smooth
      smooth
      quotes
      (pos 9)
    ≡ filter_by (Transactions.is_due (pos 9)) (documents (read_only read_quote) quotes)
unfolding filter_map
due_for_expiry_exact_example =
    Transactions.due_for_expiry_exact ordered_calendar ordered_calendar-IsOrdered (pos 9)
      (omega arith, omega arith) (read_only read_quote) quotes quotes-IsSynced
      ((omega arith, omega arith), tt) (omega arith)

-- A row from before the index columns beside one with them.
abbrev mixed : JsonStore Transaction
mixed = sqlite (
    ("t0", row_of "old" [])
    ∷ ("t1", row_of "q" (Transactions.index_columns ordered_calendar quote))
    ∷ [])

list_for_tenant-IsOwn_example :
    let listed =
      list_for_tenant Transactions.document
        (read_only read_quote)
        ordered_calendar
        smooth
        smooth
        smooth
        mixed
        "acme"
        10
        (some TransactionState.quoted) in
    All (IsOwn Transactions.document "acme" (some TransactionState.quoted)) listed
    × IsSorted (newer Transactions.document) listed
    × (length listed ≤ 10)
unfolding entry write_columns
list_for_tenant-IsOwn_example =
    list_for_tenant-IsOwn (read_only read_quote) Transactions.document ordered_calendar
      (Transactions.index_columns-IsIndexed ordered_calendar) smooth smooth smooth mixed "acme" 10
      (some TransactionState.quoted) (λ e. ground (arith, (eq_iff "acme" "").1 e))
      (inr refl, (inl quotes-IsSynced.0, tt))

abbrev plan : Subscription
plan = plan_of "s1" SubscriptionStatus.active (pos 5)

abbrev read_plan : String → Option Subscription
read_plan text = if text == "p" then some plan else none

abbrev plans : JsonStore Subscription
plans = sqlite (("s1", row_of "p" (Subscriptions.index_columns ordered_calendar plan)) ∷ [])

plans-IsSynced : IsSynced (read_only read_plan) (Subscriptions.index_columns ordered_calendar) plans
plans-IsSynced = (
  λ v e.
      subst
        (λ (t : Subscription).
          IsWritten (Subscriptions.index_columns ordered_calendar t)
            (write_columns (Subscriptions.index_columns ordered_calendar plan) []))
        (cc e)
        (write_columns-IsWritten (Subscriptions.index_columns ordered_calendar plan) []
          ((Subscriptions.index_columns-IsIndexed ordered_calendar).distinct plan)),
  tt,
)

due_for_renewal_exact_example :
    Subscriptions.list_due_for_renewal
      (read_only read_plan)
      ordered_calendar
      smooth
      smooth
      smooth
      plans
      (pos 9)
    ≡ filter_by (Subscriptions.is_due (pos 9)) (documents (read_only read_plan) plans)
unfolding filter_map
due_for_renewal_exact_example =
    Subscriptions.due_for_renewal_exact ordered_calendar ordered_calendar-IsOrdered (pos 9)
      (omega arith, omega arith) (read_only read_plan) plans plans-IsSynced
      ((omega arith, omega arith), tt) (omega arith)
