-- ===== src/Webhook/Outbox/Retention.antt =====
-- What the retention sweep leaves, in the outbox of src/webhook/outbox.rs.
use stateset_icp_handler.Prelude.{
  String, ◌≡◌, refl, ap, ◌∙◌, sym, subst, Bool, true, false, not, ◌&&◌, inl, inr, Option, none,
  some, Option-cases, arith,
}
use stateset_icp_handler.Prelude.Int.{ℤ}
use stateset_icp_handler.Prelude.Keyed.{
  Keyed, get, retain, kept, IsUnique, get-retain, retain-IsUnique, ◌==◌, string_eq,
}
use stateset_icp_handler.Chrono.{Chrono}
use stateset_icp_handler.Storage.{Attempt, smooth}
use stateset_icp_handler.Webhook.{WebhookDelivery, DeliveryRow, parse_status, from_row}
use stateset_icp_handler.Webhook.Changes.{is_delivered, is_dead_lettered}
use stateset_icp_handler.Webhook.Names.{delivered_name, dead_lettered_name}
use stateset_icp_handler.Webhook.Outbox.{
  WebhookOutbox, memory, sqlite, get_delivery, retained, delete_before, prune,
}

abbrev pub HasUniqueIds : WebhookOutbox → Type 0
HasUniqueIds (memory m) = IsUnique m
HasUniqueIds (sqlite t) = IsUnique t

-- A status that is still in work is stored under neither name.
unfinished_names :
    (s : String)
    → is_delivered (parse_status s) ≡ false
    → is_dead_lettered (parse_status s) ≡ false
    → ((s == "delivered") ≡ false) × ((s == "dead_lettered") ≡ false)
unfinished_names s live live' = (sym (delivered_name s) ∙ live, sym (dead_lettered_name s) ∙ live')

module _ (chrono : Chrono) (utc_now : ℤ) where
  retained_unfinished :
      (c c' : Option ℤ) (d : WebhookDelivery)
      → is_delivered d.status ≡ false
      → is_dead_lettered d.status ≡ false
      → retained chrono utc_now c c' d ≡ true
  unfolding retained
  retained_unfinished c c' d live live' = rw live (rw live' refl)

  get-delete_before :
      (writes : Bool) (status : String) (cutoff : Option ℤ) (id : String) (r : DeliveryRow)
      (t : Keyed String DeliveryRow)
      → IsUnique t
      → get id t ≡ some r
      → (r.status == status) ≡ false
      → (get id (delete_before chrono utc_now writes status cutoff t).1 ≡ some r)
        × IsUnique (delete_before chrono utc_now writes status cutoff t).1
  unfolding delete_before
  get-delete_before writes status none id r t unique found other = (found, unique)
  get-delete_before false status (some c) id r t unique found other = (found, unique)
  get-delete_before true status (some c) id r t unique found other =
      let p : DeliveryRow → Bool =
        λ x. not (x.status == status && chrono.text_before x.created_at (chrono.to_rfc3339 c)) in
      (get-retain p id t unique ∙ (ap (kept p) found ∙ rw other refl), retain-IsUnique p t unique)

-- The retention sweep leaves every delivery that is pending, in flight or failed as it is, whatever the
-- cutoffs and whatever fails in the store. Both backends, each with one entry per id.
pub prune_keeps_unfinished :
    (chrono : Chrono) (utc_now : ℤ) (a a' : Attempt) (o : WebhookOutbox) (c c' : Option ℤ)
    (id : String) (d : WebhookDelivery)
    → HasUniqueIds o
    → get_delivery chrono utc_now smooth o id ≡ some d
    → is_delivered d.status ≡ false
    → is_dead_lettered d.status ≡ false
    → get_delivery chrono utc_now smooth (prune chrono utc_now a a' o c c').1 id ≡ some d
unfolding get_delivery prune from_row
prune_keeps_unfinished chrono utc_now a a' (memory m) c c' id d unique found live live' =
    let p = retained chrono utc_now c c' in
    let swept : get id (retain p m) ≡ some d =
      get-retain p id m unique
      ∙ (ap (kept p) found ∙ rw (retained_unfinished chrono utc_now c c' d live live') refl) in
    ground (arith, found, swept)
prune_keeps_unfinished chrono utc_now a a' (sqlite t) c c' id d unique found live live' =
    elim (Option-cases (get id t)) [
      | inl missing ↦ absurd (ground (arith, missing))
      | inr (r, row) ↦
          (let is_d : from_row chrono utc_now r ≡ d = ground (arith, row) in
            let d0 = subst (λ x. is_delivered x.status ≡ false) (sym is_d) live in
            let l0 = subst (λ x. is_dead_lettered x.status ≡ false) (sym is_d) live' in
            let (named_d, named_l) = unfinished_names r.status d0 l0 in
            let (first, unique') =
              get-delete_before chrono utc_now a.write "delivered" c id r t unique row named_d in
            let second =
              (get-delete_before chrono utc_now a'.write "dead_lettered" c' id r
                (delete_before chrono utc_now a.write "delivered" c t).1 unique' first named_l).0 in
            ground (arith, row, second))
    ]
