-- ===== src/Webhook/Outbox/Due.antt =====
-- The batch of due deliveries, in the outbox of src/webhook/outbox.rs.
use mathlib.Core.List.{Perm}
use mathlib.Core.List.Perm
use stateset_icp_handler.Prelude.{
  ℕ, zero, suc, min, String, ◌≡◌, refl, ap, sym, subst, ◌++◌, ◌∙◌, Bool, true, false, inl, inr,
  Bool-cases, List, [], ◌∷◌, arith, filter_by, take, length,
}
use stateset_icp_handler.Prelude.Int.{ℤ, ◌≤ℤ◌, leb_ℤ, leb_ℤ_true, leb_ℤ_false}
use stateset_icp_handler.Prelude.Keyed.{Keyed}
use stateset_icp_handler.Chrono.{Chrono}
use stateset_icp_handler.Storage.{smooth}
use stateset_icp_handler.Webhook.{WebhookDelivery}
use stateset_icp_handler.Webhook.Outbox.{memory, values, insert_by, sort_by, is_due, list_due}

-- A batch that is in order, the earliest first, and all of it due.
abbrev pub IsBatch : ℤ → List WebhookDelivery → Type 0
IsBatch now [] = Unit
IsBatch now (d ∷ []) = is_due now d ≡ true
IsBatch now (d ∷ e ∷ ds) =
    (is_due now d ≡ true) × (d.next_attempt_at ≤ℤ e.next_attempt_at) × IsBatch now (e ∷ ds)

abbrev earlier : WebhookDelivery → WebhookDelivery → Bool
earlier d e = leb_ℤ d.next_attempt_at e.next_attempt_at

le_of_later : (d e : WebhookDelivery) → earlier d e ≡ false → e.next_attempt_at ≤ℤ d.next_attempt_at
le_of_later d e later =
    let lt = leb_ℤ_false d.next_attempt_at e.next_attempt_at later in omega arith

insert_by-IsBatch :
    (now : ℤ) (d : WebhookDelivery) (ds : List WebhookDelivery)
    → is_due now d ≡ true
    → IsBatch now ds
    → IsBatch now (insert_by earlier d ds)
unfolding insert_by
insert_by-IsBatch now d [] due batch = due
insert_by-IsBatch now d (e ∷ []) due batch = elim (Bool-cases (earlier d e)) [
  | inl le ↦ rw le (due, leb_ℤ_true d.next_attempt_at e.next_attempt_at le, batch)
  | inr gt ↦ rw gt (batch, le_of_later d e gt, due)
]
insert_by-IsBatch now d (e ∷ f ∷ ds) due (first, le1, rest) =
    let next = insert_by-IsBatch now d (f ∷ ds) due rest in
    elim (Bool-cases (earlier d e)) [
      | inl le ↦ rw le (due, leb_ℤ_true d.next_attempt_at e.next_attempt_at le, (first, le1, rest))
      | inr gt ↦ elim (Bool-cases (earlier d f)) [
        | inl le ↦ rw gt (
            rw le (
              first,
              le_of_later d e gt,
              (due, leb_ℤ_true d.next_attempt_at f.next_attempt_at le, rest),
            ))
        | inr gt' ↦ rw gt (rw gt' (first, le1, (rw gt' at next)))
      ]
    ]

length-take : (n : ℕ) (ds : List WebhookDelivery) → length (take n ds) ≡ min n (length ds)
length-take zero ds = omega arith
length-take (suc n) [] = omega arith
length-take (suc n) (d ∷ ds) = let count = length-take n ds in omega arith

length-insert_by :
    (d : WebhookDelivery) (ds : List WebhookDelivery)
    → length (insert_by earlier d ds) ≡ suc (length ds)
unfolding insert_by
length-insert_by d [] = refl
length-insert_by d (e ∷ ds) = elim (Bool-cases (earlier d e)) [
  | inl le ↦ rw le refl
  | inr gt ↦ rw gt (ap suc (length-insert_by d ds))
]

length-sort_by : (ds : List WebhookDelivery) → length (sort_by earlier ds) ≡ length ds
unfolding sort_by
length-sort_by [] = refl
length-sort_by (d ∷ ds) = length-insert_by d (sort_by earlier ds) ∙ ap suc (length-sort_by ds)

kept_or_not :
    (now : ℤ) (d : WebhookDelivery) (rest : List WebhookDelivery) (kept : Bool)
    → is_due now d ≡ kept
    → IsBatch now (sort_by earlier rest)
    → IsBatch now (sort_by earlier (elim kept [ true ↦ d ∷ rest | false ↦ rest ]))
unfolding sort_by
kept_or_not now d rest true due batch = insert_by-IsBatch now d (sort_by earlier rest) due batch
kept_or_not now d rest false not_due batch = batch

sort_by-IsBatch :
    (now : ℤ) (ds : List WebhookDelivery)
    → IsBatch now (sort_by earlier (filter_by (is_due now) ds))
unfolding sort_by
sort_by-IsBatch now [] = tt
sort_by-IsBatch now (d ∷ ds) =
    kept_or_not now d (filter_by (is_due now) ds) (is_due now d) refl (sort_by-IsBatch now ds)

insert_by-Perm :
    (d : WebhookDelivery) (ds : List WebhookDelivery) → Perm (insert_by earlier d ds) (d ∷ ds)
unfolding insert_by
insert_by-Perm d [] = Perm.refl (d ∷ [])
insert_by-Perm d (e ∷ ds) = elim (Bool-cases (earlier d e)) [
  | inl le ↦ rw le (Perm.refl (d ∷ e ∷ ds))
  | inr gt ↦ rw gt (Perm.trans (Perm.cons e (insert_by-Perm d ds)) (Perm.swap d e ds))
]

sort_by-Perm : (ds : List WebhookDelivery) → Perm (sort_by earlier ds) ds
unfolding sort_by
sort_by-Perm [] = Perm.refl []
sort_by-Perm (d ∷ ds) =
    Perm.trans (insert_by-Perm d (sort_by earlier ds)) (Perm.cons d (sort_by-Perm ds))

abbrev drop : ℕ → List WebhookDelivery → List WebhookDelivery
drop zero ds = ds
drop (suc n) [] = []
drop (suc n) (d ∷ ds) = drop n ds

take-drop : (n : ℕ) (ds : List WebhookDelivery) → take n ds ++ drop n ds ≡ ds
take-drop zero ds = refl
take-drop (suc n) [] = refl
take-drop (suc n) (d ∷ ds) = ap (λ es. d ∷ es) (take-drop n ds)

-- What the worker draws from the outbox in memory are the earliest of the deliveries that are due, as
-- many as the limit lets: with the others that are due behind it, it is a reordering of all that are due
-- in which each is due and none is earlier than the one before. The lock is not poisoned.
pub list_due-IsBatch :
    (chrono : Chrono) (utc_now : ℤ) (m : Keyed String WebhookDelivery) (now : ℤ) (limit : ℕ)
    → let listed = list_due chrono utc_now smooth (memory m) now limit in
      let due = filter_by (is_due now) (values m) in
      (others : List WebhookDelivery) × Perm (listed ++ others) due
      × IsBatch now (listed ++ others)
      × (length listed ≡ min limit (length due))
unfolding list_due
list_due-IsBatch chrono utc_now m now limit =
    let due = filter_by (is_due now) (values m) in
    let sorted = sort_by earlier due in
    let whole = take-drop limit sorted in
    (
      drop limit sorted,
      subst (λ ds. Perm ds due) (sym whole) (sort_by-Perm due),
      subst (IsBatch now) (sym whole) (sort_by-IsBatch now (values m)),
      length-take limit sorted ∙ ap (min limit) (length-sort_by due),
    )
