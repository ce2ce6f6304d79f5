-- ===== src/Webhook/Names.antt =====
-- The names of the delivery states (src/webhook/types.rs) as the table's tests read them.
use stateset_icp_handler.Prelude.{
  String, ◌≡◌, inl, inr, refl, sym, subst, true, false, eq_iff, Bool-cases,
}
use stateset_icp_handler.Prelude.Keyed.{◌==◌, string_eq}
use stateset_icp_handler.Webhook.{parse_status}
use stateset_icp_handler.Webhook.Changes.{is_in_flight, is_delivered, is_dead_lettered}

-- A text is one of the three names or none of them, and then it does not read as their state.
record Reads (s : String) : Type 0 where
  in_flight_reads : is_in_flight (parse_status s) ≡ (s == "in_flight")
  delivered_reads : is_delivered (parse_status s) ≡ (s == "delivered")
  dead_lettered_reads : is_dead_lettered (parse_status s) ≡ (s == "dead_lettered")

other-Reads :
    (s : String)
    → (s == "pending") ≡ false
    → (s == "in_flight") ≡ false
    → (s == "delivered") ≡ false
    → (s == "failed") ≡ false
    → (s == "dead_lettered") ≡ false
    → Reads s
unfolding parse_status
other-Reads s p i d f l = record {
  in_flight_reads = rw p (rw i (rw d (rw f (rw l refl))));
  delivered_reads = rw p (rw i (rw d (rw f (rw l refl))));
  dead_lettered_reads = rw p (rw i (rw d (rw f (rw l refl))));
}

named : (s n : String) → (s == n) ≡ true → Reads n → Reads s
named s n e h = subst Reads (sym ((eq_iff s n).0 e)) h

reads : (s : String) → Reads s
unfolding parse_status
reads s = elim (Bool-cases (s == "pending")) [
  | inl e ↦
      named s "pending" e
        (record { in_flight_reads = refl; delivered_reads = refl; dead_lettered_reads = refl })
  | inr p ↦ elim (Bool-cases (s == "in_flight")) [
    | inl e ↦
        named s "in_flight" e
          (record { in_flight_reads = refl; delivered_reads = refl; dead_lettered_reads = refl })
    | inr i ↦ elim (Bool-cases (s == "delivered")) [
      | inl e ↦
          named s "delivered" e
            (record { in_flight_reads = refl; delivered_reads = refl; dead_lettered_reads = refl })
      | inr d ↦ elim (Bool-cases (s == "failed")) [
        | inl e ↦
            named s "failed" e (record {
              in_flight_reads = refl;
              delivered_reads = refl;
              dead_lettered_reads = refl;
            })
        | inr f ↦ elim (Bool-cases (s == "dead_lettered")) [
          | inl e ↦ named s "dead_lettered" e (record {
            in_flight_reads = refl;
            delivered_reads = refl;
            dead_lettered_reads = refl;
          })
          | inr l ↦ other-Reads s p i d f l
        ]
      ]
    ]
  ]
]

pub in_flight_name : (s : String) → is_in_flight (parse_status s) ≡ (s == "in_flight")
in_flight_name s = (reads s).in_flight_reads

pub delivered_name : (s : String) → is_delivered (parse_status s) ≡ (s == "delivered")
delivered_name s = (reads s).delivered_reads

pub dead_lettered_name : (s : String) → is_dead_lettered (parse_status s) ≡ (s == "dead_lettered")
dead_lettered_name s = (reads s).dead_lettered_reads
