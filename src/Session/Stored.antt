-- ===== src/Session/Stored.antt =====
-- What holds after `session.add` of a row: no row had its key or broke a unique constraint.
use energy_flex_trust_platfo.Prelude.{
  ◌≡◌, false, [], ◌∷◌, ◌++◌, any, ◌||◌, ◌&&◌, ◌==◌, Bool-cases, inl, inr,
}
use energy_flex_trust_platfo.Models.{
  Settlement, Dispatch, OutboxMessage, IdempotencyRecord, Reservation,
}
use energy_flex_trust_platfo.Session.{
  World, Action, ◌>>=◌, ◌>>◌, add_settlement, add_dispatch, add_outbox_message,
  add_idempotency_record, add_reservation, too_wide,
}
use energy_flex_trust_platfo.Platform.{Platform}
use energy_flex_trust_platfo.Models.Width.{
  settlement_fits, dispatch_fits, outbox_message_fits, reservation_fits, idempotency_record_fits,
}
use energy_flex_trust_platfo.Session.Outcome.{OnOk}

module _ ⦃p : Platform⦄ {B : Type 0} (Q : B → World → Type 0) where
  pub OnOk-add_settlement :
      (row : Settlement) (k : Action B) (w : World)
      → (any (λ x. x.id == row.id || x.reservation_id == row.reservation_id) w.db.settlements
            ≡ false
          → OnOk Q
              (k (record w { db = record w.db { settlements = w.db.settlements ++ row ∷ [] } })))
      → OnOk Q ((add_settlement row >> k) w)
  unfolding add_settlement ◌>>=◌
  OnOk-add_settlement row k w h = elim (Bool-cases (too_wide (settlement_fits row))) [
    | inl wide ↦ rw wide tt
    | inr narrow ↦
        rw narrow
          (elim (Bool-cases (
            any (λ x. x.id == row.id || x.reservation_id == row.reservation_id) w.db.settlements)) [
              | inl clash ↦ rw clash tt
              | inr free ↦ rw free (h free)
            ])
  ]

  pub OnOk-add_dispatch :
      (row : Dispatch) (k : Action B) (w : World)
      → (any (λ x. x.id == row.id || x.reservation_id == row.reservation_id) w.db.dispatches ≡ false
          → OnOk Q (k (record w { db = record w.db { dispatches = w.db.dispatches ++ row ∷ [] } })))
      → OnOk Q ((add_dispatch row >> k) w)
  unfolding add_dispatch ◌>>=◌
  OnOk-add_dispatch row k w h = elim (Bool-cases (too_wide (dispatch_fits row))) [
    | inl wide ↦ rw wide tt
    | inr narrow ↦
        rw narrow
          (elim (Bool-cases
            (any (λ x. x.id == row.id || x.reservation_id == row.reservation_id) w.db.dispatches)) [
              | inl clash ↦ rw clash tt
              | inr free ↦ rw free (h free)
            ])
  ]

  pub OnOk-add_outbox_message :
      (row : OutboxMessage) (k : Action B) (w : World)
      → (any
              (λ x.
                x.id == row.id
                || (x.topic == row.topic && x.idempotency_key == row.idempotency_key))
              w.db.outbox_messages
            ≡ false
          → OnOk Q (
              k (record w {
                db = record w.db { outbox_messages = w.db.outbox_messages ++ row ∷ [] };
              })))
      → OnOk Q ((add_outbox_message row >> k) w)
  unfolding add_outbox_message ◌>>=◌
  OnOk-add_outbox_message row k w h = elim (Bool-cases (too_wide (outbox_message_fits row))) [
    | inl wide ↦ rw wide tt
    | inr narrow ↦
        rw narrow
          (elim (Bool-cases (
            any
              (λ x.
                x.id == row.id
                || (x.topic == row.topic && x.idempotency_key == row.idempotency_key))
              w.db.outbox_messages)) [ inl clash ↦ rw clash tt | inr free ↦ rw free (h free) ])
  ]

pub OnOk-add_idempotency_record :
    ⦃p : Platform⦄ (Q : Unit {0} → World → Type 0) (row : IdempotencyRecord) (w : World)
    → (any
            (λ x. x.id == row.id || (x.operation == row.operation && x.key == row.key))
            w.db.idempotency_records
          ≡ false
        → Q tt (record w {
          db = record w.db { idempotency_records = w.db.idempotency_records ++ row ∷ [] };
        }))
    → OnOk Q (add_idempotency_record row w)
unfolding add_idempotency_record ◌>>=◌
OnOk-add_idempotency_record Q row w h = elim (Bool-cases (too_wide (idempotency_record_fits row))) [
  | inl wide ↦ rw wide tt
  | inr narrow ↦
      rw narrow
        (elim (Bool-cases (
          any (λ x. x.id == row.id || (x.operation == row.operation && x.key == row.key))
            w.db.idempotency_records)) [ inl clash ↦ rw clash tt | inr free ↦ rw free (h free) ])
]

module _ ⦃p : Platform⦄ {B : Type 0} (Q : B → World → Type 0) where
  pub OnOk-add_reservation :
      (row : Reservation) (k : Action B) (w : World)
      → (any (λ x. x.id == row.id || x.offer_id == row.offer_id) w.db.reservations ≡ false
          → OnOk Q
              (k (record w { db = record w.db { reservations = w.db.reservations ++ row ∷ [] } })))
      → OnOk Q ((add_reservation row >> k) w)
  unfolding add_reservation ◌>>=◌
  OnOk-add_reservation row k w h = elim (Bool-cases (too_wide (reservation_fits row))) [
    | inl wide ↦ rw wide tt
    | inr narrow ↦
        rw narrow
          (elim (Bool-cases
            (any (λ x. x.id == row.id || x.offer_id == row.offer_id) w.db.reservations)) [
              | inl clash ↦ rw clash tt
              | inr free ↦ rw free (h free)
            ])
  ]
