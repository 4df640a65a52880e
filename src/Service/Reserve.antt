-- ===== src/Service/Reserve.antt =====
-- `reserve_offer` of service.py.
use energy_flex_trust_platfo.Prelude.{String, not, [], ◌∷◌}
use energy_flex_trust_platfo.Domain.{
  Actor, market_operator, require_role, OfferStatus, ReservationStatus, is_open, Error,
}
use energy_flex_trust_platfo.Decimal.{exceeds}
use energy_flex_trust_platfo.Json.{text, decimal}
use energy_flex_trust_platfo.Platform.{Platform}
use energy_flex_trust_platfo.Models.Table.{update}
use energy_flex_trust_platfo.Models.{Reservation, flex_offer_row, reservation_row}
use energy_flex_trust_platfo.Session.{
  Action, pure, lift, begin, unless_found, ◌>>=◌, ◌>>◌, raise_if, write, new_id, utc_now,
  add_reservation,
}
use energy_flex_trust_platfo.Audit.Defs.{sha256_json, append_event}
use energy_flex_trust_platfo.Schemas.{ReservationCreate}
use energy_flex_trust_platfo.Service.Common.{find_offer, idempotent_resource, store_idempotency}

module _ ⦃p : Platform⦄ where
  unfoldable pub reserve_hash : String → ReservationCreate → Actor → String
  reserve_hash offer_id command actor = sha256_json (
      ("offer_id", text offer_id)
      ∷ ("quantity_kw", decimal command.quantity_kw)
      ∷ ("actor_id", text actor.actor_id)
      ∷ [])

  -- The transaction of `reserve_offer`, for a request that is not a replay.
  unfoldable pub reserve :
      String → ReservationCreate → Actor → (key request_hash : String) → Action Reservation
  reserve offer_id command actor idempotency_key request_hash = do
    offer ← find_offer offer_id
    raise_if (not (is_open offer.status)) Error.invalid_transition
    raise_if (exceeds command.quantity_kw offer.quantity_kw) Error.conflict
    write (λ db. record db {
      flex_offers =
          update offer.id (λ x. record x { status = OfferStatus.reserved }) db.flex_offers;
    })
    id ← new_id
    created_at ← utc_now
    let reservation : Reservation = record {
      id = id;
      offer_id = offer.id;
      quantity_kw = command.quantity_kw;
      status = ReservationStatus.reserved;
      requested_by = actor.actor_id;
      created_at = created_at;
    }
    add_reservation reservation
    append_event "reservation" id "offer.reserved" actor.actor_id idempotency_key
        (("offer_id", text offer.id) ∷ ("quantity_kw", decimal reservation.quantity_kw) ∷ [])
    store_idempotency "reserve_offer" idempotency_key request_hash "reservation" id
    pure reservation

  unfoldable pub reserve_offer :
      String → ReservationCreate → Actor → (idempotency_key : String) → Action Reservation
  reserve_offer offer_id command actor idempotency_key = do
    lift (require_role actor (market_operator ∷ []))
    let request_hash = reserve_hash offer_id command actor
    begin do
      existing ←
          idempotent_resource "reserve_offer" idempotency_key request_hash (λ db. db.reservations)
      unless_found existing (reserve offer_id command actor idempotency_key request_hash)
