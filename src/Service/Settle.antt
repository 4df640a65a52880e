-- ===== src/Service/Settle.antt =====
-- `settle_reservation`, `settlement_evidence` and `audit_verification` of service.py.
use energy_flex_trust_platfo.Prelude.{
  String, Bool, true, false, not, ◌&&◌, ◌||◌, Option, none, some, List, [], ◌∷◌, map, select_where,
  order_by, ltb, eqb, ◌==◌, if◌then◌else◌,
}
use energy_flex_trust_platfo.Domain.{
  Actor, auditor, market_operator, settlement_analyst, require_role, ReservationStatus,
  DispatchStatus, is_dispatched, is_issued, Error,
}
use energy_flex_trust_platfo.Datetime.{at_or_before}
use energy_flex_trust_platfo.Decimal.{Decimal, delivered_energy, settlement_amount}
use energy_flex_trust_platfo.Json.{Json, obj, end, text, decimal, texts, Payload}
use energy_flex_trust_platfo.Platform.{Platform}
use energy_flex_trust_platfo.Models.Table.{get, update}
use energy_flex_trust_platfo.Models.{
  AuditEvent, Reservation, Dispatch, FlexOffer, MeterReading, Settlement, Database, settlement_row,
  dispatch_row, reservation_row,
}
use energy_flex_trust_platfo.Session.{
  Action, pure, lift, query, or_raise, begin, unless_found, ◌>>=◌, ◌>>◌, raise_if, write, new_id,
  utc_now, add_settlement,
}
use energy_flex_trust_platfo.Audit.Defs.{
  AuditVerification, json_fields, sha256_json, append_event, verify_chain,
}
use energy_flex_trust_platfo.Outbox.Worker.{leb_text, set_dispatch, set_reservation}
use energy_flex_trust_platfo.Service.Common.{
  find_offer, find_reservation, idempotent_resource, store_idempotency,
}

-- `select(Dispatch).where(Dispatch.reservation_id == reservation.id)`
unfoldable pub dispatch_of : String → List Dispatch → Option Dispatch
dispatch_of reservation_id [] = none
dispatch_of reservation_id (d ∷ ds) =
    if d.reservation_id == reservation_id then some d else dispatch_of reservation_id ds

-- The `where` of the readings that count.
unfoldable pub counts_for : FlexOffer → Dispatch → MeterReading → Bool
counts_for offer dispatch m =
    m.asset_id == offer.asset_id
    && at_or_before dispatch.starts_at m.interval_start
    && at_or_before m.interval_end dispatch.ends_at

-- Their `order_by`.
abbrev reading_order : MeterReading → MeterReading → Bool
reading_order a b =
    ltb a.interval_start.instant b.interval_start.instant
    || (eqb a.interval_start.instant b.interval_start.instant && leb_text a.id b.id)

unfoldable pub settled_readings : FlexOffer → Dispatch → Database → List MeterReading
unfolding counts_for
settled_readings offer dispatch db =
    order_by reading_order (select_where (counts_for offer dispatch) db.meter_readings)

abbrev pub is_empty {ℓ} : {A : Type ℓ} → List A → Bool
is_empty [] = true
is_empty (x ∷ xs) = false

abbrev pub energy_of : MeterReading → Decimal
energy_of m = m.energy_kwh

abbrev pub set_settlement : String → (Settlement → Settlement) → Action (Unit {0})
set_settlement id f = write (λ db. record db { settlements = update id f db.settlements })

-- What `settlement_evidence` returns.
pub record Evidence : Type 0 where
  pub manifest : Json
  pub evidence_hash : String
  pub hash_valid : Bool

module _ ⦃p : Platform⦄ where
  unfoldable pub settle_hash : String → Actor → String
  settle_hash reservation_id actor =
      sha256_json (("reservation_id", text reservation_id) ∷ ("actor_id", text actor.actor_id) ∷ [])

  unfoldable pub evidence_manifest :
      (settlement_id : String)
      → Reservation
      → FlexOffer
      → Dispatch
      → (reading_ids : List String) (delivered amount : Decimal) → AuditEvent
      → Payload
  evidence_manifest settlement_id reservation offer dispatch reading_ids delivered amount event =
      ("schema_version", text "1.0")
      ∷ ("settlement_id", text settlement_id)
      ∷ ("reservation_id", text reservation.id)
      ∷ ("offer_id", text offer.id)
      ∷ ("asset_id", text offer.asset_id)
      ∷ ("dispatch_id", text dispatch.id)
      ∷ ("meter_reading_ids", texts reading_ids)
      ∷ ("delivered_kwh", text (p.format_f delivered))
      ∷ ("price_per_kwh", text (p.format_f offer.price_per_kwh))
      ∷ ("amount", text (p.format_f amount))
      ∷ ("audit_event_id", text event.event_id)
      ∷ ("audit_head_hash", text event.event_hash)
      ∷ []

  -- The settlement row, its audit event, its evidence and the two final states.
  unfoldable pub complete :
      Reservation
      → FlexOffer
      → Dispatch
      → (reading_ids : List String) (delivered amount : Decimal) → Actor
      → (key request_hash : String) → Action Settlement
  complete reservation offer dispatch reading_ids delivered amount actor idempotency_key
        request_hash =
      do
        id ← new_id
        created_at ← utc_now
        let settlement : Settlement = record {
          id = id;
          reservation_id = reservation.id;
          delivered_kwh = delivered;
          price_per_kwh = offer.price_per_kwh;
          amount = amount;
          evidence_manifest = obj end;
          evidence_hash = "";
          settled_by = actor.actor_id;
          created_at = created_at;
        }
        add_settlement settlement
        event ←
            append_event "settlement" id "settlement.calculated" actor.actor_id idempotency_key (
              ("reservation_id", text reservation.id)
              ∷ ("dispatch_id", text dispatch.id)
              ∷ ("meter_reading_ids", texts reading_ids)
              ∷ ("delivered_kwh", decimal delivered)
              ∷ ("price_per_kwh", decimal offer.price_per_kwh)
              ∷ ("amount", decimal amount)
              ∷ [])
        let manifest =
            evidence_manifest id reservation offer dispatch reading_ids delivered amount event
        let proved = λ (x : Settlement). record x {
          evidence_manifest = obj (json_fields manifest);
          evidence_hash = sha256_json manifest;
        }
        set_settlement id proved
        set_reservation reservation.id (λ x. record x { status = ReservationStatus.completed })
        set_dispatch dispatch.id (λ x. record x { status = DispatchStatus.completed })
        store_idempotency "settle_reservation" idempotency_key request_hash "settlement" id
        pure (proved settlement)

  -- The transaction of `settle_reservation`, for a request that is not a replay.
  unfoldable pub settle : String → Actor → (key request_hash : String) → Action Settlement
  settle reservation_id actor idempotency_key request_hash = do
    reservation ← find_reservation reservation_id
    raise_if (not (is_dispatched reservation.status)) Error.invalid_transition
    found ← query (λ db. dispatch_of reservation.id db.dispatches)
    dispatch ← or_raise found Error.not_found
    raise_if (not (is_issued dispatch.status)) Error.invalid_transition
    raise_if (dispatch.issued_by == actor.actor_id || reservation.requested_by == actor.actor_id)
        Error.forbidden
    offer ← find_offer reservation.offer_id
    readings ← query (settled_readings offer dispatch)
    raise_if (is_empty readings) Error.conflict
    delivered ← or_raise (delivered_energy (map energy_of readings)) Error.invalid_operation
    amount ← or_raise (settlement_amount delivered offer.price_per_kwh) Error.invalid_operation
    complete reservation offer dispatch (map (λ r. r.id) readings) delivered amount actor
        idempotency_key request_hash

  unfoldable pub settle_reservation :
      String → Actor → (idempotency_key : String) → Action Settlement
  settle_reservation reservation_id actor idempotency_key = do
    lift (require_role actor (settlement_analyst ∷ []))
    let request_hash = settle_hash reservation_id actor
    begin do
      existing ←
          idempotent_resource "settle_reservation" idempotency_key request_hash
            (λ db. db.settlements)
      unless_found existing (settle reservation_id actor idempotency_key request_hash)

  unfoldable pub settlement_evidence : String → Actor → Action Evidence
  settlement_evidence settlement_id actor = do
    lift (require_role actor (auditor ∷ market_operator ∷ settlement_analyst ∷ []))
    found ← query (λ db. get settlement_id db.settlements)
    settlement ← or_raise found Error.not_found
    pure (record {
      manifest = settlement.evidence_manifest;
      evidence_hash = settlement.evidence_hash;
      hash_valid = p.sha256 (p.dumps settlement.evidence_manifest) == settlement.evidence_hash;
    })

  unfoldable pub audit_verification : Actor → Action AuditVerification
  audit_verification actor = do lift (require_role actor (auditor ∷ [])); query verify_chain
