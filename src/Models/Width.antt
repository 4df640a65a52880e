-- ===== src/Models/Width.antt =====
-- The widths of the columns of src/energy_flex_trust/models.py. Columns that hold a value of an
-- enumeration or of the program's own constants are wide enough for each of them.
use Prim.Native.String.{count}
use energy_flex_trust_platfo.Prelude.{
  ℕ, ◌+◌, ◌^◌, String, Bool, true, ◌&&◌, Option, none, some, List, [], ◌∷◌, leb, ltb,
}
use energy_flex_trust_platfo.Decimal.{Decimal}
use energy_flex_trust_platfo.Models.{
  Asset, FlexOffer, Reservation, Dispatch, MeterReading, Settlement, AuditEvent, IdempotencyRecord,
  OutboxMessage,
}

-- A text of a column `String(width)`
unfoldable pub fits : ℕ → String → Bool
fits width text = leb (count text) width

unfoldable pub fits_option : ℕ → Option String → Bool
unfolding fits
fits_option width none = true
fits_option width (some text) = fits width text

-- A number of a column `Numeric(18, 6)`, of six places at most.
unfoldable pub fits_numeric : Decimal → Bool
fits_numeric d = ltb d.coefficient (10 ^ (12 + d.scale))

-- Each text fits into its column.
unfoldable pub fit_all : List (ℕ × String) → Bool
unfolding fits
fit_all [] = true
fit_all ((width, text) ∷ rest) = fits width text && fit_all rest

unfoldable pub asset_fits : Asset → Bool
unfolding fit_all fits_numeric
asset_fits row =
    fit_all
      ((36, row.id) ∷ (100, row.external_id) ∷ (100, row.owner_id) ∷ (80, row.location_code) ∷ [])
    && fits_numeric row.capacity_kw

unfoldable pub flex_offer_fits : FlexOffer → Bool
unfolding fit_all fits_numeric
flex_offer_fits row =
    fit_all ((36, row.id) ∷ (36, row.asset_id) ∷ (100, row.created_by) ∷ [])
    && fits_numeric row.quantity_kw
    && fits_numeric row.price_per_kwh

unfoldable pub reservation_fits : Reservation → Bool
unfolding fit_all fits_numeric
reservation_fits row =
    fit_all ((36, row.id) ∷ (36, row.offer_id) ∷ (100, row.requested_by) ∷ [])
    && fits_numeric row.quantity_kw

unfoldable pub dispatch_fits : Dispatch → Bool
unfolding fit_all fits_numeric fits_option
dispatch_fits row =
    fit_all ((36, row.id) ∷ (36, row.reservation_id) ∷ (100, row.issued_by) ∷ [])
    && fits_option 200 row.adapter_reference
    && fits_numeric row.target_kw

unfoldable pub meter_reading_fits : MeterReading → Bool
unfolding fit_all fits_numeric
meter_reading_fits row =
    fit_all (
      (36, row.id)
      ∷ (36, row.asset_id)
      ∷ (100, row.source)
      ∷ (64, row.fingerprint)
      ∷ (100, row.recorded_by)
      ∷ [])
    && fits_numeric row.energy_kwh

unfoldable pub settlement_fits : Settlement → Bool
unfolding fit_all fits_numeric
settlement_fits row =
    fit_all (
      (36, row.id)
      ∷ (36, row.reservation_id)
      ∷ (64, row.evidence_hash)
      ∷ (100, row.settled_by)
      ∷ [])
    && fits_numeric row.delivered_kwh
    && fits_numeric row.price_per_kwh
    && fits_numeric row.amount

unfoldable pub audit_event_fits : AuditEvent → Bool
unfolding fit_all
audit_event_fits row = fit_all (
    (36, row.event_id)
    ∷ (60, row.aggregate_type)
    ∷ (36, row.aggregate_id)
    ∷ (100, row.event_type)
    ∷ (100, row.actor_id)
    ∷ (100, row.correlation_id)
    ∷ (64, row.previous_hash)
    ∷ (64, row.event_hash)
    ∷ [])

unfoldable pub idempotency_record_fits : IdempotencyRecord → Bool
unfolding fit_all
idempotency_record_fits row = fit_all (
    (36, row.id)
    ∷ (80, row.operation)
    ∷ (200, row.key)
    ∷ (64, row.request_hash)
    ∷ (60, row.resource_type)
    ∷ (36, row.resource_id)
    ∷ [])

unfoldable pub outbox_message_fits : OutboxMessage → Bool
unfolding fit_all fits_option
outbox_message_fits row =
    fit_all
      ((36, row.id) ∷ (100, row.topic) ∷ (36, row.aggregate_id) ∷ (200, row.idempotency_key) ∷ [])
    && fits_option 100 row.locked_by
    && fits_option 200 row.adapter_reference
