-- ===== src/Schemas/Read.antt =====
-- src/energy_flex_trust/schemas.py: the response models. `model_validate` reads the attributes of a
-- row, and a model that extends a command checks what the command checks.
use energy_flex_trust_platfo.Prelude.{ℕ, String, Bool, Option}
use energy_flex_trust_platfo.Domain.{
  AssetStatus, OfferStatus, ReservationStatus, DispatchStatus, Result, ok, err,
}
use energy_flex_trust_platfo.Datetime.{Datetime}
use energy_flex_trust_platfo.Decimal.{Decimal}
use energy_flex_trust_platfo.Json.{Json}
use energy_flex_trust_platfo.Models.{
  Asset, FlexOffer, Reservation, Dispatch, MeterReading, Settlement,
}
use energy_flex_trust_platfo.Audit.Defs.{AuditVerification}
use energy_flex_trust_platfo.Outbox.Queue.{OutboxSnapshot}
use energy_flex_trust_platfo.Service.Settle.{Evidence}
use energy_flex_trust_platfo.Schemas.{
  AssetCreate, OfferCreate, DispatchCreate, MeterReadingCreate, validate_asset, validate_offer,
  validate_dispatch, validate_meter_reading,
}

-- A model that extends `Command`.
abbrev pub with_command : {C A : Type 0} → Result C → A → Result A
with_command (ok command) a = ok a
with_command (err e) a = err e

pub record AssetRead : Type 0 where
  pub command : AssetCreate
  pub id : String
  pub status : AssetStatus
  pub created_at : Datetime

unfoldable pub asset_read : Asset → Result AssetRead
asset_read row =
    let command : AssetCreate = record {
      external_id = row.external_id;
      owner_id = row.owner_id;
      asset_type = row.asset_type;
      capacity_kw = row.capacity_kw;
      location_code = row.location_code;
    } in
    with_command (validate_asset command)
      (record { command = command; id = row.id; status = row.status; created_at = row.created_at })

pub record OfferRead : Type 0 where
  pub command : OfferCreate
  pub id : String
  pub status : OfferStatus
  pub created_by : String
  pub created_at : Datetime

unfoldable pub offer_read : FlexOffer → Result OfferRead
offer_read row =
    let command : OfferCreate = record {
      asset_id = row.asset_id;
      window_start = row.window_start;
      window_end = row.window_end;
      direction = row.direction;
      quantity_kw = row.quantity_kw;
      price_per_kwh = row.price_per_kwh;
    } in
    with_command (validate_offer command) (record {
      command = command;
      id = row.id;
      status = row.status;
      created_by = row.created_by;
      created_at = row.created_at;
    })

pub record ReservationRead : Type 0 where
  pub id : String
  pub offer_id : String
  pub quantity_kw : Decimal
  pub status : ReservationStatus
  pub requested_by : String
  pub created_at : Datetime

unfoldable pub reservation_read : Reservation → Result ReservationRead
reservation_read row = ok (record {
  id = row.id;
  offer_id = row.offer_id;
  quantity_kw = row.quantity_kw;
  status = row.status;
  requested_by = row.requested_by;
  created_at = row.created_at;
})

pub record DispatchRead : Type 0 where
  pub command : DispatchCreate
  pub id : String
  pub reservation_id : String
  pub status : DispatchStatus
  pub issued_by : String
  pub adapter_reference : Option String
  pub created_at : Datetime

unfoldable pub dispatch_read : Dispatch → Result DispatchRead
dispatch_read row =
    let command : DispatchCreate = record {
      target_kw = row.target_kw;
      starts_at = row.starts_at;
      ends_at = row.ends_at;
    } in
    with_command (validate_dispatch command) (record {
      command = command;
      id = row.id;
      reservation_id = row.reservation_id;
      status = row.status;
      issued_by = row.issued_by;
      adapter_reference = row.adapter_reference;
      created_at = row.created_at;
    })

pub record MeterReadingRead : Type 0 where
  pub command : MeterReadingCreate
  pub id : String
  pub fingerprint : String
  pub recorded_by : String
  pub received_at : Datetime

unfoldable pub meter_reading_read : MeterReading → Result MeterReadingRead
meter_reading_read row =
    let command : MeterReadingCreate = record {
      asset_id = row.asset_id;
      interval_start = row.interval_start;
      interval_end = row.interval_end;
      energy_kwh = row.energy_kwh;
      source = row.source;
    } in
    with_command (validate_meter_reading command) (record {
      command = command;
      id = row.id;
      fingerprint = row.fingerprint;
      recorded_by = row.recorded_by;
      received_at = row.received_at;
    })

pub record SettlementRead : Type 0 where
  pub id : String
  pub reservation_id : String
  pub delivered_kwh : Decimal
  pub price_per_kwh : Decimal
  pub amount : Decimal
  pub evidence_hash : String
  pub settled_by : String
  pub created_at : Datetime

unfoldable pub settlement_read : Settlement → Result SettlementRead
settlement_read row = ok (record {
  id = row.id;
  reservation_id = row.reservation_id;
  delivered_kwh = row.delivered_kwh;
  price_per_kwh = row.price_per_kwh;
  amount = row.amount;
  evidence_hash = row.evidence_hash;
  settled_by = row.settled_by;
  created_at = row.created_at;
})

pub record EvidenceRead : Type 0 where
  pub manifest : Json
  pub evidence_hash : String
  pub hash_valid : Bool

unfoldable pub evidence_read : Evidence → Result EvidenceRead
evidence_read e =
    ok
      (record { manifest = e.manifest; evidence_hash = e.evidence_hash; hash_valid = e.hash_valid })

pub record AuditVerificationRead : Type 0 where
  pub valid : Bool
  pub event_count : ℕ
  pub head_hash : String
  pub broken_sequence : Option ℕ

unfoldable pub audit_verification_read : AuditVerification → Result AuditVerificationRead
audit_verification_read v = ok (record {
  valid = v.valid;
  event_count = v.event_count;
  head_hash = v.head_hash;
  broken_sequence = v.broken_sequence;
})

pub record OutboxHealthRead : Type 0 where
  pub pending : ℕ
  pub processing : ℕ
  pub published : ℕ
  pub dead : ℕ
  pub due : ℕ
  pub oldest_pending_age : Option ℕ

unfoldable pub outbox_health_read : OutboxSnapshot → Result OutboxHealthRead
outbox_health_read s = ok (record {
  pending = s.pending_count;
  processing = s.processing_count;
  published = s.published_count;
  dead = s.dead_count;
  due = s.due;
  oldest_pending_age = s.oldest_pending_age;
})

pub record HealthRead : Type 0 where
  pub status : String
  pub version : String
  pub environment : String

-- The body of an error response; the texts of the messages are left out.
pub record ErrorRead : Type 0 where
  pub code : String
