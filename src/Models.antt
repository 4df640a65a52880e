-- ===== src/Models.antt =====
-- src/energy_flex_trust/models.py: a record for each table, and the database that holds them.
-- A status column holds the enumeration's value, so it is the enumeration here.
pub mod Table
pub mod Keyed
pub mod Width
use energy_flex_trust_platfo.Prelude.{ℕ, String, Option, List}
use energy_flex_trust_platfo.Domain.{
  AssetType, AssetStatus, FlexDirection, OfferStatus, ReservationStatus, DispatchStatus,
}
use energy_flex_trust_platfo.Datetime.{Datetime}
use energy_flex_trust_platfo.Decimal.{Decimal}
use energy_flex_trust_platfo.Json.{Json}
use Table.{Row}

pub record Asset : Type 0 where
  pub id : String
  pub external_id : String
  pub owner_id : String
  pub asset_type : AssetType
  pub capacity_kw : Decimal
  pub location_code : String
  pub status : AssetStatus
  pub created_at : Datetime

pub record FlexOffer : Type 0 where
  pub id : String
  pub asset_id : String
  pub window_start : Datetime
  pub window_end : Datetime
  pub direction : FlexDirection
  pub quantity_kw : Decimal
  pub price_per_kwh : Decimal
  pub status : OfferStatus
  pub created_by : String
  pub created_at : Datetime

pub record Reservation : Type 0 where
  pub id : String
  pub offer_id : String
  pub quantity_kw : Decimal
  pub status : ReservationStatus
  pub requested_by : String
  pub created_at : Datetime

pub record Dispatch : Type 0 where
  pub id : String
  pub reservation_id : String
  pub target_kw : Decimal
  pub starts_at : Datetime
  pub ends_at : Datetime
  pub status : DispatchStatus
  pub issued_by : String
  pub adapter_reference : Option String
  pub created_at : Datetime

pub record MeterReading : Type 0 where
  pub id : String
  pub asset_id : String
  pub interval_start : Datetime
  pub interval_end : Datetime
  pub energy_kwh : Decimal
  pub source : String
  pub fingerprint : String
  pub recorded_by : String
  pub received_at : Datetime

pub record Settlement : Type 0 where
  pub id : String
  pub reservation_id : String
  pub delivered_kwh : Decimal
  pub price_per_kwh : Decimal
  pub amount : Decimal
  pub evidence_manifest : Json
  pub evidence_hash : String
  pub settled_by : String
  pub created_at : Datetime

pub record AuditEvent : Type 0 where
  pub sequence : ℕ
  pub event_id : String
  pub aggregate_type : String
  pub aggregate_id : String
  pub event_type : String
  pub actor_id : String
  pub correlation_id : String
  pub payload : Json
  pub previous_hash : String
  pub event_hash : String
  pub occurred_at : Datetime

pub record IdempotencyRecord : Type 0 where
  pub id : String
  pub operation : String
  pub key : String
  pub request_hash : String
  pub resource_type : String
  pub resource_id : String
  pub response_snapshot : String
  pub created_at : Datetime

-- `OutboxStatus` of outbox.py.
pub data OutboxStatus : Type 0 where
  pending processing published dead : OutboxStatus

pub record OutboxMessage : Type 0 where
  pub id : String
  pub topic : String
  pub aggregate_id : String
  pub idempotency_key : String
  pub payload : List (String × Json)
  pub status : OutboxStatus
  pub attempts : ℕ
  pub available_at : Datetime
  pub lease_expires_at : Option Datetime
  pub locked_by : Option String
  pub adapter_reference : Option String
  pub last_error : Option String
  pub published_at : Option Datetime
  pub created_at : Datetime
  pub updated_at : Datetime

-- The tables, each in the order of insertion.
pub record Database : Type 0 where
  pub assets : List Asset
  pub flex_offers : List FlexOffer
  pub reservations : List Reservation
  pub dispatches : List Dispatch
  pub meter_readings : List MeterReading
  pub settlements : List Settlement
  pub audit_events : List AuditEvent
  pub idempotency_records : List IdempotencyRecord
  pub outbox_messages : List OutboxMessage

instance abbrev pub asset_row : Row Asset
asset_row = record { key = λ r. r.id }

instance abbrev pub flex_offer_row : Row FlexOffer
flex_offer_row = record { key = λ r. r.id }

instance abbrev pub reservation_row : Row Reservation
reservation_row = record { key = λ r. r.id }

instance abbrev pub dispatch_row : Row Dispatch
dispatch_row = record { key = λ r. r.id }

instance abbrev pub meter_reading_row : Row MeterReading
meter_reading_row = record { key = λ r. r.id }

instance abbrev pub settlement_row : Row Settlement
settlement_row = record { key = λ r. r.id }

instance abbrev pub idempotency_record_row : Row IdempotencyRecord
idempotency_record_row = record { key = λ r. r.id }

instance abbrev pub outbox_message_row : Row OutboxMessage
outbox_message_row = record { key = λ r. r.id }
