-- ===== src/Migrations/Models.antt =====
-- src/energy_flex_trust/models.py: the columns that its classes declare.

use energy_flex_trust_platfo.Prelude.{String, Bool, true, false, Option, none, some, List, [], ◌∷◌}
use energy_flex_trust_platfo.Migrations.Schema.{
  ColumnType, string, numeric, date_time, integer, long_text, UniqueConstraint, unique_constraint,
}

-- `mapped_column`
pub record MappedColumn : Type 0 where
  pub name : String
  pub column_type : ColumnType
  pub nullable : Bool
  pub primary_key : Bool
  pub unique : Bool
  pub index : Bool
  pub foreign_key : Option (String × String)

pub record MappedTable : Type 0 where
  pub name : String
  pub columns : List MappedColumn
  pub unique_constraints : List UniqueConstraint

abbrev pub plain : String → ColumnType → MappedColumn
plain name column_type = record {
  name = name;
  column_type = column_type;
  nullable = false;
  primary_key = false;
  unique = false;
  index = false;
  foreign_key = none;
}

abbrev pub id_type : ColumnType
id_type = string 36

-- `Asset`
abbrev pub assets_model : MappedTable
assets_model = record {
  name = "assets";
  columns =
      record (plain "id" (string 36)) { primary_key = true }
      ∷ record (plain "external_id" (string 100)) { unique = true; index = true }
      ∷ record (plain "owner_id" (string 100)) { index = true }
      ∷ plain "asset_type" (string 40)
      ∷ plain "capacity_kw" (numeric 18 6)
      ∷ plain "location_code" (string 80)
      ∷ plain "status" (string 30)
      ∷ plain "created_at" date_time
      ∷ [];
  unique_constraints = [];
}

-- `FlexOffer`
abbrev pub flex_offers_model : MappedTable
flex_offers_model = record {
  name = "flex_offers";
  columns =
      record (plain "id" (string 36)) { primary_key = true }
      ∷ record (plain "asset_id" id_type) { index = true; foreign_key = some ("assets", "id") }
      ∷ plain "window_start" date_time
      ∷ plain "window_end" date_time
      ∷ plain "direction" (string 20)
      ∷ plain "quantity_kw" (numeric 18 6)
      ∷ plain "price_per_kwh" (numeric 18 6)
      ∷ plain "status" (string 30)
      ∷ plain "created_by" (string 100)
      ∷ plain "created_at" date_time
      ∷ [];
  unique_constraints = [];
}

-- `Reservation`
abbrev pub reservations_model : MappedTable
reservations_model = record {
  name = "reservations";
  columns =
      record (plain "id" (string 36)) { primary_key = true }
      ∷ record (plain "offer_id" id_type) {
        unique = true;
        index = true;
        foreign_key = some ("flex_offers", "id");
      }
      ∷ plain "quantity_kw" (numeric 18 6)
      ∷ plain "status" (string 30)
      ∷ plain "requested_by" (string 100)
      ∷ plain "created_at" date_time
      ∷ [];
  unique_constraints = [];
}

-- `Dispatch`
abbrev pub dispatches_model : MappedTable
dispatches_model = record {
  name = "dispatches";
  columns =
      record (plain "id" (string 36)) { primary_key = true }
      ∷ record (plain "reservation_id" id_type) {
        unique = true;
        index = true;
        foreign_key = some ("reservations", "id");
      }
      ∷ plain "target_kw" (numeric 18 6)
      ∷ plain "starts_at" date_time
      ∷ plain "ends_at" date_time
      ∷ plain "status" (string 30)
      ∷ plain "issued_by" (string 100)
      ∷ record (plain "adapter_reference" (string 200)) { nullable = true }
      ∷ plain "created_at" date_time
      ∷ [];
  unique_constraints = [];
}

-- `MeterReading`
abbrev pub meter_readings_model : MappedTable
meter_readings_model = record {
  name = "meter_readings";
  columns =
      record (plain "id" (string 36)) { primary_key = true }
      ∷ record (plain "asset_id" id_type) { index = true; foreign_key = some ("assets", "id") }
      ∷ plain "interval_start" date_time
      ∷ plain "interval_end" date_time
      ∷ plain "energy_kwh" (numeric 18 6)
      ∷ plain "source" (string 100)
      ∷ record (plain "fingerprint" (string 64)) { index = true }
      ∷ plain "recorded_by" (string 100)
      ∷ plain "received_at" date_time
      ∷ [];
  unique_constraints =
      unique_constraint (some "uq_meter_reading_fingerprint") ("fingerprint" ∷ []) ∷ [];
}

-- `Settlement`
abbrev pub settlements_model : MappedTable
settlements_model = record {
  name = "settlements";
  columns =
      record (plain "id" (string 36)) { primary_key = true }
      ∷ record (plain "reservation_id" id_type) {
        unique = true;
        index = true;
        foreign_key = some ("reservations", "id");
      }
      ∷ plain "delivered_kwh" (numeric 18 6)
      ∷ plain "price_per_kwh" (numeric 18 6)
      ∷ plain "amount" (numeric 18 6)
      ∷ plain "evidence_manifest" ColumnType.json
      ∷ record (plain "evidence_hash" (string 64)) { index = true }
      ∷ plain "settled_by" (string 100)
      ∷ plain "created_at" date_time
      ∷ [];
  unique_constraints = [];
}

-- `AuditEvent`
abbrev pub audit_events_model : MappedTable
audit_events_model = record {
  name = "audit_events";
  columns =
      record (plain "sequence" integer) { primary_key = true }
      ∷ record (plain "event_id" (string 36)) { unique = true; index = true }
      ∷ record (plain "aggregate_type" (string 60)) { index = true }
      ∷ record (plain "aggregate_id" (string 36)) { index = true }
      ∷ record (plain "event_type" (string 100)) { index = true }
      ∷ record (plain "actor_id" (string 100)) { index = true }
      ∷ record (plain "correlation_id" (string 100)) { index = true }
      ∷ plain "payload" ColumnType.json
      ∷ plain "previous_hash" (string 64)
      ∷ record (plain "event_hash" (string 64)) { unique = true }
      ∷ plain "occurred_at" date_time
      ∷ [];
  unique_constraints = [];
}

-- `IdempotencyRecord`
abbrev pub idempotency_records_model : MappedTable
idempotency_records_model = record {
  name = "idempotency_records";
  columns =
      record (plain "id" (string 36)) { primary_key = true }
      ∷ record (plain "operation" (string 80)) { index = true }
      ∷ record (plain "key" (string 200)) { index = true }
      ∷ plain "request_hash" (string 64)
      ∷ plain "resource_type" (string 60)
      ∷ plain "resource_id" (string 36)
      ∷ plain "response_snapshot" long_text
      ∷ plain "created_at" date_time
      ∷ [];
  unique_constraints =
      unique_constraint (some "uq_idempotency_operation_key") ("operation" ∷ "key" ∷ []) ∷ [];
}

-- `OutboxMessage`
abbrev pub outbox_messages_model : MappedTable
outbox_messages_model = record {
  name = "outbox_messages";
  columns =
      record (plain "id" (string 36)) { primary_key = true }
      ∷ record (plain "topic" (string 100)) { index = true }
      ∷ record (plain "aggregate_id" (string 36)) { index = true }
      ∷ record (plain "idempotency_key" (string 200)) { index = true }
      ∷ plain "payload" ColumnType.json
      ∷ record (plain "status" (string 30)) { index = true }
      ∷ plain "attempts" integer
      ∷ record (plain "available_at" date_time) { index = true }
      ∷ record (plain "lease_expires_at" date_time) { nullable = true; index = true }
      ∷ record (plain "locked_by" (string 100)) { nullable = true }
      ∷ record (plain "adapter_reference" (string 200)) { nullable = true }
      ∷ record (plain "last_error" long_text) { nullable = true }
      ∷ record (plain "published_at" date_time) { nullable = true }
      ∷ plain "created_at" date_time
      ∷ plain "updated_at" date_time
      ∷ [];
  unique_constraints =
      unique_constraint (some "uq_outbox_topic_idempotency_key") ("topic" ∷ "idempotency_key" ∷ [])
      ∷ [];
}

-- `Base.metadata`, in the order of the classes.
abbrev pub models : List MappedTable
models =
    assets_model ∷ flex_offers_model ∷ reservations_model ∷ dispatches_model ∷ meter_readings_model
    ∷ settlements_model ∷ audit_events_model ∷ idempotency_records_model ∷ outbox_messages_model
    ∷ []
