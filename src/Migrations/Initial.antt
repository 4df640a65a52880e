-- ===== src/Migrations/Initial.antt =====
-- migrations/versions/0001_initial_schema.py
use Prim.Native.String
use energy_flex_trust_platfo.Prelude.{String, true, false, none, some, List, [], ◌∷◌, ◌++◌, map}
use energy_flex_trust_platfo.Migrations.Schema.{
  ColumnType, string, numeric, date_time, integer, long_text, Table, Op, create_table, create_index,
  drop_index, drop_table, column, foreign_key, unique_constraint, index,
}

abbrev pub initial_revision : String
initial_revision = "0001_initial_schema"

abbrev pub assets_table : Table
assets_table = record {
  name = "assets";
  columns =
      column "id" (string 36) false
      ∷ column "external_id" (string 100) false
      ∷ column "owner_id" (string 100) false
      ∷ column "asset_type" (string 40) false
      ∷ column "capacity_kw" (numeric 18 6) false
      ∷ column "location_code" (string 80) false
      ∷ column "status" (string 30) false
      ∷ column "created_at" date_time false
      ∷ [];
  foreign_keys = [];
  primary_key = "id";
  unique_constraints = [];
}

abbrev pub flex_offers_table : Table
flex_offers_table = record {
  name = "flex_offers";
  columns =
      column "id" (string 36) false
      ∷ column "asset_id" (string 36) false
      ∷ column "window_start" date_time false
      ∷ column "window_end" date_time false
      ∷ column "direction" (string 20) false
      ∷ column "quantity_kw" (numeric 18 6) false
      ∷ column "price_per_kwh" (numeric 18 6) false
      ∷ column "status" (string 30) false
      ∷ column "created_by" (string 100) false
      ∷ column "created_at" date_time false
      ∷ [];
  foreign_keys = foreign_key "asset_id" "assets" "id" "RESTRICT" ∷ [];
  primary_key = "id";
  unique_constraints = [];
}

abbrev pub reservations_table : Table
reservations_table = record {
  name = "reservations";
  columns =
      column "id" (string 36) false
      ∷ column "offer_id" (string 36) false
      ∷ column "quantity_kw" (numeric 18 6) false
      ∷ column "status" (string 30) false
      ∷ column "requested_by" (string 100) false
      ∷ column "created_at" date_time false
      ∷ [];
  foreign_keys = foreign_key "offer_id" "flex_offers" "id" "RESTRICT" ∷ [];
  primary_key = "id";
  unique_constraints = [];
}

abbrev pub dispatches_table : Table
dispatches_table = record {
  name = "dispatches";
  columns =
      column "id" (string 36) false
      ∷ column "reservation_id" (string 36) false
      ∷ column "target_kw" (numeric 18 6) false
      ∷ column "starts_at" date_time false
      ∷ column "ends_at" date_time false
      ∷ column "status" (string 30) false
      ∷ column "issued_by" (string 100) false
      ∷ column "adapter_reference" (string 200) true
      ∷ column "created_at" date_time false
      ∷ [];
  foreign_keys = foreign_key "reservation_id" "reservations" "id" "RESTRICT" ∷ [];
  primary_key = "id";
  unique_constraints = [];
}

abbrev pub meter_readings_table : Table
meter_readings_table = record {
  name = "meter_readings";
  columns =
      column "id" (string 36) false
      ∷ column "asset_id" (string 36) false
      ∷ column "interval_start" date_time false
      ∷ column "interval_end" date_time false
      ∷ column "energy_kwh" (numeric 18 6) false
      ∷ column "source" (string 100) false
      ∷ column "fingerprint" (string 64) false
      ∷ column "recorded_by" (string 100) false
      ∷ column "received_at" date_time false
      ∷ [];
  foreign_keys = foreign_key "asset_id" "assets" "id" "RESTRICT" ∷ [];
  primary_key = "id";
  unique_constraints =
      unique_constraint (some "uq_meter_reading_fingerprint") ("fingerprint" ∷ []) ∷ [];
}

abbrev pub settlements_table : Table
settlements_table = record {
  name = "settlements";
  columns =
      column "id" (string 36) false
      ∷ column "reservation_id" (string 36) false
      ∷ column "delivered_kwh" (numeric 18 6) false
      ∷ column "price_per_kwh" (numeric 18 6) false
      ∷ column "amount" (numeric 18 6) false
      ∷ column "evidence_manifest" ColumnType.json false
      ∷ column "evidence_hash" (string 64) false
      ∷ column "settled_by" (string 100) false
      ∷ column "created_at" date_time false
      ∷ [];
  foreign_keys = foreign_key "reservation_id" "reservations" "id" "RESTRICT" ∷ [];
  primary_key = "id";
  unique_constraints = [];
}

abbrev pub audit_events_table : Table
audit_events_table = record {
  name = "audit_events";
  columns =
      column "sequence" integer false
      ∷ column "event_id" (string 36) false
      ∷ column "aggregate_type" (string 60) false
      ∷ column "aggregate_id" (string 36) false
      ∷ column "event_type" (string 100) false
      ∷ column "actor_id" (string 100) false
      ∷ column "correlation_id" (string 100) false
      ∷ column "payload" ColumnType.json false
      ∷ column "previous_hash" (string 64) false
      ∷ column "event_hash" (string 64) false
      ∷ column "occurred_at" date_time false
      ∷ [];
  foreign_keys = [];
  primary_key = "sequence";
  unique_constraints = unique_constraint none ("event_hash" ∷ []) ∷ [];
}

abbrev pub idempotency_records_table : Table
idempotency_records_table = record {
  name = "idempotency_records";
  columns =
      column "id" (string 36) false
      ∷ column "operation" (string 80) false
      ∷ column "key" (string 200) false
      ∷ column "request_hash" (string 64) false
      ∷ column "resource_type" (string 60) false
      ∷ column "resource_id" (string 36) false
      ∷ column "response_snapshot" long_text false
      ∷ column "created_at" date_time false
      ∷ [];
  foreign_keys = [];
  primary_key = "id";
  unique_constraints =
      unique_constraint (some "uq_idempotency_operation_key") ("operation" ∷ "key" ∷ []) ∷ [];
}

unfoldable pub upgrade_initial : List Op
upgrade_initial =
    (create_table assets_table
      ∷ create_index (index "ix_assets_external_id" "assets" "external_id" true)
      ∷ create_index (index "ix_assets_owner_id" "assets" "owner_id" false)
      ∷ create_table flex_offers_table
      ∷ create_index (index "ix_flex_offers_asset_id" "flex_offers" "asset_id" false)
      ∷ create_table reservations_table
      ∷ create_index (index "ix_reservations_offer_id" "reservations" "offer_id" true)
      ∷ create_table dispatches_table
      ∷ create_index (index "ix_dispatches_reservation_id" "dispatches" "reservation_id" true)
      ∷ create_table meter_readings_table
      ∷ create_index (index "ix_meter_readings_asset_id" "meter_readings" "asset_id" false)
      ∷ create_index (index "ix_meter_readings_fingerprint" "meter_readings" "fingerprint" false)
      ∷ create_table settlements_table
      ∷ create_index (index "ix_settlements_reservation_id" "settlements" "reservation_id" true)
      ∷ create_index (index "ix_settlements_evidence_hash" "settlements" "evidence_hash" false)
      ∷ create_table audit_events_table
      ∷ create_index (index "ix_audit_events_event_id" "audit_events" "event_id" true)
      ∷ [])
    ++ map
        (λ column_name.
          create_index
            (index (String.◌++◌ "ix_audit_events_" column_name) "audit_events" column_name false))
        ("aggregate_type" ∷ "aggregate_id" ∷ "event_type" ∷ "actor_id" ∷ "correlation_id" ∷ [])
    ++ (create_table idempotency_records_table
        ∷ create_index
            (index "ix_idempotency_records_operation" "idempotency_records" "operation" false)
        ∷ create_index (index "ix_idempotency_records_key" "idempotency_records" "key" false)
        ∷ [])

unfoldable pub downgrade_initial : List Op
downgrade_initial =
    (drop_index "ix_idempotency_records_key" "idempotency_records"
      ∷ drop_index "ix_idempotency_records_operation" "idempotency_records"
      ∷ drop_table "idempotency_records"
      ∷ [])
    ++ map (λ column_name. drop_index (String.◌++◌ "ix_audit_events_" column_name) "audit_events")
        ("correlation_id" ∷ "actor_id" ∷ "event_type" ∷ "aggregate_id" ∷ "aggregate_type" ∷ [])
    ++ (drop_index "ix_audit_events_event_id" "audit_events"
        ∷ drop_table "audit_events"
        ∷ drop_index "ix_settlements_evidence_hash" "settlements"
        ∷ drop_index "ix_settlements_reservation_id" "settlements"
        ∷ drop_table "settlements"
        ∷ drop_index "ix_meter_readings_fingerprint" "meter_readings"
        ∷ drop_index "ix_meter_readings_asset_id" "meter_readings"
        ∷ drop_table "meter_readings"
        ∷ drop_index "ix_dispatches_reservation_id" "dispatches"
        ∷ drop_table "dispatches"
        ∷ drop_index "ix_reservations_offer_id" "reservations"
        ∷ drop_table "reservations"
        ∷ drop_index "ix_flex_offers_asset_id" "flex_offers"
        ∷ drop_table "flex_offers"
        ∷ drop_index "ix_assets_owner_id" "assets"
        ∷ drop_index "ix_assets_external_id" "assets"
        ∷ drop_table "assets"
        ∷ [])
