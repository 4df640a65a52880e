-- ===== src/Migrations/Outbox.antt =====
-- migrations/versions/0002_reliable_outbox.py
use Prim.Native.String
use energy_flex_trust_platfo.Prelude.{String, true, false, some, List, [], ◌∷◌, ◌++◌, map}
use energy_flex_trust_platfo.Migrations.Schema.{
  ColumnType, string, date_time, integer, long_text, Table, Op, create_table, create_index,
  drop_index, drop_table, column, unique_constraint, index,
}

abbrev pub outbox_revision : String
outbox_revision = "0002_reliable_outbox"

abbrev pub outbox_messages_table : Table
outbox_messages_table = record {
  name = "outbox_messages";
  columns =
      column "id" (string 36) false
      ∷ column "topic" (string 100) false
      ∷ column "aggregate_id" (string 36) false
      ∷ column "idempotency_key" (string 200) false
      ∷ column "payload" ColumnType.json false
      ∷ column "status" (string 30) false
      ∷ column "attempts" integer false
      ∷ column "available_at" date_time false
      ∷ column "lease_expires_at" date_time true
      ∷ column "locked_by" (string 100) true
      ∷ column "adapter_reference" (string 200) true
      ∷ column "last_error" long_text true
      ∷ column "published_at" date_time true
      ∷ column "created_at" date_time false
      ∷ column "updated_at" date_time false
      ∷ [];
  foreign_keys = [];
  primary_key = "id";
  unique_constraints =
      unique_constraint (some "uq_outbox_topic_idempotency_key") ("topic" ∷ "idempotency_key" ∷ [])
      ∷ [];
}

unfoldable pub upgrade_outbox : List Op
upgrade_outbox =
    (create_table outbox_messages_table ∷ [])
    ++ map
        (λ column_name. create_index (
          index (String.◌++◌ "ix_outbox_messages_" column_name) "outbox_messages" column_name
            false))
        ("topic" ∷ "aggregate_id" ∷ "idempotency_key" ∷ "status" ∷ "available_at"
          ∷ "lease_expires_at" ∷ [])

unfoldable pub downgrade_outbox : List Op
downgrade_outbox =
    map
      (λ column_name. drop_index (String.◌++◌ "ix_outbox_messages_" column_name) "outbox_messages")
      ("lease_expires_at" ∷ "available_at" ∷ "status" ∷ "idempotency_key" ∷ "aggregate_id" ∷ "topic"
        ∷ [])
    ++ (drop_table "outbox_messages" ∷ [])
