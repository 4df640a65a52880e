-- ===== src/Startup/Migrated.antt =====
-- The check of a managed schema after the migrations.
use energy_flex_trust_platfo.Prelude.{
  String, ◌≡◌, refl, true, some, List, [], ◌∷◌, ◌++◌, map, arith,
}
use energy_flex_trust_platfo.Domain.{ok}
use energy_flex_trust_platfo.Migrations.Schema.{Table, Schema}
use energy_flex_trust_platfo.Migrations.Outbox.{outbox_revision}
use energy_flex_trust_platfo.Migrations.Metadata.{metadata}
use energy_flex_trust_platfo.Migrations.Upgrade.{beside}
use energy_flex_trust_platfo.Startup.Database.{Store, has_name, verify_managed_schema}

-- The names of the tables of a schema that alembic manages.
abbrev pub managed_names : Schema → List String
managed_names s = "alembic_version" ∷ map (λ t. t.name) s.tables

-- A name of the second list is in both lists together.
has_name-map :
    (name : String) (xs ys : List Table)
    → has_name name (map (λ t. t.name) ys) ≡ true
    → has_name name (map (λ t. t.name) (xs ++ ys)) ≡ true
has_name-map name [] ys h = h
has_name-map name (x ∷ xs) ys h = ground (arith, has_name-map name xs ys)

-- A managed database at the last revision whose tables are those of the models beside others passes
-- the check that a process makes at its start outside of development and test.
pub verify_managed_schema-metadata :
    (s : Schema) (store : Store)
    → store.table_names ≡ managed_names (beside s metadata)
    → store.revision ≡ some outbox_revision
    → verify_managed_schema store ≡ ok tt
unfolding verify_managed_schema metadata
verify_managed_schema-metadata s store names revision =
    let has = λ (name : String). has_name-map name s.tables metadata.tables in
    rw
      (
        names,
        revision,
        has "assets" refl,
        has "flex_offers" refl,
        has "reservations" refl,
        has "dispatches" refl,
        has "outbox_messages" refl,
        has "meter_readings" refl,
        has "settlements" refl,
        has "audit_events" refl,
        has "idempotency_records" refl,
      )
      refl
