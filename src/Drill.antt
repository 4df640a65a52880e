-- ===== src/Drill.antt =====
-- scripts/recovery_drill.py: the fixture of a backup drill, and the check of a restored database.
pub mod Restore
use Prim.Native.String
use energy_flex_trust_platfo.Prelude.{
  ℕ, ◌+◌, ◌*◌, String, Bool, true, not, ◌||◌, Option, none, some, [], ◌∷◌, count_where, eqb, ◌==◌,
  if◌then◌else◌,
}
use energy_flex_trust_platfo.Domain.{
  Actor, asset_owner, market_operator, settlement_analyst, auditor, battery, decrease, Error,
  Result, ok, err,
}
use energy_flex_trust_platfo.Datetime.{Datetime, utc}
use energy_flex_trust_platfo.Decimal.{Decimal}
use energy_flex_trust_platfo.Platform.{Platform}
use energy_flex_trust_platfo.Models.{published, Settlement, settlement_row}
use energy_flex_trust_platfo.Models.Table.{get}
use energy_flex_trust_platfo.Session.{
  World, Action, pure, lift, query, or_raise, raise_if, ◌>>=◌, ◌>>◌,
}
use energy_flex_trust_platfo.Schemas.{
  validate_asset, validate_offer, validate_reservation, validate_dispatch, validate_meter_reading,
}
use energy_flex_trust_platfo.Ports.{noop_publisher}
use energy_flex_trust_platfo.Outbox.Queue.{same_status}
use energy_flex_trust_platfo.Outbox.Worker.{OutboxRunResult, outbox_worker, run_once}
use energy_flex_trust_platfo.Outbox.Worker as Worker
use energy_flex_trust_platfo.Service.Registration.{register_asset, create_offer}
use energy_flex_trust_platfo.Service.Reserve.{reserve_offer}
use energy_flex_trust_platfo.Service.Issue.{issue_dispatch}
use energy_flex_trust_platfo.Service.Metering.{record_meter_reading}
use energy_flex_trust_platfo.Service.Settle.{
  settle_reservation, settlement_evidence, audit_verification,
}
use energy_flex_trust_platfo.Config.{getenv_or}
use energy_flex_trust_platfo.Startup.Database.{
  starts_with, strip, Engine, build_engine, Store, initialize_database,
}
use energy_flex_trust_platfo.Startup.Entry.{default_worker}

abbrev pub fixture_version : String
fixture_version = "energy-flex-recovery-fixture.v1"

-- What `seed_fixture` returns, and what `verify_fixture` reads back.
pub record Fixture : Type 0 where
  pub version : String
  pub asset_id : String
  pub reservation_id : String
  pub dispatch_id : String
  pub settlement_id : String
  pub settlement_amount : String
  pub evidence_hash : String
  pub audit_event_count : ℕ
  pub audit_head_hash : String
  pub published_outbox_count : ℕ

-- `_database_url`
unfoldable pub drill_database_url : (String → Option String) → Result String
drill_database_url getenv =
    let value = strip (getenv_or getenv "DATABASE_URL" "") in
    if value == ""
    then err Error.runtime_error
    else if not (starts_with "postgresql+" value)
    then err Error.runtime_error
    else ok value

-- `_actors`
abbrev pub drill_owner : Actor
drill_owner = record { actor_id = "recovery-owner"; role = asset_owner }

abbrev pub drill_operator : Actor
drill_operator = record { actor_id = "recovery-operator"; role = market_operator }

abbrev pub drill_analyst : Actor
drill_analyst = record { actor_id = "recovery-analyst"; role = settlement_analyst }

abbrev pub drill_auditor : Actor
drill_auditor = record { actor_id = "recovery-auditor"; role = auditor }

-- 2026-08-17 12:00 UTC, and an hour later.
abbrev drill_start : Datetime
drill_start = record { instant = 1786968000000000; zone = utc }

abbrev drill_end : Datetime
drill_end = record { instant = 1786968000000000 + 3600 * 1000000; zone = utc }

abbrev decimal : ℕ → ℕ → Decimal
decimal coefficient scale = record { coefficient = coefficient; scale = scale }

abbrev drill_worker : Worker.Settings
drill_worker = record default_worker { worker_id = "recovery-drill-worker" }

module _ ⦃p : Platform⦄ where
  -- `OutboxWorker(...).run_once(limit=10)` with the publisher that does nothing.
  abbrev run_drill_worker : Action OutboxRunResult
  run_drill_worker w =
      let (answer, after, state) = run_once drill_worker noop_publisher 10 w tt in (answer, after)

  -- The published messages.
  abbrev pub published_count : Action ℕ
  published_count =
      query (λ db. count_where (λ m. same_status m.status published) db.outbox_messages)

  -- The first session and the worker of `seed_fixture`: the ids of asset, reservation and dispatch.
  unfoldable pub seed_dispatch : Action (String × String × String)
  seed_dispatch = do
    asset_command ← lift (
        validate_asset (record {
          external_id = "RECOVERY-BATTERY-001";
          owner_id = "recovery-owner";
          asset_type = battery;
          capacity_kw = decimal 100 0;
          location_code = "GB-LON";
        }))
    asset ← register_asset asset_command drill_owner
    offer_command ← lift (
        validate_offer (record {
          asset_id = asset.id;
          window_start = drill_start;
          window_end = drill_end;
          direction = decrease;
          quantity_kw = decimal 80 0;
          price_per_kwh = decimal 50 2;
        }))
    offer ← create_offer offer_command drill_owner
    reservation_command ← lift (validate_reservation (record { quantity_kw = decimal 50 0 }))
    reservation ←
        reserve_offer offer.id reservation_command drill_operator "recovery-reservation-001"
    dispatch_command ← lift (
        validate_dispatch
          (record { target_kw = decimal 40 0; starts_at = drill_start; ends_at = drill_end }))
    dispatch ← issue_dispatch reservation.id dispatch_command drill_operator "recovery-dispatch-001"
    result ← run_drill_worker
    raise_if (not (eqb result.published_count 1) || not (eqb result.dead_count 0))
        Error.runtime_error
    pure (asset.id, reservation.id, dispatch.id)

  -- The second session of `seed_fixture`, up to the settlement.
  unfoldable pub seed_settlement : (asset_id reservation_id : String) → Action Settlement
  seed_settlement asset_id reservation_id = do
    reading_command ← lift (
        validate_meter_reading (record {
          asset_id = asset_id;
          interval_start = drill_start;
          interval_end = drill_end;
          energy_kwh = decimal 245 1;
          source = "recovery-synthetic-meter";
        }))
    record_meter_reading reading_command drill_owner
    settle_reservation reservation_id drill_analyst "recovery-settlement-001"

  -- `seed_fixture`, on the rows of the database.
  unfoldable pub seed_fixture : Action Fixture
  seed_fixture = do
    ids ← seed_dispatch
    settlement ← seed_settlement ids.0 ids.1
    evidence ← settlement_evidence settlement.id drill_auditor
    verification ← audit_verification drill_auditor
    published_rows ← published_count
    raise_if (not evidence.hash_valid || not verification.valid) Error.runtime_error
    raise_if (not (eqb published_rows 1)) Error.runtime_error
    pure (record {
      version = fixture_version;
      asset_id = ids.0;
      reservation_id = ids.1;
      dispatch_id = ids.2;
      settlement_id = settlement.id;
      settlement_amount = p.format_f settlement.amount;
      evidence_hash = evidence.evidence_hash;
      audit_event_count = verification.event_count;
      audit_head_hash = verification.head_hash;
      published_outbox_count = published_rows;
    })

  -- `verify_fixture`, on the rows of the database. The version is checked before the database is
  -- opened; both raise RuntimeError.
  unfoldable pub verify_fixture : Fixture → Action (Unit {0})
  verify_fixture expected = do
    raise_if (not (expected.version == fixture_version)) Error.runtime_error
    found ← query (λ db. get expected.settlement_id db.settlements)
    settlement ← or_raise found Error.runtime_error
    evidence ← settlement_evidence expected.settlement_id drill_auditor
    verification ← audit_verification drill_auditor
    published_rows ← published_count
    raise_if (not (p.format_f settlement.amount == expected.settlement_amount)) Error.runtime_error
    raise_if (not (evidence.evidence_hash == expected.evidence_hash)) Error.runtime_error
    raise_if (not (eqb verification.event_count expected.audit_event_count)) Error.runtime_error
    raise_if (not (verification.head_hash == expected.audit_head_hash)) Error.runtime_error
    raise_if (not (eqb published_rows expected.published_outbox_count)) Error.runtime_error
    raise_if (not evidence.hash_valid || not verification.valid) Error.runtime_error

  -- The engine, the check of the schema and the sessions around the two.
  abbrev on_store : {A : Type 0} → Action A → Result Store → Result A
  on_store m (err e) = err e
  on_store m (ok store) = (m store.world).0

  abbrev on_url : {A : Type 0} → (Engine → Store) → Action A → Result String → Result A
  on_url connect m (err e) = err e
  on_url connect m (ok url) = on_store m (initialize_database true (connect (build_engine url)))

  unfoldable pub run_drill :
      {A : Type 0} → (String → Option String) → (Engine → Store) → Action A → Result A
  run_drill getenv connect m = on_url connect m (drill_database_url getenv)
