-- ===== src/Tests/Startup.antt =====
-- The theorems on the processes and on the migrations.

use energy_flex_trust_platfo.Prelude.{
  String, ◌≡◌, ◌⊎◌, refl, true, Option, none, some, [], ◌∷◌, ◌==◌, if◌then◌else◌,
}
use energy_flex_trust_platfo.Prelude.Tests.{is_blank}
use energy_flex_trust_platfo.Domain.{Error, err, require_role}
use energy_flex_trust_platfo.Models.{pending}
use energy_flex_trust_platfo.Models.Table.{get, update}
use energy_flex_trust_platfo.Session.{new_id, utc_now, ◌>>=◌, begin, add_audit_event}
use energy_flex_trust_platfo.Audit.Defs.{
  append_event, calculate_event_hash, sha256_json, canonical_json, audit_hash_material, json_fields,
}
use energy_flex_trust_platfo.Ports.{noop_publisher}
use energy_flex_trust_platfo.Outbox.Payload.{dispatch_payload, dispatch_signal}
use energy_flex_trust_platfo.Outbox.Worker.{
  OutboxRunResult, outbox_worker, is_claimable, claim_order, next_claimable, claim, claim_one,
  finalize, record_success, attempt_publish, record_attempt, round, run_rounds, run_once,
}
use energy_flex_trust_platfo.Redrive.{
  RedriveAuthorization, normalize_reason, redrive, authorize_dead_dispatch_redrive,
}
use energy_flex_trust_platfo.Config.{Settings, validate_runtime}
use energy_flex_trust_platfo.Startup.Database.{
  Engine, Store, expected_tables, expected_schema_revision, starts_with, strip, strip_left,
  strip_right, verify_managed_schema, initialize_database,
}
use energy_flex_trust_platfo.Startup.Entry.{
  RecoveryArguments, resolve_publisher, worker_run_once, recovery_database_url, recovery_main,
}
use energy_flex_trust_platfo.Startup.Guards.{
  Started, worker_run_once-Started, worker_run_once-refused,
}
use energy_flex_trust_platfo.Startup.Recovery.{Recovered, recovery_main-Recovered}
use energy_flex_trust_platfo.Migrations.Schema.{Schema, run}
use energy_flex_trust_platfo.Migrations.Initial.{upgrade_initial, downgrade_initial}
use energy_flex_trust_platfo.Migrations.Outbox.{upgrade_outbox, downgrade_outbox}
use energy_flex_trust_platfo.Migrations.Metadata.{metadata}
use energy_flex_trust_platfo.Migrations.Upgrade.{
  beside, upgrade_head, downgrade_base, upgrade_head-metadata,
}
use energy_flex_trust_platfo.Tests.Sample.{sample_platform, tag, waiting, dead_world, recoverer}

abbrev production : Settings
production = record {
  database_url = "postgresql+psycopg://db";
  environment = "production";
  auth_mode = "oidc";
  oidc_issuer = "issuer";
  oidc_audience = "audience";
  oidc_jwks_json = "jwks";
  oidc_role_claim = "energy_flex_role";
  oidc_subject_claim = "sub";
}

abbrev managed : Store
managed = record {
  table_names = "alembic_version" ∷ expected_tables;
  revision = some expected_schema_revision;
  world = waiting;
}

abbrev no_variables : String → Option String
no_variables name = none

abbrev reach_managed : Engine → Store
reach_managed engine = managed

abbrev one_published : OutboxRunResult
one_published = record { attempted = 1; published_count = 1; retried = 0; dead_count = 0 }

worker_run_once-Started_example :
    Started production
      (some noop_publisher)
      managed
      1
      tt
      (worker_run_once no_variables reach_managed (some production) 1 (some noop_publisher) tt)
      one_published
unfolding worker_run_once validate_runtime resolve_publisher initialize_database
    verify_managed_schema outbox_worker is_blank get update is_claimable claim_order next_claimable
    claim claim_one ◌>>=◌ new_id utc_now begin attempt_publish dispatch_signal dispatch_payload
    noop_publisher record_attempt record_success finalize append_event add_audit_event
    calculate_event_hash sha256_json canonical_json audit_hash_material json_fields round run_rounds
    run_once
worker_run_once-Started_example =
    worker_run_once-Started no_variables reach_managed (some production) 1 (some noop_publisher) tt
      one_published refl

worker_run_once-refused_example :
    (e : Error) × ((e ≡ Error.value_error) ⊎ (e ≡ Error.runtime_error))
    × (worker_run_once {S = Unit {0}} no_variables reach_managed (some production) 1 none tt
        ≡ record { answer = err e; store = managed; state = tt })
worker_run_once-refused_example =
    worker_run_once-refused no_variables reach_managed (some production) 1 tt refl

abbrev database_variable : String → Option String
database_variable name = if name == "DATABASE_URL" then some " postgresql+psycopg://db" else none

abbrev recovery_arguments : RecoveryArguments
recovery_arguments = record {
  message_id = tag 10;
  dispatch_id = tag 9;
  actor_id = "recoverer";
  reason = "the adapter is back";
  acknowledge_replay_risk = true;
}

abbrev dead_store : Store
dead_store = record managed { world = dead_world }

abbrev authorization : RedriveAuthorization
authorization = record {
  message_id = tag 10;
  dispatch_id = tag 9;
  idempotency_key = "k2";
  previous_attempts = 3;
  status = pending;
}

abbrev recovered_store : Store
recovered_store = record managed {
  world =
      (authorize_dead_dispatch_redrive recoverer (tag 10) (tag 9) "the adapter is back"
        dead_world).1;
}

recovery_main-Recovered_example :
    Recovered database_variable
      (λ engine. dead_store)
      recovery_arguments
      authorization
      recovered_store
unfolding get require_role normalize_reason redrive authorize_dead_dispatch_redrive ◌>>=◌ utc_now
    new_id append_event calculate_event_hash sha256_json canonical_json audit_hash_material
    json_fields add_audit_event recovery_main recovery_database_url starts_with strip strip_left
    strip_right initialize_database verify_managed_schema
recovery_main-Recovered_example =
    recovery_main-Recovered database_variable (λ engine. dead_store) recovery_arguments
      authorization recovered_store refl

-- A schema with the table of another program.
abbrev shared_schema : Schema
shared_schema = record {
  tables =
      record {
        name = "notes";
        columns = [];
        foreign_keys = [];
        primary_key = "id";
        unique_constraints = [];
      }
      ∷ [];
  indexes = [];
}

upgrade_head-metadata_example :
    (run upgrade_head shared_schema ≡ some (beside shared_schema metadata))
    × (run downgrade_base (beside shared_schema metadata) ≡ some shared_schema)
unfolding upgrade_initial upgrade_outbox downgrade_initial downgrade_outbox
upgrade_head-metadata_example = upgrade_head-metadata shared_schema refl refl
