-- ===== src/Startup/Entry.antt =====
-- The two processes beside the web service: `run_once` of src/energy_flex_trust/worker.py, and the
-- command of src/energy_flex_trust/recovery_cli.py. `connect` is the database that an engine
-- reaches, `getenv` the environment.
use energy_flex_trust_platfo.Prelude.{ℕ, String, Bool, true, not, Option, none, some, if◌then◌else◌}
use energy_flex_trust_platfo.Domain.{recovery_operator, Error, Result, ok, err}
use energy_flex_trust_platfo.Platform.{Platform}
use energy_flex_trust_platfo.Session.{World}
use energy_flex_trust_platfo.Config.{
  Settings, is_development, validate_runtime, getenv_or, settings_or_environment,
}
use energy_flex_trust_platfo.Ports.{Publisher, noop_publisher}
use energy_flex_trust_platfo.Outbox.Worker.{OutboxRunResult, Run, outbox_worker, run_once}
use energy_flex_trust_platfo.Outbox.Worker as Worker
use energy_flex_trust_platfo.Redrive.{RedriveAuthorization, authorize_dead_dispatch_redrive}
use energy_flex_trust_platfo.Startup.Database.{
  starts_with, strip, Engine, build_engine, Store, initialize_database,
}

-- How a process ends: its result, the database and the publisher's state.
pub record Ending (A S : Type 0) : Type 0 where
  pub answer : Result A
  pub store : Store
  pub state : S

-- `_resolve_publisher`
unfoldable pub resolve_publisher :
    {S : Type 0} → Settings → Option (Publisher S) → Result (Publisher S)
resolve_publisher settings (some publisher) = ok publisher
resolve_publisher settings none =
    if not (is_development settings.environment) then err Error.runtime_error else ok noop_publisher

-- The defaults of `OutboxWorker.__init__`.
abbrev pub default_worker : Worker.Settings
default_worker = record {
  worker_id = "outbox-worker";
  max_attempts = 5;
  base_retry_seconds = 1;
  max_retry_seconds = 60;
  lease_seconds = 30;
}

module _ ⦃p : Platform⦄ {S : Type 0} where
  abbrev pub ended : Store → Result OutboxRunResult × World × S → Ending OutboxRunResult S
  ended store (answer, w, state) = record {
    answer = answer;
    store = record store { world = w };
    state = state;
  }

  -- `OutboxWorker(factory, publisher).run_once(limit=limit)`
  abbrev pub run_worker :
      Publisher S → ℕ → S → Store → Result Worker.Settings → Ending OutboxRunResult S
  run_worker publisher limit state store (err e) = record {
    answer = err e;
    store = store;
    state = state;
  }
  run_worker publisher limit state store (ok s) =
      ended store (run_once s publisher limit store.world state)

  abbrev pub start_worker : Publisher S → ℕ → S → Store → Result Store → Ending OutboxRunResult S
  start_worker publisher limit state before (err e) = record {
    answer = err e;
    store = before;
    state = state;
  }
  start_worker publisher limit state before (ok store) =
      run_worker publisher limit state store (outbox_worker default_worker)

  abbrev pub with_publisher :
      Settings → ℕ → S → Store → Result (Publisher S) → Ending OutboxRunResult S
  with_publisher settings limit state store (err e) = record {
    answer = err e;
    store = store;
    state = state;
  }
  with_publisher settings limit state store (ok publisher) =
      start_worker publisher limit state store
        (initialize_database (not (is_development settings.environment)) store)

  abbrev pub with_settings :
      Settings → ℕ → Option (Publisher S) → S → Store → Result (Unit {0}) → Ending OutboxRunResult S
  with_settings settings limit publisher state store (err e) = record {
    answer = err e;
    store = store;
    state = state;
  }
  with_settings settings limit publisher state store (ok tt) =
      with_publisher settings limit state store (resolve_publisher settings publisher)

  -- `run_once` of worker.py
  unfoldable pub worker_run_once :
      (getenv : String → Option String) (connect : Engine → Store) (settings : Option Settings)
      (limit : ℕ) (publisher : Option (Publisher S)) (state : S)
      → Ending OutboxRunResult S
  worker_run_once getenv connect settings limit publisher state =
      let s = settings_or_environment getenv settings in
      with_settings s limit publisher state (connect (build_engine s.database_url))
        (validate_runtime s)

-- The arguments of the recovery command.
pub record RecoveryArguments : Type 0 where
  pub message_id : String
  pub dispatch_id : String
  pub actor_id : String
  pub reason : String
  pub acknowledge_replay_risk : Bool

-- `_database_url` of recovery_cli.py
unfoldable pub recovery_database_url : (String → Option String) → Result String
recovery_database_url getenv =
    let value = strip (getenv_or getenv "DATABASE_URL" "") in
    if not (starts_with "postgresql+" value) then err Error.runtime_error else ok value

module _ ⦃p : Platform⦄ where
  abbrev pub recovered :
      Store → Result RedriveAuthorization × World → Result RedriveAuthorization × Option Store
  recovered store (answer, w) = (answer, some (record store { world = w }))

  abbrev pub recover_on :
      RecoveryArguments → Result Store → Result RedriveAuthorization × Option Store
  recover_on args (err e) = (err e, none)
  recover_on args (ok store) = recovered store (
      authorize_dead_dispatch_redrive
        (record { actor_id = args.actor_id; role = recovery_operator }) args.message_id
        args.dispatch_id args.reason store.world)

  abbrev pub recover_at :
      (Engine → Store)
      → RecoveryArguments
      → Result String
      → Result RedriveAuthorization × Option Store
  recover_at connect args (err e) = (err e, none)
  recover_at connect args (ok url) =
      recover_on args (initialize_database true (connect (build_engine url)))

  -- `main` of recovery_cli.py: the authorisation that it prints, and the database after it, if it
  -- has opened one. `parser.error` ends the process.
  unfoldable pub recovery_main :
      (getenv : String → Option String) (connect : Engine → Store) (args : RecoveryArguments)
      → Result RedriveAuthorization × Option Store
  recovery_main getenv connect args =
      if not args.acknowledge_replay_risk
      then (err Error.system_exit, none)
      else recover_at connect args (recovery_database_url getenv)
