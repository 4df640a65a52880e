-- ===== src/Startup/Guards.antt =====
-- What has been checked before a process touches the database.
use energy_flex_trust_platfo.Prelude.{
  ℕ, String, ◌≡◌, ◌⊎◌, inl, inr, refl, ap, Bool, true, false, not, Option, none, some, Bool-cases,
  arith,
}
use energy_flex_trust_platfo.Domain.{Error, Result, ok, err}
use energy_flex_trust_platfo.Platform.{Platform}
use energy_flex_trust_platfo.Session.{World}
use energy_flex_trust_platfo.Config.{
  Settings, is_development, validate_runtime, settings_or_environment,
}
use energy_flex_trust_platfo.Config.Valid.{Runs, validate_runtime-Runs}
use energy_flex_trust_platfo.Ports.{Publisher, noop_publisher}
use energy_flex_trust_platfo.Outbox.Worker.{OutboxRunResult, outbox_worker, run_once}
use energy_flex_trust_platfo.Startup.Database.{
  Engine, build_engine, Store, verify_managed_schema, create_all, checked_store,
  initialize_database,
}
use energy_flex_trust_platfo.Startup.Entry.{
  Ending, resolve_publisher, default_worker, ended, start_worker, with_publisher, with_settings,
  worker_run_once,
}

abbrev Opened : Bool → Store → Store → Type 0
Opened development before opened =
    ((development ≡ true) × (opened ≡ create_all before))
    ⊎ ((development ≡ false) × (opened ≡ before) × (verify_managed_schema before ≡ ok tt))

initialize_database-Opened :
    (development : Bool) (before opened : Store)
    → initialize_database (not development) before ≡ ok opened
    → Opened development before opened
unfolding initialize_database
initialize_database-Opened true before opened h = inl (refl, ground arith)
initialize_database-Opened false before opened h =
    managed_ends (verify_managed_schema before) refl h
  where
    managed_ends :
        (r : Result (Unit {0}))
        → verify_managed_schema before ≡ r
        → checked_store before r ≡ ok opened
        → Opened false before opened
    managed_ends (ok tt) checked h = inr (refl, ground arith, checked)
    managed_ends (err e) checked h = absurd (ground arith)

validate_runtime-value_error :
    (s : Settings) (e : Error) → validate_runtime s ≡ err e → e ≡ Error.value_error
unfolding validate_runtime
validate_runtime-value_error s e h = ground arith

module _ ⦃p : Platform⦄ {S : Type 0} where
  -- What stands behind a run of the worker process that answers.
  pub record Started (s : Settings) (publisher : Option (Publisher S)) (before : Store) (limit : ℕ)
      (state : S) (end : Ending OutboxRunResult S) (counts : OutboxRunResult) : Type 0 where
    pub valid : Runs s
    pub chosen : Publisher S
    pub choice :
        (publisher ≡ some chosen)
        ⊎ ((publisher ≡ none) × (chosen ≡ noop_publisher) × (is_development s.environment ≡ true))
    pub opened : Store
    pub schema :
        ((is_development s.environment ≡ true) × (opened ≡ create_all before))
        ⊎ ((is_development s.environment ≡ false)
            × (opened ≡ before)
            × (verify_managed_schema before ≡ ok tt))
    pub ran :
        run_once default_worker chosen limit opened.world state
        ≡ (ok counts, end.store.world, end.state)

  abbrev Chosen : Settings → Option (Publisher S) → Publisher S → Type 0
  Chosen s publisher chosen =
      (publisher ≡ some chosen)
      ⊎ ((publisher ≡ none) × (chosen ≡ noop_publisher) × (is_development s.environment ≡ true))

  resolve_publisher-Chosen :
      (s : Settings) (publisher : Option (Publisher S)) (chosen : Publisher S)
      → resolve_publisher s publisher ≡ ok chosen
      → Chosen s publisher chosen
  unfolding resolve_publisher
  resolve_publisher-Chosen s (some q) chosen h = inl (ground arith)
  resolve_publisher-Chosen s none chosen h = elim (Bool-cases (is_development s.environment)) [
    | inl development ↦ inr (refl, noop_chosen (rw development at h), development)
    | inr production ↦ absurd (refused (rw production at h))
  ]
    where
      noop_chosen :
          ◌≡◌ {A = Result (Publisher S)} (ok noop_publisher) (ok chosen) → chosen ≡ noop_publisher
      noop_chosen e = ground arith

      refused : ◌≡◌ {A = Result (Publisher S)} (err Error.runtime_error) (ok chosen) → ⊥
      refused e = ground arith

  run_ended :
      (store : Store) (r : Result OutboxRunResult × World × S) (counts : OutboxRunResult)
      → (ended store r).answer ≡ ok counts
      → r ≡ (ok counts, (ended store r).store.world, (ended store r).state)
  run_ended store (answer, w, state) counts done = ap (λ a. (a, w, state)) done

  module _ (s : Settings) (limit : ℕ) (publisher : Option (Publisher S)) (state : S)
      (before : Store) (counts : OutboxRunResult) where
    from_store :
        (chosen : Publisher S) (r : Result Store)
        → Runs s
        → Chosen s publisher chosen
        → initialize_database (not (is_development s.environment)) before ≡ r
        → (start_worker chosen limit state before r).answer ≡ ok counts
        → Started s publisher before limit state (start_worker chosen limit state before r) counts
    unfolding outbox_worker
    from_store chosen (err e) runs choice start done = absurd (ground arith)
    from_store chosen (ok opened) runs choice start done = record {
      valid = runs;
      chosen = chosen;
      choice = choice;
      opened = opened;
      schema = initialize_database-Opened (is_development s.environment) before opened start;
      ran = run_ended opened (run_once default_worker chosen limit opened.world state) counts done;
    }

    from_publisher :
        (r : Result (Publisher S))
        → Runs s
        → resolve_publisher s publisher ≡ r
        → (with_publisher s limit state before r).answer ≡ ok counts
        → Started s publisher before limit state (with_publisher s limit state before r) counts
    from_publisher (err e) runs start done = absurd (ground arith)
    from_publisher (ok chosen) runs start done =
        from_store chosen (initialize_database (not (is_development s.environment)) before) runs
          (resolve_publisher-Chosen s publisher chosen start) refl done

    from_settings :
        (r : Result (Unit {0}))
        → validate_runtime s ≡ r
        → (with_settings s limit publisher state before r).answer ≡ ok counts
        → Started s publisher before limit state
            (with_settings s limit publisher state before r)
            counts
    from_settings (err e) start done = absurd (ground arith)
    from_settings (ok tt) start done =
        from_publisher (resolve_publisher s publisher) ((validate_runtime-Runs s).0 start) refl done

  -- When the worker process answers, its settings are valid; the publisher is the one that was
  -- given, or the no-op publisher in development and test; the schema was created in development
  -- and test and was verified at the expected revision elsewhere; and the answer, the rows and the
  -- publisher's state are those of OutboxWorker.run_once with the default worker.
  pub worker_run_once-Started :
      (getenv : String → Option String) (connect : Engine → Store) (settings : Option Settings)
      (limit : ℕ) (publisher : Option (Publisher S)) (state : S) (counts : OutboxRunResult)
      → (worker_run_once getenv connect settings limit publisher state).answer ≡ ok counts
      → Started
          (settings_or_environment getenv settings)
          publisher
          (connect (build_engine (settings_or_environment getenv settings).database_url))
          limit
          state
          (worker_run_once getenv connect settings limit publisher state)
          counts
  unfolding worker_run_once
  worker_run_once-Started getenv connect settings limit publisher state counts done =
      let s = settings_or_environment getenv settings in
      from_settings s limit publisher state (connect (build_engine s.database_url)) counts
        (validate_runtime s) refl done

  refused_settings :
      (s : Settings) (limit : ℕ) (state : S) (before : Store) (r : Result (Unit {0}))
      → is_development s.environment ≡ false
      → validate_runtime s ≡ r
      → (e : Error) × ((e ≡ Error.value_error) ⊎ (e ≡ Error.runtime_error))
        × (with_settings s limit none state before r
            ≡ record { answer = err e; store = before; state = state })
  unfolding resolve_publisher
  refused_settings s limit state before (err e) production h =
      (e, inl (validate_runtime-value_error s e h), refl)
  refused_settings s limit state before (ok tt) production h =
      (Error.runtime_error, inr refl, rw production refl)

  -- Outside of development and test, the worker process without a publisher raises ValueError or
  -- RuntimeError before it changes the database.
  pub worker_run_once-refused :
      (getenv : String → Option String) (connect : Engine → Store) (settings : Option Settings)
      (limit : ℕ) (state : S)
      → is_development (settings_or_environment getenv settings).environment ≡ false
      → (e : Error) × ((e ≡ Error.value_error) ⊎ (e ≡ Error.runtime_error))
        × (worker_run_once getenv connect settings limit none state ≡ record {
          answer = err e;
          store = connect (build_engine (settings_or_environment getenv settings).database_url);
          state = state;
        })
  unfolding worker_run_once
  worker_run_once-refused getenv connect settings limit state production =
      let s = settings_or_environment getenv settings in
      refused_settings s limit state (connect (build_engine s.database_url)) (validate_runtime s)
        production refl
