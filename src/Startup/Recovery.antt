-- ===== src/Startup/Recovery.antt =====
-- What has been checked before a message is re-armed from the command line.
use energy_flex_trust_platfo.Prelude.{
  String, ◌≡◌, inl, inr, refl, ap, ◌∙◌, true, Option, none, some, Bool-cases, arith,
}
use energy_flex_trust_platfo.Domain.{Error, recovery_operator, Result, ok, err}
use energy_flex_trust_platfo.Platform.{Platform}
use energy_flex_trust_platfo.Session.{World}
use energy_flex_trust_platfo.Redrive.{RedriveAuthorization, authorize_dead_dispatch_redrive}
use energy_flex_trust_platfo.Guarantees.Worker.{Rearmed, authorize_dead_dispatch_redrive-Rearmed}
use energy_flex_trust_platfo.Startup.Database.{
  starts_with, strip, Engine, build_engine, Store, verify_managed_schema, checked_store,
  initialize_database,
}
use energy_flex_trust_platfo.Config.{getenv_or}
use energy_flex_trust_platfo.Startup.Entry.{
  RecoveryArguments, recovery_database_url, recovered, recover_on, recover_at, recovery_main,
}

module _ ⦃p : Platform⦄ where
  -- What stands behind a recovery command that prints an authorisation.
  pub record Recovered (getenv : String → Option String) (connect : Engine → Store)
      (args : RecoveryArguments) (a : RedriveAuthorization) (after : Store) : Type 0 where
    pub acknowledged : args.acknowledge_replay_risk ≡ true
    pub url : String
    pub named : strip (getenv_or getenv "DATABASE_URL" "") ≡ url
    pub is_postgresql : starts_with "postgresql+" url ≡ true
    pub schema : verify_managed_schema (connect (build_engine url)) ≡ ok tt
    pub rearmed :
        Rearmed args.message_id args.dispatch_id (connect (build_engine url)).world after.world.db a

  url_given :
      (getenv : String → Option String) (url : String)
      → recovery_database_url getenv ≡ ok url
      → (strip (getenv_or getenv "DATABASE_URL" "") ≡ url) × (starts_with "postgresql+" url ≡ true)
  unfolding recovery_database_url
  url_given getenv url h =
      elim (Bool-cases (starts_with "postgresql+" (strip (getenv_or getenv "DATABASE_URL" "")))) [
        | inl postgresql ↦
            let same : strip (getenv_or getenv "DATABASE_URL" "") ≡ url =
              url_same _ (rw postgresql at h) in
            (same, rw same at postgresql)
        | inr other ↦ absurd (no_url (rw other at h))
      ]
    where
      url_same : (value : String) → ◌≡◌ {A = Result String} (ok value) (ok url) → value ≡ url
      url_same value h = ground arith

      no_url : ◌≡◌ {A = Result String} (err Error.runtime_error) (ok url) → ⊥
      no_url h = ground arith

  unfoldable world_of : World → Option Store → World
  world_of w none = w
  world_of w (some store) = store.world

  redriven :
      (getenv : String → Option String) (connect : Engine → Store) (args : RecoveryArguments)
      (url : String) (a : RedriveAuthorization) (after : Store)
      (r : Result RedriveAuthorization × World)
      → args.acknowledge_replay_risk ≡ true
      → recovery_database_url getenv ≡ ok url
      → verify_managed_schema (connect (build_engine url)) ≡ ok tt
      → authorize_dead_dispatch_redrive
          (record { actor_id = args.actor_id; role = recovery_operator })
          args.message_id
          args.dispatch_id
          args.reason
          (connect (build_engine url)).world
        ≡ r
      → recovered (connect (build_engine url)) r ≡ (ok a, some after)
      → Recovered getenv connect args a after
  unfolding world_of
  redriven getenv connect args url a after (answer, w) acknowledged named schema call done =
      record {
        acknowledged = acknowledged;
        url = url;
        named = (url_given getenv url named).0;
        is_postgresql = (url_given getenv url named).1;
        schema = schema;
        rearmed =
            (authorize_dead_dispatch_redrive-Rearmed _ args.message_id args.dispatch_id args.reason
              (connect (build_engine url)).world after.world a
              (call
                ∙ ap (λ (r : Result RedriveAuthorization × Option Store). (r.0, world_of w r.1))
                    done)).1;
      }

  after_schema :
      (getenv : String → Option String) (connect : Engine → Store) (args : RecoveryArguments)
      (url : String) (a : RedriveAuthorization) (after : Store) (r : Result (Unit {0}))
      → args.acknowledge_replay_risk ≡ true
      → recovery_database_url getenv ≡ ok url
      → verify_managed_schema (connect (build_engine url)) ≡ r
      → recover_on args (checked_store (connect (build_engine url)) r) ≡ (ok a, some after)
      → Recovered getenv connect args a after
  after_schema getenv connect args url a after (ok tt) acknowledged named schema done =
      redriven getenv connect args url a after _ acknowledged named schema refl done
  after_schema getenv connect args url a after (err e) acknowledged named schema done =
      absurd (ground arith)

  after_url :
      (getenv : String → Option String) (connect : Engine → Store) (args : RecoveryArguments)
      (a : RedriveAuthorization) (after : Store) (r : Result String)
      → args.acknowledge_replay_risk ≡ true
      → recovery_database_url getenv ≡ r
      → recover_at connect args r ≡ (ok a, some after)
      → Recovered getenv connect args a after
  unfolding initialize_database
  after_url getenv connect args a after (ok url) acknowledged named done =
      after_schema getenv connect args url a after
        (verify_managed_schema (connect (build_engine url))) acknowledged named refl done
  after_url getenv connect args a after (err e) acknowledged named done = absurd (ground arith)

  -- The recovery command prints an authorisation only when the replay risk was acknowledged, on the
  -- PostgreSQL database that DATABASE_URL names, whose schema was verified; the message that is
  -- named was dead there and is pending again with its old key and payload.
  pub recovery_main-Recovered :
      (getenv : String → Option String) (connect : Engine → Store) (args : RecoveryArguments)
      (a : RedriveAuthorization) (after : Store)
      → recovery_main getenv connect args ≡ (ok a, some after)
      → Recovered getenv connect args a after
  unfolding recovery_main
  recovery_main-Recovered getenv connect args a after done =
      elim (Bool-cases args.acknowledge_replay_risk) [
        | inl acknowledged ↦
            after_url getenv connect args a after (recovery_database_url getenv) acknowledged refl
              (rw acknowledged at done)
        | inr silent ↦ absurd (not_printed (rw silent at done))
      ]
    where
      not_printed :
          ◌≡◌ {A = Result RedriveAuthorization × Option Store}
            (err Error.system_exit, none)
            (ok a, some after)
          → ⊥
      not_printed h = ground arith
