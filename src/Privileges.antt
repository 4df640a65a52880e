-- ===== src/Privileges.antt =====
-- scripts/verify_db_privileges.py: the grants of the roles in a deployed database.
pub mod Matrix
use Prim.Native.String
use energy_flex_trust_platfo.Prelude.{
  ℕ, String, Bool, true, false, not, ◌&&◌, Option, none, some, List, [], ◌∷◌, ◌++◌, ◌==◌, note,
  if◌then◌else◌,
}
use energy_flex_trust_platfo.Domain.{Error, Result, ok, err}
use energy_flex_trust_platfo.Auth.{◌>>=◌}

pub record RoleExpectation : Type 0 where
  pub role : String
  pub password : String
  pub grants : List (String × String)
  pub denies : List (String × String)

-- `EXPECTATIONS`
abbrev pub expectations : List RoleExpectation
expectations =
    record {
      role = "flextrust_api";
      password = "api-ci-only";
      grants = ("assets", "SELECT") ∷ ("outbox_messages", "INSERT") ∷ [];
      denies = ("assets", "DELETE") ∷ ("public", "CREATE") ∷ [];
    }
    ∷ record {
      role = "flextrust_worker";
      password = "worker-ci-only";
      grants = ("outbox_messages", "UPDATE") ∷ ("audit_events", "INSERT") ∷ [];
      denies = ("assets", "INSERT") ∷ ("settlements", "INSERT") ∷ [];
    }
    ∷ record {
      role = "flextrust_recovery";
      password = "recovery-ci-only";
      grants = ("outbox_messages", "UPDATE") ∷ ("audit_events", "INSERT") ∷ [];
      denies = ("assets", "UPDATE") ∷ ("settlements", "INSERT") ∷ [];
    }
    ∷ record {
      role = "flextrust_auditor";
      password = "auditor-ci-only";
      grants = ("assets", "SELECT") ∷ ("alembic_version", "SELECT") ∷ [];
      denies = ("assets", "UPDATE") ∷ ("audit_events", "INSERT") ∷ [];
    }
    ∷ []

-- `bool(...)` of a scalar, which is None when there is no row.
abbrev pub truth : Option Bool → Bool
truth none = false
truth (some b) = b

-- `if failures: raise RuntimeError("; ".join(failures))`
abbrev pub report : List String → Result (Unit {0})
report [] = ok tt
report (failure ∷ rest) = err Error.runtime_error

abbrev joined : List String → String
joined [] = ""
joined (part ∷ rest) = String.◌++◌ part (joined rest)

-- A scalar query of the server, with its parameters.
module _ {Connection : Type 0}
    (scalar : Connection → String → List (String × String) → Result (Option Bool)) where
  -- `_has_table_privilege`
  abbrev pub has_table_privilege : Connection → (table privilege : String) → Result Bool
  has_table_privilege connection table privilege = do
    found ←
        scalar connection "SELECT has_table_privilege(current_user, :table, :privilege)"
          (("table", table) ∷ ("privilege", privilege) ∷ [])
    ok (truth found)

  -- `_has_schema_create`
  abbrev pub has_schema_create : Connection → Result Bool
  has_schema_create connection = do
    found ← scalar connection "SELECT has_schema_privilege(current_user, 'public', 'CREATE')" []
    ok (truth found)

  abbrev pub observed : Connection → (resource privilege : String) → Result Bool
  observed connection resource privilege =
      if resource == "public" && privilege == "CREATE"
      then has_schema_create connection
      else has_table_privilege connection resource privilege

  -- The loop on the grants of a role.
  unfoldable pub check_grants :
      Connection → String → List (String × String) → List String → Result (List String)
  check_grants connection role [] failures = ok failures
  check_grants connection role ((resource, privilege) ∷ rest) failures = do
    held ← has_table_privilege connection resource privilege
    check_grants connection role rest
        (note held (joined (role ∷ " missing " ∷ privilege ∷ " on " ∷ resource ∷ [])) failures)

  -- The loop on what a role is denied.
  unfoldable pub check_denies :
      Connection → String → List (String × String) → List String → Result (List String)
  check_denies connection role [] failures = ok failures
  check_denies connection role ((resource, privilege) ∷ rest) failures = do
    held ← observed connection resource privilege
    check_denies connection role rest (
        note (not held) (joined (role ∷ " unexpectedly has " ∷ privilege ∷ " on " ∷ resource ∷ []))
          failures)

  -- Connecting to a URL, and Python's text of a number.
  module _ (connect : String → Result Connection) (decimal_text : ℕ → String) where
    abbrev pub role_url : (host : String) (port : ℕ) (database : String) → RoleExpectation → String
    role_url host port database e = joined (
        "postgresql+psycopg://"
        ∷ e.role
        ∷ ":"
        ∷ e.password
        ∷ "@"
        ∷ host
        ∷ ":"
        ∷ decimal_text port
        ∷ "/"
        ∷ database
        ∷ [])

    -- The loop on the roles.
    unfoldable pub check_roles :
        (host : String) (port : ℕ) (database : String)
        → List RoleExpectation
        → List String
        → Result (List String)
    check_roles host port database [] failures = ok failures
    check_roles host port database (e ∷ rest) failures = do
      connection ← connect (role_url host port database e)
      missing ← check_grants connection e.role e.grants failures
      found ← check_denies connection e.role e.denies missing
      check_roles host port database rest found

    -- `verify`
    unfoldable pub verify : (host : String) (port : ℕ) (database : String) → Result (Unit {0})
    verify host port database = do
      failures ← check_roles host port database expectations []
      report failures
