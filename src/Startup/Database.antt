-- ===== src/Startup/Database.antt =====
-- src/energy_flex_trust/database.py: the engine and the check of the schema.
use energy_flex_trust_platfo.Prelude.{
  String, Bool, true, false, not, ◌&&◌, ◌||◌, Option, none, some, List, [], ◌∷◌, ◌++◌, any,
  select_where, eqb, is_space, ◌==◌, if◌then◌else◌,
}
use Prim.Native.Char.{code}
use energy_flex_trust_platfo.Domain.{Error, Result, ok, err}
use energy_flex_trust_platfo.Session.{World}

-- `text.startswith(prefix)` and `text.endswith(suffix)`
unfoldable pub starts_with : String → String → Bool
starts_with String.[] s = true
starts_with (String.◌∷◌ c p) String.[] = false
starts_with (String.◌∷◌ c p) (String.◌∷◌ d s) = eqb (code c) (code d) && starts_with p s

unfoldable pub ends_with : String → String → Bool
ends_with suffix String.[] = suffix == ""
ends_with suffix (String.◌∷◌ c s) = suffix == String.◌∷◌ c s || ends_with suffix s

-- `text.strip()`
unfoldable pub strip_left : String → String
strip_left String.[] = ""
strip_left (String.◌∷◌ c s) =
    let rest = strip_left s in if is_space (code c) then rest else String.◌∷◌ c s

unfoldable pub strip_right : String → String
strip_right String.[] = ""
strip_right (String.◌∷◌ c s) =
    let rest = strip_right s in if is_space (code c) && rest == "" then "" else String.◌∷◌ c rest

unfoldable pub strip : String → String
unfolding strip_left strip_right
strip s = strip_left (strip_right s)

-- The arguments that `build_engine` gives to `create_engine`, and the listener on its connections.
pub record Engine : Type 0 where
  pub url : String
  pub pool_pre_ping : Bool
  pub check_same_thread : Bool
  pub static_pool : Bool
  pub foreign_keys_pragma : Bool

unfoldable pub build_engine : String → Engine
unfolding starts_with ends_with
build_engine database_url = record {
  url = database_url;
  pool_pre_ping = true;
  check_same_thread = not (starts_with "sqlite" database_url);
  static_pool = starts_with "sqlite" database_url && ends_with ":memory:" database_url;
  foreign_keys_pragma = starts_with "sqlite" database_url;
}

-- A database: the names of its tables, the row of `alembic_version`, and the rows of the program.
pub record Store : Type 0 where
  pub table_names : List String
  pub revision : Option String
  pub world : World

abbrev pub expected_schema_revision : String
expected_schema_revision = "0002_reliable_outbox"

-- `Base.metadata.tables`
abbrev pub expected_tables : List String
expected_tables =
    "assets" ∷ "flex_offers" ∷ "reservations" ∷ "dispatches" ∷ "outbox_messages" ∷ "meter_readings"
    ∷ "settlements" ∷ "audit_events" ∷ "idempotency_records" ∷ []

abbrev pub has_name : String → List String → Bool
has_name name names = any (λ n. n == name) names

-- `expected - present`
abbrev pub missing_from : List String → List String → List String
missing_from present expected = select_where (λ n. not (has_name n present)) expected

abbrev pub is_none {ℓ} : {A : Type ℓ} → List A → Bool
is_none [] = true
is_none (x ∷ xs) = false

abbrev pub is_revision : Option String → String → Bool
is_revision none expected = false
is_revision (some r) expected = r == expected

-- `_verify_managed_schema`
unfoldable pub verify_managed_schema : Store → Result (Unit {0})
verify_managed_schema store =
    if not (has_name "alembic_version" store.table_names)
    then err Error.runtime_error
    else if not (is_none (missing_from store.table_names expected_tables))
    then err Error.runtime_error
    else if not (is_revision store.revision expected_schema_revision)
    then err Error.runtime_error
    else ok tt

-- `Base.metadata.create_all`: the tables that are missing.
unfoldable pub create_all : Store → Store
create_all store = record store {
  table_names = store.table_names ++ missing_from store.table_names expected_tables;
}

abbrev pub checked_store : Store → Result (Unit {0}) → Result Store
checked_store store (ok tt) = ok store
checked_store store (err e) = err e

-- `initialize_database(engine, managed=managed)`
unfoldable pub initialize_database : Bool → Store → Result Store
unfolding verify_managed_schema create_all
initialize_database true store = checked_store store (verify_managed_schema store)
initialize_database false store = ok (create_all store)
