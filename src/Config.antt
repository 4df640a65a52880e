-- ===== src/Config.antt =====
-- src/energy_flex_trust/config.py: the settings of a process and their check.
pub mod Valid
use energy_flex_trust_platfo.Prelude.{
  String, Bool, true, false, not, ◌||◌, ◌&&◌, Option, none, some, ◌==◌, if◌then◌else◌,
}
use energy_flex_trust_platfo.Domain.{Error, Result, ok, err}

pub record Settings : Type 0 where
  pub database_url : String
  pub environment : String
  pub auth_mode : String
  pub oidc_issuer : String
  pub oidc_audience : String
  pub oidc_jwks_json : String
  pub oidc_role_claim : String
  pub oidc_subject_claim : String

-- `environment in {"development", "test"}`, also `SAFE_NOOP_ENVIRONMENTS` of worker.py.
abbrev pub is_development : String → Bool
is_development environment = environment == "development" || environment == "test"

-- `Settings.validate_runtime`
unfoldable pub validate_runtime : Settings → Result (Unit {0})
validate_runtime s =
    if not (s.auth_mode == "development_headers" || s.auth_mode == "oidc")
    then err Error.value_error
    else if not (is_development s.environment) && not (s.auth_mode == "oidc")
    then err Error.value_error
    else if s.auth_mode == "oidc"
        && (s.oidc_issuer == "" || s.oidc_audience == "" || s.oidc_jwks_json == "")
    then err Error.value_error
    else ok tt

-- `os.getenv(name, default)`
abbrev pub getenv_or : (String → Option String) → String → String → String
getenv_or getenv name default = elim (getenv name) [ none ↦ default | some value ↦ value ]

-- `Settings.from_environment`
unfoldable pub from_environment : (String → Option String) → Settings
from_environment getenv = record {
  database_url = getenv_or getenv "DATABASE_URL" "sqlite:///./energy_flex_trust.db";
  environment = getenv_or getenv "APP_ENV" "development";
  auth_mode = getenv_or getenv "AUTH_MODE" "development_headers";
  oidc_issuer = getenv_or getenv "OIDC_ISSUER" "";
  oidc_audience = getenv_or getenv "OIDC_AUDIENCE" "";
  oidc_jwks_json = getenv_or getenv "OIDC_JWKS_JSON" "";
  oidc_role_claim = getenv_or getenv "OIDC_ROLE_CLAIM" "energy_flex_role";
  oidc_subject_claim = getenv_or getenv "OIDC_SUBJECT_CLAIM" "sub";
}

-- `settings or Settings.from_environment()`
abbrev pub settings_or_environment : (String → Option String) → Option Settings → Settings
settings_or_environment getenv none = from_environment getenv
settings_or_environment getenv (some s) = s
