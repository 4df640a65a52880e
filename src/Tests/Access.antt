-- ===== src/Tests/Access.antt =====
-- The theorems on the web service, access tokens, the OpenADR publisher.

use energy_flex_trust_platfo.Prelude.{
  ℕ, String, ◌≡◌, ◌⊎◌, refl, none, some, [], ◌∷◌, ◌==◌, if◌then◌else◌,
}
use energy_flex_trust_platfo.Domain.{
  Actor, asset_owner, auditor, require_role, status_code, error_code,
}
use energy_flex_trust_platfo.Json.{str, arr, obj, cons, nil, end, field}
use energy_flex_trust_platfo.Session.{◌>>=◌, lift}
use energy_flex_trust_platfo.Ports.{returned, DispatchSignal}
use energy_flex_trust_platfo.Openadr.{
  OpenAdr3, Calls, recording_post_event, event_document, contract_publisher,
}
use energy_flex_trust_platfo.Openadr.Order.{Posted, contract_publisher-Posted}
use energy_flex_trust_platfo.Auth.{
  answered, refused, Jwt, OidcVerifierConfig, verify_oidc_actor, ◌>>=◌ as auth_bind, validate,
  get_field, find_key, non_empty_text, key_fields, index_key, index_keys, keys_of, document_keys,
  actor_role, resolve_role, allowed_algorithm, algorithm_matches, subject_text, load_keys,
}
use energy_flex_trust_platfo.Auth.Trust.{Verified, verify_oidc_actor-Verified}
use energy_flex_trust_platfo.Config.{Settings, validate_runtime}
use energy_flex_trust_platfo.Startup.Database.{
  starts_with, strip, strip_left, strip_right, Store, expected_tables, verify_managed_schema,
  initialize_database, expected_schema_revision,
}
use energy_flex_trust_platfo.Api.{
  Headers, register_asset_call, outbox_health, remove_prefix, create_app, get_actor, endpoint,
  handle, domain_error_handler, respond,
}
use energy_flex_trust_platfo.Api.Effects.{respond-Step}
use energy_flex_trust_platfo.Api.Problems.{respond-problem}
use energy_flex_trust_platfo.Api.Identity.{Believed, production_actor-Believed}
use energy_flex_trust_platfo.System.{empty_database, fresh_state, moved, Step}
use energy_flex_trust_platfo.Tests.Sample.{sample_platform, at, kw, asset_command}
use energy_flex_trust_platfo.Prelude.Tests.{is_blank}

-- A provider with one key and one token.
abbrev jwt : Jwt String
jwt = record {
  loads = λ s. some (
      obj (
        field "keys" (arr (cons (obj (field "kid" (str "k1") (field "alg" (str "RS256") end))) nil))
          end));
  get_unverified_header = λ token.
      if token == "abc"
      then answered (field "alg" (str "RS256") (field "kid" (str "k1") end))
      else refused;
  from_dict = λ key algorithm. answered "key";
  decode =
      λ request. answered (field "sub" (str "ada") (field "energy_flex_role" (str "auditor") end));
}

abbrev ada : Actor
ada = record { actor_id = "ada"; role = auditor }

abbrev production : Settings
production = record {
  database_url = "postgresql+psycopg://db";
  environment = "production";
  auth_mode = "oidc";
  oidc_issuer = "issuer";
  oidc_audience = "audience";
  oidc_jwks_json = "jwks";
  oidc_role_claim = "energy_flex_role";
  oidc_subject_claim = "sub";
}

abbrev development : Settings
development = record production { environment = "development"; auth_mode = "development_headers" }

abbrev config : OidcVerifierConfig
config = record {
  issuer = "issuer";
  audience = "audience";
  jwks_json = "jwks";
  role_claim = "energy_flex_role";
  subject_claim = "sub";
}

abbrev managed : Store
managed = record {
  table_names = "alembic_version" ∷ expected_tables;
  revision = some expected_schema_revision;
  world = fresh_state.world;
}

verify_oidc_actor-Verified_example : Verified jwt "abc" config ada
unfolding validate get_field find_key auth_bind non_empty_text key_fields index_key index_keys
    keys_of document_keys actor_role resolve_role allowed_algorithm algorithm_matches subject_text
    load_keys verify_oidc_actor is_blank
verify_oidc_actor-Verified_example = verify_oidc_actor-Verified jwt "abc" config ada refl

abbrev bearer : Headers
bearer = record { authorization = some "Bearer abc"; actor_id = none; actor_role = none }

abbrev asserted : Headers
asserted = record { authorization = none; actor_id = some "owner"; actor_role = some asset_owner }

production_actor-Believed_example : Believed jwt production bearer ada
unfolding validate get_field find_key auth_bind non_empty_text key_fields index_key index_keys
    keys_of document_keys actor_role resolve_role allowed_algorithm algorithm_matches subject_text
    load_keys verify_oidc_actor is_blank create_app get_actor validate_runtime verify_managed_schema
    initialize_database starts_with strip strip_left strip_right remove_prefix
production_actor-Believed_example =
    production_actor-Believed jwt (λ name. none) (λ engine. managed) (some production) production
      managed bearer ada refl refl refl

respond-Step_example :
    ((respond jwt development (register_asset_call asset_command) asserted fresh_state.world).1.db
      ≡ empty_database)
    ⊎ Step fresh_state (
        moved fresh_state
          (respond jwt development
            (register_asset_call asset_command)
            asserted
            fresh_state.world).1)
respond-Step_example =
    respond-Step jwt development fresh_state (register_asset_call asset_command) asserted

abbrev status : ℕ
status = 403

respond-problem_example :
    (empty_database ≡ empty_database)
    × ((status ≡ 401) ⊎ (status ≡ 403) ⊎ (status ≡ 404) ⊎ (status ≡ 409))
unfolding respond handle endpoint get_actor domain_error_handler status_code error_code require_role
    ◌>>=◌ lift
respond-problem_example =
    respond-problem jwt development outbox_health asserted fresh_state.world fresh_state.world
      status (record { code = "forbidden" }) refl

abbrev signal : DispatchSignal
signal = record {
  dispatch_id = "d1";
  asset_external_id = "battery-1";
  target_kw = kw;
  starts_at = at 1;
  ends_at = at 2;
}

abbrev adapter : OpenAdr3 Calls
adapter = record {
  map_dispatch =
      λ signal calls. (returned (obj (field "event" (str signal.dispatch_id) end)), calls);
  validate_event = λ document calls. (returned tt, calls);
  post_event = recording_post_event;
}

contract_publisher-Posted_example :
    Posted adapter signal "k1" [] ((field "event" (str "d1") end, "k1") ∷ []) "openadr-fixture:k1"
unfolding contract_publisher event_document recording_post_event is_blank
contract_publisher-Posted_example =
    contract_publisher-Posted adapter signal "k1" [] ((field "event" (str "d1") end, "k1") ∷ [])
      "openadr-fixture:k1" refl
