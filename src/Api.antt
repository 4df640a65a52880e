-- ===== src/Api.antt =====
-- src/energy_flex_trust/api.py: the web service. FastAPI parses a request to a route and its
-- arguments; a request that does not parse gets no further than FastAPI.
pub mod Effects
pub mod Problems
pub mod Identity
use Prim.Native.String
use energy_flex_trust_platfo.Prelude.{
  ℕ, String, Bool, true, false, not, Option, none, some, [], ◌∷◌, ◌==◌, if◌then◌else◌,
}
use energy_flex_trust_platfo.Domain.{
  Actor, ActorRole, auditor, market_operator, require_role, Error, Result, ok, err, status_code,
  error_code,
}
use energy_flex_trust_platfo.Datetime.{as_utc}
use energy_flex_trust_platfo.Platform.{Platform}
use energy_flex_trust_platfo.Session.{Action, World, pure, lift, query, ◌>>=◌, ◌>>◌, utc_now}
use energy_flex_trust_platfo.Schemas.{
  AssetCreate, OfferCreate, ReservationCreate, DispatchCreate, MeterReadingCreate,
}
use energy_flex_trust_platfo.Schemas.Read.{
  AssetRead, asset_read, OfferRead, offer_read, ReservationRead, reservation_read, DispatchRead,
  dispatch_read, MeterReadingRead, meter_reading_read, SettlementRead, settlement_read,
  EvidenceRead, evidence_read, AuditVerificationRead, audit_verification_read, OutboxHealthRead,
  outbox_health_read, HealthRead, ErrorRead,
}
use energy_flex_trust_platfo.Outbox.Queue.{outbox_snapshot}
use energy_flex_trust_platfo.Service.Registration.{register_asset, create_offer}
use energy_flex_trust_platfo.Service.Reserve.{reserve_offer}
use energy_flex_trust_platfo.Service.Issue.{issue_dispatch}
use energy_flex_trust_platfo.Service.Metering.{record_meter_reading}
use energy_flex_trust_platfo.Service.Settle.{
  settle_reservation, settlement_evidence, audit_verification,
}
use energy_flex_trust_platfo.Config.{
  Settings, is_development, validate_runtime, settings_or_environment,
}
use energy_flex_trust_platfo.Auth.{Jwt, OidcVerifierConfig, verify_oidc_actor}
use energy_flex_trust_platfo.Startup.Database.{
  starts_with, strip, Engine, build_engine, Store, initialize_database,
}

pub record Headers : Type 0 where
  pub authorization : Option String
  pub actor_id : Option String
  pub actor_role : Option ActorRole

-- The routes and their arguments.
pub data Call : Type 0 where
  health : Call
  register_asset_call : AssetCreate → Call
  create_offer_call : OfferCreate → Call
  reserve_offer_call : (offer_id : String) → ReservationCreate → (idempotency_key : String) → Call
  issue_dispatch_call :
      (reservation_id : String) → DispatchCreate → (idempotency_key : String) → Call
  record_meter_reading_call : MeterReadingCreate → Call
  settle_reservation_call : (reservation_id idempotency_key : String) → Call
  settlement_evidence_call : (settlement_id : String) → Call
  verify_audit outbox_health : Call

pub data Reply : Type 0 where
  health_reply : HealthRead → Reply
  asset_reply : AssetRead → Reply
  offer_reply : OfferRead → Reply
  reservation_reply : ReservationRead → Reply
  dispatch_reply : DispatchRead → Reply
  meter_reading_reply : MeterReadingRead → Reply
  settlement_reply : SettlementRead → Reply
  evidence_reply : EvidenceRead → Reply
  audit_reply : AuditVerificationRead → Reply
  outbox_reply : OutboxHealthRead → Reply

-- A response; `crashed` is an exception that no handler of the application takes.
pub data Response : Type 0 where
  answer : ℕ → Reply → Response
  problem : ℕ → ErrorRead → Response
  crashed : Error → Response

-- `text.removeprefix(prefix)` of a text with that prefix.
unfoldable pub remove_prefix : String → String → String
remove_prefix String.[] s = s
remove_prefix (String.◌∷◌ c p) String.[] = ""
remove_prefix (String.◌∷◌ c p) (String.◌∷◌ d s) = remove_prefix p s

abbrev pub bearer_token : String → String
bearer_token authorization = strip (remove_prefix "Bearer " authorization)

abbrev pub oidc_config : Settings → OidcVerifierConfig
oidc_config settings = record {
  issuer = settings.oidc_issuer;
  audience = settings.oidc_audience;
  jwks_json = settings.oidc_jwks_json;
  role_claim = settings.oidc_role_claim;
  subject_claim = settings.oidc_subject_claim;
}

-- `status_code=` of the routes.
unfoldable pub success_status : Call → ℕ
success_status health = 200
success_status (settlement_evidence_call settlement_id) = 200
success_status verify_audit = 200
success_status outbox_health = 200
success_status _ = 201

-- `domain_error_handler`, for the errors that are `DomainError`s.
abbrev pub problem_of : Error → Option ℕ → Option String → Response
problem_of e (some status) (some code) = problem status (record { code = code })
problem_of e _ _ = crashed e

unfoldable pub domain_error_handler : Error → Response
domain_error_handler e = problem_of e (status_code e) (error_code e)

abbrev pub response_of : Call → Result Reply → Response
response_of call (ok reply) = answer (success_status call) reply
response_of call (err e) = domain_error_handler e

-- `create_app`: the settings that the application keeps, and its database.
abbrev pub with_store : Settings → Result Store → Result (Settings × Store)
with_store s (err e) = err e
with_store s (ok store) = ok (s, store)

abbrev pub with_valid : (Engine → Store) → Settings → Result (Unit {0}) → Result (Settings × Store)
with_valid connect s (err e) = err e
with_valid connect s (ok tt) = with_store s (
    initialize_database (not (is_development s.environment))
      (connect (build_engine s.database_url)))

unfoldable pub create_app :
    (getenv : String → Option String) (connect : Engine → Store) (settings : Option Settings)
    → Result (Settings × Store)
create_app getenv connect settings =
    let s = settings_or_environment getenv settings in with_valid connect s (validate_runtime s)

module _ {Key : Type 0} (jwt : Jwt Key) (settings : Settings) where
  abbrev pub oidc_actor : Option String → Result Actor
  oidc_actor none = err Error.authentication_failed
  oidc_actor (some authorization) =
      if not (starts_with "Bearer " authorization)
      then err Error.authentication_failed
      else if bearer_token authorization == ""
      then err Error.authentication_failed
      else verify_oidc_actor jwt (bearer_token authorization) (oidc_config settings)

  abbrev pub header_actor : Option String → Option ActorRole → Result Actor
  header_actor (some actor_id) (some role) = ok (record { actor_id = actor_id; role = role })
  header_actor _ _ = err Error.authentication_failed

  -- `get_actor`
  unfoldable pub get_actor : Headers → Result Actor
  get_actor headers =
      if settings.auth_mode == "oidc"
      then oidc_actor headers.authorization
      else header_actor headers.actor_id headers.actor_role

  module _ ⦃p : Platform⦄ where
    -- `Model.model_validate(resource)` of what the service returns.
    abbrev pub reply_with : {A B : Type 0} → (A → Result B) → (B → Reply) → A → Action Reply
    reply_with read reply a = do body ← lift (read a); pure (reply body)

    abbrev pub health_endpoint : Action Reply
    health_endpoint = pure (
        health_reply
          (record { status = "ok"; version = "1.0.0"; environment = settings.environment }))

    -- The endpoint functions.
    unfoldable pub endpoint : Call → Actor → Action Reply
    endpoint health actor = health_endpoint
    endpoint (register_asset_call command) actor =
        register_asset command actor >>= reply_with asset_read asset_reply
    endpoint (create_offer_call command) actor =
        create_offer command actor >>= reply_with offer_read offer_reply
    endpoint (reserve_offer_call offer_id command idempotency_key) actor =
        reserve_offer offer_id command actor idempotency_key
        >>= reply_with reservation_read reservation_reply
    endpoint (issue_dispatch_call reservation_id command idempotency_key) actor =
        issue_dispatch reservation_id command actor idempotency_key
        >>= reply_with dispatch_read dispatch_reply
    endpoint (record_meter_reading_call command) actor =
        record_meter_reading command actor >>= reply_with meter_reading_read meter_reading_reply
    endpoint (settle_reservation_call reservation_id idempotency_key) actor =
        settle_reservation reservation_id actor idempotency_key
        >>= reply_with settlement_read settlement_reply
    endpoint (settlement_evidence_call settlement_id) actor =
        settlement_evidence settlement_id actor >>= reply_with evidence_read evidence_reply
    endpoint verify_audit actor =
        audit_verification actor >>= reply_with audit_verification_read audit_reply
    endpoint outbox_health actor = do
      lift (require_role actor (auditor ∷ market_operator ∷ []))
      now ← utc_now
      snapshot ← query (λ db. outbox_snapshot db (as_utc now))
      reply_with outbox_health_read outbox_reply snapshot

    -- `/health` has no actor; the other routes depend on `get_actor`.
    unfoldable pub handle : Call → Headers → Action Reply
    handle health headers = health_endpoint
    handle call headers = do actor ← lift (get_actor headers); endpoint call actor

    abbrev pub responded : Call → Result Reply × World → Response × World
    responded call (result, w) = (response_of call result, w)

    -- One request.
    unfoldable pub respond : Call → Headers → World → Response × World
    respond call headers w = responded call (handle call headers w)
