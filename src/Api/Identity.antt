-- ===== src/Api/Identity.antt =====
-- Whom the web service believes.
use energy_flex_trust_platfo.Prelude.{
  String, ◌≡◌, inl, inr, refl, subst, true, false, Option, none, some, ◌==◌, ==_iff, Bool-cases,
  arith,
}
use energy_flex_trust_platfo.Domain.{Actor, Error, Result, ok, err}
use energy_flex_trust_platfo.Config.{Settings, is_development, validate_runtime}
use energy_flex_trust_platfo.Config.Valid.{Runs, validate_runtime-Runs}
use energy_flex_trust_platfo.Auth.{Jwt}
use energy_flex_trust_platfo.Auth.Trust.{Verified, verify_oidc_actor-Verified}
use energy_flex_trust_platfo.Startup.Database.{starts_with, Engine, Store}
use energy_flex_trust_platfo.Api.{
  Headers, bearer_token, oidc_config, with_store, with_valid, create_app, oidc_actor, get_actor,
}

kept_settings :
    (s kept : Settings) (r : Result Store) (store : Store)
    → with_store s r ≡ ok (kept, store)
    → s ≡ kept
kept_settings s kept (ok opened) store h = ground arith
kept_settings s kept (err e) store h = absurd (ground arith)

valid_settings :
    (connect : Engine → Store) (s kept : Settings) (r : Result (Unit {0})) (store : Store)
    → validate_runtime s ≡ r
    → with_valid connect s r ≡ ok (kept, store)
    → validate_runtime kept ≡ ok tt
valid_settings connect s kept (ok tt) store valid h =
    subst (λ t. validate_runtime t ≡ ok tt) (kept_settings s kept _ store h) valid
valid_settings connect s kept (err e) store valid h = absurd (ground arith)

requires_oidc :
    (s : Settings) → Runs s → is_development s.environment ≡ false → s.auth_mode ≡ "oidc"
requires_oidc s runs production = ground (
  arith,
  runs.outside,
  runs.known_mode,
  ==_iff s.environment "development",
  ==_iff s.environment "test",
)

module _ {Key : Type 0} (jwt : Jwt Key) where
  -- What stands behind the actor of a request.
  pub record Believed (s : Settings) (headers : Headers) (actor : Actor) : Type 0 where
    pub authorization : String
    pub sent : headers.authorization ≡ some authorization
    pub is_bearer : starts_with "Bearer " authorization ≡ true
    pub verified : Verified jwt (bearer_token authorization) (oidc_config s) actor

  oidc_actor-Believed :
      (s : Settings) (headers : Headers) (actor : Actor) (o : Option String)
      → headers.authorization ≡ o
      → oidc_actor jwt s o ≡ ok actor
      → Believed s headers actor
  oidc_actor-Believed s headers actor none sent h = absurd (ground arith)
  oidc_actor-Believed s headers actor (some authorization) sent h =
      elim (Bool-cases (starts_with "Bearer " authorization)) [
        | inr other ↦ absurd (refused (rw other at h))
        | inl is_bearer ↦ elim (Bool-cases (bearer_token authorization == "")) [
          | inl empty ↦ absurd (refused (rw (is_bearer, empty) at h))
          | inr token ↦ record {
            authorization = authorization;
            sent = sent;
            is_bearer = is_bearer;
            verified =
                verify_oidc_actor-Verified jwt (bearer_token authorization) (oidc_config s) actor
                  (rw (is_bearer, token) at h);
          }
        ]
      ]
    where
      refused : ◌≡◌ {A = Result Actor} (err Error.authentication_failed) (ok actor) → ⊥
      refused h = ground arith

  -- Outside of development and test, an application that has started believes only a verified access
  -- token: the actor of a request is the one that verify_oidc_actor has found in the Bearer token of
  -- its Authorization header, with the configured issuer, audience and keys. The development headers
  -- have no effect.
  pub production_actor-Believed :
      (getenv : String → Option String) (connect : Engine → Store) (settings : Option Settings)
      (s : Settings) (store : Store) (headers : Headers) (actor : Actor)
      → create_app getenv connect settings ≡ ok (s, store)
      → is_development s.environment ≡ false
      → get_actor jwt s headers ≡ ok actor
      → Believed s headers actor
  unfolding create_app get_actor
  production_actor-Believed getenv connect settings s store headers actor started production found =
      let valid = valid_settings connect _ s _ store refl started in
      let oidc = requires_oidc s ((validate_runtime-Runs s).0 valid) production in
      let mode = (==_iff s.auth_mode "oidc").1 oidc in
      oidc_actor-Believed s headers actor headers.authorization refl (rw mode at found)
