-- ===== src/Config/Valid.antt =====
-- Which settings pass the check.
use energy_flex_trust_platfo.Prelude.{◌≡◌, ◌≢◌, ◌↔◌, ◌⊎◌, ==_iff, arith}
use energy_flex_trust_platfo.Domain.{ok}
use energy_flex_trust_platfo.Config.{Settings, validate_runtime}

-- What `validate_runtime` asks for.
pub record Runs (s : Settings) : Type 0 where
  pub known_mode : (s.auth_mode ≡ "development_headers") ⊎ (s.auth_mode ≡ "oidc")
  pub outside : (s.environment ≡ "development") ⊎ (s.environment ≡ "test") ⊎ (s.auth_mode ≡ "oidc")
  pub configured :
      (s.auth_mode ≢ "oidc")
      ⊎ (s.oidc_issuer ≢ "") × (s.oidc_audience ≢ "") × (s.oidc_jwks_json ≢ "")

-- `validate_runtime` accepts exactly the settings whose mode of authentication is known, is OIDC
-- outside of development and test, and has an issuer, an audience and a key set if it is OIDC.
pub validate_runtime-Runs : (s : Settings) → (validate_runtime s ≡ ok tt) ↔ Runs s
unfolding validate_runtime
validate_runtime-Runs s = (
  λ h. record {
    known_mode =
        ground (arith, ==_iff s.auth_mode "development_headers", ==_iff s.auth_mode "oidc");
    outside = ground (
      arith,
      ==_iff s.auth_mode "oidc",
      ==_iff s.environment "development",
      ==_iff s.environment "test",
    );
    configured = ground (
      arith,
      ==_iff s.auth_mode "oidc",
      ==_iff s.oidc_issuer "",
      ==_iff s.oidc_audience "",
      ==_iff s.oidc_jwks_json "",
    );
  },
  λ r. accepts r.known_mode r.outside r.configured,
)
  where
    accepts :
        (s.auth_mode ≡ "development_headers") ⊎ (s.auth_mode ≡ "oidc")
        → (s.environment ≡ "development") ⊎ (s.environment ≡ "test") ⊎ (s.auth_mode ≡ "oidc")
        → (s.auth_mode ≢ "oidc")
          ⊎ (s.oidc_issuer ≢ "") × (s.oidc_audience ≢ "") × (s.oidc_jwks_json ≢ "")
        → validate_runtime s ≡ ok tt
    accepts a b c = ground (
      arith,
      ==_iff s.auth_mode "development_headers",
      ==_iff s.auth_mode "oidc",
      ==_iff s.environment "development",
      ==_iff s.environment "test",
      ==_iff s.oidc_issuer "",
      ==_iff s.oidc_audience "",
      ==_iff s.oidc_jwks_json "",
    )
