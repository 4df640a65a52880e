-- ===== src/Auth/Trust.antt =====
-- What a verified access token shows.
use energy_flex_trust_platfo.Prelude.{String, ◌≡◌, ◌⊎◌, false, some, [], ◌∷◌, is_blank}
use energy_flex_trust_platfo.Domain.{Actor, ok, role_value}
use energy_flex_trust_platfo.Json.{null, str, arr, nil, cons, Fields}
use energy_flex_trust_platfo.Auth.{
  answered, Jwt, OidcVerifierConfig, validate, get_field, Keys, find_key, document_keys, load_keys,
  verify_oidc_actor,
}
use energy_flex_trust_platfo.Auth.Roles.{resolve_role_lem}
use energy_flex_trust_platfo.Auth.Rules.{
  IfOk, IfOk-elim, IfOk-ok, IfOk-bind, IsIndexed, non_empty_text-str, document_keys-IsIndexed,
  attempt-answered, check-true, trusted-some, allowed_algorithm-str, algorithm_matches-cases,
  subject_text-str,
}

module _ {Key : Type 0} (jwt : Jwt Key) where
  -- What `verify_oidc_actor` has found in a token and in its configuration.
  pub record Verified (token : String) (config : OidcVerifierConfig) (actor : Actor) : Type 0 where
    pub configured : validate config ≡ ok tt
    pub header : Fields
    pub has_header : jwt.get_unverified_header token ≡ answered header
    pub algorithm : String
    pub names_algorithm : get_field "alg" header ≡ str algorithm
    pub allowed : (algorithm ≡ "RS256") ⊎ (algorithm ≡ "ES256")
    pub kid : String
    pub names_key : get_field "kid" header ≡ str kid
    pub keys : Keys
    pub configured_keys : load_keys jwt config.jwks_json ≡ ok keys
    pub key_data : Fields
    pub trusted_key : find_key kid keys ≡ some key_data
    pub own_kid : get_field "kid" key_data ≡ str kid
    pub same_algorithm :
        (get_field "alg" key_data ≡ null) ⊎ (get_field "alg" key_data ≡ str algorithm)
    pub key : Key
    pub loaded : jwt.from_dict key_data algorithm ≡ answered key
    pub claims : Fields
    pub decoded :
        jwt.decode (record {
          token = token;
          key = key;
          algorithms = algorithm ∷ [];
          audience = config.audience;
          issuer = config.issuer;
          require = "exp" ∷ "iat" ∷ config.subject_claim ∷ config.role_claim ∷ [];
        })
        ≡ answered claims
    pub subject : get_field config.subject_claim claims ≡ str actor.actor_id
    pub named : is_blank actor.actor_id ≡ false
    pub has_role :
        (get_field config.role_claim claims ≡ str (role_value actor.role))
        ⊎ (get_field config.role_claim claims ≡ arr (cons (str (role_value actor.role)) nil))

  load_keys-IsIndexed :
      (jwks_json : String) (keys : Keys) → load_keys jwt jwks_json ≡ ok keys → IsIndexed keys
  unfolding load_keys
  load_keys-IsIndexed jwks_json keys h =
      IfOk-elim IsIndexed (document_keys (jwt.loads jwks_json)) keys (document_keys-IsIndexed _) h

  own_key :
      (keys : Keys) (kid : String) (key : Fields)
      → IsIndexed keys
      → find_key kid keys ≡ some key
      → get_field "kid" key ≡ str kid
  unfolding IsIndexed
  own_key keys kid key h found = h kid key found

  verify_oidc_actor-IfOk :
      (token : String) (config : OidcVerifierConfig)
      → IfOk (Verified token config) (verify_oidc_actor jwt token config)
  unfolding verify_oidc_actor
  verify_oidc_actor-IfOk token config = IfOk-bind _ _ _ λ u configured.
      IfOk-bind _ _ _ λ header has_header. IfOk-bind _ _ _ λ algorithm is_algorithm.
        IfOk-bind _ _ _ λ kid is_kid. IfOk-bind _ _ _ λ keys configured_keys.
          IfOk-bind _ _ _ λ key_data is_trusted. IfOk-bind _ _ _ λ v matches.
            IfOk-bind _ _ _ λ key loaded. IfOk-bind _ _ _ λ claims decoded.
              IfOk-bind _ _ _ λ subject is_subject. IfOk-bind _ _ _ λ role is_role. IfOk-ok _ _ (
                let (names_algorithm, allowed) = allowed_algorithm-str _ algorithm is_algorithm in
                let (says, named) = subject_text-str _ subject is_subject in
                let found = trusted-some _ key_data is_trusted in
                record {
                  configured = configured;
                  header = header;
                  has_header = attempt-answered _ header has_header;
                  algorithm = algorithm;
                  names_algorithm = names_algorithm;
                  allowed = allowed;
                  kid = kid;
                  names_key = non_empty_text-str _ kid is_kid;
                  keys = keys;
                  configured_keys = configured_keys;
                  key_data = key_data;
                  trusted_key = found;
                  own_kid =
                      own_key keys kid key_data
                        (load_keys-IsIndexed config.jwks_json keys configured_keys) found;
                  same_algorithm = algorithm_matches-cases _ algorithm (check-true _ _ v matches);
                  key = key;
                  loaded = attempt-answered _ key loaded;
                  claims = claims;
                  decoded = attempt-answered _ claims decoded;
                  subject = says;
                  named = named;
                  has_role = (resolve_role_lem _ role).0 is_role;
                })

  -- An actor that `verify_oidc_actor` returns comes from a token that names RS256 or ES256 and a
  -- key identifier of the configured JWKS, whose key carries that identifier and does not name
  -- another algorithm. The token was decoded with this key, this one algorithm and the configured
  -- audience and issuer, with all required claims; its subject is the actor's identifier, which is
  -- not blank, and its role claim is the text of the actor's role or a list of this one text. The configuration was complete.
  pub verify_oidc_actor-Verified :
      (token : String) (config : OidcVerifierConfig) (actor : Actor)
      → verify_oidc_actor jwt token config ≡ ok actor
      → Verified token config actor
  verify_oidc_actor-Verified token config actor done =
      IfOk-elim (Verified token config) (verify_oidc_actor jwt token config) actor
        (verify_oidc_actor-IfOk token config) done
