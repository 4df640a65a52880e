-- ===== src/Auth.antt =====
-- src/energy_flex_trust/auth.py: the actor of an OIDC access token. PyJWT is a parameter.
pub mod Rules
pub mod Trust
pub mod Roles
use energy_flex_trust_platfo.Prelude.{
  String, Bool, true, false, not, ◌||◌, ◌&&◌, Option, none, some, List, [], ◌∷◌, ◌==◌, is_blank,
  if◌then◌else◌,
}
use energy_flex_trust_platfo.Domain.{
  Actor, ActorRole, asset_owner, market_operator, settlement_analyst, auditor, recovery_operator,
  system, Error, Result, ok, err,
}
use energy_flex_trust_platfo.Json.{Json, null, str, arr, obj, Items, nil, cons, Fields, end, field}

-- How a call of a library ends: an answer, an exception that the `try` block around the call
-- catches, or another one.
pub data Called (A : Type 0) : Type 0 where
  answered : A → Called A
  refused failed : Called A

pub record DecodeRequest (Key : Type 0) : Type 0 where
  pub token : String
  pub key : Key
  pub algorithms : List String
  pub audience : String
  pub issuer : String
  pub require : List String

pub record Jwt (Key : Type 0) : Type 0 where
  -- `json.loads`; `none` is `json.JSONDecodeError`
  pub loads : String → Option Json
  -- `jwt.get_unverified_header`
  pub get_unverified_header : String → Called Fields
  -- `PyJWK.from_dict(key_data, algorithm=algorithm).key`
  pub from_dict : Fields → String → Called Key
  -- `jwt.decode`
  pub decode : DecodeRequest Key → Called Fields

pub record OidcVerifierConfig : Type 0 where
  pub issuer : String
  pub audience : String
  pub jwks_json : String
  pub role_claim : String
  pub subject_claim : String

-- `not text`
abbrev pub is_empty : String → Bool
is_empty s = s == ""

-- `OidcVerifierConfig.validate`
unfoldable pub validate : OidcVerifierConfig → Result (Unit {0})
validate c =
    if is_empty c.issuer || is_empty c.audience || is_empty c.jwks_json
    then err Error.value_error
    else if is_empty c.role_claim || is_empty c.subject_claim
    then err Error.value_error
    else ok tt

-- `mapping.get(name)`; a name that is missing gives `None`.
unfoldable pub get_field : String → Fields → Json
get_field name end = null
get_field name (field k v rest) = let later = get_field name rest in if k == name then v else later

abbrev pub Keys : Type 0
Keys = List (String × Fields)

-- `indexed.get(kid)`, and `kid in indexed`
unfoldable pub find_key : String → Keys → Option Fields
find_key kid [] = none
find_key kid ((k, key) ∷ rest) =
    let later = find_key kid rest in if k == kid then some key else later

abbrev pub is_known : Option Fields → Bool
is_known none = false
is_known (some key) = true

module _ {A B : Type 0} where
  infixl 5 ◌>>=◌
  unfoldable pub ◌>>=◌ : Result A → (A → Result B) → Result B
  ok a >>= k = k a
  err e >>= k = err e

abbrev pub check : Bool → Error → Result (Unit {0})
check true e = ok tt
check false e = err e

-- `isinstance(value, str)` and not empty.
unfoldable pub non_empty_text : Json → Result String
non_empty_text (str s) = if is_empty s then err Error.authentication_failed else ok s
non_empty_text _ = err Error.authentication_failed

unfoldable pub key_fields : Json → Result Fields
key_fields (obj key) = ok key
key_fields _ = err Error.authentication_failed

-- One round of the loop of `_load_keys`; `indexed` has the keys so far.
unfoldable pub index_key : Keys → Json → Result Keys
index_key indexed item = do
  key ← key_fields item
  kid ← non_empty_text (get_field "kid" key)
  _ ← check (not (is_known (find_key kid indexed))) Error.authentication_failed
  ok ((kid, key) ∷ indexed)

-- The loop of `_load_keys`.
unfoldable pub index_keys : Keys → Items → Result Keys
index_keys indexed nil = ok indexed
index_keys indexed (cons item rest) = index_key indexed item >>= λ more. index_keys more rest

-- `keys` of the document.
unfoldable pub keys_of : Json → Result Items
keys_of (arr (cons item rest)) = ok (cons item rest)
keys_of _ = err Error.authentication_failed

-- `document.get` of a document that is no object raises `AttributeError`.
unfoldable pub document_keys : Option Json → Result Keys
document_keys none = err Error.authentication_failed
document_keys (some (obj document)) = do
  items ← keys_of (get_field "keys" document)
  index_keys [] items
document_keys (some _) = err Error.attribute_error

-- `ActorRole(text)`
unfoldable pub actor_role : String → Result ActorRole
actor_role s =
    if s == "asset_owner"
    then ok asset_owner
    else if s == "market_operator"
    then ok market_operator
    else if s == "settlement_analyst"
    then ok settlement_analyst
    else if s == "auditor"
    then ok auditor
    else if s == "recovery_operator"
    then ok recovery_operator
    else if s == "system"
    then ok system
    else err Error.authentication_failed

-- `_resolve_role`
unfoldable pub resolve_role : Json → Result ActorRole
resolve_role (str s) = actor_role s
resolve_role (arr (cons (str s) nil)) = actor_role s
resolve_role _ = err Error.authentication_failed

-- `algorithm not in ALLOWED_ALGORITHMS`; the test of an array or an object raises `TypeError`.
unfoldable pub allowed_algorithm : Json → Result String
allowed_algorithm (str s) =
    if s == "RS256" || s == "ES256" then ok s else err Error.authentication_failed
allowed_algorithm (arr _) = err Error.type_error
allowed_algorithm (obj _) = err Error.type_error
allowed_algorithm _ = err Error.authentication_failed

-- `key_data.get("alg") in (None, algorithm)`
unfoldable pub algorithm_matches : Json → String → Bool
algorithm_matches null algorithm = true
algorithm_matches (str s) algorithm = s == algorithm
algorithm_matches _ algorithm = false

-- `isinstance(subject, str)` and not blank.
unfoldable pub subject_text : Json → Result String
subject_text (str s) = if is_blank s then err Error.authentication_failed else ok s
subject_text _ = err Error.authentication_failed

abbrev pub trusted : Option Fields → Result Fields
trusted none = err Error.authentication_failed
trusted (some key) = ok key

-- A call in one of the two `try` blocks.
abbrev pub attempt : {A : Type 0} → Called A → Result A
attempt (answered a) = ok a
attempt refused = err Error.authentication_failed
attempt failed = err Error.library_error

module _ {Key : Type 0} (jwt : Jwt Key) where
  -- `_load_keys`
  unfoldable pub load_keys : String → Result Keys
  load_keys jwks_json = document_keys (jwt.loads jwks_json)

  abbrev pub decode_request : String → OidcVerifierConfig → String → Key → DecodeRequest Key
  decode_request token config algorithm key = record {
    token = token;
    key = key;
    algorithms = algorithm ∷ [];
    audience = config.audience;
    issuer = config.issuer;
    require = "exp" ∷ "iat" ∷ config.subject_claim ∷ config.role_claim ∷ [];
  }

  unfoldable pub verify_oidc_actor : String → OidcVerifierConfig → Result Actor
  verify_oidc_actor token config = do
    _ ← validate config
    header ← attempt (jwt.get_unverified_header token)
    algorithm ← allowed_algorithm (get_field "alg" header)
    kid ← non_empty_text (get_field "kid" header)
    keys ← load_keys config.jwks_json
    key_data ← trusted (find_key kid keys)
    _ ← check (algorithm_matches (get_field "alg" key_data) algorithm) Error.authentication_failed
    key ← attempt (jwt.from_dict key_data algorithm)
    claims ← attempt (jwt.decode (decode_request token config algorithm key))
    subject ← subject_text (get_field config.subject_claim claims)
    role ← resolve_role (get_field config.role_claim claims)
    ok (record { actor_id = subject; role = role })
