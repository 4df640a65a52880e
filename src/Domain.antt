-- ===== src/Domain.antt =====
-- src/energy_flex_trust/domain.py and errors.py: the enumerations, the actor, the role check and
-- the exceptions. A `StrEnum` is a data type; its `.value` is `*_value`.
use energy_flex_trust_platfo.Prelude.{
  ℕ, String, Bool, true, false, Option, none, some, List, any, if◌then◌else◌,
}

pub data AssetType : Type 0 where
  battery ev_charger heat_pump industrial_load : AssetType

pub data AssetStatus : Type 0 where
  active suspended : AssetStatus

pub data FlexDirection : Type 0 where
  increase decrease : FlexDirection

pub data OfferStatus : Type 0 where
  open_offer reserved cancelled : OfferStatus

pub data ReservationStatus : Type 0 where
  reserved dispatch_pending dispatched completed cancelled : ReservationStatus

pub data DispatchStatus : Type 0 where
  queued issued completed rejected : DispatchStatus

pub data ActorRole : Type 0 where
  asset_owner market_operator settlement_analyst auditor recovery_operator system : ActorRole

pub record Actor : Type 0 where
  pub actor_id : String
  pub role : ActorRole

-- What a call can raise. The first four are `DomainError`s of errors.py, `authentication_failed`
-- is that of auth.py; the others are exceptions of Python, of `decimal` and of SQLAlchemy.
pub data Error : Type 0 where
  not_found conflict forbidden invalid_transition authentication_failed : Error
  value_error runtime_error invalid_operation integrity_error data_error publish_error : Error
  attribute_error type_error library_error system_exit : Error

-- `DomainError.status_code`; the others are no `DomainError`.
unfoldable pub status_code : Error → Option ℕ
status_code Error.not_found = some 404
status_code Error.conflict = some 409
status_code Error.forbidden = some 403
status_code Error.invalid_transition = some 409
status_code Error.authentication_failed = some 401
status_code _ = none

-- `DomainError.code`.
unfoldable pub error_code : Error → Option String
error_code Error.not_found = some "not_found"
error_code Error.conflict = some "conflict"
error_code Error.forbidden = some "forbidden"
error_code Error.invalid_transition = some "invalid_transition"
error_code Error.authentication_failed = some "authentication_failed"
error_code _ = none

pub data Result {ℓ} (A : Type ℓ) : Type ℓ where
  ok : A → Result A
  err : Error → Result A

abbrev pub same_role : ActorRole → ActorRole → Bool
same_role asset_owner asset_owner = true
same_role market_operator market_operator = true
same_role settlement_analyst settlement_analyst = true
same_role auditor auditor = true
same_role recovery_operator recovery_operator = true
same_role system system = true
same_role _ _ = false

-- `actor.role in allowed`
abbrev pub has_role : Actor → List ActorRole → Bool
has_role actor allowed = any (same_role actor.role) allowed

unfoldable pub require_role : Actor → List ActorRole → Result (Unit {0})
require_role actor allowed = if has_role actor allowed then ok tt else err Error.forbidden

unfoldable pub asset_type_value : AssetType → String
asset_type_value battery = "battery"
asset_type_value ev_charger = "ev_charger"
asset_type_value heat_pump = "heat_pump"
asset_type_value industrial_load = "industrial_load"

unfoldable pub direction_value : FlexDirection → String
direction_value increase = "increase"
direction_value decrease = "decrease"

unfoldable pub role_value : ActorRole → String
role_value asset_owner = "asset_owner"
role_value market_operator = "market_operator"
role_value settlement_analyst = "settlement_analyst"
role_value auditor = "auditor"
role_value recovery_operator = "recovery_operator"
role_value system = "system"

abbrev pub is_active : AssetStatus → Bool
is_active active = true
is_active suspended = false

abbrev pub is_open : OfferStatus → Bool
is_open open_offer = true
is_open _ = false

abbrev pub is_reserved : ReservationStatus → Bool
is_reserved ReservationStatus.reserved = true
is_reserved _ = false

abbrev pub is_dispatched : ReservationStatus → Bool
is_dispatched dispatched = true
is_dispatched _ = false

abbrev pub is_cancelled : ReservationStatus → Bool
is_cancelled ReservationStatus.cancelled = true
is_cancelled _ = false

abbrev pub is_issued : DispatchStatus → Bool
is_issued issued = true
is_issued _ = false

abbrev pub is_rejected : DispatchStatus → Bool
is_rejected rejected = true
is_rejected _ = false
