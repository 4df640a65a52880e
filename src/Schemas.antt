-- ===== src/Schemas.antt =====
-- src/energy_flex_trust/schemas.py: the commands of the API and the validation of each. Texts,
-- decimals and datetimes come from pydantic already parsed.
pub mod Read
use Prim.Native.String.{count}
use energy_flex_trust_platfo.Prelude.{ℕ, ◌^◌, String, Bool, ◌&&◌, ◌||◌, leb, ltb, if◌then◌else◌}
use energy_flex_trust_platfo.Domain.{AssetType, FlexDirection, Error, Result, ok, err}
use energy_flex_trust_platfo.Datetime.{Datetime, at_or_before, is_naive}
use energy_flex_trust_platfo.Decimal.{Decimal}

pub record AssetCreate : Type 0 where
  pub external_id : String
  pub owner_id : String
  pub asset_type : AssetType
  pub capacity_kw : Decimal
  pub location_code : String

pub record OfferCreate : Type 0 where
  pub asset_id : String
  pub window_start : Datetime
  pub window_end : Datetime
  pub direction : FlexDirection
  pub quantity_kw : Decimal
  pub price_per_kwh : Decimal

pub record ReservationCreate : Type 0 where
  pub quantity_kw : Decimal

pub record DispatchCreate : Type 0 where
  pub target_kw : Decimal
  pub starts_at : Datetime
  pub ends_at : Datetime

pub record MeterReadingCreate : Type 0 where
  pub asset_id : String
  pub interval_start : Datetime
  pub interval_end : Datetime
  pub energy_kwh : Decimal
  pub source : String

-- `Field(min_length=lo, max_length=hi)`
abbrev has_length : ℕ → ℕ → String → Bool
has_length lo hi s = leb lo (count s) && leb (count s) hi

-- `Field(max_digits=18, decimal_places=6)`
abbrev is_numeric : Decimal → Bool
is_numeric d = leb d.scale 6 && ltb d.coefficient (10 ^ 18)

-- `Field(gt=0, ...)`
abbrev is_positive : Decimal → Bool
is_positive d = ltb 0 d.coefficient && is_numeric d

-- The three `model_validator`s: both ends carry a time zone, and the window is not empty.
abbrev pub check_window : {A : Type 0} → Datetime → Datetime → A → Result A
check_window first last command =
    if is_naive first || is_naive last
    then err Error.value_error
    else if at_or_before last first
    then err Error.value_error
    else ok command

unfoldable pub validate_asset : AssetCreate → Result AssetCreate
validate_asset command =
    if has_length 3 100 command.external_id
      && has_length 3 100 command.owner_id
      && is_positive command.capacity_kw
      && has_length 2 80 command.location_code
    then ok command
    else err Error.value_error

unfoldable pub validate_offer : OfferCreate → Result OfferCreate
validate_offer command =
    if is_positive command.quantity_kw && is_numeric command.price_per_kwh
    then check_window command.window_start command.window_end command
    else err Error.value_error

unfoldable pub validate_reservation : ReservationCreate → Result ReservationCreate
validate_reservation command =
    if is_positive command.quantity_kw then ok command else err Error.value_error

unfoldable pub validate_dispatch : DispatchCreate → Result DispatchCreate
validate_dispatch command =
    if is_positive command.target_kw
    then check_window command.starts_at command.ends_at command
    else err Error.value_error

unfoldable pub validate_meter_reading : MeterReadingCreate → Result MeterReadingCreate
validate_meter_reading command =
    if is_numeric command.energy_kwh && has_length 2 100 command.source
    then check_window command.interval_start command.interval_end command
    else err Error.value_error
