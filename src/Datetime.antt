-- ===== src/Datetime.antt =====
-- Python's `datetime` as the program uses it: an instant in microseconds, and where it was read.
-- A naive value counts as a reading of UTC, as `replace(tzinfo=UTC)` makes it.
use energy_flex_trust_platfo.Prelude.{ℕ, ◌+◌, ◌*◌, Bool, true, false, leb, ltb}

-- A fixed offset from UTC, in seconds east or west.
pub data Zone : Type 0 where
  naive utc : Zone
  east west : ℕ → Zone

pub record Datetime : Type 0 where
  pub instant : ℕ
  pub zone : Zone

-- `_as_utc`, `CoordinationService._utc`: both branches keep the instant.
abbrev pub as_utc : Datetime → Datetime
as_utc value = record value { zone = utc }

abbrev pub is_naive : Datetime → Bool
is_naive value = elim value.zone [ naive ↦ true | _ ↦ false ]

-- `a <= b` and `a < b` of two values in one convention.
abbrev pub at_or_before : Datetime → Datetime → Bool
at_or_before a b = leb a.instant b.instant

abbrev pub earlier : Datetime → Datetime → Bool
earlier a b = ltb a.instant b.instant

-- `value + timedelta(seconds=n)`
abbrev pub add_seconds : Datetime → ℕ → Datetime
add_seconds value n = record value { instant = value.instant + n * 1000000 }
