-- ===== src/Platform.antt =====
-- What the program takes from Python's library, from pydantic and from the database server: time,
-- random identifiers, SHA-256, the JSON and text formats, and the numbering of audit events.
use energy_flex_trust_platfo.Prelude.{ℕ, ◌<◌, String, Bool, Option}
use energy_flex_trust_platfo.Datetime.{Datetime}
use energy_flex_trust_platfo.Decimal.{Decimal}
use energy_flex_trust_platfo.Json.{Json}

pub record Platform : Type 0 where
  -- the n-th `str(uuid4())`
  pub uuid : ℕ → String
  -- the n-th reading of `datetime.now(UTC)`
  pub clock : ℕ → Datetime
  -- `hashlib.sha256(text.encode("utf-8")).hexdigest()`
  pub sha256 : String → String
  -- `json.dumps` with `ensure_ascii=False`, compact separators and `sort_keys=True`
  pub dumps : Json → String
  -- `json.loads` of a text that `dumps` wrote
  pub loads : String → Json
  -- `datetime.isoformat` and `datetime.fromisoformat`
  pub isoformat : Datetime → String
  pub fromisoformat : String → Option Datetime
  -- `format(d, "f")` and `Decimal(text)`
  pub format_f : Decimal → String
  pub parse_decimal : String → Option Decimal
  -- pydantic's `model_dump(mode="json")` of a decimal and of a datetime
  pub dump_decimal : Decimal → String
  pub dump_datetime : Datetime → String
  -- `str(value)` of a JSON value that is no text, and `repr(text)`
  pub show : Json → String
  pub quote : String → String
  -- the value of an autoincrement column after the largest one so far; it grows
  pub next_sequence : ℕ → ℕ
  pub next_sequence_grows : (n : ℕ) → n < next_sequence n
  -- whether the database refuses a value that is too wide for its column: PostgreSQL does, SQLite
  -- does not
  pub enforces_widths : Bool
