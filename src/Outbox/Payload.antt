-- ===== src/Outbox/Payload.antt =====
-- `dispatch_payload` and `dispatch_signal` of outbox.py.
use Prim.Native.String
use energy_flex_trust_platfo.Prelude.{
  String, Bool, true, false, ◌&&◌, Option, none, some, List, [], ◌∷◌, any, ◌==◌, if◌then◌else◌,
}
use energy_flex_trust_platfo.Datetime.{Datetime, as_utc}
use energy_flex_trust_platfo.Decimal.{Decimal}
use energy_flex_trust_platfo.Json.{Json, str}
use energy_flex_trust_platfo.Platform.{Platform}
use energy_flex_trust_platfo.Ports.{DispatchSignal, Attempt, returned, raised}

abbrev pub dispatch_topic : String
dispatch_topic = "dispatch.publish"

abbrev pub dispatch_payload_version : String
dispatch_payload_version = "energy-flex-dispatch.v1"

-- A `dict[str, object]` that a JSON column holds.
abbrev pub Document : Type 0
Document = List (String × Json)

abbrev pub legacy_dispatch_fields : List String
legacy_dispatch_fields =
    "dispatch_id" ∷ "asset_external_id" ∷ "target_kw" ∷ "starts_at" ∷ "ends_at" ∷ []

abbrev pub versioned_dispatch_fields : List String
versioned_dispatch_fields = "schema_version" ∷ legacy_dispatch_fields

-- `payload.get(name)`
abbrev pub member : String → Document → Option Json
member name [] = none
member name ((k, v) ∷ rest) = if k == name then some v else member name rest

abbrev pub all_in : List String → List String → Bool
all_in [] names = true
all_in (x ∷ xs) names = any (λ n. n == x) names && all_in xs names

abbrev pub names_of : Document → List String
names_of [] = []
names_of ((k, v) ∷ rest) = k ∷ names_of rest

-- `frozenset(payload) == names`
abbrev pub has_fields : List String → Document → Bool
has_fields names payload = all_in (names_of payload) names && all_in names (names_of payload)

-- `payload.get("schema_version") != DISPATCH_PAYLOAD_VERSION`
abbrev pub is_current_version : Option Json → Bool
is_current_version (some (str version)) = version == dispatch_payload_version
is_current_version _ = false

module _ ⦃p : Platform⦄ where
  unfoldable pub dispatch_payload : DispatchSignal → Document
  dispatch_payload signal =
      ("schema_version", str dispatch_payload_version)
      ∷ ("dispatch_id", str signal.dispatch_id)
      ∷ ("asset_external_id", str signal.asset_external_id)
      ∷ ("target_kw", str (p.format_f signal.target_kw))
      ∷ ("starts_at", str (p.isoformat (as_utc signal.starts_at)))
      ∷ ("ends_at", str (p.isoformat (as_utc signal.ends_at)))
      ∷ []

  -- `str(value)`
  abbrev pub text_of : Json → String
  text_of (str s) = s
  text_of j = p.show j

  -- `str(payload[name])`; the member is there once the shape is checked.
  abbrev pub text_member : String → Document → String
  text_member name payload = elim (member name payload) [ none ↦ "" | some v ↦ text_of v ]

  abbrev raise_invalid_isoformat : String → Attempt DispatchSignal
  raise_invalid_isoformat text =
      raised "ValueError" (String.◌++◌ "Invalid isoformat string: " (p.quote text))

  abbrev pub build_signal :
      String
      → String
      → String
      → String
      → Option Decimal
      → Option Datetime
      → Option Datetime
      → Attempt DispatchSignal
  build_signal dispatch_id asset_external_id starts ends none starts_at ends_at =
      raised "InvalidOperation" "[<class 'decimal.ConversionSyntax'>]"
  build_signal dispatch_id asset_external_id starts ends (some target_kw) none ends_at =
      raise_invalid_isoformat starts
  build_signal dispatch_id asset_external_id starts ends (some target_kw) (some starts_at) none =
      raise_invalid_isoformat ends
  build_signal dispatch_id asset_external_id starts ends (some target_kw) (some starts_at)
        (some ends_at) =
      returned (record {
        dispatch_id = dispatch_id;
        asset_external_id = asset_external_id;
        target_kw = target_kw;
        starts_at = starts_at;
        ends_at = ends_at;
      })

  -- The `return` of `dispatch_signal`.
  unfoldable pub restore_signal : Document → Attempt DispatchSignal
  restore_signal payload =
      build_signal (text_member "dispatch_id" payload) (text_member "asset_external_id" payload)
        (text_member "starts_at" payload) (text_member "ends_at" payload)
        (p.parse_decimal (text_member "target_kw" payload))
        (p.fromisoformat (text_member "starts_at" payload))
        (p.fromisoformat (text_member "ends_at" payload))

  unfoldable pub dispatch_signal : Document → Attempt DispatchSignal
  unfolding restore_signal
  dispatch_signal payload =
      if has_fields versioned_dispatch_fields payload
      then if is_current_version (member "schema_version" payload)
        then restore_signal payload
        else raised "ValueError" "Dispatch outbox payload version is unsupported."
      else if has_fields legacy_dispatch_fields payload
      then restore_signal payload
      else raised "ValueError" "Dispatch outbox payload has an unexpected shape."
