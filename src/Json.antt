-- ===== src/Json.antt =====
-- The values that the program hands to `canonical_json`, and the JSON documents that these become.
use energy_flex_trust_platfo.Prelude.{ℕ, String, Bool, List, [], ◌∷◌}
use energy_flex_trust_platfo.Datetime.{Datetime}
use energy_flex_trust_platfo.Decimal.{Decimal}

-- A JSON document: what `json.loads` returns, and what a JSON column holds.
mutual
  pub data Json : Type 0 where
    null : Json
    bool : Bool → Json
    num : ℕ → Json
    str : String → Json
    arr : Items → Json
    obj : Fields → Json

  pub data Items : Type 0 where
    nil : Items
    cons : Json → Items → Items

  pub data Fields : Type 0 where
    end : Fields
    field : String → Json → Fields → Fields

-- One entry of a payload that service.py, outbox.py or redrive.py writes.
pub data Value : Type 0 where
  text : String → Value
  number : ℕ → Value
  flag : Bool → Value
  decimal : Decimal → Value
  moment : Datetime → Value
  texts : List String → Value
  document : Json → Value

abbrev pub Payload : Type 0
Payload = List (String × Value)

abbrev pub texts_items : List String → Items
texts_items [] = nil
texts_items (t ∷ ts) = cons (str t) (texts_items ts)
