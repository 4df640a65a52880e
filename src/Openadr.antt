-- ===== src/Openadr.antt =====
-- src/energy_flex_trust/openadr.py: the publisher that validates an OpenADR 3 event before it is
-- sent. Mapper, validator and transport are supplied by the operator; each may raise.
pub mod Order
use Prim.Native.String
use energy_flex_trust_platfo.Prelude.{
  String, Bool, true, false, List, [], ◌∷◌, ◌++◌, is_blank, if◌then◌else◌,
}
use energy_flex_trust_platfo.Json.{Json, obj, Fields, end, field}
use energy_flex_trust_platfo.Ports.{DispatchSignal, Publisher, Attempt, returned, raised}

-- `OpenAdr3EventMapper.map_dispatch`, `OpenAdr3SchemaValidator.validate_event` and
-- `OpenAdr3Transport.post_event`, with their state.
pub record OpenAdr3 (S : Type 0) : Type 0 where
  pub map_dispatch : DispatchSignal → S → Attempt Json × S
  pub validate_event : Fields → S → Attempt (Unit {0}) × S
  pub post_event : Fields → String → S → Attempt String × S

-- `RecordingOpenAdr3Transport`; its state is the calls so far.
abbrev pub Calls : Type 0
Calls = List (Fields × String)

unfoldable pub recording_post_event : Fields → String → Calls → Attempt String × Calls
recording_post_event document idempotency_key calls = (
  returned (String.◌++◌ "openadr-fixture:" idempotency_key),
  calls ++ (document, idempotency_key) ∷ [],
)

-- `isinstance(document, dict)` and not empty.
unfoldable pub event_document : Json → Attempt Fields
event_document (obj (field k v rest)) = returned (field k v rest)
event_document _ = raised "ValueError" "OpenADR mapper returned an empty event document."

module _ {S A B : Type 0} where
  -- An exception ends the call.
  abbrev pub continue : Attempt A × S → (A → S → Attempt B × S) → Attempt B × S
  continue (raised type_name exc, s) k = (raised type_name exc, s)
  continue (returned a, s) k = k a s

module _ {S : Type 0} (adapter : OpenAdr3 S) where
  -- `OpenAdr3ContractPublisher.publish`
  unfoldable pub contract_publisher : Publisher S
  unfolding event_document
  contract_publisher signal idempotency_key s =
      if is_blank idempotency_key
      then (raised "ValueError" "OpenADR transport idempotency key cannot be blank.", s)
      else continue (adapter.map_dispatch signal s) λ mapped s1.
        continue (event_document mapped, s1)
          λ document s2.
            continue (adapter.validate_event document s2)
              λ u s3. adapter.post_event document idempotency_key s3
