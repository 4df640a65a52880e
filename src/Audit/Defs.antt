-- ===== src/Audit/Defs.antt =====
-- src/energy_flex_trust/audit.py: canonical JSON, the hash of an event, the append and the check of
-- the chain.
use energy_flex_trust_platfo.Prelude.{
  ℕ, String, Bool, true, false, not, ◌||◌, Option, none, some, List, [], ◌∷◌, length, last?,
  order_by, leb, ◌==◌, if◌then◌else◌,
}
use energy_flex_trust_platfo.Datetime.{as_utc}
use energy_flex_trust_platfo.Json.{
  Json, num, str, arr, obj, Fields, end, field, Value, text, number, flag, decimal, moment, texts,
  document, Payload, texts_items,
}
use energy_flex_trust_platfo.Platform.{Platform}
use energy_flex_trust_platfo.Models.{AuditEvent, Database}
use energy_flex_trust_platfo.Session.{
  Action, pure, query, ◌>>=◌, ◌>>◌, new_id, utc_now, add_audit_event,
}

-- `GENESIS_HASH`: 64 zeros.
abbrev pub genesis_hash : String
genesis_hash = "0000000000000000000000000000000000000000000000000000000000000000"

pub record AuditVerification : Type 0 where
  pub valid : Bool
  pub event_count : ℕ
  pub head_hash : String
  pub broken_sequence : Option ℕ

abbrev pub sequence_order : AuditEvent → AuditEvent → Bool
sequence_order a b = leb a.sequence b.sequence

-- `select(AuditEvent).order_by(AuditEvent.sequence.asc())`
abbrev pub ascending : List AuditEvent → List AuditEvent
ascending = order_by sequence_order

-- `order_by(AuditEvent.sequence.desc()).limit(1)`; the sequence is the primary key.
abbrev pub latest_event : List AuditEvent → Option AuditEvent
latest_event events = last? (ascending events)

abbrev pub previous_hash_of : Option AuditEvent → String
previous_hash_of none = genesis_hash
previous_hash_of (some latest) = latest.event_hash

abbrev pub last_sequence : Option AuditEvent → ℕ
last_sequence none = 0
last_sequence (some latest) = latest.sequence

module _ ⦃p : Platform⦄ where
  -- `_json_default` on the values that `json.dumps` does not know, and the others as they are.
  unfoldable pub json_value : Value → Json
  json_value (text s) = str s
  json_value (number n) = num n
  json_value (flag b) = Json.bool b
  json_value (decimal d) = str (p.format_f d)
  json_value (moment m) = str (p.isoformat (as_utc m))
  json_value (texts ts) = arr (texts_items ts)
  json_value (document j) = j

  unfoldable pub json_fields : Payload → Fields
  unfolding json_value
  json_fields [] = end
  json_fields ((k, v) ∷ rest) = field k (json_value v) (json_fields rest)

  unfoldable pub canonical_json : Payload → String
  canonical_json value = p.dumps (obj (json_fields value))

  unfoldable pub sha256_json : Payload → String
  sha256_json value = p.sha256 (canonical_json value)

  unfoldable pub audit_hash_material : AuditEvent → Payload
  audit_hash_material event =
      ("event_id", text event.event_id)
      ∷ ("aggregate_type", text event.aggregate_type)
      ∷ ("aggregate_id", text event.aggregate_id)
      ∷ ("event_type", text event.event_type)
      ∷ ("actor_id", text event.actor_id)
      ∷ ("correlation_id", text event.correlation_id)
      ∷ ("payload", document event.payload)
      ∷ ("occurred_at", text (p.isoformat (as_utc event.occurred_at)))
      ∷ ("previous_hash", text event.previous_hash)
      ∷ []

  unfoldable pub calculate_event_hash : AuditEvent → String
  calculate_event_hash event = sha256_json (audit_hash_material event)

  unfoldable pub append_event :
      (aggregate_type aggregate_id event_type actor_id correlation_id : String)
      → Payload
      → Action AuditEvent
  append_event aggregate_type aggregate_id event_type actor_id correlation_id payload = do
    latest ← query (λ db. latest_event db.audit_events)
    event_id ← new_id
    occurred_at ← utc_now
    let event : AuditEvent = record {
      sequence = p.next_sequence (last_sequence latest);
      event_id = event_id;
      aggregate_type = aggregate_type;
      aggregate_id = aggregate_id;
      event_type = event_type;
      actor_id = actor_id;
      correlation_id = correlation_id;
      payload = p.loads (canonical_json payload);
      previous_hash = previous_hash_of latest;
      event_hash = "";
      occurred_at = occurred_at;
    }
    let hashed : AuditEvent = record event { event_hash = calculate_event_hash event }
    add_audit_event hashed
    pure hashed

  -- The loop of `verify_chain` over the events that are left; `events` are all of them.
  unfoldable pub verify_from : List AuditEvent → String → List AuditEvent → AuditVerification
  verify_from events expected_previous [] = record {
    valid = true;
    event_count = length events;
    head_hash = expected_previous;
    broken_sequence = none;
  }
  verify_from events expected_previous (event ∷ rest) =
      let go_on = verify_from events event.event_hash rest in
      if not (event.previous_hash == expected_previous)
        || not (calculate_event_hash event == event.event_hash)
      then record {
        valid = false;
        event_count = length events;
        head_hash = previous_hash_of (last? events);
        broken_sequence = some event.sequence;
      }
      else go_on

  unfoldable pub verify_chain : Database → AuditVerification
  unfolding verify_from
  verify_chain db = let events = ascending db.audit_events in verify_from events genesis_hash events
