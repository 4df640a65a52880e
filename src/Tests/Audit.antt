-- ===== src/Tests/Audit.antt =====
-- The theorems on the audit log.
use energy_flex_trust_platfo.Prelude.{
  suc, String, length, ◌≡◌, refl, true, ◌↔◌, ◌⊎◌, [], ◌∷◌, map, none, ◌==◌, if◌then◌else◌,
}
use energy_flex_trust_platfo.Json.{Json, str, obj, Fields, end, field}
use energy_flex_trust_platfo.Platform.{Platform}
use energy_flex_trust_platfo.Models.{AuditEvent, Database}
use energy_flex_trust_platfo.Domain.{Error, err}
use energy_flex_trust_platfo.Models.Width.{audit_event_fits}
use energy_flex_trust_platfo.Session.{◌>>=◌, new_id, utc_now, add_audit_event}
use energy_flex_trust_platfo.Audit.Defs.{
  genesis_hash, ascending, json_fields, canonical_json, sha256_json, audit_hash_material,
  calculate_event_hash, append_event, verify_chain,
}
use energy_flex_trust_platfo.Audit.Chain.{
  IsChained, verify_chain-IsChained, append_event-verify_chain,
}
use energy_flex_trust_platfo.Audit.Tamper.{hashed_text, Collision, head_fixes_history}
use energy_flex_trust_platfo.System.{empty_database, fresh_state}
use energy_flex_trust_platfo.Tests.Sample.{sample_platform, tag, at}

abbrev pub event : AuditEvent
event = record {
  sequence = 1;
  event_id = tag 0;
  aggregate_type = "asset";
  aggregate_id = tag 1;
  event_type = "asset.registered";
  actor_id = "owner";
  correlation_id = tag 2;
  payload = str ";";
  previous_hash = genesis_hash;
  event_hash = "";
  occurred_at = at 0;
}

abbrev hashed : AuditEvent
hashed = record event { event_hash = calculate_event_hash event }

abbrev logged : Database
logged = record empty_database { audit_events = hashed ∷ [] }

append_event-verify_chain_example : verify_chain logged ≡ record {
  valid = true;
  event_count = suc (verify_chain empty_database).event_count;
  head_hash = hashed.event_hash;
  broken_sequence = none;
}
unfolding append_event add_audit_event new_id utc_now ◌>>=◌ calculate_event_hash sha256_json
    audit_hash_material canonical_json json_fields verify_chain
append_event-verify_chain_example =
    append_event-verify_chain "asset" (tag 1) "asset.registered" "owner" (tag 2) []
      fresh_state.world (record { db = logged; drawn = 1; ticks = 1 }) hashed refl refl

-- A database that enforces the widths of its columns.
abbrev strict_platform : Platform
strict_platform = record sample_platform { sha256 = λ s. "h"; enforces_widths = true }

wide_event :
    (append_event ⦃p = strict_platform⦄ "asset" "a" "asset.registered" "owner"
      (tag 120)
      []
      fresh_state.world).0
    ≡ err Error.data_error
unfolding append_event add_audit_event new_id utc_now ◌>>=◌ calculate_event_hash sha256_json
    audit_hash_material canonical_json json_fields audit_event_fits
wide_event = refl

narrow_event :
    length
      (append_event ⦃p = strict_platform⦄ "asset" "a" "asset.registered" "owner"
        (tag 99)
        []
        fresh_state.world).1.db.audit_events
    ≡ 1
unfolding append_event add_audit_event new_id utc_now ◌>>=◌ calculate_event_hash sha256_json
    audit_hash_material canonical_json json_fields audit_event_fits
narrow_event = refl

verify_chain-IsChained_example :
    ((verify_chain logged).valid ≡ true) ↔ IsChained genesis_hash (ascending logged.audit_events)
verify_chain-IsChained_example = verify_chain-IsChained logged

-- A rendering that keeps the link of an event and drops the rest.
abbrev pub previous_of : Fields → String
previous_of end = ""
previous_of (field k v rest) =
    let others = previous_of rest in
    if k == "previous_hash" then (elim v [ str s ↦ s | _ ↦ "" ]) else others

abbrev pub link_of : Json → String
link_of (obj fs) = previous_of fs
link_of _ = ""

abbrev pub link_platform : Platform
link_platform = record sample_platform { dumps = link_of }

abbrev pub linked_log : Database
linked_log = record empty_database {
  audit_events = record event { event_hash = genesis_hash } ∷ [];
}

head_fixes_history_example :
    (map (hashed_text ⦃p = link_platform⦄) (ascending linked_log.audit_events)
      ≡ map (hashed_text ⦃p = link_platform⦄) (ascending linked_log.audit_events))
    ⊎ Collision ⦃p = link_platform⦄
unfolding verify_chain calculate_event_hash sha256_json audit_hash_material canonical_json
    json_fields
head_fixes_history_example =
    head_fixes_history ⦃p = link_platform⦄ (λ e f same. same) linked_log linked_log refl refl refl
      refl
