-- ===== src/Tests/Worker.antt =====
-- The theorems on how a run of the worker ends.
use energy_flex_trust_platfo.Prelude.{◌≡◌, refl, ◌≤◌, arith, false, some, [], ◌∷◌}
use energy_flex_trust_platfo.Tests.Sample.{
  sample_platform, tag, at, settings, claimed, waiting, message_row,
}
use energy_flex_trust_platfo.Models.{OutboxMessage, outbox_message_row}
use energy_flex_trust_platfo.Models.Table.{get, update}
use energy_flex_trust_platfo.Session.{World, new_id, utc_now, ◌>>=◌, begin, add_audit_event}
use energy_flex_trust_platfo.Audit.Defs.{
  append_event, calculate_event_hash, sha256_json, canonical_json, audit_hash_material, json_fields,
}
use energy_flex_trust_platfo.Prelude.Tests.{is_blank}
use energy_flex_trust_platfo.Ports.{noop_publisher}
use energy_flex_trust_platfo.Outbox.Payload.{dispatch_payload, dispatch_signal}
use energy_flex_trust_platfo.Outbox.Worker.{
  OutboxRunResult, claimed_at, is_claimable, claim_order, next_claimable, claim, claim_one,
  finalize, record_success, note_failure, record_failure, retry_later, retry_delay, error_text,
  attempt_publish, record_attempt, round, run_rounds, run_once, Run,
}
use energy_flex_trust_platfo.Guarantees.Drain.{Drained, run_once-bounds, run_once-Drained}
use energy_flex_trust_platfo.Guarantees.Backoff.{Failed, record_failure-Failed}

abbrev one_published : OutboxRunResult
one_published = record { attempted = 1; published_count = 1; retried = 0; dead_count = 0 }

abbrev ran : Run settings (noop_publisher {S = Unit {0}})
ran = run_once settings noop_publisher 10 waiting tt

run_once-bounds_example : (1 ≤ 10) × (1 ≤ 1)
unfolding is_blank get update is_claimable claim_order next_claimable claim claim_one ◌>>=◌ new_id
    utc_now begin attempt_publish dispatch_signal dispatch_payload noop_publisher record_attempt
    record_success finalize append_event add_audit_event calculate_event_hash sha256_json
    canonical_json audit_hash_material json_fields round run_rounds run_once
run_once-bounds_example =
    run_once-bounds settings noop_publisher 10 waiting tt one_published ran.1 tt refl

run_once-Drained_example : Drained settings (noop_publisher {S = Unit {0}}) ran.1
unfolding is_blank get update is_claimable claim_order next_claimable claim claim_one ◌>>=◌ new_id
    utc_now begin attempt_publish dispatch_signal dispatch_payload noop_publisher record_attempt
    record_success finalize append_event add_audit_event calculate_event_hash sha256_json
    canonical_json audit_hash_material json_fields round run_rounds run_once
run_once-Drained_example =
    run_once-Drained settings noop_publisher 10 waiting tt one_published ran.1 tt refl (omega arith)

-- The message as a claim has left it.
abbrev leased_row : OutboxMessage
leased_row = claimed_at settings (at 20) claimed.claim_token message_row

abbrev leased_world : World
leased_world = record waiting { db = record waiting.db { outbox_messages = leased_row ∷ [] } }

record_failure-Failed_example :
    (row : OutboxMessage) × (get
        (tag 10)
        (record_failure settings claimed "E" "x" leased_world).1.db.outbox_messages
      ≡ some row)
    × Failed settings (at 20) (error_text "E" "x") leased_row false row
unfolding get update retry_delay retry_later note_failure record_failure ◌>>=◌ utc_now begin
record_failure-Failed_example =
    record_failure-Failed settings claimed "E" "x" leased_world
      (record_failure settings claimed "E" "x" leased_world).1 leased_row false refl refl refl
