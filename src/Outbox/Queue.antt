-- ===== src/Outbox/Queue.antt =====
-- `enqueue_dispatch` and `outbox_snapshot` of outbox.py.
use energy_flex_trust_platfo.Prelude.{
  ℕ, ◌-◌, String, Bool, true, false, ◌&&◌, Option, none, some, List, [], ◌∷◌, count_where, is_blank,
  leb, if◌then◌else◌,
}
use energy_flex_trust_platfo.Domain.{Error}
use energy_flex_trust_platfo.Datetime.{Datetime, at_or_before}
use energy_flex_trust_platfo.Platform.{Platform}
use energy_flex_trust_platfo.Models.{
  OutboxStatus, pending, processing, published, dead, OutboxMessage, Database,
}
use energy_flex_trust_platfo.Session.{
  Action, pure, ◌>>=◌, ◌>>◌, raise_if, new_id, utc_now, add_outbox_message,
}
use energy_flex_trust_platfo.Ports.{DispatchSignal}
use energy_flex_trust_platfo.Outbox.Payload.{dispatch_topic, dispatch_payload}

abbrev pub same_status : OutboxStatus → OutboxStatus → Bool
same_status pending pending = true
same_status processing processing = true
same_status published published = true
same_status dead dead = true
same_status _ _ = false

module _ ⦃p : Platform⦄ where
  unfoldable pub enqueue_dispatch : DispatchSignal → String → Action OutboxMessage
  enqueue_dispatch signal idempotency_key = do
    raise_if (is_blank idempotency_key) Error.value_error
    id ← new_id
    available_at ← utc_now
    created_at ← utc_now
    updated_at ← utc_now
    let message : OutboxMessage = record {
      id = id;
      topic = dispatch_topic;
      aggregate_id = signal.dispatch_id;
      idempotency_key = idempotency_key;
      payload = dispatch_payload signal;
      status = pending;
      attempts = 0;
      available_at = available_at;
      lease_expires_at = none;
      locked_by = none;
      adapter_reference = none;
      last_error = none;
      published_at = none;
      created_at = created_at;
      updated_at = updated_at;
    }
    add_outbox_message message
    pure message

-- `OutboxSnapshot`; the age is in microseconds.
pub record OutboxSnapshot : Type 0 where
  pub pending_count : ℕ
  pub processing_count : ℕ
  pub published_count : ℕ
  pub dead_count : ℕ
  pub due : ℕ
  pub oldest_pending_age : Option ℕ

abbrev has_status : OutboxStatus → OutboxMessage → Bool
has_status status message = same_status message.status status

-- `func.min(OutboxMessage.created_at)` of the pending messages
unfoldable pub oldest_pending : List OutboxMessage → Option ℕ
oldest_pending [] = none
oldest_pending (m ∷ ms) =
    let rest = oldest_pending ms in
    if same_status m.status pending
    then elim rest [
      | none ↦ some m.created_at.instant
      | some t ↦ some (if leb m.created_at.instant t then m.created_at.instant else t)
    ]
    else rest

-- `max(0.0, ...)` is the subtraction that stops at 0.
abbrev age_at : ℕ → Option ℕ → Option ℕ
age_at now none = none
age_at now (some t) = some (now - t)

unfoldable pub outbox_snapshot : Database → Datetime → OutboxSnapshot
unfolding oldest_pending
outbox_snapshot db now = record {
  pending_count = count_where (has_status pending) db.outbox_messages;
  processing_count = count_where (has_status processing) db.outbox_messages;
  published_count = count_where (has_status published) db.outbox_messages;
  dead_count = count_where (has_status dead) db.outbox_messages;
  due =
      count_where (λ m. has_status pending m && at_or_before m.available_at now) db.outbox_messages;
  oldest_pending_age = age_at now.instant (oldest_pending db.outbox_messages);
}
