-- ===== src/Redrive.antt =====
-- src/energy_flex_trust/redrive.py: `authorize_dead_dispatch_redrive`.
use Prim.Native.Char.{code}
use Prim.Native.String
use Prim.Native.String.{count}
use energy_flex_trust_platfo.Prelude.{
  ℕ, String, Bool, true, false, not, ◌&&◌, Option, none, some, [], ◌∷◌, ltb, is_space, ◌==◌,
  if◌then◌else◌,
}
use energy_flex_trust_platfo.Domain.{
  Actor, recovery_operator, require_role, queued, dispatch_pending, is_rejected, is_cancelled,
  Error,
}
use energy_flex_trust_platfo.Json.{text, number, flag}
use energy_flex_trust_platfo.Platform.{Platform}
use energy_flex_trust_platfo.Models.Table.{get}
use energy_flex_trust_platfo.Models.{
  OutboxStatus, pending, dead, OutboxMessage, outbox_message_row, dispatch_row, reservation_row,
}
use energy_flex_trust_platfo.Datetime.{Datetime}
use energy_flex_trust_platfo.Session.{
  Action, pure, lift, query, or_raise, begin, ◌>>=◌, ◌>>◌, raise_if, utc_now,
}
use energy_flex_trust_platfo.Audit.Defs.{append_event}
use energy_flex_trust_platfo.Outbox.Payload.{dispatch_topic}
use energy_flex_trust_platfo.Outbox.Queue.{same_status}
use energy_flex_trust_platfo.Outbox.Worker.{set_message, set_dispatch, set_reservation}

pub record RedriveAuthorization : Type 0 where
  pub message_id : String
  pub dispatch_id : String
  pub idempotency_key : String
  pub previous_attempts : ℕ
  pub status : OutboxStatus

-- `" ".join(text.split())`: `pending_space` says that white space stands before the next word.
words_from : Bool → Bool → String → String
words_from started pending_space String.[] = ""
words_from started pending_space (String.◌∷◌ c s) =
    if is_space (code c)
    then words_from started true s
    else if started && pending_space
    then String.◌++◌ " " (String.◌∷◌ c (words_from true false s))
    else String.◌∷◌ c (words_from true false s)

unfoldable pub normalize_reason : String → String
unfolding words_from
normalize_reason reason = words_from false false reason

-- `message.last_error or ""`
abbrev pub text_or_empty : Option String → String
text_or_empty none = ""
text_or_empty (some t) = t

abbrev pub rearmed_at : Datetime → OutboxMessage → OutboxMessage
rearmed_at now m = record m {
  status = pending;
  attempts = 0;
  available_at = now;
  lease_expires_at = none;
  locked_by = none;
  adapter_reference = none;
  last_error = none;
  published_at = none;
  updated_at = now;
}

module _ ⦃p : Platform⦄ where
  -- The transaction, for a reason that has been normalised.
  unfoldable pub redrive : Actor → String → String → String → Action RedriveAuthorization
  redrive actor message_id dispatch_id reason = do
    message ← query (λ db. get message_id db.outbox_messages)
    m ← or_raise message Error.not_found
    raise_if (not (m.topic == dispatch_topic)) Error.conflict
    raise_if (not (m.aggregate_id == dispatch_id)) Error.conflict
    raise_if (not (same_status m.status dead)) Error.invalid_transition
    dispatch ← query (λ db. get dispatch_id db.dispatches)
    d ← or_raise dispatch Error.not_found
    reservation ← query (λ db. get d.reservation_id db.reservations)
    r ← or_raise reservation Error.not_found
    raise_if (not (is_rejected d.status)) Error.invalid_transition
    raise_if (not (is_cancelled r.status)) Error.invalid_transition
    now ← utc_now
    set_message m.id (rearmed_at now)
    set_dispatch d.id
        (λ x. record x { status = queued; adapter_reference = some (String.◌++◌ "outbox:" m.id) })
    set_reservation r.id (λ x. record x { status = dispatch_pending })
    append_event "dispatch" d.id "dispatch.redrive_authorized" actor.actor_id m.idempotency_key (
        ("outbox_message_id", text m.id)
        ∷ ("reason", text reason)
        ∷ ("previous_attempts", number m.attempts)
        ∷ ("previous_error_sha256", text (p.sha256 (text_or_empty m.last_error)))
        ∷ ("idempotency_key_reused", flag true)
        ∷ [])
    pure (record {
      message_id = m.id;
      dispatch_id = d.id;
      idempotency_key = m.idempotency_key;
      previous_attempts = m.attempts;
      status = pending;
    })

  unfoldable pub authorize_dead_dispatch_redrive :
      Actor → (message_id dispatch_id reason : String) → Action RedriveAuthorization
  authorize_dead_dispatch_redrive actor message_id dispatch_id reason = do
    lift (require_role actor (recovery_operator ∷ []))
    let normalized_reason = normalize_reason reason
    raise_if (ltb (count normalized_reason) 12) Error.value_error
    begin (redrive actor message_id dispatch_id normalized_reason)
