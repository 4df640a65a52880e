-- ===== src/Tests/Delivery.antt =====
-- The theorems on the worker, the payload of a message and the re-drive.
use Prim.Native.Nat.{min}
use Prim.Native.String
use energy_flex_trust_platfo.Audit.Defs.{
  append_event, calculate_event_hash, sha256_json, canonical_json, audit_hash_material, json_fields,
}
use energy_flex_trust_platfo.Models.Table.{get}
use energy_flex_trust_platfo.Prelude.{
  suc, arith, ◌≡◌, refl, false, some, [], ◌∷◌, ◌≤◌, ◌<◌, ◌+◌, ◌*◌, ◌^◌,
}
use energy_flex_trust_platfo.Tests.Sample.{
  sample_platform, tag, at, kw, settings, claimed, message_row, recoverer, waiting, dead_world,
}
use energy_flex_trust_platfo.Domain.{ok, require_role, recovery_operator}
use energy_flex_trust_platfo.Models.{pending, OutboxMessage, outbox_message_row}
use energy_flex_trust_platfo.Session.{World, ◌>>=◌, new_id, utc_now, add_audit_event}
use energy_flex_trust_platfo.Ports.{DispatchSignal, returned, raised}
use energy_flex_trust_platfo.Decimal.{
  Decimal, settlement_amount, multiply, fit_context, quantize, rescale, drop_digits,
}
use energy_flex_trust_platfo.Redrive.{authorize_dead_dispatch_redrive, normalize_reason, redrive}
use energy_flex_trust_platfo.Outbox.Worker.{
  Settings, ClaimedMessage, claimed_at, claim_one, record_success, record_failure, is_claimable,
  retry_delay, claim_order, next_claimable, claim,
}
use energy_flex_trust_platfo.Outbox.Payload.{dispatch_signal, dispatch_payload}
use energy_flex_trust_platfo.Guarantees.Worker.{
  Leased, Rearmed, lost_lease-changes_nothing, claim_one-exclusive,
  authorize_dead_dispatch_redrive-Rearmed,
}
use energy_flex_trust_platfo.Guarantees.Codec.{
  without_version, with_version, dispatch_signal-dispatch_payload,
}
use energy_flex_trust_platfo.Guarantees.Rounding.{settlement_amount-bounds, retry_delay-bounds}

abbrev signal : DispatchSignal
signal = record {
  dispatch_id = tag 9;
  asset_external_id = "battery-1";
  target_kw = kw;
  starts_at = at 1;
  ends_at = at 1;
}

abbrev amount : Decimal
amount = record { coefficient = 2; scale = 6 }

-- The lease of `claimed` has run out, and another worker claims the message.
abbrev expired : World
expired = record {
  db = record waiting.db {
    outbox_messages = claimed_at settings (at 20) claimed.claim_token message_row ∷ [];
  };
  drawn = 30;
  ticks = 40000000;
}

abbrev successor : Settings
successor = record settings { worker_id = "v" }

abbrev reclaimed : ClaimedMessage
reclaimed = record claimed { attempts = 2; claim_token = String.◌++◌ "v:" (tag 30) }

abbrev taken_over : World
taken_over = (claim_one successor expired).1

lost_lease-changes_nothing_example :
    (record_success settings claimed "r" taken_over
      ≡ (ok false, record taken_over { ticks = suc taken_over.ticks }))
    × (record_failure settings claimed "E" "x" taken_over
        ≡ (ok false, record taken_over { ticks = suc taken_over.ticks }))
unfolding get is_claimable claim_order next_claimable claim claim_one ◌>>=◌ new_id utc_now
lost_lease-changes_nothing_example =
    lost_lease-changes_nothing settings successor claimed reclaimed "r" "E" "x" expired taken_over
      (record { messages = (refl, tt); dispatches = (refl, tt) }) refl refl (λ e. cc e)

claim_one-exclusive_example :
    (m : OutboxMessage) × (get (tag 10) (claim_one settings waiting).1.db.outbox_messages ≡ some m)
    × (m.locked_by ≡ some claimed.claim_token)
    × (m.attempts ≡ 1)
    × (is_claimable (at 30) m ≡ false)
    × Leased settings (at 20) waiting.db (claim_one settings waiting).1.db claimed
unfolding get is_claimable claim_order next_claimable claim claim_one ◌>>=◌ new_id utc_now
claim_one-exclusive_example =
    claim_one-exclusive settings waiting (claim_one settings waiting).1 claimed (at 30)
      (record { messages = (refl, tt); dispatches = (refl, tt) }) refl (omega arith)

authorize_dead_dispatch_redrive-Rearmed_example :
    (require_role recoverer (recovery_operator ∷ []) ≡ ok tt)
    × Rearmed
        (tag 10)
        (tag 9)
        dead_world
        (authorize_dead_dispatch_redrive recoverer
          (tag 10)
          (tag 9)
          "the adapter is back"
          dead_world).1.db
        (record {
          message_id = tag 10;
          dispatch_id = tag 9;
          idempotency_key = "k2";
          previous_attempts = 3;
          status = pending;
        })
unfolding get require_role normalize_reason redrive authorize_dead_dispatch_redrive ◌>>=◌ utc_now
    new_id append_event calculate_event_hash sha256_json canonical_json audit_hash_material
    json_fields add_audit_event
authorize_dead_dispatch_redrive-Rearmed_example =
    authorize_dead_dispatch_redrive-Rearmed recoverer (tag 10) (tag 9) "the adapter is back"
      dead_world
      (authorize_dead_dispatch_redrive recoverer (tag 10) (tag 9) "the adapter is back"
        dead_world).1
      _ refl

dispatch_signal-dispatch_payload_example :
    (dispatch_signal (dispatch_payload signal) ≡ returned signal)
    × (dispatch_signal (without_version (dispatch_payload signal)) ≡ returned signal)
    × (dispatch_signal (with_version "v2" (dispatch_payload signal))
        ≡ raised "ValueError" "Dispatch outbox payload version is unsupported.")
dispatch_signal-dispatch_payload_example =
    dispatch_signal-dispatch_payload signal "v2" refl refl refl (λ e. cc e)

settlement_amount-bounds_example :
    (amount.scale ≡ 6)
    × (2 * (10 ^ 1 * amount.coefficient) ≤ 2 * 15 + 10 ^ 1)
    × (2 * 15 < 2 * (10 ^ 1 * amount.coefficient) + 10 ^ 1)
unfolding settlement_amount multiply fit_context quantize rescale drop_digits
settlement_amount-bounds_example =
    settlement_amount-bounds (record { coefficient = 3; scale = 4 })
      (record { coefficient = 5; scale = 3 }) amount (omega arith) (omega arith) refl

retry_delay-bounds_example :
    (retry_delay settings 1 ≡ 2)
    × (retry_delay settings 6 ≡ min (2 * retry_delay settings 5) 60)
    × (2 ≤ retry_delay settings 4)
    × (retry_delay settings 4 ≤ 60)
retry_delay-bounds_example = retry_delay-bounds settings 4 (omega arith)
