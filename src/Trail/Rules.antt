-- ===== src/Trail/Rules.antt =====
-- One rule for each way in which an operation touches the database.
use energy_flex_trust_platfo.Prelude.{String, ◌≡◌, ap}
use energy_flex_trust_platfo.Domain.{Result, ok, err}
use energy_flex_trust_platfo.Json.{Payload}
use energy_flex_trust_platfo.Platform.{Platform}
use energy_flex_trust_platfo.Models.{
  Asset, FlexOffer, Reservation, Dispatch, MeterReading, Settlement, AuditEvent, IdempotencyRecord,
  OutboxMessage, Database,
}
use energy_flex_trust_platfo.Session.{
  World, write, add_asset, add_flex_offer, add_reservation, add_dispatch, add_meter_reading,
  add_settlement, add_idempotency_record, add_outbox_message,
}
use energy_flex_trust_platfo.Session.Rules.{Keeps, Keeps-write, keeps_rules}
use energy_flex_trust_platfo.Audit.Defs.{AuditVerification, append_event, verify_chain}
use energy_flex_trust_platfo.Audit.Chain.{
  IsVerified, Appended, AppendEnd, append_event-AppendEnd, verify_chain-Appended,
}
use energy_flex_trust_platfo.Ports.{DispatchSignal}
use energy_flex_trust_platfo.Outbox.Queue.{enqueue_dispatch}
use energy_flex_trust_platfo.Service.Common.{store_idempotency}

module _ ⦃p : Platform⦄ where
  -- Writes to the other tables leave the log alone.
  pub write-IsVerified :
      (f : Database → Database)
      → ((db : Database) → (f db).audit_events ≡ db.audit_events)
      → Keeps IsVerified (write f)
  unfolding verify_chain
  write-IsVerified f same = Keeps-write f (λ db h. rw (same db) h)

  Appended-IsVerified :
      (db after : Database) (e : AuditEvent)
      → IsVerified db
      → Appended db e after
      → IsVerified after
  Appended-IsVerified db after e h step =
      ap (λ (v : AuditVerification). v.valid) (verify_chain-Appended db after e h step)

  AppendEnd-IsVerified :
      (w : World) (r : Result AuditEvent × World)
      → IsVerified w.db
      → AppendEnd w r
      → IsVerified r.1.db
  AppendEnd-IsVerified w (ok e, after) h end_of = Appended-IsVerified w.db after.db e h end_of
  AppendEnd-IsVerified w (err x, after) h same = rw same h

  pub append_event-IsVerified :
      (aggregate_type aggregate_id event_type actor_id correlation_id : String) (payload : Payload)
      → Keeps IsVerified
          (append_event aggregate_type aggregate_id event_type actor_id correlation_id payload)
  append_event-IsVerified a b c d e payload = record {
    at = λ w h.
        AppendEnd-IsVerified w (append_event a b c d e payload w) h
          (append_event-AppendEnd a b c d e payload w);
  }

  pub add_asset-IsVerified : (row : Asset) → Keeps IsVerified (add_asset row)
  unfolding add_asset
  add_asset-IsVerified row = search (keeps_rules, write-IsVerified)

  pub add_flex_offer-IsVerified : (row : FlexOffer) → Keeps IsVerified (add_flex_offer row)
  unfolding add_flex_offer
  add_flex_offer-IsVerified row = search (keeps_rules, write-IsVerified)

  pub add_reservation-IsVerified : (row : Reservation) → Keeps IsVerified (add_reservation row)
  unfolding add_reservation
  add_reservation-IsVerified row = search (keeps_rules, write-IsVerified)

  pub add_dispatch-IsVerified : (row : Dispatch) → Keeps IsVerified (add_dispatch row)
  unfolding add_dispatch
  add_dispatch-IsVerified row = search (keeps_rules, write-IsVerified)

  pub add_meter_reading-IsVerified : (row : MeterReading) → Keeps IsVerified (add_meter_reading row)
  unfolding add_meter_reading
  add_meter_reading-IsVerified row = search (keeps_rules, write-IsVerified)

  pub add_settlement-IsVerified : (row : Settlement) → Keeps IsVerified (add_settlement row)
  unfolding add_settlement
  add_settlement-IsVerified row = search (keeps_rules, write-IsVerified)

  pub add_idempotency_record-IsVerified :
      (row : IdempotencyRecord) → Keeps IsVerified (add_idempotency_record row)
  unfolding add_idempotency_record
  add_idempotency_record-IsVerified row = search (keeps_rules, write-IsVerified)

  pub add_outbox_message-IsVerified :
      (row : OutboxMessage) → Keeps IsVerified (add_outbox_message row)
  unfolding add_outbox_message
  add_outbox_message-IsVerified row = search (keeps_rules, write-IsVerified)

  pub store_idempotency-IsVerified :
      (operation key request_hash resource_type resource_id : String)
      → Keeps IsVerified (store_idempotency operation key request_hash resource_type resource_id)
  unfolding store_idempotency
  store_idempotency-IsVerified a b c d e = search (keeps_rules, add_idempotency_record-IsVerified)

  pub enqueue_dispatch-IsVerified :
      (signal : DispatchSignal) (key : String) → Keeps IsVerified (enqueue_dispatch signal key)
  unfolding enqueue_dispatch
  enqueue_dispatch-IsVerified signal key =
      search (keeps_rules, add_outbox_message-IsVerified) depth 12

pub ruleset trail_rules = (
  keeps_rules, write-IsVerified, append_event-IsVerified, add_asset-IsVerified,
  add_flex_offer-IsVerified, add_reservation-IsVerified, add_dispatch-IsVerified,
  add_meter_reading-IsVerified, add_settlement-IsVerified, store_idempotency-IsVerified,
  enqueue_dispatch-IsVerified,
)
