-- ===== src/Linkage/Keyed.antt =====
-- What no operation changes: no two messages, and no two dispatches, have one primary key, and a
-- message that was stored stays stored and about the same dispatch.
use energy_flex_trust_platfo.Prelude.{
  String, ◌≡◌, ◌∙◌, [], ◌∷◌, ◌++◌, Option, none, some, List, ◌==◌, ◌||◌, ◌&&◌, any, Bool-cases, inl,
  inr,
}
use energy_flex_trust_platfo.Json.{Payload}
use energy_flex_trust_platfo.Platform.{Platform}
use energy_flex_trust_platfo.Models.Table.{Row, get, update, get-fresh, get-update, get-append}
use energy_flex_trust_platfo.Models.Keyed.{IsKeyed, update-IsKeyed, append-IsKeyed}
use energy_flex_trust_platfo.Models.{
  Asset, FlexOffer, Reservation, Dispatch, MeterReading, Settlement, AuditEvent, IdempotencyRecord,
  OutboxMessage, Database, outbox_message_row, dispatch_row,
}
use energy_flex_trust_platfo.Models.Width.{dispatch_fits, outbox_message_fits}
use energy_flex_trust_platfo.Session.{
  too_wide, write, ◌>>=◌, add_asset, add_flex_offer, add_reservation, add_dispatch,
  add_meter_reading, add_settlement, add_audit_event, add_idempotency_record, add_outbox_message,
}
use energy_flex_trust_platfo.Session.Rules.{Keeps, Keeps-write, keeps_rules}
use energy_flex_trust_platfo.Audit.Defs.{append_event}
use energy_flex_trust_platfo.Ports.{DispatchSignal}
use energy_flex_trust_platfo.Outbox.Queue.{enqueue_dispatch}
use energy_flex_trust_platfo.Outbox.Worker.{set_message, set_dispatch}
use energy_flex_trust_platfo.Service.Common.{
  idempotent_resource, recorded_resource, store_idempotency,
}

-- The ways in which the operations write to messages and dispatches keep `P`.
pub record Tables (P : Database → Type 0) : Type 0 where
  pub others :
      (f : Database → Database)
      → ((db : Database) → (f db).outbox_messages ≡ db.outbox_messages)
      → ((db : Database) → (f db).dispatches ≡ db.dispatches)
      → (db : Database) → P db
      → P (f db)
  pub messages :
      (k : String) (f : OutboxMessage → OutboxMessage)
      → ((x : OutboxMessage) → (f x).id ≡ x.id)
      → ((x : OutboxMessage) → (f x).aggregate_id ≡ x.aggregate_id)
      → (db : Database) → P db
      → P (record db { outbox_messages = update k f db.outbox_messages })
  pub dispatches :
      (k : String) (f : Dispatch → Dispatch)
      → ((x : Dispatch) → (f x).id ≡ x.id)
      → (db : Database) → P db
      → P (record db { dispatches = update k f db.dispatches })
  pub new_message :
      (row : OutboxMessage) (db : Database)
      → get row.id db.outbox_messages ≡ none
      → P db
      → P (record db { outbox_messages = db.outbox_messages ++ row ∷ [] })
  pub new_dispatch :
      (row : Dispatch) (db : Database)
      → get row.id db.dispatches ≡ none
      → P db
      → P (record db { dispatches = db.dispatches ++ row ∷ [] })

pub record HasKeys (db : Database) : Type 0 where
  pub messages : IsKeyed db.outbox_messages
  pub dispatches : IsKeyed db.dispatches

instance pub HasKeys_tables : Tables HasKeys
HasKeys_tables = record {
  others = λ f same_m same_d db h. record {
    messages = rw (same_m db) h.messages;
    dispatches = rw (same_d db) h.dispatches;
  };
  messages = λ k f keeps about db h. record {
    messages = update-IsKeyed k f db.outbox_messages keeps h.messages;
    dispatches = h.dispatches;
  };
  dispatches = λ k f keeps db h. record {
    messages = h.messages;
    dispatches = update-IsKeyed k f db.dispatches keeps h.dispatches;
  };
  new_message = λ row db fresh h. record {
    messages = append-IsKeyed db.outbox_messages row h.messages fresh;
    dispatches = h.dispatches;
  };
  new_dispatch = λ row db fresh h. record {
    messages = h.messages;
    dispatches = append-IsKeyed db.dispatches row h.dispatches fresh;
  };
}

-- A message of this id is stored, and it is about this dispatch.
pub record IsAbout (id aggregate_id : String) (db : Database) : Type 0 where
  pub message : OutboxMessage
  pub found : get id db.outbox_messages ≡ some message
  pub about : message.aggregate_id ≡ aggregate_id

updated_IsAbout :
    (id a k : String) (f : OutboxMessage → OutboxMessage)
    → ((x : OutboxMessage) → (f x).id ≡ x.id)
    → ((x : OutboxMessage) → (f x).aggregate_id ≡ x.aggregate_id)
    → (db : Database) → IsAbout id a db
    → IsAbout id a (record db { outbox_messages = update k f db.outbox_messages })
updated_IsAbout id a k f keeps about db h = elim (Bool-cases (k == id)) [
  | inl here ↦ record {
    message = f h.message;
    found = rw (get-update id k f db.outbox_messages keeps, here, h.found);
    about = about h.message ∙ h.about;
  }
  | inr other ↦ record {
    message = h.message;
    found = rw (get-update id k f db.outbox_messages keeps, other, h.found);
    about = h.about;
  }
]

instance pub IsAbout_tables : {id a : String} → Tables (IsAbout id a)
IsAbout_tables {id} {a} = record {
  others = λ f same_m same_d db h. record {
    message = h.message;
    found = rw (same_m db) h.found;
    about = h.about;
  };
  messages = updated_IsAbout id a;
  dispatches = λ k f keeps db h. record { message = h.message; found = h.found; about = h.about };
  new_message = λ row db fresh h. record {
    message = h.message;
    found = rw (get-append id db.outbox_messages row, h.found);
    about = h.about;
  };
  new_dispatch = λ row db fresh h. record { message = h.message; found = h.found; about = h.about };
}

module _ {P : Database → Type 0} ⦃t : Tables P⦄ where
  -- Writes to the other tables.
  pub write-Tables :
      (f : Database → Database)
      → ((db : Database) → (f db).outbox_messages ≡ db.outbox_messages)
      → ((db : Database) → (f db).dispatches ≡ db.dispatches)
      → Keeps P (write f)
  write-Tables f same_m same_d = Keeps-write f (t.others f same_m same_d)

  pub set_message-Tables :
      (k : String) (f : OutboxMessage → OutboxMessage)
      → ((x : OutboxMessage) → (f x).id ≡ x.id)
      → ((x : OutboxMessage) → (f x).aggregate_id ≡ x.aggregate_id)
      → Keeps P (set_message k f)
  set_message-Tables k f keeps about = Keeps-write {P = P} _ (t.messages k f keeps about)

  pub set_dispatch-Tables :
      (k : String) (f : Dispatch → Dispatch)
      → ((x : Dispatch) → (f x).id ≡ x.id)
      → Keeps P (set_dispatch k f)
  set_dispatch-Tables k f keeps = Keeps-write {P = P} _ (t.dispatches k f keeps)

module _ {P : Database → Type 0} ⦃t : Tables P⦄ ⦃p : Platform⦄ where
  pub add_dispatch-Tables : (row : Dispatch) → Keeps P (add_dispatch row)
  unfolding add_dispatch ◌>>=◌
  add_dispatch-Tables row = record {
    at = λ w h. elim (Bool-cases (too_wide (dispatch_fits row))) [
      | inl wide ↦ rw wide h
      | inr narrow ↦
          rw narrow
            (elim (Bool-cases (
              any (λ x. x.id == row.id || x.reservation_id == row.reservation_id)
                w.db.dispatches)) [
                  | inl clash ↦ rw clash h
                  | inr free ↦
                      rw free (t.new_dispatch row w.db (get-fresh row.id _ w.db.dispatches free) h)
                ])
    ];
  }

  add_outbox_message-Tables : (row : OutboxMessage) → Keeps P (add_outbox_message row)
  unfolding add_outbox_message ◌>>=◌
  add_outbox_message-Tables row = record {
    at = λ w h. elim (Bool-cases (too_wide (outbox_message_fits row))) [
      | inl wide ↦ rw wide h
      | inr narrow ↦
          rw narrow
            (elim (Bool-cases (
              any
                (λ x.
                  x.id == row.id
                  || (x.topic == row.topic && x.idempotency_key == row.idempotency_key))
                w.db.outbox_messages)) [
                  | inl clash ↦ rw clash h
                  | inr free ↦
                      rw free
                        (t.new_message row w.db (get-fresh row.id _ w.db.outbox_messages free) h)
                ])
    ];
  }

  pub add_asset-Tables : (row : Asset) → Keeps P (add_asset row)
  unfolding add_asset
  add_asset-Tables row = search (keeps_rules, write-Tables)

  pub add_flex_offer-Tables : (row : FlexOffer) → Keeps P (add_flex_offer row)
  unfolding add_flex_offer
  add_flex_offer-Tables row = search (keeps_rules, write-Tables)

  pub add_reservation-Tables : (row : Reservation) → Keeps P (add_reservation row)
  unfolding add_reservation
  add_reservation-Tables row = search (keeps_rules, write-Tables)

  pub add_meter_reading-Tables : (row : MeterReading) → Keeps P (add_meter_reading row)
  unfolding add_meter_reading
  add_meter_reading-Tables row = search (keeps_rules, write-Tables)

  pub add_settlement-Tables : (row : Settlement) → Keeps P (add_settlement row)
  unfolding add_settlement
  add_settlement-Tables row = search (keeps_rules, write-Tables)

  add_audit_event-Tables : (row : AuditEvent) → Keeps P (add_audit_event row)
  unfolding add_audit_event
  add_audit_event-Tables row = search (keeps_rules, write-Tables)

  add_idempotency_record-Tables : (row : IdempotencyRecord) → Keeps P (add_idempotency_record row)
  unfolding add_idempotency_record
  add_idempotency_record-Tables row = search (keeps_rules, write-Tables)

module _ {P : Database → Type 0} ⦃t : Tables P⦄ ⦃p : Platform⦄ where
  pub append_event-Tables :
      (a b c d e : String) (payload : Payload) → Keeps P (append_event a b c d e payload)
  unfolding append_event
  append_event-Tables a b c d e payload = search (keeps_rules, add_audit_event-Tables) depth 12

  pub store_idempotency-Tables : (a b c d e : String) → Keeps P (store_idempotency a b c d e)
  unfolding store_idempotency
  store_idempotency-Tables a b c d e = search (keeps_rules, add_idempotency_record-Tables) depth 12

  pub enqueue_dispatch-Tables :
      (signal : DispatchSignal) (key : String) → Keeps P (enqueue_dispatch signal key)
  unfolding enqueue_dispatch
  enqueue_dispatch-Tables signal key = search (keeps_rules, add_outbox_message-Tables) depth 12

  recorded_resource-Tables :
      {R : Type 0} ⦃row : Row R⦄ (request_hash : String) (table : Database → List R)
      (found : Option IdempotencyRecord)
      → Keeps P (recorded_resource request_hash table found)
  unfolding recorded_resource
  recorded_resource-Tables request_hash table none = search keeps_rules
  recorded_resource-Tables request_hash table (some r) = search keeps_rules depth 12

  pub idempotent_resource-Tables :
      {R : Type 0} ⦃row : Row R⦄ (operation key request_hash : String) (table : Database → List R)
      → Keeps P (idempotent_resource operation key request_hash table)
  unfolding idempotent_resource
  idempotent_resource-Tables operation key request_hash table =
      search (keeps_rules, recorded_resource-Tables) depth 12
