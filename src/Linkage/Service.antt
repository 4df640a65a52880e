-- ===== src/Linkage/Service.antt =====
-- The methods of `CoordinationService` that touch neither messages nor dispatches.
use energy_flex_trust_platfo.Prelude.{String, ◌≡◌, Option, none, some, List, [], ◌∷◌, ◌++◌}
use energy_flex_trust_platfo.Domain.{Actor}
use energy_flex_trust_platfo.Json.{Payload}
use energy_flex_trust_platfo.Platform.{Platform}
use energy_flex_trust_platfo.Models.Table.{Row, get, get-append}
use energy_flex_trust_platfo.Models.{
  Asset, FlexOffer, Reservation, MeterReading, AuditEvent, IdempotencyRecord, Database,
  outbox_message_row, dispatch_row, reservation_row, settlement_row,
}
use energy_flex_trust_platfo.Session.{
  write, add_asset, add_flex_offer, add_reservation, add_meter_reading, add_audit_event,
  add_idempotency_record,
}
use energy_flex_trust_platfo.Session.Rules.{Keeps, Keeps-write, keeps_rules}
use energy_flex_trust_platfo.Audit.Defs.{append_event}
use energy_flex_trust_platfo.Schemas.{
  AssetCreate, OfferCreate, ReservationCreate, MeterReadingCreate,
}
use energy_flex_trust_platfo.Service.Common.{
  idempotent_resource, recorded_resource, store_idempotency,
}
use energy_flex_trust_platfo.Service.Registration.{register_asset, register, create_offer, offer}
use energy_flex_trust_platfo.Service.Reserve.{reserve_offer, reserve}
use energy_flex_trust_platfo.Service.Metering.{record_meter_reading, store_reading}
use energy_flex_trust_platfo.Linkage.Defs.{view, IsLinked}
use energy_flex_trust_platfo.Linkage.Keyed.{HasKeys, HasKeys_tables, idempotent_resource-Tables}

abbrev LinkedDb : Database → Type 0
LinkedDb db = IsLinked (view db)

-- The rows are keyed, and their states agree.
abbrev pub IsSound : Database → Type 0
IsSound db = HasKeys db × IsLinked (view db)

write-IsLinked :
    (f : Database → Database) → ((db : Database) → view (f db) ≡ view db) → Keeps LinkedDb (write f)
write-IsLinked f same = Keeps-write {P = LinkedDb} f (λ db h. rw (same db) h)

add_asset-IsLinked : ⦃p : Platform⦄ (row : Asset) → Keeps LinkedDb (add_asset row)
unfolding add_asset
add_asset-IsLinked row = search keeps_rules

add_flex_offer-IsLinked : ⦃p : Platform⦄ (row : FlexOffer) → Keeps LinkedDb (add_flex_offer row)
unfolding add_flex_offer
add_flex_offer-IsLinked row = search keeps_rules

add_meter_reading-IsLinked :
    ⦃p : Platform⦄ (row : MeterReading) → Keeps LinkedDb (add_meter_reading row)
unfolding add_meter_reading
add_meter_reading-IsLinked row = search keeps_rules

add_audit_event-IsLinked : ⦃p : Platform⦄ (row : AuditEvent) → Keeps LinkedDb (add_audit_event row)
unfolding add_audit_event
add_audit_event-IsLinked row = search keeps_rules

add_idempotency_record-IsLinked :
    ⦃p : Platform⦄ (row : IdempotencyRecord) → Keeps LinkedDb (add_idempotency_record row)
unfolding add_idempotency_record
add_idempotency_record-IsLinked row = search keeps_rules

still_found :
    (k : String) (rows : List Reservation) (row r : Reservation)
    → get k rows ≡ some r
    → get k (rows ++ row ∷ []) ≡ some r
still_found k rows row r h = rw (get-append k rows row, h)

-- A new reservation leaves the links of the old ones.
more_reservations :
    (db : Database) (row : Reservation)
    → LinkedDb db
    → LinkedDb (record db { reservations = db.reservations ++ row ∷ [] })
more_reservations db row h = record {
  links = λ k m found.
      let l = h.links k m found in
      record {
        dispatch = l.dispatch;
        reservation = l.reservation;
        found_dispatch = l.found_dispatch;
        found_reservation =
            still_found l.dispatch.reservation_id db.reservations row l.reservation
              l.found_reservation;
        agrees = l.agrees;
        leased = l.leased;
      };
  one_message = h.one_message;
  one_dispatch = h.one_dispatch;
  queued_all = λ k d found.
      let q = h.queued_all k d found in
      record { message_id = q.message_id; message = q.message; found = q.found; about = q.about };
  settled_all = λ k s found.
      let t = h.settled_all k s found in
      record {
        dispatch_id = t.dispatch_id;
        dispatch = t.dispatch;
        found = t.found;
        owned = t.owned;
        completed = t.completed;
      };
}

reservations-IsLinked :
    (row : Reservation)
    → Keeps LinkedDb (write (λ db. record db { reservations = db.reservations ++ row ∷ [] }))
reservations-IsLinked row = Keeps-write {P = LinkedDb} _ (λ db. more_reservations db row)

add_reservation-IsLinked : ⦃p : Platform⦄ (row : Reservation) → Keeps LinkedDb (add_reservation row)
unfolding add_reservation
add_reservation-IsLinked row = search (keeps_rules, reservations-IsLinked)

module _ ⦃p : Platform⦄ where
  append_event-IsLinked :
      (a b c d e : String) (payload : Payload) → Keeps LinkedDb (append_event a b c d e payload)
  unfolding append_event
  append_event-IsLinked a b c d e payload = search (keeps_rules, add_audit_event-IsLinked) depth 12

  pub store_idempotency-IsLinked :
      (a b c d e : String) → Keeps LinkedDb (store_idempotency a b c d e)
  unfolding store_idempotency
  store_idempotency-IsLinked a b c d e =
      search (keeps_rules, add_idempotency_record-IsLinked) depth 12

  recorded_resource-IsLinked :
      {R : Type 0} ⦃row : Row R⦄ (request_hash : String) (table : Database → List R)
      (found : Option IdempotencyRecord)
      → Keeps LinkedDb (recorded_resource request_hash table found)
  unfolding recorded_resource
  recorded_resource-IsLinked request_hash table none = search keeps_rules
  recorded_resource-IsLinked request_hash table (some r) = search keeps_rules depth 12

  pub idempotent_resource-IsLinked :
      {R : Type 0} ⦃row : Row R⦄ (operation key request_hash : String) (table : Database → List R)
      → Keeps LinkedDb (idempotent_resource operation key request_hash table)
  unfolding idempotent_resource
  idempotent_resource-IsLinked operation key request_hash table =
      search (keeps_rules, recorded_resource-IsLinked) depth 12

  pub idempotent_resource-IsSound :
      {R : Type 0} ⦃row : Row R⦄ (operation key request_hash : String) (table : Database → List R)
      → Keeps IsSound (idempotent_resource operation key request_hash table)
  idempotent_resource-IsSound operation key request_hash table = record {
    at = λ w h. (
      (idempotent_resource-Tables {P = HasKeys} operation key request_hash table).at w h.0,
      (idempotent_resource-IsLinked operation key request_hash table).at w h.1,
    );
  }

  pub register_asset-IsLinked :
      (command : AssetCreate) (actor : Actor) → Keeps LinkedDb (register_asset command actor)
  unfolding register_asset register
  register_asset-IsLinked command actor =
      search (keeps_rules, add_asset-IsLinked, append_event-IsLinked) depth 30

  pub create_offer-IsLinked :
      (command : OfferCreate) (actor : Actor) → Keeps LinkedDb (create_offer command actor)
  unfolding create_offer offer
  create_offer-IsLinked command actor =
      search (keeps_rules, add_flex_offer-IsLinked, append_event-IsLinked) depth 30

  pub reserve_offer-IsLinked :
      (offer_id : String) (command : ReservationCreate) (actor : Actor) (key : String)
      → Keeps LinkedDb (reserve_offer offer_id command actor key)
  unfolding reserve_offer reserve
  reserve_offer-IsLinked offer_id command actor key =
      search
        (
          keeps_rules, add_reservation-IsLinked, append_event-IsLinked, store_idempotency-IsLinked,
          idempotent_resource-IsLinked,
        )
        depth 40

  pub record_meter_reading-IsLinked :
      (command : MeterReadingCreate) (actor : Actor)
      → Keeps LinkedDb (record_meter_reading command actor)
  unfolding record_meter_reading store_reading
  record_meter_reading-IsLinked command actor =
      search (keeps_rules, add_meter_reading-IsLinked, append_event-IsLinked) depth 40
