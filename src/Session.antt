-- ===== src/Session.antt =====
-- A SQLAlchemy session: state and exceptions. The world is the database, and how many random
-- identifiers and clock readings have been taken. `begin` is `with session.begin():`, which commits,
-- or rolls the database back when the block raises. The transactions run one after the other.
pub mod Rules
pub mod Outcome
pub mod Stored
pub mod Total
use energy_flex_trust_platfo.Prelude.{
  ℕ, suc, String, Bool, true, false, not, ◌||◌, ◌&&◌, Option, none, some, List, [], ◌∷◌, ◌++◌, any,
  ◌==◌, if◌then◌else◌,
}
use energy_flex_trust_platfo.Domain.{Error, Result, ok, err}
use energy_flex_trust_platfo.Datetime.{Datetime}
use energy_flex_trust_platfo.Platform.{Platform}
use energy_flex_trust_platfo.Models.{
  Asset, FlexOffer, Reservation, Dispatch, MeterReading, Settlement, AuditEvent, IdempotencyRecord,
  OutboxMessage, Database,
}
use energy_flex_trust_platfo.Models.Width.{
  asset_fits, flex_offer_fits, reservation_fits, dispatch_fits, meter_reading_fits, settlement_fits,
  audit_event_fits, idempotency_record_fits, outbox_message_fits,
}

pub record World : Type 0 where
  pub db : Database
  pub drawn : ℕ
  pub ticks : ℕ

abbrev pub Action : Type 0 → Type 0
Action A = World → Result A × World

module _ {A : Type 0} where
  unfoldable pub pure : A → Action A
  pure a w = (ok a, w)

  unfoldable pub raise : Error → Action A
  raise e w = (err e, w)

  unfoldable pub lift : Result A → Action A
  lift r w = (r, w)

  unfoldable pub query : (Database → A) → Action A
  query f w = (ok (f w.db), w)

  unfoldable pub or_raise : Option A → Error → Action A
  unfolding pure raise
  or_raise none e = raise e
  or_raise (some a) e = pure a

  -- The one row that a query looks for.
  unfoldable pub require : (Database → Option A) → Error → Action A
  unfolding or_raise
  require f e w = or_raise (f w.db) e w

  abbrev pub finish : Database → Result A × World → Result A × World
  finish before (ok a, w) = (ok a, w)
  finish before (err e, w) = (err e, record w { db = before })

  unfoldable pub begin : Action A → Action A
  begin m w = finish w.db (m w)

  -- An early return of the resource that was found.
  unfoldable pub unless_found : Option A → Action A → Action A
  unfolding pure
  unless_found (some a) m = pure a
  unless_found none m = m

unfoldable pub raise_if : Bool → Error → Action (Unit {0})
unfolding pure raise
raise_if true e = raise e
raise_if false e = pure tt

unfoldable pub write : (Database → Database) → Action (Unit {0})
write f w = (ok tt, record w { db = f w.db })

module _ {A B : Type 0} where
  infixl 5 ◌>>=◌ ◌>>◌
  abbrev pub continue : (A → Action B) → Result A × World → Result B × World
  continue f (ok a, w) = f a w
  continue f (err e, w) = (err e, w)

  -- The rest of a block is skipped, with this result, if there is no row.
  unfoldable pub if_found : Option A → B → (A → Action B) → Action B
  unfolding pure
  if_found none b k = pure b
  if_found (some a) b k = k a

  -- To open this is to open the actions that a block is built of.
  unfoldable pub ◌>>=◌ : Action A → (A → Action B) → Action B
  unfolding pure raise lift query or_raise require begin unless_found raise_if write if_found
  ◌>>=◌ m f w = continue f (m w)

  abbrev pub ◌>>◌ : Action A → Action B → Action B
  m >> k = m >>= λ _. k

module _ ⦃p : Platform⦄ where
  -- `new_id()` and `str(uuid4())`
  unfoldable pub new_id : Action String
  new_id w = (ok (p.uuid w.drawn), record w { drawn = suc w.drawn })

  -- `utc_now()` and `datetime.now(UTC)`
  unfoldable pub utc_now : Action Datetime
  utc_now w = (ok (p.clock w.ticks), record w { ticks = suc w.ticks })

  -- Whether the database refuses what does not fit.
  abbrev pub too_wide : Bool → Bool
  too_wide fitting = p.enforces_widths && not fitting

  -- `session.add` and the flush: a row that is too wide for its columns raises `DataError`, and one
  -- that breaks the primary key or a unique constraint of its table `IntegrityError`.
  unfoldable pub add_asset : Asset → Action (Unit {0})
  add_asset row = do
    raise_if (too_wide (asset_fits row)) Error.data_error
    clash ← query (λ db. any (λ x. x.id == row.id || x.external_id == row.external_id) db.assets)
    raise_if clash Error.integrity_error
    write (λ db. record db { assets = db.assets ++ row ∷ [] })

  unfoldable pub add_flex_offer : FlexOffer → Action (Unit {0})
  add_flex_offer row = do
    raise_if (too_wide (flex_offer_fits row)) Error.data_error
    clash ← query (λ db. any (λ x. x.id == row.id) db.flex_offers)
    raise_if clash Error.integrity_error
    write (λ db. record db { flex_offers = db.flex_offers ++ row ∷ [] })

  unfoldable pub add_reservation : Reservation → Action (Unit {0})
  add_reservation row = do
    raise_if (too_wide (reservation_fits row)) Error.data_error
    clash ← query (λ db. any (λ x. x.id == row.id || x.offer_id == row.offer_id) db.reservations)
    raise_if clash Error.integrity_error
    write (λ db. record db { reservations = db.reservations ++ row ∷ [] })

  unfoldable pub add_dispatch : Dispatch → Action (Unit {0})
  add_dispatch row = do
    raise_if (too_wide (dispatch_fits row)) Error.data_error
    clash ←
        query
          (λ db. any (λ x. x.id == row.id || x.reservation_id == row.reservation_id) db.dispatches)
    raise_if clash Error.integrity_error
    write (λ db. record db { dispatches = db.dispatches ++ row ∷ [] })

  unfoldable pub add_meter_reading : MeterReading → Action (Unit {0})
  add_meter_reading row = do
    raise_if (too_wide (meter_reading_fits row)) Error.data_error
    clash ←
        query
          (λ db. any (λ x. x.id == row.id || x.fingerprint == row.fingerprint) db.meter_readings)
    raise_if clash Error.integrity_error
    write (λ db. record db { meter_readings = db.meter_readings ++ row ∷ [] })

  unfoldable pub add_settlement : Settlement → Action (Unit {0})
  add_settlement row = do
    raise_if (too_wide (settlement_fits row)) Error.data_error
    clash ←
        query
          (λ db. any (λ x. x.id == row.id || x.reservation_id == row.reservation_id) db.settlements)
    raise_if clash Error.integrity_error
    write (λ db. record db { settlements = db.settlements ++ row ∷ [] })

  unfoldable pub add_audit_event : AuditEvent → Action (Unit {0})
  add_audit_event row = do
    raise_if (too_wide (audit_event_fits row)) Error.data_error
    clash ← query (λ db.
        any (λ x. x.event_id == row.event_id || x.event_hash == row.event_hash) db.audit_events)
    raise_if clash Error.integrity_error
    write (λ db. record db { audit_events = db.audit_events ++ row ∷ [] })

  unfoldable pub add_idempotency_record : IdempotencyRecord → Action (Unit {0})
  add_idempotency_record row = do
    raise_if (too_wide (idempotency_record_fits row)) Error.data_error
    clash ← query (λ db.
        any (λ x. x.id == row.id || (x.operation == row.operation && x.key == row.key))
          db.idempotency_records)
    raise_if clash Error.integrity_error
    write (λ db. record db { idempotency_records = db.idempotency_records ++ row ∷ [] })

  unfoldable pub add_outbox_message : OutboxMessage → Action (Unit {0})
  add_outbox_message row = do
    raise_if (too_wide (outbox_message_fits row)) Error.data_error
    clash ← query (λ db.
        any
          (λ x.
            x.id == row.id || (x.topic == row.topic && x.idempotency_key == row.idempotency_key))
          db.outbox_messages)
    raise_if clash Error.integrity_error
    write (λ db. record db { outbox_messages = db.outbox_messages ++ row ∷ [] })
