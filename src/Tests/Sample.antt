-- ===== src/Tests/Sample.antt =====
-- A platform of concrete functions, and a run of the service and of a worker on it.
use Prim.Native.String
use energy_flex_trust_platfo.Prelude.{ℕ, zero, suc, String, false, none, some, [], ◌∷◌, arith}
use energy_flex_trust_platfo.Domain.{
  Actor, asset_owner, market_operator, settlement_analyst, recovery_operator, battery, increase,
  ReservationStatus, DispatchStatus, queued, reserved, open_offer,
}
use energy_flex_trust_platfo.Datetime.{Datetime, utc}
use energy_flex_trust_platfo.Decimal.{Decimal}
use energy_flex_trust_platfo.Json.{Json, str, obj, Fields, end, field}
use energy_flex_trust_platfo.Platform.{Platform}
use energy_flex_trust_platfo.Outbox.Payload.{dispatch_payload}
use energy_flex_trust_platfo.Models.{
  FlexOffer, Reservation, Dispatch, OutboxMessage, pending, dead, Database,
}
use energy_flex_trust_platfo.Session.{World}
use energy_flex_trust_platfo.Schemas.{
  AssetCreate, OfferCreate, ReservationCreate, DispatchCreate, MeterReadingCreate,
}
use energy_flex_trust_platfo.Outbox.Worker.{Settings, ClaimedMessage}
use energy_flex_trust_platfo.Service.Registration.{register_asset, create_offer}
use energy_flex_trust_platfo.Service.Reserve.{reserve_offer}
use energy_flex_trust_platfo.Service.Issue.{issue_dispatch}
use energy_flex_trust_platfo.System.{
  State, Reach, here, next, moved, empty_database, fresh_state, asset_call, offer_call,
  reserve_call, issue_call,
}

-- Identifiers of growing length.
abbrev pub tag : ℕ → String
tag zero = "i"
tag (suc n) = String.◌++◌ "i" (tag n)

-- The texts of a document, one after the other.
abbrev mutual
  pub render : Json → String
  render (str s) = s
  render (obj fs) = render_fields fs
  render _ = "-"

  pub render_fields : Fields → String
  render_fields end = ";"
  render_fields (field k v rest) = String.◌++◌ (render v) (String.◌++◌ "," (render_fields rest))

abbrev pub kw : Decimal
kw = record { coefficient = 5; scale = 0 }

abbrev pub at : ℕ → Datetime
at n = record { instant = n; zone = utc }

instance abbrev pub sample_platform : Platform
sample_platform = record {
  uuid = tag;
  clock = at;
  sha256 = λ s. s;
  dumps = render;
  loads = str;
  isoformat = λ t. tag t.instant;
  fromisoformat = λ s. some (at 1);
  format_f = λ d. "5";
  parse_decimal = λ s. some kw;
  dump_decimal = λ d. "5";
  dump_datetime = λ t. tag t.instant;
  show = λ j. "?";
  quote = λ s. s;
  next_sequence = suc;
  next_sequence_grows = λ n. omega arith;
  enforces_widths = false;
}

abbrev pub owner : Actor
owner = record { actor_id = "owner"; role = asset_owner }

abbrev pub operator : Actor
operator = record { actor_id = "operator"; role = market_operator }

abbrev pub analyst : Actor
analyst = record { actor_id = "analyst"; role = settlement_analyst }

abbrev pub asset_command : AssetCreate
asset_command = record {
  external_id = "battery-1";
  owner_id = "owner";
  asset_type = battery;
  capacity_kw = kw;
  location_code = "TR";
}

abbrev pub offer_command : OfferCreate
offer_command = record {
  asset_id = tag 0;
  window_start = at 1;
  window_end = at 9;
  direction = increase;
  quantity_kw = kw;
  price_per_kwh = kw;
}

abbrev pub reservation_command : ReservationCreate
reservation_command = record { quantity_kw = kw }

abbrev pub dispatch_command : DispatchCreate
dispatch_command = record { target_kw = kw; starts_at = at 1; ends_at = at 5 }

abbrev pub reading_command : MeterReadingCreate
reading_command = record {
  asset_id = tag 0;
  interval_start = at 1;
  interval_end = at 2;
  energy_kwh = kw;
  source = "meter";
}

abbrev pub settings : Settings
settings = record {
  worker_id = "w";
  max_attempts = 3;
  base_retry_seconds = 2;
  max_retry_seconds = 60;
  lease_seconds = 30;
}

-- The states after each call.
abbrev pub registered : State
registered = moved fresh_state (register_asset asset_command owner fresh_state.world).1

abbrev pub offered : State
offered = moved registered (create_offer offer_command owner registered.world).1

abbrev pub reserved_state : State
reserved_state =
    moved offered (reserve_offer (tag 3) reservation_command operator "k1" offered.world).1

abbrev pub issued_state : State
issued_state =
    moved reserved_state
      (issue_dispatch (tag 6) dispatch_command operator "k2" reserved_state.world).1

pub issued_path : Reach fresh_state issued_state
issued_path =
    next
      (next (next (next here (asset_call asset_command owner)) (offer_call offer_command owner))
        (reserve_call (tag 3) reservation_command operator "k1"))
      (issue_call (tag 6) dispatch_command operator "k2")

abbrev pub offer_row : FlexOffer
offer_row = record {
  id = tag 3;
  asset_id = tag 0;
  window_start = at 1;
  window_end = at 9;
  direction = increase;
  quantity_kw = kw;
  price_per_kwh = kw;
  status = open_offer;
  created_by = "owner";
  created_at = at 2;
}

abbrev pub the_reservation : Reservation
the_reservation = record {
  id = tag 6;
  offer_id = tag 3;
  quantity_kw = kw;
  status = reserved;
  requested_by = "operator";
  created_at = at 4;
}

abbrev pub the_dispatch : Dispatch
the_dispatch = record {
  id = tag 9;
  reservation_id = tag 6;
  target_kw = kw;
  starts_at = at 1;
  ends_at = at 5;
  status = queued;
  issued_by = "operator";
  adapter_reference = some (String.◌++◌ "outbox:" (tag 10));
  created_at = at 7;
}

abbrev pub message_row : OutboxMessage
message_row = record {
  id = tag 10;
  topic = "dispatch.publish";
  aggregate_id = tag 9;
  idempotency_key = "k2";
  payload = dispatch_payload (record {
    dispatch_id = tag 9;
    asset_external_id = "battery-1";
    target_kw = kw;
    starts_at = at 1;
    ends_at = at 5;
  });
  status = pending;
  attempts = 0;
  available_at = at 8;
  lease_expires_at = none;
  locked_by = none;
  adapter_reference = none;
  last_error = none;
  published_at = none;
  created_at = at 9;
  updated_at = at 10;
}

abbrev pub recoverer : Actor
recoverer = record { actor_id = "recoverer"; role = recovery_operator }

-- A message that waits, with its dispatch and its reservation.
abbrev pub waiting_db : Database
waiting_db = record empty_database {
  reservations = record the_reservation { status = ReservationStatus.dispatch_pending } ∷ [];
  dispatches = the_dispatch ∷ [];
  outbox_messages = message_row ∷ [];
}

abbrev pub waiting : World
waiting = record { db = waiting_db; drawn = 20; ticks = 20 }

-- The same after the last attempt has failed.
abbrev pub dead_world : World
dead_world = record {
  db = record empty_database {
    reservations = record the_reservation { status = ReservationStatus.cancelled } ∷ [];
    dispatches = record the_dispatch { status = DispatchStatus.rejected } ∷ [];
    outbox_messages = record message_row { status = dead; attempts = 3 } ∷ [];
  };
  drawn = 20;
  ticks = 20;
}

abbrev pub claimed : ClaimedMessage
claimed = record {
  id = tag 10;
  aggregate_id = tag 9;
  idempotency_key = "k2";
  payload = message_row.payload;
  attempts = 1;
  claim_token = String.◌++◌ "w:" (tag 20);
}
