-- ===== src/System.antt =====
-- The whole system: calls of the service, of the workers and of the re-drive on one database, one
-- transaction after the other, in any order. A worker that crashes takes no further step.
pub mod Invariant
pub mod Safety
pub mod Worker
use energy_flex_trust_platfo.Prelude.{String, Option, none, some, List, [], ◌∷◌}
use energy_flex_trust_platfo.Domain.{Actor, Result, ok, err}
use energy_flex_trust_platfo.Platform.{Platform}
use energy_flex_trust_platfo.Models.{Database}
use energy_flex_trust_platfo.Models.Keyed.{IsIn}
use energy_flex_trust_platfo.Session.{World}
use energy_flex_trust_platfo.Schemas.{
  AssetCreate, OfferCreate, ReservationCreate, DispatchCreate, MeterReadingCreate,
}
use energy_flex_trust_platfo.Outbox.Worker.{
  Settings, ClaimedMessage, claim_one, record_success, record_failure,
}
use energy_flex_trust_platfo.Redrive.{authorize_dead_dispatch_redrive}
use energy_flex_trust_platfo.Service.Registration.{register_asset, create_offer}
use energy_flex_trust_platfo.Service.Reserve.{reserve_offer}
use energy_flex_trust_platfo.Service.Issue.{issue_dispatch}
use energy_flex_trust_platfo.Service.Metering.{record_meter_reading}
use energy_flex_trust_platfo.Service.Settle.{settle_reservation}

-- The world, and the claims that workers have taken; a worker may be slow, so none is forgotten.
pub record State : Type 0 where
  pub world : World
  pub claims : List ClaimedMessage

abbrev pub with_claim : Result (Option ClaimedMessage) → List ClaimedMessage → List ClaimedMessage
with_claim (ok (some claimed)) claims = claimed ∷ claims
with_claim (ok none) claims = claims
with_claim (err e) claims = claims

abbrev pub moved : State → World → State
moved s w = record s { world = w }

abbrev pub claimed_by : State → Result (Option ClaimedMessage) × World → State
claimed_by s r = record { world = r.1; claims = with_claim r.0 s.claims }

module _ ⦃p : Platform⦄ where
  pub data Step (s : State) : State → Type 0 where
    asset_call :
        (command : AssetCreate) (actor : Actor)
        → Step s (moved s (register_asset command actor s.world).1)
    offer_call :
        (command : OfferCreate) (actor : Actor)
        → Step s (moved s (create_offer command actor s.world).1)
    reserve_call :
        (offer_id : String) (command : ReservationCreate) (actor : Actor) (key : String)
        → Step s (moved s (reserve_offer offer_id command actor key s.world).1)
    issue_call :
        (reservation_id : String) (command : DispatchCreate) (actor : Actor) (key : String)
        → Step s (moved s (issue_dispatch reservation_id command actor key s.world).1)
    reading_call :
        (command : MeterReadingCreate) (actor : Actor)
        → Step s (moved s (record_meter_reading command actor s.world).1)
    settle_call :
        (reservation_id : String) (actor : Actor) (key : String)
        → Step s (moved s (settle_reservation reservation_id actor key s.world).1)
    redrive_call :
        (actor : Actor) (message_id dispatch_id reason : String)
        → Step s (
            moved s (authorize_dead_dispatch_redrive actor message_id dispatch_id reason s.world).1)
    take : (settings : Settings) → Step s (claimed_by s (claim_one settings s.world))
    acknowledge :
        (settings : Settings) (claimed : ClaimedMessage) (reference : String)
        → IsIn claimed s.claims
        → Step s (moved s (record_success settings claimed reference s.world).1)
    fail :
        (settings : Settings) (claimed : ClaimedMessage) (type_name exc : String)
        → IsIn claimed s.claims
        → Step s (moved s (record_failure settings claimed type_name exc s.world).1)

  pub data Reach (start : State) : State → Type 0 where
    here : Reach start start
    next : {s t : State} → Reach start s → Step s t → Reach start t

abbrev pub empty_database : Database
empty_database = record {
  assets = [];
  flex_offers = [];
  reservations = [];
  dispatches = [];
  meter_readings = [];
  settlements = [];
  audit_events = [];
  idempotency_records = [];
  outbox_messages = [];
}

-- A database after the migrations, before the first call.
abbrev pub fresh_state : State
fresh_state = record { world = record { db = empty_database; drawn = 0; ticks = 0 }; claims = [] }
