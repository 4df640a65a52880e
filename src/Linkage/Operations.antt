-- ===== src/Linkage/Operations.antt =====
-- Each operation writes to messages and dispatches only in the ways of `Tables`.
use energy_flex_trust_platfo.Prelude.{String}
use energy_flex_trust_platfo.Domain.{Actor}
use energy_flex_trust_platfo.Platform.{Platform}
use energy_flex_trust_platfo.Models.{Database, outbox_message_row, dispatch_row}
use energy_flex_trust_platfo.Session.Rules.{Keeps, keeps_rules}
use energy_flex_trust_platfo.Schemas.{
  AssetCreate, OfferCreate, ReservationCreate, DispatchCreate, MeterReadingCreate,
}
use energy_flex_trust_platfo.Outbox.Worker.{
  Settings, ClaimedMessage, claim, claim_one, finalize, record_success, note_failure,
  record_failure, give_up, retry_later, reject_dispatch,
}
use energy_flex_trust_platfo.Redrive.{authorize_dead_dispatch_redrive, redrive}
use energy_flex_trust_platfo.Service.Registration.{register_asset, register, create_offer, offer}
use energy_flex_trust_platfo.Service.Reserve.{reserve_offer, reserve}
use energy_flex_trust_platfo.Service.Issue.{issue_dispatch, issue}
use energy_flex_trust_platfo.Service.Metering.{record_meter_reading, store_reading}
use energy_flex_trust_platfo.Service.Settle.{settle_reservation, settle, complete}
use energy_flex_trust_platfo.Linkage.Keyed.{
  Tables, write-Tables, set_message-Tables, set_dispatch-Tables, add_asset-Tables,
  add_flex_offer-Tables, add_reservation-Tables, add_dispatch-Tables, add_meter_reading-Tables,
  add_settlement-Tables, append_event-Tables, store_idempotency-Tables, enqueue_dispatch-Tables,
  idempotent_resource-Tables,
}

ruleset key_rules = (
  keeps_rules, write-Tables, set_message-Tables, set_dispatch-Tables, add_asset-Tables,
  add_flex_offer-Tables, add_reservation-Tables, add_dispatch-Tables, add_meter_reading-Tables,
  add_settlement-Tables, append_event-Tables, store_idempotency-Tables, enqueue_dispatch-Tables,
  idempotent_resource-Tables,
)

module _ {P : Database → Type 0} ⦃t : Tables P⦄ ⦃p : Platform⦄ where
  pub register_asset-Tables :
      (command : AssetCreate) (actor : Actor) → Keeps P (register_asset command actor)
  unfolding register_asset register
  register_asset-Tables command actor = search key_rules depth 30

  pub create_offer-Tables :
      (command : OfferCreate) (actor : Actor) → Keeps P (create_offer command actor)
  unfolding create_offer offer
  create_offer-Tables command actor = search key_rules depth 30

  pub reserve_offer-Tables :
      (offer_id : String) (command : ReservationCreate) (actor : Actor) (key : String)
      → Keeps P (reserve_offer offer_id command actor key)
  unfolding reserve_offer reserve
  reserve_offer-Tables offer_id command actor key = search key_rules depth 40

  pub issue_dispatch-Tables :
      (reservation_id : String) (command : DispatchCreate) (actor : Actor) (key : String)
      → Keeps P (issue_dispatch reservation_id command actor key)
  unfolding issue_dispatch issue
  issue_dispatch-Tables reservation_id command actor key = search key_rules depth 40

  pub record_meter_reading-Tables :
      (command : MeterReadingCreate) (actor : Actor) → Keeps P (record_meter_reading command actor)
  unfolding record_meter_reading store_reading
  record_meter_reading-Tables command actor = search key_rules depth 40

  pub settle_reservation-Tables :
      (reservation_id : String) (actor : Actor) (key : String)
      → Keeps P (settle_reservation reservation_id actor key)
  unfolding settle_reservation settle complete
  settle_reservation-Tables reservation_id actor key = search key_rules depth 60

  pub authorize_dead_dispatch_redrive-Tables :
      (actor : Actor) (message_id dispatch_id reason : String)
      → Keeps P (authorize_dead_dispatch_redrive actor message_id dispatch_id reason)
  unfolding authorize_dead_dispatch_redrive redrive
  authorize_dead_dispatch_redrive-Tables actor message_id dispatch_id reason =
      search key_rules depth 60

  module _ (s : Settings) where
    pub claim_one-Tables : Keeps P (claim_one s)
    unfolding claim_one claim
    claim_one-Tables = search key_rules depth 20

    pub record_success-Tables :
        (claimed : ClaimedMessage) (reference : String)
        → Keeps P (record_success s claimed reference)
    unfolding record_success finalize
    record_success-Tables claimed reference = search key_rules depth 40

    pub record_failure-Tables :
        (claimed : ClaimedMessage) (type_name exc : String)
        → Keeps P (record_failure s claimed type_name exc)
    unfolding record_failure note_failure give_up retry_later reject_dispatch
    record_failure-Tables claimed type_name exc = search key_rules depth 60
