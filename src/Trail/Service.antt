-- ===== src/Trail/Service.antt =====
-- The methods of `CoordinationService` keep the audit log verified.
use energy_flex_trust_platfo.Prelude.{String, Option, none, some, List}
use energy_flex_trust_platfo.Domain.{Actor}
use energy_flex_trust_platfo.Platform.{Platform}
use energy_flex_trust_platfo.Models.Table.{Row}
use energy_flex_trust_platfo.Models.{IdempotencyRecord, Database}
use energy_flex_trust_platfo.Session.Rules.{Keeps}
use energy_flex_trust_platfo.Audit.Chain.{IsVerified}
use energy_flex_trust_platfo.Schemas.{
  AssetCreate, OfferCreate, ReservationCreate, DispatchCreate, MeterReadingCreate,
}
use energy_flex_trust_platfo.Service.Common.{idempotent_resource, recorded_resource}
use energy_flex_trust_platfo.Service.Registration.{register_asset, register, create_offer, offer}
use energy_flex_trust_platfo.Service.Reserve.{reserve_offer, reserve}
use energy_flex_trust_platfo.Service.Issue.{issue_dispatch, issue}
use energy_flex_trust_platfo.Service.Metering.{record_meter_reading, store_reading}
use energy_flex_trust_platfo.Service.Settle.{settle_reservation, settle, complete}
use energy_flex_trust_platfo.Trail.Rules.{trail_rules}

module _ ⦃p : Platform⦄ where
  pub register_asset-IsVerified :
      (command : AssetCreate) (actor : Actor) → Keeps IsVerified (register_asset command actor)
  unfolding register_asset register
  register_asset-IsVerified command actor = search trail_rules depth 30

  pub create_offer-IsVerified :
      (command : OfferCreate) (actor : Actor) → Keeps IsVerified (create_offer command actor)
  unfolding create_offer offer
  create_offer-IsVerified command actor = search trail_rules depth 30

  recorded_resource-IsVerified :
      {R : Type 0} ⦃row : Row R⦄ (request_hash : String) (table : Database → List R)
      (found : Option IdempotencyRecord)
      → Keeps IsVerified (recorded_resource request_hash table found)
  unfolding recorded_resource
  recorded_resource-IsVerified request_hash table none = search trail_rules
  recorded_resource-IsVerified request_hash table (some r) = search trail_rules depth 12

  idempotent_resource-IsVerified :
      {R : Type 0} ⦃row : Row R⦄ (operation key request_hash : String) (table : Database → List R)
      → Keeps IsVerified (idempotent_resource operation key request_hash table)
  unfolding idempotent_resource
  idempotent_resource-IsVerified operation key request_hash table =
      search (trail_rules, recorded_resource-IsVerified) depth 12

  pub reserve_offer-IsVerified :
      (offer_id : String) (command : ReservationCreate) (actor : Actor) (key : String)
      → Keeps IsVerified (reserve_offer offer_id command actor key)
  unfolding reserve_offer reserve
  reserve_offer-IsVerified offer_id command actor key =
      search (trail_rules, idempotent_resource-IsVerified) depth 40

  pub issue_dispatch-IsVerified :
      (reservation_id : String) (command : DispatchCreate) (actor : Actor) (key : String)
      → Keeps IsVerified (issue_dispatch reservation_id command actor key)
  unfolding issue_dispatch issue
  issue_dispatch-IsVerified reservation_id command actor key =
      search (trail_rules, idempotent_resource-IsVerified) depth 40

  pub record_meter_reading-IsVerified :
      (command : MeterReadingCreate) (actor : Actor)
      → Keeps IsVerified (record_meter_reading command actor)
  unfolding record_meter_reading store_reading
  record_meter_reading-IsVerified command actor = search trail_rules depth 40

  pub settle_reservation-IsVerified :
      (reservation_id : String) (actor : Actor) (key : String)
      → Keeps IsVerified (settle_reservation reservation_id actor key)
  unfolding settle_reservation settle complete
  settle_reservation-IsVerified reservation_id actor key =
      search (trail_rules, idempotent_resource-IsVerified) depth 60
