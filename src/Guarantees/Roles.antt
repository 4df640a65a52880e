-- ===== src/Guarantees/Roles.antt =====
-- Who may call what.
use energy_flex_trust_platfo.Prelude.{String, ◌≡◌, refl}
use energy_flex_trust_platfo.Domain.{Actor, Error, err, require_role, auditor}
use energy_flex_trust_platfo.Platform.{Platform}
use energy_flex_trust_platfo.Session.{World, ◌>>=◌}
use energy_flex_trust_platfo.Schemas.{
  AssetCreate, OfferCreate, ReservationCreate, DispatchCreate, MeterReadingCreate,
}
use energy_flex_trust_platfo.Redrive.{authorize_dead_dispatch_redrive}
use energy_flex_trust_platfo.Service.Registration.{register_asset, create_offer}
use energy_flex_trust_platfo.Service.Reserve.{reserve_offer}
use energy_flex_trust_platfo.Service.Issue.{issue_dispatch}
use energy_flex_trust_platfo.Service.Metering.{record_meter_reading}
use energy_flex_trust_platfo.Service.Settle.{settle_reservation}

module _ ⦃p : Platform⦄ (actor : Actor) (w : World) where
  -- An auditor changes nothing: each operation that writes to the database answers an auditor with
  -- `ForbiddenError` and leaves the world as it was, whatever its other arguments and the database.
  pub auditor-changes_nothing :
      (asset : AssetCreate) (offer : OfferCreate) (reservation : ReservationCreate)
      (dispatch : DispatchCreate) (reading : MeterReadingCreate) (id other key : String)
      → actor.role ≡ auditor
      → (register_asset asset actor w ≡ (err Error.forbidden, w))
        × (create_offer offer actor w ≡ (err Error.forbidden, w))
        × (reserve_offer id reservation actor key w ≡ (err Error.forbidden, w))
        × (issue_dispatch id dispatch actor key w ≡ (err Error.forbidden, w))
        × (record_meter_reading reading actor w ≡ (err Error.forbidden, w))
        × (settle_reservation id actor key w ≡ (err Error.forbidden, w))
        × (authorize_dead_dispatch_redrive actor id other key w ≡ (err Error.forbidden, w))
  unfolding require_role register_asset create_offer reserve_offer issue_dispatch
      record_meter_reading settle_reservation authorize_dead_dispatch_redrive ◌>>=◌
  auditor-changes_nothing asset offer reservation dispatch reading id other key h =
      (rw h refl, rw h refl, rw h refl, rw h refl, rw h refl, rw h refl, rw h refl)
