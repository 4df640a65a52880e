-- ===== src/Guarantees/Failure.antt =====
-- A call that raises leaves the database as it was.
use energy_flex_trust_platfo.Prelude.{String, ◌≡◌, refl, Bool, true, false}
use energy_flex_trust_platfo.Domain.{Actor, Error, Result, ok, err}
use energy_flex_trust_platfo.Datetime.{Datetime}
use energy_flex_trust_platfo.Platform.{Platform}
use energy_flex_trust_platfo.Models.{Database}
use energy_flex_trust_platfo.Session.{
  World, Action, lift, raise_if, begin, finish, utc_now, ◌>>=◌, ◌>>◌,
}
use energy_flex_trust_platfo.Session.Rules.{Keeps, keeps_rules}
use energy_flex_trust_platfo.Schemas.{
  AssetCreate, OfferCreate, ReservationCreate, DispatchCreate, MeterReadingCreate,
}
use energy_flex_trust_platfo.Outbox.Worker.{
  Settings, ClaimedMessage, claim_one, record_success, record_failure,
}
use energy_flex_trust_platfo.Redrive.{authorize_dead_dispatch_redrive}
use energy_flex_trust_platfo.Service.Registration.{register_asset, create_offer}
use energy_flex_trust_platfo.Service.Reserve.{reserve_offer}
use energy_flex_trust_platfo.Service.Issue.{issue_dispatch}
use energy_flex_trust_platfo.Service.Metering.{record_meter_reading}
use energy_flex_trust_platfo.Service.Settle.{
  settle_reservation, settlement_evidence, audit_verification,
}

-- If the call has raised, the database is the one before it.
abbrev pub IsUndone : {A : Type 0} → Database → Result A × World → Type 0
IsUndone before (ok a, w) = Unit
IsUndone before (err e, w) = w.db ≡ before

-- When `m` raises, nothing that it has written stays.
pub record IsAtomic {A : Type 0} (m : Action A) : Type 0 where
  pub at : (w : World) → IsUndone w.db (m w)

module _ {A : Type 0} where
  finish-IsUndone : (before : Database) (r : Result A × World) → IsUndone before (finish before r)
  finish-IsUndone before (ok a, v) = tt
  finish-IsUndone before (err x, v) = refl

  pub begin-IsAtomic : (m : Action A) → IsAtomic (begin m)
  unfolding begin
  begin-IsAtomic m = record { at = λ w. finish-IsUndone w.db (m w) }

  pub lift-IsAtomic : (r : Result (Unit {0})) (m : Action A) → IsAtomic m → IsAtomic (lift r >> m)
  unfolding ◌>>=◌
  lift-IsAtomic (ok tt) m h = record { at = h.at }
  lift-IsAtomic (err x) m h = record { at = λ w. refl }

  pub raise_if-IsAtomic :
      (b : Bool) (x : Error) (m : Action A) → IsAtomic m → IsAtomic (raise_if b x >> m)
  unfolding ◌>>=◌
  raise_if-IsAtomic false x m h = record { at = h.at }
  raise_if-IsAtomic true x m h = record { at = λ w. refl }

  pub utc_now-IsAtomic :
      ⦃p : Platform⦄ (f : Datetime → Action A)
      → ((t : Datetime) → IsAtomic (f t))
      → IsAtomic (utc_now >>= f)
  unfolding ◌>>=◌ utc_now
  utc_now-IsAtomic f h = record { at = λ w. (h _).at _ }

pub ruleset atomic_rules = (begin-IsAtomic, lift-IsAtomic, raise_if-IsAtomic, utc_now-IsAtomic)

module _ ⦃p : Platform⦄ where
  kept-IsAtomic :
      {A : Type 0} (m : Action A) → ((db : Database) → Keeps (λ after. after ≡ db) m) → IsAtomic m
  kept-IsAtomic m h = record { at = λ w. undone w.db (m w) ((h w.db).at w refl) }
    where
      undone :
          {A : Type 0} (before : Database) (r : Result A × World)
          → r.1.db ≡ before
          → IsUndone before r
      undone before (ok a, v) same = tt
      undone before (err e, v) same = same

  settlement_evidence-IsAtomic :
      (id : String) (actor : Actor) → IsAtomic (settlement_evidence id actor)
  unfolding settlement_evidence
  settlement_evidence-IsAtomic id actor = kept-IsAtomic _ λ db. search keeps_rules depth 12

  audit_verification-IsAtomic : (actor : Actor) → IsAtomic (audit_verification actor)
  unfolding audit_verification
  audit_verification-IsAtomic actor = kept-IsAtomic _ λ db. search keeps_rules depth 12

  -- Each of the eight operations of the service, the re-drive and each of the three transactions of
  -- the worker (claim, record a success, record a failure) is atomic: when it raises, the database is
  -- the one before the call. A run of the worker is a sequence of such transactions.
  pub operations-IsAtomic :
      (asset : AssetCreate) (offer : OfferCreate) (reservation : ReservationCreate)
      (dispatch : DispatchCreate) (reading : MeterReadingCreate) (actor : Actor)
      (id other key : String) (s : Settings) (claimed : ClaimedMessage)
      → IsAtomic (register_asset asset actor)
        × IsAtomic (create_offer offer actor)
        × IsAtomic (reserve_offer id reservation actor key)
        × IsAtomic (issue_dispatch id dispatch actor key)
        × IsAtomic (record_meter_reading reading actor)
        × IsAtomic (settle_reservation id actor key)
        × IsAtomic (settlement_evidence id actor)
        × IsAtomic (audit_verification actor)
        × IsAtomic (authorize_dead_dispatch_redrive actor id other key)
        × IsAtomic (claim_one s)
        × IsAtomic (record_success s claimed key)
        × IsAtomic (record_failure s claimed id other)
  unfolding register_asset create_offer reserve_offer issue_dispatch record_meter_reading
      settle_reservation authorize_dead_dispatch_redrive claim_one record_success record_failure
  operations-IsAtomic asset offer reservation dispatch reading actor id other key s claimed = (
    search atomic_rules,
    search atomic_rules,
    search atomic_rules,
    search atomic_rules,
    search atomic_rules,
    search atomic_rules,
    settlement_evidence-IsAtomic id actor,
    audit_verification-IsAtomic actor,
    search atomic_rules,
    search atomic_rules,
    search atomic_rules,
    search atomic_rules,
  )
