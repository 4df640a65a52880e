-- ===== src/Api/Problems.antt =====
-- What a request that gets an error response has done.
use energy_flex_trust_platfo.Prelude.{ℕ, ◌≡◌, ◌≢◌, ◌⊎◌, inl, inr, refl, ap, some, arith}
use energy_flex_trust_platfo.Domain.{Actor, Error, Result, ok, err, status_code, error_code}
use energy_flex_trust_platfo.Platform.{Platform}
use energy_flex_trust_platfo.Models.{
  Asset, FlexOffer, Reservation, Dispatch, MeterReading, Settlement, Database,
}
use energy_flex_trust_platfo.Service.Registration.{register_asset, create_offer}
use energy_flex_trust_platfo.Service.Reserve.{reserve_offer}
use energy_flex_trust_platfo.Service.Issue.{issue_dispatch}
use energy_flex_trust_platfo.Service.Metering.{record_meter_reading}
use energy_flex_trust_platfo.Session.{World, Action, pure, lift, continue, ◌>>=◌}
use energy_flex_trust_platfo.Session.Rules.{Keeps, keeps_rules}
use energy_flex_trust_platfo.Schemas.{
  validate_asset, validate_offer, validate_dispatch, validate_meter_reading,
}
use energy_flex_trust_platfo.Schemas.Read.{
  asset_read, offer_read, reservation_read, dispatch_read, meter_reading_read, settlement_read,
  ErrorRead,
}
use energy_flex_trust_platfo.Service.Settle.{
  settle_reservation, settlement_evidence, audit_verification,
}
use energy_flex_trust_platfo.Config.{Settings}
use energy_flex_trust_platfo.Auth.{Jwt}
use energy_flex_trust_platfo.Guarantees.Failure.{IsUndone, IsAtomic, atomic_rules}
use energy_flex_trust_platfo.Api.{
  Headers, Call, health, register_asset_call, create_offer_call, reserve_offer_call,
  issue_dispatch_call, record_meter_reading_call, settle_reservation_call, settlement_evidence_call,
  verify_audit, outbox_health, Reply, Response, problem, domain_error_handler, response_of,
  get_actor, reply_with, endpoint, handle, respond,
}

module _ {Key : Type 0} (jwt : Jwt Key) (settings : Settings) ⦃p : Platform⦄ where
  -- How a handler ends on a database: when it raises, nothing has changed, or a row did not fit its
  -- response model, with a ValueError.
  abbrev Harmless : Database → Result Reply × World → Type 0
  Harmless before (ok reply, w) = Unit
  Harmless before (err e, w) = (w.db ≡ before) ⊎ (e ≡ Error.value_error)

  reply-Harmless :
      {A B : Type 0} (m : Action A) (read : A → Result B) (reply : B → Reply) (w : World)
      → IsAtomic m
      → ((a : A) (e : Error) → read a ≡ err e → e ≡ Error.value_error)
      → Harmless w.db ((m >>= reply_with jwt settings read reply) w)
  unfolding ◌>>=◌
  reply-Harmless {A} {B} m read reply w atomic misfit = ends (m w) (atomic.at w)
    where
      fits :
          (r : Result B) (v : World)
          → ((e : Error) → r ≡ err e → e ≡ Error.value_error)
          → Harmless w.db (continue (λ b. pure (reply b)) (r, v))
      fits (ok b) v h = tt
      fits (err e) v h = inr (h e refl)

      ends :
          (r : Result A × World)
          → IsUndone w.db r
          → Harmless w.db (continue (reply_with jwt settings read reply) r)
      ends (ok a, v) undone = fits (read a) v (misfit a)
      ends (err e, v) undone = inl undone

  asset_read-value_error : (a : Asset) (e : Error) → asset_read a ≡ err e → e ≡ Error.value_error
  unfolding asset_read validate_asset
  asset_read-value_error a e h = ground arith

  offer_read-value_error :
      (a : FlexOffer) (e : Error) → offer_read a ≡ err e → e ≡ Error.value_error
  unfolding offer_read validate_offer
  offer_read-value_error a e h = ground arith

  reservation_read-value_error :
      (a : Reservation) (e : Error) → reservation_read a ≡ err e → e ≡ Error.value_error
  unfolding reservation_read
  reservation_read-value_error a e h = ground arith

  dispatch_read-value_error :
      (a : Dispatch) (e : Error) → dispatch_read a ≡ err e → e ≡ Error.value_error
  unfolding dispatch_read validate_dispatch
  dispatch_read-value_error a e h = ground arith

  meter_reading_read-value_error :
      (a : MeterReading) (e : Error) → meter_reading_read a ≡ err e → e ≡ Error.value_error
  unfolding meter_reading_read validate_meter_reading
  meter_reading_read-value_error a e h = ground arith

  settlement_read-value_error :
      (a : Settlement) (e : Error) → settlement_read a ≡ err e → e ≡ Error.value_error
  unfolding settlement_read
  settlement_read-value_error a e h = ground arith

  look-Harmless : (m : Action Reply) (w : World) → Keeps (λ db. db ≡ w.db) m → Harmless w.db (m w)
  look-Harmless m w keeps = ends (m w) (keeps.at w refl)
    where
      ends : (r : Result Reply × World) → r.1.db ≡ w.db → Harmless w.db r
      ends (ok a, v) same = tt
      ends (err e, v) same = inl same

  endpoint-Harmless :
      (call : Call) (actor : Actor) (w : World) → Harmless w.db (endpoint jwt settings call actor w)
  unfolding endpoint settlement_evidence audit_verification register_asset create_offer
      reserve_offer issue_dispatch record_meter_reading settle_reservation
  endpoint-Harmless health actor w =
      look-Harmless (endpoint jwt settings health actor) w (search keeps_rules)
  endpoint-Harmless (register_asset_call command) actor w =
      reply-Harmless (register_asset command actor) _ _ w (search atomic_rules)
        asset_read-value_error
  endpoint-Harmless (create_offer_call command) actor w =
      reply-Harmless (create_offer command actor) _ _ w (search atomic_rules) offer_read-value_error
  endpoint-Harmless (reserve_offer_call offer_id command key) actor w =
      reply-Harmless (reserve_offer offer_id command actor key) _ _ w (search atomic_rules)
        reservation_read-value_error
  endpoint-Harmless (issue_dispatch_call reservation_id command key) actor w =
      reply-Harmless (issue_dispatch reservation_id command actor key) _ _ w (search atomic_rules)
        dispatch_read-value_error
  endpoint-Harmless (record_meter_reading_call command) actor w =
      reply-Harmless (record_meter_reading command actor) _ _ w (search atomic_rules)
        meter_reading_read-value_error
  endpoint-Harmless (settle_reservation_call reservation_id key) actor w =
      reply-Harmless (settle_reservation reservation_id actor key) _ _ w (search atomic_rules)
        settlement_read-value_error
  endpoint-Harmless (settlement_evidence_call settlement_id) actor w =
      look-Harmless (endpoint jwt settings (settlement_evidence_call settlement_id) actor) w
        (search keeps_rules depth 12)
  endpoint-Harmless verify_audit actor w =
      look-Harmless (endpoint jwt settings verify_audit actor) w (search keeps_rules depth 12)
  endpoint-Harmless outbox_health actor w =
      look-Harmless (endpoint jwt settings outbox_health actor) w (search keeps_rules depth 12)

  handle-Harmless :
      (call : Call) (headers : Headers) (w : World)
      → Harmless w.db (handle jwt settings call headers w)
  unfolding handle ◌>>=◌
  handle-Harmless health headers w =
      look-Harmless (handle jwt settings health headers) w (search keeps_rules)
  handle-Harmless call headers w = actor_ends (get_actor jwt settings headers)
    where
      actor_ends : (r : Result Actor) → Harmless w.db ((lift r >>= endpoint jwt settings call) w)
      actor_ends (ok actor) = endpoint-Harmless call actor w
      actor_ends (err e) = inl refl

  problem_status :
      (e : Error) (status : ℕ) (body : ErrorRead)
      → domain_error_handler e ≡ problem status body
      → (status_code e ≡ some status) × (e ≢ Error.value_error)
  unfolding domain_error_handler status_code error_code
  problem_status e status body h = (ground arith, ground arith)

  -- A request that gets an error response of the application has changed nothing: the database is
  -- the one before it, and the status is the one of the exception, 401, 403, 404 or 409.
  pub respond-problem :
      (call : Call) (headers : Headers) (w w' : World) (status : ℕ) (body : ErrorRead)
      → respond jwt settings call headers w ≡ (problem status body, w')
      → (w'.db ≡ w.db) × ((status ≡ 401) ⊎ (status ≡ 403) ⊎ (status ≡ 404) ⊎ (status ≡ 409))
  unfolding respond status_code
  respond-problem call headers w w' status body h =
      ends (handle jwt settings call headers w) (handle-Harmless call headers w) h
    where
      statuses :
          (e : Error)
          → status_code e ≡ some status
          → (status ≡ 401) ⊎ (status ≡ 403) ⊎ (status ≡ 404) ⊎ (status ≡ 409)
      statuses e h = ground arith

      unchanged :
          (e : Error) (v : World)
          → (v.db ≡ w.db) ⊎ (e ≡ Error.value_error)
          → e ≢ Error.value_error
          → v ≡ w'
          → w'.db ≡ w.db
      unchanged e v (inl same) other moved_to = rw moved_to at same
      unchanged e v (inr misfit) other moved_to = absurd (other misfit)

      ends :
          (r : Result Reply × World)
          → Harmless w.db r
          → ◌≡◌ {A = Response × World} (response_of call r.0, r.1) (problem status body, w')
          → (w'.db ≡ w.db) × ((status ≡ 401) ⊎ (status ≡ 403) ⊎ (status ≡ 404) ⊎ (status ≡ 409))
      ends (ok reply, v) harmless k = absurd (ground arith)
      ends (err e, v) harmless k =
          let (code, other) = problem_status e status body (ap (λ r. r.0) k) in
          (unchanged e v harmless other (ap (λ r. r.1) k), statuses e code)
