-- ===== src/Api/Effects.antt =====
-- What a request does to the database.
use energy_flex_trust_platfo.Prelude.{◌≡◌, ◌⊎◌, inl, inr, refl, sym, subst}
use energy_flex_trust_platfo.Domain.{Actor, Result, ok, err}
use energy_flex_trust_platfo.Platform.{Platform}
use energy_flex_trust_platfo.Session.{World, Action, pure, lift, continue, ◌>>=◌}
use energy_flex_trust_platfo.Session.Rules.{Keeps, keeps_rules}
use energy_flex_trust_platfo.Schemas.Read.{
  asset_read, offer_read, reservation_read, dispatch_read, meter_reading_read, settlement_read,
}
use energy_flex_trust_platfo.Service.Settle.{settlement_evidence, audit_verification}
use energy_flex_trust_platfo.Config.{Settings}
use energy_flex_trust_platfo.Auth.{Jwt}
use energy_flex_trust_platfo.System.{
  State, moved, Step, asset_call, offer_call, reserve_call, issue_call, reading_call, settle_call,
}
use energy_flex_trust_platfo.Api.{
  Headers, Call, health, register_asset_call, create_offer_call, reserve_offer_call,
  issue_dispatch_call, record_meter_reading_call, settle_reservation_call, settlement_evidence_call,
  verify_audit, outbox_health, Reply, get_actor, reply_with, endpoint, handle, respond,
}

module _ {Key : Type 0} (jwt : Jwt Key) (settings : Settings) ⦃p : Platform⦄ where
  after_read :
      {A B : Type 0} (read : A → Result B) (reply : B → Reply) (a : A) (w : World)
      → (reply_with jwt settings read reply a w).1 ≡ w
  unfolding ◌>>=◌
  after_read {A} {B} read reply a w = kept (read a)
    where
      kept : (r : Result B) → (continue (λ b. pure (reply b)) (r, w)).1 ≡ w
      kept (ok b) = refl
      kept (err e) = refl

  -- The response model changes nothing.
  after_reply :
      {A B : Type 0} (m : Action A) (read : A → Result B) (reply : B → Reply) (w : World)
      → ((m >>= reply_with jwt settings read reply) w).1 ≡ (m w).1
  unfolding ◌>>=◌
  after_reply {A} m read reply w = kept (m w)
    where
      kept : (r : Result A × World) → (continue (reply_with jwt settings read reply) r).1 ≡ r.1
      kept (ok a, v) = after_read read reply a v
      kept (err e, v) = refl

  module _ (s : State) where
    abbrev Effect : World → Type 0
    Effect after = (after.db ≡ s.world.db) ⊎ Step s (moved s after)

    stepped :
        {A B : Type 0} (m : Action A) (read : A → Result B) (reply : B → Reply)
        → Step s (moved s (m s.world).1)
        → Effect ((m >>= reply_with jwt settings read reply) s.world).1
    stepped m read reply step =
        inr (subst (λ v. Step s (moved s v)) (sym (after_reply m read reply s.world)) step)

    looked : (m : Action Reply) → Keeps (λ db. db ≡ s.world.db) m → Effect (m s.world).1
    looked m keeps = inl (keeps.at s.world refl)

    endpoint-Effect :
        (call : Call) (actor : Actor) → Effect (endpoint jwt settings call actor s.world).1
    unfolding endpoint settlement_evidence audit_verification
    endpoint-Effect health actor = looked (endpoint jwt settings health actor) (search keeps_rules)
    endpoint-Effect (register_asset_call command) actor =
        stepped _ asset_read _ (asset_call command actor)
    endpoint-Effect (create_offer_call command) actor =
        stepped _ offer_read _ (offer_call command actor)
    endpoint-Effect (reserve_offer_call offer_id command key) actor =
        stepped _ reservation_read _ (reserve_call offer_id command actor key)
    endpoint-Effect (issue_dispatch_call reservation_id command key) actor =
        stepped _ dispatch_read _ (issue_call reservation_id command actor key)
    endpoint-Effect (record_meter_reading_call command) actor =
        stepped _ meter_reading_read _ (reading_call command actor)
    endpoint-Effect (settle_reservation_call reservation_id key) actor =
        stepped _ settlement_read _ (settle_call reservation_id actor key)
    endpoint-Effect (settlement_evidence_call settlement_id) actor =
        looked (endpoint jwt settings (settlement_evidence_call settlement_id) actor)
          (search keeps_rules depth 12)
    endpoint-Effect verify_audit actor =
        looked (endpoint jwt settings verify_audit actor) (search keeps_rules depth 12)
    endpoint-Effect outbox_health actor =
        looked (endpoint jwt settings outbox_health actor) (search keeps_rules depth 12)

    with_actor :
        (call : Call) (r : Result Actor)
        → Effect ((lift r >>= endpoint jwt settings call) s.world).1
    unfolding ◌>>=◌
    with_actor call (ok actor) = endpoint-Effect call actor
    with_actor call (err e) = inl refl

    -- A request either leaves the database as it was or is one step of the system, whatever the
    -- headers are and whatever is answered.
    pub respond-Step :
        (call : Call) (headers : Headers)
        → ((respond jwt settings call headers s.world).1.db ≡ s.world.db)
          ⊎ Step s (moved s (respond jwt settings call headers s.world).1)
    unfolding respond handle
    respond-Step health headers = looked (handle jwt settings health headers) (search keeps_rules)
    respond-Step call headers = with_actor call (get_actor jwt settings headers)
