-- ===== src/Guarantees/Success.antt =====
-- What a call that succeeds has checked, and what it has written.
use energy_flex_trust_platfo.Prelude.{String, ◌≡◌, refl, true, false, none, some, [], ◌∷◌, ==_iff}
use energy_flex_trust_platfo.Domain.{
  Actor, ok, require_role, asset_owner, market_operator, is_open, is_active, is_reserved, queued,
  reserved,
}
use energy_flex_trust_platfo.Platform.{Platform}
use energy_flex_trust_platfo.Decimal.{exceeds}
use energy_flex_trust_platfo.Models.Table.{get}
use energy_flex_trust_platfo.Models.{
  Asset, FlexOffer, Reservation, Dispatch, Database, asset_row, flex_offer_row, reservation_row,
  dispatch_row, settlement_row,
}
use energy_flex_trust_platfo.Session.{World}
use energy_flex_trust_platfo.Session.Outcome.{
  OnOk, OnOk-elim, OnOk-lift, OnOk-begin, OnOk-write, OnOk-pure, OnOk-require, OnOk-raise_if,
  OnOk-raise_unless, OnOk-new_id, OnOk-utc_now, OnOk-any, OnOk-map,
}
use energy_flex_trust_platfo.Schemas.{OfferCreate, ReservationCreate, DispatchCreate}
use energy_flex_trust_platfo.Service.Common.{find_record}
use energy_flex_trust_platfo.Service.Registration.{offer, create_offer}
use energy_flex_trust_platfo.Service.Reserve.{reserve, reserve_offer}
use energy_flex_trust_platfo.Service.Issue.{outside_window, issue, issue_dispatch}
use energy_flex_trust_platfo.Guarantees.Replay.{guarded-fresh}

module _ ⦃p : Platform⦄ where
  -- What `issue_dispatch` has checked, at the world before the call, and what it returns.
  pub record Issuing (reservation_id : String) (command : DispatchCreate) (actor : Actor)
      (db : Database) (x : Dispatch) : Type 0 where
    pub r : Reservation
    pub o : FlexOffer
    pub found_reservation : get reservation_id db.reservations ≡ some r
    pub found_offer : get r.offer_id db.flex_offers ≡ some o
    pub reserved_before : is_reserved r.status ≡ true
    pub within : exceeds command.target_kw r.quantity_kw ≡ false
    pub inside : outside_window command o ≡ false
    pub about : x.reservation_id ≡ r.id
    pub target : x.target_kw ≡ command.target_kw
    pub times : (x.starts_at ≡ command.starts_at) × (x.ends_at ≡ command.ends_at)
    pub waits : x.status ≡ queued
    pub by : x.issued_by ≡ actor.actor_id

  issue-Issuing :
      (reservation_id : String) (command : DispatchCreate) (actor : Actor)
      (key request_hash : String) (w : World)
      → OnOk
          (λ x after. Issuing reservation_id command actor w.db x)
          (issue reservation_id command actor key request_hash w)
  unfolding issue
  issue-Issuing reservation_id command actor key request_hash w =
      OnOk-require _ _ _ _ _ λ r found_r. OnOk-raise_unless _ _ _ _ _ λ was_reserved.
        OnOk-raise_if _ _ _ _ _ λ within. OnOk-require _ _ _ _ _ λ o found_o.
          OnOk-require _ _ _ _ _ λ a found_a. OnOk-raise_if _ _ _ _ _ λ inside. OnOk-new_id _ _ _ (
            OnOk-utc_now _ _ _ (
              OnOk-any _ _ _ _ λ u v. OnOk-any _ _ _ _ λ m v. OnOk-any _ _ _ _ λ u v.
                OnOk-any _ _ _ _ λ u v. OnOk-any _ _ _ _ λ e v. OnOk-any _ _ _ _ λ u v.
                  OnOk-pure _ _ _ (record {
                    r = r;
                    o = o;
                    found_reservation = found_r;
                    found_offer = found_o;
                    reserved_before = was_reserved;
                    within = within;
                    inside = inside;
                    about = refl;
                    target = refl;
                    times = (refl, refl);
                    waits = refl;
                    by = refl;
                  })))

  pub record Reserving (offer_id : String) (command : ReservationCreate) (actor : Actor)
      (db : Database) (x : Reservation) : Type 0 where
    pub o : FlexOffer
    pub found : get offer_id db.flex_offers ≡ some o
    pub was_open : is_open o.status ≡ true
    pub within : exceeds command.quantity_kw o.quantity_kw ≡ false
    pub about : x.offer_id ≡ o.id
    pub quantity : x.quantity_kw ≡ command.quantity_kw
    pub waits : x.status ≡ reserved
    pub by : x.requested_by ≡ actor.actor_id

  pub record Offering (command : OfferCreate) (actor : Actor) (db : Database) (x : FlexOffer)
      : Type 0 where
    pub a : Asset
    pub found : get command.asset_id db.assets ≡ some a
    pub owner : a.owner_id ≡ actor.actor_id
    pub works : is_active a.status ≡ true
    pub within : exceeds command.quantity_kw a.capacity_kw ≡ false
    pub about : x.asset_id ≡ a.id
    pub window : (x.window_start ≡ command.window_start) × (x.window_end ≡ command.window_end)
    pub terms : (x.quantity_kw ≡ command.quantity_kw) × (x.price_per_kwh ≡ command.price_per_kwh)
    pub is_offered : is_open x.status ≡ true

  -- When `issue_dispatch` answers a key that was not recorded, then: the actor is a market
  -- operator; the reservation was only reserved; the target is within the reserved quantity; and the
  -- delivery lies in the offer's window. The dispatch that it returns is of that reservation, has
  -- the target and the times of the command, is queued and names its issuer.
  pub issue_dispatch-Issuing :
      (reservation_id : String) (command : DispatchCreate) (actor : Actor) (key : String)
      (w w' : World) (x : Dispatch)
      → find_record "issue_dispatch" key w.db.idempotency_records ≡ none
      → issue_dispatch reservation_id command actor key w ≡ (ok x, w')
      → (require_role actor (market_operator ∷ []) ≡ ok tt)
        × Issuing reservation_id command actor w.db x
  unfolding issue_dispatch
  issue_dispatch-Issuing reservation_id command actor key w w' x missing done =
      OnOk-elim
        (λ x after.
          (require_role actor (market_operator ∷ []) ≡ ok tt)
          × Issuing reservation_id command actor w.db x)
        (issue_dispatch reservation_id command actor key w) x w'
        (guarded-fresh _ _ _ _ _ _ _ w missing λ allowed.
          OnOk-map {A = Dispatch} _
            (λ x after.
              (require_role actor (market_operator ∷ []) ≡ ok tt)
              × Issuing reservation_id command actor w.db x)
            _ (λ x after h. (allowed, h)) (issue-Issuing reservation_id command actor key _ w))
        done

  reserve-Reserving :
      (offer_id : String) (command : ReservationCreate) (actor : Actor) (key request_hash : String)
      (w : World)
      → OnOk
          (λ x after. Reserving offer_id command actor w.db x)
          (reserve offer_id command actor key request_hash w)
  unfolding reserve
  reserve-Reserving offer_id command actor key request_hash w = OnOk-require _ _ _ _ _ λ o found.
      OnOk-raise_unless _ _ _ _ _ λ was_open. OnOk-raise_if _ _ _ _ _ λ within. OnOk-write _ _ _ _ (
        OnOk-new_id _ _ _ (
          OnOk-utc_now _ _ _ (
            OnOk-any _ _ _ _ λ u v. OnOk-any _ _ _ _ λ e v. OnOk-any _ _ _ _ λ u v.
              OnOk-pure _ _ _ (record {
                o = o;
                found = found;
                was_open = was_open;
                within = within;
                about = refl;
                quantity = refl;
                waits = refl;
                by = refl;
              }))))

  -- When `reserve_offer` answers a key that was not recorded, then the actor is a market operator,
  -- the offer was open and has the quantity of the command; the reservation that it returns is of
  -- that offer and that quantity, is reserved and names who asked for it.
  pub reserve_offer-Reserving :
      (offer_id : String) (command : ReservationCreate) (actor : Actor) (key : String)
      (w w' : World) (x : Reservation)
      → find_record "reserve_offer" key w.db.idempotency_records ≡ none
      → reserve_offer offer_id command actor key w ≡ (ok x, w')
      → (require_role actor (market_operator ∷ []) ≡ ok tt)
        × Reserving offer_id command actor w.db x
  unfolding reserve_offer
  reserve_offer-Reserving offer_id command actor key w w' x missing done =
      OnOk-elim
        (λ x after.
          (require_role actor (market_operator ∷ []) ≡ ok tt)
          × Reserving offer_id command actor w.db x)
        (reserve_offer offer_id command actor key w) x w'
        (guarded-fresh _ _ _ _ _ _ _ w missing λ allowed.
          OnOk-map {A = Reservation} _
            (λ x after.
              (require_role actor (market_operator ∷ []) ≡ ok tt)
              × Reserving offer_id command actor w.db x)
            _ (λ x after h. (allowed, h)) (reserve-Reserving offer_id command actor key _ w))
        done

  -- When `create_offer` answers, the actor is the owner of the asset, which is active and has the
  -- capacity that is offered; the offer is open, of that asset, with the window, the quantity and
  -- the price of the command.
  pub create_offer-Offering :
      (command : OfferCreate) (actor : Actor) (w w' : World) (x : FlexOffer)
      → create_offer command actor w ≡ (ok x, w')
      → (require_role actor (asset_owner ∷ []) ≡ ok tt) × Offering command actor w.db x
  unfolding create_offer offer
  create_offer-Offering command actor w w' x done =
      OnOk-elim
        (λ x after. (require_role actor (asset_owner ∷ []) ≡ ok tt) × Offering command actor w.db x)
        (create_offer command actor w) x w'
        (OnOk-lift _ _ _ _ λ allowed. OnOk-begin _ _ _ (
          OnOk-require _ _ _ _ _ λ a found. OnOk-raise_unless _ _ _ _ _ λ owns.
            OnOk-raise_unless _ _ _ _ _ λ works. OnOk-raise_if _ _ _ _ _ λ within.
              OnOk-new_id _ _ _ (
                OnOk-utc_now _ _ _ (
                  OnOk-any _ _ _ _ λ u v. OnOk-new_id _ _ _ (
                    OnOk-any _ _ _ _ λ e v. OnOk-pure _ _ _ (
                      allowed,
                      record {
                        a = a;
                        found = found;
                        owner = (==_iff a.owner_id actor.actor_id).0 owns;
                        works = works;
                        within = within;
                        about = refl;
                        window = (refl, refl);
                        terms = (refl, refl);
                        is_offered = refl;
                      },
                    ))))))
        done
