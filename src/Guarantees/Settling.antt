-- ===== src/Guarantees/Settling.antt =====
-- What a settlement that succeeds has checked, and what it has computed.
use energy_flex_trust_platfo.Prelude.{
  String, ◌≡◌, ◌≢◌, inl, inr, refl, subst, true, false, Option, none, some, Option-cases, ltb, leb,
  eqb, ◌&&◌, order_by, select_where, List, [], ◌∷◌, map, ◌||◌, ◌==◌, ==_iff, arith,
}
use energy_flex_trust_platfo.Domain.{
  Actor, ok, require_role, settlement_analyst, is_dispatched, is_issued,
}
use energy_flex_trust_platfo.Platform.{Platform}
use energy_flex_trust_platfo.Decimal.{
  Decimal, sum_from, multiply, delivered_energy, settlement_amount,
}
use energy_flex_trust_platfo.Models.Table.{get}
use energy_flex_trust_platfo.Models.{
  FlexOffer, Reservation, Dispatch, MeterReading, Settlement, Database, asset_row, flex_offer_row,
  reservation_row, dispatch_row, settlement_row,
}
use energy_flex_trust_platfo.Session.{World}
use energy_flex_trust_platfo.Session.Outcome.{
  OnOk, OnOk-elim, OnOk-query, OnOk-pure, OnOk-or_raise, OnOk-require, OnOk-raise_if,
  OnOk-raise_unless, OnOk-new_id, OnOk-utc_now, OnOk-any, OnOk-map,
}
use energy_flex_trust_platfo.Service.Common.{find_record}
use energy_flex_trust_platfo.Service.Registration.{offer}
use energy_flex_trust_platfo.Service.Settle.{
  dispatch_of, counts_for, settled_readings, is_empty, energy_of, complete, settle,
  settle_reservation,
}
use energy_flex_trust_platfo.Outbox.Worker.{leb_text}
use energy_flex_trust_platfo.Guarantees.Replay.{guarded-fresh}
use energy_flex_trust_platfo.Guarantees.Nearest.{
  IsNearestEven, IsNearestUp, IsRounded, quantize-IsNearestEven, quantize-IsNearestUp,
}

-- The readings of the offer's asset whose interval lies in the window of the dispatch, by the start of
-- the interval and then by id.
abbrev pub readings_of : FlexOffer → Dispatch → Database → List MeterReading
readings_of o d db =
    order_by
      (λ a b.
        ltb a.interval_start.instant b.interval_start.instant
        || (eqb a.interval_start.instant b.interval_start.instant && leb_text a.id b.id))
      (select_where
        (λ m.
          m.asset_id == o.asset_id
          && leb d.starts_at.instant m.interval_start.instant
          && leb m.interval_end.instant d.ends_at.instant)
        db.meter_readings)

settled_readings-readings_of :
    (o : FlexOffer) (d : Dispatch) (db : Database) → settled_readings o d db ≡ readings_of o d db
unfolding settled_readings counts_for
settled_readings-readings_of o d db = refl

abbrev zero_energy : Decimal
zero_energy = record { coefficient = 0; scale = 0 }

-- The sum of the energies and its rounding.
record Measured (energies : List Decimal) (delivered : Decimal) : Type 0 where
  total : Decimal
  summed : sum_from zero_energy energies ≡ some total
  rounded : IsRounded IsNearestEven total delivered

delivered_energy-Measured :
    (energies : List Decimal) (delivered : Decimal)
    → delivered_energy energies ≡ some delivered
    → Measured energies delivered
unfolding delivered_energy
delivered_energy-Measured energies delivered h =
    elim (Option-cases (sum_from zero_energy energies)) [
      | inl missing ↦ absurd (no_sum (rw missing at h))
      | inr (total, found) ↦ record {
        total = total;
        summed = found;
        rounded = quantize-IsNearestEven total delivered (rw found at h);
      }
    ]
  where
    no_sum : ◌≡◌ {A = Option Decimal} none (some delivered) → ⊥
    no_sum h = ground arith

-- The product of the energy and the price, and its rounding.
record Priced (delivered price amount : Decimal) : Type 0 where
  product : Decimal
  multiplied : multiply delivered price ≡ some product
  rounded : IsRounded IsNearestUp product amount

settlement_amount-Priced :
    (delivered price amount : Decimal)
    → settlement_amount delivered price ≡ some amount
    → Priced delivered price amount
unfolding settlement_amount
settlement_amount-Priced delivered price amount h = elim (Option-cases (multiply delivered price)) [
  | inl missing ↦ absurd (no_product (rw missing at h))
  | inr (product, found) ↦ record {
    product = product;
    multiplied = found;
    rounded = quantize-IsNearestUp product amount (rw found at h);
  }
]
  where
    no_product : ◌≡◌ {A = Option Decimal} none (some amount) → ⊥
    no_product h = ground arith

module _ ⦃p : Platform⦄ where
  -- What `settle_reservation` has checked and computed, at the world before the call.
  pub record Settling (reservation_id : String) (actor : Actor) (db : Database) (x : Settlement)
      : Type 0 where
    pub r : Reservation
    pub d : Dispatch
    pub o : FlexOffer
    pub found_reservation : get reservation_id db.reservations ≡ some r
    pub found_dispatch : dispatch_of r.id db.dispatches ≡ some d
    pub found_offer : get r.offer_id db.flex_offers ≡ some o
    pub delivered_before : is_dispatched r.status ≡ true
    pub issued_before : is_issued d.status ≡ true
    pub not_issuer : d.issued_by ≢ actor.actor_id
    pub not_requester : r.requested_by ≢ actor.actor_id
    pub some_readings : is_empty (readings_of o d db) ≡ false
    pub total : Decimal
    pub summed : sum_from zero_energy (map energy_of (readings_of o d db)) ≡ some total
    pub measured : IsRounded IsNearestEven total x.delivered_kwh
    pub product : Decimal
    pub multiplied : multiply x.delivered_kwh o.price_per_kwh ≡ some product
    pub priced : IsRounded IsNearestUp product x.amount
    pub same_price : x.price_per_kwh ≡ o.price_per_kwh
    pub about : x.reservation_id ≡ r.id
    pub by : x.settled_by ≡ actor.actor_id

  complete-fields :
      (r : Reservation) (offer : FlexOffer) (d : Dispatch) (ids : List String)
      (delivered amount : Decimal) (actor : Actor) (key request_hash : String) (w : World)
      → OnOk
          (λ x after.
            (x.delivered_kwh ≡ delivered)
            × (x.amount ≡ amount)
            × (x.reservation_id ≡ r.id)
            × (x.settled_by ≡ actor.actor_id)
            × (x.price_per_kwh ≡ offer.price_per_kwh))
          (complete r offer d ids delivered amount actor key request_hash w)
  unfolding complete
  complete-fields r offer d ids delivered amount actor key request_hash w = OnOk-new_id _ _ _ (
      OnOk-utc_now _ _ _ (
        OnOk-any _ _ _ _ λ u v. OnOk-any _ _ _ _ λ e v. OnOk-any _ _ _ _ λ u v.
          OnOk-any _ _ _ _ λ u v.
            OnOk-any _ _ _ _
              λ u v. OnOk-any _ _ _ _ λ u v. OnOk-pure _ _ _ (refl, refl, refl, refl, refl)))

  distinct : (a b c : String) → (a == c || b == c) ≡ false → (a ≢ c) × (b ≢ c)
  distinct a b c h = ground (arith, ==_iff a c, ==_iff b c)

  settle-Settling :
      (reservation_id : String) (actor : Actor) (key request_hash : String) (w : World)
      → OnOk
          (λ x after. Settling reservation_id actor w.db x)
          (settle reservation_id actor key request_hash w)
  unfolding settle
  settle-Settling reservation_id actor key request_hash w = OnOk-require _ _ _ _ _ λ r found_r.
      OnOk-raise_unless _ _ _ _ _ λ was_dispatched. OnOk-query _ _ _ _ (
        OnOk-or_raise _ _ _ _ _ λ d found_d. OnOk-raise_unless _ _ _ _ _ λ was_issued.
          OnOk-raise_if _ _ _ _ _ λ apart. OnOk-require _ _ _ _ _ λ offer found_offer.
            OnOk-query _ _ _ _ (
              OnOk-raise_if _ _ _ _ _ λ some_readings. OnOk-or_raise _ _ _ _ _ λ delivered sum.
                OnOk-or_raise _ _ _ _ _ λ amount product.
                  OnOk-map {A = Settlement} _ (λ x after. Settling reservation_id actor w.db x) _
                    (λ x after fields.
                      let m = delivered_energy-Measured _ _ sum in
                      let a = settlement_amount-Priced _ _ _ product in
                      let same : settled_readings offer d w.db ≡ readings_of offer d w.db =
                        settled_readings-readings_of offer d w.db in
                      record {
                        r = r;
                        d = d;
                        o = offer;
                        found_reservation = found_r;
                        found_dispatch = found_d;
                        found_offer = found_offer;
                        delivered_before = was_dispatched;
                        issued_before = was_issued;
                        not_issuer = (distinct d.issued_by r.requested_by actor.actor_id apart).0;
                        not_requester =
                            (distinct d.issued_by r.requested_by actor.actor_id apart).1;
                        some_readings = subst (λ rs. is_empty rs ≡ false) same some_readings;
                        total = m.total;
                        summed =
                            subst (λ rs. sum_from zero_energy (map energy_of rs) ≡ some m.total)
                              same m.summed;
                        measured = rw fields.0 m.rounded;
                        product = a.product;
                        multiplied = rw fields.0 a.multiplied;
                        priced = rw fields.1 a.rounded;
                        same_price = fields.4;
                        about = fields.2;
                        by = fields.3;
                      })
                    (complete-fields r offer d _ delivered amount actor key request_hash w)))

  -- When `settle_reservation` answers a key that was not recorded, then: the actor is a settlement
  -- analyst; the reservation was dispatched and its dispatch issued; the actor neither issued that
  -- dispatch nor requested the reservation; the energy is the sum of the readings of the asset that lie
  -- in the dispatch window, of which there is one at least, rounded to the nearest of six places, and
  -- to the even one of two; and the amount is the product of the energy and the offer's price, rounded
  -- to the nearest of six places, and to the larger one of two.
  pub settle_reservation-Settling :
      (reservation_id : String) (actor : Actor) (key : String) (w w' : World) (x : Settlement)
      → find_record "settle_reservation" key w.db.idempotency_records ≡ none
      → settle_reservation reservation_id actor key w ≡ (ok x, w')
      → (require_role actor (settlement_analyst ∷ []) ≡ ok tt)
        × Settling reservation_id actor w.db x
  unfolding settle_reservation
  settle_reservation-Settling reservation_id actor key w w' x missing done =
      OnOk-elim
        (λ x after.
          (require_role actor (settlement_analyst ∷ []) ≡ ok tt)
          × Settling reservation_id actor w.db x)
        (settle_reservation reservation_id actor key w) x w'
        (guarded-fresh _ _ _ _ _ _ _ w missing λ allowed.
          OnOk-map {A = Settlement} _
            (λ x after.
              (require_role actor (settlement_analyst ∷ []) ≡ ok tt)
              × Settling reservation_id actor w.db x)
            _ (λ x after h. (allowed, h)) (settle-Settling reservation_id actor key _ w))
        done
