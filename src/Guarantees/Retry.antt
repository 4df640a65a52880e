-- ===== src/Guarantees/Retry.antt =====
-- `reserve_offer`, `issue_dispatch` and `settle_reservation` can be sent again.
use energy_flex_trust_platfo.Prelude.{
  String, ◌≡◌, ◌≢◌, refl, ap, false, some, List, [], ◌∷◌, ◌++◌, any, ◌||◌, ◌==◌,
}
use energy_flex_trust_platfo.Domain.{Actor, Error, ok, err, require_role, market_operator}
use energy_flex_trust_platfo.Platform.{Platform}
use energy_flex_trust_platfo.Models.Table.{
  Row, get, update, get-fresh, Inserted-Touched, append-Inserted, update-Touched,
}
use energy_flex_trust_platfo.Models.{
  Reservation, Dispatch, Settlement, FlexOffer, IdempotencyRecord, Database, reservation_row,
  dispatch_row, settlement_row,
}
use energy_flex_trust_platfo.Decimal.{Decimal}
use energy_flex_trust_platfo.Session.{World}
use energy_flex_trust_platfo.Session.Outcome.{
  OnOk, OnOk-bind, OnOk-query, OnOk-write, OnOk-pure, OnOk-or_raise, OnOk-require, OnOk-raise_if,
  OnOk-raise_unless, OnOk-new_id, OnOk-utc_now,
}
use energy_flex_trust_platfo.Session.Stored.{
  OnOk-add_reservation, OnOk-add_dispatch, OnOk-add_settlement,
}
use energy_flex_trust_platfo.Audit.Chain.{OnOk-append_event}
use energy_flex_trust_platfo.Schemas.{ReservationCreate, DispatchCreate}
use energy_flex_trust_platfo.Service.Reserve.{reserve_hash, reserve, reserve_offer}
use energy_flex_trust_platfo.Service.Issue.{issue_hash, issue, issue_dispatch}
use energy_flex_trust_platfo.Service.Settle.{settle_hash, complete, settle, settle_reservation}
use energy_flex_trust_platfo.Linkage.Issue.{enqueue_dispatch-Enqueued}
use energy_flex_trust_platfo.Guarantees.Replay.{
  IsRecorded, Noted, store_idempotency-Noted, guarded-again, guarded-conflict,
}

module _ {R : Type 0} ⦃row : Row R⦄ where
  new_row :
      (rows : List R) (x : R) (clashes : R → _)
      → any (λ y. row.key y == row.key x || clashes y) rows ≡ false
      → get (row.key x) (rows ++ x ∷ []) ≡ some x
  new_row rows x clashes free =
      (append-Inserted rows x (get-fresh (row.key x) clashes rows free)).hit

  -- The same, when the new row is written to again.
  new_row_updated :
      (rows : List R) (x : R) (f : R → R) (clashes : R → _)
      → any (λ y. row.key y == row.key x || clashes y) rows ≡ false
      → ((y : R) → row.key (f y) ≡ row.key y)
      → get (row.key x) (update (row.key x) f (rows ++ x ∷ [])) ≡ some (f x)
  new_row_updated rows x f clashes free keeps =
      (Inserted-Touched (row.key x) x f (λ j. get j rows) (λ j. get j (rows ++ x ∷ []))
        (λ j. get j (update (row.key x) f (rows ++ x ∷ [])))
        (append-Inserted rows x (get-fresh (row.key x) clashes rows free))
        (update-Touched (row.key x) f (rows ++ x ∷ []) keeps)).hit

module _ ⦃p : Platform⦄ where
  written-IsRecorded :
      {R : Type 0} ⦃row : Row R⦄ (operation key request_hash : String) (table : Database → List R)
      (a : R) (before : Database) (after : World)
      → Noted operation key request_hash (row.key a) before after.db
      → ((entries : List IdempotencyRecord)
          → table (record before { idempotency_records = entries }) ≡ table before)
      → get (row.key a) (table before) ≡ some a
      → IsRecorded operation key request_hash table a after
  written-IsRecorded operation key request_hash table a before after noted other stored = record {
    entry = noted.entry;
    resource = a;
    found = noted.found;
    same_hash = noted.same_hash;
    stored =
        rw
          (noted.names, ap table noted.rows, other (before.idempotency_records ++ noted.entry ∷ []))
          stored;
    same_key = refl;
  }

  reserve-IsRecorded :
      (offer_id : String) (command : ReservationCreate) (actor : Actor) (key request_hash : String)
      (w : World)
      → OnOk
          (λ x after. IsRecorded "reserve_offer" key request_hash (λ db. db.reservations) x after)
          (reserve offer_id command actor key request_hash w)
  unfolding reserve
  reserve-IsRecorded offer_id command actor key request_hash w =
      OnOk-require _ _ _ _ _ λ offer found. OnOk-raise_unless _ _ _ _ _ λ is_open.
        OnOk-raise_if _ _ _ _ _ λ within. OnOk-write _ _ _ _ (
          OnOk-new_id _ _ _ (
            OnOk-utc_now _ _ _ (
              OnOk-add_reservation _ _ _ _ λ free.
                OnOk-append_event _ _ _ _ _ _ _ _ _ λ e after appended.
                  OnOk-bind _ _ _ _ _ (store_idempotency-Noted _ _ _ _ _ _) λ u v noted.
                    OnOk-pure _ _ _ (
                      written-IsRecorded _ _ _ _ _ _ v noted (λ entries. refl)
                        (rw appended.stored (new_row w.db.reservations _ _ free))))))

  -- `reserve_offer`, sent again with the same arguments after it has succeeded, returns a
  -- reservation of the same id and changes nothing.
  pub reserve_offer-again :
      (offer_id : String) (command : ReservationCreate) (actor : Actor) (key : String)
      (w w' : World) (x : Reservation)
      → reserve_offer offer_id command actor key w ≡ (ok x, w')
      → (y : Reservation) × (reserve_offer offer_id command actor key w' ≡ (ok y, w'))
        × (y.id ≡ x.id)
  unfolding reserve_offer
  reserve_offer-again offer_id command actor key w w' x done =
      guarded-again _ _ _ _ _ _ w w' x
        (reserve-IsRecorded offer_id command actor key (reserve_hash offer_id command actor)) done

  issue-IsRecorded :
      (reservation_id : String) (command : DispatchCreate) (actor : Actor)
      (key request_hash : String) (w : World)
      → OnOk
          (λ x after. IsRecorded "issue_dispatch" key request_hash (λ db. db.dispatches) x after)
          (issue reservation_id command actor key request_hash w)
  unfolding issue
  issue-IsRecorded reservation_id command actor key request_hash w =
      OnOk-require _ _ _ _ _ λ r found_r. OnOk-raise_unless _ _ _ _ _ λ was_reserved.
        OnOk-raise_if _ _ _ _ _ λ within. OnOk-require _ _ _ _ _ λ offer found_offer.
          OnOk-require _ _ _ _ _ λ asset found_asset. OnOk-raise_if _ _ _ _ _ λ inside.
            OnOk-new_id _ _ _ (
              OnOk-utc_now _ _ _ (
                OnOk-add_dispatch _ _ _ _ λ free.
                  OnOk-bind _ _ _ _ _ (enqueue_dispatch-Enqueued _ _ _) λ m after sent.
                    OnOk-write _ _ _ _ (
                      OnOk-write _ _ _ _ (
                        OnOk-append_event _ _ _ _ _ _ _ _ _ λ e later appended.
                          OnOk-bind _ _ _ _ _ (store_idempotency-Noted _ _ _ _ _ _) λ u v noted.
                            OnOk-pure _ _ _ (
                              written-IsRecorded _ _ _ _ _ _ v noted (λ entries. refl)
                                (rw (appended.stored, sent.stored)
                                  (new_row_updated w.db.dispatches _ _ _ free (λ x. refl))))))))

  -- `issue_dispatch`, sent again with the same arguments after it has succeeded, returns a dispatch
  -- of the same id and changes nothing: no second message is enqueued.
  pub issue_dispatch-again :
      (reservation_id : String) (command : DispatchCreate) (actor : Actor) (key : String)
      (w w' : World) (x : Dispatch)
      → issue_dispatch reservation_id command actor key w ≡ (ok x, w')
      → (y : Dispatch) × (issue_dispatch reservation_id command actor key w' ≡ (ok y, w'))
        × (y.id ≡ x.id)
  unfolding issue_dispatch
  issue_dispatch-again reservation_id command actor key w w' x done =
      guarded-again _ _ _ _ _ _ w w' x
        (issue-IsRecorded reservation_id command actor key
          (issue_hash reservation_id command actor))
        done

  complete-IsRecorded :
      (r : Reservation) (offer : FlexOffer) (d : Dispatch) (ids : List String)
      (delivered amount : Decimal) (actor : Actor) (key request_hash : String) (w : World)
      → OnOk
          (λ x after.
            IsRecorded "settle_reservation" key request_hash (λ db. db.settlements) x after)
          (complete r offer d ids delivered amount actor key request_hash w)
  unfolding complete
  complete-IsRecorded r offer d ids delivered amount actor key request_hash w = OnOk-new_id _ _ _ (
      OnOk-utc_now _ _ _ (
        OnOk-add_settlement _ _ _ _ λ free. OnOk-append_event _ _ _ _ _ _ _ _ _ λ e after appended.
          OnOk-write _ _ _ _ (
            OnOk-write _ _ _ _ (
              OnOk-write _ _ _ _ (
                OnOk-bind _ _ _ _ _ (store_idempotency-Noted _ _ _ _ _ _) λ u v noted.
                  OnOk-pure _ _ _ (
                    written-IsRecorded _ _ _ _ _ _ v noted (λ entries. refl)
                      (rw appended.stored
                        (new_row_updated w.db.settlements _ _ _ free (λ x. refl)))))))))

  settle-IsRecorded :
      (reservation_id : String) (actor : Actor) (key request_hash : String) (w : World)
      → OnOk
          (λ x after.
            IsRecorded "settle_reservation" key request_hash (λ db. db.settlements) x after)
          (settle reservation_id actor key request_hash w)
  unfolding settle
  settle-IsRecorded reservation_id actor key request_hash w = OnOk-require _ _ _ _ _ λ r found_r.
      OnOk-raise_unless _ _ _ _ _ λ was_dispatched. OnOk-query _ _ _ _ (
        OnOk-or_raise _ _ _ _ _ λ d found_d. OnOk-raise_unless _ _ _ _ _ λ was_issued.
          OnOk-raise_if _ _ _ _ _ λ apart. OnOk-require _ _ _ _ _ λ offer found_offer.
            OnOk-query _ _ _ _ (
              OnOk-raise_if _ _ _ _ _ λ some_readings. OnOk-or_raise _ _ _ _ _ λ delivered sum.
                OnOk-or_raise _ _ _ _ _ λ amount product.
                  complete-IsRecorded r offer d _ delivered amount actor key request_hash w))

  -- `settle_reservation`, sent again with the same arguments after it has succeeded, returns a
  -- settlement of the same id and changes nothing.
  pub settle_reservation-again :
      (reservation_id : String) (actor : Actor) (key : String) (w w' : World) (x : Settlement)
      → settle_reservation reservation_id actor key w ≡ (ok x, w')
      → (y : Settlement) × (settle_reservation reservation_id actor key w' ≡ (ok y, w'))
        × (y.id ≡ x.id)
  unfolding settle_reservation
  settle_reservation-again reservation_id actor key w w' x done =
      guarded-again _ _ _ _ _ _ w w' x
        (settle-IsRecorded reservation_id actor key (settle_hash reservation_id actor)) done

  -- After `issue_dispatch` has answered with an idempotency key, the key is spent: a later call with
  -- the same key, by an actor that may call it, whose request (reservation, command and actor) has
  -- another hash, raises `ConflictError` and changes nothing.
  pub issue_dispatch-key_reused :
      (reservation_id other_id : String) (command other : DispatchCreate) (actor later : Actor)
      (key : String) (w w' : World) (x : Dispatch)
      → issue_dispatch reservation_id command actor key w ≡ (ok x, w')
      → require_role later (market_operator ∷ []) ≡ ok tt
      → issue_hash reservation_id command actor ≢ issue_hash other_id other later
      → issue_dispatch other_id other later key w' ≡ (err Error.conflict, w')
  unfolding issue_dispatch
  issue_dispatch-key_reused reservation_id other_id command other actor later key w w' x done
        allowed differ =
      guarded-conflict _ _ _ _ _ _ _ _ _ w w' x
        (issue-IsRecorded reservation_id command actor key
          (issue_hash reservation_id command actor))
        done allowed differ
