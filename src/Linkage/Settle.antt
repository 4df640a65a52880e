-- ===== src/Linkage/Settle.antt =====
-- A settlement keeps the invariant.
use energy_flex_trust_platfo.Prelude.{
  String, ◌≡◌, refl, sym, ap, subst, ◌∙◌, ◌⊎◌, inl, inr, true, false, some, List, [], ◌∷◌, ◌++◌,
  any, ◌||◌, arith, ◌==◌, ==_iff, String-discrete,
}
use energy_flex_trust_platfo.Domain.{Actor, ReservationStatus, DispatchStatus, is_issued}
use energy_flex_trust_platfo.Platform.{Platform}
use energy_flex_trust_platfo.Models.Table.{
  get, update, get-key, get-fresh, Touched-same, update-Touched, Inserted-Touched, append-Inserted,
}
use energy_flex_trust_platfo.Models.Keyed.{IsIn, get-of_IsIn}
use energy_flex_trust_platfo.Models.{
  OutboxStatus, published, Dispatch, Reservation, Settlement, FlexOffer, Database,
  outbox_message_row, dispatch_row, reservation_row, settlement_row,
}
use energy_flex_trust_platfo.Decimal.{Decimal}
use energy_flex_trust_platfo.Session.{World}
use energy_flex_trust_platfo.Session.Outcome.{
  OnOk, OnOk-query, OnOk-write, OnOk-pure, OnOk-or_raise, OnOk-require, OnOk-raise_if,
  OnOk-raise_unless, OnOk-new_id, OnOk-utc_now, OnOk-kept, OnOk-unless_found, begin_keeps,
  lift_keeps,
}
use energy_flex_trust_platfo.Session.Stored.{OnOk-add_settlement}
use energy_flex_trust_platfo.Audit.Chain.{OnOk-append_event}
use energy_flex_trust_platfo.Service.Settle.{dispatch_of, complete, settle, settle_reservation}
use energy_flex_trust_platfo.Linkage.Defs.{view, Agrees, IsLinked}
use energy_flex_trust_platfo.Linkage.Keyed.{HasKeys}
use energy_flex_trust_platfo.Linkage.Touch.{touch-IsLinked}
use energy_flex_trust_platfo.Linkage.Rules.{linked_states}
use energy_flex_trust_platfo.Linkage.Service.{
  store_idempotency-IsLinked, IsSound, idempotent_resource-IsSound,
}

abbrev LinkedDb : Database → Type 0
LinkedDb db = IsLinked (view db)

pub dispatch_of-found :
    (reservation_id : String) (ds : List Dispatch) (d : Dispatch)
    → dispatch_of reservation_id ds ≡ some d
    → IsIn d ds × (d.reservation_id ≡ reservation_id)
unfolding dispatch_of
dispatch_of-found reservation_id [] d h = cc
dispatch_of-found reservation_id (x ∷ xs) d h =
    ground (arith, ==_iff x.reservation_id reservation_id, dispatch_of-found reservation_id xs d)

-- Only an acknowledged message has an issued dispatch.
pub issued-published :
    (m : OutboxStatus) (d : DispatchStatus) (r : ReservationStatus)
    → Agrees m d r
    → is_issued d ≡ true
    → m ≡ published
issued-published m d r a h = ground arith

published_settles :
    (m : OutboxStatus)
    → m ≡ published
    → Agrees m DispatchStatus.completed ReservationStatus.completed
published_settles m h = rw h tt

completed_at : Reservation → Reservation
completed_at x = record x { status = ReservationStatus.completed }

-- A settlement that is there now was there before, or it is the new one.
new_settlement :
    (rows : List Settlement) (row : Settlement) (f : Settlement → Settlement) (k : String)
    (s : Settlement)
    → any (λ x. x.id == row.id || x.reservation_id == row.reservation_id) rows ≡ false
    → ((x : Settlement) → (f x).id ≡ x.id)
    → get k (update row.id f (rows ++ row ∷ [])) ≡ some s
    → (get k rows ≡ some s) ⊎ (f row ≡ s)
new_settlement rows row f k s free keeps found =
    let stored =
      Inserted-Touched row.id row f (λ j. get j rows) (λ j. get j (rows ++ row ∷ []))
        (λ j. get j (update row.id f (rows ++ row ∷ [])))
        (append-Inserted rows row (get-fresh row.id _ rows free))
        (update-Touched row.id f (rows ++ row ∷ []) keeps) in
    elim (String-discrete row.id k) [
      | yes here ↦
          inr (cc (stored.hit, found, ap (λ j. get j (update row.id f (rows ++ row ∷ []))) here))
      | no other ↦ inl (sym (stored.miss k other) ∙ found)
    ]

module _ (db : Database) (reservation_id : String) (r : Reservation) (d : Dispatch)
    (row : Settlement) (f : Settlement → Settlement) (keys : HasKeys db) (h : IsLinked (view db))
    (found_r : get reservation_id db.reservations ≡ some r)
    (found_d : dispatch_of r.id db.dispatches ≡ some d) (was_issued : is_issued d.status ≡ true)
    (free : any (λ x. x.id == row.id || x.reservation_id == row.reservation_id) db.settlements
      ≡ false)
    (keeps : (x : Settlement) → (f x).id ≡ x.id) (about : (f row).reservation_id ≡ r.id) where
  settled-IsLinked : IsLinked (
      view (record db {
        settlements = update row.id f (db.settlements ++ row ∷ []);
        reservations =
            update r.id (λ x. record x { status = ReservationStatus.completed }) db.reservations;
        dispatches =
            update d.id (λ x. record x { status = DispatchStatus.completed }) db.dispatches;
      }))
  settled-IsLinked =
      let (listed, owned) = dispatch_of-found r.id db.dispatches d found_d in
      let stored : get d.id db.dispatches ≡ some d =
        get-of_IsIn db.dispatches d keys.dispatches listed in
      let q = h.queued_all d.id d stored in
      let found : get q.message.aggregate_id db.dispatches ≡ some d = rw q.about stored in
      let same : r.id ≡ reservation_id = get-key reservation_id db.reservations found_r in
      let reserved : get d.reservation_id db.reservations ≡ some r =
        subst (λ k. get k db.reservations ≡ some r) (sym (owned ∙ same)) found_r in
      let (agrees, lease) = linked_states db q.message_id q.message d r h q.found found reserved in
      touch-IsLinked (view db) _
        (record {
          message_id = q.message_id;
          m = q.message;
          d = d;
          r = r;
          found_message = q.found;
          found_dispatch = found;
          found_reservation = reserved;
        })
        (λ x. x) (λ x. record x { status = DispatchStatus.completed })
        (λ x. record x { status = ReservationStatus.completed })
        (Touched-same q.message_id (view db).message)
        (rw q.about (update-Touched d.id _ db.dispatches (λ x. refl)))
        (rw owned (update-Touched r.id _ db.reservations (λ x. refl))) (λ x. refl) (λ x. refl)
        (published_settles q.message.status
          (issued-published q.message.status d.status r.status agrees was_issued))
        lease (λ done. refl)
        (λ k s found_s. elim (new_settlement db.settlements row f k s free keeps found_s) [
          | inl old ↦ inl old
          | inr new ↦
              inr (sym (ap (λ (x : Settlement). x.reservation_id) new) ∙ about ∙ sym owned, refl)
        ])
        h

module _ ⦃p : Platform⦄ where
  complete-IsLinked :
      (reservation_id : String) (r : Reservation) (offer : FlexOffer) (d : Dispatch)
      (ids : List String) (delivered amount : Decimal) (actor : Actor) (key request_hash : String)
      (w : World)
      → HasKeys w.db
      → IsLinked (view w.db)
      → get reservation_id w.db.reservations ≡ some r
      → dispatch_of r.id w.db.dispatches ≡ some d
      → is_issued d.status ≡ true
      → OnOk
          (λ a after. IsLinked (view after.db))
          (complete r offer d ids delivered amount actor key request_hash w)
  unfolding complete
  complete-IsLinked reservation_id r offer d ids delivered amount actor key request_hash w keys h
        found_r found_d was_issued =
      OnOk-new_id _ _ _ (
        OnOk-utc_now _ _ _ (
          OnOk-add_settlement _ _ _ _ λ free.
            OnOk-append_event _ _ _ _ _ _ _ _ _ λ e after appended. OnOk-write _ _ _ _ (
              OnOk-write _ _ _ _ (
                OnOk-write _ _ _ _ (
                  OnOk-kept LinkedDb _ _ _ _ (store_idempotency-IsLinked _ _ _ _ _)
                    (rw appended.stored (
                      settled-IsLinked w.db reservation_id r d _ _ keys h found_r found_d was_issued
                        free (λ x. refl) refl))
                    λ a v linked. OnOk-pure _ _ _ linked)))))

  settle-IsLinked :
      (reservation_id : String) (actor : Actor) (key request_hash : String) (w : World)
      → HasKeys w.db
      → IsLinked (view w.db)
      → OnOk (λ a after. IsLinked (view after.db)) (settle reservation_id actor key request_hash w)
  unfolding settle
  settle-IsLinked reservation_id actor key request_hash w keys h =
      OnOk-require _ _ _ _ _ λ r found_r. OnOk-raise_unless _ _ _ _ _ λ was_dispatched.
        OnOk-query _ _ _ _ (
          OnOk-or_raise _ _ _ _ _ λ d found_d. OnOk-raise_unless _ _ _ _ _ λ was_issued.
            OnOk-raise_if _ _ _ _ _ λ apart. OnOk-require _ _ _ _ _ λ offer found_offer.
              OnOk-query _ _ _ _ (
                OnOk-raise_if _ _ _ _ _ λ some_readings. OnOk-or_raise _ _ _ _ _ λ delivered sum.
                  OnOk-or_raise _ _ _ _ _ λ amount product.
                    complete-IsLinked reservation_id r offer d _ delivered amount actor key
                      request_hash w keys h found_r found_d was_issued))

  pub settle_reservation-IsLinked :
      (reservation_id : String) (actor : Actor) (key : String) (w : World)
      → HasKeys w.db
      → IsLinked (view w.db)
      → IsLinked (view (settle_reservation reservation_id actor key w).1.db)
  unfolding settle_reservation
  settle_reservation-IsLinked reservation_id actor key w keys h = lift_keeps LinkedDb _ _ w h (
      begin_keeps LinkedDb _ w h (
        OnOk-kept IsSound _ _ _ w (idempotent_resource-IsSound _ _ _ _) (keys, h)
          λ existing v sound.
            OnOk-unless_found _ existing _ v (λ s same. sound.1)
              (λ fresh. settle-IsLinked reservation_id actor key _ v sound.0 sound.1)))
