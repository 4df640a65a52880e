-- ===== src/Linkage/Issue.antt =====
-- A new dispatch with its message keeps the invariant.
use energy_flex_trust_platfo.Prelude.{
  String, ◌≡◌, refl, sym, subst, true, false, Option, none, some, [], ◌∷◌, ◌++◌, any, ◌||◌, arith,
  ◌==◌,
}
use energy_flex_trust_platfo.Domain.{
  Actor, ReservationStatus, reserved, dispatch_pending, is_reserved, queued,
}
use energy_flex_trust_platfo.Platform.{Platform}
use energy_flex_trust_platfo.Models.Table.{
  get, update, get-key, get-fresh, update-Touched, Inserted-Touched, append-Inserted,
}
use energy_flex_trust_platfo.Models.{
  OutboxStatus, pending, OutboxMessage, Dispatch, Reservation, Database, outbox_message_row,
  dispatch_row, reservation_row, settlement_row,
}
use energy_flex_trust_platfo.Session.{World}
use energy_flex_trust_platfo.Session.Outcome.{
  OnOk, OnOk-bind, OnOk-write, OnOk-pure, OnOk-require, OnOk-raise_if, OnOk-raise_unless,
  OnOk-new_id, OnOk-utc_now, OnOk-kept, OnOk-unless_found, begin_keeps, lift_keeps,
}
use energy_flex_trust_platfo.Session.Stored.{OnOk-add_dispatch, OnOk-add_outbox_message}
use energy_flex_trust_platfo.Audit.Chain.{OnOk-append_event}
use energy_flex_trust_platfo.Ports.{DispatchSignal}
use energy_flex_trust_platfo.Schemas.{DispatchCreate}
use energy_flex_trust_platfo.Outbox.Queue.{enqueue_dispatch}
use energy_flex_trust_platfo.Service.Issue.{issue, issue_dispatch}
use energy_flex_trust_platfo.Linkage.Defs.{view, Agrees, LeaseMatches, IsLinked}
use energy_flex_trust_platfo.Linkage.Keyed.{HasKeys}
use energy_flex_trust_platfo.Linkage.Service.{
  store_idempotency-IsLinked, IsSound, idempotent_resource-IsSound,
}
use energy_flex_trust_platfo.Linkage.Arrival.{arrival-IsLinked}

abbrev LinkedDb : Database → Type 0
LinkedDb db = IsLinked (view db)

waiting-Agrees : (m : OutboxStatus) → m ≡ pending → Agrees m queued dispatch_pending
waiting-Agrees m h = rw h tt

unleased-LeaseMatches : (o : Option String) (m : OutboxStatus) → o ≡ none → LeaseMatches o m
unleased-LeaseMatches o m h = rw h tt

reserved_status : (s : ReservationStatus) → is_reserved s ≡ true → s ≡ reserved
reserved_status s h = ground arith

-- The writes of `issue` to the three tables.
announced :
    (db : Database) (reservation_id : String) (r : Reservation) (d : Dispatch) (m : OutboxMessage)
    (reference : Option String)
    → IsLinked (view db)
    → get reservation_id db.reservations ≡ some r
    → is_reserved r.status ≡ true
    → any (λ x. x.id == d.id || x.reservation_id == d.reservation_id) db.dispatches ≡ false
    → get m.id db.outbox_messages ≡ none
    → m.aggregate_id ≡ d.id
    → m.status ≡ pending
    → m.locked_by ≡ none
    → d.reservation_id ≡ r.id
    → d.status ≡ queued
    → IsLinked (
        view (record db {
          outbox_messages = db.outbox_messages ++ m ∷ [];
          dispatches =
              update d.id
                (λ x. record x { adapter_reference = reference })
                (db.dispatches ++ d ∷ []);
          reservations = update r.id (λ x. record x { status = dispatch_pending }) db.reservations;
        }))
announced db reservation_id r d m reference h found_r was_reserved free fresh about waits unleased
      owned starts =
    let same : r.id ≡ reservation_id = get-key reservation_id db.reservations found_r in
    arrival-IsLinked (view db) _
      (record {
        dispatch_id = d.id;
        reservation_id = r.id;
        message_id = m.id;
        d = record d { adapter_reference = reference };
        m = m;
        r = r;
        fr = λ x. record x { status = dispatch_pending };
        new_dispatch =
            Inserted-Touched d.id d (λ x. record x { adapter_reference = reference }) _ _ _
              (append-Inserted db.dispatches d (get-fresh d.id _ db.dispatches free))
              (update-Touched d.id _ (db.dispatches ++ d ∷ []) (λ x. refl));
        new_message = append-Inserted db.outbox_messages m fresh;
        moved = update-Touched r.id _ db.reservations (λ x. refl);
        same_settlements = refl;
        found = subst (λ k. get k db.reservations ≡ some r) (sym same) found_r;
        was_reserved = reserved_status r.status was_reserved;
        owned = owned;
        about = about;
        agrees =
            subst (λ s. Agrees m.status s dispatch_pending) (sym starts)
              (waiting-Agrees m.status waits);
        leased = unleased-LeaseMatches m.locked_by m.status unleased;
      })
      h

module _ ⦃p : Platform⦄ where
  -- What a successful enqueue has done: one pending message more, about the signal's dispatch.
  pub record Enqueued (db : Database) (signal : DispatchSignal) (m : OutboxMessage)
      (after : Database) : Type 0 where
    pub stored : after ≡ record db { outbox_messages = db.outbox_messages ++ m ∷ [] }
    pub fresh : get m.id db.outbox_messages ≡ none
    pub about : m.aggregate_id ≡ signal.dispatch_id
    pub waits : m.status ≡ pending
    pub unleased : m.locked_by ≡ none

  pub enqueue_dispatch-Enqueued :
      (signal : DispatchSignal) (key : String) (w : World)
      → OnOk (λ m after. Enqueued w.db signal m after.db) (enqueue_dispatch signal key w)
  unfolding enqueue_dispatch
  enqueue_dispatch-Enqueued signal key w = OnOk-raise_if _ _ _ _ _ λ present. OnOk-new_id _ _ _ (
      OnOk-utc_now _ _ _ (
        OnOk-utc_now _ _ _ (
          OnOk-utc_now _ _ _ (
            OnOk-add_outbox_message _ _ _ _ λ free. OnOk-pure _ _ _ (record {
              stored = refl;
              fresh = get-fresh (p.uuid w.drawn) _ w.db.outbox_messages free;
              about = refl;
              waits = refl;
              unleased = refl;
            })))))

  sent_fresh :
      (db : Database) (row : Dispatch) (signal : DispatchSignal) (m : OutboxMessage)
      (after : Database)
      → Enqueued (record db { dispatches = db.dispatches ++ row ∷ [] }) signal m after
      → get m.id db.outbox_messages ≡ none
  sent_fresh db row signal m after sent = sent.fresh

  issue-IsLinked :
      (reservation_id : String) (command : DispatchCreate) (actor : Actor)
      (key request_hash : String) (w : World)
      → IsLinked (view w.db)
      → OnOk
          (λ a after. IsLinked (view after.db))
          (issue reservation_id command actor key request_hash w)
  unfolding issue
  issue-IsLinked reservation_id command actor key request_hash w h =
      OnOk-require _ _ _ _ _ λ r found_r. OnOk-raise_unless _ _ _ _ _ λ was_reserved.
        OnOk-raise_if _ _ _ _ _ λ within. OnOk-require _ _ _ _ _ λ offer found_offer.
          OnOk-require _ _ _ _ _ λ asset found_asset. OnOk-raise_if _ _ _ _ _ λ inside.
            OnOk-new_id _ _ _ (
              OnOk-utc_now _ _ _ (
                OnOk-add_dispatch _ _ _ _ λ free.
                  OnOk-bind _ _ _ _ _ (enqueue_dispatch-Enqueued _ _ _) λ m after sent.
                    OnOk-write _ _ _ _ (
                      OnOk-write _ _ _ _ (
                        OnOk-append_event _ _ _ _ _ _ _ _ _ λ e later appended.
                          OnOk-kept LinkedDb _ _ _ _ (store_idempotency-IsLinked _ _ _ _ _)
                            (rw (appended.stored, sent.stored)
                              (announced w.db reservation_id r _ m _ h found_r was_reserved free
                                (sent_fresh w.db _ _ m after.db sent) sent.about sent.waits
                                sent.unleased refl refl))
                            λ a v linked. OnOk-pure _ _ _ linked))))

  pub issue_dispatch-IsLinked :
      (reservation_id : String) (command : DispatchCreate) (actor : Actor) (key : String)
      (w : World)
      → HasKeys w.db
      → IsLinked (view w.db)
      → IsLinked (view (issue_dispatch reservation_id command actor key w).1.db)
  unfolding issue_dispatch
  issue_dispatch-IsLinked reservation_id command actor key w keys h = lift_keeps LinkedDb _ _ w h (
      begin_keeps LinkedDb _ w h (
        OnOk-kept IsSound _ _ _ w (idempotent_resource-IsSound _ _ _ _) (keys, h)
          λ existing v sound.
            OnOk-unless_found _ existing _ v (λ d same. sound.1)
              (λ fresh. issue-IsLinked reservation_id command actor key _ v sound.1)))
