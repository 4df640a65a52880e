-- ===== src/Linkage/Failure.antt =====
-- `_record_failure` keeps the invariant, on the retry and when it gives up.
use energy_flex_trust_platfo.Prelude.{ℕ, suc, String, ◌≡◌, refl, ap, subst, none, some, leb, arith}
use energy_flex_trust_platfo.Domain.{DispatchStatus, rejected, ReservationStatus}
use energy_flex_trust_platfo.Datetime.{Datetime, as_utc, add_seconds}
use energy_flex_trust_platfo.Platform.{Platform}
use energy_flex_trust_platfo.Models.Table.{get, update, update-update}
use energy_flex_trust_platfo.Models.{
  OutboxStatus, pending, processing, dead, OutboxMessage, Dispatch, Database, outbox_message_row,
  dispatch_row, reservation_row,
}
use energy_flex_trust_platfo.Session.{World, ◌>>=◌, utc_now}
use energy_flex_trust_platfo.Session.Outcome.{
  OnOk, OnOk-bind, OnOk-query, OnOk-write, OnOk-write_last, OnOk-pure, OnOk-if, OnOk-if_found,
  begin_keeps,
}
use energy_flex_trust_platfo.Audit.Chain.{OnOk-append_event}
use energy_flex_trust_platfo.Outbox.Worker.{
  Settings, ClaimedMessage, leased_to, failed_at, note_failure, give_up, retry_later,
  reject_dispatch, record_failure, retry_delay, error_text,
}
use energy_flex_trust_platfo.Linkage.Defs.{view, Agrees, IsLinked}
use energy_flex_trust_platfo.Linkage.Rules.{
  step-IsLinked, message_step-IsLinked, Appended-IsLinked, leased_to-some, leased-processing,
  found_by_id, lost_row,
}
use energy_flex_trust_platfo.Linkage.Delivery.{IsClaimOf, being_sent}

abbrev LinkedAfter : {A : Type 0} → A → World → Type 0
LinkedAfter a w = IsLinked (view w.db)

-- A leased message is there, it is being sent, and it has a dispatch.
leased_message :
    (claimed : ClaimedMessage) (db : Database) (m : OutboxMessage)
    → IsLinked (view db)
    → leased_to claimed (get claimed.id db.outbox_messages) ≡ some m
    → (get m.id db.outbox_messages ≡ some m) × (m.status ≡ processing)
leased_message claimed db m h leased =
    let (found_m, locked) = leased_to-some claimed (get claimed.id db.outbox_messages) m leased in
    let l = h.links claimed.id m found_m in
    (
      found_by_id claimed.id db.outbox_messages m found_m,
      leased-processing m.locked_by claimed.claim_token m.status l.leased locked,
    )

pending_again :
    (m : OutboxStatus) (d : DispatchStatus) (r : ReservationStatus)
    → m ≡ processing
    → Agrees m d r
    → Agrees pending d r
pending_again m d r sending a = ground arith

module _ ⦃p : Platform⦄ (s : Settings) where
  -- The message is dead already; its dispatch and its reservation follow.
  reject_dispatch-IsLinked :
      (claimed : ClaimedMessage) (failure : String) (db : Database) (drawn ticks : ℕ)
      (m : OutboxMessage) (fm : OutboxMessage → OutboxMessage)
      → ((x : OutboxMessage) → (fm x).id ≡ x.id)
      → ((x : OutboxMessage) → (fm x).aggregate_id ≡ x.aggregate_id)
      → (fm m).status ≡ dead
      → (fm m).locked_by ≡ none
      → IsLinked (view db)
      → IsClaimOf db claimed
      → leased_to claimed (get claimed.id db.outbox_messages) ≡ some m
      → OnOk LinkedAfter (
          reject_dispatch s claimed m failure (record {
            db = record db { outbox_messages = update m.id fm db.outbox_messages };
            drawn = drawn;
            ticks = ticks;
          }))
  unfolding reject_dispatch
  reject_dispatch-IsLinked claimed failure db drawn ticks m fm id_m same_m died free h about
        leased =
      let found_m = (leased_to-some claimed (get claimed.id db.outbox_messages) m leased).0 in
      let l = h.links claimed.id m found_m in
      let here : get claimed.aggregate_id db.dispatches ≡ some l.dispatch =
        cc (l.found_dispatch, ap (λ k. get k db.dispatches) (about m found_m)) in
      OnOk-query _ _ _ _ (
        OnOk-if_found _ _ _ _ _ (λ missing. absurd (lost_row missing here))
          λ d found_d. OnOk-write _ _ _ _ (
            OnOk-query _ _ _ _ (
              OnOk-bind _ LinkedAfter _ _ _
                (OnOk-if_found _ _ _ _ _
                  (λ missing.
                    let same : l.dispatch ≡ d = cc (here, found_d) in
                    absurd (
                      lost_row missing (
                        subst
                          (λ (x : Dispatch).
                            get x.reservation_id db.reservations ≡ some l.reservation)
                          same l.found_reservation)))
                  λ r found_r.
                    let t = being_sent claimed db m d r h about leased found_d found_r in
                    OnOk-write_last _ _ _ (
                      step-IsLinked db m d r fm (λ x. record x { status = rejected })
                        (λ x. record x { status = ReservationStatus.cancelled }) t.0 t.1 found_r
                        id_m (λ x. refl) (λ x. refl) same_m (λ x. refl) (rw died tt) (rw free tt)
                        (λ done. ground arith) h))
                λ u v linked.
                  OnOk-append_event _ _ _ _ _ _ _ _ _
                    λ e after appended. OnOk-pure _ _ _ (Appended-IsLinked _ _ e appended linked))))

  give_up-IsLinked :
      (claimed : ClaimedMessage) (failure : String) (now : Datetime) (w : World) (m : OutboxMessage)
      → IsLinked (view w.db)
      → IsClaimOf w.db claimed
      → leased_to claimed (get claimed.id w.db.outbox_messages) ≡ some m
      → OnOk LinkedAfter (
          give_up s claimed m failure (record w {
            db = record w.db {
              outbox_messages = update m.id (failed_at now failure) w.db.outbox_messages;
            };
          }))
  unfolding give_up
  give_up-IsLinked claimed failure now w m h about leased = OnOk-write _ _ _ _ (
      rw
        (update-update m.id (λ x. record x { status = dead }) (failed_at now failure)
          w.db.outbox_messages (λ x. refl))
        (OnOk-bind _ LinkedAfter _ _ _
          (reject_dispatch-IsLinked claimed failure w.db w.drawn w.ticks m _ (λ x. refl) (λ x. refl)
            refl refl h about leased)
          λ u v linked. OnOk-pure _ _ _ linked))

  retry_later-IsLinked :
      (claimed : ClaimedMessage) (failure : String) (now : Datetime) (w : World) (m : OutboxMessage)
      → IsLinked (view w.db)
      → leased_to claimed (get claimed.id w.db.outbox_messages) ≡ some m
      → OnOk LinkedAfter (
          retry_later s now m (record w {
            db = record w.db {
              outbox_messages = update m.id (failed_at now failure) w.db.outbox_messages;
            };
          }))
  unfolding retry_later
  retry_later-IsLinked claimed failure now w m h leased =
      let (stored, sending) = leased_message claimed w.db m h leased in
      OnOk-write _ _ _ _ (
        rw
          (update-update m.id
            (λ x. record x {
              status = pending;
              available_at = add_seconds now (retry_delay s m.attempts);
            })
            (failed_at now failure) w.db.outbox_messages (λ x. refl))
          (OnOk-pure _ _ _ (
            message_step-IsLinked w.db m _ stored (λ x. refl) (λ x. refl)
              (λ d r. pending_again m.status d.status r.status sending) tt h)))

  note_failure-IsLinked :
      (claimed : ClaimedMessage) (failure : String) (now : Datetime) (w : World)
      → IsLinked (view w.db)
      → IsClaimOf w.db claimed
      → OnOk LinkedAfter (note_failure s claimed failure now w)
  unfolding note_failure
  note_failure-IsLinked claimed failure now w h about = OnOk-query _ _ _ _ (
      OnOk-if_found _ _ _ _ w (λ missing. h)
        λ m leased. OnOk-write _ _ _ _ (
          OnOk-if LinkedAfter (leb s.max_attempts m.attempts) (give_up s claimed m failure)
            (retry_later s now m) _
            (λ last. give_up-IsLinked claimed failure now w m h about leased)
            (λ more. retry_later-IsLinked claimed failure now w m h leased)))

  pub record_failure-IsLinked :
      (claimed : ClaimedMessage) (type_name exc : String) (w : World)
      → IsLinked (view w.db)
      → IsClaimOf w.db claimed
      → IsLinked (view (record_failure s claimed type_name exc w).1.db)
  unfolding record_failure ◌>>=◌ utc_now
  record_failure-IsLinked claimed type_name exc w h about =
      let v : World = record w { ticks = suc w.ticks } in
      let failure = error_text type_name exc in
      begin_keeps (λ db. IsLinked (view db))
        (note_failure s claimed failure (as_utc (p.clock w.ticks))) v h
        (note_failure-IsLinked claimed failure (as_utc (p.clock w.ticks)) v h about)
