-- ===== src/Linkage/Delivery.antt =====
-- The worker and the re-drive keep the invariant.
use energy_flex_trust_platfo.Prelude.{suc, String, ◌≡◌, refl, some, arith, inr}
use energy_flex_trust_platfo.Domain.{queued, issued, dispatched}
use energy_flex_trust_platfo.Datetime.{Datetime, as_utc}
use energy_flex_trust_platfo.Platform.{Platform}
use energy_flex_trust_platfo.Models.Table.{get}
use energy_flex_trust_platfo.Models.{
  OutboxMessage, Dispatch, Reservation, Database, outbox_message_row, dispatch_row, reservation_row,
}
use energy_flex_trust_platfo.Session.{World, ◌>>=◌, utc_now}
use energy_flex_trust_platfo.Session.Outcome.{
  OnOk, OnOk-query, OnOk-write, OnOk-pure, OnOk-or_raise, OnOk-if_found, OnOk-raise_if, begin_keeps,
}
use energy_flex_trust_platfo.Audit.Chain.{OnOk-append_event}
use energy_flex_trust_platfo.Outbox.Worker.{
  Settings, ClaimedMessage, leased_to, published_at, finalize, record_success,
}
use energy_flex_trust_platfo.Linkage.Defs.{view, IsLinked}
use energy_flex_trust_platfo.Linkage.Rules.{
  step-IsLinked, Appended-IsLinked, leased_to-some, leased-processing, linked_states,
  waiting-queued, found_by_id,
}

-- A claim is of a message that is about the claim's dispatch.
abbrev pub IsClaimOf : Database → ClaimedMessage → Type 0
IsClaimOf db claimed =
    (m : OutboxMessage)
    → get claimed.id db.outbox_messages ≡ some m
    → m.aggregate_id ≡ claimed.aggregate_id

abbrev LinkedDb : Database → Type 0
LinkedDb db = IsLinked (view db)

abbrev LinkedAfter : {A : Type 0} → A → World → Type 0
LinkedAfter a w = IsLinked (view w.db)

-- The rows of a claim that still holds its lease: the message is being sent, the dispatch queued.
pub being_sent :
    (claimed : ClaimedMessage) (db : Database) (m : OutboxMessage) (d : Dispatch) (r : Reservation)
    → IsLinked (view db)
    → IsClaimOf db claimed
    → leased_to claimed (get claimed.id db.outbox_messages) ≡ some m
    → get claimed.aggregate_id db.dispatches ≡ some d
    → get d.reservation_id db.reservations ≡ some r
    → (get m.id db.outbox_messages ≡ some m)
      × (get m.aggregate_id db.dispatches ≡ some d)
      × (d.status ≡ queued)
being_sent claimed db m d r h about leased found_d found_r =
    let (found_m, locked) = leased_to-some claimed (get claimed.id db.outbox_messages) m leased in
    let found : get m.aggregate_id db.dispatches ≡ some d = rw (about m found_m) found_d in
    let (agrees, lease) = linked_states db claimed.id m d r h found_m found found_r in
    let sending = leased-processing m.locked_by claimed.claim_token m.status lease locked in
    (
      found_by_id claimed.id db.outbox_messages m found_m,
      found,
      (waiting-queued m.status d.status r.status agrees (inr sending)).0,
    )

module _ ⦃p : Platform⦄ (s : Settings) where
  finalize-IsLinked :
      (claimed : ClaimedMessage) (reference : String) (now : Datetime) (w : World)
      → IsLinked (view w.db)
      → IsClaimOf w.db claimed
      → OnOk LinkedAfter (finalize s claimed reference now w)
  unfolding finalize
  finalize-IsLinked claimed reference now w h about = OnOk-query _ _ _ _ (
      OnOk-if_found _ _ _ _ w (λ missing. h)
        λ m leased. OnOk-query _ _ _ _ (
          OnOk-or_raise _ _ _ _ _ λ d found_d. OnOk-query _ _ _ _ (
            OnOk-or_raise _ _ _ _ _ λ r found_r. OnOk-raise_if _ _ _ _ _ λ narrow.
              OnOk-write _ _ _ _ (
                OnOk-write _ _ _ _ (
                  OnOk-write _ _ _ _ (
                    OnOk-append_event _ _ _ _ _ _ _ _ _ λ e after appended. OnOk-pure _ _ _ (
                      Appended-IsLinked _ _ e appended (
                        let t = being_sent claimed w.db m d r h about leased found_d found_r in
                        step-IsLinked w.db m d r (published_at now reference)
                          (λ x. record x { adapter_reference = some reference; status = issued })
                          (λ x. record x { status = dispatched }) t.0 t.1 found_r (λ x. refl)
                          (λ x. refl) (λ x. refl) (λ x. refl) (λ x. refl) tt tt
                          (λ done. ground arith) h))))))))

  pub record_success-IsLinked :
      (claimed : ClaimedMessage) (reference : String) (w : World)
      → IsLinked (view w.db)
      → IsClaimOf w.db claimed
      → IsLinked (view (record_success s claimed reference w).1.db)
  unfolding record_success ◌>>=◌ utc_now
  record_success-IsLinked claimed reference w h about =
      begin_keeps LinkedDb (finalize s claimed reference (as_utc (p.clock w.ticks)))
        (record w { ticks = suc w.ticks }) h
        (finalize-IsLinked claimed reference (as_utc (p.clock w.ticks))
          (record w { ticks = suc w.ticks }) h about)
