-- ===== src/Linkage/Redrive.antt =====
-- A re-drive keeps the invariant.
use energy_flex_trust_platfo.Prelude.{String, ◌≡◌, ◌≢◌, refl, true, arith, ==_iff}
use energy_flex_trust_platfo.Domain.{Actor, DispatchStatus, is_rejected}
use energy_flex_trust_platfo.Platform.{Platform}
use energy_flex_trust_platfo.Models.{outbox_message_row, dispatch_row, reservation_row}
use energy_flex_trust_platfo.Session.{World, begin}
use energy_flex_trust_platfo.Session.Rules.{Keeps, keeps_rules}
use energy_flex_trust_platfo.Session.Outcome.{
  OnOk, OnOk-query, OnOk-write, OnOk-pure, OnOk-or_raise, OnOk-raise_unless, OnOk-utc_now,
  begin_keeps,
}
use energy_flex_trust_platfo.Audit.Chain.{OnOk-append_event}
use energy_flex_trust_platfo.Redrive.{redrive, rearmed_at, authorize_dead_dispatch_redrive}
use energy_flex_trust_platfo.Linkage.Defs.{view, IsLinked}
use energy_flex_trust_platfo.Linkage.Rules.{step-IsLinked, Appended-IsLinked, found_by_id}

rejected_unfinished : (s : DispatchStatus) → is_rejected s ≡ true → s ≢ DispatchStatus.completed
rejected_unfinished s h e = ground arith

module _ ⦃p : Platform⦄ where
  redrive-IsLinked :
      (actor : Actor) (message_id dispatch_id reason : String) (w : World)
      → IsLinked (view w.db)
      → OnOk (λ a after. IsLinked (view after.db)) (redrive actor message_id dispatch_id reason w)
  unfolding redrive
  redrive-IsLinked actor message_id dispatch_id reason w h = OnOk-query _ _ _ _ (
      OnOk-or_raise _ _ _ _ _ λ m found_m. OnOk-raise_unless _ _ _ _ _ λ topic.
        OnOk-raise_unless _ _ _ _ _ λ about. OnOk-raise_unless _ _ _ _ _ λ died.
          OnOk-query _ _ _ _ (
            OnOk-or_raise _ _ _ _ _ λ d found_d. OnOk-query _ _ _ _ (
              OnOk-or_raise _ _ _ _ _ λ r found_r. OnOk-raise_unless _ _ _ _ _ λ was_rejected.
                OnOk-raise_unless _ _ _ _ _ λ was_cancelled. OnOk-utc_now _ _ _ (
                  OnOk-write _ _ _ _ (
                    OnOk-write _ _ _ _ (
                      OnOk-write _ _ _ _ (
                        OnOk-append_event _ _ _ _ _ _ _ _ _ λ e after appended. OnOk-pure _ _ _ (
                          Appended-IsLinked _ _ e appended (
                            step-IsLinked w.db m d r (rearmed_at (p.clock w.ticks)) _ _
                              (found_by_id message_id w.db.outbox_messages m found_m)
                              (rw ((==_iff m.aggregate_id dispatch_id).0 about) found_d) found_r
                              (λ x. refl) (λ x. refl) (λ x. refl) (λ x. refl) (λ x. refl) tt tt
                              (λ done. absurd (rejected_unfinished d.status was_rejected done))
                              h)))))))))

  transaction-IsLinked :
      (actor : Actor) (message_id dispatch_id reason : String)
      → Keeps (λ db. IsLinked (view db)) (begin (redrive actor message_id dispatch_id reason))
  transaction-IsLinked actor message_id dispatch_id reason = record {
    at = λ w h.
        begin_keeps (λ db. IsLinked (view db)) (redrive actor message_id dispatch_id reason) w h
          (redrive-IsLinked actor message_id dispatch_id reason w h);
  }

  pub authorize_dead_dispatch_redrive-IsLinked :
      (actor : Actor) (message_id dispatch_id reason : String)
      → Keeps
          (λ db. IsLinked (view db))
          (authorize_dead_dispatch_redrive actor message_id dispatch_id reason)
  unfolding authorize_dead_dispatch_redrive
  authorize_dead_dispatch_redrive-IsLinked actor message_id dispatch_id reason =
      search (keeps_rules, transaction-IsLinked)
