-- ===== src/Guarantees/Backoff.antt =====
-- What a failed attempt leaves of its message.
use energy_flex_trust_platfo.Prelude.{
  String, ◌≡◌, refl, sym, ap, ◌∙◌, suc, Bool, true, false, some, none, List, leb, if◌then◌else◌,
}
use energy_flex_trust_platfo.Domain.{ok}
use energy_flex_trust_platfo.Datetime.{Datetime, as_utc, add_seconds}
use energy_flex_trust_platfo.Platform.{Platform}
use energy_flex_trust_platfo.Models.Table.{get, update, update-Touched, get-key}
use energy_flex_trust_platfo.Models.{
  pending, dead, OutboxMessage, Database, outbox_message_row, dispatch_row, reservation_row,
}
use energy_flex_trust_platfo.Session.{World, if_found}
use energy_flex_trust_platfo.Session.Outcome.{
  OnOk, OnOk-elim, OnOk-query, OnOk-if_found, OnOk-write, OnOk-write_last, OnOk-pure, OnOk-bind,
  OnOk-begin, OnOk-utc_now, OnOk-if,
}
use energy_flex_trust_platfo.Audit.Chain.{OnOk-append_event}
use energy_flex_trust_platfo.Outbox.Worker.{
  Settings, ClaimedMessage, holds_lease, leased_to, retry_delay, failed_at, error_text,
  reject_dispatch, give_up, retry_later, note_failure, record_failure,
}

updated_twice :
    (k : String) (f g : OutboxMessage → OutboxMessage) (rows : List OutboxMessage)
    (m : OutboxMessage)
    → ((x : OutboxMessage) → (f x).id ≡ x.id)
    → ((x : OutboxMessage) → (g x).id ≡ x.id)
    → get k rows ≡ some m
    → get k (update m.id g (update m.id f rows)) ≡ some (g (f m))
updated_twice k f g rows m keeps_f keeps_g found =
    let same = get-key k rows found in
    let first = (update-Touched m.id f rows keeps_f).hit in
    let second = (update-Touched m.id g (update m.id f rows) keeps_g).hit in
    cc (first, second, found, same)

module _ ⦃p : Platform⦄ (s : Settings) where
  -- The row of a message after an attempt that failed, and the answer whether it was the last one.
  pub record Failed (now : Datetime) (failure : String) (m : OutboxMessage) (terminal : Bool)
      (row : OutboxMessage) : Type 0 where
    pub decided : terminal ≡ leb s.max_attempts m.attempts
    pub unlocked : row.locked_by ≡ none
    pub noted : row.last_error ≡ some failure
    pub counted : row.attempts ≡ m.attempts
    pub status : row.status ≡ (if terminal then dead else pending)
    pub delayed :
        row.available_at
        ≡ (if terminal then m.available_at else add_seconds now (retry_delay s m.attempts))

  abbrev FailedIn : Datetime → String → OutboxMessage → String → Bool → World → Type 0
  FailedIn now failure m k terminal after =
      (row : OutboxMessage) × (get k after.db.outbox_messages ≡ some row)
      × Failed now failure m terminal row

  abbrev with_message : String → (OutboxMessage → OutboxMessage) → World → World
  with_message id f w = record w {
    db = record w.db { outbox_messages = update id f w.db.outbox_messages };
  }

  reject_dispatch-keeps_messages :
      (claimed : ClaimedMessage) (m : OutboxMessage) (failure : String) (w : World)
      → OnOk
          (λ u after. after.db.outbox_messages ≡ w.db.outbox_messages)
          (reject_dispatch s claimed m failure w)
  unfolding reject_dispatch
  reject_dispatch-keeps_messages claimed m failure w = OnOk-query _ _ _ _ (
      OnOk-if_found _ _ _ _ _ (λ missing. refl)
        λ d found. OnOk-write _ _ _ _ (
          OnOk-query _ _ _ _ (
            OnOk-bind _ (λ u after. after.db.outbox_messages ≡ w.db.outbox_messages) _ _ _
              (OnOk-if_found _ _ _ _ _ (λ missing. refl) λ r found_r. OnOk-write_last _ _ _ refl)
              λ u after kept. OnOk-append_event _ _ _ _ _ _ _ _ _ λ e last appended.
                OnOk-pure _ _ _
                  (ap (λ (db : Database). db.outbox_messages) appended.stored ∙ kept))))

  retry_later-Failed :
      (k : String) (now : Datetime) (failure : String) (w : World) (rows : List OutboxMessage)
      (m : OutboxMessage)
      → w.db.outbox_messages ≡ update m.id (failed_at now failure) rows
      → get k rows ≡ some m
      → leb s.max_attempts m.attempts ≡ false
      → OnOk (FailedIn now failure m k) (retry_later s now m w)
  unfolding retry_later
  retry_later-Failed k now failure w rows m noted found more = OnOk-write _ _ _ w (
      OnOk-pure (FailedIn now failure m k) false
        (with_message m.id
          (λ x. record x {
            status = pending;
            available_at = add_seconds now (retry_delay s m.attempts);
          })
          w)
        (
          record (failed_at now failure m) {
            status = pending;
            available_at = add_seconds now (retry_delay s m.attempts);
          },
          rw noted (
              updated_twice k (failed_at now failure)
                (λ x. record x {
                  status = pending;
                  available_at = add_seconds now (retry_delay s m.attempts);
                })
                rows m (λ x. refl) (λ x. refl) found),
          record {
            decided = sym more;
            unlocked = refl;
            noted = refl;
            counted = refl;
            status = refl;
            delayed = refl;
          },
        ))

  note_failure-Failed :
      (claimed : ClaimedMessage) (failure : String) (now : Datetime) (w : World) (m : OutboxMessage)
      → get claimed.id w.db.outbox_messages ≡ some m
      → leased_to claimed (get claimed.id w.db.outbox_messages) ≡ some m
      → OnOk (FailedIn now failure m claimed.id) (note_failure s claimed failure now w)
  unfolding note_failure give_up if_found
  note_failure-Failed claimed failure now w m found leased = OnOk-query _ _ _ _ (
      rw leased (
        OnOk-write _ _ _ _ (
          OnOk-if _ _ _ _ _
            (λ last. OnOk-write _ _ _ _ (
              OnOk-bind _ (λ u after. after.db.outbox_messages ≡ _) _ _ _
                (reject_dispatch-keeps_messages claimed m failure _)
                λ u after kept. OnOk-pure (FailedIn now failure m claimed.id) true after (
                  record (failed_at now failure m) { status = dead },
                  rw kept (
                      updated_twice claimed.id (failed_at now failure)
                        (λ x. record x { status = dead }) w.db.outbox_messages m (λ x. refl)
                        (λ x. refl) found),
                  record {
                    decided = sym last;
                    unlocked = refl;
                    noted = refl;
                    counted = refl;
                    status = refl;
                    delayed = refl;
                  },
                )))
            (λ more.
              retry_later-Failed claimed.id now failure
                (with_message m.id (failed_at now failure) w) w.db.outbox_messages m refl found
                more))))

  -- When a failed attempt is recorded under the lease, the answer says whether the attempts have
  -- reached the maximum. The message is free again, with the error and the attempts it had; it is
  -- dead after the last attempt, and otherwise pending again after the retry delay.
  pub record_failure-Failed :
      (claimed : ClaimedMessage) (type_name exc : String) (w w' : World) (m : OutboxMessage)
      (terminal : Bool)
      → get claimed.id w.db.outbox_messages ≡ some m
      → holds_lease m.locked_by claimed.claim_token ≡ true
      → record_failure s claimed type_name exc w ≡ (ok terminal, w')
      → (row : OutboxMessage) × (get claimed.id w'.db.outbox_messages ≡ some row)
        × Failed (as_utc (p.clock w.ticks)) (error_text type_name exc) m terminal row
  unfolding record_failure
  record_failure-Failed claimed type_name exc w w' m terminal found held done =
      OnOk-elim (FailedIn (as_utc (p.clock w.ticks)) (error_text type_name exc) m claimed.id)
        (record_failure s claimed type_name exc w) terminal w'
        (OnOk-utc_now _ _ _ (
          OnOk-begin _ _ _ (
            note_failure-Failed claimed (error_text type_name exc) (as_utc (p.clock w.ticks))
              (record w { ticks = suc w.ticks }) m found (rw (found, held) refl))))
        done
