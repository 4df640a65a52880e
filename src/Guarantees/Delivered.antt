-- ===== src/Guarantees/Delivered.antt =====
-- An acknowledgement returns, and what it leaves of the message, its dispatch and its reservation.
use Prim.Native.String
use Prim.Native.String.{count}
use energy_flex_trust_platfo.Prelude.{suc, String, ◌≡◌, refl, true, false, none, some, List}
use energy_flex_trust_platfo.Domain.{issued, dispatched, ok}
use energy_flex_trust_platfo.Datetime.{Datetime, as_utc}
use energy_flex_trust_platfo.Platform.{Platform}
use energy_flex_trust_platfo.Models.Table.{Row, get, update, update-Touched, get-key}
use energy_flex_trust_platfo.Models.{
  OutboxMessage, Dispatch, Reservation, Database, AuditEvent, published, outbox_message_row,
  dispatch_row, reservation_row,
}
use energy_flex_trust_platfo.Session.{
  World, begin, query, if_found, new_id, write, pure, utc_now, too_wide, raise_if, raise, ◌>>=◌,
}
use energy_flex_trust_platfo.Session.Total.{
  Returns, Returns-pure, Returns-bind, Returns-raise_if, Returns-query, Returns-or_raise,
  Returns-if_found, Returns-write,
}
use energy_flex_trust_platfo.Models.Width.{fits}
use energy_flex_trust_platfo.Audit.Chain.{Appended}
use energy_flex_trust_platfo.Outbox.Worker.{
  Settings, ClaimedMessage, holds_lease, published_at, claimed_at, next_claimable, claim, claim_one,
  finalize,
}
use energy_flex_trust_platfo.Guarantees.Refused.{Refused, append_event-Returns}

module _ {A : Type 0} ⦃r : Row A⦄ where
  pub updated_found :
      (k id : String) (f : A → A) (rows : List A) (x : A)
      → ((y : A) → r.key (f y) ≡ r.key y)
      → r.key x ≡ id
      → get k rows ≡ some x
      → get k (update id f rows) ≡ some (f x)
  updated_found k id f rows x keeps named found =
      let same = get-key k rows found in
      let hit = (update-Touched id f rows keeps).hit in cc (hit, found, same, named)

module _ ⦃p : Platform⦄ where
  -- The message `m` was published under the publisher's reference; its dispatch is issued and its
  -- reservation dispatched.
  pub record Delivered (m : OutboxMessage) (reference : String) (db : Database) : Type 0 where
    pub row : OutboxMessage
    pub found : get m.id db.outbox_messages ≡ some row
    pub status : row.status ≡ published
    pub referred : row.adapter_reference ≡ some reference
    pub unlocked : row.locked_by ≡ none
    pub counted : row.attempts ≡ suc m.attempts
    pub dispatch : Dispatch
    pub found_dispatch : get m.aggregate_id db.dispatches ≡ some dispatch
    pub was_issued : dispatch.status ≡ issued
    pub same_reference : dispatch.adapter_reference ≡ some reference
    pub reservation : Reservation
    pub found_reservation : get dispatch.reservation_id db.reservations ≡ some reservation
    pub was_dispatched : reservation.status ≡ dispatched

  module _ (s : Settings) where
    -- The claim of a message that was found.
    abbrev pub claim_of : World → OutboxMessage → ClaimedMessage
    claim_of w m = record {
      id = m.id;
      aggregate_id = m.aggregate_id;
      idempotency_key = m.idempotency_key;
      payload = m.payload;
      attempts = suc m.attempts;
      claim_token = String.◌++◌ s.worker_id (String.◌++◌ ":" (p.uuid w.drawn));
    }

    abbrev pub claimed_world : World → OutboxMessage → World
    claimed_world w m = record {
      db = record w.db {
        outbox_messages =
            update m.id (claimed_at s (as_utc (p.clock w.ticks)) (claim_of w m).claim_token)
              w.db.outbox_messages;
      };
      drawn = suc w.drawn;
      ticks = suc w.ticks;
    }

    pub claim_one-takes :
        (w : World) (m : OutboxMessage)
        → next_claimable (as_utc (p.clock w.ticks)) w.db ≡ some m
        → too_wide (fits 100 (claim_of w m).claim_token) ≡ false
        → claim_one s w ≡ (ok (some (claim_of w m)), claimed_world w m)
    unfolding claim_one claim ◌>>=◌ utc_now begin query if_found new_id write pure raise_if raise
    claim_one-takes w m found fitting = rw (found, fitting) refl

    pub finalize-Returns :
        (c : ClaimedMessage) (reference : String) (now : Datetime) (w : World) (m : OutboxMessage)
        (d : Dispatch) (r : Reservation) (old : OutboxMessage)
        → get c.id w.db.outbox_messages ≡ some m
        → holds_lease m.locked_by c.claim_token ≡ true
        → get c.aggregate_id w.db.dispatches ≡ some d
        → get d.reservation_id w.db.reservations ≡ some r
        → old.id ≡ c.id
        → old.aggregate_id ≡ c.aggregate_id
        → m.attempts ≡ suc old.attempts
        → too_wide (fits 200 reference) ≡ false
        → Returns
            (Refused w.drawn w.db.audit_events "dispatch.published" c.idempotency_key)
            (λ b after. (b ≡ true) × Delivered old reference after.db)
            (finalize s c reference now w)
    unfolding finalize
    finalize-Returns c reference now w m d r old found_m held found_d found_r same_id same_dispatch
          counted fitting =
        Returns-query _ _ _ _ _ (
          Returns-if_found _ _ _ _ _ _ m (rw (found_m, held) refl) (
            Returns-query _ _ _ _ _ (
              Returns-or_raise _ _ _ _ _ _ d found_d (
                Returns-query _ _ _ _ _ (
                  Returns-or_raise _ _ _ _ _ _ r found_r (
                    Returns-raise_if _ _ _ _ _ _ (λ wide. absurd (cc (fitting, wide)))
                      λ free. Returns-write _ _ _ _ _ (
                        Returns-write _ _ _ _ _ (
                          Returns-write _ _ _ _ _ (
                            Returns-bind _ _ _ _ _ _ (append_event-Returns _ _ _ _ _ _ _)
                              λ e after appended.
                                Returns-pure _ _ _ _ (refl, delivered e after appended))))))))))
      where
        delivered :
            (e : AuditEvent) (after : World)
            → Appended
                (record w.db {
                  outbox_messages = update m.id (published_at now reference) w.db.outbox_messages;
                  dispatches =
                      update d.id
                        (λ x. record x { adapter_reference = some reference; status = issued })
                        w.db.dispatches;
                  reservations =
                      update r.id (λ x. record x { status = dispatched }) w.db.reservations;
                })
                e
                after.db
            → Delivered old reference after.db
        delivered e after appended = record {
          row = published_at now reference m;
          found =
              rw (appended.stored, same_id)
                (updated_found c.id m.id (published_at now reference) w.db.outbox_messages m
                  (λ x. refl) refl found_m);
          status = refl;
          referred = refl;
          unlocked = refl;
          counted = counted;
          dispatch = record d { adapter_reference = some reference; status = issued };
          found_dispatch =
              rw (appended.stored, same_dispatch)
                (updated_found c.aggregate_id d.id
                  (λ x. record x { adapter_reference = some reference; status = issued })
                  w.db.dispatches d (λ x. refl) refl found_d);
          was_issued = refl;
          same_reference = refl;
          reservation = record r { status = dispatched };
          found_reservation = rw appended.stored (
              updated_found d.reservation_id r.id (λ x. record x { status = dispatched })
                w.db.reservations r (λ x. refl) refl found_r);
          was_dispatched = refl;
        }
