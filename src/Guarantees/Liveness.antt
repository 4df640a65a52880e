-- ===== src/Guarantees/Liveness.antt =====
-- A message that waits is delivered by the next run of a worker, when the publisher answers.

use energy_flex_trust_platfo.Prelude.{suc, String, ◌≡◌, ◌⊎◌}
use energy_flex_trust_platfo.Domain.{Error, ok, err}
use energy_flex_trust_platfo.Platform.{Platform}
use energy_flex_trust_platfo.Models.{
  OutboxMessage, outbox_message_row, dispatch_row, reservation_row,
}
use energy_flex_trust_platfo.Session.{World}
use energy_flex_trust_platfo.Ports.{Publisher}
use energy_flex_trust_platfo.Outbox.Worker.{Settings, Run}
use energy_flex_trust_platfo.Guarantees.Refused.{Refused}
use energy_flex_trust_platfo.Guarantees.Delivered.{Delivered}

module _ ⦃p : Platform⦄ where
  module _ (s : Settings) where
    module _ {S : Type 0} (publisher : Publisher S) where
      -- How a run of one message ends: it is delivered, or the database has refused the audit event.
      pub record Served (w : World) (m : OutboxMessage) (reference : String) (state' : S)
          (r : Run s publisher) : Type 0 where
        pub after : World
        pub ended :
            ((r ≡ (
              ok (record { attempted = 1; published_count = 1; retried = 0; dead_count = 0 }),
              after,
              state',
            ))
              × Delivered m reference after.db)
            ⊎ ((e : Error) × (r ≡ (err e, after, state'))
                × Refused (suc w.drawn) w.db.audit_events "dispatch.published" m.idempotency_key e)
