-- ===== src/Trail/Delivery.antt =====
-- The worker and the re-drive keep the audit log verified.
use energy_flex_trust_platfo.Prelude.{String}
use energy_flex_trust_platfo.Domain.{Actor}
use energy_flex_trust_platfo.Platform.{Platform}
use energy_flex_trust_platfo.Models.{OutboxMessage}
use energy_flex_trust_platfo.Session.Rules.{Keeps}
use energy_flex_trust_platfo.Audit.Chain.{IsVerified}
use energy_flex_trust_platfo.Outbox.Worker.{
  Settings, ClaimedMessage, claim_one, claim, finalize, note_failure, record_success,
  record_failure, give_up, retry_later, reject_dispatch,
}
use energy_flex_trust_platfo.Redrive.{authorize_dead_dispatch_redrive, redrive}
use energy_flex_trust_platfo.Trail.Rules.{trail_rules}

module _ ⦃p : Platform⦄ where
  pub authorize_dead_dispatch_redrive-IsVerified :
      (actor : Actor) (message_id dispatch_id reason : String)
      → Keeps IsVerified (authorize_dead_dispatch_redrive actor message_id dispatch_id reason)
  unfolding authorize_dead_dispatch_redrive redrive
  authorize_dead_dispatch_redrive-IsVerified actor message_id dispatch_id reason =
      search trail_rules depth 60

  module _ (s : Settings) where
    pub claim_one-IsVerified : Keeps IsVerified (claim_one s)
    unfolding claim_one claim
    claim_one-IsVerified = search trail_rules depth 20

    pub record_success-IsVerified :
        (claimed : ClaimedMessage) (reference : String)
        → Keeps IsVerified (record_success s claimed reference)
    unfolding record_success finalize
    record_success-IsVerified claimed reference = search trail_rules depth 40

    reject_dispatch-IsVerified :
        (claimed : ClaimedMessage) (message : OutboxMessage) (failure : String)
        → Keeps IsVerified (reject_dispatch s claimed message failure)
    unfolding reject_dispatch
    reject_dispatch-IsVerified claimed message failure = search trail_rules depth 40

    pub record_failure-IsVerified :
        (claimed : ClaimedMessage) (type_name exc : String)
        → Keeps IsVerified (record_failure s claimed type_name exc)
    unfolding record_failure note_failure give_up retry_later
    record_failure-IsVerified claimed type_name exc =
        search (trail_rules, reject_dispatch-IsVerified) depth 40
