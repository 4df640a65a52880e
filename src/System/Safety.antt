-- ===== src/System/Safety.antt =====
-- What every reachable state of the system has.
use energy_flex_trust_platfo.Prelude.{String, ◌≡◌, ap, subst, true, some, ◌∙◌, arith}
use energy_flex_trust_platfo.Domain.{DispatchStatus, ReservationStatus}
use energy_flex_trust_platfo.Platform.{Platform}
use energy_flex_trust_platfo.Models.Table.{get}
use energy_flex_trust_platfo.Models.{
  OutboxStatus, published, OutboxMessage, Dispatch, Reservation, Settlement, outbox_message_row,
  dispatch_row, reservation_row, settlement_row,
}
use energy_flex_trust_platfo.Audit.Defs.{verify_chain}
use energy_flex_trust_platfo.Linkage.Defs.{Agrees, LeaseMatches}
use energy_flex_trust_platfo.Linkage.Rules.{found_by_id}
use energy_flex_trust_platfo.System.{State, Reach, fresh_state}
use energy_flex_trust_platfo.System.Invariant.{IsSafe, Reach-IsSafe, fresh-IsSafe}

completed-Agrees :
    (m : OutboxStatus) (d : DispatchStatus) (r : ReservationStatus)
    → Agrees m d r
    → d ≡ DispatchStatus.completed
    → (m ≡ published) × (r ≡ ReservationStatus.completed)
completed-Agrees m d r a h = ground arith

module _ ⦃p : Platform⦄ (s : State) (path : Reach fresh_state s) where
  safe : IsSafe s
  safe = Reach-IsSafe fresh_state s fresh-IsSafe path

  -- Whatever calls the service, the workers and the re-drive have answered, in whatever order and
  -- with whatever outcome, starting from an empty database: `verify_chain` accepts the audit log.
  pub reachable-verify_chain : (verify_chain s.world.db).valid ≡ true
  reachable-verify_chain = safe.verified

  -- In every state that is reached from an empty database, an outbox message has its dispatch and
  -- its reservation in the database, their three states agree (`Agrees`), and only a message that
  -- is being sent is leased.
  pub message_states_agree :
      (k : String) (m : OutboxMessage)
      → get k s.world.db.outbox_messages ≡ some m
      → (d : Dispatch) × (r : Reservation) × (get m.aggregate_id s.world.db.dispatches ≡ some d)
        × (get d.reservation_id s.world.db.reservations ≡ some r)
        × Agrees m.status d.status r.status
        × LeaseMatches m.locked_by m.status
  message_states_agree k m found =
      let l = safe.linked.links k m found in
      (l.dispatch, l.reservation, l.found_dispatch, l.found_reservation, l.agrees, l.leased)

  -- In every state that is reached from an empty database, a settlement has a dispatch of its
  -- reservation that is completed, the reservation is completed, and the outbox message of that
  -- dispatch was published: what was not acknowledged is never settled.
  pub settlement_was_acknowledged :
      (k : String) (x : Settlement)
      → get k s.world.db.settlements ≡ some x
      → (d : Dispatch) × (m : OutboxMessage) × (r : Reservation) × (get m.aggregate_id
            s.world.db.dispatches
          ≡ some d)
        × (get m.id s.world.db.outbox_messages ≡ some m)
        × (get x.reservation_id s.world.db.reservations ≡ some r)
        × (d.reservation_id ≡ x.reservation_id)
        × (d.status ≡ DispatchStatus.completed)
        × (m.status ≡ published)
        × (r.status ≡ ReservationStatus.completed)
  settlement_was_acknowledged k x found =
      let t = safe.linked.settled_all k x found in
      let q = safe.linked.queued_all t.dispatch_id t.dispatch t.found in
      let l = safe.linked.links q.message_id q.message q.found in
      let at : get q.message.aggregate_id s.world.db.dispatches ≡ some t.dispatch =
        rw q.about t.found in
      let same : l.dispatch ≡ t.dispatch = cc (l.found_dispatch, at) in
      let done : l.dispatch.status ≡ DispatchStatus.completed =
        ap (λ (d : Dispatch). d.status) same ∙ t.completed in
      let (sent, closed) =
        completed-Agrees q.message.status l.dispatch.status l.reservation.status l.agrees done in
      let owned : l.dispatch.reservation_id ≡ x.reservation_id =
        ap (λ (d : Dispatch). d.reservation_id) same ∙ t.owned in
      (
        l.dispatch,
        q.message,
        l.reservation,
        l.found_dispatch,
        found_by_id q.message_id s.world.db.outbox_messages q.message q.found,
        subst (λ j. get j s.world.db.reservations ≡ some l.reservation) owned l.found_reservation,
        owned,
        done,
        sent,
        closed,
      )
