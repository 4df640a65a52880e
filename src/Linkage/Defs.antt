-- ===== src/Linkage/Defs.antt =====
-- The relation between the states of a message, of its dispatch and of its reservation, and the
-- invariant that every message of the database is in it.
use energy_flex_trust_platfo.Prelude.{String, ◌≡◌, Option, none, some}
use energy_flex_trust_platfo.Domain.{
  ReservationStatus, dispatch_pending, dispatched, DispatchStatus, queued, issued, rejected,
}
use energy_flex_trust_platfo.Models.Table.{get}
use energy_flex_trust_platfo.Models.{
  OutboxStatus, pending, processing, published, dead, OutboxMessage, Dispatch, Reservation,
  Settlement, Database, outbox_message_row, dispatch_row, reservation_row, settlement_row,
}

-- The tables by primary key.
pub record View : Type 0 where
  pub message : String → Option OutboxMessage
  pub dispatch : String → Option Dispatch
  pub reservation : String → Option Reservation
  pub settlement : String → Option Settlement

abbrev pub view : Database → View
view db = record {
  message = λ k. get k db.outbox_messages;
  dispatch = λ k. get k db.dispatches;
  reservation = λ k. get k db.reservations;
  settlement = λ k. get k db.settlements;
}

-- Work that waits or is being sent is queued and blocks the reservation; what was acknowledged is
-- issued, and may be settled; what was given up is rejected and cancelled.
abbrev pub Agrees : OutboxStatus → DispatchStatus → ReservationStatus → Type 0
Agrees pending queued dispatch_pending = Unit
Agrees processing queued dispatch_pending = Unit
Agrees published issued dispatched = Unit
Agrees published DispatchStatus.completed ReservationStatus.completed = Unit
Agrees dead rejected ReservationStatus.cancelled = Unit
Agrees _ _ _ = ⊥

-- Only a message that is being sent is leased.
abbrev pub LeaseMatches : Option String → OutboxStatus → Type 0
LeaseMatches none _ = Unit
LeaseMatches (some token) processing = Unit
LeaseMatches (some token) _ = ⊥

pub record Link (v : View) (m : OutboxMessage) : Type 0 where
  pub dispatch : Dispatch
  pub reservation : Reservation
  pub found_dispatch : v.dispatch m.aggregate_id ≡ some dispatch
  pub found_reservation : v.reservation dispatch.reservation_id ≡ some reservation
  pub agrees : Agrees m.status dispatch.status reservation.status
  pub leased : LeaseMatches m.locked_by m.status

-- A dispatch that is completed, of this reservation.
pub record Settled (v : View) (reservation_id : String) : Type 0 where
  pub dispatch_id : String
  pub dispatch : Dispatch
  pub found : v.dispatch dispatch_id ≡ some dispatch
  pub owned : dispatch.reservation_id ≡ reservation_id
  pub completed : dispatch.status ≡ DispatchStatus.completed

-- The message of a dispatch.
pub record Queued (v : View) (dispatch_id : String) : Type 0 where
  pub message_id : String
  pub message : OutboxMessage
  pub found : v.message message_id ≡ some message
  pub about : message.aggregate_id ≡ dispatch_id

pub record IsLinked (v : View) : Type 0 where
  pub links : (k : String) (m : OutboxMessage) → v.message k ≡ some m → Link v m
  pub one_message :
      (j k : String) (m n : OutboxMessage)
      → v.message j ≡ some m
      → v.message k ≡ some n
      → m.aggregate_id ≡ n.aggregate_id
      → j ≡ k
  pub one_dispatch :
      (j k : String) (d e : Dispatch)
      → v.dispatch j ≡ some d
      → v.dispatch k ≡ some e
      → d.reservation_id ≡ e.reservation_id
      → j ≡ k
  pub queued_all : (k : String) (d : Dispatch) → v.dispatch k ≡ some d → Queued v k
  pub settled_all :
      (k : String) (s : Settlement) → v.settlement k ≡ some s → Settled v s.reservation_id
