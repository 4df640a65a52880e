-- ===== src/Linkage/Rules.antt =====
-- The invariant at the level of the database: one step of a message, and writes that it ignores.
use energy_flex_trust_platfo.Prelude.{
  String, ◌≡◌, refl, sym, ap, subst, ◌⊎◌, List, inl, inr, true, Bool-cases, Option, none, some,
  arith, ==_iff,
}
use energy_flex_trust_platfo.Domain.{DispatchStatus, queued, ReservationStatus, dispatch_pending}
use energy_flex_trust_platfo.Platform.{Platform}
use energy_flex_trust_platfo.Models.Table.{Row, get, update, get-key, Touched-same, update-Touched}
use energy_flex_trust_platfo.Models.{
  OutboxStatus, pending, processing, OutboxMessage, Dispatch, Reservation, AuditEvent, Database,
  outbox_message_row, dispatch_row, reservation_row, settlement_row,
}
use energy_flex_trust_platfo.Audit.Chain.{Appended}
use energy_flex_trust_platfo.Outbox.Worker.{ClaimedMessage, leased_to, holds_lease}
use energy_flex_trust_platfo.Linkage.Defs.{view, Agrees, LeaseMatches, IsLinked}
use energy_flex_trust_platfo.Linkage.Touch.{Moves, touch-IsLinked}

module _ (db : Database) (m : OutboxMessage) (d : Dispatch) (r : Reservation)
    (found_message : get m.id db.outbox_messages ≡ some m)
    (found_dispatch : get m.aggregate_id db.dispatches ≡ some d)
    (found_reservation : get d.reservation_id db.reservations ≡ some r) where
  moves : Moves (view db)
  moves = record {
    message_id = m.id;
    m = m;
    d = d;
    r = r;
    found_message = found_message;
    found_dispatch = found_dispatch;
    found_reservation = found_reservation;
  }

module _ (db : Database) (m : OutboxMessage) (d : Dispatch) (r : Reservation)
    (fm : OutboxMessage → OutboxMessage) (fd : Dispatch → Dispatch) (fr : Reservation → Reservation)
    (found_message : get m.id db.outbox_messages ≡ some m)
    (found_dispatch : get m.aggregate_id db.dispatches ≡ some d)
    (found_reservation : get d.reservation_id db.reservations ≡ some r) where
  -- The three rows of one dispatch move together.
  pub step-IsLinked :
      ((x : OutboxMessage) → (fm x).id ≡ x.id)
      → ((x : Dispatch) → (fd x).id ≡ x.id)
      → ((x : Reservation) → (fr x).id ≡ x.id)
      → ((x : OutboxMessage) → (fm x).aggregate_id ≡ x.aggregate_id)
      → ((x : Dispatch) → (fd x).reservation_id ≡ x.reservation_id)
      → Agrees (fm m).status (fd d).status (fr r).status
      → LeaseMatches (fm m).locked_by (fm m).status
      → (d.status ≡ DispatchStatus.completed → (fd d).status ≡ DispatchStatus.completed)
      → IsLinked (view db)
      → IsLinked (
          view (record db {
            outbox_messages = update m.id fm db.outbox_messages;
            dispatches = update d.id fd db.dispatches;
            reservations = update r.id fr db.reservations;
          }))
  unfolding moves
  step-IsLinked id_m id_d id_r same_aggregate same_reservation agrees leased finished h =
      touch-IsLinked (view db) _ (moves db m d r found_message found_dispatch found_reservation) fm
        fd fr (update-Touched m.id fm db.outbox_messages id_m)
        (rw (sym (get-key m.aggregate_id db.dispatches found_dispatch))
          (update-Touched d.id fd db.dispatches id_d))
        (rw (sym (get-key d.reservation_id db.reservations found_reservation))
          (update-Touched r.id fr db.reservations id_r))
        same_aggregate same_reservation agrees leased finished (λ k s found. inl found) h

module _ ⦃p : Platform⦄ where
  pub Appended-IsLinked :
      (db after : Database) (e : AuditEvent)
      → Appended db e after
      → IsLinked (view db)
      → IsLinked (view after)
  Appended-IsLinked db after e step h = rw step.stored h

holds_lease-some :
    (o : Option String) (token : String) → holds_lease o token ≡ true → o ≡ some token
holds_lease-some none token h = cc
holds_lease-some (some t) token h = ap some ((==_iff t token).0 h)

-- What `leased_to` has checked.
pub leased_to-some :
    (claimed : ClaimedMessage) (o : Option OutboxMessage) (m : OutboxMessage)
    → leased_to claimed o ≡ some m
    → (o ≡ some m) × (m.locked_by ≡ some claimed.claim_token)
leased_to-some claimed none m h = cc
leased_to-some claimed (some x) m h =
    elim (Bool-cases (holds_lease x.locked_by claimed.claim_token)) [
      | inl held ↦
          let same : ◌≡◌ {A = Option OutboxMessage} (some x) (some m) = ground arith in
          (same, holds_lease-some m.locked_by claimed.claim_token (ground arith))
      | inr lost ↦ ground arith
    ]

pub leased-processing :
    (locked : Option String) (token : String) (status : OutboxStatus)
    → LeaseMatches locked status
    → locked ≡ some token
    → status ≡ processing
leased-processing none token status l h = cc
leased-processing (some t) token processing l h = refl
leased-processing (some t) token OutboxStatus.pending l h = absurd l
leased-processing (some t) token OutboxStatus.published l h = absurd l
leased-processing (some t) token OutboxStatus.dead l h = absurd l

-- The states of three rows that belong together agree.
pub linked_states :
    (db : Database) (k : String) (m : OutboxMessage) (d : Dispatch) (r : Reservation)
    → IsLinked (view db)
    → get k db.outbox_messages ≡ some m
    → get m.aggregate_id db.dispatches ≡ some d
    → get d.reservation_id db.reservations ≡ some r
    → Agrees m.status d.status r.status × LeaseMatches m.locked_by m.status
linked_states db k m d r h found_m found_d found_r =
    let l = h.links k m found_m in
    let same_d : l.dispatch ≡ d = cc (found_d, l.found_dispatch) in
    let same_r : l.reservation ≡ r = cc (
      found_r,
      l.found_reservation,
      ap (λ (x : Dispatch). get x.reservation_id db.reservations) same_d,
    ) in
    (
      subst (λ x. Agrees m.status x.status r.status) same_d
          (subst (λ x. Agrees m.status l.dispatch.status x.status) same_r l.agrees),
      l.leased,
    )

-- While a message waits or is being sent its dispatch is queued.
pub waiting-queued :
    (m : OutboxStatus) (d : DispatchStatus) (r : ReservationStatus)
    → Agrees m d r
    → (m ≡ pending) ⊎ (m ≡ processing)
    → (d ≡ queued) × (r ≡ dispatch_pending)
waiting-queued m d r a w = ground arith

pub found_by_id :
    {A : Type 0} ⦃row : Row A⦄ (k : String) (xs : List A) (x : A)
    → get k xs ≡ some x
    → get (row.key x) xs ≡ some x
found_by_id k xs x h = rw (get-key k xs h) h

-- A message moves alone: its dispatch and its reservation still agree with it.
pub message_step-IsLinked :
    (db : Database) (m : OutboxMessage) (fm : OutboxMessage → OutboxMessage)
    → get m.id db.outbox_messages ≡ some m
    → ((x : OutboxMessage) → (fm x).id ≡ x.id)
    → ((x : OutboxMessage) → (fm x).aggregate_id ≡ x.aggregate_id)
    → ((d : Dispatch) (r : Reservation)
        → Agrees m.status d.status r.status
        → Agrees (fm m).status d.status r.status)
    → LeaseMatches (fm m).locked_by (fm m).status
    → IsLinked (view db)
    → IsLinked (view (record db { outbox_messages = update m.id fm db.outbox_messages }))
unfolding moves
message_step-IsLinked db m fm found id_m same_aggregate agrees leased h =
    let l = h.links m.id m found in
    touch-IsLinked (view db) _
      (moves db m l.dispatch l.reservation found l.found_dispatch l.found_reservation) fm (λ x. x)
      (λ x. x) (update-Touched m.id fm db.outbox_messages id_m)
      (Touched-same m.aggregate_id (view db).dispatch)
      (Touched-same l.dispatch.reservation_id (view db).reservation) same_aggregate (λ x. refl)
      (agrees l.dispatch l.reservation l.agrees) leased (λ done. done) (λ k s found_s. inl found_s)
      h

pub lost_row : {A : Type 0} {o : Option A} {a : A} → o ≡ none → o ≡ some a → ⊥
lost_row missing found = cc (missing, found)
