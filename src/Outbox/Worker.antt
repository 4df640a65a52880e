-- ===== src/Outbox/Worker.antt =====
-- `OutboxWorker` of outbox.py: claim, publish outside the transaction, record how it ended.
pub mod Claim
unfoldable pub use Claim.*
use Prim.Native.Nat.{min}
use Prim.Native.String
use Prim.Native.String.{compare}
use Prim.Native.Nat.{Ordering}
use energy_flex_trust_platfo.Prelude.{
  ℕ, zero, suc, ◌-◌, ◌*◌, ◌^◌, String, Bool, true, false, ◌&&◌, ◌||◌, Option, none, some, List, [],
  ◌∷◌, select_where, order_by, leb, ltb, eqb, ◌==◌, if◌then◌else◌,
}
use energy_flex_trust_platfo.Domain.{
  ReservationStatus, issued, rejected, dispatched, Error, Result, ok, err,
}
use energy_flex_trust_platfo.Datetime.{Datetime, as_utc, at_or_before, add_seconds}
use energy_flex_trust_platfo.Json.{text, number}
use energy_flex_trust_platfo.Platform.{Platform}
use energy_flex_trust_platfo.Models.Table.{get, update}
use energy_flex_trust_platfo.Models.{
  pending, processing, published, dead, OutboxMessage, Dispatch, Reservation, Database,
  outbox_message_row, dispatch_row, reservation_row,
}
use energy_flex_trust_platfo.Models.Width.{fits}
use energy_flex_trust_platfo.Session.{
  raise_if, too_wide, World, Action, pure, query, or_raise, if_found, begin, ◌>>=◌, ◌>>◌, write,
  new_id, utc_now,
}
use energy_flex_trust_platfo.Audit.Defs.{append_event}
use energy_flex_trust_platfo.Ports.{Publisher, Attempt, returned, raised}
use energy_flex_trust_platfo.Outbox.Payload.{Document, dispatch_topic, dispatch_signal}
use energy_flex_trust_platfo.Outbox.Queue.{same_status}

module _ ⦃p : Platform⦄ (s : Settings) where
  abbrev actor_of_worker : String
  actor_of_worker = String.◌++◌ "system:" s.worker_id

  -- The transaction of `_record_success`.
  unfoldable pub finalize : ClaimedMessage → String → Datetime → Action Bool
  finalize claimed reference now = do
    message ← query (λ db. get claimed.id db.outbox_messages)
    if_found (leased_to claimed message) false λ m. do
      dispatch ← query (λ db. get claimed.aggregate_id db.dispatches)
      d ← or_raise dispatch Error.runtime_error
      reservation ← query (λ db. get d.reservation_id db.reservations)
      r ← or_raise reservation Error.runtime_error
      raise_if (too_wide (fits 200 reference)) Error.data_error
      set_message m.id (published_at now reference)
      set_dispatch d.id (λ x. record x { adapter_reference = some reference; status = issued })
      set_reservation r.id (λ x. record x { status = dispatched })
      append_event "dispatch" d.id "dispatch.published" actor_of_worker claimed.idempotency_key (
          ("outbox_message_id", text m.id)
          ∷ ("adapter_reference", text reference)
          ∷ ("attempt", number m.attempts)
          ∷ [])
      pure true

  -- `_record_success`
  unfoldable pub record_success : ClaimedMessage → String → Action Bool
  record_success claimed reference = do
    read_at ← utc_now
    begin (finalize claimed reference (as_utc read_at))

  -- The dispatch and its reservation of a message that is given up, if they are there.
  unfoldable pub reject_dispatch : ClaimedMessage → OutboxMessage → String → Action (Unit {0})
  reject_dispatch claimed m text_of_error = do
    dispatch ← query (λ db. get claimed.aggregate_id db.dispatches)
    if_found dispatch tt λ d. do
      set_dispatch d.id (λ x. record x { status = rejected })
      reservation ← query (λ db. get d.reservation_id db.reservations)
      if_found reservation tt
          (λ r. set_reservation r.id (λ x. record x { status = ReservationStatus.cancelled }))
      append_event "dispatch" d.id "dispatch.delivery_failed" actor_of_worker
          claimed.idempotency_key
          (("outbox_message_id", text m.id)
            ∷ ("attempts", number m.attempts)
            ∷ ("error", text text_of_error)
            ∷ [])
      pure tt

  -- The branch of `_record_failure` at the last attempt.
  unfoldable pub give_up : ClaimedMessage → OutboxMessage → String → Action Bool
  unfolding reject_dispatch
  give_up claimed m failure = do
    set_message m.id (λ x. record x { status = dead })
    reject_dispatch claimed m failure
    pure true

  -- The branch of `_record_failure` before the last attempt.
  unfoldable pub retry_later : Datetime → OutboxMessage → Action Bool
  retry_later now m = do
    set_message m.id (λ x. record x {
      status = pending;
      available_at = add_seconds now (retry_delay s m.attempts);
    })
    pure false

  -- The transaction of `_record_failure`.
  unfoldable pub note_failure : ClaimedMessage → String → Datetime → Action Bool
  note_failure claimed failure now = do
    message ← query (λ db. get claimed.id db.outbox_messages)
    if_found (leased_to claimed message) false λ m. do
      set_message m.id (failed_at now failure)
      if leb s.max_attempts m.attempts then give_up claimed m failure else retry_later now m

  -- `_record_failure`
  unfoldable pub record_failure : ClaimedMessage → String → String → Action Bool
  record_failure claimed type_name exc = do
    read_at ← utc_now
    begin (note_failure claimed (error_text type_name exc) (as_utc read_at))

  module _ {S : Type 0} (publisher : Publisher S) where
    -- `publisher.publish(dispatch_signal(claimed.payload), ...)` under `try`
    unfoldable pub attempt_publish : ClaimedMessage → S → Attempt String × S
    attempt_publish claimed state = elim (dispatch_signal claimed.payload) [
      | raised type_name exc ↦ (raised type_name exc, state)
      | returned signal ↦ publisher signal claimed.idempotency_key state
    ]

    abbrev pub count_failure : OutboxRunResult → Bool → OutboxRunResult
    count_failure counts true = record counts { dead_count = suc counts.dead_count }
    count_failure counts false = record counts { retried = suc counts.retried }

    abbrev pub count_success : OutboxRunResult → Bool → OutboxRunResult
    count_success counts true = record counts { published_count = suc counts.published_count }
    count_success counts false = counts

    -- The `except` and the `else` of a round.
    unfoldable pub record_attempt :
        ClaimedMessage → OutboxRunResult → Attempt String → Action OutboxRunResult
    record_attempt claimed counts (raised type_name exc) = do
      terminal ← record_failure claimed type_name exc
      pure (count_failure counts terminal)
    record_attempt claimed counts (returned reference) = do
      stored ← record_success claimed reference
      pure (count_success counts stored)

    -- What a run leaves: how it ended, the world and the publisher's state.
    abbrev pub Run : Type 0
    Run = Result OutboxRunResult × World × S

    abbrev pub next_round :
        S → (OutboxRunResult → World → S → Run) → Result OutboxRunResult × World → Run
    next_round state rest (err e, w) = (err e, w, state)
    next_round state rest (ok counts, w) = rest counts w state

    -- One round of the loop, from the claim that was taken; `rest` is the loop after it.
    unfoldable pub round :
        OutboxRunResult
        → S
        → (OutboxRunResult → World → S → Run)
        → Result (Option ClaimedMessage) × World
        → Run
    round counts state rest (err e, w) = (err e, w, state)
    round counts state rest (ok none, w) = (ok counts, w, state)
    round counts state rest (ok (some claimed), w) =
        let (answer, state') = attempt_publish claimed state in
        next_round state' rest
          (record_attempt claimed (record counts { attempted = suc counts.attempted }) answer w)

    -- The loop of `run_once`, on the rounds left.
    unfoldable pub run_rounds : ℕ → OutboxRunResult → World → S → Run
    unfolding round
    run_rounds zero counts w state = (ok counts, w, state)
    run_rounds (suc left) counts w state = round counts state (run_rounds left) (claim_one s w)

    -- `OutboxWorker.run_once`
    unfoldable pub run_once : ℕ → World → S → Run
    unfolding run_rounds
    run_once limit w state =
        if ltb limit 1
        then (err Error.value_error, w, state)
        else run_rounds limit
            (record { attempted = 0; published_count = 0; retried = 0; dead_count = 0 }) w state
