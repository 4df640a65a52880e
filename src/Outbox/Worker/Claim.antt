-- ===== src/Outbox/Worker/Claim.antt =====
-- The worker of outbox.py up to its claim: settings, the queue in order, what it writes to a row, and
-- `_claim_one`.
use Prim.Native.Nat.{min}
use Prim.Native.String
use Prim.Native.String.{compare}
use Prim.Native.Nat.{Ordering}
use energy_flex_trust_platfo.Prelude.{
  ℕ, zero, suc, ◌-◌, ◌*◌, ◌^◌, String, Bool, true, false, ◌&&◌, ◌||◌, Option, none, some, List, [],
  ◌∷◌, select_where, order_by, ltb, eqb, ◌==◌, if◌then◌else◌,
}
use energy_flex_trust_platfo.Domain.{Error, Result, ok, err}
use energy_flex_trust_platfo.Datetime.{Datetime, as_utc, at_or_before, add_seconds}
use energy_flex_trust_platfo.Platform.{Platform}
use energy_flex_trust_platfo.Models.Table.{update}
use energy_flex_trust_platfo.Models.{
  pending, processing, published, OutboxMessage, Dispatch, Reservation, Database,
  outbox_message_row, dispatch_row, reservation_row,
}
use energy_flex_trust_platfo.Models.Width.{fits}
use energy_flex_trust_platfo.Session.{
  Action, pure, query, if_found, begin, ◌>>=◌, ◌>>◌, raise_if, too_wide, write, new_id, utc_now,
}
use energy_flex_trust_platfo.Outbox.Payload.{Document, dispatch_topic}
use energy_flex_trust_platfo.Outbox.Queue.{same_status}

-- The settings that `OutboxWorker.__init__` keeps.
pub record Settings : Type 0 where
  pub worker_id : String
  pub max_attempts : ℕ
  pub base_retry_seconds : ℕ
  pub max_retry_seconds : ℕ
  pub lease_seconds : ℕ

-- `OutboxWorker.__init__`
unfoldable pub outbox_worker : Settings → Result Settings
outbox_worker s =
    if ltb s.max_attempts 1
    then err Error.value_error
    else if ltb s.base_retry_seconds 1 || ltb s.max_retry_seconds s.base_retry_seconds
    then err Error.value_error
    else if ltb s.lease_seconds 1
    then err Error.value_error
    else ok s

pub record ClaimedMessage : Type 0 where
  pub id : String
  pub aggregate_id : String
  pub idempotency_key : String
  pub payload : Document
  pub attempts : ℕ
  pub claim_token : String

pub record OutboxRunResult : Type 0 where
  pub attempted : ℕ
  pub published_count : ℕ
  pub retried : ℕ
  pub dead_count : ℕ

unfoldable pub retry_delay : Settings → ℕ → ℕ
retry_delay s attempts = min (s.base_retry_seconds * 2 ^ (attempts - 1)) s.max_retry_seconds

abbrev pub lease_expired : Datetime → Option Datetime → Bool
lease_expired now none = false
lease_expired now (some t) = at_or_before t now

-- The `where` of the claim.
unfoldable pub is_claimable : Datetime → OutboxMessage → Bool
is_claimable now m =
    m.topic == dispatch_topic
    && at_or_before m.available_at now
    && (same_status m.status pending
        || (same_status m.status processing && lease_expired now m.lease_expires_at))

-- The order of texts in the database: by code point.
abbrev pub leb_text : String → String → Bool
leb_text a b = elim (compare a b) [ Ordering.gt ↦ false | _ ↦ true ]

-- The `order_by` of the claim.
unfoldable pub claim_order : OutboxMessage → OutboxMessage → Bool
claim_order a b =
    ltb a.available_at.instant b.available_at.instant
    || (eqb a.available_at.instant b.available_at.instant
        && (ltb a.created_at.instant b.created_at.instant
            || (eqb a.created_at.instant b.created_at.instant && leb_text a.id b.id)))

abbrev pub first? {ℓ} : {A : Type ℓ} → List A → Option A
first? [] = none
first? (x ∷ xs) = some x

unfoldable pub next_claimable : Datetime → Database → Option OutboxMessage
unfolding is_claimable claim_order
next_claimable now db =
    first? (order_by claim_order (select_where (is_claimable now) db.outbox_messages))

abbrev pub set_message : String → (OutboxMessage → OutboxMessage) → Action (Unit {0})
set_message id f = write (λ db. record db { outbox_messages = update id f db.outbox_messages })

abbrev pub set_dispatch : String → (Dispatch → Dispatch) → Action (Unit {0})
set_dispatch id f = write (λ db. record db { dispatches = update id f db.dispatches })

abbrev pub set_reservation : String → (Reservation → Reservation) → Action (Unit {0})
set_reservation id f = write (λ db. record db { reservations = update id f db.reservations })

abbrev pub holds_lease : Option String → String → Bool
holds_lease none token = false
holds_lease (some t) token = t == token

-- `message is None or message.locked_by != claimed.claim_token`, the other way round.
abbrev pub leased_to : ClaimedMessage → Option OutboxMessage → Option OutboxMessage
leased_to claimed none = none
leased_to claimed (some m) = if holds_lease m.locked_by claimed.claim_token then some m else none

abbrev pub claimed_at : Settings → Datetime → String → OutboxMessage → OutboxMessage
claimed_at s now token m = record m {
  status = processing;
  attempts = suc m.attempts;
  locked_by = some token;
  lease_expires_at = some (add_seconds now s.lease_seconds);
  updated_at = now;
}

abbrev pub published_at : Datetime → String → OutboxMessage → OutboxMessage
published_at now reference m = record m {
  status = published;
  adapter_reference = some reference;
  published_at = some now;
  lease_expires_at = none;
  locked_by = none;
  last_error = none;
  updated_at = now;
}

abbrev pub failed_at : Datetime → String → OutboxMessage → OutboxMessage
failed_at now error_text m = record m {
  last_error = some error_text;
  lease_expires_at = none;
  locked_by = none;
  updated_at = now;
}

-- `text[:n]`
take_text : ℕ → String → String
take_text zero s = ""
take_text (suc n) String.[] = ""
take_text (suc n) (String.◌∷◌ c s) = String.◌∷◌ c (take_text n s)

unfoldable pub error_text : String → String → String
unfolding take_text
error_text type_name message = take_text 2000 (String.◌++◌ type_name (String.◌++◌ ": " message))

module _ ⦃p : Platform⦄ (s : Settings) where
  -- The transaction of `_claim_one`.
  unfoldable pub claim : Datetime → Action (Option ClaimedMessage)
  claim now = do
    found ← query (next_claimable now)
    if_found found none λ m. do
      suffix ← new_id
      let claim_token = String.◌++◌ s.worker_id (String.◌++◌ ":" suffix)
      raise_if (too_wide (fits 100 claim_token)) Error.data_error
      set_message m.id (claimed_at s now claim_token)
      pure (
          some (record {
            id = m.id;
            aggregate_id = m.aggregate_id;
            idempotency_key = m.idempotency_key;
            payload = m.payload;
            attempts = suc m.attempts;
            claim_token = claim_token;
          }))

  -- `_claim_one`
  unfoldable pub claim_one : Action (Option ClaimedMessage)
  claim_one = do read_at ← utc_now; begin (claim (as_utc read_at))
