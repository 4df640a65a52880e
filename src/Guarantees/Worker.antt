-- ===== src/Guarantees/Worker.antt =====
-- What the worker's transactions and the re-drive do to a message.
use energy_flex_trust_platfo.Prelude.{
  suc, ◌<◌, ◌+◌, ◌*◌, String, ◌≡◌, ◌≢◌, ◌==◌, refl, sym, true, false, Option, none, some, List, [],
  ◌∷◌, ==_iff, ==_self, arith, leb→le,
}
use energy_flex_trust_platfo.Domain.{Actor, ok, require_role, recovery_operator}
use energy_flex_trust_platfo.Datetime.{Datetime, as_utc}
use energy_flex_trust_platfo.Platform.{Platform}
use energy_flex_trust_platfo.Models.Table.{get, update, get-key, get-update, update-Touched}
use energy_flex_trust_platfo.Models.{
  OutboxStatus, pending, dead, OutboxMessage, Database, outbox_message_row, dispatch_row,
  reservation_row,
}
use energy_flex_trust_platfo.Session.{World, begin, ◌>>=◌, utc_now}
use energy_flex_trust_platfo.Session.Outcome.{
  OnOk, OnOk-elim, OnOk-lift, OnOk-begin, OnOk-query, OnOk-write, OnOk-pure, OnOk-or_raise,
  OnOk-if_found, OnOk-raise_if, OnOk-raise_unless, OnOk-new_id, OnOk-utc_now, OnOk-map,
}
use energy_flex_trust_platfo.Audit.Chain.{OnOk-append_event}
use energy_flex_trust_platfo.Outbox.Queue.{same_status}
use energy_flex_trust_platfo.Outbox.Worker.{
  Settings, ClaimedMessage, is_claimable, leased_to, claim, claimed_at, claim_one, finalize,
  record_success, note_failure, record_failure,
}
use energy_flex_trust_platfo.Redrive.{
  RedriveAuthorization, rearmed_at, redrive, authorize_dead_dispatch_redrive,
}
use energy_flex_trust_platfo.Linkage.Keyed.{HasKeys}
use energy_flex_trust_platfo.Linkage.Claim.{next_claimable-found}

module _ ⦃p : Platform⦄ (s : Settings) where
  not_leased :
      (claimed : ClaimedMessage) (reference type_name exc : String) (w : World)
      → leased_to claimed (get claimed.id w.db.outbox_messages) ≡ none
      → (record_success s claimed reference w ≡ (ok false, record w { ticks = suc w.ticks }))
        × (record_failure s claimed type_name exc w ≡ (ok false, record w { ticks = suc w.ticks }))
  unfolding record_success finalize record_failure note_failure ◌>>=◌ utc_now
  not_leased claimed reference type_name exc w lost = (rw lost refl, rw lost refl)

  -- What a claim has done to its message.
  pub record Leased (now : Datetime) (before after : Database) (c : ClaimedMessage) : Type 0 where
    pub m : OutboxMessage
    pub claimable : is_claimable now m ≡ true
    pub was : get c.id before.outbox_messages ≡ some m
    pub found : get c.id after.outbox_messages ≡ some (claimed_at s now c.claim_token m)
    pub counted : c.attempts ≡ suc m.attempts
    pub same_key : c.idempotency_key ≡ m.idempotency_key
    pub same_payload : c.payload ≡ m.payload

  LeasedIf : Datetime → Database → Option ClaimedMessage → World → Type 0
  LeasedIf now before none after = Unit
  LeasedIf now before (some c) after = Leased now before after.db c

  claim-Leased :
      (now : Datetime) (w : World) → HasKeys w.db → OnOk (LeasedIf now w.db) (claim s now w)
  unfolding claim LeasedIf
  claim-Leased now w keys = OnOk-query _ _ _ _ (
      OnOk-if_found _ _ _ _ w (λ missing. tt)
        λ m found. OnOk-new_id _ _ _ (
          OnOk-raise_if _ _ _ _ _ λ narrow. OnOk-write _ _ _ _ (
            OnOk-pure _ _ _ (
              let (stored, claimable) = next_claimable-found now w.db m keys found in
              record {
                m = m;
                claimable = claimable;
                was = stored;
                found =
                    rw
                      (
                        get-update m.id m.id (claimed_at s now _) w.db.outbox_messages (λ x. refl),
                        ==_self m.id,
                        stored,
                      )
                      refl;
                counted = refl;
                same_key = refl;
                same_payload = refl;
              }))))

  -- A message that a worker has claimed is hidden from the other workers until its lease runs out:
  -- the row is leased to the claim's token, its attempts are counted, and no later clock reading
  -- before the end of the lease makes it claimable. The message was claimable before, and the claim
  -- carries its key and its payload. The rows must have distinct primary keys.
  pub claim_one-exclusive :
      (w w' : World) (c : ClaimedMessage) (later : Datetime)
      → HasKeys w.db
      → claim_one s w ≡ (ok (some c), w')
      → later.instant < (p.clock w.ticks).instant + s.lease_seconds * 1000000
      → (m : OutboxMessage) × (get c.id w'.db.outbox_messages ≡ some m)
        × (m.locked_by ≡ some c.claim_token)
        × (m.attempts ≡ c.attempts)
        × (is_claimable later m ≡ false)
        × Leased (as_utc (p.clock w.ticks)) w.db w'.db c
  unfolding claim_one ◌>>=◌ utc_now is_claimable LeasedIf
  claim_one-exclusive w w' c later keys done early =
      let now = as_utc (p.clock w.ticks) in
      let v : World = record w { ticks = suc w.ticks } in
      let l =
        OnOk-elim (LeasedIf now w.db) (begin (claim s now) v) (some c) w'
          (OnOk-begin (LeasedIf now w.db) (claim s now) v (claim-Leased now v keys)) done in
      (
        claimed_at s now c.claim_token l.m,
        l.found,
        refl,
        sym l.counted,
        ground (arith, leb→le (now.instant + s.lease_seconds * 1000000) later.instant),
        l,
      )

module _ ⦃p : Platform⦄ where
  other_token :
      (claimed c : ClaimedMessage) (db : Database) (m : OutboxMessage)
      → claimed.id ≡ c.id
      → c.claim_token ≢ claimed.claim_token
      → get c.id db.outbox_messages ≡ some m
      → m.locked_by ≡ some c.claim_token
      → leased_to claimed (get claimed.id db.outbox_messages) ≡ none
  other_token claimed c db m same other found locked =
      let differs : (c.claim_token == claimed.claim_token) ≡ false =
        ground (arith, ==_iff c.claim_token claimed.claim_token) in
      rw (same, found, locked, differs) refl

  -- When a worker has claimed a message with a new token, the worker that held it before changes
  -- nothing any more: `_record_success` and `_record_failure` of the old claim answer `False` and
  -- leave the database as the new claim has left it. The rows must have distinct primary keys.
  pub lost_lease-changes_nothing :
      (old new : Settings) (claimed c : ClaimedMessage) (reference type_name exc : String)
      (w w' : World)
      → HasKeys w.db
      → claim_one new w ≡ (ok (some c), w')
      → claimed.id ≡ c.id
      → c.claim_token ≢ claimed.claim_token
      → (record_success old claimed reference w' ≡ (ok false, record w' { ticks = suc w'.ticks }))
        × (record_failure old claimed type_name exc w'
            ≡ (ok false, record w' { ticks = suc w'.ticks }))
  unfolding claim_one ◌>>=◌ utc_now LeasedIf
  lost_lease-changes_nothing old new claimed c reference type_name exc w w' keys done same other =
      let now = as_utc (p.clock w.ticks) in
      let v : World = record w { ticks = suc w.ticks } in
      let l =
        OnOk-elim (LeasedIf new now w.db) (begin (claim new now) v) (some c) w'
          (OnOk-begin (LeasedIf new now w.db) (claim new now) v (claim-Leased new now v keys))
          done in
      not_leased old claimed reference type_name exc w'
        (other_token claimed c w'.db (claimed_at new now c.claim_token l.m) same other l.found refl)

dead_status : (x : OutboxStatus) → same_status x dead ≡ true → x ≡ dead
dead_status x h = ground arith

rearmed_found :
    (k : String) (rows : List OutboxMessage) (m : OutboxMessage) (now : Datetime)
    → get k rows ≡ some m
    → get k (update m.id (rearmed_at now) rows) ≡ some (rearmed_at now m)
rearmed_found k rows m now found =
    let same = get-key k rows found in
    let hit = (update-Touched m.id (rearmed_at now) rows (λ x. refl)).hit in cc (hit, found, same)

module _ ⦃p : Platform⦄ where
  -- What a re-drive has done to its message.
  pub record Rearmed (message_id dispatch_id : String) (before : World) (after : Database)
      (a : RedriveAuthorization) : Type 0 where
    pub m : OutboxMessage
    pub was : get message_id before.db.outbox_messages ≡ some m
    pub was_dead : m.status ≡ dead
    pub about : m.aggregate_id ≡ dispatch_id
    pub row : OutboxMessage
    pub found : get message_id after.outbox_messages ≡ some row
    pub pending_again : row.status ≡ pending
    pub at_once : row.available_at ≡ p.clock before.ticks
    pub no_attempts : row.attempts ≡ 0
    pub not_leased : (row.locked_by ≡ none) × (row.lease_expires_at ≡ none)
    pub cleared :
        (row.adapter_reference ≡ none) × (row.last_error ≡ none) × (row.published_at ≡ none)
    pub kept_key : row.idempotency_key ≡ m.idempotency_key
    pub kept_payload : row.payload ≡ m.payload
    pub kept_subject : (row.topic ≡ m.topic) × (row.aggregate_id ≡ m.aggregate_id)
    pub same_key : a.idempotency_key ≡ m.idempotency_key
    pub counted : a.previous_attempts ≡ m.attempts

  redrive-Rearmed :
      (actor : Actor) (message_id dispatch_id reason : String) (w : World)
      → OnOk
          (λ a after. Rearmed message_id dispatch_id w after.db a)
          (redrive actor message_id dispatch_id reason w)
  unfolding redrive
  redrive-Rearmed actor message_id dispatch_id reason w = OnOk-query _ _ _ _ (
      OnOk-or_raise _ _ _ _ _ λ m found_m. OnOk-raise_unless _ _ _ _ _ λ topic.
        OnOk-raise_unless _ _ _ _ _ λ about. OnOk-raise_unless _ _ _ _ _ λ died.
          OnOk-query _ _ _ _ (
            OnOk-or_raise _ _ _ _ _ λ d found_d. OnOk-query _ _ _ _ (
              OnOk-or_raise _ _ _ _ _ λ r found_r. OnOk-raise_unless _ _ _ _ _ λ was_rejected.
                OnOk-raise_unless _ _ _ _ _ λ was_cancelled. OnOk-utc_now _ _ _ (
                  OnOk-write _ _ _ _ (
                    OnOk-write _ _ _ _ (
                      OnOk-write _ _ _ _ (
                        OnOk-append_event _ _ _ _ _ _ _ _ _ λ e after appended.
                          OnOk-pure _ _ _ (record {
                            m = m;
                            was = found_m;
                            was_dead = dead_status m.status died;
                            about = (==_iff m.aggregate_id dispatch_id).0 about;
                            found = rw appended.stored (
                                rearmed_found message_id w.db.outbox_messages m (p.clock w.ticks)
                                  found_m);
                            row = rearmed_at (p.clock w.ticks) m;
                            pending_again = refl;
                            at_once = refl;
                            no_attempts = refl;
                            not_leased = (refl, refl);
                            cleared = (refl, refl, refl);
                            kept_key = refl;
                            kept_payload = refl;
                            kept_subject = (refl, refl);
                            same_key = refl;
                            counted = refl;
                          }))))))))

  -- When a re-drive is authorised, the actor is a recovery operator and the message was dead and
  -- about the dispatch that was named. It is pending again at once, without a lease, an error or a
  -- reference and with no attempt counted; its key and its payload are the old ones, so the
  -- publisher sees the same idempotency key.
  pub authorize_dead_dispatch_redrive-Rearmed :
      (actor : Actor) (message_id dispatch_id reason : String) (w w' : World)
      (a : RedriveAuthorization)
      → authorize_dead_dispatch_redrive actor message_id dispatch_id reason w ≡ (ok a, w')
      → (require_role actor (recovery_operator ∷ []) ≡ ok tt)
        × Rearmed message_id dispatch_id w w'.db a
  unfolding authorize_dead_dispatch_redrive
  authorize_dead_dispatch_redrive-Rearmed actor message_id dispatch_id reason w w' a done =
      OnOk-elim
        (λ a after.
          (require_role actor (recovery_operator ∷ []) ≡ ok tt)
          × Rearmed message_id dispatch_id w after.db a)
        (authorize_dead_dispatch_redrive actor message_id dispatch_id reason w) a w'
        (OnOk-lift _ _ _ _ λ allowed. OnOk-raise_if _ _ _ _ _ λ explained. OnOk-begin _ _ _ (
          OnOk-map {A = RedriveAuthorization} _
            (λ a after.
              (require_role actor (recovery_operator ∷ []) ≡ ok tt)
              × Rearmed message_id dispatch_id w after.db a)
            _ (λ a after h. (allowed, h)) (redrive-Rearmed actor message_id dispatch_id _ w)))
        done
