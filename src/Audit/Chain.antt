-- ===== src/Audit/Chain.antt =====
-- What `verify_chain` decides, what `append_event` does to it, and what a checked head fixes.
use energy_flex_trust_platfo.Prelude.{
  suc, ◌≡◌, refl, ap, ◌∙◌, String, true, ◌↔◌, none, List, [], ◌∷◌, ◌++◌, arith, length,
  length-append, last?, ==_iff,
}
use energy_flex_trust_platfo.Domain.{Error, Result, ok, err}
use energy_flex_trust_platfo.Json.{Payload}
use energy_flex_trust_platfo.Platform.{Platform}
use energy_flex_trust_platfo.Models.{AuditEvent, Database}
use energy_flex_trust_platfo.Session.{World, Action, ◌>>=◌, add_audit_event, new_id, utc_now}
use energy_flex_trust_platfo.Session.Outcome.{OnOk, OnOk-bind, OnOk-intro}
use energy_flex_trust_platfo.Audit.Defs.{
  genesis_hash, AuditVerification, ascending, latest_event, previous_hash_of, last_sequence,
  sha256_json, audit_hash_material, calculate_event_hash, append_event, verify_from, verify_chain,
}
use energy_flex_trust_platfo.Audit.Order.{ascending-append}

length-snoc : (es : List AuditEvent) (e : AuditEvent) → length (es ++ e ∷ []) ≡ suc (length es)
length-snoc es e = omega (arith, length-append {0} es (e ∷ []))

module _ ⦃p : Platform⦄ where
  -- Each event carries its own hash and that of the event before it.
  abbrev pub IsChained : String → List AuditEvent → Type 0
  IsChained previous [] = Unit
  IsChained previous (e ∷ es) =
      (e.previous_hash ≡ previous)
      × (calculate_event_hash e ≡ e.event_hash)
      × IsChained e.event_hash es

  abbrev pub head_of : String → List AuditEvent → String
  head_of previous [] = previous
  head_of previous (e ∷ es) = head_of e.event_hash es

  verify_from-IsChained :
      (all : List AuditEvent) (previous : String) (es : List AuditEvent)
      → (verify_from all previous es).valid ≡ true
      → IsChained previous es
  unfolding verify_from
  verify_from-IsChained all previous [] h = tt
  verify_from-IsChained all previous (e ∷ es) h = ground (
    arith,
    ==_iff e.previous_hash previous,
    ==_iff (calculate_event_hash e) e.event_hash,
    verify_from-IsChained all e.event_hash es,
  )

  IsChained-verify_from :
      (all : List AuditEvent) (previous : String) (es : List AuditEvent)
      → IsChained previous es
      → verify_from all previous es ≡ record {
        valid = true;
        event_count = length all;
        head_hash = head_of previous es;
        broken_sequence = none;
      }
  unfolding verify_from
  IsChained-verify_from all previous [] h = refl
  IsChained-verify_from all previous (e ∷ es) h = ground (
    arith,
    ==_iff e.previous_hash previous,
    ==_iff (calculate_event_hash e) e.event_hash,
    IsChained-verify_from all e.event_hash es h.2,
  )

  IsChained-append :
      (previous : String) (es : List AuditEvent) (e : AuditEvent)
      → IsChained previous es
      → e.previous_hash ≡ head_of previous es
      → calculate_event_hash e ≡ e.event_hash
      → IsChained previous (es ++ e ∷ [])
  IsChained-append previous [] e h link hashed = (link, hashed, tt)
  IsChained-append previous (f ∷ fs) e h link hashed =
      (h.0, h.1, IsChained-append f.event_hash fs e h.2 link hashed)

  head_of-append :
      (previous : String) (es : List AuditEvent) (e : AuditEvent)
      → head_of previous (es ++ e ∷ []) ≡ e.event_hash
  head_of-append previous [] e = refl
  head_of-append previous (f ∷ fs) e = head_of-append f.event_hash fs e

  previous_hash_of-last :
      (e : AuditEvent) (es : List AuditEvent)
      → previous_hash_of (last? (e ∷ es)) ≡ head_of e.event_hash es
  previous_hash_of-last e [] = refl
  previous_hash_of-last e (f ∷ fs) = previous_hash_of-last f fs

  latest-head : (es : List AuditEvent) → previous_hash_of (last? es) ≡ head_of genesis_hash es
  latest-head [] = refl
  latest-head (e ∷ es) = previous_hash_of-last e es

  -- What a successful append has done: one event more, linked to the head and with its own hash.
  pub record Appended (db : Database) (e : AuditEvent) (after : Database) : Type 0 where
    pub stored : after ≡ record db { audit_events = db.audit_events ++ e ∷ [] }
    pub linked : e.previous_hash ≡ previous_hash_of (latest_event db.audit_events)
    pub hashed : calculate_event_hash e ≡ e.event_hash
    pub numbered : e.sequence ≡ p.next_sequence (last_sequence (latest_event db.audit_events))

  pub append_event-Appended :
      (aggregate_type aggregate_id event_type actor_id correlation_id : String) (payload : Payload)
      (w w' : World) (e : AuditEvent)
      → append_event aggregate_type aggregate_id event_type actor_id correlation_id payload w
        ≡ (ok e, w')
      → Appended w.db e w'.db
  unfolding append_event add_audit_event new_id utc_now ◌>>=◌ calculate_event_hash sha256_json
      audit_hash_material
  append_event-Appended aggregate_type aggregate_id event_type actor_id correlation_id payload w w'
        e h =
      ground arith

  -- A failed append has changed nothing.
  append_event-err :
      (aggregate_type aggregate_id event_type actor_id correlation_id : String) (payload : Payload)
      (w w' : World) (x : Error)
      → append_event aggregate_type aggregate_id event_type actor_id correlation_id payload w
        ≡ (err x, w')
      → w'.db ≡ w.db
  unfolding append_event add_audit_event new_id utc_now ◌>>=◌
  append_event-err aggregate_type aggregate_id event_type actor_id correlation_id payload w w' x h =
      ground arith

  -- An append has failed and changed nothing, or it is `Appended`.
  abbrev pub AppendEnd : World → Result AuditEvent × World → Type 0
  AppendEnd w (ok e, after) = Appended w.db e after.db
  AppendEnd w (err x, after) = after.db ≡ w.db

  append_end :
      (aggregate_type aggregate_id event_type actor_id correlation_id : String) (payload : Payload)
      (w : World) (r : Result AuditEvent × World)
      → append_event aggregate_type aggregate_id event_type actor_id correlation_id payload w ≡ r
      → AppendEnd w r
  append_end a b c d f payload w (ok e, after) h =
      append_event-Appended a b c d f payload w after e h
  append_end a b c d f payload w (err x, after) h = append_event-err a b c d f payload w after x h

  pub append_event-AppendEnd :
      (aggregate_type aggregate_id event_type actor_id correlation_id : String) (payload : Payload)
      (w : World)
      → AppendEnd w
          (append_event aggregate_type aggregate_id event_type actor_id correlation_id payload w)
  append_event-AppendEnd a b c d f payload w =
      append_end a b c d f payload w (append_event a b c d f payload w) refl

  abbrev pub IsVerified : Database → Type 0
  IsVerified db = (verify_chain db).valid ≡ true

  pub IsVerified-IsChained :
      (db : Database) → IsVerified db → IsChained genesis_hash (ascending db.audit_events)
  unfolding verify_chain
  IsVerified-IsChained db h =
      verify_from-IsChained (ascending db.audit_events) genesis_hash (ascending db.audit_events) h

  verify_from-count :
      (all : List AuditEvent) (previous : String) (es : List AuditEvent)
      → (verify_from all previous es).event_count ≡ length all
  unfolding verify_from
  verify_from-count all previous [] = refl
  verify_from-count all previous (e ∷ es) = ground (arith, verify_from-count all e.event_hash es)

  chained_append :
      (previous : String) (es : List AuditEvent) (e : AuditEvent)
      → IsChained previous es
      → e.previous_hash ≡ head_of previous es
      → calculate_event_hash e ≡ e.event_hash
      → verify_from (es ++ e ∷ []) previous (es ++ e ∷ []) ≡ record {
        valid = true;
        event_count = suc (length es);
        head_hash = e.event_hash;
        broken_sequence = none;
      }
  chained_append previous es e h link hashed = cc (
    IsChained-verify_from (es ++ e ∷ []) previous (es ++ e ∷ [])
        (IsChained-append previous es e h link hashed),
    head_of-append previous es e,
    length-snoc es e,
  )

  -- An append to a verified log gives a verified log with one event more, and the new event's hash
  -- is the head.
  pub verify_chain-Appended :
      (db after : Database) (e : AuditEvent)
      → IsVerified db
      → Appended db e after
      → verify_chain after ≡ record {
        valid = true;
        event_count = suc (verify_chain db).event_count;
        head_hash = e.event_hash;
        broken_sequence = none;
      }
  unfolding verify_chain
  verify_chain-Appended db after e verified step =
      let es = ascending db.audit_events in
      let order = ascending-append db.audit_events e (grind (arith, p.next_sequence_grows)) in
      let read = ap (λ (d : Database). ascending d.audit_events) step.stored ∙ order in
      rw (read, verify_from-count)
        (chained_append genesis_hash es e (IsVerified-IsChained db verified)
          (step.linked ∙ latest-head es) step.hashed)

  -- `verify_chain` accepts a log exactly when every event, in the order of the sequence, carries the
  -- hash of its own content and the hash of the event before it, and the first one 64 zeros.
  pub verify_chain-IsChained :
      (db : Database)
      → ((verify_chain db).valid ≡ true) ↔ IsChained genesis_hash (ascending db.audit_events)
  unfolding verify_chain
  verify_chain-IsChained db =
      let es = ascending db.audit_events in
      (
        IsVerified-IsChained db,
        λ h. ap (λ (v : AuditVerification). v.valid) (IsChained-verify_from es genesis_hash es h),
      )

  -- A successful `append_event` on a log that `verify_chain` accepts leaves one that it accepts,
  -- with one event more, whose head is the hash of the new event.
  pub append_event-verify_chain :
      (aggregate_type aggregate_id event_type actor_id correlation_id : String) (payload : Payload)
      (w w' : World) (e : AuditEvent)
      → (verify_chain w.db).valid ≡ true
      → append_event aggregate_type aggregate_id event_type actor_id correlation_id payload w
        ≡ (ok e, w')
      → verify_chain w'.db ≡ record {
        valid = true;
        event_count = suc (verify_chain w.db).event_count;
        head_hash = e.event_hash;
        broken_sequence = none;
      }
  append_event-verify_chain a b c d f payload w w' e verified done =
      verify_chain-Appended w.db w'.db e verified
        (append_event-Appended a b c d f payload w w' e done)

  -- The reported head and count of a verified log.
  pub verify_chain-head :
      (db : Database)
      → IsVerified db
      → ((verify_chain db).head_hash ≡ head_of genesis_hash (ascending db.audit_events))
        × ((verify_chain db).event_count ≡ length (ascending db.audit_events))
  unfolding verify_chain
  verify_chain-head db verified =
      let es = ascending db.audit_events in
      let e = IsChained-verify_from es genesis_hash es (IsVerified-IsChained db verified) in
      (
        ap (λ (v : AuditVerification). v.head_hash) e,
        ap (λ (v : AuditVerification). v.event_count) e,
      )

  -- The rule for an append in a block.
  pub OnOk-append_event :
      {B : Type 0} (Q : B → World → Type 0)
      (aggregate_type aggregate_id event_type actor_id correlation_id : String) (payload : Payload)
      (f : AuditEvent → Action B) (w : World)
      → ((e : AuditEvent) (after : World) → Appended w.db e after.db → OnOk Q (f e after))
      → OnOk Q (
          (append_event aggregate_type aggregate_id event_type actor_id correlation_id payload
              >>= f)
            w)
  OnOk-append_event Q a b c d g payload f w k =
      OnOk-bind Q (λ e after. Appended w.db e after.db) (append_event a b c d g payload) f w
        (OnOk-intro (λ e after. Appended w.db e after.db) (append_event a b c d g payload w)
          (λ e after h. append_event-Appended a b c d g payload w after e h))
        k
