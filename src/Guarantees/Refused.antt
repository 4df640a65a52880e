-- ===== src/Guarantees/Refused.antt =====
-- What refuses an append to the audit log.

use Prim.Native.String.{count}
use energy_flex_trust_platfo.Prelude.{
  ℕ, String, ◌≡◌, ◌≤◌, ◌⊎◌, inl, inr, refl, Bool, true, false, List, any, ◌||◌, ◌==◌, arith,
}
use energy_flex_trust_platfo.Domain.{Error, Result, ok, err}
use energy_flex_trust_platfo.Json.{Payload}
use energy_flex_trust_platfo.Platform.{Platform}
use energy_flex_trust_platfo.Models.{AuditEvent, outbox_message_row, dispatch_row, reservation_row}
use energy_flex_trust_platfo.Session.{World, write, add_audit_event, too_wide}
use energy_flex_trust_platfo.Session.Total.{
  Returns, Returns-pure, Returns-bind, Returns-raise_if, Returns-new_id, Returns-utc_now,
  Returns-query,
}
use energy_flex_trust_platfo.Models.Width.{fits, audit_event_fits}
use energy_flex_trust_platfo.Audit.Defs.{
  append_event, calculate_event_hash, canonical_json, sha256_json, audit_hash_material,
  latest_event, last_sequence, previous_hash_of,
}
use energy_flex_trust_platfo.Audit.Chain.{Appended, append_event-Appended}

module _ ⦃p : Platform⦄ where
  -- An audit event that the database refuses: it has the next identifier, this type and correlation, and
  -- its own hash. It clashes with a stored event, or is too wide for its columns.
  pub record Refused (drawn : ℕ) (log : List AuditEvent) (event_type key : String) (e : Error)
      : Type 0 where
    pub event : AuditEvent
    pub own_id : event.event_id ≡ p.uuid drawn
    pub typed : event.event_type ≡ event_type
    pub about : event.correlation_id ≡ key
    pub hashed : calculate_event_hash event ≡ event.event_hash
    pub why :
        ((e ≡ Error.integrity_error)
          × (any (λ x. x.event_id == event.event_id || x.event_hash == event.event_hash) log
              ≡ true))
        ⊎ ((e ≡ Error.data_error) × (p.enforces_widths ≡ true) × (audit_event_fits event ≡ false))

  refused_width : (b : Bool) → too_wide b ≡ true → (p.enforces_widths ≡ true) × (b ≡ false)
  refused_width b h = ground arith

  pub narrow : (width : ℕ) (t : String) → count t ≤ width → too_wide (fits width t) ≡ false
  unfolding fits
  narrow width t h = ground arith

  abbrev unhashed : (a b c d e : String) → Payload → World → AuditEvent
  unhashed a b c d e payload w = record {
    sequence = p.next_sequence (last_sequence (latest_event w.db.audit_events));
    event_id = p.uuid w.drawn;
    aggregate_type = a;
    aggregate_id = b;
    event_type = c;
    actor_id = d;
    correlation_id = e;
    payload = p.loads (canonical_json payload);
    previous_hash = previous_hash_of (latest_event w.db.audit_events);
    event_hash = "";
    occurred_at = p.clock w.ticks;
  }

  -- The event that an append adds.
  abbrev new_event : (a b c d e : String) → Payload → World → AuditEvent
  new_event a b c d e payload w = record (unhashed a b c d e payload w) {
    event_hash = calculate_event_hash (unhashed a b c d e payload w);
  }

  append_event-Refused :
      (a b c d e : String) (payload : Payload) (w : World)
      → Returns
          (Refused w.drawn w.db.audit_events c e)
          (λ x after. Unit {0})
          (append_event a b c d e payload w)
  unfolding append_event add_audit_event write calculate_event_hash sha256_json audit_hash_material
  append_event-Refused a b c d e payload w = Returns-query _ _ _ _ _ (
      Returns-new_id _ _ _ _ (
        Returns-utc_now _ _ _ _ (
          Returns-bind _ _ (λ u v. Unit {0}) _ _ _
            (Returns-raise_if _ _ _ _ _ _
              (λ wide. record {
                event = new_event a b c d e payload w;
                own_id = refl;
                typed = refl;
                about = refl;
                hashed = refl;
                why = inr (refl, (refused_width _ wide).0, (refused_width _ wide).1);
              })
              λ fitting. Returns-query _ _ _ _ _ (
                Returns-raise_if _ _ _ _ _ _
                  (λ clash. record {
                    event = new_event a b c d e payload w;
                    own_id = refl;
                    typed = refl;
                    about = refl;
                    hashed = refl;
                    why = inl (refl, clash);
                  })
                  λ free. tt))
            λ u v h. Returns-pure _ _ _ _ tt)))

  pub append_event-Returns :
      (a b c d e : String) (payload : Payload) (w : World)
      → Returns
          (Refused w.drawn w.db.audit_events c e)
          (λ event after. Appended w.db event after.db)
          (append_event a b c d e payload w)
  append_event-Returns a b c d e payload w =
      ends (append_event a b c d e payload w) refl (append_event-Refused a b c d e payload w)
    where
      ends :
          (r : Result AuditEvent × World)
          → append_event a b c d e payload w ≡ r
          → Returns (Refused w.drawn w.db.audit_events c e) (λ x after. Unit {0}) r
          → Returns
              (Refused w.drawn w.db.audit_events c e)
              (λ event after. Appended w.db event after.db)
              r
      ends (ok event, v) h g = append_event-Appended a b c d e payload w v event h
      ends (err x, v) h g = g
