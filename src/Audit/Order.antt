-- ===== src/Audit/Order.antt =====
-- The order of the events that `verify_chain` reads: a new event comes last.
use energy_flex_trust_platfo.Prelude.{
  ◌≤◌, ◌≡◌, List, [], ◌∷◌, ◌++◌, arith, last?, insert_ordered, AllBefore, AllBefore-order_by,
  order_by-append,
}
use energy_flex_trust_platfo.Models.{AuditEvent}
use energy_flex_trust_platfo.Audit.Defs.{sequence_order, ascending, latest_event, last_sequence}

abbrev AllAfter : AuditEvent → List AuditEvent → Type 0
AllAfter e [] = Unit
AllAfter e (f ∷ fs) = (e.sequence ≤ f.sequence) × AllAfter e fs

abbrev pub IsSorted : List AuditEvent → Type 0
IsSorted [] = Unit
IsSorted (e ∷ es) = AllAfter e es × IsSorted es

AllAfter-trans :
    (d e : AuditEvent) (es : List AuditEvent)
    → d.sequence ≤ e.sequence
    → AllAfter e es
    → AllAfter d es
AllAfter-trans d e [] h k = tt
AllAfter-trans d e (f ∷ fs) h k = (omega arith, AllAfter-trans d e fs h k.1)

AllAfter-insert_ordered :
    (d e : AuditEvent) (es : List AuditEvent)
    → d.sequence ≤ e.sequence
    → AllAfter d es
    → AllAfter d (insert_ordered sequence_order e es)
AllAfter-insert_ordered d e [] h k = (h, tt)
AllAfter-insert_ordered d e (f ∷ fs) h k = ground (arith, AllAfter-insert_ordered d e fs h k.1)

insert_ordered-IsSorted :
    (e : AuditEvent) (es : List AuditEvent)
    → IsSorted es
    → IsSorted (insert_ordered sequence_order e es)
insert_ordered-IsSorted e [] h = (tt, tt)
insert_ordered-IsSorted e (f ∷ fs) h =
    ground (
      arith,
      insert_ordered-IsSorted e fs h.1,
      AllAfter-trans e f fs,
      AllAfter-insert_ordered f e fs,
    )

pub ascending-IsSorted : (es : List AuditEvent) → IsSorted (ascending es)
ascending-IsSorted [] = tt
ascending-IsSorted (e ∷ es) = insert_ordered-IsSorted e (ascending es) (ascending-IsSorted es)

head-le-last :
    (e : AuditEvent) (es : List AuditEvent)
    → IsSorted (e ∷ es)
    → e.sequence ≤ last_sequence (last? (e ∷ es))
head-le-last e [] h = omega arith
head-le-last e (f ∷ fs) h = omega (arith, head-le-last f fs h.1)

sorted-AllBefore :
    (es : List AuditEvent) (x : AuditEvent)
    → IsSorted es
    → last_sequence (last? es) ≤ x.sequence
    → AllBefore sequence_order es x
sorted-AllBefore [] x h k = tt
sorted-AllBefore (e ∷ []) x h k = ground arith
sorted-AllBefore (e ∷ f ∷ fs) x h k =
    ground (arith, head-le-last e (f ∷ fs) h, sorted-AllBefore (f ∷ fs) x h.1 k)

-- An event with a larger sequence than the latest one is read last.
pub ascending-append :
    (es : List AuditEvent) (x : AuditEvent)
    → last_sequence (latest_event es) ≤ x.sequence
    → ascending (es ++ x ∷ []) ≡ ascending es ++ x ∷ []
ascending-append es x h = order_by-append sequence_order es x (
    AllBefore-order_by sequence_order es x
      (sorted-AllBefore (ascending es) x (ascending-IsSorted es) h))
