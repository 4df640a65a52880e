-- ===== src/Drill/Restore.antt =====
-- What a drill that passes shows of the restored database.
use energy_flex_trust_platfo.Prelude.{
  ℕ, String, ◌≡◌, ◌⊎◌, refl, sym, ap, ◌∙◌, Bool, true, false, not, ◌||◌, some, map, eqb, ◌==◌,
  ==_iff, arith, count_where,
}
use energy_flex_trust_platfo.Domain.{Error, ok}
use energy_flex_trust_platfo.Platform.{Platform}
use energy_flex_trust_platfo.Models.{AuditEvent, Settlement, Database, published, settlement_row}
use energy_flex_trust_platfo.Models.Table.{get}
use energy_flex_trust_platfo.Session.{World, query, raise_if, pure, raise}
use energy_flex_trust_platfo.Session.Outcome.{
  OnOk, OnOk-elim, OnOk-lift, OnOk-query, OnOk-or_raise, OnOk-pure, OnOk-raise_if,
  OnOk-raise_unless, OnOk-any, OnOk-bind,
}
use energy_flex_trust_platfo.Audit.Defs.{AuditVerification, ascending, verify_chain}
use energy_flex_trust_platfo.Audit.Tamper.{hashed_text, Collision, head_fixes_history}
use energy_flex_trust_platfo.Outbox.Queue.{same_status}
use energy_flex_trust_platfo.Service.Settle.{Evidence, settlement_evidence, audit_verification}
use energy_flex_trust_platfo.Drill.{
  Fixture, fixture_version, drill_auditor, seed_fixture, verify_fixture,
}

was_valid : (a b : Bool) → (not a || not b) ≡ false → b ≡ true
was_valid a b h = ground arith

hash_was_valid : (a b : Bool) → (not a || not b) ≡ false → a ≡ true
hash_was_valid a b h = ground arith

last_check :
    (Q : Unit {0} → World → Type 0) (b : Bool) (e : Error) (w : World)
    → (b ≡ false → Q tt w)
    → OnOk Q (raise_if b e w)
unfolding raise_if pure raise
last_check Q false e w k = k refl
last_check Q true e w k = tt

eqb-same : (m n : ℕ) → eqb m n ≡ true → m ≡ n
eqb-same m n h = ground arith

module _ ⦃p : Platform⦄ where
  -- The evidence of a stored settlement.
  record Shown (id : String) (db : Database) (e : Evidence) : Type 0 where
    pub row : Settlement
    pub found : get id db.settlements ≡ some row
    pub same_hash : e.evidence_hash ≡ row.evidence_hash
    pub checked : e.hash_valid ≡ (p.sha256 (p.dumps row.evidence_manifest) == row.evidence_hash)

  settlement_evidence-Shown :
      (id : String) (w : World)
      → OnOk (λ e v. (v.db ≡ w.db) × Shown id w.db e) (settlement_evidence id drill_auditor w)
  unfolding settlement_evidence
  settlement_evidence-Shown id w = OnOk-lift _ _ _ _ λ allowed. OnOk-query _ _ _ _ (
      OnOk-or_raise _ _ _ _ _ λ row found.
        OnOk-pure _ _ _
          (refl, record { row = row; found = found; same_hash = refl; checked = refl }))

  audit_verification-same :
      (w : World)
      → OnOk (λ a v. (v.db ≡ w.db) × (a ≡ verify_chain w.db)) (audit_verification drill_auditor w)
  unfolding audit_verification query
  audit_verification-same w = OnOk-lift _ _ _ _ λ allowed. (refl, refl)

  -- What a fixture says of the database that it was seeded in.
  pub record Seeded (f : Fixture) (db : Database) : Type 0 where
    pub valid : (verify_chain db).valid ≡ true
    pub same_count : f.audit_event_count ≡ (verify_chain db).event_count
    pub same_head : f.audit_head_hash ≡ (verify_chain db).head_hash
    pub one_published : f.published_outbox_count ≡ 1

  fixture-Seeded :
      (f : Fixture) (db before : Database) (e : Evidence) (a : AuditVerification)
      → a ≡ verify_chain before
      → db ≡ before
      → (not e.hash_valid || not a.valid) ≡ false
      → eqb f.published_outbox_count 1 ≡ true
      → f.audit_event_count ≡ a.event_count
      → f.audit_head_hash ≡ a.head_hash
      → Seeded f db
  fixture-Seeded f db before e a same same_db good one count head =
      let chain : a ≡ verify_chain db = same ∙ ap verify_chain (sym same_db) in
      record {
        valid =
            ap (λ (x : AuditVerification). x.valid) (sym chain)
            ∙ was_valid e.hash_valid a.valid good;
        same_count = count ∙ ap (λ (x : AuditVerification). x.event_count) chain;
        same_head = head ∙ ap (λ (x : AuditVerification). x.head_hash) chain;
        one_published = eqb-same f.published_outbox_count 1 one;
      }

  seed_fixture-Seeded : (w : World) → OnOk (λ f v. Seeded f v.db) (seed_fixture w)
  unfolding seed_fixture
  seed_fixture-Seeded w = OnOk-any _ _ _ _ λ ids w1. OnOk-any _ _ _ _ λ settlement w2.
      OnOk-bind _ _ _ _ _ (settlement_evidence-Shown settlement.id w2) λ e w3 (kept, shown).
        OnOk-bind _ _ _ _ _ (audit_verification-same w3) λ a w4 (same_db, same).
          OnOk-query _ _ _ _ (
            OnOk-raise_if _ _ _ _ _ λ good. OnOk-raise_unless _ _ _ _ _ λ one.
              OnOk-pure _ _ _ (fixture-Seeded _ w4.db w3.db e a same same_db good one refl refl))

  -- What the check of a restored database has compared.
  pub record Restored (f : Fixture) (db : Database) : Type 0 where
    pub known : f.version ≡ fixture_version
    pub row : Settlement
    pub found : get f.settlement_id db.settlements ≡ some row
    pub same_amount : p.format_f row.amount ≡ f.settlement_amount
    pub same_evidence : row.evidence_hash ≡ f.evidence_hash
    pub evidence_valid : p.sha256 (p.dumps row.evidence_manifest) ≡ row.evidence_hash
    pub valid : (verify_chain db).valid ≡ true
    pub same_count : (verify_chain db).event_count ≡ f.audit_event_count
    pub same_head : (verify_chain db).head_hash ≡ f.audit_head_hash
    pub same_published :
        count_where (λ m. same_status m.status published) db.outbox_messages
        ≡ f.published_outbox_count

  compared :
      (f : Fixture) (db first second : Database) (e : Evidence) (a : AuditVerification)
      → Shown f.settlement_id db e
      → first ≡ db
      → a ≡ verify_chain first
      → second ≡ first
      → (not e.hash_valid || not a.valid) ≡ false
      → (f.version == fixture_version) ≡ true
      → (row : Settlement) → get f.settlement_id db.settlements ≡ some row
      → (p.format_f row.amount == f.settlement_amount) ≡ true
      → (e.evidence_hash == f.evidence_hash) ≡ true
      → eqb a.event_count f.audit_event_count ≡ true
      → (a.head_hash == f.audit_head_hash) ≡ true
      → eqb
          (count_where (λ m. same_status m.status published) second.outbox_messages)
          f.published_outbox_count
        ≡ true
      → Restored f db
  compared f db first second e a shown kept same same_db good known row found amount evidence count
        head rows =
      let chain : a ≡ verify_chain db = same ∙ ap verify_chain kept in
      let one : shown.row ≡ row = cc (shown.found, found) in
      record {
        known = (==_iff f.version fixture_version).0 known;
        row = row;
        found = found;
        same_amount = (==_iff (p.format_f row.amount) f.settlement_amount).0 amount;
        same_evidence =
            ap (λ (x : Settlement). x.evidence_hash) (sym one)
            ∙ sym shown.same_hash
            ∙ (==_iff e.evidence_hash f.evidence_hash).0 evidence;
        evidence_valid =
            (==_iff (p.sha256 (p.dumps row.evidence_manifest)) row.evidence_hash).0
              (rw one at (sym shown.checked ∙ hash_was_valid e.hash_valid a.valid good));
        valid =
            ap (λ (x : AuditVerification). x.valid) (sym chain)
            ∙ was_valid e.hash_valid a.valid good;
        same_count =
            ap (λ (x : AuditVerification). x.event_count) (sym chain)
            ∙ eqb-same a.event_count f.audit_event_count count;
        same_head =
            ap (λ (x : AuditVerification). x.head_hash) (sym chain)
            ∙ (==_iff a.head_hash f.audit_head_hash).0 head;
        same_published =
            ap
              (λ (x : Database).
                count_where (λ m. same_status m.status published) x.outbox_messages)
              (sym (same_db ∙ kept))
            ∙ eqb-same _ f.published_outbox_count rows;
      }

  verify_fixture-Restored :
      (f : Fixture) (w : World) → OnOk (λ u v. Restored f w.db) (verify_fixture f w)
  unfolding verify_fixture
  verify_fixture-Restored f w = OnOk-raise_unless _ _ _ _ _ λ known. OnOk-query _ _ _ _ (
      OnOk-or_raise _ _ _ _ _ λ row found.
        OnOk-bind _ _ _ _ _ (settlement_evidence-Shown f.settlement_id w) λ e w1 (kept, shown).
          OnOk-bind _ _ _ _ _ (audit_verification-same w1) λ a w2 (same_db, same).
            OnOk-query _ _ _ _ (
              OnOk-raise_unless _ _ _ _ _ λ amount. OnOk-raise_unless _ _ _ _ _ λ evidence.
                OnOk-raise_unless _ _ _ _ _ λ count. OnOk-raise_unless _ _ _ _ _ λ head.
                  OnOk-raise_unless _ _ _ _ _ λ rows. last_check _ _ _ _ λ good.
                    compared f w.db w1.db w2.db e a shown kept same same_db good known row found
                      amount evidence count head rows))

  -- A drill that passes: when `seed_fixture` has answered on one database and `verify_fixture`
  -- accepts its answer on another one, then the other has the settlement with its amount and valid
  -- evidence, an accepted audit log and the one published message; and its audit log has the hashed
  -- texts of the seeded one in the same order, or SHA-256 has a collision. The text of an event must
  -- fix its previous hash.
  pub drill_fixes_history :
      (text_names_previous : (e f : AuditEvent)
        → hashed_text e ≡ hashed_text f
        → e.previous_hash ≡ f.previous_hash)
      (w w' v v' : World) (f : Fixture)
      → seed_fixture w ≡ (ok f, w')
      → verify_fixture f v ≡ (ok tt, v')
      → Restored f v.db
        × (f.published_outbox_count ≡ 1)
        × ((map hashed_text (ascending w'.db.audit_events)
              ≡ map hashed_text (ascending v.db.audit_events))
            ⊎ Collision)
  drill_fixes_history names w w' v v' f seeding checking =
      let seeded =
        OnOk-elim (λ f v. Seeded f v.db) (seed_fixture w) f w' (seed_fixture-Seeded w) seeding in
      let restored =
        OnOk-elim (λ u x. Restored f v.db) (verify_fixture f v) tt v' (verify_fixture-Restored f v)
          checking in
      (
        restored,
        seeded.one_published,
        head_fixes_history names w'.db v.db seeded.valid restored.valid
            (sym seeded.same_count ∙ sym restored.same_count)
            (sym seeded.same_head ∙ sym restored.same_head),
      )
