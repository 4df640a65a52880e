-- ===== src/Checkpoints/Trust.antt =====
-- What a checkpoint of the audit log is worth.
use energy_flex_trust_platfo.Prelude.{
  String, ◌≡◌, ◌⊎◌, refl, sym, ap, ◌∙◌, true, Option, some, List, map, ◌==◌, ==_self,
}
use energy_flex_trust_platfo.Domain.{ok}
use energy_flex_trust_platfo.Datetime.{Datetime}
use energy_flex_trust_platfo.Platform.{Platform}
use energy_flex_trust_platfo.Models.{AuditEvent, Database}
use energy_flex_trust_platfo.Session.{World}
use energy_flex_trust_platfo.Session.Outcome.{
  OnOk-elim, OnOk-raise_unless, OnOk-any, OnOk-lift_value, OnOk-pure,
}
use energy_flex_trust_platfo.Audit.Defs.{AuditVerification, ascending, verify_chain}
use energy_flex_trust_platfo.Audit.Tamper.{hashed_text, Collision, head_fixes_history}
use energy_flex_trust_platfo.Checkpoints.{
  Bytes, Cryptography, CheckpointSigner, AuditCheckpoint, checkpoint_version, trusted_key,
  signing_payload, create_checkpoint, verify_checkpoint,
}

module _ ⦃p : Platform⦄ {PublicKey : Type 0} (c : Cryptography PublicKey) where
  -- What a checkpoint that was created states.
  pub record Checkpointed (v : AuditVerification) (signer : CheckpointSigner) (a : AuditCheckpoint)
      : Type 0 where
    pub was_valid : v.valid ≡ true
    pub same_version : a.version ≡ checkpoint_version
    pub same_key : a.key_id ≡ signer.key_id
    pub same_count : a.event_count ≡ v.event_count
    pub same_head : a.head_hash ≡ v.head_hash
    pub signature : Bytes
    pub signed : signer.sign (signing_payload c a) ≡ ok signature
    pub encoded : a.signature ≡ c.b64encode signature

  pub create_checkpoint-Checkpointed :
      (v : AuditVerification) (signer : CheckpointSigner) (issued_at : Option Datetime)
      (w w' : World) (a : AuditCheckpoint)
      → create_checkpoint c v signer issued_at w ≡ (ok a, w')
      → Checkpointed v signer a
  unfolding create_checkpoint signing_payload
  create_checkpoint-Checkpointed v signer issued_at w w' a done =
      OnOk-elim (λ a after. Checkpointed v signer a) (create_checkpoint c v signer issued_at w) a w'
        (OnOk-raise_unless _ _ _ _ _ λ valid. OnOk-any _ _ _ _ λ timestamp after.
          OnOk-lift_value _ _ _ _ (λ b h. OnOk-pure _ _ _ (record {
            was_valid = valid;
            same_version = refl;
            same_key = refl;
            same_count = refl;
            same_head = refl;
            signature = b;
            signed = h;
            encoded = refl;
          })))
        done

  verified :
      (a : AuditCheckpoint) (trusted : List (String × String)) (encoded : String)
      (raw signature : Bytes) (key : PublicKey)
      → (a.version == checkpoint_version) ≡ true
      → trusted_key a.key_id trusted ≡ some encoded
      → c.b64decode encoded ≡ some raw
      → c.from_public_bytes raw ≡ some key
      → c.b64decode_validated a.signature ≡ some signature
      → c.verify key signature (signing_payload c a) ≡ true
      → verify_checkpoint c a trusted ≡ true
  unfolding verify_checkpoint
  verified a trusted encoded raw signature key version known read loaded decoded h =
      simp (version, known, read, loaded, decoded, h)

  -- The signature of a checkpoint that was created verifies under the trusted keys, when these hold
  -- the signer's public key: base64 must read back what it wrote, and the key must verify what the
  -- signer signs. The checkpoint has the count and the head of the verification, which was valid.
  pub create_checkpoint-verify_checkpoint :
      (v : AuditVerification) (signer : CheckpointSigner) (issued_at : Option Datetime)
      (w w' : World) (a : AuditCheckpoint) (trusted : List (String × String)) (encoded : String)
      (raw : Bytes) (key : PublicKey)
      → trusted_key signer.key_id trusted ≡ some encoded
      → c.b64decode encoded ≡ some raw
      → c.from_public_bytes raw ≡ some key
      → ((b : Bytes) → c.b64decode_validated (c.b64encode b) ≡ some b)
      → ((payload b : Bytes) → signer.sign payload ≡ ok b → c.verify key b payload ≡ true)
      → create_checkpoint c v signer issued_at w ≡ (ok a, w')
      → (verify_checkpoint c a trusted ≡ true)
        × (v.valid ≡ true)
        × (a.event_count ≡ v.event_count)
        × (a.head_hash ≡ v.head_hash)
  unfolding verify_checkpoint
  create_checkpoint-verify_checkpoint v signer issued_at w w' a trusted encoded raw key known read
        loaded reads_back verifies done =
      let h = create_checkpoint-Checkpointed v signer issued_at w w' a done in
      (
        verified a trusted encoded raw h.signature key
            (rw h.same_version (==_self checkpoint_version)) (rw h.same_key known) read loaded
            (ap c.b64decode_validated h.encoded ∙ reads_back h.signature)
            (verifies (signing_payload c a) h.signature h.signed),
        h.was_valid,
        h.same_count,
        h.same_head,
      )

  -- A checkpoint that was created of a log fixes the history before it: a log that verify_chain
  -- accepts with the checkpoint's count and head has the hashed texts of the log that was signed, in
  -- the same order, or SHA-256 has a collision. The text of an event must fix its previous hash.
  pub checkpoint_fixes_history :
      (text_names_previous : (e f : AuditEvent)
        → hashed_text e ≡ hashed_text f
        → e.previous_hash ≡ f.previous_hash)
      (db other : Database) (signer : CheckpointSigner) (issued_at : Option Datetime) (w w' : World)
      (a : AuditCheckpoint)
      → create_checkpoint c (verify_chain db) signer issued_at w ≡ (ok a, w')
      → (verify_chain other).valid ≡ true
      → (verify_chain other).event_count ≡ a.event_count
      → (verify_chain other).head_hash ≡ a.head_hash
      → (map hashed_text (ascending db.audit_events)
          ≡ map hashed_text (ascending other.audit_events))
        ⊎ Collision
  checkpoint_fixes_history names db other signer issued_at w w' a done accepted count head =
      let h = create_checkpoint-Checkpointed (verify_chain db) signer issued_at w w' a done in
      head_fixes_history names db other h.was_valid accepted (sym h.same_count ∙ sym count)
        (sym h.same_head ∙ sym head)
