-- ===== src/Tests/Checkpoints.antt =====
-- The theorems on checkpoints.
use Prim.Native.String
use energy_flex_trust_platfo.Prelude.{
  String, ◌≡◌, ◌⊎◌, refl, true, none, some, [], ◌∷◌, map, ◌==◌, ==_iff, arith,
}
use energy_flex_trust_platfo.Domain.{ok}
use energy_flex_trust_platfo.Session.{◌>>=◌, utc_now, lift}
use energy_flex_trust_platfo.Audit.Defs.{
  genesis_hash, ascending, calculate_event_hash, canonical_json, sha256_json, audit_hash_material,
  json_fields, verify_chain,
}
use energy_flex_trust_platfo.Audit.Tamper.{hashed_text, Collision}
use energy_flex_trust_platfo.Checkpoints.{
  Bytes, Cryptography, CheckpointSigner, AuditCheckpoint, checkpoint_version, signing_payload,
  timestamp_or_now, create_checkpoint, verify_checkpoint,
}
use energy_flex_trust_platfo.Checkpoints.Trust.{
  create_checkpoint-verify_checkpoint, checkpoint_fixes_history,
}
use energy_flex_trust_platfo.System.{empty_database, fresh_state}
use energy_flex_trust_platfo.Tests.Sample.{sample_platform}
use energy_flex_trust_platfo.Tests.Audit.{link_platform, linked_log}

-- A key that signs by writing its name before the payload.
abbrev cryptography : Cryptography String
cryptography = record {
  encode = λ s. s;
  b64encode = λ b. b;
  b64decode = some;
  b64decode_validated = some;
  from_public_bytes = some;
  verify = λ key signature payload. signature == String.◌++◌ key payload;
}

abbrev signer : CheckpointSigner
signer = record { key_id = "k1"; sign = λ payload. ok (String.◌++◌ "pub" payload) }

signer_verifies :
    (payload b : Bytes) → signer.sign payload ≡ ok b → cryptography.verify "pub" b payload ≡ true
signer_verifies payload b h = ground (arith, ==_iff b (String.◌++◌ "pub" payload))

abbrev checkpoint : AuditCheckpoint
checkpoint = record {
  version = checkpoint_version;
  key_id = "k1";
  event_count = 0;
  head_hash = genesis_hash;
  issued_at = "i";
  signature =
      String.◌++◌ "pub"
        "energy-flex-audit-checkpoint.v1,k1,-,0000000000000000000000000000000000000000000000000000000000000000,i,;";
}

create_checkpoint-verify_checkpoint_example :
    (verify_checkpoint cryptography checkpoint (("k1", "pub") ∷ []) ≡ true)
    × ((verify_chain empty_database).valid ≡ true)
    × (0 ≡ (verify_chain empty_database).event_count)
    × (genesis_hash ≡ (verify_chain empty_database).head_hash)
unfolding create_checkpoint signing_payload timestamp_or_now canonical_json json_fields verify_chain
    ◌>>=◌ utc_now lift
create_checkpoint-verify_checkpoint_example =
    create_checkpoint-verify_checkpoint cryptography (verify_chain empty_database) signer none
      fresh_state.world (record fresh_state.world { ticks = 1 }) checkpoint (("k1", "pub") ∷ [])
      "pub" "pub" "pub" refl refl refl (λ b. refl) signer_verifies refl

checkpoint_fixes_history_example :
    (map (hashed_text ⦃p = link_platform⦄) (ascending linked_log.audit_events)
      ≡ map (hashed_text ⦃p = link_platform⦄) (ascending linked_log.audit_events))
    ⊎ Collision ⦃p = link_platform⦄
unfolding create_checkpoint signing_payload timestamp_or_now verify_chain calculate_event_hash
    sha256_json audit_hash_material canonical_json json_fields ◌>>=◌ utc_now lift
checkpoint_fixes_history_example =
    checkpoint_fixes_history ⦃p = link_platform⦄ cryptography (λ e f same. same) linked_log
      linked_log signer none fresh_state.world (record fresh_state.world { ticks = 1 })
      (record checkpoint { event_count = 1; signature = "pub" }) refl refl refl refl
