-- ===== src/Checkpoints.antt =====
-- src/energy_flex_trust/checkpoints.py: signed checkpoints of the audit log. Ed25519 and base64 are
-- parameters; bytes are texts of code points below 256.
pub mod Trust
use energy_flex_trust_platfo.Prelude.{
  ℕ, String, Bool, true, false, not, Option, none, some, List, [], ◌∷◌, ◌==◌, if◌then◌else◌,
}
use energy_flex_trust_platfo.Domain.{Error, Result, ok}
use energy_flex_trust_platfo.Datetime.{Datetime, as_utc}
use energy_flex_trust_platfo.Json.{text, number}
use energy_flex_trust_platfo.Platform.{Platform}
use energy_flex_trust_platfo.Session.{Action, pure, lift, ◌>>=◌, ◌>>◌, raise_if, utc_now}
use energy_flex_trust_platfo.Audit.Defs.{AuditVerification, canonical_json}

abbrev pub Bytes : Type 0
Bytes = String

-- `base64` and `cryptography`'s Ed25519; `none` is the `ValueError` that the code catches, and a
-- signature that does not verify is `InvalidSignature`.
pub record Cryptography (PublicKey : Type 0) : Type 0 where
  -- `text.encode("utf-8")`
  pub encode : String → Bytes
  -- `base64.b64encode(data).decode("ascii")`
  pub b64encode : Bytes → String
  -- `base64.b64decode(text)` and `base64.b64decode(text, validate=True)`
  pub b64decode : String → Option Bytes
  pub b64decode_validated : String → Option Bytes
  -- `Ed25519PublicKey.from_public_bytes`
  pub from_public_bytes : Bytes → Option PublicKey
  -- `public_key.verify(signature, payload)` does not raise
  pub verify : PublicKey → Bytes → Bytes → Bool

-- `CheckpointSigner`; a signer behind a service may raise.
pub record CheckpointSigner : Type 0 where
  pub key_id : String
  pub sign : Bytes → Result Bytes

-- `Ed25519SoftwareSigner`; `private_key` is `_private_key.sign`.
unfoldable pub software_signer : String → (Bytes → Bytes) → CheckpointSigner
software_signer key_id private_key = record {
  key_id = key_id;
  sign = λ payload. ok (private_key payload);
}

abbrev pub checkpoint_version : String
checkpoint_version = "energy-flex-audit-checkpoint.v1"

pub record AuditCheckpoint : Type 0 where
  pub version : String
  pub key_id : String
  pub event_count : ℕ
  pub head_hash : String
  pub issued_at : String
  pub signature : String

-- `trusted_public_keys.get`
abbrev pub trusted_key : String → List (String × String) → Option String
trusted_key key_id [] = none
trusted_key key_id ((k, encoded) ∷ rest) =
    let later = trusted_key key_id rest in if k == key_id then some encoded else later

module _ ⦃p : Platform⦄ {PublicKey : Type 0} (c : Cryptography PublicKey) where
  -- `AuditCheckpoint.signing_payload`
  unfoldable pub signing_payload : AuditCheckpoint → Bytes
  signing_payload checkpoint = c.encode (
      canonical_json (
        ("version", text checkpoint.version)
        ∷ ("key_id", text checkpoint.key_id)
        ∷ ("event_count", number checkpoint.event_count)
        ∷ ("head_hash", text checkpoint.head_hash)
        ∷ ("issued_at", text checkpoint.issued_at)
        ∷ []))

  -- `issued_at or datetime.now(UTC)`
  unfoldable pub timestamp_or_now : Option Datetime → Action Datetime
  timestamp_or_now none = utc_now
  timestamp_or_now (some issued_at) = pure issued_at

  unfoldable pub create_checkpoint :
      AuditVerification → CheckpointSigner → Option Datetime → Action AuditCheckpoint
  unfolding timestamp_or_now signing_payload
  create_checkpoint verification signer issued_at = do
    raise_if (not verification.valid) Error.value_error
    timestamp ← timestamp_or_now issued_at
    let unsigned : AuditCheckpoint = record {
      version = checkpoint_version;
      key_id = signer.key_id;
      event_count = verification.event_count;
      head_hash = verification.head_hash;
      issued_at = p.isoformat (as_utc timestamp);
      signature = "";
    }
    signature ← lift (signer.sign (signing_payload unsigned))
    pure (record unsigned { signature = c.b64encode signature })

  -- The `try` block of `verify_checkpoint`, from its decoded values.
  abbrev pub verify_decoded : AuditCheckpoint → Option PublicKey → Option Bytes → Bool
  verify_decoded checkpoint (some key) (some signature) =
      c.verify key signature (signing_payload checkpoint)
  verify_decoded checkpoint _ _ = false

  abbrev pub load_public_key : Option Bytes → Option PublicKey
  load_public_key none = none
  load_public_key (some raw) = c.from_public_bytes raw

  abbrev pub verify_with : AuditCheckpoint → Option String → Bool
  verify_with checkpoint none = false
  verify_with checkpoint (some encoded_key) =
      verify_decoded checkpoint (load_public_key (c.b64decode encoded_key))
        (c.b64decode_validated checkpoint.signature)

  unfoldable pub verify_checkpoint : AuditCheckpoint → List (String × String) → Bool
  unfolding signing_payload
  verify_checkpoint checkpoint trusted_public_keys =
      if not (checkpoint.version == checkpoint_version)
      then false
      else verify_with checkpoint (trusted_key checkpoint.key_id trusted_public_keys)
