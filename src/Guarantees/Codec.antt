-- ===== src/Guarantees/Codec.antt =====
-- A signal through the outbox's JSON column and back.
use energy_flex_trust_platfo.Prelude.{
  String, ◌≡◌, ◌≢◌, refl, some, [], ◌∷◌, arith, ◌==◌, ==_iff, false,
}
use energy_flex_trust_platfo.Datetime.{as_utc}
use energy_flex_trust_platfo.Json.{str}
use energy_flex_trust_platfo.Platform.{Platform}
use energy_flex_trust_platfo.Ports.{DispatchSignal, returned, raised}
use energy_flex_trust_platfo.Outbox.Payload.{
  Document, dispatch_payload_version, dispatch_payload, dispatch_signal, restore_signal,
}

-- The payload as earlier releases have written it: without the version.
abbrev pub without_version : Document → Document
without_version [] = []
without_version (first ∷ rest) = rest

abbrev pub with_version : String → Document → Document
with_version version payload = ("schema_version", str version) ∷ without_version payload

module _ ⦃p : Platform⦄ where
  -- What `dispatch_payload` writes, `dispatch_signal` reads back, with both times in UTC; the
  -- payload without its version, as earlier releases wrote it, is read as the same signal; and any
  -- other version is refused. The decimal and the times must be ones that the texts of Python give
  -- back.
  pub dispatch_signal-dispatch_payload :
      (signal : DispatchSignal) (version : String)
      → p.parse_decimal (p.format_f signal.target_kw) ≡ some signal.target_kw
      → p.fromisoformat (p.isoformat (as_utc signal.starts_at)) ≡ some (as_utc signal.starts_at)
      → p.fromisoformat (p.isoformat (as_utc signal.ends_at)) ≡ some (as_utc signal.ends_at)
      → version ≢ dispatch_payload_version
      → (dispatch_signal (dispatch_payload signal)
          ≡ returned (record signal {
            starts_at = as_utc signal.starts_at;
            ends_at = as_utc signal.ends_at;
          }))
        × (dispatch_signal (without_version (dispatch_payload signal))
            ≡ returned (record signal {
              starts_at = as_utc signal.starts_at;
              ends_at = as_utc signal.ends_at;
            }))
        × (dispatch_signal (with_version version (dispatch_payload signal))
            ≡ raised "ValueError" "Dispatch outbox payload version is unsupported.")
  unfolding dispatch_signal dispatch_payload restore_signal
  dispatch_signal-dispatch_payload signal version parsed started ended other =
      let unknown : (version == dispatch_payload_version) ≡ false =
        ground (arith, ==_iff version dispatch_payload_version) in
      (rw (parsed, started, ended) refl, rw (parsed, started, ended) refl, rw unknown refl)
