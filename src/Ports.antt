-- ===== src/Ports.antt =====
-- src/energy_flex_trust/ports.py: the signal, the port of a publisher and the two adapters that
-- ship with the program. A publisher is stateful and may raise.
use Prim.Native.String
use energy_flex_trust_platfo.Prelude.{ℕ, suc, String, leb, is_blank, if◌then◌else◌}
use energy_flex_trust_platfo.Datetime.{Datetime}
use energy_flex_trust_platfo.Decimal.{Decimal}

pub record DispatchSignal : Type 0 where
  pub dispatch_id : String
  pub asset_external_id : String
  pub target_kw : Decimal
  pub starts_at : Datetime
  pub ends_at : Datetime

-- How a call of an adapter ends; an exception has the name of its type and its text.
pub data Attempt {ℓ} (A : Type ℓ) : Type ℓ where
  returned : A → Attempt A
  raised : String → String → Attempt A

-- `DispatchPublisher.publish(signal, idempotency_key=key)`
abbrev pub Publisher : Type 0 → Type 0
Publisher S = DispatchSignal → String → S → Attempt String × S

-- `NoopDispatchPublisher`
unfoldable pub noop_publisher : {S : Type 0} → Publisher S
noop_publisher signal idempotency_key s =
    if is_blank idempotency_key
    then (raised "ValueError" "Publisher idempotency key cannot be blank.", s)
    else (returned (String.◌++◌ "noop:" signal.dispatch_id), s)

-- `FaultInjectingDispatchPublisher`; its state is the number of attempts, beside the delegate's.
-- `text_of` prints the number in the message.
unfoldable pub fault_injecting_publisher :
    {S : Type 0} → (ℕ → String) → ℕ → Publisher S → Publisher (ℕ × S)
fault_injecting_publisher text_of failures_before_success delegate signal idempotency_key (n, s) =
    if leb (suc n) failures_before_success
    then (
      raised "RuntimeError"
          (String.◌++◌ "Injected outbound failure #" (String.◌++◌ (text_of (suc n)) ".")),
      (suc n, s),
    )
    else (let (answer, s') = delegate signal idempotency_key s in (answer, (suc n, s')))
