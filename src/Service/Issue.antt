-- ===== src/Service/Issue.antt =====
-- `issue_dispatch` of service.py.
use Prim.Native.String
use energy_flex_trust_platfo.Prelude.{String, Bool, not, ◌||◌, none, some, [], ◌∷◌}
use energy_flex_trust_platfo.Domain.{
  Actor, market_operator, require_role, dispatch_pending, queued, is_reserved, Error,
}
use energy_flex_trust_platfo.Datetime.{as_utc, earlier}
use energy_flex_trust_platfo.Decimal.{exceeds}
use energy_flex_trust_platfo.Json.{text, decimal, moment}
use energy_flex_trust_platfo.Platform.{Platform}
use energy_flex_trust_platfo.Models.{FlexOffer, Dispatch, dispatch_row, reservation_row}
use energy_flex_trust_platfo.Session.{
  Action, pure, lift, begin, unless_found, ◌>>=◌, ◌>>◌, raise_if, new_id, utc_now, add_dispatch,
}
use energy_flex_trust_platfo.Audit.Defs.{sha256_json, append_event}
use energy_flex_trust_platfo.Outbox.Queue.{enqueue_dispatch}
use energy_flex_trust_platfo.Outbox.Worker.{set_dispatch, set_reservation}
use energy_flex_trust_platfo.Schemas.{DispatchCreate}
use energy_flex_trust_platfo.Service.Common.{
  find_asset, find_offer, find_reservation, idempotent_resource, store_idempotency,
}

-- Lines 235 to 237 of service.py.
abbrev pub outside_window : DispatchCreate → FlexOffer → Bool
outside_window command offer =
    earlier (as_utc command.starts_at) (as_utc offer.window_start)
    || earlier (as_utc offer.window_end) (as_utc command.ends_at)

module _ ⦃p : Platform⦄ where
  unfoldable pub issue_hash : String → DispatchCreate → Actor → String
  issue_hash reservation_id command actor = sha256_json (
      ("reservation_id", text reservation_id)
      ∷ ("target_kw", text (p.dump_decimal command.target_kw))
      ∷ ("starts_at", text (p.dump_datetime command.starts_at))
      ∷ ("ends_at", text (p.dump_datetime command.ends_at))
      ∷ ("actor_id", text actor.actor_id)
      ∷ [])

  -- The transaction of `issue_dispatch`, for a request that is not a replay.
  unfoldable pub issue :
      String → DispatchCreate → Actor → (key request_hash : String) → Action Dispatch
  issue reservation_id command actor idempotency_key request_hash = do
    reservation ← find_reservation reservation_id
    raise_if (not (is_reserved reservation.status)) Error.invalid_transition
    raise_if (exceeds command.target_kw reservation.quantity_kw) Error.conflict
    offer ← find_offer reservation.offer_id
    asset ← find_asset offer.asset_id
    raise_if (outside_window command offer) Error.conflict
    id ← new_id
    created_at ← utc_now
    let dispatch : Dispatch = record {
      id = id;
      reservation_id = reservation.id;
      target_kw = command.target_kw;
      starts_at = command.starts_at;
      ends_at = command.ends_at;
      status = queued;
      issued_by = actor.actor_id;
      adapter_reference = none;
      created_at = created_at;
    }
    add_dispatch dispatch
    outbox ←
        enqueue_dispatch
          (record {
            dispatch_id = id;
            asset_external_id = asset.external_id;
            target_kw = command.target_kw;
            starts_at = command.starts_at;
            ends_at = command.ends_at;
          })
          idempotency_key
    let reference = String.◌++◌ "outbox:" outbox.id
    set_dispatch id (λ x. record x { adapter_reference = some reference })
    set_reservation reservation.id (λ x. record x { status = dispatch_pending })
    append_event "dispatch" id "dispatch.queued" actor.actor_id idempotency_key (
        ("reservation_id", text reservation.id)
        ∷ ("target_kw", decimal command.target_kw)
        ∷ ("starts_at", moment command.starts_at)
        ∷ ("ends_at", moment command.ends_at)
        ∷ ("outbox_message_id", text outbox.id)
        ∷ ("delivery_status", text "queued")
        ∷ [])
    store_idempotency "issue_dispatch" idempotency_key request_hash "dispatch" id
    pure (record dispatch { adapter_reference = some reference })

  unfoldable pub issue_dispatch :
      String → DispatchCreate → Actor → (idempotency_key : String) → Action Dispatch
  issue_dispatch reservation_id command actor idempotency_key = do
    lift (require_role actor (market_operator ∷ []))
    let request_hash = issue_hash reservation_id command actor
    begin do
      existing ←
          idempotent_resource "issue_dispatch" idempotency_key request_hash (λ db. db.dispatches)
      unless_found existing (issue reservation_id command actor idempotency_key request_hash)
