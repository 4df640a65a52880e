-- ===== src/Service/Registration.antt =====
-- `register_asset` and `create_offer` of service.py.
use energy_flex_trust_platfo.Prelude.{not, [], ◌∷◌, any, ◌==◌}
use energy_flex_trust_platfo.Domain.{
  Actor, asset_owner, require_role, active, open_offer, is_active, Error, asset_type_value,
  direction_value,
}
use energy_flex_trust_platfo.Decimal.{exceeds}
use energy_flex_trust_platfo.Json.{text, decimal, moment}
use energy_flex_trust_platfo.Platform.{Platform}
use energy_flex_trust_platfo.Models.{Asset, FlexOffer}
use energy_flex_trust_platfo.Session.{
  Action, pure, lift, query, begin, ◌>>=◌, ◌>>◌, raise_if, new_id, utc_now, add_asset,
  add_flex_offer,
}
use energy_flex_trust_platfo.Audit.Defs.{append_event}
use energy_flex_trust_platfo.Schemas.{AssetCreate, OfferCreate}
use energy_flex_trust_platfo.Service.Common.{find_asset}

module _ ⦃p : Platform⦄ where
  -- The transaction of `register_asset`.
  unfoldable pub register : AssetCreate → Actor → Action Asset
  register command actor = do
    taken ← query (λ db. any (λ x. x.external_id == command.external_id) db.assets)
    raise_if taken Error.conflict
    id ← new_id
    created_at ← utc_now
    let asset : Asset = record {
      id = id;
      external_id = command.external_id;
      owner_id = command.owner_id;
      asset_type = command.asset_type;
      capacity_kw = command.capacity_kw;
      location_code = command.location_code;
      status = active;
      created_at = created_at;
    }
    add_asset asset
    correlation_id ← new_id
    append_event "asset" id "asset.registered" actor.actor_id correlation_id (
        ("external_id", text asset.external_id)
        ∷ ("asset_type", text (asset_type_value asset.asset_type))
        ∷ ("capacity_kw", decimal asset.capacity_kw)
        ∷ ("location_code", text asset.location_code)
        ∷ [])
    pure asset

  unfoldable pub register_asset : AssetCreate → Actor → Action Asset
  register_asset command actor = do
    lift (require_role actor (asset_owner ∷ []))
    raise_if (not (command.owner_id == actor.actor_id)) Error.forbidden
    begin (register command actor)

  -- The transaction of `create_offer`.
  unfoldable pub offer : OfferCreate → Actor → Action FlexOffer
  offer command actor = do
    asset ← find_asset command.asset_id
    raise_if (not (asset.owner_id == actor.actor_id)) Error.forbidden
    raise_if (not (is_active asset.status)) Error.invalid_transition
    raise_if (exceeds command.quantity_kw asset.capacity_kw) Error.conflict
    id ← new_id
    created_at ← utc_now
    let row : FlexOffer = record {
      id = id;
      asset_id = asset.id;
      window_start = command.window_start;
      window_end = command.window_end;
      direction = command.direction;
      quantity_kw = command.quantity_kw;
      price_per_kwh = command.price_per_kwh;
      status = open_offer;
      created_by = actor.actor_id;
      created_at = created_at;
    }
    add_flex_offer row
    correlation_id ← new_id
    append_event "offer" id "offer.created" actor.actor_id correlation_id (
        ("asset_id", text asset.id)
        ∷ ("direction", text (direction_value row.direction))
        ∷ ("quantity_kw", decimal row.quantity_kw)
        ∷ ("price_per_kwh", decimal row.price_per_kwh)
        ∷ ("window_start", moment row.window_start)
        ∷ ("window_end", moment row.window_end)
        ∷ [])
    pure row

  unfoldable pub create_offer : OfferCreate → Actor → Action FlexOffer
  create_offer command actor = do
    lift (require_role actor (asset_owner ∷ []))
    begin (offer command actor)
