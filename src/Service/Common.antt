-- ===== src/Service/Common.antt =====
-- The private methods of `CoordinationService`: lookups, and the record of an idempotent request.
use energy_flex_trust_platfo.Prelude.{
  String, not, ◌&&◌, Option, none, some, List, [], ◌∷◌, is_blank, ◌==◌, if◌then◌else◌,
}
use energy_flex_trust_platfo.Domain.{Error}
use energy_flex_trust_platfo.Json.{text}
use energy_flex_trust_platfo.Platform.{Platform}
use energy_flex_trust_platfo.Models.Table.{Row, get, over}
use energy_flex_trust_platfo.Models.{
  Asset, FlexOffer, Reservation, IdempotencyRecord, Database, asset_row, flex_offer_row,
  reservation_row,
}
use energy_flex_trust_platfo.Session.{
  Action, pure, query, or_raise, require, ◌>>=◌, ◌>>◌, raise_if, new_id, utc_now,
  add_idempotency_record,
}
use energy_flex_trust_platfo.Audit.Defs.{canonical_json}

-- `_asset`; the row lock of `with_for_update` has no effect between transactions that run in turn.
abbrev pub find_asset : String → Action Asset
find_asset asset_id = require (λ db. get asset_id db.assets) Error.not_found

-- `_offer`
abbrev pub find_offer : String → Action FlexOffer
find_offer offer_id = require (λ db. get offer_id db.flex_offers) Error.not_found

-- `_reservation`
abbrev pub find_reservation : String → Action Reservation
find_reservation reservation_id = require (λ db. get reservation_id db.reservations) Error.not_found

-- The record of an operation and a key.
unfoldable pub find_record : String → String → List IdempotencyRecord → Option IdempotencyRecord
find_record operation key [] = none
find_record operation key (r ∷ rs) =
    if r.operation == operation && r.key == key then some r else find_record operation key rs

module _ {R : Type 0} ⦃row : Row R⦄ where
  -- What a record that was found stands for.
  unfoldable pub recorded_resource :
      String → (Database → List R) → Option IdempotencyRecord → Action (Option R)
  recorded_resource request_hash table none = pure none
  recorded_resource request_hash table (some r) = do
    raise_if (not (r.request_hash == request_hash)) Error.conflict
    resource ← query (λ db. get r.resource_id (table db))
    or_raise (over some resource) Error.conflict

  -- `_idempotent_resource`
  unfoldable pub idempotent_resource :
      (operation key request_hash : String) → (Database → List R) → Action (Option R)
  unfolding recorded_resource
  idempotent_resource operation key request_hash table = do
    raise_if (is_blank key) Error.conflict
    found ← query (λ db. find_record operation key db.idempotency_records)
    recorded_resource request_hash table found

module _ ⦃p : Platform⦄ where
  -- `_store_idempotency`
  unfoldable pub store_idempotency :
      (operation key request_hash resource_type resource_id : String) → Action (Unit {0})
  store_idempotency operation key request_hash resource_type resource_id = do
    id ← new_id
    created_at ← utc_now
    add_idempotency_record (record {
      id = id;
      operation = operation;
      key = key;
      request_hash = request_hash;
      resource_type = resource_type;
      resource_id = resource_id;
      response_snapshot = canonical_json (("resource_id", text resource_id) ∷ []);
      created_at = created_at;
    })
