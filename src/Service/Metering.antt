-- ===== src/Service/Metering.antt =====
-- `record_meter_reading` of service.py.
use energy_flex_trust_platfo.Prelude.{
  String, not, ◌&&◌, Option, none, some, List, [], ◌∷◌, ◌==◌, if◌then◌else◌,
}
use energy_flex_trust_platfo.Domain.{Actor, asset_owner, system, require_role, same_role, Error}
use energy_flex_trust_platfo.Json.{text, decimal, moment}
use energy_flex_trust_platfo.Platform.{Platform}
use energy_flex_trust_platfo.Models.{MeterReading}
use energy_flex_trust_platfo.Session.{
  Action, pure, lift, query, begin, unless_found, ◌>>=◌, ◌>>◌, raise_if, new_id, utc_now,
  add_meter_reading,
}
use energy_flex_trust_platfo.Audit.Defs.{sha256_json, append_event}
use energy_flex_trust_platfo.Schemas.{MeterReadingCreate}
use energy_flex_trust_platfo.Service.Common.{find_asset}

-- `select(MeterReading).where(MeterReading.fingerprint == fingerprint)`
unfoldable pub find_reading : String → List MeterReading → Option MeterReading
find_reading fingerprint [] = none
find_reading fingerprint (r ∷ rs) =
    if r.fingerprint == fingerprint then some r else find_reading fingerprint rs

module _ ⦃p : Platform⦄ where
  unfoldable pub reading_fingerprint : MeterReadingCreate → String
  reading_fingerprint command = sha256_json (
      ("asset_id", text command.asset_id)
      ∷ ("interval_start", text (p.dump_datetime command.interval_start))
      ∷ ("interval_end", text (p.dump_datetime command.interval_end))
      ∷ ("energy_kwh", text (p.dump_decimal command.energy_kwh))
      ∷ ("source", text command.source)
      ∷ [])

  -- The part of the transaction behind the search for an earlier reading.
  unfoldable pub store_reading :
      MeterReadingCreate → Actor → (asset_id fingerprint : String) → Action MeterReading
  store_reading command actor asset_id fingerprint = do
    id ← new_id
    received_at ← utc_now
    let reading : MeterReading = record {
      id = id;
      asset_id = asset_id;
      interval_start = command.interval_start;
      interval_end = command.interval_end;
      energy_kwh = command.energy_kwh;
      source = command.source;
      fingerprint = fingerprint;
      recorded_by = actor.actor_id;
      received_at = received_at;
    }
    add_meter_reading reading
    append_event "meter_reading" id "meter_reading.recorded" actor.actor_id fingerprint (
        ("asset_id", text asset_id)
        ∷ ("interval_start", moment reading.interval_start)
        ∷ ("interval_end", moment reading.interval_end)
        ∷ ("energy_kwh", decimal reading.energy_kwh)
        ∷ ("source", text reading.source)
        ∷ ("fingerprint", text reading.fingerprint)
        ∷ [])
    pure reading

  unfoldable pub record_meter_reading : MeterReadingCreate → Actor → Action MeterReading
  unfolding store_reading
  record_meter_reading command actor = do
    lift (require_role actor (asset_owner ∷ system ∷ []))
    let fingerprint = reading_fingerprint command
    begin do
      asset ← find_asset command.asset_id
      raise_if (same_role actor.role asset_owner && not (asset.owner_id == actor.actor_id))
          Error.forbidden
      existing ← query (λ db. find_reading fingerprint db.meter_readings)
      unless_found existing (store_reading command actor asset.id fingerprint)
