-- ===== src/Tests/Settlement.antt =====
-- The theorems on a settlement, for a dispatch that was acknowledged and metered.
use energy_flex_trust_platfo.Prelude.{◌≡◌, refl, [], ◌∷◌}
use energy_flex_trust_platfo.Tests.Sample.{
  sample_platform, tag, at, kw, analyst, offer_row, the_reservation, the_dispatch,
}
use energy_flex_trust_platfo.Domain.{
  ok, err, Result, ReservationStatus, DispatchStatus, settlement_analyst, require_role,
}
use energy_flex_trust_platfo.Models.{Settlement, MeterReading}
use energy_flex_trust_platfo.Session.{
  World, new_id, utc_now, ◌>>=◌, add_audit_event, add_idempotency_record, add_settlement,
}
use energy_flex_trust_platfo.System.{empty_database}
use energy_flex_trust_platfo.Json.{null}
use energy_flex_trust_platfo.Guarantees.Settling.{Settling, settle_reservation-Settling}
use energy_flex_trust_platfo.Guarantees.Retry.{settle_reservation-again}
use energy_flex_trust_platfo.Prelude.Tests.{is_blank}
use energy_flex_trust_platfo.Models.Table.{get, update}
use energy_flex_trust_platfo.Audit.Defs.{
  append_event, calculate_event_hash, sha256_json, canonical_json, audit_hash_material, json_fields,
}
use energy_flex_trust_platfo.Service.Common.{
  find_record, idempotent_resource, recorded_resource, store_idempotency,
}
use energy_flex_trust_platfo.Service.Settle.{
  dispatch_of, counts_for, settled_readings, settle_hash, evidence_manifest, complete, settle,
  settle_reservation,
}
use energy_flex_trust_platfo.Decimal.{
  drop_digits, fit_context, add, multiply, rescale, quantize, sum_from, delivered_energy,
  settlement_amount,
}

abbrev reading : MeterReading
reading = record {
  id = tag 15;
  asset_id = tag 0;
  interval_start = at 1;
  interval_end = at 2;
  energy_kwh = kw;
  source = "meter";
  fingerprint = "f";
  recorded_by = "owner";
  received_at = at 16;
}

abbrev delivered : World
delivered = record {
  db = record empty_database {
    flex_offers = offer_row ∷ [];
    reservations = record the_reservation { status = ReservationStatus.dispatched } ∷ [];
    dispatches = record the_dispatch { status = DispatchStatus.issued } ∷ [];
    meter_readings = reading ∷ [];
  };
  drawn = 20;
  ticks = 20;
}

abbrev none_yet : Settlement
none_yet = record {
  id = "";
  reservation_id = "";
  delivered_kwh = kw;
  price_per_kwh = kw;
  amount = kw;
  evidence_manifest = null;
  evidence_hash = "";
  settled_by = "";
  created_at = at 0;
}

abbrev value_or : Settlement → Result Settlement → Settlement
value_or s (ok t) = t
value_or s (err e) = s

abbrev settlement : Settlement
settlement = value_or none_yet (settle_reservation (tag 6) analyst "k3" delivered).0

abbrev settled : World
settled = (settle_reservation (tag 6) analyst "k3" delivered).1

settle_reservation-Settling_example :
    (require_role analyst (settlement_analyst ∷ []) ≡ ok tt)
    × Settling (tag 6) analyst delivered.db settlement
unfolding is_blank require_role get update append_event calculate_event_hash sha256_json
    canonical_json audit_hash_material json_fields new_id utc_now ◌>>=◌ add_audit_event
    add_idempotency_record find_record idempotent_resource recorded_resource store_idempotency
    dispatch_of counts_for settled_readings settle_hash evidence_manifest complete settle
    settle_reservation add_settlement drop_digits fit_context add multiply rescale quantize sum_from
    delivered_energy settlement_amount
settle_reservation-Settling_example =
    settle_reservation-Settling (tag 6) analyst "k3" delivered settled settlement refl refl

settle_reservation-again_example :
    (y : Settlement) × (settle_reservation (tag 6) analyst "k3" settled ≡ (ok y, settled))
    × (y.id ≡ settlement.id)
unfolding is_blank require_role get update append_event calculate_event_hash sha256_json
    canonical_json audit_hash_material json_fields new_id utc_now ◌>>=◌ add_audit_event
    add_idempotency_record find_record idempotent_resource recorded_resource store_idempotency
    dispatch_of counts_for settled_readings settle_hash evidence_manifest complete settle
    settle_reservation add_settlement drop_digits fit_context add multiply rescale quantize sum_from
    delivered_energy settlement_amount
settle_reservation-again_example =
    settle_reservation-again (tag 6) analyst "k3" delivered settled settlement refl
