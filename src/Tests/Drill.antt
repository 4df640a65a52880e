-- ===== src/Tests/Drill.antt =====
-- The theorem on the recovery drill.
use Prim.Native.String
use energy_flex_trust_platfo.Prelude.{◌≡◌, ◌⊎◌, refl, none, some, [], ◌∷◌, map}
use energy_flex_trust_platfo.Prelude.Tests.{is_blank}
use energy_flex_trust_platfo.Domain.{
  require_role, asset_type_value, direction_value, DispatchStatus, OfferStatus, ReservationStatus,
  active, battery, decrease,
}
use energy_flex_trust_platfo.Datetime.{utc}
use energy_flex_trust_platfo.Json.{str, arr, cons, nil, obj, end, field}
use energy_flex_trust_platfo.Platform.{Platform}
use energy_flex_trust_platfo.Models.{AuditEvent, published}
use energy_flex_trust_platfo.Models.Table.{get, update}
use energy_flex_trust_platfo.Session.{
  World, pure, lift, query, or_raise, begin, unless_found, raise_if, write, if_found, new_id,
  utc_now, ◌>>=◌, add_asset, add_flex_offer, add_reservation, add_dispatch, add_meter_reading,
  add_settlement, add_audit_event, add_idempotency_record, add_outbox_message,
}
use energy_flex_trust_platfo.Schemas.{
  validate_asset, validate_offer, validate_reservation, validate_dispatch, validate_meter_reading,
}
use energy_flex_trust_platfo.Ports.{noop_publisher}
use energy_flex_trust_platfo.Audit.Defs.{
  ascending, append_event, calculate_event_hash, sha256_json, canonical_json, audit_hash_material,
  json_fields, json_value, verify_chain, verify_from,
}
use energy_flex_trust_platfo.Audit.Tamper.{hashed_text, Collision}
use energy_flex_trust_platfo.Service.Common.{
  find_record, idempotent_resource, recorded_resource, store_idempotency,
}
use energy_flex_trust_platfo.Service.Registration.{register, register_asset, offer, create_offer}
use energy_flex_trust_platfo.Service.Reserve.{reserve_hash, reserve, reserve_offer}
use energy_flex_trust_platfo.Service.Issue.{issue_hash, issue, issue_dispatch}
use energy_flex_trust_platfo.Service.Metering.{
  find_reading, reading_fingerprint, store_reading, record_meter_reading,
}
use energy_flex_trust_platfo.Service.Settle.{
  dispatch_of, counts_for, settled_readings, settle_hash, evidence_manifest, complete, settle,
  settle_reservation, settlement_evidence, audit_verification,
}
use energy_flex_trust_platfo.Outbox.Payload.{dispatch_payload, dispatch_signal, restore_signal}
use energy_flex_trust_platfo.Outbox.Queue.{enqueue_dispatch}
use energy_flex_trust_platfo.Outbox.Worker.{
  is_claimable, claim_order, next_claimable, claim, claim_one, finalize, record_success,
  attempt_publish, record_attempt, round, run_rounds, run_once,
}
use energy_flex_trust_platfo.Decimal.{
  drop_digits, fit_context, add, multiply, rescale, quantize, sum_from, delivered_energy,
  settlement_amount,
}
use energy_flex_trust_platfo.Drill.{
  Fixture, seed_dispatch, seed_settlement, seed_fixture, verify_fixture,
}
use energy_flex_trust_platfo.Drill.Restore.{Restored, drill_fixes_history}
use energy_flex_trust_platfo.System.{fresh_state}
use energy_flex_trust_platfo.Tests.Audit.{link_platform}

-- A rendering of an event that is its previous hash, and a digest that is a letter longer.
abbrev chain_platform : Platform
chain_platform = record link_platform {
  sha256 = λ s. String.◌++◌ "x" s;
  isoformat = λ t. "t";
  dump_datetime = λ t. "t";
}

-- An event's text gives its previous hash back.
names_previous :
    (e f : AuditEvent)
    → hashed_text ⦃p = chain_platform⦄ e ≡ hashed_text ⦃p = chain_platform⦄ f
    → e.previous_hash ≡ f.previous_hash
unfolding canonical_json json_fields json_value audit_hash_material
names_previous e f h = h

abbrev fixture : Fixture
fixture = record {
  version = "energy-flex-recovery-fixture.v1";
  asset_id = "i";
  reservation_id = "iiiiiii";
  dispatch_id = "iiiiiiiiii";
  settlement_id = "iiiiiiiiiiiiiiiiii";
  settlement_amount = "5";
  evidence_hash = "x";
  audit_event_count = 7;
  audit_head_hash = "xxxxxxx0000000000000000000000000000000000000000000000000000000000000000";
  published_outbox_count = 1;
}

-- The world after the seed.
abbrev seeded_world : World
seeded_world = record {
  db = record {
    assets =
        mathlib.Core.List.◌∷◌
          record {
            id = "i";
            external_id = "RECOVERY-BATTERY-001";
            owner_id = "recovery-owner";
            asset_type = battery;
            capacity_kw = record { coefficient = 100; scale = 0 };
            location_code = "GB-LON";
            status = active;
            created_at = record { instant = 0; zone = utc };
          }
          mathlib.Core.List.[];
    flex_offers =
        mathlib.Core.List.◌∷◌
          record {
            id = "iiii";
            asset_id = "i";
            window_start = record { instant = 1786968000000000; zone = utc };
            window_end = record { instant = 1786971600000000; zone = utc };
            direction = decrease;
            quantity_kw = record { coefficient = 80; scale = 0 };
            price_per_kwh = record { coefficient = 50; scale = 2 };
            status = OfferStatus.reserved;
            created_by = "recovery-owner";
            created_at = record { instant = 2; zone = utc };
          }
          mathlib.Core.List.[];
    reservations =
        mathlib.Core.List.◌∷◌
          record {
            id = "iiiiiii";
            offer_id = "iiii";
            quantity_kw = record { coefficient = 50; scale = 0 };
            status = ReservationStatus.completed;
            requested_by = "recovery-operator";
            created_at = record { instant = 4; zone = utc };
          }
          mathlib.Core.List.[];
    dispatches =
        mathlib.Core.List.◌∷◌
          record {
            id = "iiiiiiiiii";
            reservation_id = "iiiiiii";
            target_kw = record { coefficient = 40; scale = 0 };
            starts_at = record { instant = 1786968000000000; zone = utc };
            ends_at = record { instant = 1786971600000000; zone = utc };
            status = DispatchStatus.completed;
            issued_by = "recovery-operator";
            adapter_reference = some "noop:iiiiiiiiii";
            created_at = record { instant = 7; zone = utc };
          }
          mathlib.Core.List.[];
    meter_readings =
        mathlib.Core.List.◌∷◌
          record {
            id = "iiiiiiiiiiiiiiii";
            asset_id = "i";
            interval_start = record { instant = 1786968000000000; zone = utc };
            interval_end = record { instant = 1786971600000000; zone = utc };
            energy_kwh = record { coefficient = 245; scale = 1 };
            source = "recovery-synthetic-meter";
            fingerprint = "x";
            recorded_by = "recovery-owner";
            received_at = record { instant = 17; zone = utc };
          }
          mathlib.Core.List.[];
    settlements =
        mathlib.Core.List.◌∷◌
          record {
            id = "iiiiiiiiiiiiiiiiii";
            reservation_id = "iiiiiii";
            delivered_kwh = record { coefficient = 24500000; scale = 6 };
            price_per_kwh = record { coefficient = 50; scale = 2 };
            amount = record { coefficient = 12250000; scale = 6 };
            evidence_manifest = obj (
                field "schema_version" (str "1.0") (
                  field "settlement_id" (str "iiiiiiiiiiiiiiiiii") (
                    field "reservation_id" (str "iiiiiii") (
                      field "offer_id" (str "iiii") (
                        field "asset_id" (str "i") (
                          field "dispatch_id" (str "iiiiiiiiii") (
                            field "meter_reading_ids" (arr (cons (str "iiiiiiiiiiiiiiii") nil)) (
                              field "delivered_kwh" (str "5") (
                                field "price_per_kwh" (str "5") (
                                  field "amount" (str "5") (
                                    field "audit_event_id" (str "iiiiiiiiiiiiiiiiiii") (
                                      field "audit_head_hash"
                                        (str
                                          "xxxxxxx0000000000000000000000000000000000000000000000000000000000000000")
                                        end))))))))))));
            evidence_hash = "x";
            settled_by = "recovery-analyst";
            created_at = record { instant = 19; zone = utc };
          }
          mathlib.Core.List.[];
    audit_events =
        mathlib.Core.List.◌∷◌
          record {
            sequence = 1;
            event_id = "iii";
            aggregate_type = "asset";
            aggregate_id = "i";
            event_type = "asset.registered";
            actor_id = "recovery-owner";
            correlation_id = "ii";
            payload = str "";
            previous_hash = "0000000000000000000000000000000000000000000000000000000000000000";
            event_hash = "x0000000000000000000000000000000000000000000000000000000000000000";
            occurred_at = record { instant = 1; zone = utc };
          }
          (mathlib.Core.List.◌∷◌
            record {
              sequence = 2;
              event_id = "iiiiii";
              aggregate_type = "offer";
              aggregate_id = "iiii";
              event_type = "offer.created";
              actor_id = "recovery-owner";
              correlation_id = "iiiii";
              payload = str "";
              previous_hash = "x0000000000000000000000000000000000000000000000000000000000000000";
              event_hash = "xx0000000000000000000000000000000000000000000000000000000000000000";
              occurred_at = record { instant = 3; zone = utc };
            }
            (mathlib.Core.List.◌∷◌
              record {
                sequence = 3;
                event_id = "iiiiiiii";
                aggregate_type = "reservation";
                aggregate_id = "iiiiiii";
                event_type = "offer.reserved";
                actor_id = "recovery-operator";
                correlation_id = "recovery-reservation-001";
                payload = str "";
                previous_hash =
                    "xx0000000000000000000000000000000000000000000000000000000000000000";
                event_hash = "xxx0000000000000000000000000000000000000000000000000000000000000000";
                occurred_at = record { instant = 5; zone = utc };
              }
              (mathlib.Core.List.◌∷◌
                record {
                  sequence = 4;
                  event_id = "iiiiiiiiiiii";
                  aggregate_type = "dispatch";
                  aggregate_id = "iiiiiiiiii";
                  event_type = "dispatch.queued";
                  actor_id = "recovery-operator";
                  correlation_id = "recovery-dispatch-001";
                  payload = str "";
                  previous_hash =
                      "xxx0000000000000000000000000000000000000000000000000000000000000000";
                  event_hash =
                      "xxxx0000000000000000000000000000000000000000000000000000000000000000";
                  occurred_at = record { instant = 11; zone = utc };
                }
                (mathlib.Core.List.◌∷◌
                  record {
                    sequence = 5;
                    event_id = "iiiiiiiiiiiiiii";
                    aggregate_type = "dispatch";
                    aggregate_id = "iiiiiiiiii";
                    event_type = "dispatch.published";
                    actor_id = "system:recovery-drill-worker";
                    correlation_id = "recovery-dispatch-001";
                    payload = str "";
                    previous_hash =
                        "xxxx0000000000000000000000000000000000000000000000000000000000000000";
                    event_hash =
                        "xxxxx0000000000000000000000000000000000000000000000000000000000000000";
                    occurred_at = record { instant = 15; zone = utc };
                  }
                  (mathlib.Core.List.◌∷◌
                    record {
                      sequence = 6;
                      event_id = "iiiiiiiiiiiiiiiii";
                      aggregate_type = "meter_reading";
                      aggregate_id = "iiiiiiiiiiiiiiii";
                      event_type = "meter_reading.recorded";
                      actor_id = "recovery-owner";
                      correlation_id = "x";
                      payload = str "";
                      previous_hash =
                          "xxxxx0000000000000000000000000000000000000000000000000000000000000000";
                      event_hash =
                          "xxxxxx0000000000000000000000000000000000000000000000000000000000000000";
                      occurred_at = record { instant = 18; zone = utc };
                    }
                    (mathlib.Core.List.◌∷◌
                      record {
                        sequence = 7;
                        event_id = "iiiiiiiiiiiiiiiiiii";
                        aggregate_type = "settlement";
                        aggregate_id = "iiiiiiiiiiiiiiiiii";
                        event_type = "settlement.calculated";
                        actor_id = "recovery-analyst";
                        correlation_id = "recovery-settlement-001";
                        payload = str "";
                        previous_hash =
                            "xxxxxx0000000000000000000000000000000000000000000000000000000000000000";
                        event_hash =
                            "xxxxxxx0000000000000000000000000000000000000000000000000000000000000000";
                        occurred_at = record { instant = 20; zone = utc };
                      }
                      mathlib.Core.List.[]))))));
    idempotency_records =
        mathlib.Core.List.◌∷◌
          record {
            id = "iiiiiiiii";
            operation = "reserve_offer";
            key = "recovery-reservation-001";
            request_hash = "x";
            resource_type = "reservation";
            resource_id = "iiiiiii";
            response_snapshot = "";
            created_at = record { instant = 6; zone = utc };
          }
          (mathlib.Core.List.◌∷◌
            record {
              id = "iiiiiiiiiiiii";
              operation = "issue_dispatch";
              key = "recovery-dispatch-001";
              request_hash = "x";
              resource_type = "dispatch";
              resource_id = "iiiiiiiiii";
              response_snapshot = "";
              created_at = record { instant = 12; zone = utc };
            }
            (mathlib.Core.List.◌∷◌
              record {
                id = "iiiiiiiiiiiiiiiiiiii";
                operation = "settle_reservation";
                key = "recovery-settlement-001";
                request_hash = "x";
                resource_type = "settlement";
                resource_id = "iiiiiiiiiiiiiiiiii";
                response_snapshot = "";
                created_at = record { instant = 21; zone = utc };
              }
              mathlib.Core.List.[]));
    outbox_messages =
        mathlib.Core.List.◌∷◌
          record {
            id = "iiiiiiiiiii";
            topic = "dispatch.publish";
            aggregate_id = "iiiiiiiiii";
            idempotency_key = "recovery-dispatch-001";
            payload =
                mathlib.Core.List.◌∷◌ ("schema_version", str "energy-flex-dispatch.v1")
                  (mathlib.Core.List.◌∷◌ ("dispatch_id", str "iiiiiiiiii")
                    (mathlib.Core.List.◌∷◌ ("asset_external_id", str "RECOVERY-BATTERY-001")
                      (mathlib.Core.List.◌∷◌ ("target_kw", str "5")
                        (mathlib.Core.List.◌∷◌ ("starts_at", str "t")
                          (mathlib.Core.List.◌∷◌ ("ends_at", str "t") mathlib.Core.List.[])))));
            status = published;
            attempts = 1;
            available_at = record { instant = 8; zone = utc };
            lease_expires_at = none;
            locked_by = none;
            adapter_reference = some "noop:iiiiiiiiii";
            last_error = none;
            published_at = some record { instant = 14; zone = utc };
            created_at = record { instant = 9; zone = utc };
            updated_at = record { instant = 14; zone = utc };
          }
          mathlib.Core.List.[];
  };
  drawn = 20;
  ticks = 22;
}

drill_fixes_history_example :
    Restored ⦃p = chain_platform⦄ fixture seeded_world.db
    × (fixture.published_outbox_count ≡ 1)
    × ((map (hashed_text ⦃p = chain_platform⦄) (ascending seeded_world.db.audit_events)
          ≡ map (hashed_text ⦃p = chain_platform⦄) (ascending seeded_world.db.audit_events))
        ⊎ Collision ⦃p = chain_platform⦄)
unfolding is_blank require_role asset_type_value direction_value get update pure lift query or_raise
    begin unless_found raise_if write if_found new_id utc_now ◌>>=◌ add_asset add_flex_offer
    add_reservation add_dispatch add_meter_reading add_settlement add_audit_event
    add_idempotency_record add_outbox_message validate_asset validate_offer validate_reservation
    validate_dispatch validate_meter_reading noop_publisher append_event calculate_event_hash
    sha256_json canonical_json audit_hash_material json_fields json_value verify_chain verify_from
    find_record idempotent_resource recorded_resource store_idempotency register register_asset
    offer create_offer reserve_hash reserve reserve_offer issue_hash issue issue_dispatch
    find_reading reading_fingerprint store_reading record_meter_reading dispatch_of counts_for
    settled_readings settle_hash evidence_manifest complete settle settle_reservation
    settlement_evidence audit_verification dispatch_payload dispatch_signal restore_signal
    enqueue_dispatch is_claimable claim_order next_claimable claim claim_one finalize record_success
    attempt_publish record_attempt round run_rounds run_once drop_digits fit_context add multiply
    rescale quantize sum_from delivered_energy settlement_amount seed_dispatch seed_settlement
    seed_fixture verify_fixture
drill_fixes_history_example =
    drill_fixes_history ⦃p = chain_platform⦄ names_previous fresh_state.world seeded_world
      seeded_world seeded_world fixture refl refl
