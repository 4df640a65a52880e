-- ===== src/Tests/Ending.antt =====
-- The run of `Tests.Sample` to its end: the message is claimed and acknowledged, the energy metered
-- and the reservation settled. Each state is written out, so that the next call starts from it.
use energy_flex_trust_platfo.Prelude.{◌≡◌, refl, inl, none, some, [], ◌∷◌}
use energy_flex_trust_platfo.Domain.{
  require_role, asset_type_value, direction_value, active, battery, increase, OfferStatus,
  ReservationStatus, DispatchStatus, Result, ok, err, queued, issued, dispatched, dispatch_pending,
}
use energy_flex_trust_platfo.Datetime.{utc}
use energy_flex_trust_platfo.Json.{null, str}
use energy_flex_trust_platfo.Models.{
  pending, processing, published, Dispatch, OutboxMessage, Reservation, Settlement, dispatch_row,
  outbox_message_row, reservation_row, settlement_row,
}
use energy_flex_trust_platfo.System.{
  State, Reach, next, moved, fresh_state, take, acknowledge, reading_call, settle_call,
}
use energy_flex_trust_platfo.System.Safety.{settlement_was_acknowledged}
use energy_flex_trust_platfo.Outbox.Worker.{
  is_claimable, claim_order, next_claimable, claim, claim_one, finalize, record_success,
  ClaimedMessage,
}
use energy_flex_trust_platfo.Tests.Sample.{
  sample_platform, tag, at, kw, owner, analyst, settings, reading_command, issued_path,
}
use energy_flex_trust_platfo.Prelude.Tests.{is_blank}
use energy_flex_trust_platfo.Models.Table.{get, update}
use energy_flex_trust_platfo.Audit.Defs.{
  append_event, calculate_event_hash, sha256_json, canonical_json, audit_hash_material, json_fields,
}
use energy_flex_trust_platfo.Session.{
  new_id, utc_now, ◌>>=◌, add_asset, add_flex_offer, add_audit_event, add_reservation,
  add_idempotency_record, add_dispatch, add_outbox_message, add_meter_reading, add_settlement,
}
use energy_flex_trust_platfo.Service.Registration.{register, register_asset, offer, create_offer}
use energy_flex_trust_platfo.Service.Common.{
  find_record, idempotent_resource, recorded_resource, store_idempotency,
}
use energy_flex_trust_platfo.Service.Reserve.{reserve_hash, reserve, reserve_offer}
use energy_flex_trust_platfo.Outbox.Queue.{enqueue_dispatch}
use energy_flex_trust_platfo.Outbox.Payload.{dispatch_payload}
use energy_flex_trust_platfo.Service.Issue.{issue_hash, issue, issue_dispatch}
use energy_flex_trust_platfo.Service.Metering.{
  find_reading, reading_fingerprint, store_reading, record_meter_reading,
}
use energy_flex_trust_platfo.Service.Settle.{
  dispatch_of, counts_for, settled_readings, settle_hash, evidence_manifest, complete, settle,
  settle_reservation,
}
use energy_flex_trust_platfo.Decimal.{
  drop_digits, fit_context, add, multiply, rescale, quantize, sum_from, delivered_energy,
  settlement_amount,
}

abbrev queued_state : State
queued_state = record {
  world = record {
    db = record {
      assets =
          record {
            id = "i";
            external_id = "battery-1";
            owner_id = "owner";
            asset_type = battery;
            capacity_kw = record { coefficient = 5; scale = 0 };
            location_code = "TR";
            status = active;
            created_at = record { instant = 0; zone = utc };
          }
          ∷ [];
      flex_offers =
          record {
            id = "iiii";
            asset_id = "i";
            window_start = record { instant = 1; zone = utc };
            window_end = record { instant = 9; zone = utc };
            direction = increase;
            quantity_kw = record { coefficient = 5; scale = 0 };
            price_per_kwh = record { coefficient = 5; scale = 0 };
            status = OfferStatus.reserved;
            created_by = "owner";
            created_at = record { instant = 2; zone = utc };
          }
          ∷ [];
      reservations =
          record {
            id = "iiiiiii";
            offer_id = "iiii";
            quantity_kw = record { coefficient = 5; scale = 0 };
            status = dispatch_pending;
            requested_by = "operator";
            created_at = record { instant = 4; zone = utc };
          }
          ∷ [];
      dispatches =
          record {
            id = "iiiiiiiiii";
            reservation_id = "iiiiiii";
            target_kw = record { coefficient = 5; scale = 0 };
            starts_at = record { instant = 1; zone = utc };
            ends_at = record { instant = 5; zone = utc };
            status = queued;
            issued_by = "operator";
            adapter_reference = some "outbox:iiiiiiiiiii";
            created_at = record { instant = 7; zone = utc };
          }
          ∷ [];
      meter_readings = [];
      settlements = [];
      audit_events =
          record {
            sequence = 1;
            event_id = "iii";
            aggregate_type = "asset";
            aggregate_id = "i";
            event_type = "asset.registered";
            actor_id = "owner";
            correlation_id = "ii";
            payload = str "battery-1,battery,5,TR,;";
            previous_hash = "0000000000000000000000000000000000000000000000000000000000000000";
            event_hash =
                "iii,asset,i,asset.registered,owner,ii,battery-1,battery,5,TR,;,ii,0000000000000000000000000000000000000000000000000000000000000000,;";
            occurred_at = record { instant = 1; zone = utc };
          }
          ∷ record {
            sequence = 2;
            event_id = "iiiiii";
            aggregate_type = "offer";
            aggregate_id = "iiii";
            event_type = "offer.created";
            actor_id = "owner";
            correlation_id = "iiiii";
            payload = str "i,increase,5,5,ii,iiiiiiiiii,;";
            previous_hash =
                "iii,asset,i,asset.registered,owner,ii,battery-1,battery,5,TR,;,ii,0000000000000000000000000000000000000000000000000000000000000000,;";
            event_hash =
                "iiiiii,offer,iiii,offer.created,owner,iiiii,i,increase,5,5,ii,iiiiiiiiii,;,iiii,iii,asset,i,asset.registered,owner,ii,battery-1,battery,5,TR,;,ii,0000000000000000000000000000000000000000000000000000000000000000,;,;";
            occurred_at = record { instant = 3; zone = utc };
          }
          ∷ record {
            sequence = 3;
            event_id = "iiiiiiii";
            aggregate_type = "reservation";
            aggregate_id = "iiiiiii";
            event_type = "offer.reserved";
            actor_id = "operator";
            correlation_id = "k1";
            payload = str "iiii,5,;";
            previous_hash =
                "iiiiii,offer,iiii,offer.created,owner,iiiii,i,increase,5,5,ii,iiiiiiiiii,;,iiii,iii,asset,i,asset.registered,owner,ii,battery-1,battery,5,TR,;,ii,0000000000000000000000000000000000000000000000000000000000000000,;,;";
            event_hash =
                "iiiiiiii,reservation,iiiiiii,offer.reserved,operator,k1,iiii,5,;,iiiiii,iiiiii,offer,iiii,offer.created,owner,iiiii,i,increase,5,5,ii,iiiiiiiiii,;,iiii,iii,asset,i,asset.registered,owner,ii,battery-1,battery,5,TR,;,ii,0000000000000000000000000000000000000000000000000000000000000000,;,;,;";
            occurred_at = record { instant = 5; zone = utc };
          }
          ∷ record {
            sequence = 4;
            event_id = "iiiiiiiiiiii";
            aggregate_type = "dispatch";
            aggregate_id = "iiiiiiiiii";
            event_type = "dispatch.queued";
            actor_id = "operator";
            correlation_id = "k2";
            payload = str "iiiiiii,5,ii,iiiiii,iiiiiiiiiii,queued,;";
            previous_hash =
                "iiiiiiii,reservation,iiiiiii,offer.reserved,operator,k1,iiii,5,;,iiiiii,iiiiii,offer,iiii,offer.created,owner,iiiii,i,increase,5,5,ii,iiiiiiiiii,;,iiii,iii,asset,i,asset.registered,owner,ii,battery-1,battery,5,TR,;,ii,0000000000000000000000000000000000000000000000000000000000000000,;,;,;";
            event_hash =
                "iiiiiiiiiiii,dispatch,iiiiiiiiii,dispatch.queued,operator,k2,iiiiiii,5,ii,iiiiii,iiiiiiiiiii,queued,;,iiiiiiiiiiii,iiiiiiii,reservation,iiiiiii,offer.reserved,operator,k1,iiii,5,;,iiiiii,iiiiii,offer,iiii,offer.created,owner,iiiii,i,increase,5,5,ii,iiiiiiiiii,;,iiii,iii,asset,i,asset.registered,owner,ii,battery-1,battery,5,TR,;,ii,0000000000000000000000000000000000000000000000000000000000000000,;,;,;,;";
            occurred_at = record { instant = 11; zone = utc };
          }
          ∷ [];
      idempotency_records =
          record {
            id = "iiiiiiiii";
            operation = "reserve_offer";
            key = "k1";
            request_hash = "iiii,5,operator,;";
            resource_type = "reservation";
            resource_id = "iiiiiii";
            response_snapshot = "iiiiiii,;";
            created_at = record { instant = 6; zone = utc };
          }
          ∷ record {
            id = "iiiiiiiiiiiii";
            operation = "issue_dispatch";
            key = "k2";
            request_hash = "iiiiiii,5,ii,iiiiii,operator,;";
            resource_type = "dispatch";
            resource_id = "iiiiiiiiii";
            response_snapshot = "iiiiiiiiii,;";
            created_at = record { instant = 12; zone = utc };
          }
          ∷ [];
      outbox_messages =
          record {
            id = "iiiiiiiiiii";
            topic = "dispatch.publish";
            aggregate_id = "iiiiiiiiii";
            idempotency_key = "k2";
            payload =
                ("schema_version", str "energy-flex-dispatch.v1")
                ∷ ("dispatch_id", str "iiiiiiiiii")
                ∷ ("asset_external_id", str "battery-1")
                ∷ ("target_kw", str "5")
                ∷ ("starts_at", str "ii")
                ∷ ("ends_at", str "iiiiii")
                ∷ [];
            status = pending;
            attempts = 0;
            available_at = record { instant = 8; zone = utc };
            lease_expires_at = none;
            locked_by = none;
            adapter_reference = none;
            last_error = none;
            published_at = none;
            created_at = record { instant = 9; zone = utc };
            updated_at = record { instant = 10; zone = utc };
          }
          ∷ [];
    };
    drawn = 13;
    ticks = 13;
  };
  claims = [];
}

queued_state_path : Reach fresh_state queued_state
unfolding is_blank require_role asset_type_value direction_value get update append_event
    calculate_event_hash sha256_json canonical_json audit_hash_material json_fields new_id utc_now
    ◌>>=◌ add_asset add_flex_offer add_audit_event register register_asset offer create_offer
    add_reservation add_idempotency_record find_record idempotent_resource recorded_resource
    store_idempotency reserve_hash reserve reserve_offer add_dispatch add_outbox_message
    enqueue_dispatch dispatch_payload issue_hash issue issue_dispatch
queued_state_path = issued_path

abbrev taken_state : State
taken_state = record {
  world = record {
    db = record {
      assets =
          record {
            id = "i";
            external_id = "battery-1";
            owner_id = "owner";
            asset_type = battery;
            capacity_kw = record { coefficient = 5; scale = 0 };
            location_code = "TR";
            status = active;
            created_at = record { instant = 0; zone = utc };
          }
          ∷ [];
      flex_offers =
          record {
            id = "iiii";
            asset_id = "i";
            window_start = record { instant = 1; zone = utc };
            window_end = record { instant = 9; zone = utc };
            direction = increase;
            quantity_kw = record { coefficient = 5; scale = 0 };
            price_per_kwh = record { coefficient = 5; scale = 0 };
            status = OfferStatus.reserved;
            created_by = "owner";
            created_at = record { instant = 2; zone = utc };
          }
          ∷ [];
      reservations =
          record {
            id = "iiiiiii";
            offer_id = "iiii";
            quantity_kw = record { coefficient = 5; scale = 0 };
            status = dispatch_pending;
            requested_by = "operator";
            created_at = record { instant = 4; zone = utc };
          }
          ∷ [];
      dispatches =
          record {
            id = "iiiiiiiiii";
            reservation_id = "iiiiiii";
            target_kw = record { coefficient = 5; scale = 0 };
            starts_at = record { instant = 1; zone = utc };
            ends_at = record { instant = 5; zone = utc };
            status = queued;
            issued_by = "operator";
            adapter_reference = some "outbox:iiiiiiiiiii";
            created_at = record { instant = 7; zone = utc };
          }
          ∷ [];
      meter_readings = [];
      settlements = [];
      audit_events =
          record {
            sequence = 1;
            event_id = "iii";
            aggregate_type = "asset";
            aggregate_id = "i";
            event_type = "asset.registered";
            actor_id = "owner";
            correlation_id = "ii";
            payload = str "battery-1,battery,5,TR,;";
            previous_hash = "0000000000000000000000000000000000000000000000000000000000000000";
            event_hash =
                "iii,asset,i,asset.registered,owner,ii,battery-1,battery,5,TR,;,ii,0000000000000000000000000000000000000000000000000000000000000000,;";
            occurred_at = record { instant = 1; zone = utc };
          }
          ∷ record {
            sequence = 2;
            event_id = "iiiiii";
            aggregate_type = "offer";
            aggregate_id = "iiii";
            event_type = "offer.created";
            actor_id = "owner";
            correlation_id = "iiiii";
            payload = str "i,increase,5,5,ii,iiiiiiiiii,;";
            previous_hash =
                "iii,asset,i,asset.registered,owner,ii,battery-1,battery,5,TR,;,ii,0000000000000000000000000000000000000000000000000000000000000000,;";
            event_hash =
                "iiiiii,offer,iiii,offer.created,owner,iiiii,i,increase,5,5,ii,iiiiiiiiii,;,iiii,iii,asset,i,asset.registered,owner,ii,battery-1,battery,5,TR,;,ii,0000000000000000000000000000000000000000000000000000000000000000,;,;";
            occurred_at = record { instant = 3; zone = utc };
          }
          ∷ record {
            sequence = 3;
            event_id = "iiiiiiii";
            aggregate_type = "reservation";
            aggregate_id = "iiiiiii";
            event_type = "offer.reserved";
            actor_id = "operator";
            correlation_id = "k1";
            payload = str "iiii,5,;";
            previous_hash =
                "iiiiii,offer,iiii,offer.created,owner,iiiii,i,increase,5,5,ii,iiiiiiiiii,;,iiii,iii,asset,i,asset.registered,owner,ii,battery-1,battery,5,TR,;,ii,0000000000000000000000000000000000000000000000000000000000000000,;,;";
            event_hash =
                "iiiiiiii,reservation,iiiiiii,offer.reserved,operator,k1,iiii,5,;,iiiiii,iiiiii,offer,iiii,offer.created,owner,iiiii,i,increase,5,5,ii,iiiiiiiiii,;,iiii,iii,asset,i,asset.registered,owner,ii,battery-1,battery,5,TR,;,ii,0000000000000000000000000000000000000000000000000000000000000000,;,;,;";
            occurred_at = record { instant = 5; zone = utc };
          }
          ∷ record {
            sequence = 4;
            event_id = "iiiiiiiiiiii";
            aggregate_type = "dispatch";
            aggregate_id = "iiiiiiiiii";
            event_type = "dispatch.queued";
            actor_id = "operator";
            correlation_id = "k2";
            payload = str "iiiiiii,5,ii,iiiiii,iiiiiiiiiii,queued,;";
            previous_hash =
                "iiiiiiii,reservation,iiiiiii,offer.reserved,operator,k1,iiii,5,;,iiiiii,iiiiii,offer,iiii,offer.created,owner,iiiii,i,increase,5,5,ii,iiiiiiiiii,;,iiii,iii,asset,i,asset.registered,owner,ii,battery-1,battery,5,TR,;,ii,0000000000000000000000000000000000000000000000000000000000000000,;,;,;";
            event_hash =
                "iiiiiiiiiiii,dispatch,iiiiiiiiii,dispatch.queued,operator,k2,iiiiiii,5,ii,iiiiii,iiiiiiiiiii,queued,;,iiiiiiiiiiii,iiiiiiii,reservation,iiiiiii,offer.reserved,operator,k1,iiii,5,;,iiiiii,iiiiii,offer,iiii,offer.created,owner,iiiii,i,increase,5,5,ii,iiiiiiiiii,;,iiii,iii,asset,i,asset.registered,owner,ii,battery-1,battery,5,TR,;,ii,0000000000000000000000000000000000000000000000000000000000000000,;,;,;,;";
            occurred_at = record { instant = 11; zone = utc };
          }
          ∷ [];
      idempotency_records =
          record {
            id = "iiiiiiiii";
            operation = "reserve_offer";
            key = "k1";
            request_hash = "iiii,5,operator,;";
            resource_type = "reservation";
            resource_id = "iiiiiii";
            response_snapshot = "iiiiiii,;";
            created_at = record { instant = 6; zone = utc };
          }
          ∷ record {
            id = "iiiiiiiiiiiii";
            operation = "issue_dispatch";
            key = "k2";
            request_hash = "iiiiiii,5,ii,iiiiii,operator,;";
            resource_type = "dispatch";
            resource_id = "iiiiiiiiii";
            response_snapshot = "iiiiiiiiii,;";
            created_at = record { instant = 12; zone = utc };
          }
          ∷ [];
      outbox_messages =
          record {
            id = "iiiiiiiiiii";
            topic = "dispatch.publish";
            aggregate_id = "iiiiiiiiii";
            idempotency_key = "k2";
            payload =
                ("schema_version", str "energy-flex-dispatch.v1")
                ∷ ("dispatch_id", str "iiiiiiiiii")
                ∷ ("asset_external_id", str "battery-1")
                ∷ ("target_kw", str "5")
                ∷ ("starts_at", str "ii")
                ∷ ("ends_at", str "iiiiii")
                ∷ [];
            status = processing;
            attempts = 1;
            available_at = record { instant = 8; zone = utc };
            lease_expires_at = some record { instant = 30000013; zone = utc };
            locked_by = some "w:iiiiiiiiiiiiii";
            adapter_reference = none;
            last_error = none;
            published_at = none;
            created_at = record { instant = 9; zone = utc };
            updated_at = record { instant = 13; zone = utc };
          }
          ∷ [];
    };
    drawn = 14;
    ticks = 14;
  };
  claims =
      record {
        id = "iiiiiiiiiii";
        aggregate_id = "iiiiiiiiii";
        idempotency_key = "k2";
        payload =
            ("schema_version", str "energy-flex-dispatch.v1")
            ∷ ("dispatch_id", str "iiiiiiiiii")
            ∷ ("asset_external_id", str "battery-1")
            ∷ ("target_kw", str "5")
            ∷ ("starts_at", str "ii")
            ∷ ("ends_at", str "iiiiii")
            ∷ [];
        attempts = 1;
        claim_token = "w:iiiiiiiiiiiiii";
      }
      ∷ [];
}

taken_state_path : Reach fresh_state taken_state
unfolding is_blank require_role asset_type_value direction_value get update append_event
    calculate_event_hash sha256_json canonical_json audit_hash_material json_fields new_id utc_now
    ◌>>=◌ add_asset add_flex_offer add_audit_event register register_asset offer create_offer
    add_reservation add_idempotency_record find_record idempotent_resource recorded_resource
    store_idempotency reserve_hash reserve reserve_offer add_dispatch add_outbox_message
    enqueue_dispatch dispatch_payload issue_hash issue issue_dispatch is_claimable claim_order
    next_claimable claim claim_one
taken_state_path = next queued_state_path (take settings)

abbrev claimed : ClaimedMessage
claimed = record {
  id = tag 10;
  aggregate_id = tag 9;
  idempotency_key = "k2";
  payload =
      ("schema_version", str "energy-flex-dispatch.v1")
      ∷ ("dispatch_id", str (tag 9))
      ∷ ("asset_external_id", str "battery-1")
      ∷ ("target_kw", str "5")
      ∷ ("starts_at", str "ii")
      ∷ ("ends_at", str "iiiiii")
      ∷ [];
  attempts = 1;
  claim_token = "w:iiiiiiiiiiiiii";
}

abbrev sent_state : State
sent_state = record {
  world = record {
    db = record {
      assets =
          record {
            id = "i";
            external_id = "battery-1";
            owner_id = "owner";
            asset_type = battery;
            capacity_kw = record { coefficient = 5; scale = 0 };
            location_code = "TR";
            status = active;
            created_at = record { instant = 0; zone = utc };
          }
          ∷ [];
      flex_offers =
          record {
            id = "iiii";
            asset_id = "i";
            window_start = record { instant = 1; zone = utc };
            window_end = record { instant = 9; zone = utc };
            direction = increase;
            quantity_kw = record { coefficient = 5; scale = 0 };
            price_per_kwh = record { coefficient = 5; scale = 0 };
            status = OfferStatus.reserved;
            created_by = "owner";
            created_at = record { instant = 2; zone = utc };
          }
          ∷ [];
      reservations =
          record {
            id = "iiiiiii";
            offer_id = "iiii";
            quantity_kw = record { coefficient = 5; scale = 0 };
            status = dispatched;
            requested_by = "operator";
            created_at = record { instant = 4; zone = utc };
          }
          ∷ [];
      dispatches =
          record {
            id = "iiiiiiiiii";
            reservation_id = "iiiiiii";
            target_kw = record { coefficient = 5; scale = 0 };
            starts_at = record { instant = 1; zone = utc };
            ends_at = record { instant = 5; zone = utc };
            status = issued;
            issued_by = "operator";
            adapter_reference = some "r";
            created_at = record { instant = 7; zone = utc };
          }
          ∷ [];
      meter_readings = [];
      settlements = [];
      audit_events =
          record {
            sequence = 1;
            event_id = "iii";
            aggregate_type = "asset";
            aggregate_id = "i";
            event_type = "asset.registered";
            actor_id = "owner";
            correlation_id = "ii";
            payload = str "battery-1,battery,5,TR,;";
            previous_hash = "0000000000000000000000000000000000000000000000000000000000000000";
            event_hash =
                "iii,asset,i,asset.registered,owner,ii,battery-1,battery,5,TR,;,ii,0000000000000000000000000000000000000000000000000000000000000000,;";
            occurred_at = record { instant = 1; zone = utc };
          }
          ∷ record {
            sequence = 2;
            event_id = "iiiiii";
            aggregate_type = "offer";
            aggregate_id = "iiii";
            event_type = "offer.created";
            actor_id = "owner";
            correlation_id = "iiiii";
            payload = str "i,increase,5,5,ii,iiiiiiiiii,;";
            previous_hash =
                "iii,asset,i,asset.registered,owner,ii,battery-1,battery,5,TR,;,ii,0000000000000000000000000000000000000000000000000000000000000000,;";
            event_hash =
                "iiiiii,offer,iiii,offer.created,owner,iiiii,i,increase,5,5,ii,iiiiiiiiii,;,iiii,iii,asset,i,asset.registered,owner,ii,battery-1,battery,5,TR,;,ii,0000000000000000000000000000000000000000000000000000000000000000,;,;";
            occurred_at = record { instant = 3; zone = utc };
          }
          ∷ record {
            sequence = 3;
            event_id = "iiiiiiii";
            aggregate_type = "reservation";
            aggregate_id = "iiiiiii";
            event_type = "offer.reserved";
            actor_id = "operator";
            correlation_id = "k1";
            payload = str "iiii,5,;";
            previous_hash =
                "iiiiii,offer,iiii,offer.created,owner,iiiii,i,increase,5,5,ii,iiiiiiiiii,;,iiii,iii,asset,i,asset.registered,owner,ii,battery-1,battery,5,TR,;,ii,0000000000000000000000000000000000000000000000000000000000000000,;,;";
            event_hash =
                "iiiiiiii,reservation,iiiiiii,offer.reserved,operator,k1,iiii,5,;,iiiiii,iiiiii,offer,iiii,offer.created,owner,iiiii,i,increase,5,5,ii,iiiiiiiiii,;,iiii,iii,asset,i,asset.registered,owner,ii,battery-1,battery,5,TR,;,ii,0000000000000000000000000000000000000000000000000000000000000000,;,;,;";
            occurred_at = record { instant = 5; zone = utc };
          }
          ∷ record {
            sequence = 4;
            event_id = "iiiiiiiiiiii";
            aggregate_type = "dispatch";
            aggregate_id = "iiiiiiiiii";
            event_type = "dispatch.queued";
            actor_id = "operator";
            correlation_id = "k2";
            payload = str "iiiiiii,5,ii,iiiiii,iiiiiiiiiii,queued,;";
            previous_hash =
                "iiiiiiii,reservation,iiiiiii,offer.reserved,operator,k1,iiii,5,;,iiiiii,iiiiii,offer,iiii,offer.created,owner,iiiii,i,increase,5,5,ii,iiiiiiiiii,;,iiii,iii,asset,i,asset.registered,owner,ii,battery-1,battery,5,TR,;,ii,0000000000000000000000000000000000000000000000000000000000000000,;,;,;";
            event_hash =
                "iiiiiiiiiiii,dispatch,iiiiiiiiii,dispatch.queued,operator,k2,iiiiiii,5,ii,iiiiii,iiiiiiiiiii,queued,;,iiiiiiiiiiii,iiiiiiii,reservation,iiiiiii,offer.reserved,operator,k1,iiii,5,;,iiiiii,iiiiii,offer,iiii,offer.created,owner,iiiii,i,increase,5,5,ii,iiiiiiiiii,;,iiii,iii,asset,i,asset.registered,owner,ii,battery-1,battery,5,TR,;,ii,0000000000000000000000000000000000000000000000000000000000000000,;,;,;,;";
            occurred_at = record { instant = 11; zone = utc };
          }
          ∷ record {
            sequence = 5;
            event_id = "iiiiiiiiiiiiiii";
            aggregate_type = "dispatch";
            aggregate_id = "iiiiiiiiii";
            event_type = "dispatch.published";
            actor_id = "system:w";
            correlation_id = "k2";
            payload = str "iiiiiiiiiii,r,-,;";
            previous_hash =
                "iiiiiiiiiiii,dispatch,iiiiiiiiii,dispatch.queued,operator,k2,iiiiiii,5,ii,iiiiii,iiiiiiiiiii,queued,;,iiiiiiiiiiii,iiiiiiii,reservation,iiiiiii,offer.reserved,operator,k1,iiii,5,;,iiiiii,iiiiii,offer,iiii,offer.created,owner,iiiii,i,increase,5,5,ii,iiiiiiiiii,;,iiii,iii,asset,i,asset.registered,owner,ii,battery-1,battery,5,TR,;,ii,0000000000000000000000000000000000000000000000000000000000000000,;,;,;,;";
            event_hash =
                "iiiiiiiiiiiiiii,dispatch,iiiiiiiiii,dispatch.published,system:w,k2,iiiiiiiiiii,r,-,;,iiiiiiiiiiiiiiii,iiiiiiiiiiii,dispatch,iiiiiiiiii,dispatch.queued,operator,k2,iiiiiii,5,ii,iiiiii,iiiiiiiiiii,queued,;,iiiiiiiiiiii,iiiiiiii,reservation,iiiiiii,offer.reserved,operator,k1,iiii,5,;,iiiiii,iiiiii,offer,iiii,offer.created,owner,iiiii,i,increase,5,5,ii,iiiiiiiiii,;,iiii,iii,asset,i,asset.registered,owner,ii,battery-1,battery,5,TR,;,ii,0000000000000000000000000000000000000000000000000000000000000000,;,;,;,;,;";
            occurred_at = record { instant = 15; zone = utc };
          }
          ∷ [];
      idempotency_records =
          record {
            id = "iiiiiiiii";
            operation = "reserve_offer";
            key = "k1";
            request_hash = "iiii,5,operator,;";
            resource_type = "reservation";
            resource_id = "iiiiiii";
            response_snapshot = "iiiiiii,;";
            created_at = record { instant = 6; zone = utc };
          }
          ∷ record {
            id = "iiiiiiiiiiiii";
            operation = "issue_dispatch";
            key = "k2";
            request_hash = "iiiiiii,5,ii,iiiiii,operator,;";
            resource_type = "dispatch";
            resource_id = "iiiiiiiiii";
            response_snapshot = "iiiiiiiiii,;";
            created_at = record { instant = 12; zone = utc };
          }
          ∷ [];
      outbox_messages =
          record {
            id = "iiiiiiiiiii";
            topic = "dispatch.publish";
            aggregate_id = "iiiiiiiiii";
            idempotency_key = "k2";
            payload =
                ("schema_version", str "energy-flex-dispatch.v1")
                ∷ ("dispatch_id", str "iiiiiiiiii")
                ∷ ("asset_external_id", str "battery-1")
                ∷ ("target_kw", str "5")
                ∷ ("starts_at", str "ii")
                ∷ ("ends_at", str "iiiiii")
                ∷ [];
            status = published;
            attempts = 1;
            available_at = record { instant = 8; zone = utc };
            lease_expires_at = none;
            locked_by = none;
            adapter_reference = some "r";
            last_error = none;
            published_at = some record { instant = 14; zone = utc };
            created_at = record { instant = 9; zone = utc };
            updated_at = record { instant = 14; zone = utc };
          }
          ∷ [];
    };
    drawn = 15;
    ticks = 16;
  };
  claims =
      record {
        id = "iiiiiiiiiii";
        aggregate_id = "iiiiiiiiii";
        idempotency_key = "k2";
        payload =
            ("schema_version", str "energy-flex-dispatch.v1")
            ∷ ("dispatch_id", str "iiiiiiiiii")
            ∷ ("asset_external_id", str "battery-1")
            ∷ ("target_kw", str "5")
            ∷ ("starts_at", str "ii")
            ∷ ("ends_at", str "iiiiii")
            ∷ [];
        attempts = 1;
        claim_token = "w:iiiiiiiiiiiiii";
      }
      ∷ [];
}

sent_state_path : Reach fresh_state sent_state
unfolding is_blank require_role asset_type_value direction_value get update append_event
    calculate_event_hash sha256_json canonical_json audit_hash_material json_fields new_id utc_now
    ◌>>=◌ add_asset add_flex_offer add_audit_event register register_asset offer create_offer
    add_reservation add_idempotency_record find_record idempotent_resource recorded_resource
    store_idempotency reserve_hash reserve reserve_offer add_dispatch add_outbox_message
    enqueue_dispatch dispatch_payload issue_hash issue issue_dispatch is_claimable claim_order
    next_claimable claim claim_one finalize record_success
sent_state_path = next taken_state_path (acknowledge settings claimed "r" (inl refl))

abbrev metered_state : State
metered_state = record {
  world = record {
    db = record {
      assets =
          record {
            id = "i";
            external_id = "battery-1";
            owner_id = "owner";
            asset_type = battery;
            capacity_kw = record { coefficient = 5; scale = 0 };
            location_code = "TR";
            status = active;
            created_at = record { instant = 0; zone = utc };
          }
          ∷ [];
      flex_offers =
          record {
            id = "iiii";
            asset_id = "i";
            window_start = record { instant = 1; zone = utc };
            window_end = record { instant = 9; zone = utc };
            direction = increase;
            quantity_kw = record { coefficient = 5; scale = 0 };
            price_per_kwh = record { coefficient = 5; scale = 0 };
            status = OfferStatus.reserved;
            created_by = "owner";
            created_at = record { instant = 2; zone = utc };
          }
          ∷ [];
      reservations =
          record {
            id = "iiiiiii";
            offer_id = "iiii";
            quantity_kw = record { coefficient = 5; scale = 0 };
            status = dispatched;
            requested_by = "operator";
            created_at = record { instant = 4; zone = utc };
          }
          ∷ [];
      dispatches =
          record {
            id = "iiiiiiiiii";
            reservation_id = "iiiiiii";
            target_kw = record { coefficient = 5; scale = 0 };
            starts_at = record { instant = 1; zone = utc };
            ends_at = record { instant = 5; zone = utc };
            status = issued;
            issued_by = "operator";
            adapter_reference = some "r";
            created_at = record { instant = 7; zone = utc };
          }
          ∷ [];
      meter_readings =
          record {
            id = "iiiiiiiiiiiiiiii";
            asset_id = "i";
            interval_start = record { instant = 1; zone = utc };
            interval_end = record { instant = 2; zone = utc };
            energy_kwh = record { coefficient = 5; scale = 0 };
            source = "meter";
            fingerprint = "i,ii,iii,5,meter,;";
            recorded_by = "owner";
            received_at = record { instant = 16; zone = utc };
          }
          ∷ [];
      settlements = [];
      audit_events =
          record {
            sequence = 1;
            event_id = "iii";
            aggregate_type = "asset";
            aggregate_id = "i";
            event_type = "asset.registered";
            actor_id = "owner";
            correlation_id = "ii";
            payload = str "battery-1,battery,5,TR,;";
            previous_hash = "0000000000000000000000000000000000000000000000000000000000000000";
            event_hash =
                "iii,asset,i,asset.registered,owner,ii,battery-1,battery,5,TR,;,ii,0000000000000000000000000000000000000000000000000000000000000000,;";
            occurred_at = record { instant = 1; zone = utc };
          }
          ∷ record {
            sequence = 2;
            event_id = "iiiiii";
            aggregate_type = "offer";
            aggregate_id = "iiii";
            event_type = "offer.created";
            actor_id = "owner";
            correlation_id = "iiiii";
            payload = str "i,increase,5,5,ii,iiiiiiiiii,;";
            previous_hash =
                "iii,asset,i,asset.registered,owner,ii,battery-1,battery,5,TR,;,ii,0000000000000000000000000000000000000000000000000000000000000000,;";
            event_hash =
                "iiiiii,offer,iiii,offer.created,owner,iiiii,i,increase,5,5,ii,iiiiiiiiii,;,iiii,iii,asset,i,asset.registered,owner,ii,battery-1,battery,5,TR,;,ii,0000000000000000000000000000000000000000000000000000000000000000,;,;";
            occurred_at = record { instant = 3; zone = utc };
          }
          ∷ record {
            sequence = 3;
            event_id = "iiiiiiii";
            aggregate_type = "reservation";
            aggregate_id = "iiiiiii";
            event_type = "offer.reserved";
            actor_id = "operator";
            correlation_id = "k1";
            payload = str "iiii,5,;";
            previous_hash =
                "iiiiii,offer,iiii,offer.created,owner,iiiii,i,increase,5,5,ii,iiiiiiiiii,;,iiii,iii,asset,i,asset.registered,owner,ii,battery-1,battery,5,TR,;,ii,0000000000000000000000000000000000000000000000000000000000000000,;,;";
            event_hash =
                "iiiiiiii,reservation,iiiiiii,offer.reserved,operator,k1,iiii,5,;,iiiiii,iiiiii,offer,iiii,offer.created,owner,iiiii,i,increase,5,5,ii,iiiiiiiiii,;,iiii,iii,asset,i,asset.registered,owner,ii,battery-1,battery,5,TR,;,ii,0000000000000000000000000000000000000000000000000000000000000000,;,;,;";
            occurred_at = record { instant = 5; zone = utc };
          }
          ∷ record {
            sequence = 4;
            event_id = "iiiiiiiiiiii";
            aggregate_type = "dispatch";
            aggregate_id = "iiiiiiiiii";
            event_type = "dispatch.queued";
            actor_id = "operator";
            correlation_id = "k2";
            payload = str "iiiiiii,5,ii,iiiiii,iiiiiiiiiii,queued,;";
            previous_hash =
                "iiiiiiii,reservation,iiiiiii,offer.reserved,operator,k1,iiii,5,;,iiiiii,iiiiii,offer,iiii,offer.created,owner,iiiii,i,increase,5,5,ii,iiiiiiiiii,;,iiii,iii,asset,i,asset.registered,owner,ii,battery-1,battery,5,TR,;,ii,0000000000000000000000000000000000000000000000000000000000000000,;,;,;";
            event_hash =
                "iiiiiiiiiiii,dispatch,iiiiiiiiii,dispatch.queued,operator,k2,iiiiiii,5,ii,iiiiii,iiiiiiiiiii,queued,;,iiiiiiiiiiii,iiiiiiii,reservation,iiiiiii,offer.reserved,operator,k1,iiii,5,;,iiiiii,iiiiii,offer,iiii,offer.created,owner,iiiii,i,increase,5,5,ii,iiiiiiiiii,;,iiii,iii,asset,i,asset.registered,owner,ii,battery-1,battery,5,TR,;,ii,0000000000000000000000000000000000000000000000000000000000000000,;,;,;,;";
            occurred_at = record { instant = 11; zone = utc };
          }
          ∷ record {
            sequence = 5;
            event_id = "iiiiiiiiiiiiiii";
            aggregate_type = "dispatch";
            aggregate_id = "iiiiiiiiii";
            event_type = "dispatch.published";
            actor_id = "system:w";
            correlation_id = "k2";
            payload = str "iiiiiiiiiii,r,-,;";
            previous_hash =
                "iiiiiiiiiiii,dispatch,iiiiiiiiii,dispatch.queued,operator,k2,iiiiiii,5,ii,iiiiii,iiiiiiiiiii,queued,;,iiiiiiiiiiii,iiiiiiii,reservation,iiiiiii,offer.reserved,operator,k1,iiii,5,;,iiiiii,iiiiii,offer,iiii,offer.created,owner,iiiii,i,increase,5,5,ii,iiiiiiiiii,;,iiii,iii,asset,i,asset.registered,owner,ii,battery-1,battery,5,TR,;,ii,0000000000000000000000000000000000000000000000000000000000000000,;,;,;,;";
            event_hash =
                "iiiiiiiiiiiiiii,dispatch,iiiiiiiiii,dispatch.published,system:w,k2,iiiiiiiiiii,r,-,;,iiiiiiiiiiiiiiii,iiiiiiiiiiii,dispatch,iiiiiiiiii,dispatch.queued,operator,k2,iiiiiii,5,ii,iiiiii,iiiiiiiiiii,queued,;,iiiiiiiiiiii,iiiiiiii,reservation,iiiiiii,offer.reserved,operator,k1,iiii,5,;,iiiiii,iiiiii,offer,iiii,offer.created,owner,iiiii,i,increase,5,5,ii,iiiiiiiiii,;,iiii,iii,asset,i,asset.registered,owner,ii,battery-1,battery,5,TR,;,ii,0000000000000000000000000000000000000000000000000000000000000000,;,;,;,;,;";
            occurred_at = record { instant = 15; zone = utc };
          }
          ∷ record {
            sequence = 6;
            event_id = "iiiiiiiiiiiiiiiii";
            aggregate_type = "meter_reading";
            aggregate_id = "iiiiiiiiiiiiiiii";
            event_type = "meter_reading.recorded";
            actor_id = "owner";
            correlation_id = "i,ii,iii,5,meter,;";
            payload = str "i,ii,iii,5,meter,i,ii,iii,5,meter,;,;";
            previous_hash =
                "iiiiiiiiiiiiiii,dispatch,iiiiiiiiii,dispatch.published,system:w,k2,iiiiiiiiiii,r,-,;,iiiiiiiiiiiiiiii,iiiiiiiiiiii,dispatch,iiiiiiiiii,dispatch.queued,operator,k2,iiiiiii,5,ii,iiiiii,iiiiiiiiiii,queued,;,iiiiiiiiiiii,iiiiiiii,reservation,iiiiiii,offer.reserved,operator,k1,iiii,5,;,iiiiii,iiiiii,offer,iiii,offer.created,owner,iiiii,i,increase,5,5,ii,iiiiiiiiii,;,iiii,iii,asset,i,asset.registered,owner,ii,battery-1,battery,5,TR,;,ii,0000000000000000000000000000000000000000000000000000000000000000,;,;,;,;,;";
            event_hash =
                "iiiiiiiiiiiiiiiii,meter_reading,iiiiiiiiiiiiiiii,meter_reading.recorded,owner,i,ii,iii,5,meter,;,i,ii,iii,5,meter,i,ii,iii,5,meter,;,;,iiiiiiiiiiiiiiiiii,iiiiiiiiiiiiiii,dispatch,iiiiiiiiii,dispatch.published,system:w,k2,iiiiiiiiiii,r,-,;,iiiiiiiiiiiiiiii,iiiiiiiiiiii,dispatch,iiiiiiiiii,dispatch.queued,operator,k2,iiiiiii,5,ii,iiiiii,iiiiiiiiiii,queued,;,iiiiiiiiiiii,iiiiiiii,reservation,iiiiiii,offer.reserved,operator,k1,iiii,5,;,iiiiii,iiiiii,offer,iiii,offer.created,owner,iiiii,i,increase,5,5,ii,iiiiiiiiii,;,iiii,iii,asset,i,asset.registered,owner,ii,battery-1,battery,5,TR,;,ii,0000000000000000000000000000000000000000000000000000000000000000,;,;,;,;,;,;";
            occurred_at = record { instant = 17; zone = utc };
          }
          ∷ [];
      idempotency_records =
          record {
            id = "iiiiiiiii";
            operation = "reserve_offer";
            key = "k1";
            request_hash = "iiii,5,operator,;";
            resource_type = "reservation";
            resource_id = "iiiiiii";
            response_snapshot = "iiiiiii,;";
            created_at = record { instant = 6; zone = utc };
          }
          ∷ record {
            id = "iiiiiiiiiiiii";
            operation = "issue_dispatch";
            key = "k2";
            request_hash = "iiiiiii,5,ii,iiiiii,operator,;";
            resource_type = "dispatch";
            resource_id = "iiiiiiiiii";
            response_snapshot = "iiiiiiiiii,;";
            created_at = record { instant = 12; zone = utc };
          }
          ∷ [];
      outbox_messages =
          record {
            id = "iiiiiiiiiii";
            topic = "dispatch.publish";
            aggregate_id = "iiiiiiiiii";
            idempotency_key = "k2";
            payload =
                ("schema_version", str "energy-flex-dispatch.v1")
                ∷ ("dispatch_id", str "iiiiiiiiii")
                ∷ ("asset_external_id", str "battery-1")
                ∷ ("target_kw", str "5")
                ∷ ("starts_at", str "ii")
                ∷ ("ends_at", str "iiiiii")
                ∷ [];
            status = published;
            attempts = 1;
            available_at = record { instant = 8; zone = utc };
            lease_expires_at = none;
            locked_by = none;
            adapter_reference = some "r";
            last_error = none;
            published_at = some record { instant = 14; zone = utc };
            created_at = record { instant = 9; zone = utc };
            updated_at = record { instant = 14; zone = utc };
          }
          ∷ [];
    };
    drawn = 17;
    ticks = 18;
  };
  claims =
      record {
        id = "iiiiiiiiiii";
        aggregate_id = "iiiiiiiiii";
        idempotency_key = "k2";
        payload =
            ("schema_version", str "energy-flex-dispatch.v1")
            ∷ ("dispatch_id", str "iiiiiiiiii")
            ∷ ("asset_external_id", str "battery-1")
            ∷ ("target_kw", str "5")
            ∷ ("starts_at", str "ii")
            ∷ ("ends_at", str "iiiiii")
            ∷ [];
        attempts = 1;
        claim_token = "w:iiiiiiiiiiiiii";
      }
      ∷ [];
}

metered_state_path : Reach fresh_state metered_state
unfolding is_blank require_role asset_type_value direction_value get update append_event
    calculate_event_hash sha256_json canonical_json audit_hash_material json_fields new_id utc_now
    ◌>>=◌ add_asset add_flex_offer add_audit_event register register_asset offer create_offer
    add_reservation add_idempotency_record find_record idempotent_resource recorded_resource
    store_idempotency reserve_hash reserve reserve_offer add_dispatch add_outbox_message
    enqueue_dispatch dispatch_payload issue_hash issue issue_dispatch is_claimable claim_order
    next_claimable claim claim_one finalize record_success find_reading reading_fingerprint
    store_reading record_meter_reading add_meter_reading
metered_state_path = next sent_state_path (reading_call reading_command owner)

abbrev none_yet : Settlement
none_yet = record {
  id = "";
  reservation_id = "";
  delivered_kwh = kw;
  price_per_kwh = kw;
  amount = kw;
  evidence_manifest = null;
  evidence_hash = "";
  settled_by = "";
  created_at = at 0;
}

abbrev value_or : Settlement → Result Settlement → Settlement
value_or s (ok t) = t
value_or s (err e) = s

abbrev settlement : Settlement
settlement = value_or none_yet (settle_reservation (tag 6) analyst "k3" metered_state.world).0

abbrev settled_state : State
settled_state = moved metered_state (settle_reservation (tag 6) analyst "k3" metered_state.world).1

settlement_was_acknowledged_example :
    (d : Dispatch) × (m : OutboxMessage) × (r : Reservation) × (get m.aggregate_id
        settled_state.world.db.dispatches
      ≡ some d)
    × (get m.id settled_state.world.db.outbox_messages ≡ some m)
    × (get settlement.reservation_id settled_state.world.db.reservations ≡ some r)
    × (d.reservation_id ≡ settlement.reservation_id)
    × (d.status ≡ DispatchStatus.completed)
    × (m.status ≡ published)
    × (r.status ≡ ReservationStatus.completed)
unfolding is_blank require_role asset_type_value direction_value get update append_event
    calculate_event_hash sha256_json canonical_json audit_hash_material json_fields new_id utc_now
    ◌>>=◌ add_asset add_flex_offer add_audit_event register register_asset offer create_offer
    add_reservation add_idempotency_record find_record idempotent_resource recorded_resource
    store_idempotency reserve_hash reserve reserve_offer add_dispatch add_outbox_message
    enqueue_dispatch dispatch_payload issue_hash issue issue_dispatch is_claimable claim_order
    next_claimable claim claim_one finalize record_success find_reading reading_fingerprint
    store_reading record_meter_reading add_meter_reading dispatch_of counts_for settled_readings
    settle_hash evidence_manifest complete settle settle_reservation add_settlement drop_digits
    fit_context add multiply rescale quantize sum_from delivered_energy settlement_amount
settlement_was_acknowledged_example =
    settlement_was_acknowledged settled_state
      (next metered_state_path (settle_call (tag 6) analyst "k3")) (tag 17) settlement refl
