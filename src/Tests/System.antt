-- ===== src/Tests/System.antt =====
-- The theorems on reachable states, after an asset was registered, offered, reserved and issued.
use energy_flex_trust_platfo.Prelude.{some, ◌≡◌, refl, true, none, some}
use energy_flex_trust_platfo.Tests.Sample.{
  sample_platform, tag, settings, issued_state, issued_path, message_row,
}
use energy_flex_trust_platfo.Domain.{require_role, asset_type_value, direction_value}
use energy_flex_trust_platfo.Models.{
  pending, Dispatch, Reservation, outbox_message_row, dispatch_row, reservation_row,
}
use energy_flex_trust_platfo.Audit.Defs.{
  verify_chain, append_event, calculate_event_hash, sha256_json, canonical_json,
  audit_hash_material, json_fields,
}
use energy_flex_trust_platfo.Linkage.Defs.{Agrees, LeaseMatches}
use energy_flex_trust_platfo.Ports.{noop_publisher}
use energy_flex_trust_platfo.Outbox.Worker.{run_once}
use energy_flex_trust_platfo.System.{fresh_state}
use energy_flex_trust_platfo.System.Safety.{reachable-verify_chain, message_states_agree}
use energy_flex_trust_platfo.System.Worker.{IsReached, run_once-IsReached}
use energy_flex_trust_platfo.Prelude.Tests.{is_blank}
use energy_flex_trust_platfo.Models.Table.{get, update}
use energy_flex_trust_platfo.Session.{
  new_id, utc_now, ◌>>=◌, add_asset, add_flex_offer, add_audit_event, add_reservation,
  add_idempotency_record, add_dispatch, add_outbox_message,
}
use energy_flex_trust_platfo.Service.Registration.{register, register_asset, offer, create_offer}
use energy_flex_trust_platfo.Service.Common.{
  find_record, idempotent_resource, recorded_resource, store_idempotency,
}
use energy_flex_trust_platfo.Service.Reserve.{reserve_hash, reserve, reserve_offer}
use energy_flex_trust_platfo.Outbox.Queue.{enqueue_dispatch}
use energy_flex_trust_platfo.Outbox.Payload.{dispatch_payload}
use energy_flex_trust_platfo.Service.Issue.{issue_hash, issue, issue_dispatch}

reachable-verify_chain_example : (verify_chain issued_state.world.db).valid ≡ true
reachable-verify_chain_example = reachable-verify_chain issued_state issued_path

message_states_agree_example :
    (d : Dispatch) × (r : Reservation) × (get (tag 9) issued_state.world.db.dispatches ≡ some d)
    × (get d.reservation_id issued_state.world.db.reservations ≡ some r)
    × Agrees pending d.status r.status
    × LeaseMatches none pending
unfolding is_blank require_role asset_type_value direction_value get update append_event
    calculate_event_hash sha256_json canonical_json audit_hash_material json_fields new_id utc_now
    ◌>>=◌ add_asset add_flex_offer add_audit_event register register_asset offer create_offer
    add_reservation add_idempotency_record find_record idempotent_resource recorded_resource
    store_idempotency reserve_hash reserve reserve_offer add_dispatch add_outbox_message
    enqueue_dispatch dispatch_payload issue_hash issue issue_dispatch
message_states_agree_example =
    message_states_agree issued_state issued_path (tag 10) message_row refl

run_once-IsReached_example :
    IsReached fresh_state (run_once settings noop_publisher 10 issued_state.world tt).1
run_once-IsReached_example =
    run_once-IsReached fresh_state settings noop_publisher 10 issued_state.world tt
      (issued_state, issued_path, refl)
