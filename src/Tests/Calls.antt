-- ===== src/Tests/Calls.antt =====
-- The theorems on the calls of the service, for one asset.
use energy_flex_trust_platfo.Prelude.{◌≡◌, refl, [], ◌∷◌}
use energy_flex_trust_platfo.Tests.Sample.{
  sample_platform, tag, owner, operator, asset_command, offer_command, reservation_command,
  dispatch_command, reading_command, settings, registered, offered, reserved_state, issued_state,
  claimed, offer_row, the_reservation, the_dispatch,
}
use energy_flex_trust_platfo.Domain.{
  ok, err, Error, market_operator, asset_owner, auditor, require_role, asset_type_value,
  direction_value,
}
use energy_flex_trust_platfo.Models.{Reservation, Dispatch}
use energy_flex_trust_platfo.Session.{
  new_id, utc_now, ◌>>=◌, add_asset, add_flex_offer, add_audit_event, add_reservation,
  add_idempotency_record, add_dispatch, add_outbox_message,
}
use energy_flex_trust_platfo.Guarantees.Retry.{
  reserve_offer-again, issue_dispatch-again, issue_dispatch-key_reused,
}
use energy_flex_trust_platfo.Guarantees.Success.{
  create_offer-Offering, reserve_offer-Reserving, issue_dispatch-Issuing, Offering, Reserving,
  Issuing,
}
use energy_flex_trust_platfo.Guarantees.Failure.{operations-IsAtomic, IsAtomic}
use energy_flex_trust_platfo.Service.Metering.{record_meter_reading}
use energy_flex_trust_platfo.Service.Settle.{
  settle_reservation, settlement_evidence, audit_verification,
}
use energy_flex_trust_platfo.Redrive.{authorize_dead_dispatch_redrive}
use energy_flex_trust_platfo.Outbox.Worker.{claim_one, record_success, record_failure}
use energy_flex_trust_platfo.Guarantees.Roles.{auditor-changes_nothing}
use energy_flex_trust_platfo.Prelude.Tests.{is_blank}
use energy_flex_trust_platfo.Models.Table.{get, update}
use energy_flex_trust_platfo.Audit.Defs.{
  append_event, calculate_event_hash, sha256_json, canonical_json, audit_hash_material, json_fields,
}
use energy_flex_trust_platfo.Service.Registration.{register, register_asset, offer, create_offer}
use energy_flex_trust_platfo.Service.Common.{
  find_record, idempotent_resource, recorded_resource, store_idempotency,
}
use energy_flex_trust_platfo.Service.Reserve.{reserve_hash, reserve, reserve_offer}
use energy_flex_trust_platfo.Outbox.Queue.{enqueue_dispatch}
use energy_flex_trust_platfo.Outbox.Payload.{dispatch_payload}
use energy_flex_trust_platfo.Service.Issue.{issue_hash, issue, issue_dispatch}

reserve_offer-again_example :
    (y : Reservation) × (reserve_offer
        (tag 3)
        reservation_command
        operator
        "k1"
        reserved_state.world
      ≡ (ok y, reserved_state.world))
    × (y.id ≡ tag 6)
unfolding is_blank require_role asset_type_value direction_value get update append_event
    calculate_event_hash sha256_json canonical_json audit_hash_material json_fields new_id utc_now
    ◌>>=◌ add_asset add_flex_offer add_audit_event register register_asset offer create_offer
    add_reservation add_idempotency_record find_record idempotent_resource recorded_resource
    store_idempotency reserve_hash reserve reserve_offer
reserve_offer-again_example =
    reserve_offer-again (tag 3) reservation_command operator "k1" offered.world reserved_state.world
      _ refl

issue_dispatch-again_example :
    (y : Dispatch) × (issue_dispatch (tag 6) dispatch_command operator "k2" issued_state.world
      ≡ (ok y, issued_state.world))
    × (y.id ≡ tag 9)
unfolding is_blank require_role asset_type_value direction_value get update append_event
    calculate_event_hash sha256_json canonical_json audit_hash_material json_fields new_id utc_now
    ◌>>=◌ add_asset add_flex_offer add_audit_event register register_asset offer create_offer
    add_reservation add_idempotency_record find_record idempotent_resource recorded_resource
    store_idempotency reserve_hash reserve reserve_offer add_dispatch add_outbox_message
    enqueue_dispatch dispatch_payload issue_hash issue issue_dispatch
issue_dispatch-again_example =
    issue_dispatch-again (tag 6) dispatch_command operator "k2" reserved_state.world
      issued_state.world _ refl

issue_dispatch-key_reused_example :
    issue_dispatch (tag 7) dispatch_command operator "k2" issued_state.world
    ≡ (err Error.conflict, issued_state.world)
unfolding is_blank require_role asset_type_value direction_value get update append_event
    calculate_event_hash sha256_json canonical_json audit_hash_material json_fields new_id utc_now
    ◌>>=◌ add_asset add_flex_offer add_audit_event register register_asset offer create_offer
    add_reservation add_idempotency_record find_record idempotent_resource recorded_resource
    store_idempotency reserve_hash reserve reserve_offer add_dispatch add_outbox_message
    enqueue_dispatch dispatch_payload issue_hash issue issue_dispatch
issue_dispatch-key_reused_example =
    issue_dispatch-key_reused (tag 6) (tag 7) dispatch_command dispatch_command operator operator
      "k2" reserved_state.world issued_state.world the_dispatch refl refl (λ e. cc e)

create_offer-Offering_example :
    (require_role owner (asset_owner ∷ []) ≡ ok tt)
    × Offering offer_command owner registered.world.db offer_row
unfolding is_blank require_role asset_type_value direction_value get update append_event
    calculate_event_hash sha256_json canonical_json audit_hash_material json_fields new_id utc_now
    ◌>>=◌ add_asset add_flex_offer add_audit_event register register_asset offer create_offer
create_offer-Offering_example =
    create_offer-Offering offer_command owner registered.world offered.world offer_row refl

reserve_offer-Reserving_example :
    (require_role operator (market_operator ∷ []) ≡ ok tt)
    × Reserving (tag 3) reservation_command operator offered.world.db the_reservation
unfolding is_blank require_role asset_type_value direction_value get update append_event
    calculate_event_hash sha256_json canonical_json audit_hash_material json_fields new_id utc_now
    ◌>>=◌ add_asset add_flex_offer add_audit_event register register_asset offer create_offer
    add_reservation add_idempotency_record find_record idempotent_resource recorded_resource
    store_idempotency reserve_hash reserve reserve_offer
reserve_offer-Reserving_example =
    reserve_offer-Reserving (tag 3) reservation_command operator "k1" offered.world
      reserved_state.world the_reservation refl refl

issue_dispatch-Issuing_example :
    (require_role operator (market_operator ∷ []) ≡ ok tt)
    × Issuing (tag 6) dispatch_command operator reserved_state.world.db the_dispatch
unfolding is_blank require_role asset_type_value direction_value get update append_event
    calculate_event_hash sha256_json canonical_json audit_hash_material json_fields new_id utc_now
    ◌>>=◌ add_asset add_flex_offer add_audit_event register register_asset offer create_offer
    add_reservation add_idempotency_record find_record idempotent_resource recorded_resource
    store_idempotency reserve_hash reserve reserve_offer add_dispatch add_outbox_message
    enqueue_dispatch dispatch_payload issue_hash issue issue_dispatch
issue_dispatch-Issuing_example =
    issue_dispatch-Issuing (tag 6) dispatch_command operator "k2" reserved_state.world
      issued_state.world the_dispatch refl refl

auditor-changes_nothing_example :
    (register_asset asset_command (record { actor_id = "a"; role = auditor }) issued_state.world
      ≡ (err Error.forbidden, issued_state.world))
    × (create_offer offer_command (record { actor_id = "a"; role = auditor }) issued_state.world
        ≡ (err Error.forbidden, issued_state.world))
    × (reserve_offer
          (tag 6)
          reservation_command
          (record { actor_id = "a"; role = auditor })
          "k"
          issued_state.world
        ≡ (err Error.forbidden, issued_state.world))
    × (issue_dispatch
          (tag 6)
          dispatch_command
          (record { actor_id = "a"; role = auditor })
          "k"
          issued_state.world
        ≡ (err Error.forbidden, issued_state.world))
    × (record_meter_reading reading_command
          (record { actor_id = "a"; role = auditor })
          issued_state.world
        ≡ (err Error.forbidden, issued_state.world))
    × (settle_reservation (tag 6) (record { actor_id = "a"; role = auditor }) "k" issued_state.world
        ≡ (err Error.forbidden, issued_state.world))
    × (authorize_dead_dispatch_redrive
          (record { actor_id = "a"; role = auditor })
          (tag 6)
          (tag 9)
          "k"
          issued_state.world
        ≡ (err Error.forbidden, issued_state.world))
auditor-changes_nothing_example =
    auditor-changes_nothing (record { actor_id = "a"; role = auditor }) issued_state.world
      asset_command offer_command reservation_command dispatch_command reading_command (tag 6)
      (tag 9) "k" refl

operations-IsAtomic_example :
    IsAtomic (register_asset asset_command operator)
    × IsAtomic (create_offer offer_command operator)
    × IsAtomic (reserve_offer (tag 6) reservation_command operator "k")
    × IsAtomic (issue_dispatch (tag 6) dispatch_command operator "k")
    × IsAtomic (record_meter_reading reading_command operator)
    × IsAtomic (settle_reservation (tag 6) operator "k")
    × IsAtomic (settlement_evidence (tag 6) operator)
    × IsAtomic (audit_verification operator)
    × IsAtomic (authorize_dead_dispatch_redrive operator (tag 6) (tag 9) "k")
    × IsAtomic (claim_one settings)
    × IsAtomic (record_success settings claimed "k")
    × IsAtomic (record_failure settings claimed (tag 6) (tag 9))
operations-IsAtomic_example =
    operations-IsAtomic asset_command offer_command reservation_command dispatch_command
      reading_command operator (tag 6) (tag 9) "k" settings claimed
