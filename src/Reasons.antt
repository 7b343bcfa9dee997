-- ===== src/Reasons.antt =====
-- The reason strings of the `{ ok: false, reason }` results of lib/missionFsm.ts,
-- stores/missionStore.ts, repositories/communityPoolsRepository.ts and
-- repositories/settlementRepository.ts (below apps/backend/src).
pub data Reason : Type 0 where
  invalid_transition mission_not_redispatchable mission_not_found update_failed forbidden
        location_required geofence_not_configured outside_geofence weighbridge_ticket_required
        weighbridge_weights_required ticket_not_found already_approved ticket_rejected
        weights_required supervisor_approval_required mission_missing load_missing missing_entities
        no_valid_rate_card community_requires_verified_weight already_settled mission_not_held
        cannot_reverse_settled not_verified reverse_window_expired mission_not_settled
        already_credited_use_adjustment already_rejected invalid_ticket_state
        invalid_negative_weight invalid_weight_order invalid_adjustment missing pool_not_found
        already_distributed missing_snapshot_households missing_mine_id no_approved_households
        role_cannot_approve batch_not_found invalid_batch_status dual_approval_required
        maker_checker_same_user mine_payment_required batch_exists_for_period
        no_owner_lines_for_period no_household_lines_for_period vehicle_mismatch active_log_exists
        household_not_found invalid_log_state invalid_log missing_raw_hours billable_exceeds_raw
        already_finalized invalid_weighbridge_key invalid_captured_at invalid_weight mine_mismatch
        ticket_required cooperative_not_in_mine statement_locked statement_exists not_found
        invalid_status cooperative_scope not_approved cooperative_iban_missing not_editable
        line_not_found invalid_payment_reference not_locked already_paid manual_entry_locked
        invalid_state_for_reading empty_weight_required :
      Reason

-- What a request may throw: the errors of the finance configuration, and an update of a row that
-- is not there.
pub data Fault : Type 0 where
  community_requires_verified_weight_error rule_not_configured mine_config_incomplete
        fare_not_resolved record_not_found mission_settle_failed bank_adapter_disabled
        batch_not_found_error invalid_batch_status_error batch_not_locked no_rate_card_error
        ticket_update_failed :
      Fault
