-- ===== src/Live/Errors.antt =====
-- The errors of core/model/worktree.go, core/worktree and core/activate, one for each message. The
-- values that a message quotes are left out.
pub data Error : Type 0 where
  -- ValidateIdentity
  invalid_name invalid_env invalid_symbol invalid_path invalid_fpath invalid_option : Error
  unsupported_kind : Error
  -- ValidateLiveValue
  removed_payload scalar_required scalar_nul list_required element_nul option_required : Error
  unsupported_value_kind : Error
  -- ValidateLiveSnapshot
  snapshot_bytes snapshot_records size_overflow snapshot_payload : Error
  -- NormalizeOverlay
  tombstone_value overlay_absent : Error
  -- NextRevision
  revision_overflow : Error
  -- validateLiveChange, CategorizeDiff
  change_no_value change_carries_value change_kind duplicate_change : Error
  -- liveChangesToOps
  scalar_missing option_missing unsupported_identity : Error
  -- Diff, validateListDelta
  active_schema target_schema missing_body dynamic_without_base base_index addition_dynamic : Error
  -- validateEventSequence, validateSharedGeneration, CompactStateHistory
  empty_history nonmonotonic operation_id shell_id history_end shared_mismatch : Error
  not_compactable : Error
  -- Registry
  secret_ref durable_duplicate durable_unsafe : Error
  -- ValidateState and its parts
  schema_version causal_data branch_or_base revision_bounds event_count shell_count : Error
  committed_schema duplicate_tombstone state_records duplicate_state absent_state : Error
  admitted_records admitted_identity admitted_payload admitted_duplicate admitted_order : Error
  shell_state_id verifier_missing attach_state shell_revision no_attachment : Error
  reconcile_baseline identity_list exclusion transition_state empty_pending : Error
  pending_kind pending_target pull_conflict resolution_unbacked conflict_kind : Error
  conflict_causality delta_without_conflict conflict_without_delta unpublished_incomplete : Error
  prepare_without_pull resolve_without_resolution recovered_code receipt_authority : Error
  duplicate_receipt receipt_limit receipt_union receipt_result receipt_kind state_bytes : Error
  -- Service
  unmaterialized recovery_required unauthorized operation_replay already_attached : Error
  needs_reconcile conflict_requires_resolution acknowledge_mismatch worktree_dirty : Error
  workflow_unavailable shell_limit invalid_request invalid_branch invalid_message : Error
  credential capability_missing capability_size token_invalid : Error
  repository : Error
