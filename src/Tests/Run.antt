-- ===== src/Tests/Run.antt =====
-- What a run of the service has to see through.
use zsh_pro.Prelude.{ℕ}
use zsh_pro.Worktree.History.{
  valid_state_token, validate_event, validate_events, validate_event_sequence, replay,
  validate_shared_generation, drop_events, compact_state_history,
}
use zsh_pro.Worktree.Registry.{
  is_bookkeeping_identity, is_volatile_identity, owns, is_pinned_secret, exclusion_reason,
  allows_live_value, attach_state, attach_states, attach, admit, check_admitted, restore_admitted,
}
use zsh_pro.Worktree.Registry.Seed.{
  registry_entry_identities, validate_registry_secret_ref, check_secret, decide, decide_all,
  decide_entries, owned_of, pinned_of, seed,
}
use zsh_pro.Worktree.State.Credential.{
  new_shell_capability, derive_shell_capability_verifier, verify_shell_capability,
  validate_credential,
}
use zsh_pro.Worktree.State.Shell.{
  all_present, validate_present_states, validate_unique, validate_identity_list, validate_token,
  validate_exclusions, is_zero, validate_resolution, validate_pending_target, validate_pending_kind,
  validate_pending, validate_conflict, validate_own_conflict, valid_transition_value,
  validate_attach_state, known_attach_state, is_resolution, validate_transition, known_code,
  validate_delta_conflict, validate_shell_state,
}
use zsh_pro.Worktree.State.Receipts.{validate_receipt_union, validate_each, validate_receipts}
use zsh_pro.Worktree.State.Validate.{
  state_oid_re, valid_state_branch, validate_committed, admitted_identity_less, validate_admitted,
  validate_admitted_identities, validate_shells, validate_unmaterialized, validate_materialized,
  validate_state,
}
use zsh_pro.Worktree.Service.Digest.{
  sized_parts, fingerprint_parts, new_resolution_token, fingerprint_states, fingerprint_snapshot,
  authorize_record, authorize_shell, validate_private_request,
}
use zsh_pro.Worktree.Service.Receipts.{
  last_receipt, receipt_for, count_receipts, drop_first, append_to, append_receipt,
}
use zsh_pro.Worktree.Service.Admission.{
  present_only, present_identities, unowned, seed_registry_from_state, append_admitted_identity,
  attachment_from_shell, let_through, admit_each, admitted_changes, admitted_snapshot,
}
use zsh_pro.Worktree.Service.Transaction.{
  marshal_state, project_recovered_persistence, recovered_shells, with_transaction, receipt_result,
  or_else,
}
use zsh_pro.Worktree.Service.Attach.{
  attach_receipt, attach_again, record_shell, attach_new, attach_state_of, attach_shell,
}
use zsh_pro.Worktree.Service.Publish.{
  no_pending_kind, changed_identities_after, change_matches_states, accepted_of, losing_of,
  publish_event, publish_accepted, conflict_of, publish_shell, publish_result, publish_receipt,
  is_publish, publish_again, publishable, record_publish, publish_new, publish_fingerprint,
  publish_known, publish_state, publish,
}
use zsh_pro.Worktree.Service.Pull.{
  prepare_receipt, is_prepare, prepare_again, preparable, forget_applied, pending_pull,
  record_prepare, prepare_target, prepare_changes, prepare_new, prepare_fingerprint, prepare_known,
  prepare_state, prepare_pull,
}
use zsh_pro.Worktree.Service.Acknowledge.{
  acknowledge_receipt, is_acknowledge, acknowledge_again, same_target, backs, still_backed, settle,
  acknowledged_shell, acknowledge_result, record_acknowledge, acknowledge_new,
  acknowledge_fingerprint, acknowledge_known, acknowledge_state, acknowledge,
}
use zsh_pro.Worktree.Service.Workflow.{
  workflow_changes, workflow_entry, workflow_overlay, read_exact, decimal, workflow_event,
  record_changes, refresh_shells, replace_workflow_generation, repair_published_state,
}
use zsh_pro.Worktree.Service.Workflow.Commit.{
  commit_document, adopt_commit, adopted, refused, commit_outcome, early, commit_document_of,
  commit_changes, commit_state, valid_message, commit_return, settle_commit, commit,
}
use zsh_pro.Worktree.Service.Workflow.Branches.{
  quiet_shell, quiet_shells, set_auto_apply_default, list_branches, branches, transact, created,
  create_branch, branch_state, create, leaving, arrive, arrive_from, checkout_state, checkout,
  reset_state, reset_hard,
}
use zsh_pro.Activate.Build.Projection.{
  append_projected, project_base, bury, put_projected, project_entry, project_entries,
  active_states, effective_projection,
}
use zsh_pro.Activate.Build.Effective.{
  list_identity, scalar_values, alias_values, store_body, function_values, list_values,
  option_values, manifest_values, list_identities, assignment_identities, identities_by_kind,
  live_entry_identities, note_identities, note_entries, append_state, append_states,
  appended_identities, live_states_from_manifest, new_committed_worktree, build_effective,
}
use zsh_pro.Activate.Build.Entries.{
  activation_value, add_scalar, store_list, entry_list, put_scalar, add_assignment, put_alias,
  add_alias, all_names, insert_all, add_functions, add_options, is_options, add_by_kind, add_entry,
  add_entries, finish, build,
}
use zsh_pro.Live.Normalize.{next_revision, clone_live_changes, clone_live_projection}
use zsh_pro.Tests.Samples.{opened}

unfoldable pub run : ℕ
unfolding opened next_revision clone_live_changes clone_live_projection valid_state_token
    validate_event validate_events validate_event_sequence replay validate_shared_generation
    drop_events compact_state_history is_bookkeeping_identity is_volatile_identity owns
    is_pinned_secret exclusion_reason allows_live_value attach_state attach_states attach admit
    check_admitted restore_admitted registry_entry_identities validate_registry_secret_ref
    check_secret decide decide_all decide_entries owned_of pinned_of seed new_shell_capability
    derive_shell_capability_verifier verify_shell_capability validate_credential all_present
    validate_present_states validate_unique validate_identity_list validate_token
    validate_exclusions is_zero validate_resolution validate_pending_target validate_pending_kind
    validate_pending validate_conflict validate_own_conflict valid_transition_value
    validate_attach_state known_attach_state is_resolution validate_transition known_code
    validate_delta_conflict validate_shell_state validate_receipt_union validate_each
    validate_receipts state_oid_re valid_state_branch validate_committed admitted_identity_less
    validate_admitted validate_admitted_identities validate_shells validate_unmaterialized
    validate_materialized validate_state sized_parts fingerprint_parts new_resolution_token
    fingerprint_states fingerprint_snapshot authorize_record authorize_shell
    validate_private_request last_receipt receipt_for count_receipts drop_first append_to
    append_receipt present_only present_identities unowned seed_registry_from_state
    append_admitted_identity attachment_from_shell let_through admit_each admitted_changes
    admitted_snapshot marshal_state project_recovered_persistence recovered_shells with_transaction
    receipt_result or_else attach_receipt attach_again record_shell attach_new attach_state_of
    attach_shell no_pending_kind changed_identities_after change_matches_states accepted_of
    losing_of publish_event publish_accepted conflict_of publish_shell publish_result
    publish_receipt is_publish publish_again publishable record_publish publish_new
    publish_fingerprint publish_known publish_state publish prepare_receipt is_prepare prepare_again
    preparable forget_applied pending_pull record_prepare prepare_target prepare_changes prepare_new
    prepare_fingerprint prepare_known prepare_state prepare_pull acknowledge_receipt is_acknowledge
    acknowledge_again same_target backs still_backed settle acknowledged_shell acknowledge_result
    record_acknowledge acknowledge_new acknowledge_fingerprint acknowledge_known acknowledge_state
    acknowledge workflow_changes workflow_entry workflow_overlay read_exact decimal workflow_event
    record_changes refresh_shells replace_workflow_generation repair_published_state commit_document
    adopt_commit adopted refused commit_outcome early commit_document_of commit_changes commit_state
    valid_message commit_return settle_commit commit quiet_shell quiet_shells set_auto_apply_default
    list_branches branches transact created create_branch branch_state create leaving arrive
    arrive_from checkout_state checkout reset_state reset_hard append_projected project_base bury
    put_projected project_entry project_entries active_states effective_projection list_identity
    scalar_values alias_values store_body function_values list_values option_values manifest_values
    list_identities assignment_identities identities_by_kind live_entry_identities note_identities
    note_entries append_state append_states appended_identities live_states_from_manifest
    new_committed_worktree build_effective activation_value add_scalar store_list entry_list
    put_scalar add_assignment put_alias add_alias all_names insert_all add_functions add_options
    is_options add_by_kind add_entry add_entries finish build
run = 0
