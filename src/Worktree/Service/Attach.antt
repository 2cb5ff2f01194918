-- ===== src/Worktree/Service/Attach.antt =====
-- Attach: core/worktree/service.go.
use zsh_pro.Prelude.{
  Bool, true, false, not, Option, none, some, List, [], ◌∷◌, nat_eq, leb, length, if◌then◌else◌, ok,
  err, ◌>>=◌, ◌>>◌, guard,
}
use zsh_pro.Data.Bytes.{Bytes, bytes, bytes_eq}
use zsh_pro.Data.Dict.{lookup, insert}
use zsh_pro.Live.Types.{LiveIdentityState, LiveSnapshot}
use zsh_pro.Live.Errors.{Error}
use zsh_pro.Live.Validate.{validate_live_snapshot}
use zsh_pro.Live.Normalize.{clone_live_states}
use zsh_pro.Worktree.Apply.{equal_live_states}
use zsh_pro.Worktree.Transition.{ShellTransition}
use zsh_pro.Worktree.Registry.{Registry, AttachmentResult, attach}
use zsh_pro.Worktree.State.{
  State, ShellState, AttachState, AttachResult, PendingKind, PendingTransition, RecoveredErrorCode,
  OperationReceipt, ReceiptKind,
}
use zsh_pro.Worktree.State.Credential.{
  ShellCredential, derive_shell_capability_verifier, verify_shell_capability,
}
use zsh_pro.Worktree.State.Shell.{zero_digest}
use zsh_pro.Worktree.State.Validate.{max_shell_records}
use zsh_pro.Worktree.Service.Digest.{External, Part, fingerprint_parts, validate_private_request}
use zsh_pro.Worktree.Service.Receipts.{receipt_for, append_receipt}
use zsh_pro.Worktree.Service.Admission.{present_only, present_identities, seed_registry_from_state}
use zsh_pro.Worktree.Service.Transaction.{Step, with_transaction, receipt_result, recover, or_else}

pub record AttachRequest : Type 0 where
  pub operation_id : Bytes
  pub credential : ShellCredential
  pub initial : LiveSnapshot

-- `PendingTransition{Kind: PendingNone}`
abbrev pub no_pending : PendingTransition
no_pending = record {
  kind = PendingKind.nothing;
  revision = 0;
  fingerprint = zero_digest;
  token = [];
  conflict = none;
  changes = [];
}

unfoldable pub attach_receipt : Bytes → Bytes → Bytes → AttachResult → OperationReceipt
attach_receipt shell operation fingerprint result = record {
  shell_id = shell;
  operation_id = operation;
  kind = ReceiptKind.attach;
  request_fingerprint = fingerprint;
  attach = some result;
  publish = none;
  prepare_pull = none;
  acknowledge = none;
  resolve = none;
}

is_attach : ReceiptKind → Bool
is_attach ReceiptKind.attach = true
is_attach _ = false

-- A shell that is attached already: a repeated request gets its result again.
unfoldable pub attach_again : Bytes → State → Option OperationReceipt → Step AttachResult
unfolding is_attach
attach_again fingerprint s none = err Error.already_attached
attach_again fingerprint s (some r) = do
  result ← receipt_result (is_attach r.kind) fingerprint r r.attach
  ok (s, result)

new_shell :
    State → Bytes → LiveSnapshot → AttachmentResult → List LiveIdentityState → Bool → ShellState
new_shell s verifier initial a baseline at_head = record {
  capability_verifier = verifier;
  attach_state = if at_head then AttachState.at_head else AttachState.clean_reconcile;
  attached_revision = s.head_revision;
  applied_revision = if at_head then s.head_revision else 0;
  applied_baseline = if at_head then clone_live_states s.shared else [];
  capture_baseline = baseline;
  unpublished_delta = [];
  present_at_attach = present_identities initial;
  exclusions = a.exclusions;
  transition = ShellTransition.attach;
  pending = no_pending;
  behind = not at_head;
  auto_apply_override = none;
  conflict = none;
  last_recovered_error = RecoveredErrorCode.nothing;
  last_active_revision = s.head_revision;
}

new_result : State → AttachmentResult → Bool → AttachResult
new_result s a at_head = record {
  revision = s.head_revision;
  attached = true;
  reconcile_required = not at_head;
  exclusions = a.exclusions;
}

-- The shell is recorded, with its receipt.
unfoldable pub record_shell :
    State → AttachRequest → Bytes → Bytes → LiveSnapshot → AttachmentResult → Step AttachResult
unfolding new_shell new_result
record_shell s request verifier fingerprint initial a =
    let baseline = present_only a.baseline in
    let at_head = equal_live_states baseline s.shared in
    let result = new_result s a at_head in
    ok (
      append_receipt
          (record s {
            shells =
                insert request.credential.shell_id (new_shell s verifier initial a baseline at_head)
                  s.shells;
          })
          (attach_receipt request.credential.shell_id request.operation_id fingerprint result),
      result,
    )

unfoldable pub attach_new :
    Registry → State → AttachRequest → Bytes → Bytes → LiveSnapshot → Step AttachResult
attach_new registry s request verifier fingerprint initial = do
  guard (not (leb max_shell_records (length s.shells))) Error.shell_limit
  (seeded, s') ← recover (seed_registry_from_state registry s)
  a ← attach seeded initial
  record_shell s' request verifier fingerprint initial a

abbrev pub clone_snapshot : LiveSnapshot → LiveSnapshot
clone_snapshot p = record p { states = clone_live_states p.states }

module _ (x : External) (registry : Registry) where
  attach_known :
      AttachRequest → Bytes → Bytes → LiveSnapshot → State → Option ShellState → Step AttachResult
  attach_known request verifier fingerprint initial s none =
      attach_new registry s request verifier fingerprint initial
  attach_known request verifier fingerprint initial s (some shell) =
      if verify_shell_capability x.sha256 shell.capability_verifier request.credential.capability
      then attach_again fingerprint s
          (receipt_for s request.credential.shell_id request.operation_id)
      else err Error.unauthorized

  -- The body of the transaction.
  unfoldable pub attach_state_of : AttachRequest → State → Step AttachResult
  unfolding attach_known
  attach_state_of request s =
      let initial = clone_snapshot request.initial in
      let fingerprint = fingerprint_parts x (bytes "attach") (Part.snapshot initial ∷ []) in
      do
        guard s.materialized Error.unmaterialized
        verifier ←
            or_else Error.unauthorized
              (derive_shell_capability_verifier x.sha256 request.credential.capability)
        attach_known request verifier fingerprint initial s
            (lookup request.credential.shell_id s.shells)

  unfoldable pub attach_shell : AttachRequest → Bool → State → Step AttachResult
  attach_shell request marked s = do
    validate_private_request request.operation_id request.credential
    validate_live_snapshot request.initial
    with_transaction x marked (attach_state_of request) s
