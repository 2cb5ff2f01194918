-- ===== src/Worktree/Service/Pull.antt =====
-- PreparePull: core/worktree/service.go.
pub mod Replay
pub mod Reaches
use zsh_pro.Prelude.{
  ℕ, Bool, true, false, not, ◌&&◌, Option, none, some, List, [], ◌∷◌, ◌==◌, nat_eq, if◌then◌else◌,
  ok, err, Result, ◌>>=◌, ◌>>◌, guard,
}
use zsh_pro.Data.Bytes.{Bytes, bytes, bytes_eq}
use zsh_pro.Data.Dict.{insert, is_some}
use zsh_pro.Live.Types.{LiveIdentityState, LiveChange}
use zsh_pro.Live.Errors.{Error}
use zsh_pro.Live.Normalize.{clone_live_changes}
use zsh_pro.Worktree.Diff.{diff_snapshot}
use zsh_pro.Worktree.Transition.{ShellTransition}
use zsh_pro.Worktree.State.{
  State, ShellState, AttachState, PendingKind, PendingTransition, PreparePullResult,
  OperationReceipt, ReceiptKind,
}
use zsh_pro.Worktree.State.Credential.{ShellCredential}
use zsh_pro.Worktree.State.Shell.{is_empty}
use zsh_pro.Worktree.Service.Digest.{
  External, Part, fingerprint_parts, fingerprint_snapshot, new_resolution_token, authorize_shell,
  validate_private_request,
}
use zsh_pro.Worktree.Service.Receipts.{receipt_for, append_receipt}
use zsh_pro.Worktree.Service.Transaction.{Step, with_transaction, receipt_result}
use zsh_pro.Worktree.Service.Publish.{states_of, no_pending_kind}

pub record PreparePullRequest : Type 0 where
  pub operation_id : Bytes
  pub credential : ShellCredential
  pub applied_revision : ℕ

unfoldable pub prepare_receipt : Bytes → Bytes → Bytes → PreparePullResult → OperationReceipt
prepare_receipt shell operation fingerprint result = record {
  shell_id = shell;
  operation_id = operation;
  kind = ReceiptKind.prepare_pull;
  request_fingerprint = fingerprint;
  attach = none;
  publish = none;
  prepare_pull = some result;
  acknowledge = none;
  resolve = none;
}

unfoldable pub is_prepare : ReceiptKind → Bool
is_prepare ReceiptKind.prepare_pull = true
is_prepare _ = false

unfoldable pub prepare_again : Bytes → State → OperationReceipt → Step PreparePullResult
unfolding is_prepare
prepare_again fingerprint s r = do
  result ← receipt_result (is_prepare r.kind) fingerprint r r.prepare_pull
  ok (s, result)

-- The guards on a request that is not a repetition.
unfoldable pub preparable : ShellState → Result Error (Unit {0})
preparable shell = do
  guard (not (is_some shell.conflict) && is_empty shell.unpublished_delta)
      Error.conflict_requires_resolution
  guard (no_pending_kind shell.pending.kind) Error.needs_reconcile

-- A shell that reports another revision than the recorded one has to be reconciled.
unfoldable pub forget_applied : PreparePullRequest → ShellState → ShellState
forget_applied request shell =
    if request.applied_revision == shell.applied_revision then shell else record shell {
      attach_state = AttachState.clean_reconcile;
      applied_revision = 0;
      applied_baseline = [];
    }

unfoldable pub pending_pull : ℕ → Bytes → Bytes → List LiveChange → PendingTransition
pending_pull head fingerprint token changes = record {
  kind = PendingKind.pull;
  revision = head;
  fingerprint = fingerprint;
  token = token;
  conflict = none;
  changes = clone_live_changes changes;
}

-- The shell and the result are recorded.
unfoldable pub record_prepare :
    PreparePullRequest → Bytes → State → ShellState → PreparePullResult → Step PreparePullResult
record_prepare request fingerprint s shell result = ok (
  append_receipt (record s { shells = insert request.credential.shell_id shell s.shells })
      (prepare_receipt request.credential.shell_id request.operation_id fingerprint result),
  result,
)

module _ (x : External) where
  unfoldable pub prepare_target :
      PreparePullRequest → Bytes → State → ShellState → List LiveChange → Step PreparePullResult
  unfolding record_prepare
  prepare_target request fingerprint s shell changes = do
    target ← fingerprint_snapshot x (states_of s.shared)
    let token =
        new_resolution_token x (bytes "pull") request.operation_id fingerprint s.head_revision
    record_prepare request fingerprint s
        (record shell {
          pending = pending_pull s.head_revision target token changes;
          transition = ShellTransition.prepare;
          behind = true;
          last_active_revision = s.head_revision;
        })
        (record {
          pending_revision = s.head_revision;
          token = token;
          changes = clone_live_changes changes;
        })

  -- Nothing to pull: the shell shows the shared state of the head.
  unfoldable pub prepare_changes :
      PreparePullRequest → Bytes → State → ShellState → List LiveChange → Step PreparePullResult
  unfolding prepare_target record_prepare
  prepare_changes request fingerprint s shell changes =
      if is_empty changes
        && request.applied_revision == s.head_revision
        && shell.applied_revision == s.head_revision
      then record_prepare request fingerprint s
          (record shell { last_active_revision = s.head_revision })
          (record { pending_revision = 0; token = []; changes = [] })
      else prepare_target request fingerprint s shell changes

  unfoldable pub prepare_new :
      PreparePullRequest → Bytes → State → ShellState → Step PreparePullResult
  unfolding prepare_changes
  prepare_new request fingerprint s shell = do
    preparable shell
    changes ← diff_snapshot (states_of shell.capture_baseline) (states_of s.shared)
    prepare_changes request fingerprint s (forget_applied request shell) changes

  unfoldable pub prepare_fingerprint : PreparePullRequest → Bytes
  prepare_fingerprint request =
      fingerprint_parts x (bytes "prepare") (Part.number request.applied_revision ∷ [])

  unfoldable pub prepare_known :
      PreparePullRequest → State → ShellState → Option OperationReceipt → Step PreparePullResult
  prepare_known request s shell (some r) = prepare_again (prepare_fingerprint request) s r
  prepare_known request s shell none = prepare_new request (prepare_fingerprint request) s shell

  -- The body of the transaction.
  unfoldable pub prepare_state : PreparePullRequest → State → Step PreparePullResult
  unfolding prepare_known
  prepare_state request s = do
    shell ← authorize_shell x s request.credential
    prepare_known request s shell (receipt_for s request.credential.shell_id request.operation_id)

  unfoldable pub prepare_pull : PreparePullRequest → Bool → State → Step PreparePullResult
  prepare_pull request marked s = do
    validate_private_request request.operation_id request.credential
    with_transaction x marked (prepare_state request) s
