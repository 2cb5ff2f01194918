-- ===== src/Worktree/Service/Acknowledge.antt =====
-- Acknowledge: core/worktree/service.go.
pub mod Confirms
use zsh_pro.Prelude.{
  ℕ, Bool, true, false, not, ◌&&◌, ◌||◌, Option, none, some, List, [], ◌∷◌, ◌==◌, nat_eq, ltb,
  if◌then◌else◌, ok, err, Result, ◌>>=◌, ◌>>◌, guard,
}
use zsh_pro.Data.Bytes.{Bytes, bytes, bytes_eq}
use zsh_pro.Data.Dict.{insert, is_some}
use zsh_pro.Live.Types.{Identity, identity_eq, LiveIdentityState, LiveSnapshot}
use zsh_pro.Live.Errors.{Error}
use zsh_pro.Live.Validate.{validate_live_snapshot}
use zsh_pro.Live.Values.{is_ok}
use zsh_pro.Live.Normalize.{clone_live_states}
use zsh_pro.Worktree.Transition.{ShellTransition}
use zsh_pro.Worktree.Registry.{Registry}
use zsh_pro.Worktree.State.{
  State, ShellState, AttachState, Conflict, PendingKind, PendingTransition, AcknowledgeResult,
  OperationReceipt, ReceiptKind,
}
use zsh_pro.Worktree.State.Credential.{ShellCredential}
use zsh_pro.Worktree.State.Shell.{validate_token, is_resolution}
use zsh_pro.Worktree.Service.Digest.{
  External, Part, fingerprint_parts, fingerprint_snapshot, authorize_shell,
  validate_private_request,
}
use zsh_pro.Worktree.Service.Receipts.{receipt_for, append_receipt}
use zsh_pro.Worktree.Service.Admission.{seed_registry_from_state, admitted_snapshot}
use zsh_pro.Worktree.Service.Transaction.{Step, with_transaction, receipt_result, recover, or_else}
use zsh_pro.Worktree.Service.Attach.{clone_snapshot, no_pending}
use zsh_pro.Worktree.Service.Publish.{states_of, no_pending_kind}

pub record AcknowledgeRequest : Type 0 where
  pub operation_id : Bytes
  pub credential : ShellCredential
  pub revision : ℕ
  pub token : Bytes
  pub snapshot : LiveSnapshot

unfoldable pub acknowledge_receipt : Bytes → Bytes → Bytes → AcknowledgeResult → OperationReceipt
acknowledge_receipt shell operation fingerprint result = record {
  shell_id = shell;
  operation_id = operation;
  kind = ReceiptKind.acknowledge;
  request_fingerprint = fingerprint;
  attach = none;
  publish = none;
  prepare_pull = none;
  acknowledge = some result;
  resolve = none;
}

unfoldable pub is_acknowledge : ReceiptKind → Bool
is_acknowledge ReceiptKind.acknowledge = true
is_acknowledge _ = false

unfoldable pub acknowledge_again : Bytes → State → OperationReceipt → Step AcknowledgeResult
unfolding is_acknowledge
acknowledge_again fingerprint s r = do
  result ← receipt_result (is_acknowledge r.kind) fingerprint r r.acknowledge
  ok (s, result)

-- The request is for the transition that is pending.
unfoldable pub same_target : PendingTransition → AcknowledgeRequest → Bool
same_target p request =
    not (no_pending_kind p.kind) && p.revision == request.revision && p.token == request.token

unfoldable pub backs : Option Identity → Bytes → Option Conflict → Bool
backs none token c = false
backs (some i) token none = false
backs (some i) token (some c) = i == c.identity && token == c.token

-- A pending resolution still resolves the conflict of the shell.
unfoldable pub still_backed : PendingTransition → ShellState → Bool
unfolding backs
still_backed p shell = not (is_resolution p.kind) || backs p.conflict p.token shell.conflict

-- The conflict and what it held back are gone after a resolution.
unfoldable pub settle : Bool → ShellState → ShellState
settle true shell = record shell { conflict = none; unpublished_delta = [] }
settle false shell = shell

-- The shell that has applied the pending revision; `head` is the head revision.
unfoldable pub acknowledged_shell : ShellState → ℕ → List LiveIdentityState → ShellState
unfolding settle
acknowledged_shell shell head observed =
    let settled = settle (is_resolution shell.pending.kind) shell in
    record settled {
      attach_state = AttachState.at_head;
      applied_revision = shell.pending.revision;
      applied_baseline = clone_live_states observed;
      capture_baseline = clone_live_states observed;
      pending = no_pending;
      transition = ShellTransition.acknowledge;
      behind = ltb shell.pending.revision head || is_some settled.conflict;
      last_active_revision = head;
    }

unfoldable pub acknowledge_result : ShellState → AcknowledgeResult
acknowledge_result shell = record { applied_revision = shell.pending.revision; acknowledged = true }

unfoldable pub record_acknowledge :
    AcknowledgeRequest
    → Bytes
    → State
    → ShellState
    → List LiveIdentityState
    → State × AcknowledgeResult
record_acknowledge request fingerprint s shell observed =
    let result = acknowledge_result shell in
    (
      append_receipt
          (record s {
            shells =
                insert request.credential.shell_id
                  (acknowledged_shell shell s.head_revision observed) s.shells;
          })
          (acknowledge_receipt request.credential.shell_id request.operation_id fingerprint result),
      result,
    )

module _ (x : External) (registry : Registry) where
  unfoldable pub acknowledge_new :
      AcknowledgeRequest
      → Bytes
      → State
      → ShellState
      → List LiveIdentityState
      → Step AcknowledgeResult
  acknowledge_new request fingerprint s shell observed = do
    guard (same_target shell.pending request) Error.acknowledge_mismatch
    guard (still_backed shell.pending shell) Error.acknowledge_mismatch
    seen ← or_else Error.acknowledge_mismatch (fingerprint_snapshot x (states_of observed))
    guard (seen == shell.pending.fingerprint) Error.acknowledge_mismatch
    ok (record_acknowledge request fingerprint s shell observed)

  unfoldable pub acknowledge_fingerprint : AcknowledgeRequest → List LiveIdentityState → Bytes
  acknowledge_fingerprint request observed =
      fingerprint_parts x (bytes "acknowledge")
        (Part.number request.revision ∷ Part.text request.token ∷ Part.states observed ∷ [])

  unfoldable pub acknowledge_known :
      AcknowledgeRequest
      → State
      → ShellState
      → List LiveIdentityState
      → Option OperationReceipt
      → Step AcknowledgeResult
  acknowledge_known request s shell observed (some r) =
      acknowledge_again (acknowledge_fingerprint request observed) s r
  acknowledge_known request s shell observed none =
      acknowledge_new request (acknowledge_fingerprint request observed) s shell observed

  -- The body of the transaction.
  unfoldable pub acknowledge_state : AcknowledgeRequest → State → Step AcknowledgeResult
  unfolding acknowledge_known
  acknowledge_state request s = do
    shell ← authorize_shell x s request.credential
    (seeded, s₁) ← recover (seed_registry_from_state registry s)
    (s₂, observed) ← admitted_snapshot seeded s₁ shell (clone_snapshot request.snapshot)
    acknowledge_known request s₂ shell observed
        (receipt_for s₂ request.credential.shell_id request.operation_id)

  unfoldable pub acknowledge : AcknowledgeRequest → Bool → State → Step AcknowledgeResult
  acknowledge request marked s = do
    validate_private_request request.operation_id request.credential
    guard
        (not (request.revision == 0)
          && is_ok (validate_token request.token)
          && is_ok (validate_live_snapshot request.snapshot))
        Error.acknowledge_mismatch
    with_transaction x marked (acknowledge_state request) s
