-- ===== src/Worktree/Service/Resolve.antt =====
-- ResolveShared: core/worktree/service.go.
use zsh_pro.Prelude.{
  ℕ, Bool, true, false, ◌&&◌, Option, none, some, List, [], ◌∷◌, ◌==◌, nat_eq, contains, map, ok,
  ◌>>=◌, ◌>>◌, guard,
}
use zsh_pro.Data.Bytes.{Bytes, bytes, bytes_eq}
use zsh_pro.Data.Dict.{insert}
use zsh_pro.Live.Types.{Identity, identity_eq, LiveIdentityState, LiveSnapshot, LiveChange}
use zsh_pro.Live.Errors.{Error}
use zsh_pro.Live.Validate.{validate_identity, validate_live_snapshot}
use zsh_pro.Live.Values.{is_ok}
use zsh_pro.Live.Normalize.{clone_live_changes}
use zsh_pro.Worktree.Diff.{diff_snapshot}
use zsh_pro.Worktree.Transition.{ShellTransition}
use zsh_pro.Worktree.Registry.{Registry}
use zsh_pro.Worktree.State.{
  State, ShellState, Conflict, PendingKind, PendingTransition, ResolveSharedResult,
  OperationReceipt, ReceiptKind,
}
use zsh_pro.Worktree.State.Credential.{ShellCredential}
use zsh_pro.Worktree.State.Shell.{validate_token}
use zsh_pro.Worktree.Service.Digest.{
  External, Part, fingerprint_parts, fingerprint_snapshot, authorize_shell,
  validate_private_request,
}
use zsh_pro.Worktree.Service.Receipts.{receipt_for, append_receipt}
use zsh_pro.Worktree.Service.Admission.{seed_registry_from_state, admitted_snapshot}
use zsh_pro.Worktree.Service.Transaction.{Step, with_transaction, receipt_result, recover, or_else}
use zsh_pro.Worktree.Service.Attach.{clone_snapshot}
use zsh_pro.Worktree.Service.Publish.{states_of, no_pending_kind, change_identity}

pub record ResolveSharedRequest : Type 0 where
  pub operation_id : Bytes
  pub credential : ShellCredential
  pub conflict : Identity
  pub token : Bytes
  pub snapshot : LiveSnapshot

unfoldable pub resolve_receipt : Bytes → Bytes → Bytes → ResolveSharedResult → OperationReceipt
resolve_receipt shell operation fingerprint result = record {
  shell_id = shell;
  operation_id = operation;
  kind = ReceiptKind.resolve;
  request_fingerprint = fingerprint;
  attach = none;
  publish = none;
  prepare_pull = none;
  acknowledge = none;
  resolve = some result;
}

unfoldable pub is_resolve : ReceiptKind → Bool
is_resolve ReceiptKind.resolve = true
is_resolve _ = false

unfoldable pub resolve_again : Bytes → State → OperationReceipt → Step ResolveSharedResult
unfolding is_resolve
resolve_again fingerprint s r = do
  result ← receipt_result (is_resolve r.kind) fingerprint r r.resolve
  ok (s, result)

unfoldable pub changes_contain_identity : List LiveChange → Identity → Bool
changes_contain_identity cs i = contains i (map change_identity cs)

same_conflict : Option Conflict → Identity → Bytes → Bool
same_conflict none i token = false
same_conflict (some c) i token = c.identity == i && c.token == token

unfoldable pub resolvable : ShellState → ResolveSharedRequest → Bool
unfolding same_conflict
resolvable shell request =
    same_conflict shell.conflict request.conflict request.token
    && changes_contain_identity shell.unpublished_delta request.conflict
    && no_pending_kind shell.pending.kind

unfoldable pub pending_resolution :
    ℕ → Bytes → ResolveSharedRequest → List LiveChange → PendingTransition
pending_resolution head fingerprint request changes = record {
  kind = PendingKind.resolution;
  revision = head;
  fingerprint = fingerprint;
  token = request.token;
  conflict = some request.conflict;
  changes = clone_live_changes changes;
}

unfoldable pub resolve_result : ℕ → ResolveSharedRequest → List LiveChange → ResolveSharedResult
resolve_result head request changes = record {
  pending_revision = head;
  token = request.token;
  changes = clone_live_changes changes;
}

unfoldable pub record_resolve :
    ResolveSharedRequest
    → Bytes
    → State
    → ShellState
    → Bytes
    → List LiveChange
    → Step ResolveSharedResult
unfolding resolve_result
record_resolve request fingerprint s shell target changes =
    let result = resolve_result s.head_revision request changes in
    ok (
      append_receipt
          (record s {
            shells =
                insert request.credential.shell_id
                  (record shell {
                    pending = pending_resolution s.head_revision target request changes;
                    transition = ShellTransition.resolve;
                    behind = true;
                    last_active_revision = s.head_revision;
                  })
                  s.shells;
          })
          (resolve_receipt request.credential.shell_id request.operation_id fingerprint result),
      result,
    )

module _ (x : External) (registry : Registry) where
  unfoldable pub resolve_new :
      ResolveSharedRequest
      → Bytes
      → State
      → ShellState
      → List LiveIdentityState
      → Step ResolveSharedResult
  unfolding record_resolve
  resolve_new request fingerprint s shell observed = do
    guard (resolvable shell request) Error.conflict_requires_resolution
    seen ← or_else Error.conflict_requires_resolution (fingerprint_snapshot x (states_of observed))
    baseline ←
        or_else Error.conflict_requires_resolution
          (fingerprint_snapshot x (states_of shell.capture_baseline))
    guard (seen == baseline) Error.conflict_requires_resolution
    changes ← diff_snapshot (states_of observed) (states_of s.shared)
    target ← fingerprint_snapshot x (states_of s.shared)
    record_resolve request fingerprint s shell target changes

  unfoldable pub resolve_fingerprint : ResolveSharedRequest → List LiveIdentityState → Bytes
  resolve_fingerprint request observed =
      fingerprint_parts x (bytes "resolve")
        (Part.identity request.conflict ∷ Part.text request.token ∷ Part.states observed ∷ [])

  unfoldable pub resolve_known :
      ResolveSharedRequest
      → State
      → ShellState
      → List LiveIdentityState
      → Option OperationReceipt
      → Step ResolveSharedResult
  resolve_known request s shell observed (some r) =
      resolve_again (resolve_fingerprint request observed) s r
  resolve_known request s shell observed none =
      resolve_new request (resolve_fingerprint request observed) s shell observed

  -- The body of the transaction.
  unfoldable pub resolve_state : ResolveSharedRequest → State → Step ResolveSharedResult
  unfolding resolve_known
  resolve_state request s = do
    shell ← authorize_shell x s request.credential
    (seeded, s₁) ← recover (seed_registry_from_state registry s)
    (s₂, observed) ← admitted_snapshot seeded s₁ shell (clone_snapshot request.snapshot)
    resolve_known request s₂ shell observed
        (receipt_for s₂ request.credential.shell_id request.operation_id)

  unfoldable pub resolve_shared : ResolveSharedRequest → Bool → State → Step ResolveSharedResult
  resolve_shared request marked s = do
    validate_private_request request.operation_id request.credential
    guard
        (is_ok (validate_identity request.conflict)
          && is_ok (validate_token request.token)
          && is_ok (validate_live_snapshot request.snapshot))
        Error.conflict_requires_resolution
    with_transaction x marked (resolve_state request) s
