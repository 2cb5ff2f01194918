-- ===== src/Worktree/Service/Publish.antt =====
-- Publish: core/worktree/service.go.
pub mod Replay
pub mod Effect
use zsh_pro.Prelude.{
  ℕ, Bool, true, false, not, ◌&&◌, ◌||◌, Option, none, some, List, [], ◌∷◌, ◌++◌, ◌==◌, nat_eq, ltb,
  leb, if◌then◌else◌, contains, map, select, ok, err, Result, ◌>>=◌, ◌>>◌, guard,
}
use zsh_pro.Data.Bytes.{Bytes, bytes, bytes_eq}
use zsh_pro.Data.Dict.{insert, is_some}
use zsh_pro.Live.Types.{Identity, identity_eq, LiveIdentityState, LiveSnapshot, LiveChange}
use zsh_pro.Live.Errors.{Error}
use zsh_pro.Live.Values.{equal_live_value}
use zsh_pro.Live.Normalize.{clone_live_changes, next_revision}
use zsh_pro.Worktree.Diff.{diff_snapshot}
use zsh_pro.Worktree.Apply.{is_remove, validate_changes, apply_state_changes}
use zsh_pro.Worktree.History.{History, StateEvent, compact_state_history}
use zsh_pro.Worktree.Transition.{ShellTransition}
use zsh_pro.Worktree.Registry.{Registry}
use zsh_pro.Worktree.State.{
  State, ShellState, Conflict, ConflictKind, PendingKind, PublishResult, OperationReceipt,
  ReceiptKind,
}
use zsh_pro.Worktree.State.Credential.{ShellCredential}
use zsh_pro.Worktree.State.Shell.{is_empty}
use zsh_pro.Worktree.Service.Digest.{
  External, Part, fingerprint_parts, new_resolution_token, authorize_shell,
  validate_private_request,
}
use zsh_pro.Worktree.Service.Receipts.{receipt_for, append_receipt}
use zsh_pro.Worktree.Service.Admission.{seed_registry_from_state, admitted_changes}
use zsh_pro.Worktree.Service.Transaction.{Step, with_transaction, receipt_result, recover}

pub record PublishRequest : Type 0 where
  pub operation_id : Bytes
  pub credential : ShellCredential
  pub acknowledged_revision : ℕ
  pub delta : List LiveChange

abbrev pub states_of : List LiveIdentityState → LiveSnapshot
states_of ss = record { byte_size = 0; states = ss }

abbrev pub change_identity : LiveChange → Identity
change_identity c = c.identity

unfoldable pub no_pending_kind : PendingKind → Bool
no_pending_kind PendingKind.nothing = true
no_pending_kind _ = false

-- The identities that the events after a revision change.
unfoldable pub changed_identities_after : List StateEvent → ℕ → List Identity
changed_identities_after [] revision = []
changed_identities_after (e ∷ es) revision =
    let rest = changed_identities_after es revision in
    if leb e.revision revision then rest else map change_identity e.changes ++ rest

-- Does the first state of the change's identity hold what the change makes of it?
unfoldable pub change_matches_states : LiveChange → List LiveIdentityState → Bool
change_matches_states c [] = is_remove c.kind
change_matches_states c (s ∷ ss) =
    let rest = change_matches_states c ss in
    if not (s.identity == c.identity)
    then rest
    else if is_remove c.kind
    then false
    else equal_live_value c.identity.kind c.value s.value

-- The loop over the changes that the shell has observed: those that the shared state does not
-- show yet are accepted, or lost where another change came before.
unfoldable pub accepted_of :
    Bool → List Identity → List LiveIdentityState → List LiveChange → List LiveChange
accepted_of gap remote shared =
    select (λ c.
      not (change_matches_states c shared) && not (gap || contains (change_identity c) remote))

unfoldable pub losing_of :
    Bool → List Identity → List LiveIdentityState → List LiveChange → List LiveChange
losing_of gap remote shared =
    select
      (λ c. not (change_matches_states c shared) && (gap || contains (change_identity c) remote))

unfoldable pub publish_event : PublishRequest → ℕ → List LiveChange → StateEvent
publish_event request revision accepted = record {
  revision = revision;
  operation_id = request.operation_id;
  shell_id = request.credential.shell_id;
  changes = clone_live_changes accepted;
}

-- `if len(accepted) != 0 { ... }`
unfoldable pub publish_accepted : State → PublishRequest → List LiveChange → Result Error State
publish_accepted s request [] = ok s
publish_accepted s request (c ∷ cs) = do
  next ← next_revision s.head_revision
  shared ← apply_state_changes s.shared (c ∷ cs)
  history ← compact_state_history (record s.history {
    head_revision = next;
    events = s.events ++ publish_event request next (c ∷ cs) ∷ [];
  })
  ok (record s { shared = shared; history = history })

unfoldable pub conflict_of : PublishRequest → Bool → ℕ → Bytes → LiveChange → Conflict
conflict_of request gap head token c = record {
  kind = if gap then ConflictKind.history_gap else ConflictKind.overlap;
  identity = c.identity;
  base_revision = request.acknowledged_revision;
  shared_revision = head;
  token = token;
}

-- The shell's own part of a publication; `losing` is what the shell could not publish.
unfoldable pub publish_shell :
    ShellState
    → PublishRequest
    → List LiveIdentityState
    → Bool
    → ℕ
    → Bytes
    → List LiveChange
    → ShellState
publish_shell shell request observed gap head token [] = record shell {
  transition = ShellTransition.publish;
  capture_baseline = observed;
  behind = ltb shell.applied_revision head || is_some shell.conflict;
  last_active_revision = head;
}
publish_shell shell request observed gap head token (c ∷ cs) = record shell {
  conflict = some (conflict_of request gap head token c);
  unpublished_delta = clone_live_changes (c ∷ cs);
  transition = ShellTransition.unpublished;
  capture_baseline = observed;
  behind = true;
  last_active_revision = head;
}

unfoldable pub publish_result :
    PublishRequest → Bool → ℕ → Bytes → List LiveChange → List LiveChange → PublishResult
publish_result request gap head token accepted losing = record {
  shared_revision = head;
  accepted = map change_identity accepted;
  conflicts = map (conflict_of request gap head token) losing;
}

unfoldable pub publish_receipt : Bytes → Bytes → Bytes → PublishResult → OperationReceipt
publish_receipt shell operation fingerprint result = record {
  shell_id = shell;
  operation_id = operation;
  kind = ReceiptKind.publish;
  request_fingerprint = fingerprint;
  attach = none;
  publish = some result;
  prepare_pull = none;
  acknowledge = none;
  resolve = none;
}

unfoldable pub is_publish : ReceiptKind → Bool
is_publish ReceiptKind.publish = true
is_publish _ = false

unfoldable pub publish_again : Bytes → State → OperationReceipt → Step PublishResult
unfolding is_publish
publish_again fingerprint s r = do
  result ← receipt_result (is_publish r.kind) fingerprint r r.publish
  ok (s, result)

-- The guards on a request that is not a repetition.
unfoldable pub publishable : ShellState → PublishRequest → Result Error (Unit {0})
publishable shell request = do
  guard
      (no_pending_kind shell.pending.kind
        && request.acknowledged_revision == shell.applied_revision
        && not (shell.applied_revision == 0))
      Error.needs_reconcile
  guard (not (is_some shell.conflict) && is_empty shell.unpublished_delta)
      Error.conflict_requires_resolution

module _ (x : External) (registry : Registry) where
  -- What follows once the accepted changes are shared: `s` is the state after them.
  unfoldable pub record_publish :
      PublishRequest
      → Bytes
      → ShellState
      → List LiveIdentityState
      → Bool
      → List LiveChange
      → List LiveChange
      → State
      → State × PublishResult
  unfolding publish_shell
  record_publish request fingerprint shell observed gap accepted losing s =
      let token =
        new_resolution_token x (bytes "conflict") request.operation_id fingerprint
          s.head_revision in
      let result = publish_result request gap s.head_revision token accepted losing in
      (
        append_receipt
            (record s {
              shells =
                  insert request.credential.shell_id
                    (publish_shell shell request observed gap s.head_revision token losing)
                    s.shells;
            })
            (publish_receipt request.credential.shell_id request.operation_id fingerprint result),
        result,
      )

  unfoldable pub publish_new : PublishRequest → Bytes → State → ShellState → Step PublishResult
  publish_new request fingerprint s shell = do
    publishable shell request
    (seeded, s₁) ← recover (seed_registry_from_state registry s)
    validate_changes (clone_live_changes request.delta)
    (s₂, admitted) ← admitted_changes seeded s₁ shell (clone_live_changes request.delta)
    observed ← apply_state_changes shell.capture_baseline admitted
    semantic ← diff_snapshot (states_of shell.capture_baseline) (states_of observed)
    let gap = ltb request.acknowledged_revision s₂.compaction_floor
    let remote = changed_identities_after s₂.events request.acknowledged_revision
    let accepted = accepted_of gap remote s₂.shared semantic
    let losing = losing_of gap remote s₂.shared semantic
    s₃ ← publish_accepted s₂ request accepted
    ok (record_publish request fingerprint shell observed gap accepted losing s₃)

  unfoldable pub publish_fingerprint : PublishRequest → Bytes
  publish_fingerprint request = fingerprint_parts x (bytes "publish") (
      Part.number request.acknowledged_revision
      ∷ Part.changes (clone_live_changes request.delta)
      ∷ [])

  unfoldable pub publish_known :
      PublishRequest → State → ShellState → Option OperationReceipt → Step PublishResult
  publish_known request s shell (some r) = publish_again (publish_fingerprint request) s r
  publish_known request s shell none = publish_new request (publish_fingerprint request) s shell

  -- The body of the transaction.
  unfoldable pub publish_state : PublishRequest → State → Step PublishResult
  unfolding publish_known
  publish_state request s = do
    shell ← authorize_shell x s request.credential
    publish_known request s shell (receipt_for s request.credential.shell_id request.operation_id)

  unfoldable pub publish : PublishRequest → Bool → State → Step PublishResult
  publish request marked s = do
    validate_private_request request.operation_id request.credential
    validate_changes request.delta
    with_transaction x marked (publish_state request) s
