-- ===== src/Worktree/State.antt =====
-- The canonical state: core/worktree/state.go, with the results and conflicts of
-- core/model/worktree.go that it keeps.
pub mod Credential
pub mod Shell
pub mod Receipts
pub mod Validate
use zsh_pro.Prelude.{ℕ, Bool, Option, List}
use zsh_pro.Data.Bytes.{Bytes}
use zsh_pro.Data.Dict.{Dict}
use zsh_pro.Live.Types.{Identity, LiveIdentityState, LiveChange}
use zsh_pro.Activate.Build.Effective.{CommittedWorktree}
use zsh_pro.Worktree.History.{History}
use zsh_pro.Worktree.Transition.{ShellTransition}
use zsh_pro.Worktree.Registry.{Exclusion}

pub data ConflictKind : Type 0 where
  overlap history_gap : ConflictKind
  unknown : Bytes → ConflictKind

pub record Conflict : Type 0 where
  pub kind : ConflictKind
  pub identity : Identity
  pub base_revision : ℕ
  pub shared_revision : ℕ
  pub token : Bytes

pub record AttachResult : Type 0 where
  pub revision : ℕ
  pub attached : Bool
  pub reconcile_required : Bool
  pub exclusions : List Exclusion

pub record PublishResult : Type 0 where
  pub shared_revision : ℕ
  pub accepted : List Identity
  pub conflicts : List Conflict

pub record PreparePullResult : Type 0 where
  pub pending_revision : ℕ
  pub token : Bytes
  pub changes : List LiveChange

pub record AcknowledgeResult : Type 0 where
  pub applied_revision : ℕ
  pub acknowledged : Bool

pub record ResolveSharedResult : Type 0 where
  pub pending_revision : ℕ
  pub token : Bytes
  pub changes : List LiveChange

pub data AttachState : Type 0 where
  at_head clean_reconcile : AttachState
  unknown : Bytes → AttachState

-- `nothing` is PendingNone, the empty string.
pub data PendingKind : Type 0 where
  nothing pull resolution : PendingKind
  unknown : Bytes → PendingKind

-- `nothing` is the empty string.
pub data RecoveredErrorCode : Type 0 where
  nothing lock_unavailable malformed_state persistence apply : RecoveredErrorCode
  unknown : Bytes → RecoveredErrorCode

-- A fingerprint is the 32 bytes of a digest.
pub record PendingTransition : Type 0 where
  pub kind : PendingKind
  pub revision : ℕ
  pub fingerprint : Bytes
  pub token : Bytes
  pub conflict : Option Identity
  pub changes : List LiveChange

pub record ShellState : Type 0 where
  pub capability_verifier : Bytes
  pub attach_state : AttachState
  pub attached_revision : ℕ
  pub applied_revision : ℕ
  pub applied_baseline : List LiveIdentityState
  pub capture_baseline : List LiveIdentityState
  pub unpublished_delta : List LiveChange
  pub present_at_attach : List Identity
  pub exclusions : List Exclusion
  pub transition : ShellTransition
  pub pending : PendingTransition
  pub behind : Bool
  pub auto_apply_override : Option Bool
  pub conflict : Option Conflict
  pub last_recovered_error : RecoveredErrorCode
  pub last_active_revision : ℕ

pub data ReceiptKind : Type 0 where
  attach publish prepare_pull acknowledge resolve : ReceiptKind
  unknown : Bytes → ReceiptKind

pub record OperationReceipt : Type 0 where
  pub shell_id : Bytes
  pub operation_id : Bytes
  pub kind : ReceiptKind
  pub request_fingerprint : Bytes
  pub attach : Option AttachResult
  pub publish : Option PublishResult
  pub prepare_pull : Option PreparePullResult
  pub acknowledge : Option AcknowledgeResult
  pub resolve : Option ResolveSharedResult

-- The head revision, the compaction and the events stand in `history`.
pub record State : Type 0 where
  pub schema_version : ℕ
  pub materialized : Bool
  pub branch : Bytes
  pub base_oid : Bytes
  pub committed : CommittedWorktree
  pub auto_apply_default : Bool
  pub admitted_identities : List Identity
  pub shared : List LiveIdentityState
  pub history : History
  pub open history use *
  pub shells : Dict Bytes ShellState
  pub operation_receipts : List OperationReceipt
  pub admitted_identities_missing : Bool
