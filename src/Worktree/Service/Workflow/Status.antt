-- ===== src/Worktree/Service/Workflow/Status.antt =====
-- WorkflowStatus, Status and Diff: core/worktree/service.go, with the status of
-- core/model/worktree.go.
use zsh_pro.Prelude.{
  ℕ, suc, Bool, true, false, not, ◌||◌, Option, none, some, [], ◌∷◌, ◌==◌, nat_eq, ltb, length,
  if◌then◌else◌, ok, Result, ◌>>=◌, ◌>>◌, guard,
}
use zsh_pro.Data.Bytes.{Bytes, bytes_eq}
use zsh_pro.Data.Dict.{Dict, lookup, is_some}
use zsh_pro.Live.Errors.{Error}
use zsh_pro.Worktree.Overlay.{CategorizedDiff, categorize_diff}
use zsh_pro.Worktree.History.{valid_state_token}
use zsh_pro.Worktree.Registry.{Registry}
use zsh_pro.Worktree.State.{State, ShellState, RecoveredErrorCode}
use zsh_pro.Worktree.Service.Digest.{External, fingerprint_snapshot}
use zsh_pro.Worktree.Service.Transaction.{Step, with_transaction}
use zsh_pro.Worktree.Service.Publish.{states_of}
use zsh_pro.Worktree.Service.Workflow.{Repository, workflow_changes, repair_published_state}

pub record ShellWorktreeStatus : Type 0 where
  pub attached : Bool
  pub applied_revision : ℕ
  pub behind : Bool
  pub auto_apply : Bool
  pub conflict_count : ℕ

pub record WorktreeStatus : Type 0 where
  pub branch : Bytes
  pub base_oid : Bytes
  pub revision : ℕ
  pub dirty_count : ℕ
  pub conflict_count : ℕ
  pub shell : Option ShellWorktreeStatus

pub data AutoApplySource : Type 0 where
  from_default from_shell : AutoApplySource

pub record WorkflowStatus : Type 0 where
  pub worktree : WorktreeStatus
  pub persisted_default : Bool
  pub effective : Bool
  pub source : AutoApplySource

unfoldable pub count_conflicts : Dict Bytes ShellState → ℕ
count_conflicts [] = 0
count_conflicts ((id, shell) ∷ d) =
    let rest = count_conflicts d in if is_some shell.conflict then suc rest else rest

abbrev or_default : Option Bool → Bool → Bool
or_default none b = b
or_default (some b) c = b

has_recovered : RecoveredErrorCode → Bool
has_recovered RecoveredErrorCode.nothing = false
has_recovered _ = true

module _ (x : External) where
  shell_status : State → Option ShellState → Result Error (Option ShellWorktreeStatus)
  unfolding has_recovered
  shell_status s none = ok none
  shell_status s (some shell) = do
    applied ← fingerprint_snapshot x (states_of shell.applied_baseline)
    shared ← fingerprint_snapshot x (states_of s.shared)
    ok (
        some (record {
          attached = true;
          applied_revision = shell.applied_revision;
          behind =
              shell.behind
              || is_some shell.conflict
              || has_recovered shell.last_recovered_error
              || ltb shell.applied_revision s.head_revision
              || not (applied == shared);
          auto_apply = or_default shell.auto_apply_override s.auto_apply_default;
          conflict_count = if is_some shell.conflict then 1 else 0;
        }))

  unfoldable pub workflow_status_from_state : State → Bytes → Result Error WorktreeStatus
  unfolding shell_status
  workflow_status_from_state s id = do
    guard s.materialized Error.unmaterialized
    changes ← workflow_changes s
    shell ← shell_status s (lookup id s.shells)
    ok (record {
      branch = s.branch;
      base_oid = s.base_oid;
      revision = s.head_revision;
      dirty_count = length changes;
      conflict_count = count_conflicts s.shells;
      shell = shell;
    })

override_of : Option ShellState → Option Bool
override_of none = none
override_of (some shell) = shell.auto_apply_override

source_of : Option Bool → AutoApplySource
source_of none = AutoApplySource.from_default
source_of (some b) = AutoApplySource.from_shell

-- A service without a repository reads the state as it is stored.
module _ {R : Type 0} (x : External) (repo : Option (Repository R)) (registry : Registry)
    (r : R) where
  unfoldable pub repair_body : Repository R → State → Step (Unit {0})
  repair_body repository s = do
    guard s.materialized Error.unmaterialized
    s' ← repair_published_state repository registry r s
    ok (s', tt)

  unfoldable pub repair_published_ref : Bool → State → Step (Unit {0})
  unfolding repair_body
  repair_published_ref marked s = elim repo [
    | none ↦ ok (s, tt)
    | some repository ↦ with_transaction x marked (repair_body repository) s
  ]

  unfoldable pub workflow_status : Bytes → Bool → State → Step WorkflowStatus
  unfolding override_of source_of
  workflow_status id marked s = do
    guard (id == [] || valid_state_token id) Error.invalid_request
    (s', done) ← repair_published_ref marked s
    status ← workflow_status_from_state x s' id
    let chosen = override_of (lookup id s'.shells)
    ok (
      s',
      record {
        worktree = status;
        persisted_default = s'.auto_apply_default;
        effective = or_default chosen s'.auto_apply_default;
        source = source_of chosen;
      },
    )

  unfoldable pub status : Bytes → Bool → State → Step WorktreeStatus
  status id marked s = do (s', answer) ← workflow_status id marked s; ok (s', answer.worktree)

  unfoldable pub worktree_diff : Bool → State → Step CategorizedDiff
  worktree_diff marked s = do
    (s', done) ← repair_published_ref marked s
    guard s'.materialized Error.unmaterialized
    changes ← workflow_changes s'
    categorized ← categorize_diff changes
    ok (s', categorized)
