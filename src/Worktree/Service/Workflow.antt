-- ===== src/Worktree/Service/Workflow.antt =====
-- The shared parts of the workflow operations: core/worktree/service.go. The Git repository is a
-- parameter, with a state `R` of its own.
pub mod Status
pub mod Commit
pub mod Adopts
pub mod Branches
pub mod Replaces
pub mod Arrives
pub mod Refuses
pub mod Materialize
use zsh_pro.Prelude.{
  ℕ, zero, suc, ◌+◌, ◌/◌, ◌%◌, Bool, true, false, not, ◌&&◌, ◌||◌, Option, none, some, List, [],
  ◌∷◌, ◌++◌, ◌==◌, nat_eq, ltb, map, if◌then◌else◌, ok, err, Result, ◌>>=◌, ◌>>◌, guard,
}
use zsh_pro.Data.Bytes.{Bytes, bytes, bytes_eq}
use zsh_pro.Data.Dict.{Dict, is_some}
use zsh_pro.Live.Types.{LiveIdentityState, LiveChange, LiveChangeKind, LiveValue, OverlayEntry}
use zsh_pro.Live.Errors.{Error}
use zsh_pro.Live.Validate.{Checked}
use zsh_pro.Live.Values.{clone_live_value, is_ok}
use zsh_pro.Live.Normalize.{clone_live_changes, clone_live_states, next_revision}
use zsh_pro.Activate.Build.Effective.{CommittedWorktree, new_committed_worktree}
use zsh_pro.Worktree.Diff.{diff_snapshot}
use zsh_pro.Worktree.Apply.{is_remove, equal_live_states}
use zsh_pro.Worktree.History.{History, StateEvent, compact_state_history}
use zsh_pro.Worktree.Registry.{Registry}
use zsh_pro.Worktree.State.{State, ShellState}
use zsh_pro.Worktree.State.Validate.{validate_committed, state_oid_re}
use zsh_pro.Worktree.Service.Admission.{seed_registry_from_state}
use zsh_pro.Worktree.Service.Transaction.{recover}
use zsh_pro.Worktree.Service.Publish.{states_of}

pub record WorktreeCommitResult : Type 0 where
  pub committed : Bool
  pub oid : Bytes
  pub conflict : Bool
  pub recovery_required : Bool

-- `Repository`: the reads leave the state as it is, the others return the next one.
pub record Repository (R : Type 0) : Type 0 where
  pub branches : R → Result Error (List Bytes)
  pub resolve_worktree_revision : R → Bytes → Result Error Bytes
  pub read_worktree_revision : R → Bytes → Result Error CommittedWorktree
  pub create_from : R → Bytes → Bytes → R × Checked
  pub commit_worktree :
      R → Bytes → Bytes → CommittedWorktree → Bytes → R × WorktreeCommitResult × Option Error

unfoldable pub workflow_changes : State → Result Error (List LiveChange)
workflow_changes s = diff_snapshot (states_of s.committed.projection.states) (states_of s.shared)

-- The zero value of Go.
abbrev no_live_value : LiveValue
no_live_value = record { present = false; scalar = none; list = none; option = none }

unfoldable pub workflow_entry : LiveChange → OverlayEntry
workflow_entry c =
    if is_remove c.kind
    then record { identity = c.identity; value = no_live_value; tombstone = true }
    else record { identity = c.identity; value = clone_live_value c.value; tombstone = false }

unfoldable pub workflow_overlay : List LiveChange → List OverlayEntry
workflow_overlay cs = map workflow_entry cs

-- An exact revision that the service accepts.
unfoldable pub read_exact : Result Error CommittedWorktree → Result Error CommittedWorktree
read_exact exact = recover (exact >>= λ c. validate_committed c >> ok c)

-- The digits of a number; a uint64 has at most twenty.
decimal_in : ℕ → ℕ → Bytes
decimal_in zero n = []
decimal_in (suc fuel) n =
    let high = decimal_in fuel (n / 10) in
    let digit = 48 + n % 10 in (if ltb n 10 then [] else high) ++ digit ∷ []

unfoldable pub decimal : ℕ → Bytes
unfolding decimal_in
decimal n = decimal_in 20 n

unfoldable pub workflow_event : Bytes → ℕ → List LiveChange → StateEvent
workflow_event operation next changes = record {
  revision = next;
  operation_id = bytes "workflow-" ++ operation ++ b':' ∷ decimal next;
  shell_id = [];
  changes = clone_live_changes changes;
}

-- `if len(changes) != 0 { ... }`
unfoldable pub record_changes : Bytes → List LiveChange → State → Result Error State
record_changes operation [] s = ok s
record_changes operation (c ∷ cs) s = do
  next ← next_revision s.head_revision
  history ← compact_state_history (record s.history {
    head_revision = next;
    events = s.events ++ workflow_event operation next (c ∷ cs) ∷ [];
  })
  ok (record s { history = history })

refresh_shell : ℕ → List LiveIdentityState → ShellState → ShellState
refresh_shell head shared shell = record shell {
  behind =
      ltb shell.applied_revision head
      || not (equal_live_states shell.applied_baseline shared)
      || is_some shell.conflict;
  last_active_revision = head;
}

unfoldable pub refresh_shells :
    ℕ → List LiveIdentityState → Dict Bytes ShellState → Dict Bytes ShellState
unfolding refresh_shell
refresh_shells head shared [] = []
refresh_shells head shared ((id, shell) ∷ d) =
    (id, refresh_shell head shared shell) ∷ refresh_shells head shared d

unfoldable pub replace_workflow_generation :
    Registry → State → Bytes → Bytes → CommittedWorktree → Bytes → Result Error State
replace_workflow_generation registry s branch oid document operation =
    let target = clone_live_states document.projection.states in
    do
      changes ← diff_snapshot (states_of s.shared) (states_of target)
      (seeded, s₁) ← recover (
          seed_registry_from_state registry (record s {
            branch = branch;
            base_oid = oid;
            committed = new_committed_worktree document.source document.projection;
            shared = target;
          }))
      s₂ ← record_changes operation changes s₁
      ok (record s₂ { shells = refresh_shells s₂.head_revision s₂.shared s₂.shells })

module _ {R : Type 0} (repo : Repository R) (registry : Registry) (r : R) where
  -- The branch has moved to an object that shows the shared state.
  adopt_published : State → Bytes → Result Error State
  adopt_published s oid = do
    guard (state_oid_re oid) Error.recovery_required
    exact ← read_exact (repo.read_worktree_revision r oid)
    guard (equal_live_states exact.projection.states s.shared) Error.recovery_required
    (seeded, s') ← recover (
        seed_registry_from_state registry (record s {
          base_oid = oid;
          committed = new_committed_worktree exact.source exact.projection;
        }))
    ok s'

  unfoldable pub repair_published_state : State → Result Error State
  unfolding adopt_published
  repair_published_state s = do
    oid ← repo.resolve_worktree_revision r s.branch
    if oid == s.base_oid then ok s else adopt_published s oid
