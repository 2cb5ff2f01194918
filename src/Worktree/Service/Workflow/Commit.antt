-- ===== src/Worktree/Service/Workflow/Commit.antt =====
-- Commit: core/worktree/service.go.
use zsh_pro.Prelude.{
  Bool, true, false, not, ◌&&◌, Option, none, some, List, [], ◌∷◌, nat_eq, contains, if◌then◌else◌,
  ok, err, Result, ◌>>=◌, ◌>>◌, guard,
}
use zsh_pro.Data.Bytes.{Bytes, bytes_eq}
use zsh_pro.Live.Types.{LiveChange}
use zsh_pro.Live.Errors.{Error}
use zsh_pro.Activate.Build.Effective.{CommittedWorktree, new_committed_worktree, build_effective}
use zsh_pro.Worktree.Apply.{equal_live_states}
use zsh_pro.Worktree.Registry.{Registry}
use zsh_pro.Worktree.State.{State}
use zsh_pro.Worktree.State.Shell.{is_empty}
use zsh_pro.Worktree.State.Validate.{validate_committed, state_oid_re}
use zsh_pro.Worktree.Service.Digest.{External}
use zsh_pro.Worktree.Service.Admission.{seed_registry_from_state}
use zsh_pro.Worktree.Service.Transaction.{marshal_state, recovered}
use zsh_pro.Worktree.Service.Workflow.{
  WorktreeCommitResult, Repository, workflow_changes, workflow_overlay,
}

abbrev pub not_committed : WorktreeCommitResult
not_committed = record { committed = false; oid = []; conflict = false; recovery_required = false }

abbrev pub needs_recovery : WorktreeCommitResult → WorktreeCommitResult
needs_recovery result = record result { recovery_required = true }

-- What the transaction leaves: the new state or the error it returns, the result, and the error of
-- the repository.
pub record Committing (R : Type 0) : Type 0 where
  pub repository : R
  pub outcome : Result Error State
  pub result : WorktreeCommitResult
  pub repository_error : Option Error

-- What a call returns.
pub record CommitReturn (R : Type 0) : Type 0 where
  pub repository : R
  pub state : State
  pub result : WorktreeCommitResult
  pub error : Option Error

unfoldable pub commit_document : State → List LiveChange → Result Error CommittedWorktree
commit_document s changes = do
  document ← build_effective s.committed.source (workflow_overlay changes)
  guard (equal_live_states document.projection.states s.shared) Error.recovery_required
  ok document

-- The state that shows what the repository has committed.
unfoldable pub adopt_commit :
    Registry → State → Bytes → Result Error CommittedWorktree → Result Error State
adopt_commit registry s oid read = do
  guard (state_oid_re oid) Error.recovery_required
  exact ← read
  validate_committed exact
  guard (equal_live_states exact.projection.states s.shared) Error.recovery_required
  (seeded, s') ← seed_registry_from_state registry (record s {
    base_oid = oid;
    committed = new_committed_worktree exact.source exact.projection;
  })
  ok s'

module _ {R : Type 0} (repo : Repository R) (registry : Registry) where
  unfoldable pub adopted :
      R → State → WorktreeCommitResult → Option Error → Result Error State → Committing R
  adopted r s result problem (ok s') = record {
    repository = r;
    outcome = ok s';
    result = result;
    repository_error = problem;
  }
  adopted r s result problem (err e) = record {
    repository = r;
    outcome = ok s;
    result = needs_recovery result;
    repository_error = problem;
  }

  unfoldable pub refused : R → State → WorktreeCommitResult → Option Error → Committing R
  refused r s result none = record {
    repository = r;
    outcome = ok s;
    result = result;
    repository_error = none;
  }
  refused r s result (some e) = record {
    repository = r;
    outcome = err e;
    result = result;
    repository_error = some e;
  }

  unfoldable pub commit_outcome : State → R × WorktreeCommitResult × Option Error → Committing R
  unfolding adopted refused
  commit_outcome s (r, result, problem) =
      if result.committed
      then adopted r s result problem
          (adopt_commit registry s result.oid (repo.read_worktree_revision r result.oid))
      else refused r s result problem

  unfoldable pub early : R → Result Error State → Committing R
  early r outcome = record {
    repository = r;
    outcome = outcome;
    result = not_committed;
    repository_error = none;
  }

  unfoldable pub commit_document_of :
      R → State → Bytes → Result Error CommittedWorktree → Committing R
  unfolding early
  commit_document_of r s message (err e) = early r (err e)
  commit_document_of r s message (ok document) =
      commit_outcome s (repo.commit_worktree r s.branch s.base_oid document message)

  unfoldable pub commit_changes : R → State → Bytes → Result Error (List LiveChange) → Committing R
  unfolding early commit_document_of
  commit_changes r s message (err e) = early r (err e)
  commit_changes r s message (ok []) = early r (ok s)
  commit_changes r s message (ok (c ∷ cs)) =
      commit_document_of r s message (commit_document s (c ∷ cs))

  -- The body of the transaction.
  unfoldable pub commit_state : R → State → Bytes → Committing R
  unfolding commit_changes early
  commit_state r s message =
      if s.materialized
      then commit_changes r s message (workflow_changes s)
      else early r (err Error.unmaterialized)

unfoldable pub valid_message : Bytes → Bool
valid_message message = not (is_empty message) && not (contains 0 message)

module _ {R : Type 0} where
  -- Behind the transaction.
  unfoldable pub commit_return : State → Committing R → Result Error State → CommitReturn R
  commit_return s c (err e) =
      if c.result.committed
      then record {
        repository = c.repository;
        state = s;
        result = needs_recovery c.result;
        error = some Error.recovery_required;
      }
      else record { repository = c.repository; state = s; result = c.result; error = some e }
  commit_return s c (ok s') = record {
    repository = c.repository;
    state = s';
    result = c.result;
    error =
        if c.result.committed && c.result.recovery_required
        then some Error.recovery_required
        else c.repository_error;
  }

  -- The new state is stored if it is valid.
  unfoldable pub settle_commit : External → Bool → State → Committing R → CommitReturn R
  unfolding commit_return
  settle_commit x marked s c =
      commit_return s c
        (c.outcome >>= λ s'. marshal_state x (recovered marked s') >> ok (recovered marked s'))

  unfoldable pub commit :
      External → Repository R → Registry → R → Bool → State → Bytes → CommitReturn R
  commit x repo registry r marked s message =
      if valid_message message
      then settle_commit x marked s (commit_state repo registry r (recovered marked s) message)
      else record {
        repository = r;
        state = s;
        result = not_committed;
        error = some Error.invalid_message;
      }
