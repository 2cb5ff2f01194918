-- ===== src/Tests/Workflow.antt =====
-- The theorems on commits, checkouts and resets at the inputs of the module for shells.
use zsh_pro.Prelude.{◌≤◌, ◌≡◌, refl, true, none, [], ◌∷◌, ok, err}
use zsh_pro.Data.Bytes.{bytes}
use zsh_pro.Live.Errors.{Error}
use zsh_pro.Live.Values.{is_ok}
use zsh_pro.Activate.Build.Effective.{CommittedWorktree}
use zsh_pro.Worktree.State.Validate.{valid_state_branch}
use zsh_pro.Worktree.Service.Transaction.{Step, stored}
use zsh_pro.Worktree.Service.Workflow.{workflow_changes}
use zsh_pro.Worktree.Service.Workflow.Commit.{CommitReturn, commit}
use zsh_pro.Worktree.Service.Workflow.Adopts.{
  KeepsShared, IsBased, commit-KeepsShared, commit-IsBased,
}
use zsh_pro.Worktree.Service.Workflow.Branches.{quiet_shells, checkout, reset_hard}
use zsh_pro.Worktree.Service.Workflow.Replaces.{Shows}
use zsh_pro.Worktree.Service.Workflow.Arrives.{Arrived, checkout-Arrived, reset_hard-Shows}
use zsh_pro.Worktree.Service.Workflow.Refuses.{checkout_dirty}
use zsh_pro.Tests.Run.{run}
use zsh_pro.Tests.Shells.{outside, registry, repository, worktree, clean, vi, returned}

abbrev committed : CommitReturn (Unit {0})
committed = commit outside repository registry tt true worktree (bytes "share the editor")

commit_clean : committed.error ≡ none
unfolding run
commit_clean = refl

commit_done : committed.result.committed ≡ true
unfolding run
commit_done = refl

commit-KeepsShared_example : KeepsShared true worktree committed.state
commit-KeepsShared_example =
    commit-KeepsShared repository registry outside tt true worktree (bytes "share the editor")

commit-IsBased_example :
    IsBased
      (repository.read_worktree_revision committed.repository committed.result.oid)
      committed.result.oid
      committed.state
commit-IsBased_example =
    commit-IsBased repository registry outside tt true worktree (bytes "share the editor")
      commit_clean commit_done

-- The last call: from the state without changes.
abbrev moved : Step (Unit {0})
moved = (checkout outside repository registry tt (bytes "main") true true clean).1

moved_ok : is_ok moved ≡ true
unfolding run
moved_ok = refl

checkout-Arrived_example :
    ((workflow_changes clean ≡ ok []) × (quiet_shells clean.shells ≡ true))
    × Arrived outside repository registry
        (checkout outside repository registry tt (bytes "main") true true clean).0
        (bytes "main")
        (stored clean moved)
checkout-Arrived_example =
    checkout-Arrived outside repository registry tt (bytes "main") true true clean
      (stored clean moved) (returned clean tt moved moved_ok)

worktree_dirty : workflow_changes worktree ≡ ok (vi ∷ [])
unfolding run
worktree_dirty = refl

valid_main : valid_state_branch (bytes "main") ≡ true
unfolding run
valid_main = refl

checkout_dirty_example :
    checkout outside repository registry tt (bytes "main") true true worktree
    ≡ (tt, err Error.worktree_dirty)
checkout_dirty_example =
    checkout_dirty outside repository registry tt (bytes "main") true true worktree vi [] valid_main
      refl worktree_dirty

abbrev reset : Step (Unit {0})
reset = reset_hard outside repository registry tt true worktree

reset_ok : is_ok reset ≡ true
unfolding run
reset_ok = refl

reset_hard-Shows_example :
    ((document : CommittedWorktree) × (repository.read_worktree_revision tt worktree.base_oid
        ≡ ok document)
      × Shows worktree.branch worktree.base_oid document (stored worktree reset))
    × (worktree.head_revision ≤ (stored worktree reset).head_revision)
reset_hard-Shows_example =
    reset_hard-Shows outside repository registry tt true worktree (stored worktree reset)
      (returned worktree tt reset reset_ok)
