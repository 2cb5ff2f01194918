-- ===== src/Worktree/Service/Workflow/Branches.antt =====
-- Branches, Branch, Checkout, ResetHard and SetAutoApplyDefault: core/worktree/service.go.
use zsh_pro.Prelude.{
  Bool, true, not, ◌&&◌, List, [], ◌∷◌, nat_eq, if◌then◌else◌, ok, err, Result, ◌>>=◌, ◌>>◌, guard,
}
use zsh_pro.Data.Bytes.{Bytes, bytes, bytes_eq, bytes_lt}
use zsh_pro.Data.Dict.{Dict, is_some}
use zsh_pro.Data.Sort.{sort}
use zsh_pro.Live.Errors.{Error}
use zsh_pro.Live.Validate.{Checked}
use zsh_pro.Worktree.Registry.{Registry}
use zsh_pro.Worktree.State.{State, ShellState}
use zsh_pro.Worktree.State.Shell.{is_empty}
use zsh_pro.Worktree.State.Validate.{valid_state_branch, state_oid_re}
use zsh_pro.Worktree.Service.Digest.{External}
use zsh_pro.Worktree.Service.Transaction.{Step, recovered, with_transaction}
use zsh_pro.Worktree.Service.Publish.{no_pending_kind}
use zsh_pro.Worktree.Service.Workflow.{
  Repository, workflow_changes, read_exact, repair_published_state, replace_workflow_generation,
}

unfoldable pub quiet_shell : ShellState → Bool
quiet_shell shell =
    not (is_some shell.conflict)
    && is_empty shell.unpublished_delta
    && no_pending_kind shell.pending.kind

unfoldable pub quiet_shells : Dict Bytes ShellState → Bool
quiet_shells [] = true
quiet_shells ((id, shell) ∷ d) = quiet_shell shell && quiet_shells d

unfoldable pub set_auto_apply_default : External → Bool → Bool → State → Step (Unit {0})
set_auto_apply_default x enabled marked = with_transaction x marked (λ s. do
  guard s.materialized Error.unmaterialized
  ok (record s { auto_apply_default = enabled }, tt))

module _ {R : Type 0} (x : External) (repo : Repository R) (registry : Registry) where
  unfoldable pub list_branches : R → State → Step (List Bytes)
  list_branches r s = do
    guard s.materialized Error.unmaterialized
    s' ← repair_published_state repo registry r s
    names ← repo.branches r
    ok (s', names)

  -- The names are sorted behind the transaction.
  unfoldable pub branches : R → Bool → State → Step (List Bytes)
  unfolding list_branches
  branches r marked s = do
    (s', names) ← with_transaction x marked (list_branches r) s
    ok (s', sort bytes_lt names)

  -- The transaction around what the repository has done, with the state before its projection.
  unfoldable pub transact : Bool → State → R × Result Error State → R × Step (Unit {0})
  transact marked s (r, outcome) =
      (r, with_transaction x marked (λ _. outcome >>= λ s'. ok (s', tt)) s)

  unfoldable pub created : State → R × Checked → R × Result Error State
  created s (r, done) = (r, done >> ok s)

  unfoldable pub create_branch : R → Bytes → Result Error State → R × Result Error State
  unfolding created
  create_branch r branch (err e) = (r, err e)
  create_branch r branch (ok s) = created s (repo.create_from r branch s.base_oid)

  unfoldable pub branch_state : R → Bytes → State → R × Result Error State
  unfolding create_branch
  branch_state r branch s =
      create_branch r branch
        (do guard s.materialized Error.unmaterialized; repair_published_state repo registry r s)

  unfoldable pub create : R → Bytes → Bool → State → R × Step (Unit {0})
  unfolding transact
  create r branch marked s =
      if valid_state_branch branch
      then transact marked s (branch_state r branch (recovered marked s))
      else (r, err Error.invalid_branch)

  -- Nothing that a shell or the shared state holds may be lost.
  unfoldable pub leaving : R → State → Result Error State
  leaving r s = do
    guard s.materialized Error.unmaterialized
    changes ← workflow_changes s
    guard (is_empty changes) Error.worktree_dirty
    guard (quiet_shells s.shells) Error.conflict_requires_resolution
    repair_published_state repo registry r s

  unfoldable pub arrive : R → Bytes → State → Result Error State
  arrive r branch s = do
    oid ← repo.resolve_worktree_revision r branch
    guard (state_oid_re oid) Error.recovery_required
    target ← read_exact (repo.read_worktree_revision r oid)
    replace_workflow_generation registry s branch oid target (bytes "checkout")

  unfoldable pub arrive_from : Bytes → R × Result Error State → R × Result Error State
  arrive_from branch (r, left) = (r, left >>= arrive r branch)

  unfoldable pub checkout_state : R → Bytes → Bool → State → R × Result Error State
  unfolding create_branch arrive_from
  checkout_state r branch creates s =
      let left = leaving r s in
      arrive_from branch (if creates then create_branch r branch left else (r, left))

  unfoldable pub checkout : R → Bytes → Bool → Bool → State → R × Step (Unit {0})
  unfolding transact
  checkout r branch creates marked s =
      if valid_state_branch branch
      then transact marked s (checkout_state r branch creates (recovered marked s))
      else (r, err Error.invalid_branch)

  unfoldable pub reset_state : R → State → Step (Unit {0})
  reset_state r s = do
    guard s.materialized Error.unmaterialized
    target ← read_exact (repo.read_worktree_revision r s.base_oid)
    s' ← replace_workflow_generation registry s s.branch s.base_oid target (bytes "reset")
    ok (s', tt)

  unfoldable pub reset_hard : R → Bool → State → Step (Unit {0})
  reset_hard r marked = with_transaction x marked (reset_state r)
