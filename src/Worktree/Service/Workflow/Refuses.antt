-- ===== src/Worktree/Service/Workflow/Refuses.antt =====
-- What Checkout of core/worktree/service.go refuses.
use zsh_pro.Prelude.{
  ◌≡◌, ap, Bool, true, false, List, ◌∷◌, if◌then◌else◌, ok, err, Result, ◌>>=◌, ◌>>◌, guard,
}
use zsh_pro.Data.Bytes.{Bytes, bytes_eq}
use zsh_pro.Live.Types.{LiveChange}
use zsh_pro.Live.Errors.{Error}
use zsh_pro.Live.Validate.{Checked}
use zsh_pro.Worktree.Registry.{Registry}
use zsh_pro.Worktree.State.{State}
use zsh_pro.Worktree.State.Shell.{is_empty}
use zsh_pro.Worktree.State.Validate.{valid_state_branch}
use zsh_pro.Worktree.Service.Digest.{External}
use zsh_pro.Worktree.Service.Transaction.{recovered, with_transaction}
use zsh_pro.Worktree.Service.Workflow.{Repository, workflow_changes}
use zsh_pro.Worktree.Service.Workflow.Branches.{
  transact, create_branch, leaving, arrive_from, checkout_state, checkout,
}

module _ {R : Type 0} (x : External) (repo : Repository R) (registry : Registry) where
  refused_when_dirty :
      (g : Checked) (o : Result Error (List LiveChange)) (k : Result Error State) (c : LiveChange)
      (cs : List LiveChange)
      → g ≡ ok tt
      → o ≡ ok (c ∷ cs)
      → (g >> (o >>= λ changes. guard (is_empty changes) Error.worktree_dirty >> k))
        ≡ err Error.worktree_dirty
  refused_when_dirty g o k c cs h e = rw (h, e)

  leaving_dirty :
      (r : R) (s : State) (c : LiveChange) (cs : List LiveChange)
      → s.materialized ≡ true
      → workflow_changes s ≡ ok (c ∷ cs)
      → leaving x repo registry r s ≡ err Error.worktree_dirty
  unfolding leaving
  leaving_dirty r s c cs m dirty =
      refused_when_dirty (guard s.materialized Error.unmaterialized) (workflow_changes s) _ c cs
        (ap (λ b. guard b Error.unmaterialized) m) dirty

  create_branch_refused :
      (r : R) (name : Bytes) (creates : Bool) (left : Result Error State) (e : Error)
      → left ≡ err e
      → (if creates then create_branch x repo registry r name left else (r, left)) ≡ (r, err e)
  unfolding create_branch
  create_branch_refused r name true left e h = rw (h)
  create_branch_refused r name false left e h = rw (h)

  transact_refused :
      (r : R) (name : Bytes) (marked : Bool) (s : State) (e : Error) (from : R × Result Error State)
      → from ≡ (r, err e)
      → transact x repo registry marked s (arrive_from x repo registry name from) ≡ (r, err e)
  unfolding transact arrive_from with_transaction
  transact_refused r name marked s e from h = rw (h)

  -- A checkout to a valid branch name is refused while the shared states of a materialized state
  -- differ from the committed ones, and then the repository is left as it is.
  pub checkout_dirty :
      (r : R) (name : Bytes) (creates marked : Bool) (s : State) (c : LiveChange)
      (cs : List LiveChange)
      → valid_state_branch name ≡ true
      → s.materialized ≡ true
      → workflow_changes s ≡ ok (c ∷ cs)
      → checkout x repo registry r name creates marked s ≡ (r, err Error.worktree_dirty)
  unfolding checkout checkout_state workflow_changes
  checkout_dirty r name creates marked s c cs valid m dirty = rw (valid) (
      transact_refused r name marked s Error.worktree_dirty _ (
        create_branch_refused r name creates (leaving x repo registry r (recovered marked s))
          Error.worktree_dirty (leaving_dirty r (recovered marked s) c cs m dirty)))
