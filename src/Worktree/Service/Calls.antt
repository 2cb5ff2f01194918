-- ===== src/Worktree/Service/Calls.antt =====
-- The operations of the service as steps of the stored state, in any order:
-- core/worktree/service.go.
pub mod Valid
pub mod Touches
pub mod Isolates
use zsh_pro.Prelude.{
  ℕ, ◌≡◌, refl, sym, ap, ◌∙◌, subst, Bool, true, false, Option, none, some, List, ◌==◌,
  if◌then◌else◌, ok, err, Result, ◌>>=◌, ◌>>◌, guard, step-returns, check-returns, ok-injective,
  choice-gives, inl, inr, ◌⊎◌, arith, not, ◌||◌,
}
use zsh_pro.Data.Bytes.{Bytes, bytes_eq}
use zsh_pro.Live.Errors.{Error}
use zsh_pro.Live.Validate.{validate_live_snapshot, validate_identity}
use zsh_pro.Live.Values.{is_ok}
use zsh_pro.Activate.Build.Effective.{CommittedWorktree}
use zsh_pro.Worktree.Apply.{validate_changes}
use zsh_pro.Worktree.Registry.{Registry}
use zsh_pro.Worktree.State.{
  State, AttachResult, PublishResult, PreparePullResult, ResolveSharedResult, AcknowledgeResult,
}
use zsh_pro.Worktree.State.Validate.{validate_state, valid_state_branch}
use zsh_pro.Worktree.Service.Digest.{External, validate_private_request}
use zsh_pro.Worktree.Service.Transaction.{Step, with_transaction, marshal_state}
use zsh_pro.Worktree.Service.Transaction.Laws.{with_transaction-returns, marshal_state-IsValid}
use zsh_pro.Worktree.Service.Attach.{AttachRequest, attach_shell}
use zsh_pro.Worktree.Service.Publish.{PublishRequest, publish}
use zsh_pro.Worktree.Service.Pull.{PreparePullRequest, prepare_pull}
use zsh_pro.Worktree.Service.Resolve.{ResolveSharedRequest, resolve_shared}
use zsh_pro.Worktree.Service.Acknowledge.{AcknowledgeRequest, acknowledge}
use zsh_pro.Worktree.Service.Workflow.{Repository}
use zsh_pro.Worktree.Service.Workflow.Commit.{
  commit, CommitReturn, settle_commit, commit_return, Committing,
}
use zsh_pro.Worktree.Service.Workflow.Branches.{
  branches, create, checkout, reset_hard, set_auto_apply_default,
}
use zsh_pro.Worktree.Service.Workflow.Status.{repair_published_ref}
use zsh_pro.Worktree.Service.Workflow.Materialize.{materialize}

module _ {R : Type 0} (x : External) (repo : Repository R)
    (deep_equal : CommittedWorktree → CommittedWorktree → Bool) where
  -- A call that stores a state. The registry, the state of the repository and the marker of a
  -- recovered write are those of the moment. What WorkflowStatus, Status and Diff store is what the repair before them stores.
  pub data Call : State → State → Type 0 where
    attaching :
        {s s' : State} {a : AttachResult} (marked : Bool) (registry : Registry)
        (request : AttachRequest)
        → attach_shell x registry request marked s ≡ ok (s', a)
        → Call s s'
    publishing :
        {s s' : State} {a : PublishResult} (marked : Bool) (registry : Registry)
        (request : PublishRequest)
        → publish x registry request marked s ≡ ok (s', a)
        → Call s s'
    preparing :
        {s s' : State} {a : PreparePullResult} (marked : Bool) (request : PreparePullRequest)
        → prepare_pull x request marked s ≡ ok (s', a)
        → Call s s'
    resolving :
        {s s' : State} {a : ResolveSharedResult} (marked : Bool) (registry : Registry)
        (request : ResolveSharedRequest)
        → resolve_shared x registry request marked s ≡ ok (s', a)
        → Call s s'
    acknowledging :
        {s s' : State} {a : AcknowledgeResult} (marked : Bool) (registry : Registry)
        (request : AcknowledgeRequest)
        → acknowledge x registry request marked s ≡ ok (s', a)
        → Call s s'
    materializing :
        {s s' : State} (marked : Bool) (registry : Registry) (branch oid : Bytes)
        (committed : CommittedWorktree)
        → materialize x registry deep_equal branch oid committed marked s ≡ ok (s', tt)
        → Call s s'
    listing :
        {s s' : State} {a : List Bytes} (marked : Bool) (registry : Registry) (r : R)
        → branches x repo registry r marked s ≡ ok (s', a)
        → Call s s'
    creating :
        {s s' : State} (marked : Bool) (registry : Registry) (r : R) (branch : Bytes)
        → (create x repo registry r branch marked s).1 ≡ ok (s', tt)
        → Call s s'
    moving :
        {s s' : State} (marked : Bool) (registry : Registry) (r : R) (branch : Bytes)
        (creates : Bool)
        → (checkout x repo registry r branch creates marked s).1 ≡ ok (s', tt)
        → Call s s'
    resetting :
        {s s' : State} (marked : Bool) (registry : Registry) (r : R)
        → reset_hard x repo registry r marked s ≡ ok (s', tt)
        → Call s s'
    defaulting :
        {s s' : State} (marked : Bool) (enabled : Bool)
        → set_auto_apply_default x enabled marked s ≡ ok (s', tt)
        → Call s s'
    repairing :
        {s s' : State} (marked : Bool) (registry : Registry) (r : R)
        → repair_published_ref x (some repo) registry r marked s ≡ ok (s', tt)
        → Call s s'
    committing :
        {s : State} (marked : Bool) (registry : Registry) (r : R) (message : Bytes)
        → Call s (commit x repo registry r marked s message).state

  -- The states that a sequence of calls leads to.
  pub data Reachable (s : State) : State → Type 0 where
    start : Reachable s s
    call : {t u : State} → Reachable s t → Call t u → Reachable s u
