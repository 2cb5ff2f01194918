-- ===== src/Worktree/Service/Calls/Valid.antt =====
-- Every state that the calls store is valid: core/worktree/service.go, atomic_unix.go and state.go.
use zsh_pro.Prelude.{
  ◌≡◌, refl, sym, ap, subst, Bool, true, false, if◌then◌else◌, ok, err, Result, ◌>>=◌, ◌>>◌, guard,
  step-returns, check-returns, ok-injective, Bool-cases, inl, inr, arith,
}
use zsh_pro.Data.Bytes.{Bytes, bytes_eq}
use zsh_pro.Live.Errors.{Error}
use zsh_pro.Live.Validate.{validate_live_snapshot}
use zsh_pro.Activate.Build.Effective.{CommittedWorktree}
use zsh_pro.Worktree.Apply.{validate_changes}
use zsh_pro.Worktree.Registry.{Registry}
use zsh_pro.Worktree.State.{State}
use zsh_pro.Worktree.State.Validate.{validate_state, valid_state_branch}
use zsh_pro.Worktree.State.Validate.Coherent.{AgreesWithHistory, validate_state-AgreesWithHistory}
use zsh_pro.Worktree.Service.Digest.{External, validate_private_request}
use zsh_pro.Worktree.Service.Transaction.{Step, with_transaction, marshal_state, recovered}
use zsh_pro.Worktree.Service.Transaction.Laws.{with_transaction-returns, marshal_state-IsValid}
use zsh_pro.Worktree.Service.Attach.{attach_shell, attach_state_of}
use zsh_pro.Worktree.Service.Publish.{publish, publish_state}
use zsh_pro.Worktree.Service.Pull.{prepare_pull, prepare_state}
use zsh_pro.Worktree.Service.Resolve.{resolve_shared, resolve_state}
use zsh_pro.Worktree.Service.Acknowledge.{acknowledge, acknowledge_state}
use zsh_pro.Worktree.Service.Workflow.{Repository}
use zsh_pro.Worktree.Service.Workflow.Commit.{
  CommitReturn, Committing, commit, commit_state, commit_return, settle_commit, valid_message,
}
use zsh_pro.Worktree.Service.Workflow.Branches.{
  branches, list_branches, create, transact, checkout, reset_hard, reset_state,
  set_auto_apply_default,
}
use zsh_pro.Worktree.Service.Workflow.Status.{repair_published_ref}
use zsh_pro.Worktree.Service.Workflow.Materialize.{materialize, new_generation}
use zsh_pro.Worktree.Service.Calls.{Call, Reachable}

abbrev IsValid : State → Type 0
IsValid s = validate_state s ≡ ok tt

stored-IsValid {ℓ} :
    {A : Type ℓ} (x : External) (marked : Bool) (f : State → Step A) (s s' : State) (a : A)
    → with_transaction x marked f s ≡ ok (s', a)
    → IsValid s'
stored-IsValid x marked f s s' a h =
    let (_, _, _, stores) = with_transaction-returns x marked f s s' a h in
    marshal_state-IsValid x s' stores

module _ {R : Type 0} (x : External) (repo : Repository R) (registry : Registry) where
  transact-IsValid :
      (marked : Bool) (s s' : State) (moved : R × Result Error State)
      → (transact x repo registry marked s moved).1 ≡ ok (s', tt)
      → IsValid s'
  unfolding transact
  transact-IsValid marked s s' (r, outcome) h = stored-IsValid x marked _ s s' tt h

  -- With the check of the branch before the transaction.
  checked-IsValid :
      (marked : Bool) (s s' : State) (b : Bool) (r : R) (e : Error) (moved : R × Result Error State)
      → (if b then transact x repo registry marked s moved else (r, err e)).1 ≡ ok (s', tt)
      → IsValid s'
  checked-IsValid marked s s' true r e moved h = transact-IsValid marked s s' moved h
  checked-IsValid marked s s' false r e moved h = absurd (ground arith)

if_state :
    {R : Type 0} (s : State) (b : Bool) (c d : CommitReturn R)
    → c.state ≡ s
    → d.state ≡ s
    → (if b then c else d).state ≡ s
if_state s true c d h k = h
if_state s false c d h k = k

module _ {R : Type 0} (x : External) where
  commit_return-IsValid :
      (s : State) (c : Committing R) (o : Result Error State)
      → IsValid s
      → ((t : State) → o ≡ ok t → IsValid t)
      → IsValid (commit_return s c o).state
  unfolding commit_return
  commit_return-IsValid s c (ok t) v w = w t refl
  commit_return-IsValid s c (err e) v w =
      subst IsValid (sym (if_state s c.result.committed _ _ refl refl)) v

  settle_commit-IsValid :
      (marked : Bool) (s : State) (c : Committing R)
      → IsValid s
      → IsValid (settle_commit x marked s c).state
  unfolding settle_commit
  settle_commit-IsValid marked s c v =
      commit_return-IsValid s c
        (c.outcome >>= λ t. marshal_state x (recovered marked t) >> ok (recovered marked t)) v
        (λ t h.
          let (u, _, h₁) =
            step-returns c.outcome
              (λ t. marshal_state x (recovered marked t) >> ok (recovered marked t)) h in
          let (stores, h₂) = check-returns (marshal_state x (recovered marked u)) _ h₁ in
          subst IsValid (ok-injective (recovered marked u) t h₂)
            (marshal_state-IsValid x (recovered marked u) stores))

commit-IsValid :
    {R : Type 0} (x : External) (repo : Repository R) (registry : Registry) (r : R) (marked : Bool)
    (s : State) (message : Bytes)
    → IsValid s
    → IsValid (commit x repo registry r marked s message).state
unfolding commit
commit-IsValid x repo registry r marked s message v = elim (Bool-cases (valid_message message)) [
  | inl good ↦ rw (good) (
      settle_commit-IsValid x marked s (commit_state repo registry r (recovered marked s) message)
        v)
  | inr bad ↦ rw (bad) v
]

module _ {R : Type 0} (x : External) (repo : Repository R)
    (deep_equal : CommittedWorktree → CommittedWorktree → Bool) where
  Call-IsValid : {s s' : State} → Call x repo deep_equal s s' → IsValid s → IsValid s'
  unfolding attach_shell publish prepare_pull resolve_shared acknowledge materialize branches create
      checkout reset_hard set_auto_apply_default repair_published_ref
  Call-IsValid {s} {s'} (Call.attaching marked registry request h) v =
      let (_, h₁) = check-returns (validate_private_request _ _) _ h in
      let (_, h₂) = check-returns (validate_live_snapshot _) _ h₁ in
      stored-IsValid x marked (attach_state_of x registry request) s s' _ h₂
  Call-IsValid {s} {s'} (Call.publishing marked registry request h) v =
      let (_, h₁) = check-returns (validate_private_request _ _) _ h in
      let (_, h₂) = check-returns (validate_changes _) _ h₁ in
      stored-IsValid x marked (publish_state x registry request) s s' _ h₂
  Call-IsValid {s} {s'} (Call.preparing marked request h) v =
      let (_, h₁) = check-returns (validate_private_request _ _) _ h in
      stored-IsValid x marked (prepare_state x request) s s' _ h₁
  Call-IsValid {s} {s'} (Call.resolving marked registry request h) v =
      let (_, h₁) = check-returns (validate_private_request _ _) _ h in
      let (_, h₂) = check-returns (guard _ _) _ h₁ in
      stored-IsValid x marked (resolve_state x registry request) s s' _ h₂
  Call-IsValid {s} {s'} (Call.acknowledging marked registry request h) v =
      let (_, h₁) = check-returns (validate_private_request _ _) _ h in
      let (_, h₂) = check-returns (guard _ _) _ h₁ in
      stored-IsValid x marked (acknowledge_state x registry request) s s' _ h₂
  Call-IsValid {s} {s'} (Call.materializing marked registry branch oid committed h) v =
      let (candidate, _, h₁) = step-returns (new_generation branch oid _) _ h in
      stored-IsValid x marked _ s s' _ h₁
  Call-IsValid {s} {s'} (Call.listing marked registry r h) v =
      let ((t, names), h₁, h₂) =
        step-returns (with_transaction x marked (list_branches x repo registry r) s) _ h in
      let same : t ≡ s' = ap (λ out. out.0) (ok-injective _ _ h₂) in
      subst IsValid same (stored-IsValid x marked (list_branches x repo registry r) s t names h₁)
  Call-IsValid {s} {s'} (Call.creating marked registry r branch h) v =
      checked-IsValid x repo registry marked s s' (valid_state_branch branch) r Error.invalid_branch
        _ h
  Call-IsValid {s} {s'} (Call.moving marked registry r branch creates h) v =
      checked-IsValid x repo registry marked s s' (valid_state_branch branch) r Error.invalid_branch
        _ h
  Call-IsValid {s} {s'} (Call.resetting marked registry r h) v =
      stored-IsValid x marked (reset_state x repo registry r) s s' tt h
  Call-IsValid {s} {s'} (Call.defaulting marked enabled h) v = stored-IsValid x marked _ s s' tt h
  Call-IsValid {s} {s'} (Call.repairing marked registry r h) v = stored-IsValid x marked _ s s' tt h
  Call-IsValid {s} (Call.committing marked registry r message) v =
      commit-IsValid x repo registry r marked s message v

  Reachable-IsValid : {s s' : State} → Reachable x repo deep_equal s s' → IsValid s → IsValid s'
  Reachable-IsValid Reachable.start v = v
  Reachable-IsValid (Reachable.call reached c) v = Call-IsValid c (Reachable-IsValid reached v)

  -- However the service is called, in whatever order, from a valid state it stores only valid
  -- states, and in each that is materialized: the events replay from the compaction baseline to
  -- what the shared states show; there are at most 128 events and 128 shells; and in the record of
  -- each shell the applied revision is at most the head, changes are held back exactly where there
  -- is a conflict, what is pending lies between the applied revision and the head, and a pending
  -- resolution has a conflict to resolve.
  pub Reachable-AgreesWithHistory :
      {s s' : State}
      → Reachable x repo deep_equal s s'
      → validate_state s ≡ ok tt
      → s'.materialized ≡ true
      → (validate_state s' ≡ ok tt) × AgreesWithHistory s'
  Reachable-AgreesWithHistory {s} {s'} reached v m =
      let v' = Reachable-IsValid reached v in (v', validate_state-AgreesWithHistory s' v' m)
