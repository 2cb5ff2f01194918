-- ===== src/Worktree/Service/Workflow/Arrives.antt =====
-- Where Checkout and ResetHard of core/worktree/service.go leave the state.
use zsh_pro.Prelude.{
  ◌≤◌, ◌≡◌, refl, sym, ap, ◌∙◌, subst, Bool, true, false, ◌&&◌, List, [], ◌∷◌, if◌then◌else◌, ok,
  err, Result, ◌>>=◌, guard, step-returns, check-returns, guard-returns, ok-injective, arith,
}
use zsh_pro.Data.Bytes.{Bytes, bytes, bytes_eq}
use zsh_pro.Data.Dict.{Dict}
use zsh_pro.Live.Types.{LiveChange}
use zsh_pro.Live.Errors.{Error}
use zsh_pro.Activate.Build.Effective.{CommittedWorktree}
use zsh_pro.Worktree.Registry.{Registry}
use zsh_pro.Worktree.State.{State, ShellState}
use zsh_pro.Worktree.State.Shell.{is_empty}
use zsh_pro.Worktree.State.Validate.{valid_state_branch, state_oid_re}
use zsh_pro.Worktree.Service.Digest.{External}
use zsh_pro.Worktree.Service.Transaction.{
  project_recovered_persistence, recovered_shells, recovered,
}
use zsh_pro.Worktree.Service.Transaction.Laws.{with_transaction-returns}
use zsh_pro.Worktree.Service.Workflow.{
  Repository, workflow_changes, read_exact, replace_workflow_generation,
}
use zsh_pro.Worktree.Service.Workflow.Branches.{
  quiet_shell, quiet_shells, transact, created, create_branch, leaving, arrive, arrive_from,
  checkout_state, checkout, reset_state, reset_hard,
}
use zsh_pro.Worktree.Service.Workflow.Replaces.{
  Shows, replace_workflow_generation-Shows, read_exact-returns,
}

empty-part : (cs : List LiveChange) → guard (is_empty cs) Error.worktree_dirty ≡ ok tt → cs ≡ []
empty-part [] h = refl
empty-part (c ∷ cs) h = absurd (ground arith)

Shows-recovered :
    (marked : Bool) (name oid : Bytes) (document : CommittedWorktree) (t : State)
    → Shows name oid document t
    → Shows name oid document (recovered marked t)
Shows-recovered marked name oid document t h = record {
  branch = h.branch;
  base = h.base;
  committed = h.committed;
  shared = h.shared;
}

quiet_shells-project :
    (d : Dict Bytes ShellState) → quiet_shells (project_recovered_persistence d) ≡ quiet_shells d
unfolding quiet_shells project_recovered_persistence quiet_shell
quiet_shells-project [] = refl
quiet_shells-project ((id, shell) ∷ d) = ap (λ b. quiet_shell shell && b) (quiet_shells-project d)

quiet_shells-recovered_shells :
    (marked : Bool) (d : Dict Bytes ShellState)
    → quiet_shells (recovered_shells marked d) ≡ quiet_shells d
unfolding recovered_shells
quiet_shells-recovered_shells true d = quiet_shells-project d
quiet_shells-recovered_shells false d = refl

module _ {R : Type 0} (x : External) (repo : Repository R) (registry : Registry) where
  transact-outcome :
      (marked : Bool) (s s' : State) (moved : R × Result Error State)
      → (transact x repo registry marked s moved).1 ≡ ok (s', tt)
      → (t : State) × (moved.1 ≡ ok t) × (recovered marked t ≡ s')
  unfolding transact
  transact-outcome marked s s' (r, outcome) h =
      let (u, run, stored, _) =
        with_transaction-returns x marked (λ _. outcome >>= λ t. ok (t, tt)) s s' tt h in
      let (t, first, end) = step-returns outcome (λ t. ok (t, tt)) run in
      (u, first ∙ ap ok (ap (λ out. out.0) (ok-injective (t, tt) (u, tt) end)), stored)

  transact-repository :
      (marked : Bool) (s : State) (moved : R × Result Error State)
      → (transact x repo registry marked s moved).0 ≡ moved.0
  unfolding transact
  transact-repository marked s (r, outcome) = refl

  -- Where a checkout has gone.
  pub record Arrived (r : R) (name : Bytes) (t : State) : Type 0 where
    pub oid : Bytes
    pub document : CommittedWorktree
    pub resolves : repo.resolve_worktree_revision r name ≡ ok oid
    pub reads : repo.read_worktree_revision r oid ≡ ok document
    pub shows : Shows name oid document t

  arrive-Arrived :
      (r : R) (name : Bytes) (s t : State)
      → arrive x repo registry r name s ≡ ok t
      → Arrived r name t
  unfolding arrive
  arrive-Arrived r name s t h =
      let (oid, resolves, h₁) = step-returns (repo.resolve_worktree_revision r name) _ h in
      let (_, h₂) = check-returns (guard (state_oid_re oid) Error.recovery_required) _ h₁ in
      let (document, reads, h₃) =
        step-returns (read_exact (repo.read_worktree_revision r oid)) _ h₂ in
      record {
        oid = oid;
        document = document;
        resolves = resolves;
        reads = read_exact-returns _ document reads;
        shows =
            (replace_workflow_generation-Shows registry s t name oid (bytes "checkout") document
              h₃).0;
      }

  Arrived-recovered :
      (marked : Bool) (r : R) (name : Bytes) (t : State)
      → Arrived r name t
      → Arrived r name (recovered marked t)
  Arrived-recovered marked r name t a = record {
    oid = a.oid;
    document = a.document;
    resolves = a.resolves;
    reads = a.reads;
    shows = Shows-recovered marked name a.oid a.document t a.shows;
  }

  leaving-clean :
      (r : R) (s t : State)
      → leaving x repo registry r s ≡ ok t
      → (workflow_changes s ≡ ok []) × (quiet_shells s.shells ≡ true)
  unfolding leaving
  leaving-clean r s t h =
      let (_, h₁) = check-returns (guard s.materialized Error.unmaterialized) _ h in
      let (changes, diff, h₂) = step-returns (workflow_changes s) _ h₁ in
      let (none_left, h₃) = check-returns (guard (is_empty changes) Error.worktree_dirty) _ h₂ in
      let (quiet, _) =
        check-returns (guard (quiet_shells s.shells) Error.conflict_requires_resolution) _ h₃ in
      (diff ∙ ap ok (empty-part changes none_left), guard-returns _ _ quiet)

  create_branch-left :
      (r : R) (name : Bytes) (left : Result Error State) (t : State)
      → (create_branch x repo registry r name left).1 ≡ ok t
      → left ≡ ok t
  unfolding create_branch created
  create_branch-left r name (err e) t h = h
  create_branch-left r name (ok s) t h =
      (check-returns (repo.create_from r name s.base_oid).1 (ok s) h).1

  arrive_from-Arrived :
      (name : Bytes) (from : R × Result Error State) (t : State)
      → (arrive_from x repo registry name from).1 ≡ ok t
      → ((u : State) × (from.1 ≡ ok u)) × Arrived (arrive_from x repo registry name from).0 name t
  unfolding arrive_from
  arrive_from-Arrived name (r, left) t h =
      let (u, first, h₁) = step-returns left (arrive x repo registry r name) h in
      ((u, first), arrive-Arrived r name u t h₁)

  left_by :
      (r : R) (name : Bytes) (s : State) (creates : Bool) (u : State)
      → (if creates
          then create_branch x repo registry r name (leaving x repo registry r s)
          else (r, leaving x repo registry r s)).1
        ≡ ok u
      → leaving x repo registry r s ≡ ok u
  left_by r name s true u h = create_branch-left r name _ u h
  left_by r name s false u h = h

  checkout_state-Arrived :
      (r : R) (name : Bytes) (creates : Bool) (s t : State)
      → (checkout_state x repo registry r name creates s).1 ≡ ok t
      → ((workflow_changes s ≡ ok []) × (quiet_shells s.shells ≡ true))
        × Arrived (checkout_state x repo registry r name creates s).0 name t
  unfolding checkout_state
  checkout_state-Arrived r name creates s t h =
      let ((u, left), arrived) = arrive_from-Arrived name _ t h in
      (leaving-clean r s u (left_by r name s creates u left), arrived)

  checked-outcome :
      (b : Bool) (r : R) (e : Error) (marked : Bool) (s s' : State) (moved : R × Result Error State)
      → (if b then transact x repo registry marked s moved else (r, err e)).1 ≡ ok (s', tt)
      → ((t : State) × (moved.1 ≡ ok t) × (recovered marked t ≡ s'))
        × ((if b then transact x repo registry marked s moved else (r, err e)).0 ≡ moved.0)
  checked-outcome true r e marked s s' moved h =
      (transact-outcome marked s s' moved h, transact-repository marked s moved)
  checked-outcome false r e marked s s' moved h = absurd (ground arith)

  -- If a checkout succeeds, nothing was lost by it: the shared states had no change from the
  -- committed ones, and no shell had a conflict, an unpublished change or a pending transition. The
  -- stored state then shows the document that the repository, as the call has left it, holds at the
  -- object to which it resolves the branch.
  pub checkout-Arrived :
      (r : R) (name : Bytes) (creates marked : Bool) (s s' : State)
      → (checkout x repo registry r name creates marked s).1 ≡ ok (s', tt)
      → ((workflow_changes s ≡ ok []) × (quiet_shells s.shells ≡ true))
        × Arrived (checkout x repo registry r name creates marked s).0 name s'
  unfolding checkout workflow_changes
  checkout-Arrived r name creates marked s s' h =
      let moved = checkout_state x repo registry r name creates (recovered marked s) in
      let ((t, run, end), same) =
        checked-outcome (valid_state_branch name) r Error.invalid_branch marked s s' moved h in
      let ((clean, quiet), arrived) =
        checkout_state-Arrived r name creates (recovered marked s) t run in
      (
        (clean, sym (quiet_shells-recovered_shells marked s.shells) ∙ quiet),
        subst (λ q. Arrived q name s') (sym same)
            (subst (Arrived moved.0 name) end (Arrived-recovered marked moved.0 name t arrived)),
      )

  -- If a hard reset succeeds, the stored state shows the document that the repository holds at the
  -- base of the state, on the same branch and base, and the head revision has not gone back.
  pub reset_hard-Shows :
      (r : R) (marked : Bool) (s s' : State)
      → reset_hard x repo registry r marked s ≡ ok (s', tt)
      → ((document : CommittedWorktree) × (repo.read_worktree_revision r s.base_oid ≡ ok document)
          × Shows s.branch s.base_oid document s')
        × (s.head_revision ≤ s'.head_revision)
  unfolding reset_hard reset_state
  reset_hard-Shows r marked s s' h =
      let (u, run, end, _) =
        with_transaction-returns x marked (reset_state x repo registry r) s s' tt h in
      let (_, h₁) = check-returns (guard s.materialized Error.unmaterialized) _ run in
      let (document, reads, h₂) =
        step-returns (read_exact (repo.read_worktree_revision r s.base_oid)) _ h₁ in
      let (t, replaced, h₃) =
        step-returns
          (replace_workflow_generation registry (recovered marked s) s.branch s.base_oid document
            (bytes "reset"))
          _ h₂ in
      let same : t ≡ u = ap (λ out. out.0) (ok-injective _ _ h₃) in
      let (shows, later) =
        replace_workflow_generation-Shows registry (recovered marked s) t s.branch s.base_oid
          (bytes "reset") document replaced in
      (
        (
          document,
          read_exact-returns _ document reads,
          subst (Shows s.branch s.base_oid document) (ap (recovered marked) same ∙ end)
              (Shows-recovered marked s.branch s.base_oid document t shows),
        ),
        subst (λ v. s.head_revision ≤ v.head_revision) (ap (recovered marked) same ∙ end) later,
      )
