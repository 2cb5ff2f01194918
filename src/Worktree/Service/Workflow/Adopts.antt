-- ===== src/Worktree/Service/Workflow/Adopts.antt =====
-- What Commit of core/worktree/service.go leaves of the state.
use zsh_pro.Prelude.{
  ◌⊎◌, inl, inr, Bool, ◌≡◌, refl, sym, ap, ◌∙◌, subst, true, false, Option, none, some, List, [],
  ◌∷◌, ok, err, Result, ◌>>=◌, ◌>>◌, guard, step-returns, check-returns, guard-returns,
  ok-injective, choice-holds, arith,
}
use zsh_pro.Data.Bytes.{Bytes, bytes_eq}
use zsh_pro.Live.Types.{LiveChange}
use zsh_pro.Live.Errors.{Error}
use zsh_pro.Live.Observed.{SameState}
use zsh_pro.Activate.Build.Effective.{CommittedWorktree, new_committed_worktree}
use zsh_pro.Worktree.Apply.{equal_live_states}
use zsh_pro.Worktree.Apply.Equal.{equal_live_states_sound}
use zsh_pro.Worktree.Registry.{Registry}
use zsh_pro.Worktree.State.{State}
use zsh_pro.Worktree.State.Validate.{validate_committed, state_oid_re}
use zsh_pro.Worktree.Service.Digest.{External}
use zsh_pro.Worktree.Service.Admission.{seed_registry_from_state}
use zsh_pro.Worktree.Service.Admission.Keeps.{seed_registry_from_state-AdmitsOnly}
use zsh_pro.Worktree.Service.Transaction.{marshal_state, recovered}
use zsh_pro.Worktree.Service.Transaction.Laws.{noted, noted-noted, lookup-recovered_shells}
use zsh_pro.Data.Dict.{lookup}
use zsh_pro.Worktree.Service.Workflow.{WorktreeCommitResult, Repository}
use zsh_pro.Worktree.Service.Workflow.Commit.{
  Committing, CommitReturn, adopt_commit, adopted, refused, early, commit_outcome,
  commit_document_of, commit_changes, commit_state, commit_return, settle_commit, valid_message,
  commit,
}

-- What the shells share, and their own records.
record IsSame (s t : State) : Type 0 where
  shared : t.shared ≡ s.shared
  history : t.history ≡ s.history
  shells : t.shells ≡ s.shells
  branch : t.branch ≡ s.branch

IsSame_refl : (s : State) → IsSame s s
IsSame_refl s = record { shared = refl; history = refl; shells = refl; branch = refl }

-- What the shells share stays, and of their own records at most the note of a recovered write is
-- new.
pub record KeepsShared (marked : Bool) (s t : State) : Type 0 where
  pub shared : t.shared ≡ s.shared
  pub history : t.history ≡ s.history
  pub shells :
      (id : Bytes)
      → (lookup id t.shells ≡ lookup id s.shells)
        ⊎ (lookup id t.shells ≡ noted marked (lookup id s.shells))
  pub branch : t.branch ≡ s.branch

KeepsShared-refl : (marked : Bool) (s : State) → KeepsShared marked s s
KeepsShared-refl marked s = record {
  shared = refl;
  history = refl;
  shells = λ id. inl refl;
  branch = refl;
}

IsSame-recovered :
    (marked : Bool) (s t : State)
    → IsSame (recovered marked s) t
    → KeepsShared marked s (recovered marked t)
IsSame-recovered marked s t h = record {
  shared = h.shared;
  history = h.history;
  shells = λ id. inr (
      lookup-recovered_shells marked id t.shells
      ∙ ap (λ d. noted marked (lookup id d)) h.shells
      ∙ ap (noted marked) (lookup-recovered_shells marked id s.shells)
      ∙ noted-noted marked (lookup id s.shells));
  branch = h.branch;
}

-- The state is based on what the repository holds at the object, which shows the shared states.
pub record IsBased (read : Result Error CommittedWorktree) (oid : Bytes) (t : State) : Type 0 where
  pub exact : CommittedWorktree
  pub reads : read ≡ ok exact
  pub base : t.base_oid ≡ oid
  pub committed : t.committed ≡ new_committed_worktree exact.source exact.projection
  pub shows : SameState exact.projection.states t.shared

adopt_commit-IsBased :
    (registry : Registry) (s t : State) (oid : Bytes) (read : Result Error CommittedWorktree)
    → adopt_commit registry s oid read ≡ ok t
    → IsSame s t × IsBased read oid t
unfolding adopt_commit
adopt_commit-IsBased registry s t oid read h =
    let (_, h₁) = check-returns (guard (state_oid_re oid) Error.recovery_required) _ h in
    let (exact, reads, h₂) = step-returns read _ h₁ in
    let (_, h₃) = check-returns (validate_committed exact) _ h₂ in
    let (same, h₄) =
      check-returns
        (guard (equal_live_states exact.projection.states s.shared) Error.recovery_required) _ h₃ in
    let ((seeded, s'), seeds, h₅) = step-returns (seed_registry_from_state registry _) _ h₄ in
    let keeps = seed_registry_from_state-AdmitsOnly registry _ (seeded, s') seeds in
    let end : s' ≡ t = ok-injective s' t h₅ in
    let shared : t.shared ≡ s.shared = ap (λ u. u.shared) (sym end) ∙ ap (λ u. u.shared) keeps in
    (
      record {
        shared = shared;
        history = ap (λ u. u.history) (sym end) ∙ ap (λ u. u.history) keeps;
        shells = ap (λ u. u.shells) (sym end) ∙ ap (λ u. u.shells) keeps;
        branch = ap (λ u. u.branch) (sym end) ∙ ap (λ u. u.branch) keeps;
      },
      record {
        exact = exact;
        reads = reads;
        base = ap (λ u. u.base_oid) (sym end) ∙ ap (λ u. u.base_oid) keeps;
        committed = ap (λ u. u.committed) (sym end) ∙ ap (λ u. u.committed) keeps;
        shows =
            subst (SameState exact.projection.states) (sym shared)
              (equal_live_states_sound _ _ (guard-returns _ _ same)).3;
      },
    )

module _ {R : Type 0} (repo : Repository R) (registry : Registry) where
  -- The transaction keeps what is shared, and a commit that needs no recovery is adopted.
  record Sound (s : State) (c : Committing R) : Type 0 where
    keeps : (t : State) → c.outcome ≡ ok t → IsSame s t
    based :
        (t : State)
        → c.outcome ≡ ok t
        → c.result.committed ≡ true
        → c.result.recovery_required ≡ false
        → IsBased (repo.read_worktree_revision c.repository c.result.oid) c.result.oid t

  kept : (o : Result Error State) (s t : State) → o ≡ ok s → o ≡ ok t → IsSame s t
  kept o s t e h = subst (IsSame s) (ok-injective s t (sym e ∙ h)) (IsSame_refl s)

  adopted-Sound :
      (r : R) (s : State) (result : WorktreeCommitResult) (problem : Option Error)
      (o : Result Error State)
      → o ≡ adopt_commit registry s result.oid (repo.read_worktree_revision r result.oid)
      → Sound s (adopted repo registry r s result problem o)
  unfolding adopted
  adopted-Sound r s result problem (ok s') e = record {
    keeps = λ t h. (adopt_commit-IsBased registry s t result.oid _ (sym e ∙ h)).0;
    based = λ t h _ _. (adopt_commit-IsBased registry s t result.oid _ (sym e ∙ h)).1;
  }
  adopted-Sound r s result problem (err f) e = record {
    keeps = λ t h. kept _ s t refl h;
    based = λ t h _ bad. absurd (ground arith);
  }

  refused-Sound :
      (r : R) (s : State) (result : WorktreeCommitResult) (problem : Option Error)
      → result.committed ≡ false
      → Sound s (refused repo registry r s result problem)
  unfolding refused
  refused-Sound r s result none e = record {
    keeps = λ t h. kept _ s t refl h;
    based = λ t h bad _. absurd (ground arith);
  }
  refused-Sound r s result (some f) e = record {
    keeps = λ t h. absurd (ground arith);
    based = λ t h bad _. absurd (ground arith);
  }

  commit_outcome-Sound :
      (s : State) (done : R × WorktreeCommitResult × Option Error)
      → Sound s (commit_outcome repo registry s done)
  unfolding commit_outcome
  commit_outcome-Sound s (r, result, problem) =
      choice-holds (Sound s) result.committed _ _ (λ _. adopted-Sound r s result problem _ refl)
        (refused-Sound r s result problem)

  early-Sound :
      (r : R) (s : State) (o : Result Error State)
      → ((t : State) → o ≡ ok t → IsSame s t)
      → Sound s (early repo registry r o)
  unfolding early
  early-Sound r s o k = record { keeps = k; based = λ t h bad _. absurd (ground arith) }

  fails : (o : Result Error State) (s t : State) (e : Error) → o ≡ err e → o ≡ ok t → IsSame s t
  fails o s t e f h = absurd (ground (arith, f, h))

  commit_document_of-Sound :
      (r : R) (s : State) (message : Bytes) (o : Result Error CommittedWorktree)
      → Sound s (commit_document_of repo registry r s message o)
  unfolding commit_document_of
  commit_document_of-Sound r s message (err e) =
      early-Sound r s (err e) (λ t. fails (err e) s t e refl)
  commit_document_of-Sound r s message (ok document) = commit_outcome-Sound s _

  commit_changes-Sound :
      (r : R) (s : State) (message : Bytes) (o : Result Error (List LiveChange))
      → Sound s (commit_changes repo registry r s message o)
  unfolding commit_changes
  commit_changes-Sound r s message (err e) = early-Sound r s (err e) (λ t. fails (err e) s t e refl)
  commit_changes-Sound r s message (ok []) = early-Sound r s (ok s) (λ t. kept (ok s) s t refl)
  commit_changes-Sound r s message (ok (c ∷ cs)) = commit_document_of-Sound r s message _

  commit_state-Sound :
      (r : R) (s : State) (message : Bytes) → Sound s (commit_state repo registry r s message)
  unfolding commit_state
  commit_state-Sound r s message =
      choice-holds (Sound s) s.materialized _ _ (λ _. commit_changes-Sound r s message _)
        (λ _. early-Sound r s _ (λ t. fails _ s t Error.unmaterialized refl))

  -- What the call returns, from what the transaction leaves.
  record Returns (marked : Bool) (s : State) (d : CommitReturn R) : Type 0 where
    keeps : KeepsShared marked s d.state
    based :
        d.error ≡ none
        → d.result.committed ≡ true
        → IsBased (repo.read_worktree_revision d.repository d.result.oid) d.result.oid d.state

  IsBased-recovered :
      (marked : Bool) (read : Result Error CommittedWorktree) (oid : Bytes) (t : State)
      → IsBased read oid t
      → IsBased read oid (recovered marked t)
  IsBased-recovered marked read oid t h = record {
    exact = h.exact;
    reads = h.reads;
    base = h.base;
    committed = h.committed;
    shows = h.shows;
  }

  commit_return-Returns :
      (marked : Bool) (s : State) (c : Committing R) (o : Result Error State)
      → ((t : State) → o ≡ ok t → (u : State) × (c.outcome ≡ ok u) × (recovered marked u ≡ t))
      → Sound (recovered marked s) c
      → Returns marked s (commit_return s c o)
  unfolding commit_return
  commit_return-Returns marked s c (err e) from sound =
      choice-holds (Returns marked s) c.result.committed _ _
        (λ _. record { keeps = KeepsShared-refl marked s; based = λ bad _. absurd (ground arith) })
        (λ no_commit. record {
          keeps = KeepsShared-refl marked s;
          based = λ bad _. absurd (ground arith);
        })
  commit_return-Returns marked s c (ok t) from sound =
      let (u, outcome, end) = from t refl in
      record {
        keeps =
            subst (KeepsShared marked s) end (IsSame-recovered marked s u (sound.keeps u outcome));
        based = λ clean committed. subst (IsBased _ _) end (
            IsBased-recovered marked _ _ u
              (sound.based u outcome committed (ground (arith, clean, committed))));
      }

  settle_commit-Returns :
      (x : External) (marked : Bool) (s : State) (c : Committing R)
      → Sound (recovered marked s) c
      → Returns marked s (settle_commit x marked s c)
  unfolding settle_commit
  settle_commit-Returns x marked s c sound =
      let store : State → Result Error State =
        λ t. marshal_state x (recovered marked t) >> ok (recovered marked t) in
      commit_return-Returns marked s c (c.outcome >>= store)
        (λ t h.
          let (u, first, h₁) = step-returns c.outcome store h in
          let (_, h₂) = check-returns (marshal_state x (recovered marked u)) _ h₁ in
          (u, first, ok-injective (recovered marked u) t h₂))
        sound

  commit-Returns :
      (x : External) (r : R) (marked : Bool) (s : State) (message : Bytes)
      → Returns marked s (commit x repo registry r marked s message)
  unfolding commit
  commit-Returns x r marked s message =
      choice-holds (Returns marked s) (valid_message message) _ _
        (λ _.
          settle_commit-Returns x marked s
            (commit_state repo registry r (recovered marked s) message)
            (commit_state-Sound r (recovered marked s) message))
        (λ _. record { keeps = KeepsShared-refl marked s; based = λ bad _. absurd (ground arith) })

  -- However a commit ends, it leaves the shared states, the history and the branch as they are. It
  -- adds no record of a shell and drops none, and each stays as it is but for the recovered error,
  -- which is noted where the marker of a recovered write is pending and a state is stored.
  pub commit-KeepsShared :
      (x : External) (r : R) (marked : Bool) (s : State) (message : Bytes)
      → KeepsShared marked s (commit x repo registry r marked s message).state
  commit-KeepsShared x r marked s message = (commit-Returns x r marked s message).keeps

  -- If a commit reports no error and says that it has committed, the stored state is based on the
  -- object that it names: it records what the repository, as the commit has left it, holds there,
  -- and that shows the shared states.
  pub commit-IsBased :
      (x : External) (r : R) (marked : Bool) (s : State) (message : Bytes)
      → (commit x repo registry r marked s message).error ≡ none
      → (commit x repo registry r marked s message).result.committed ≡ true
      → let d = commit x repo registry r marked s message in
        IsBased (repo.read_worktree_revision d.repository d.result.oid) d.result.oid d.state
  commit-IsBased x r marked s message clean committed =
      (commit-Returns x r marked s message).based clean committed
