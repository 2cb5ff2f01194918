-- ===== src/Worktree/Service/Workflow/Replaces.antt =====
-- replaceWorkflowGeneration: core/worktree/service.go.
use zsh_pro.Prelude.{
  suc, ◌≤◌, ◌≡◌, refl, sym, ap, ◌∙◌, subst, List, [], ◌∷◌, ok, Result, ◌>>=◌, ◌>>◌, step-returns,
  check-returns, ok-injective, arith,
}
use zsh_pro.Data.Bytes.{Bytes, bytes_eq}
use zsh_pro.Live.Types.{LiveChange}
use zsh_pro.Live.Errors.{Error}
use zsh_pro.Live.Normalize.{clone_live_states, next_revision}
use zsh_pro.Activate.Build.Effective.{CommittedWorktree, new_committed_worktree}
use zsh_pro.Worktree.Diff.{diff_snapshot}
use zsh_pro.Worktree.History.{compact_state_history}
use zsh_pro.Worktree.History.Head.{compact_state_history-head, next_revision-suc}
use zsh_pro.Worktree.Registry.{Registry}
use zsh_pro.Worktree.State.{State}
use zsh_pro.Worktree.State.Validate.{validate_committed}
use zsh_pro.Worktree.Service.Admission.{seed_registry_from_state}
use zsh_pro.Worktree.Service.Admission.Keeps.{seed_registry_from_state-AdmitsOnly}
use zsh_pro.Worktree.Service.Transaction.{recover}
use zsh_pro.Worktree.Service.Transaction.Laws.{or_else-returns}
use zsh_pro.Worktree.Service.Workflow.{
  read_exact, record_changes, refresh_shells, replace_workflow_generation,
}

-- The state shows a committed document, at a branch and an object.
pub record Shows (name object : Bytes) (document : CommittedWorktree) (t : State) : Type 0 where
  pub branch : t.branch ≡ name
  pub base : t.base_oid ≡ object
  pub committed : t.committed ≡ new_committed_worktree document.source document.projection
  pub shared : t.shared ≡ clone_live_states document.projection.states

record IsRecorded (s t : State) : Type 0 where
  same :
      (t.branch ≡ s.branch)
      × (t.base_oid ≡ s.base_oid)
      × (t.committed ≡ s.committed)
      × (t.shared ≡ s.shared)
  later : s.head_revision ≤ t.head_revision

record_changes-IsRecorded :
    (operation : Bytes) (cs : List LiveChange) (s t : State)
    → record_changes operation cs s ≡ ok t
    → IsRecorded s t
unfolding record_changes
record_changes-IsRecorded operation [] s t h =
    subst (IsRecorded s) (ok-injective s t h)
      (record { same = (refl, refl, refl, refl); later = omega arith })
record_changes-IsRecorded operation (c ∷ cs) s t h =
    let (next, moved, h₁) = step-returns (next_revision s.head_revision) _ h in
    let (history, compacted, h₂) = step-returns (compact_state_history _) _ h₁ in
    let head : history.head_revision ≡ suc s.head_revision =
      compact_state_history-head _ history compacted
      ∙ next_revision-suc s.head_revision next moved in
    subst (IsRecorded s) (ok-injective (record s { history = history }) t h₂)
      (record { same = (refl, refl, refl, refl); later = omega (arith, head) })

pub replace_workflow_generation-Shows :
    (registry : Registry) (s t : State) (branch oid operation : Bytes)
    (document : CommittedWorktree)
    → replace_workflow_generation registry s branch oid document operation ≡ ok t
    → Shows branch oid document t × (s.head_revision ≤ t.head_revision)
unfolding replace_workflow_generation
replace_workflow_generation-Shows registry s t branch oid operation document h =
    let (changes, _, h₁) = step-returns (diff_snapshot _ _) _ h in
    let ((seeded, s₁), seeds, h₂) =
      step-returns (recover (seed_registry_from_state registry _)) _ h₁ in
    let (s₂, records, h₃) = step-returns (record_changes operation changes s₁) _ h₂ in
    let keeps =
      seed_registry_from_state-AdmitsOnly registry _ (seeded, s₁)
        (or_else-returns Error.recovery_required _ seeds) in
    let d = record_changes-IsRecorded operation changes s₁ s₂ records in
    let (b, o, c, e) = d.same in
    let end : record s₂ { shells = refresh_shells s₂.head_revision s₂.shared s₂.shells } ≡ t =
      ok-injective _ t h₃ in
    let head : s₁.head_revision ≡ s.head_revision = ap (λ u. u.head_revision) keeps in
    let final : t.head_revision ≡ s₂.head_revision = ap (λ u. u.head_revision) (sym end) in
    (
      record {
        branch = ap (λ u. u.branch) (sym end) ∙ b ∙ ap (λ u. u.branch) keeps;
        base = ap (λ u. u.base_oid) (sym end) ∙ o ∙ ap (λ u. u.base_oid) keeps;
        committed = ap (λ u. u.committed) (sym end) ∙ c ∙ ap (λ u. u.committed) keeps;
        shared = ap (λ u. u.shared) (sym end) ∙ e ∙ ap (λ u. u.shared) keeps;
      },
      omega (arith, d.later, head, final),
    )

pub read_exact-returns :
    (o : Result Error CommittedWorktree) (document : CommittedWorktree)
    → read_exact o ≡ ok document
    → o ≡ ok document
unfolding read_exact
read_exact-returns o document h =
    let (exact, reads, h₁) =
      step-returns o (λ c. validate_committed c >> ok c)
        (or_else-returns Error.recovery_required (o >>= λ c. validate_committed c >> ok c) h) in
    let (_, h₂) = check-returns (validate_committed exact) _ h₁ in
    reads ∙ ap ok (ok-injective exact document h₂)
