-- ===== src/Worktree/Service/Calls/Isolates.antt =====
-- The authority of the operations that a shell calls with its credential:
-- core/worktree/service.go.
use zsh_pro.Prelude.{
  ◌≡◌, ◌∙◌, ap, sym, Bool, false, List, ◌==◌, ok, guard, step-returns, check-returns,
}
use zsh_pro.Data.Bytes.{Bytes, bytes_eq}
use zsh_pro.Data.Dict.{lookup}
use zsh_pro.Live.Types.{LiveIdentityState}
use zsh_pro.Live.Errors.{Error}
use zsh_pro.Worktree.Apply.{validate_changes}
use zsh_pro.Worktree.Registry.{Registry}
use zsh_pro.Worktree.State.{
  State, ShellState, PublishResult, PreparePullResult, ResolveSharedResult, AcknowledgeResult,
}
use zsh_pro.Worktree.State.Credential.{ShellCredential}
use zsh_pro.Worktree.Service.Digest.{External, authorize_shell, validate_private_request}
use zsh_pro.Worktree.Service.Admission.{seed_registry_from_state, admitted_snapshot}
use zsh_pro.Worktree.Service.Admission.Keeps.{
  AdmitsOnly, seed_registry_from_state-AdmitsOnly, admitted_snapshot-AdmitsOnly,
}
use zsh_pro.Worktree.Service.Transaction.{Step, recover, recovered, with_transaction}
use zsh_pro.Worktree.Service.Transaction.Laws.{
  with_transaction-returns, or_else-returns, noted, noted-noted, lookup-recovered_shells,
}
use zsh_pro.Worktree.Service.Recorded.{Holds, authorize_shell-Holds, recovered-Holds}
use zsh_pro.Worktree.Service.Publish.{PublishRequest, publish_state, publish}
use zsh_pro.Worktree.Service.Pull.{PreparePullRequest, prepare_state, prepare_pull}
use zsh_pro.Worktree.Service.Attach.{clone_snapshot}
use zsh_pro.Worktree.Service.Resolve.{ResolveSharedRequest, resolve_state, resolve_shared}
use zsh_pro.Worktree.Service.Acknowledge.{AcknowledgeRequest, acknowledge_state, acknowledge}
use zsh_pro.Worktree.Service.Calls.Touches.{
  Touches, Touches-lookup, Touches-AdmitsOnly, publish_known-Touches, prepare_known-Touches,
  resolve_known-Touches, acknowledge_known-Touches,
}
use zsh_pro.Live.Types.{LiveSnapshot}

module _ (x : External) (registry : Registry) where
  -- A call with a credential that has returned a result.
  pub data ShellCall (marked : Bool) : ShellCredential → State → State → Type 0 where
    publishing :
        {s s' : State} {r : PublishResult} (request : PublishRequest)
        → publish x registry request marked s ≡ ok (s', r)
        → ShellCall marked request.credential s s'
    preparing :
        {s s' : State} {r : PreparePullResult} (request : PreparePullRequest)
        → prepare_pull x request marked s ≡ ok (s', r)
        → ShellCall marked request.credential s s'
    resolving :
        {s s' : State} {r : ResolveSharedResult} (request : ResolveSharedRequest)
        → resolve_shared x registry request marked s ≡ ok (s', r)
        → ShellCall marked request.credential s s'
    acknowledging :
        {s s' : State} {r : AcknowledgeResult} (request : AcknowledgeRequest)
        → acknowledge x registry request marked s ≡ ok (s', r)
        → ShellCall marked request.credential s s'

  abbrev Authorized : ShellCredential → State → State → Type 0
  Authorized c s s' = ((shell : ShellState) × Holds x s c shell) × Touches c.shell_id s s'

  -- What the two operations that observe a snapshot do before they look at their receipt.
  observing-AdmitsOnly :
      (s s₁ s₂ : State) (seeded : Registry) (shell : ShellState) (snapshot : LiveSnapshot)
      (observed : List LiveIdentityState)
      → recover (seed_registry_from_state registry s) ≡ ok (seeded, s₁)
      → admitted_snapshot seeded s₁ shell snapshot ≡ ok (s₂, observed)
      → AdmitsOnly s s₂
  observing-AdmitsOnly s s₁ s₂ seeded shell snapshot observed seeds admits =
      admitted_snapshot-AdmitsOnly seeded s₁ shell snapshot (s₂, observed) admits
      ∙ seed_registry_from_state-AdmitsOnly registry s (seeded, s₁)
          (or_else-returns Error.recovery_required (seed_registry_from_state registry s) seeds)

  publish_state-Authorized :
      (request : PublishRequest) (s s' : State) (r : PublishResult)
      → publish_state x registry request s ≡ ok (s', r)
      → Authorized request.credential s s'
  unfolding publish_state
  publish_state-Authorized request s s' r h =
      let (shell, authorized, h₁) = step-returns (authorize_shell x s request.credential) _ h in
      (
        (shell, authorize_shell-Holds x s request.credential shell authorized),
        publish_known-Touches x registry request s s' shell r _ h₁,
      )

  prepare_state-Authorized :
      (request : PreparePullRequest) (s s' : State) (r : PreparePullResult)
      → prepare_state x request s ≡ ok (s', r)
      → Authorized request.credential s s'
  unfolding prepare_state
  prepare_state-Authorized request s s' r h =
      let (shell, authorized, h₁) = step-returns (authorize_shell x s request.credential) _ h in
      (
        (shell, authorize_shell-Holds x s request.credential shell authorized),
        prepare_known-Touches x registry request s s' shell r _ h₁,
      )

  resolve_state-Authorized :
      (request : ResolveSharedRequest) (s s' : State) (r : ResolveSharedResult)
      → resolve_state x registry request s ≡ ok (s', r)
      → Authorized request.credential s s'
  unfolding resolve_state
  resolve_state-Authorized request s s' r h =
      let (shell, authorized, h₁) = step-returns (authorize_shell x s request.credential) _ h in
      let ((seeded, s₁), seeds, h₂) =
        step-returns (recover (seed_registry_from_state registry s)) _ h₁ in
      let ((s₂, observed), admits, h₃) =
        step-returns (admitted_snapshot seeded s₁ shell (clone_snapshot request.snapshot)) _ h₂ in
      (
        (shell, authorize_shell-Holds x s request.credential shell authorized),
        Touches-AdmitsOnly _ s s₂ s'
            (observing-AdmitsOnly s s₁ s₂ seeded shell _ observed seeds admits)
            (resolve_known-Touches x registry request s₂ s' shell observed r _ h₃),
      )

  acknowledge_state-Authorized :
      (request : AcknowledgeRequest) (s s' : State) (r : AcknowledgeResult)
      → acknowledge_state x registry request s ≡ ok (s', r)
      → Authorized request.credential s s'
  unfolding acknowledge_state
  acknowledge_state-Authorized request s s' r h =
      let (shell, authorized, h₁) = step-returns (authorize_shell x s request.credential) _ h in
      let ((seeded, s₁), seeds, h₂) =
        step-returns (recover (seed_registry_from_state registry s)) _ h₁ in
      let ((s₂, observed), admits, h₃) =
        step-returns (admitted_snapshot seeded s₁ shell (clone_snapshot request.snapshot)) _ h₂ in
      (
        (shell, authorize_shell-Holds x s request.credential shell authorized),
        Touches-AdmitsOnly _ s s₂ s'
            (observing-AdmitsOnly s s₁ s₂ seeded shell _ observed seeds admits)
            (acknowledge_known-Touches x registry request s₂ s' shell observed r _ h₃),
      )

  -- What a transaction adds to a body that touches one shell.
  abbrev Isolated : Bool → ShellCredential → State → State → Type 0
  Isolated marked c s s' =
      ((shell : ShellState) × Holds x s c shell)
      × ((j : Bytes)
          → (c.shell_id == j) ≡ false
          → lookup j s'.shells ≡ noted marked (lookup j s.shells))

  transaction-Isolated {ℓ} :
      {A : Type ℓ} (marked : Bool) (f : State → Step A) (c : ShellCredential) (s s' : State) (a : A)
      → ((t : State) → f (recovered marked s) ≡ ok (t, a) → Authorized c (recovered marked s) t)
      → with_transaction x marked f s ≡ ok (s', a)
      → Isolated marked c s s'
  transaction-Isolated marked f c s s' a body h =
      let (t, run, end, _) = with_transaction-returns x marked f s s' a h in
      let ((shell, holds), touches) = body t run in
      (
        recovered-Holds x marked s c shell holds,
        λ j apart.
            ap (λ u. lookup j u.shells) (sym end)
            ∙ lookup-recovered_shells marked j t.shells
            ∙ ap (noted marked) (
                Touches-lookup c.shell_id j (recovered marked s) t touches apart
                ∙ lookup-recovered_shells marked j s.shells)
            ∙ noted-noted marked (lookup j s.shells),
      )

  ShellCall-Isolated :
      {marked : Bool} {c : ShellCredential} {s s' : State}
      → ShellCall marked c s s'
      → Isolated marked c s s'
  unfolding publish prepare_pull resolve_shared acknowledge
  ShellCall-Isolated {marked} {c} {s} {s'} (ShellCall.publishing request h) =
      let (_, h₁) = check-returns (validate_private_request _ _) _ h in
      let (_, h₂) = check-returns (validate_changes _) _ h₁ in
      transaction-Isolated marked (publish_state x registry request) _ s s' _
        (λ t. publish_state-Authorized request (recovered marked s) t _) h₂
  ShellCall-Isolated {marked} {c} {s} {s'} (ShellCall.preparing request h) =
      let (_, h₁) = check-returns (validate_private_request _ _) _ h in
      transaction-Isolated marked (prepare_state x request) _ s s' _
        (λ t. prepare_state-Authorized request (recovered marked s) t _) h₁
  ShellCall-Isolated {marked} {c} {s} {s'} (ShellCall.resolving request h) =
      let (_, h₁) = check-returns (validate_private_request _ _) _ h in
      let (_, h₂) = check-returns (guard _ _) _ h₁ in
      transaction-Isolated marked (resolve_state x registry request) _ s s' _
        (λ t. resolve_state-Authorized request (recovered marked s) t _) h₂
  ShellCall-Isolated {marked} {c} {s} {s'} (ShellCall.acknowledging request h) =
      let (_, h₁) = check-returns (validate_private_request _ _) _ h in
      let (_, h₂) = check-returns (guard _ _) _ h₁ in
      transaction-Isolated marked (acknowledge_state x registry request) _ s s' _
        (λ t. acknowledge_state-Authorized request (recovered marked s) t _) h₂

  -- If Publish, PreparePull, ResolveShared or Acknowledge returns a result, the state was
  -- materialized and had a record of the shell that the credential names, whose verifier the
  -- capability matches. The record of every other shell stays as it is; where the marker of a
  -- recovered write is pending, the recovered error is noted in it, and nothing else.
  pub ShellCall-isolates :
      {marked : Bool} {c : ShellCredential} {s s' : State} (j : Bytes)
      → ShellCall marked c s s'
      → (c.shell_id == j) ≡ false
      → ((shell : ShellState) × Holds x s c shell)
        × (lookup j s'.shells ≡ noted marked (lookup j s.shells))
  ShellCall-isolates j call apart =
      let (holds, others) = ShellCall-Isolated call in (holds, others j apart)
