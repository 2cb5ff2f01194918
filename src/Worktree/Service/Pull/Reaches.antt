-- ===== src/Worktree/Service/Pull/Reaches.antt =====
-- A pull that is prepared and acknowledged: core/worktree/service.go.
use zsh_pro.Prelude.{
  ◌≡◌, refl, sym, ap, ◌∙◌, subst, true, false, none, some, List, ◌==◌, nat_eq, ltb, ok,
  ok-injective, arith, inl, inr,
}
use zsh_pro.Data.Bytes.{Bytes, bytes_eq}
use zsh_pro.Data.Dict.{lookup, is_some, lookup-insert}
use zsh_pro.Live.Types.{LiveIdentityState, LiveChange}
use zsh_pro.Worktree.Registry.{Registry}
use zsh_pro.Worktree.State.{State, ShellState, PreparePullResult, AcknowledgeResult}
use zsh_pro.Worktree.State.Shell.{is_resolution}
use zsh_pro.Worktree.Service.Digest.{External, fingerprint_snapshot, authorize_shell}
use zsh_pro.Worktree.Service.Receipts.{receipt_for, append_receipt}
use zsh_pro.Worktree.Service.Transaction.{or_else, recover}
use zsh_pro.Worktree.Service.Transaction.Laws.{or_else-returns}
use zsh_pro.Worktree.Service.Recorded.{authorize_shell-Holds}
use zsh_pro.Worktree.Service.Admission.{seed_registry_from_state, admitted_snapshot}
use zsh_pro.Worktree.Service.Admission.Keeps.{
  AdmitsOnly, seed_registry_from_state-AdmitsOnly, admitted_snapshot-AdmitsOnly,
}
use zsh_pro.Live.Errors.{Error}
use zsh_pro.Worktree.Service.Publish.{states_of, no_pending_kind}
use zsh_pro.Worktree.Service.Attach.{no_pending, clone_snapshot}
use zsh_pro.Worktree.Service.Acknowledge.{
  AcknowledgeRequest, same_target, still_backed, settle, acknowledged_shell, record_acknowledge,
  acknowledge_new, acknowledge_fingerprint, acknowledge_known, acknowledge_state,
}
use zsh_pro.Worktree.Service.Pull.{
  PreparePullRequest, preparable, pending_pull, record_prepare, prepare_new,
}
use zsh_pro.Worktree.Service.Pull.Replay.{Prepared, prepare_new-Prepared}

-- The shell shows the shared state of the head.
pub record IsAtHead (s : State) (shell : ShellState) : Type 0 where
  pub applied : shell.applied_revision ≡ s.head_revision
  pub behind : shell.behind ≡ false
  pub pending : shell.pending ≡ no_pending

-- What is pending, as it was prepared.
record IsTarget (s : State) (r : PreparePullResult) (target : Bytes) (shell : ShellState)
    : Type 0 where
  changes : List LiveChange
  pending : shell.pending ≡ pending_pull s.head_revision target r.token changes
  conflict : is_some shell.conflict ≡ false

module _ (x : External) (registry : Registry) (s : State) (r : PreparePullResult) (target : Bytes)
    (shell : ShellState) (observed : List LiveIdentityState) where
  IsTarget-IsAtHead :
      IsTarget s r target shell → IsAtHead s (acknowledged_shell shell s.head_revision observed)
  unfolding acknowledged_shell settle pending_pull is_resolution
  IsTarget-IsAtHead t = record {
    applied = ap (λ p. p.revision) t.pending;
    behind = rw (t.pending) (ground (arith, t.conflict));
    pending = refl;
  }

  IsTarget-same_target :
      (request : AcknowledgeRequest)
      → IsTarget s r target shell
      → request.revision ≡ s.head_revision
      → request.token ≡ r.token
      → same_target shell.pending request ≡ true
  unfolding same_target pending_pull no_pending_kind
  IsTarget-same_target request t same_revision same_token =
      rw (t.pending) (ground (arith, same_revision, same_token))

  IsTarget-still_backed : IsTarget s r target shell → still_backed shell.pending shell ≡ true
  unfolding still_backed is_resolution pending_pull
  IsTarget-still_backed t = rw (t.pending) refl

  IsTarget-fingerprint : IsTarget s r target shell → (target == shell.pending.fingerprint) ≡ true
  unfolding pending_pull
  IsTarget-fingerprint t = rw (t.pending) (ground arith)

  IsTarget-acknowledge_new :
      (request : AcknowledgeRequest) (fingerprint : Bytes)
      → IsTarget s r target shell
      → request.revision ≡ s.head_revision
      → request.token ≡ r.token
      → fingerprint_snapshot x (states_of observed) ≡ ok target
      → acknowledge_new x registry request fingerprint s shell observed
        ≡ ok (record_acknowledge request fingerprint s shell observed)
  unfolding acknowledge_new or_else
  IsTarget-acknowledge_new request fingerprint t same_revision same_token shows = rw (
    IsTarget-same_target request t same_revision same_token,
    IsTarget-still_backed t,
    shows,
    IsTarget-fingerprint t,
  )

preparable-parts :
    (shell : ShellState)
    → preparable shell ≡ ok tt
    → (is_some shell.conflict ≡ false) × (no_pending_kind shell.pending.kind ≡ true)
unfolding preparable
preparable-parts shell h = ground arith

module _ (x : External) (registry : Registry) (request : PreparePullRequest) where
  Prepared-lookup :
      (fingerprint : Bytes) (s s' : State) (shell : ShellState) (r : PreparePullResult)
      → (p : Prepared x request fingerprint s shell s' r)
      → (lookup request.credential.shell_id s'.shells ≡ some p.next)
        × (s'.head_revision ≡ s.head_revision)
        × (s'.shared ≡ s.shared)
  unfolding record_prepare append_receipt
  Prepared-lookup fingerprint s s' shell r p =
      let e = ok-injective _ (s', r) p.records in
      (
        ap (λ out. lookup request.credential.shell_id out.0.shells) (sym e)
            ∙ ground (
              arith,
              lookup-insert request.credential.shell_id request.credential.shell_id p.next s.shells,
            ),
        ap (λ out. out.0.head_revision) (sym e),
        ap (λ out. out.0.shared) (sym e),
      )

  Prepared-IsTarget :
      (fingerprint : Bytes) (s s' : State) (shell : ShellState) (r : PreparePullResult)
      → preparable shell ≡ ok tt
      → (p : Prepared x request fingerprint s shell s' r) → ltb 0 r.pending_revision ≡ true
      → (target : Bytes) × (fingerprint_snapshot x (states_of s'.shared) ≡ ok target)
        × (r.pending_revision ≡ s'.head_revision)
        × IsTarget s' r target p.next
  Prepared-IsTarget fingerprint s s' shell r allowed p some_pull =
      let (_, head, shared) = Prepared-lookup fingerprint s s' shell r p in
      elim p.pending [
        | inl (_, z) ↦ absurd (ground arith)
        | inr (target, digest, at, changes, pending) ↦ (
          target,
          ap (λ ss. fingerprint_snapshot x (states_of ss)) shared ∙ digest,
          at ∙ sym head,
          record {
            changes = changes;
            pending = pending ∙ ap (λ n. pending_pull n target r.token changes) (sym head);
            conflict = ap is_some p.conflict ∙ (preparable-parts shell allowed).0;
          },
        )
      ]

  IsTarget-head :
      (s s₂ : State) (r : PreparePullResult) (target : Bytes) (shell : ShellState)
      → s.head_revision ≡ s₂.head_revision
      → IsTarget s r target shell
      → IsTarget s₂ r target shell
  IsTarget-head s s₂ r target shell same t = record {
    changes = t.changes;
    pending = t.pending ∙ ap (λ n. pending_pull n target r.token t.changes) same;
    conflict = t.conflict;
  }

  recorded-lookup :
      (a : AcknowledgeRequest) (again : Bytes) (s : State) (shell : ShellState)
      (observed : List LiveIdentityState)
      → a.credential.shell_id ≡ request.credential.shell_id
      → lookup request.credential.shell_id (record_acknowledge a again s shell observed).0.shells
        ≡ some (acknowledged_shell shell s.head_revision observed)
  unfolding record_acknowledge append_receipt
  recorded-lookup a again s shell observed same =
      lookup-insert a.credential.shell_id request.credential.shell_id
        (acknowledged_shell shell s.head_revision observed) s.shells
      ∙ ground (arith, same)

  recorded-IsAtHead :
      (a : AcknowledgeRequest) (again : Bytes) (s : State) (shell : ShellState)
      (observed : List LiveIdentityState)
      → IsAtHead s (acknowledged_shell shell s.head_revision observed)
      → IsAtHead
          (record_acknowledge a again s shell observed).0
          (acknowledged_shell shell s.head_revision observed)
  unfolding record_acknowledge append_receipt
  recorded-IsAtHead a again s shell observed h = record {
    applied = h.applied;
    behind = h.behind;
    pending = h.pending;
  }

  some-injective : (a b : ShellState) → some a ≡ some b → a ≡ b
  some-injective a b h = cc

  -- A pull that is prepared can be acknowledged: if the call names a pending revision, the body of
  -- an acknowledgement of that revision and token, with the same credential, succeeds on the stored
  -- state, if the credential is authorized, the registry can be seeded, the operation is new, and
  -- what the registry admits of the observed snapshot has the fingerprint of the shared states. The
  -- record that it leaves of the shell is then at the head, not behind it, with nothing pending.
  pub prepare_new-IsAtHead :
      (fingerprint : Bytes) (s s' s₁ s₂ : State) (shell next : ShellState) (r : PreparePullResult)
      (acknowledged : AcknowledgeRequest) (seeded : Registry) (observed : List LiveIdentityState)
      → prepare_new x request fingerprint s shell ≡ ok (s', r)
      → ltb 0 r.pending_revision ≡ true
      → acknowledged.credential ≡ request.credential
      → acknowledged.revision ≡ r.pending_revision
      → acknowledged.token ≡ r.token
      → authorize_shell x s' acknowledged.credential ≡ ok next
      → recover (seed_registry_from_state registry s') ≡ ok (seeded, s₁)
      → admitted_snapshot seeded s₁ next (clone_snapshot acknowledged.snapshot) ≡ ok (s₂, observed)
      → receipt_for s₂ acknowledged.credential.shell_id acknowledged.operation_id ≡ none
      → fingerprint_snapshot x (states_of observed) ≡ fingerprint_snapshot x (states_of s'.shared)
      → (t : State) × (answer : AcknowledgeResult) × (last : ShellState) × (acknowledge_state x
            registry acknowledged s'
          ≡ ok (t, answer))
        × (lookup request.credential.shell_id t.shells ≡ some last)
        × IsAtHead t last
  unfolding acknowledge_state acknowledge_known
  prepare_new-IsAtHead fingerprint s s' s₁ s₂ shell next r acknowledged seeded observed h some_pull
        same_credential same_revision same_token authorized seeds admits fresh shows =
      let (allowed, p) = prepare_new-Prepared x request fingerprint s s' shell r h in
      let (target, digest, at, t) =
        Prepared-IsTarget fingerprint s s' shell r allowed p some_pull in
      let found : lookup request.credential.shell_id s'.shells ≡ some next =
        ap (λ c. lookup c.shell_id s'.shells) (sym same_credential)
        ∙ (authorize_shell-Holds x s' acknowledged.credential next authorized).known in
      let same : p.next ≡ next =
        some-injective p.next next (sym (Prepared-lookup fingerprint s s' shell r p).0 ∙ found) in
      let only : AdmitsOnly s' s₂ =
        admitted_snapshot-AdmitsOnly seeded s₁ next (clone_snapshot acknowledged.snapshot)
          (s₂, observed) admits
        ∙ seed_registry_from_state-AdmitsOnly registry s' (seeded, s₁)
            (or_else-returns Error.recovery_required (seed_registry_from_state registry s')
              seeds) in
      let head : s₂.head_revision ≡ s'.head_revision = ap (λ u. u.head_revision) only in
      let u : IsTarget s₂ r target next =
        IsTarget-head s' s₂ r target next (sym head) (subst (IsTarget s' r target) same t) in
      let again = acknowledge_fingerprint x registry acknowledged observed in
      let done = record_acknowledge acknowledged again s₂ next observed in
      (
        done.0,
        done.1,
        acknowledged_shell next s₂.head_revision observed,
        rw (authorized, seeds, admits, fresh)
            (IsTarget-acknowledge_new x registry s₂ r target next observed acknowledged again u
              (same_revision ∙ at ∙ sym head) same_token (shows ∙ digest)),
        recorded-lookup acknowledged again s₂ next observed (ap (λ c. c.shell_id) same_credential),
        recorded-IsAtHead acknowledged again s₂ next observed
            (IsTarget-IsAtHead x registry s₂ r target next observed u),
      )
