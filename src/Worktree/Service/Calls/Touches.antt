-- ===== src/Worktree/Service/Calls/Touches.antt =====
-- The operations that a shell calls with its credential: core/worktree/service.go.
use zsh_pro.Prelude.{
  ◌≡◌, sym, ap, ◌∙◌, false, Option, none, some, List, ◌==◌, ok, guard, step-returns, check-returns,
  ok-injective, ◌⊎◌, inl, inr, arith,
}
use zsh_pro.Data.Bytes.{Bytes, bytes_eq}
use zsh_pro.Data.Dict.{lookup, insert, lookup-insert}
use zsh_pro.Live.Types.{LiveIdentityState}
use zsh_pro.Live.Errors.{Error}
use zsh_pro.Worktree.Diff.{diff_snapshot}
use zsh_pro.Worktree.Registry.{Registry}
use zsh_pro.Worktree.State.{
  State, ShellState, OperationReceipt, PublishResult, PreparePullResult, ResolveSharedResult,
  AcknowledgeResult,
}
use zsh_pro.Worktree.Service.Digest.{External, fingerprint_snapshot}
use zsh_pro.Worktree.Service.Receipts.{append_receipt}
use zsh_pro.Worktree.Service.Admission.Keeps.{AdmitsOnly}
use zsh_pro.Worktree.Service.Transaction.{receipt_result, or_else}
use zsh_pro.Worktree.Service.Publish.{PublishRequest, states_of, publish_known, publish_fingerprint}
use zsh_pro.Worktree.Service.Publish.Replay.{publish_again-keeps, publish_new-Recorded}
use zsh_pro.Worktree.Service.Pull.{PreparePullRequest, prepare_known, prepare_fingerprint}
use zsh_pro.Worktree.Service.Pull.Replay.{
  prepare_again-keeps, prepare_new-Prepared, Prepared-Recorded,
}
use zsh_pro.Worktree.Service.Resolve.{
  ResolveSharedRequest, is_resolve, resolve_again, resolvable, record_resolve, resolve_new,
  resolve_known, resolve_fingerprint,
}
use zsh_pro.Worktree.Service.Acknowledge.{
  AcknowledgeRequest, is_acknowledge, acknowledge_again, acknowledge_known, acknowledge_fingerprint,
}
use zsh_pro.Worktree.Service.Acknowledge.Confirms.{acknowledge_new-Confirmed}

-- The shells of the second state are those of the first, but for the record of `id` at most.
abbrev pub Touches : Bytes → State → State → Type 0
Touches id s s' =
    (s'.shells ≡ s.shells) ⊎ ((next : ShellState) × (s'.shells ≡ insert id next s.shells))

pub Touches-lookup :
    (id j : Bytes) (s s' : State)
    → Touches id s s'
    → (id == j) ≡ false
    → lookup j s'.shells ≡ lookup j s.shells
Touches-lookup id j s s' (inl same) apart = ap (lookup j) same
Touches-lookup id j s s' (inr (next, put)) apart =
    ap (lookup j) put ∙ ground (arith, lookup-insert id j next s.shells)

pub Touches-AdmitsOnly :
    (id : Bytes) (s t s' : State) → AdmitsOnly s t → Touches id t s' → Touches id s s'
Touches-AdmitsOnly id s t s' admits (inl same) = inl (same ∙ ap (λ u. u.shells) admits)
Touches-AdmitsOnly id s t s' admits (inr (next, put)) =
    inr (next, put ∙ ap (λ u. insert id next u.shells) admits)

module _ (x : External) (registry : Registry) where
  pub publish_known-Touches :
      (request : PublishRequest) (s s' : State) (shell : ShellState) (r : PublishResult)
      (o : Option OperationReceipt)
      → publish_known x registry request s shell o ≡ ok (s', r)
      → Touches request.credential.shell_id s s'
  unfolding publish_known
  publish_known-Touches request s s' shell r (some q) h = inl (
      ap (λ u. u.shells)
        (publish_again-keeps x registry request (publish_fingerprint x registry request) s s' q r
          h))
  publish_known-Touches request s s' shell r none h =
      let d =
        publish_new-Recorded x registry request (publish_fingerprint x registry request) s s' shell
          r h in
      inr (d.shell', d.shells)

  pub prepare_known-Touches :
      (request : PreparePullRequest) (s s' : State) (shell : ShellState) (r : PreparePullResult)
      (o : Option OperationReceipt)
      → prepare_known x request s shell o ≡ ok (s', r)
      → Touches request.credential.shell_id s s'
  unfolding prepare_known
  prepare_known-Touches request s s' shell r (some q) h = inl (
      ap (λ u. u.shells) (prepare_again-keeps x request (prepare_fingerprint x request) s s' q r h))
  prepare_known-Touches request s s' shell r none h =
      let d =
        Prepared-Recorded x request (prepare_fingerprint x request) s s' shell r
          (prepare_new-Prepared x request (prepare_fingerprint x request) s s' shell r h).1 in
      inr (d.shell', d.shells)

  pub resolve_known-Touches :
      (request : ResolveSharedRequest) (s s' : State) (shell : ShellState)
      (observed : List LiveIdentityState) (r : ResolveSharedResult) (o : Option OperationReceipt)
      → resolve_known x registry request s shell observed o ≡ ok (s', r)
      → Touches request.credential.shell_id s s'
  unfolding resolve_known resolve_again resolve_new record_resolve append_receipt
  resolve_known-Touches request s s' shell observed r (some q) h =
      let (answer, _, h₁) =
        step-returns
          (receipt_result (is_resolve q.kind) (resolve_fingerprint x registry request observed) q
            q.resolve)
          _ h in
      inl (ap (λ out. out.0.shells) (sym (ok-injective _ (s', r) h₁)))
  resolve_known-Touches request s s' shell observed r none h =
      let (_, h₁) = check-returns (guard (resolvable shell request) _) _ h in
      let (seen, _, h₂) =
        step-returns
          (or_else Error.conflict_requires_resolution (fingerprint_snapshot x (states_of observed)))
          _ h₁ in
      let (baseline, _, h₃) =
        step-returns
          (or_else Error.conflict_requires_resolution
            (fingerprint_snapshot x (states_of shell.capture_baseline)))
          _ h₂ in
      let (_, h₄) = check-returns (guard (seen == baseline) _) _ h₃ in
      let (changes, _, h₅) =
        step-returns (diff_snapshot (states_of observed) (states_of s.shared)) _ h₄ in
      let (target, _, h₆) = step-returns (fingerprint_snapshot x (states_of s.shared)) _ h₅ in
      inr (_, ap (λ out. out.0.shells) (sym (ok-injective _ (s', r) h₆)))

  pub acknowledge_known-Touches :
      (request : AcknowledgeRequest) (s s' : State) (shell : ShellState)
      (observed : List LiveIdentityState) (r : AcknowledgeResult) (o : Option OperationReceipt)
      → acknowledge_known x registry request s shell observed o ≡ ok (s', r)
      → Touches request.credential.shell_id s s'
  unfolding acknowledge_known acknowledge_again
  acknowledge_known-Touches request s s' shell observed r (some q) h =
      let (answer, _, h₁) =
        step-returns
          (receipt_result (is_acknowledge q.kind)
            (acknowledge_fingerprint x registry request observed) q q.acknowledge)
          _ h in
      inl (ap (λ out. out.0.shells) (sym (ok-injective _ (s', r) h₁)))
  acknowledge_known-Touches request s s' shell observed r none h =
      let (next, put, _) =
        (acknowledge_new-Confirmed x registry request _ s s' shell observed r h).recorded in
      inr (next, put)
