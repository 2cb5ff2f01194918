-- ===== src/Worktree/Service/Publish/Replay.antt =====
-- A repeated publication: Publish of core/worktree/service.go.
use zsh_pro.Prelude.{
  ℕ, ◌≡◌, refl, sym, ap, ◌∙◌, Bool, true, false, ◌||◌, ◌>>◌, Option, none, some, List, [], ◌∷◌, ok,
  subst, step-returns, check-returns, ok-injective, arith, ltb,
}
use zsh_pro.Data.Bytes.{Bytes, bytes_eq}
use zsh_pro.Live.Types.{Identity, LiveIdentityState, LiveChange}
use zsh_pro.Live.Errors.{Error}
use zsh_pro.Live.Normalize.{clone_live_changes, next_revision}
use zsh_pro.Worktree.Diff.{diff_snapshot}
use zsh_pro.Worktree.Apply.{validate_changes, apply_state_changes}
use zsh_pro.Worktree.History.{compact_state_history}
use zsh_pro.Worktree.Registry.{Registry}
use zsh_pro.Worktree.State.{State, ShellState, PublishResult, OperationReceipt}
use zsh_pro.Worktree.Service.Digest.{External, authorize_shell, validate_private_request}
use zsh_pro.Worktree.Service.Receipts.{receipt_for}
use zsh_pro.Worktree.Service.Admission.{seed_registry_from_state, admitted_changes}
use zsh_pro.Worktree.Service.Admission.Keeps.{
  AdmitsOnly, seed_registry_from_state-AdmitsOnly, admitted_changes-AdmitsOnly,
}
use zsh_pro.Worktree.Service.Transaction.{
  receipt_result, recover, recovered, recovered_shells, marshal_state,
}
use zsh_pro.Worktree.Service.Transaction.Laws.{
  with_transaction-returns, with_transaction-again, or_else-returns,
  recovered_shells-recovered_shells,
}
use zsh_pro.Worktree.Service.Recorded.{
  Recorded, append_receipt-Recorded, Holds, authorize_shell-Holds, Holds-authorize_shell,
  Recorded-Holds, Holds-recovered,
}
use zsh_pro.Worktree.Service.Publish.{
  PublishRequest, states_of, changed_identities_after, accepted_of, losing_of, publish_accepted,
  publish_shell, publish_receipt, publish_again, publishable, record_publish, publish_new,
  publish_fingerprint, publish_known, publish_state, publish, is_publish,
}

-- What publication adds to the state before the shell is recorded.
pub publish_accepted-keeps :
    (s : State) (request : PublishRequest) (cs : List LiveChange) (out : State)
    → publish_accepted s request cs ≡ ok out
    → (out.materialized ≡ s.materialized) × (out.shells ≡ s.shells)
unfolding publish_accepted
publish_accepted-keeps s request [] out h = (ground arith, ground arith)
publish_accepted-keeps s request (c ∷ cs) out h =
    let (next, _, h₁) = step-returns (next_revision s.head_revision) _ h in
    let (shared, _, h₂) = step-returns (apply_state_changes s.shared (c ∷ cs)) _ h₁ in
    let (history, _, h₃) = step-returns (compact_state_history _) _ h₂ in
    (ground arith, ground arith)

module _ (x : External) (registry : Registry) (request : PublishRequest) where
  abbrev pub gap_in : State → Bool
  gap_in s = ltb request.acknowledged_revision s.compaction_floor

  abbrev pub remote_in : State → List Identity
  remote_in s = changed_identities_after s.events request.acknowledged_revision

  abbrev pub accepted_in : State → List LiveChange → List LiveChange
  accepted_in s = accepted_of (gap_in s) (remote_in s) s.shared

  abbrev pub losing_in : State → List LiveChange → List LiveChange
  losing_in s = losing_of (gap_in s) (remote_in s) s.shared

  -- The parts of a publication that is new, in the order in which they are computed.
  pub record Published (fingerprint : Bytes) (s : State) (shell : ShellState) (s' : State)
      (r : PublishResult) : Type 0 where
    pub admitting : State
    pub semantic : List LiveChange
    pub observed : List LiveIdentityState
    pub sharing : State
    pub admits : AdmitsOnly s admitting
    pub allowed : publishable shell request ≡ ok tt
    pub differs :
        diff_snapshot (states_of shell.capture_baseline) (states_of observed) ≡ ok semantic
    pub accepts : publish_accepted admitting request (accepted_in admitting semantic) ≡ ok sharing
    pub records :
        record_publish x registry request fingerprint shell observed
          (gap_in admitting)
          (accepted_in admitting semantic)
          (losing_in admitting semantic)
          sharing
        ≡ (s', r)

  pub publish_new-Published :
      (fingerprint : Bytes) (s s' : State) (shell : ShellState) (r : PublishResult)
      → publish_new x registry request fingerprint s shell ≡ ok (s', r)
      → Published fingerprint s shell s' r
  unfolding publish_new
  publish_new-Published fingerprint s s' shell r h =
      let (allowed, h₁) = check-returns (publishable shell request) _ h in
      let ((seeded, s₁), seeds, h₂) =
        step-returns (recover (seed_registry_from_state registry s)) _ h₁ in
      let (_, h₃) = check-returns (validate_changes (clone_live_changes request.delta)) _ h₂ in
      let ((s₂, admitted), admits, h₄) =
        step-returns (admitted_changes seeded s₁ shell (clone_live_changes request.delta)) _ h₃ in
      let (observed, _, h₅) =
        step-returns (apply_state_changes shell.capture_baseline admitted) _ h₄ in
      let (semantic, differs, h₆) =
        step-returns (diff_snapshot (states_of shell.capture_baseline) (states_of observed)) _ h₅ in
      let (s₃, accepts, h₇) = step-returns (publish_accepted s₂ request _) _ h₆ in
      let only : AdmitsOnly s s₂ =
        admitted_changes-AdmitsOnly seeded s₁ shell (clone_live_changes request.delta)
          (s₂, admitted) admits
        ∙ seed_registry_from_state-AdmitsOnly registry s (seeded, s₁)
            (or_else-returns Error.recovery_required (seed_registry_from_state registry s) seeds) in
      record {
        admitting = s₂;
        semantic = semantic;
        observed = observed;
        sharing = s₃;
        admits = only;
        allowed = allowed;
        differs = differs;
        accepts = accepts;
        records = ok-injective _ _ h₇;
      }

publish_shell-verifier :
    (shell : ShellState) (request : PublishRequest) (observed : List LiveIdentityState) (gap : Bool)
    (head : ℕ) (token : Bytes) (losing : List LiveChange)
    → (publish_shell shell request observed gap head token losing).capability_verifier
      ≡ shell.capability_verifier
unfolding publish_shell
publish_shell-verifier shell request observed gap head token [] = refl
publish_shell-verifier shell request observed gap head token (c ∷ cs) = refl

module _ (x : External) (registry : Registry) (request : PublishRequest) where
  abbrev id : Bytes
  id = request.credential.shell_id

  Published-Recorded :
      (fingerprint : Bytes) (s s' : State) (shell : ShellState) (r : PublishResult)
      → Published x registry request fingerprint s shell s' r
      → Recorded id s shell (publish_receipt id request.operation_id fingerprint r) s'
  unfolding record_publish
  Published-Recorded fingerprint s s' shell r p =
      let (m, d) = publish_accepted-keeps p.admitting request _ p.sharing p.accepts in
      subst
        (λ out.
          Recorded id s shell (publish_receipt id request.operation_id fingerprint out.1) out.0)
        p.records
        (append_receipt-Recorded id s p.sharing shell _ _ (m ∙ ap (λ s. s.materialized) p.admits)
          (d ∙ ap (λ s. s.shells) p.admits)
          (publish_shell-verifier shell request p.observed _ _ _ _))

  pub publish_new-Recorded :
      (fingerprint : Bytes) (s s' : State) (shell : ShellState) (r : PublishResult)
      → publish_new x registry request fingerprint s shell ≡ ok (s', r)
      → Recorded id s shell (publish_receipt id request.operation_id fingerprint r) s'
  publish_new-Recorded fingerprint s s' shell r h =
      Published-Recorded fingerprint s s' shell r
        (publish_new-Published x registry request fingerprint s s' shell r h)

  -- What a receipt of the same request returns.
  publish_again-own :
      (fingerprint : Bytes) (s : State) (r : PublishResult)
      → publish_again fingerprint s (publish_receipt id request.operation_id fingerprint r)
        ≡ ok (s, r)
  unfolding publish_again publish_receipt is_publish receipt_result
  publish_again-own fingerprint s r = ground arith

  pub publish_again-keeps :
      (fingerprint : Bytes) (s s' : State) (q : OperationReceipt) (r : PublishResult)
      → publish_again fingerprint s q ≡ ok (s', r)
      → s' ≡ s
  unfolding publish_again
  publish_again-keeps fingerprint s s' q r h =
      let (result, _, h₁) =
        step-returns (receipt_result (is_publish q.kind) fingerprint q q.publish) _ h in
      ground arith

  publish_again-elsewhere :
      (fingerprint : Bytes) (s s' u : State) (q : OperationReceipt) (r : PublishResult)
      → publish_again fingerprint s q ≡ ok (s', r)
      → publish_again fingerprint u q ≡ ok (u, r)
  unfolding publish_again
  publish_again-elsewhere fingerprint s s' u q r h =
      let (result, found, h₁) =
        step-returns (receipt_result (is_publish q.kind) fingerprint q q.publish) _ h in
      rw (found) (ap (λ out. ok (u, out.1)) (ok-injective (s, result) (s', r) h₁))

  publish_known-again :
      (marked : Bool) (s s' : State) (shell : ShellState) (r : PublishResult)
      (o : Option OperationReceipt)
      → Holds x s request.credential shell
      → receipt_for s id request.operation_id ≡ o
      → publish_known x registry request s shell o ≡ ok (s', r)
      → publish_state x registry request (recovered marked s') ≡ ok (recovered marked s', r)
  unfolding publish_state publish_known publish_receipt receipt_for
  publish_known-again marked s s' shell r (some q) holds found h =
      let same : s' ≡ s = publish_again-keeps (publish_fingerprint x registry request) s s' q r h in
      let (next, still) = Holds-recovered x marked s request.credential shell holds in
      rw (
        same,
        Holds-authorize_shell x (recovered marked s) request.credential next still,
        found,
        publish_again-elsewhere (publish_fingerprint x registry request) s s' (recovered marked s) q
            r h,
      )
  publish_known-again marked s s' shell r none holds fresh h =
      let fingerprint = publish_fingerprint x registry request in
      let d = publish_new-Recorded fingerprint s s' shell r h in
      let found : receipt_for s' id request.operation_id
          ≡ some (publish_receipt id request.operation_id fingerprint r) =
        d.receipt in
      let (next, still) =
        Holds-recovered x marked s' request.credential d.shell'
          (Recorded-Holds x s s' request.credential shell _ holds d) in
      rw (
        Holds-authorize_shell x (recovered marked s') request.credential next still,
        found,
        publish_again-own fingerprint (recovered marked s') r,
      )

  publish_state-again :
      (marked : Bool) (s s' : State) (r : PublishResult)
      → publish_state x registry request s ≡ ok (s', r)
      → publish_state x registry request (recovered marked s') ≡ ok (recovered marked s', r)
  unfolding publish_state
  publish_state-again marked s s' r h =
      let (shell, authorized, h₁) = step-returns (authorize_shell x s request.credential) _ h in
      publish_known-again marked s s' shell r _
        (authorize_shell-Holds x s request.credential shell authorized) refl h₁

  publish-repeated :
      (first marked : Bool) (s s' : State) (r : PublishResult)
      → publish x registry request first s ≡ ok (s', r)
      → (publish x registry request marked s'
          ≡ (marshal_state x (recovered marked s') >> ok (recovered marked s', r)))
        × (marshal_state x s' ≡ ok tt)
  unfolding publish
  publish-repeated first marked s s' r h =
      let (valid, h₁) =
        check-returns (validate_private_request request.operation_id request.credential) _ h in
      let (changes, h₂) = check-returns (validate_changes request.delta) _ h₁ in
      let (t, run, end, stores) =
        with_transaction-returns x first (publish_state x registry request) s s' r h₂ in
      let both : recovered (marked || first) t ≡ recovered marked s' =
        ap (λ d. record t { shells = d })
          (sym (recovered_shells-recovered_shells marked first t.shells))
        ∙ ap (recovered marked) end in
      let again =
        subst (λ u. publish_state x registry request u ≡ ok (u, r)) both
          (publish_state-again (marked || first) (recovered first s) t r run) in
      (
        rw (valid, changes)
            (with_transaction-again x marked (publish_state x registry request) s' r again),
        stores,
      )

  -- A publication that has returned a result can be sent again: without the marker of a recovered
  -- write, the second call returns the same result and leaves the state as the first has left it.
  -- With the marker, if the state with the recovered error in each record of a shell can be stored,
  -- the second call stores just that and returns the same result.
  pub publish-publish :
      (marked : Bool) (s s' : State) (r : PublishResult)
      → publish x registry request marked s ≡ ok (s', r)
      → (publish x registry request false s' ≡ ok (s', r))
        × (publish x registry request true s'
            ≡ (marshal_state x (recovered true s') >> ok (recovered true s', r)))
  unfolding recovered_shells
  publish-publish marked s s' r h =
      let (plain, stores) = publish-repeated marked false s s' r h in
      (plain ∙ ap (λ done. done >> ok (s', r)) stores, (publish-repeated marked true s s' r h).0)
