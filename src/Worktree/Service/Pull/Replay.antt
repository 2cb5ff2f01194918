-- ===== src/Worktree/Service/Pull/Replay.antt =====
-- What PreparePull of core/worktree/service.go records, and a repeated call of it.
use zsh_pro.Prelude.{
  ◌≡◌, refl, ap, ◌∙◌, subst, ◌&&◌, List, ◌==◌, nat_eq, ◌⊎◌, inl, inr, ok, step-returns,
  check-returns, ok-injective, choice-gives, arith,
}
use zsh_pro.Data.Bytes.{Bytes, bytes_eq}
use zsh_pro.Live.Types.{LiveChange}
use zsh_pro.Worktree.Diff.{diff_snapshot}
use zsh_pro.Worktree.State.{State, ShellState, PreparePullResult, OperationReceipt}
use zsh_pro.Worktree.State.Shell.{is_empty}
use zsh_pro.Worktree.Service.Digest.{External, fingerprint_snapshot}
use zsh_pro.Worktree.Service.Transaction.{receipt_result}
use zsh_pro.Worktree.Service.Recorded.{Recorded, append_receipt-Recorded}
use zsh_pro.Worktree.Service.Publish.{states_of}
use zsh_pro.Worktree.Service.Pull.{
  PreparePullRequest, prepare_receipt, is_prepare, prepare_again, preparable, forget_applied,
  pending_pull, record_prepare, prepare_target, prepare_changes, prepare_new,
}

module _ (x : External) (request : PreparePullRequest) where
  abbrev id : Bytes
  id = request.credential.shell_id

  -- The shell and the result that are recorded: a pull is pending for the shared state of the
  -- head, unless nothing is to be pulled.
  pub record Prepared (fingerprint : Bytes) (s : State) (shell : ShellState) (s' : State)
      (r : PreparePullResult) : Type 0 where
    pub next : ShellState
    pub verifier : next.capability_verifier ≡ shell.capability_verifier
    pub conflict : next.conflict ≡ shell.conflict
    pub records : record_prepare request fingerprint s next r ≡ ok (s', r)
    pub pending :
        ((next.pending ≡ shell.pending) × (r.pending_revision ≡ 0))
        ⊎ ((target : Bytes) × (fingerprint_snapshot x (states_of s.shared) ≡ ok target)
            × (r.pending_revision ≡ s.head_revision)
            × (changes : List LiveChange) × (next.pending
                ≡ pending_pull s.head_revision target r.token changes))

  prepare_target-Prepared :
      (fingerprint : Bytes) (s s' : State) (shell : ShellState) (changes : List LiveChange)
      (r : PreparePullResult)
      → prepare_target x request fingerprint s shell changes ≡ ok (s', r)
      → Prepared fingerprint s shell s' r
  unfolding prepare_target record_prepare
  prepare_target-Prepared fingerprint s s' shell changes r h =
      let (target, digest, h₁) = step-returns (fingerprint_snapshot x (states_of s.shared)) _ h in
      let same = ap (λ out. out.1) (ok-injective _ (s', r) h₁) in
      subst (λ out. Prepared fingerprint s shell out.0 out.1) (ok-injective _ (s', r) h₁)
        (record {
          next = _;
          verifier = refl;
          conflict = refl;
          records = refl;
          pending = inr (target, digest, refl, changes, refl);
        })

  prepare_changes-Prepared :
      (fingerprint : Bytes) (s s' : State) (shell : ShellState) (changes : List LiveChange)
      (r : PreparePullResult)
      → prepare_changes x request fingerprint s shell changes ≡ ok (s', r)
      → Prepared fingerprint s shell s' r
  unfolding prepare_changes record_prepare
  prepare_changes-Prepared fingerprint s s' shell changes r h =
      elim (choice-gives
        (is_empty changes
          && request.applied_revision == s.head_revision
          && shell.applied_revision == s.head_revision)
        _ _ h) [
          | inl (_, h₁) ↦
              subst (λ out. Prepared fingerprint s shell out.0 out.1) (ok-injective _ (s', r) h₁)
                (record {
                  next = record shell { last_active_revision = s.head_revision };
                  verifier = refl;
                  conflict = refl;
                  records = refl;
                  pending = inl (refl, refl);
                })
          | inr (_, h₁) ↦ prepare_target-Prepared fingerprint s s' shell changes r h₁
        ]

  forget_applied-keeps :
      (shell : ShellState)
      → ((forget_applied request shell).capability_verifier ≡ shell.capability_verifier)
        × ((forget_applied request shell).conflict ≡ shell.conflict)
        × ((forget_applied request shell).pending ≡ shell.pending)
  unfolding forget_applied
  forget_applied-keeps shell = ground arith

  pub prepare_new-Prepared :
      (fingerprint : Bytes) (s s' : State) (shell : ShellState) (r : PreparePullResult)
      → prepare_new x request fingerprint s shell ≡ ok (s', r)
      → (preparable shell ≡ ok tt) × Prepared fingerprint s shell s' r
  unfolding prepare_new
  prepare_new-Prepared fingerprint s s' shell r h =
      let (allowed, h₁) = check-returns (preparable shell) _ h in
      let (changes, _, h₂) =
        step-returns (diff_snapshot (states_of shell.capture_baseline) (states_of s.shared)) _ h₁ in
      let p =
        prepare_changes-Prepared fingerprint s s' (forget_applied request shell) changes r h₂ in
      let (v, c, q) = forget_applied-keeps shell in
      (
        allowed,
        record {
          next = p.next;
          verifier = p.verifier ∙ v;
          conflict = p.conflict ∙ c;
          records = p.records;
          pending = elim p.pending [ inl (e, z) ↦ inl (e ∙ q, z) | inr e ↦ inr e ];
        },
      )

  pub Prepared-Recorded :
      (fingerprint : Bytes) (s s' : State) (shell : ShellState) (r : PreparePullResult)
      → (p : Prepared fingerprint s shell s' r)
      → Recorded id s shell (prepare_receipt id request.operation_id fingerprint r) s'
  unfolding record_prepare
  Prepared-Recorded fingerprint s s' shell r p =
      subst
        (λ out. Recorded id s shell (prepare_receipt id request.operation_id fingerprint r) out.0)
        (ok-injective _ (s', r) p.records)
        (append_receipt-Recorded id s s shell p.next _ refl refl p.verifier)

  pub prepare_again-keeps :
      (fingerprint : Bytes) (s s' : State) (q : OperationReceipt) (r : PreparePullResult)
      → prepare_again fingerprint s q ≡ ok (s', r)
      → s' ≡ s
  unfolding prepare_again
  prepare_again-keeps fingerprint s s' q r h =
      let (result, _, h₁) =
        step-returns (receipt_result (is_prepare q.kind) fingerprint q q.prepare_pull) _ h in
      ground arith
