-- ===== src/Worktree/Service/Recorded.antt =====
-- What an operation of one shell leaves behind: core/worktree/service.go.
use zsh_pro.Prelude.{
  ◌≡◌, Bool, sym, ap, ◌∙◌, true, Option, none, some, ok, choice-gives, inl, inr, arith,
}
use zsh_pro.Data.Bytes.{Bytes, bytes_eq}
use zsh_pro.Data.Dict.{lookup, insert, lookup-insert}
use zsh_pro.Worktree.State.{State, ShellState, OperationReceipt}
use zsh_pro.Worktree.State.Credential.{ShellCredential, verify_shell_capability}
use zsh_pro.Worktree.Service.Digest.{External, authorize_shell, authorize_record}
use zsh_pro.Worktree.Service.Receipts.{receipt_for, append_receipt}
use zsh_pro.Worktree.Service.Transaction.{recovered}
use zsh_pro.Worktree.Service.Transaction.Laws.{
  noted, noted_shell, noted_shell-verifier, noted-some, lookup-recovered_shells,
}
use zsh_pro.Worktree.Service.Receipts.Laws.{receipt_for-append_receipt}

-- Nothing of the shells but the record of `id`, which keeps its verifier, and the receipt of the
-- operation stands among the receipts.
pub record Recorded (id : Bytes) (s : State) (shell : ShellState) (q : OperationReceipt)
    (s' : State) : Type 0 where
  pub shell' : ShellState
  pub materialized : s'.materialized ≡ s.materialized
  pub shells : s'.shells ≡ insert id shell' s.shells
  pub verifier : shell'.capability_verifier ≡ shell.capability_verifier
  pub receipt : receipt_for s' q.shell_id q.operation_id ≡ some q

pub append_receipt-Recorded :
    (id : Bytes) (s t : State) (shell shell' : ShellState) (q : OperationReceipt)
    → t.materialized ≡ s.materialized
    → t.shells ≡ s.shells
    → shell'.capability_verifier ≡ shell.capability_verifier
    → Recorded id s shell q (append_receipt (record t { shells = insert id shell' t.shells }) q)
unfolding append_receipt
append_receipt-Recorded id s t shell shell' q m d v = record {
  shell' = shell';
  materialized = m;
  shells = ap (insert id shell') d;
  verifier = v;
  receipt = receipt_for-append_receipt (record t { shells = insert id shell' t.shells }) q;
}

module _ (x : External) where
  -- The credential is that of a shell of the state.
  pub record Holds (s : State) (c : ShellCredential) (shell : ShellState) : Type 0 where
    pub materialized : s.materialized ≡ true
    pub known : lookup c.shell_id s.shells ≡ some shell
    pub verified : verify_shell_capability x.sha256 shell.capability_verifier c.capability ≡ true

  authorize_record-returns :
      (c : ShellCredential) (o : Option ShellState) (shell : ShellState)
      → authorize_record x c o ≡ ok shell
      → (o ≡ some shell)
        × (verify_shell_capability x.sha256 shell.capability_verifier c.capability ≡ true)
  unfolding authorize_record
  authorize_record-returns c none shell h = absurd (ground arith)
  authorize_record-returns c (some found) shell h =
      elim (choice-gives (verify_shell_capability x.sha256 found.capability_verifier c.capability) _
        _ h) [
          | inl (verified, same) ↦
              let eq : found ≡ shell = ground arith in (ap some eq, rw (← eq, verified))
          | inr (_, bad) ↦ absurd (ground arith)
        ]

  pub authorize_shell-Holds :
      (s : State) (c : ShellCredential) (shell : ShellState)
      → authorize_shell x s c ≡ ok shell
      → Holds s c shell
  unfolding authorize_shell
  authorize_shell-Holds s c shell h = elim (choice-gives s.materialized _ _ h) [
    | inl (m, h₁) ↦
        let (known, verified) = authorize_record-returns c (lookup c.shell_id s.shells) shell h₁ in
        record { materialized = m; known = known; verified = verified }
    | inr (_, bad) ↦ absurd (ground arith)
  ]

  pub Holds-authorize_shell :
      (s : State) (c : ShellCredential) (shell : ShellState)
      → Holds s c shell
      → authorize_shell x s c ≡ ok shell
  unfolding authorize_shell authorize_record
  Holds-authorize_shell s c shell h = rw (h.materialized, h.known, h.verified)

  -- The projection of a recovered write changes no credential.
  pub Holds-recovered :
      (marked : Bool) (s : State) (c : ShellCredential) (shell : ShellState)
      → Holds s c shell
      → (next : ShellState) × Holds (recovered marked s) c next
  Holds-recovered marked s c shell h = (
    noted_shell marked shell,
    record {
      materialized = h.materialized;
      known = lookup-recovered_shells marked c.shell_id s.shells ∙ ap (noted marked) h.known;
      verified = rw (noted_shell-verifier marked shell) h.verified;
    },
  )

  pub recovered-Holds :
      (marked : Bool) (s : State) (c : ShellCredential) (shell : ShellState)
      → Holds (recovered marked s) c shell
      → (before : ShellState) × Holds s c before
  recovered-Holds marked s c shell h =
      let (before, known, same) =
        noted-some marked (lookup c.shell_id s.shells) shell
          (sym (lookup-recovered_shells marked c.shell_id s.shells) ∙ h.known) in
      (
        before,
        record { materialized = h.materialized; known = known; verified = rw (same) h.verified },
      )

  -- The shell of a recorded operation is still authorized.
  pub Recorded-Holds :
      (s s' : State) (c : ShellCredential) (shell : ShellState) (q : OperationReceipt)
      → Holds s c shell
      → (d : Recorded c.shell_id s shell q s') → Holds s' c d.shell'
  Recorded-Holds s s' c shell q h d = record {
    materialized = d.materialized ∙ h.materialized;
    known =
        ap (lookup c.shell_id) d.shells
        ∙ ground (arith, lookup-insert c.shell_id c.shell_id d.shell' s.shells);
    verified = rw (d.verifier, h.verified);
  }
