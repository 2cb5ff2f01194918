-- ===== src/Worktree/Service/Admission/Keeps.antt =====
-- What admission leaves as it is: core/worktree/service.go.
use zsh_pro.Prelude.{
  ◌≡◌, Bool, false, List, [], ◌∷◌, ok, step-returns, check-returns, choice-gives, inl, inr, arith,
  select,
}
use zsh_pro.Live.Types.{Identity, identity_eq, LiveIdentityState, LiveSnapshot, LiveChange}
use zsh_pro.Live.Normalize.{normalize_live_states}
use zsh_pro.Worktree.Registry.{
  Registry, AttachmentResult, admit, allows_live_value, restore_admitted,
}
use zsh_pro.Worktree.Registry.Seed.{seed}
use zsh_pro.Worktree.State.{State, ShellState}
use zsh_pro.Worktree.State.Validate.{validate_admitted_identities}
use zsh_pro.Worktree.Service.Admission.{
  migrate_admitted, restore_state, seed_registry_from_state, append_admitted_identity, admit_new,
  let_through, admit_each, admitted_changes, admitted_snapshot,
}

-- The state but for the identities that are admitted.
abbrev pub rest_of : State → State
rest_of s = record s { admitted_identities = []; admitted_identities_missing = false }

abbrev pub AdmitsOnly : State → State → Type 0
AdmitsOnly s s' = rest_of s' ≡ rest_of s

migrate_admitted-AdmitsOnly :
    (r : Registry) (s : State) (out : Registry × State)
    → migrate_admitted r s ≡ ok out
    → AdmitsOnly s out.1
unfolding migrate_admitted
migrate_admitted-AdmitsOnly r s out h =
    let (_, h₁) = check-returns (validate_admitted_identities _) _ h in
    let (_, _, h₂) = step-returns (restore_admitted r _) _ h₁ in ground arith

restore_state-AdmitsOnly :
    (r : Registry) (s : State) (out : Registry × State)
    → restore_state r s ≡ ok out
    → AdmitsOnly s out.1
unfolding restore_state
restore_state-AdmitsOnly r s out h =
    let (_, h₁) = check-returns (validate_admitted_identities _) _ h in
    let (_, _, h₂) = step-returns (restore_admitted r _) _ h₁ in ground arith

pub seed_registry_from_state-AdmitsOnly :
    (r : Registry) (s : State) (out : Registry × State)
    → seed_registry_from_state r s ≡ ok out
    → AdmitsOnly s out.1
unfolding seed_registry_from_state
seed_registry_from_state-AdmitsOnly r s out h =
    let (seeded, _, h₁) = step-returns (seed r s.committed.source) _ h in
    ground (arith, migrate_admitted-AdmitsOnly seeded s out, restore_state-AdmitsOnly seeded s out)

append_admitted_identity-AdmitsOnly :
    (s : State) (i : Identity) (out : State)
    → append_admitted_identity s i ≡ ok out
    → AdmitsOnly s out
unfolding append_admitted_identity
append_admitted_identity-AdmitsOnly s i out h = ground arith

pub let_through-AdmitsOnly :
    (r : Registry) (s : State) (a : AttachmentResult) (i : Identity) (out : Bool × Registry × State)
    → let_through r s a i ≡ ok out
    → AdmitsOnly s out.2
unfolding let_through admit_new
let_through-AdmitsOnly r s a i out h = elim (choice-gives (allows_live_value r i) _ _ h) [
  | inl (_, h₁) ↦ ground arith
  | inr (_, h₁) ↦ elim (choice-gives ((admit r a i).1.admitted) _ _ h₁) [
    | inl (_, h₂) ↦
        let (s', first, h₃) = step-returns (append_admitted_identity s i) _ h₂ in
        ground (arith, append_admitted_identity-AdmitsOnly s i s' first)
    | inr (_, h₂) ↦ ground arith
  ]
]

module _ {A : Type 0} (key : A → Identity) (copy : A → A) (a : AttachmentResult) where
  pub admit_each-AdmitsOnly :
      (r : Registry) (s : State) (cs : List A) (out : State × List A)
      → admit_each key copy a r s cs ≡ ok out
      → AdmitsOnly s out.0
  unfolding admit_each
  admit_each-AdmitsOnly r s [] out h = ground arith
  admit_each-AdmitsOnly r s (c ∷ cs) out h =
      let ((passes, r', s'), first, h₁) = step-returns (let_through r s a (key c)) _ h in
      let ((s'', kept), rest, h₂) = step-returns (admit_each key copy a r' s' cs) _ h₁ in
      ground (
        arith,
        let_through-AdmitsOnly r s a (key c) (passes, r', s') first,
        admit_each-AdmitsOnly r' s' cs (s'', kept) rest,
      )

pub admitted_changes-AdmitsOnly :
    (r : Registry) (s : State) (shell : ShellState) (cs : List LiveChange)
    (out : State × List LiveChange)
    → admitted_changes r s shell cs ≡ ok out
    → AdmitsOnly s out.0
unfolding admitted_changes
admitted_changes-AdmitsOnly r s shell cs out h = admit_each-AdmitsOnly _ _ _ r s cs out h

pub admitted_snapshot-AdmitsOnly :
    (r : Registry) (s : State) (shell : ShellState) (snapshot : LiveSnapshot)
    (out : State × List LiveIdentityState)
    → admitted_snapshot r s shell snapshot ≡ ok out
    → AdmitsOnly s out.0
unfolding admitted_snapshot
admitted_snapshot-AdmitsOnly r s shell snapshot out h =
    let (normalized, _, h₁) = step-returns (normalize_live_states snapshot.states) _ h in
    admit_each-AdmitsOnly _ _ _ r s (select (λ s. s.value.present) normalized) out h₁
