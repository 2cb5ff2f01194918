-- ===== src/Worktree/Service/Transaction/Laws.antt =====
-- What a transaction and a repeated request return: core/worktree/service.go and atomic_unix.go.
use zsh_pro.Prelude.{
  ◌≡◌, refl, sym, ap, ◌∙◌, subst, Bool, true, false, ◌||◌, Option, none, some, [], ◌∷◌, ok, err,
  Result, ◌>>◌, step-returns, check-returns, ok-injective, arith, nat_eq,
}
use zsh_pro.Data.Bytes.{Bytes, bytes_eq}
use zsh_pro.Data.Dict.{Dict, lookup}
use zsh_pro.Live.Errors.{Error}
use zsh_pro.Worktree.State.{State, ShellState, RecoveredErrorCode}
use zsh_pro.Worktree.State.Validate.{validate_state}
use zsh_pro.Worktree.Service.Digest.{External}
use zsh_pro.Worktree.Service.Transaction.{
  Step, marshal_state, project_recovered_persistence, recovered_shells, recovered, with_transaction,
  or_else,
}

project_twice :
    (d : Dict Bytes ShellState)
    → project_recovered_persistence (project_recovered_persistence d)
      ≡ project_recovered_persistence d
unfolding project_recovered_persistence
project_twice [] = refl
project_twice ((id, shell) ∷ d) =
    ap (λ e. (id, record shell { last_recovered_error = RecoveredErrorCode.persistence }) ∷ e)
      (project_twice d)

pub recovered_shells-recovered_shells :
    (a b : Bool) (d : Dict Bytes ShellState)
    → recovered_shells a (recovered_shells b d) ≡ recovered_shells (a || b) d
unfolding recovered_shells
recovered_shells-recovered_shells true true d = project_twice d
recovered_shells-recovered_shells true false d = refl
recovered_shells-recovered_shells false b d = refl

or_same : (b : Bool) → (b || b) ≡ b
or_same true = refl
or_same false = refl

module _ {ℓ} {A : Type ℓ} (x : External) (marked : Bool) where
  -- A transaction that stores a state has run its body between two projections.
  pub with_transaction-returns :
      (f : State → Step A) (s s' : State) (a : A)
      → with_transaction x marked f s ≡ ok (s', a)
      → (t : State) × (f (recovered marked s) ≡ ok (t, a))
        × (recovered marked t ≡ s')
        × (marshal_state x s' ≡ ok tt)
  unfolding with_transaction
  with_transaction-returns f s s' a h =
      let ((t, b), first, h₁) = step-returns (f (recovered marked s)) _ h in
      let (second, h₂) = check-returns (marshal_state x (recovered marked t)) _ h₁ in
      let end = ok-injective (recovered marked t, b) (s', a) h₂ in
      (
        t,
        first ∙ ap (λ c. ok (t, c)) (ap (λ out. out.1) end),
        ap (λ out. out.0) end,
        subst (λ u. marshal_state x u ≡ ok tt) (ap (λ out. out.0) end) second,
      )

  pub with_transaction-again :
      (f : State → Step A) (s : State) (a : A)
      → f (recovered marked s) ≡ ok (recovered marked s, a)
      → with_transaction x marked f s
        ≡ (marshal_state x (recovered marked s) >> ok (recovered marked s, a))
  unfolding with_transaction
  with_transaction-again f s a h = rw (h) (
      ap (λ d. marshal_state x (record s { shells = d }) >> ok (record s { shells = d }, a))
        (recovered_shells-recovered_shells marked marked s.shells
          ∙ ap (λ b. recovered_shells b s.shells) (or_same marked)))

-- The record of a shell when a write is recovered.
unfoldable pub noted_shell : Bool → ShellState → ShellState
noted_shell true shell = record shell { last_recovered_error = RecoveredErrorCode.persistence }
noted_shell false shell = shell

abbrev pub noted : Bool → Option ShellState → Option ShellState
noted marked none = none
noted marked (some shell) = some (noted_shell marked shell)

pub noted_shell-verifier :
    (marked : Bool) (shell : ShellState)
    → (noted_shell marked shell).capability_verifier ≡ shell.capability_verifier
unfolding noted_shell
noted_shell-verifier true shell = refl
noted_shell-verifier false shell = refl

some-injective : (a b : ShellState) → some a ≡ some b → a ≡ b
some-injective a b h = cc

pub noted-some :
    (marked : Bool) (o : Option ShellState) (shell : ShellState)
    → noted marked o ≡ some shell
    → (before : ShellState) × (o ≡ some before)
      × (before.capability_verifier ≡ shell.capability_verifier)
noted-some marked none shell h = absurd (ground arith)
noted-some marked (some before) shell h = (
  before,
  refl,
  sym (noted_shell-verifier marked before)
      ∙ ap (λ s. s.capability_verifier) (some-injective (noted_shell marked before) shell h),
)

lookup-project :
    (j : Bytes) (d : Dict Bytes ShellState)
    → lookup j (project_recovered_persistence d) ≡ noted true (lookup j d)
unfolding lookup project_recovered_persistence noted_shell
lookup-project j [] = refl
lookup-project j ((id, shell) ∷ d) = ground (arith, lookup-project j d)

noted-false : (o : Option ShellState) → noted false o ≡ o
unfolding noted_shell
noted-false none = refl
noted-false (some shell) = refl

pub lookup-recovered_shells :
    (marked : Bool) (j : Bytes) (d : Dict Bytes ShellState)
    → lookup j (recovered_shells marked d) ≡ noted marked (lookup j d)
unfolding recovered_shells
lookup-recovered_shells true j d = lookup-project j d
lookup-recovered_shells false j d = sym (noted-false (lookup j d))

pub noted-noted :
    (marked : Bool) (o : Option ShellState) → noted marked (noted marked o) ≡ noted marked o
unfolding noted_shell
noted-noted marked none = refl
noted-noted true (some shell) = refl
noted-noted false (some shell) = refl

pub or_else-returns {ℓ} :
    {A : Type ℓ} (e : Error) (first : Result Error A) {a : A}
    → or_else e first ≡ ok a
    → first ≡ ok a
unfolding or_else
or_else-returns e (ok a) h = h
or_else-returns e (err f) h = absurd (ground arith)

pub marshal_state-IsValid :
    (x : External) (s : State) → marshal_state x s ≡ ok tt → validate_state s ≡ ok tt
unfolding marshal_state
marshal_state-IsValid x s h = (check-returns (validate_state s) _ h).0
