-- ===== src/Worktree/Service/Transaction.antt =====
-- WithTransaction: core/worktree/atomic_unix.go, as far as it decides what is stored, with
-- MarshalState of core/worktree/state.go. Locks, files and deadlines are left out.
pub mod Laws
use zsh_pro.Prelude.{
  ℕ, ◌+◌, leb, Option, none, some, ok, err, Result, ◌>>=◌, ◌>>◌, guard, ◌&&◌, Bool, ◌==◌,
  if◌then◌else◌, List, [], ◌∷◌,
}
use zsh_pro.Data.Bytes.{Bytes, bytes_eq}
use zsh_pro.Data.Dict.{Dict}
use zsh_pro.Live.Errors.{Error}
use zsh_pro.Live.Validate.{Checked}
use zsh_pro.Worktree.State.{State, ShellState, RecoveredErrorCode, OperationReceipt, ReceiptKind}
use zsh_pro.Worktree.State.Validate.{validate_state, max_state_bytes}
use zsh_pro.Worktree.Service.Digest.{External}

-- What an operation returns: the state to store, and its result.
abbrev pub Step {ℓ} : Type ℓ → Type ℓ
Step A = Result Error (State × A)

unfoldable pub marshal_state : External → State → Checked
marshal_state x s = do
  validate_state s
  guard (leb (x.state_size s + 1) max_state_bytes) Error.state_bytes

unfoldable pub project_recovered_persistence : Dict Bytes ShellState → Dict Bytes ShellState
project_recovered_persistence [] = []
project_recovered_persistence ((id, shell) ∷ d) =
    (id, record shell { last_recovered_error = RecoveredErrorCode.persistence })
    ∷ project_recovered_persistence d

unfoldable pub recovered_shells : Bool → Dict Bytes ShellState → Dict Bytes ShellState
unfolding project_recovered_persistence
recovered_shells marked d = if marked then project_recovered_persistence d else d

-- Before and behind the body of a transaction.
abbrev pub recovered : Bool → State → State
recovered marked s = record s { shells = recovered_shells marked s.shells }

-- `marked` says whether the marker of a recovered write is pending when the call has the lock.
unfoldable pub with_transaction {ℓ} :
    {A : Type ℓ} → External → Bool → (State → Step A) → State → Step A
with_transaction x marked mutate s = do
  (s', a) ← mutate (recovered marked s)
  marshal_state x (recovered marked s')
  ok (recovered marked s', a)

-- The stored state after the call.
abbrev pub stored {ℓ} : {A : Type ℓ} → State → Step A → State
stored s (ok (s', a)) = s'
stored s (err e) = s

or_replay {ℓ} : {A : Type ℓ} → Option A → Result Error A
or_replay none = err Error.operation_replay
or_replay (some a) = ok a

-- The result that a receipt holds, if it is of the same kind and of the same request.
unfoldable pub receipt_result {ℓ} :
    {A : Type ℓ} → Bool → Bytes → OperationReceipt → Option A → Result Error A
unfolding or_replay
receipt_result same_kind fingerprint r a =
    if same_kind && r.request_fingerprint == fingerprint
    then or_replay a
    else err Error.operation_replay

-- `if err != nil { return ErrX }`
unfoldable pub or_else {ℓ} : {A : Type ℓ} → Error → Result Error A → Result Error A
or_else e (ok a) = ok a
or_else e (err f) = err e

abbrev pub recover {ℓ} : {A : Type ℓ} → Result Error A → Result Error A
recover = or_else Error.recovery_required
