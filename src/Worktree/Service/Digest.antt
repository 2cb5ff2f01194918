-- ===== src/Worktree/Service/Digest.antt =====
-- Fingerprints, tokens and credentials of requests: core/worktree/service.go and state.go. SHA-256
-- and the JSON encoding are parameters; the values encoded here can always be encoded.
use zsh_pro.Prelude.{
  ℕ, zero, suc, ◌+◌, ◌/◌, ◌%◌, ◌^◌, Bool, Option, none, some, List, [], ◌∷◌, ◌++◌, nat_eq, ltb,
  if◌then◌else◌, length, ok, err, Result, ◌>>=◌, ◌>>◌, guard,
}
use zsh_pro.Data.Bytes.{Bytes, bytes, bytes_eq}
use zsh_pro.Data.Dict.{lookup}
use zsh_pro.Data.Sort.{sort}
use zsh_pro.Live.Types.{Identity, LiveIdentityState, LiveSnapshot, LiveChange}
use zsh_pro.Live.Errors.{Error}
use zsh_pro.Live.Validate.{Checked, validate_live_snapshot}
use zsh_pro.Live.Values.{is_ok}
use zsh_pro.Live.Normalize.{normalize_live_states}
use zsh_pro.Worktree.Order.{identity_less}
use zsh_pro.Worktree.History.{valid_state_token}
use zsh_pro.Worktree.State.{State, ShellState}
use zsh_pro.Worktree.State.Credential.{
  ShellCredential, verify_shell_capability, validate_credential,
}

-- What is encoded as JSON.
pub data Part : Type 0 where
  number : ℕ → Part
  text : Bytes → Part
  identity : Identity → Part
  states : List LiveIdentityState → Part
  snapshot : LiveSnapshot → Part
  changes : List LiveChange → Part

-- `state_size` is the length of the encoding of a whole state.
pub record External : Type 0 where
  pub sha256 : Bytes → Bytes
  pub json : Part → Bytes
  pub state_size : State → ℕ

-- The low bytes of a number, the highest of them first.
big_endian : ℕ → ℕ → Bytes
big_endian zero n = []
big_endian (suc k) n = (n / 256 ^ k) % 256 ∷ big_endian k n

hex_digit : ℕ → ℕ
hex_digit d = if ltb d 10 then 48 + d else 87 + d

hex : Bytes → Bytes
unfolding hex_digit
hex [] = []
hex (c ∷ s) = hex_digit (c / 16) ∷ hex_digit (c % 16) ∷ hex s

take : ℕ → Bytes → Bytes
take zero s = []
take (suc n) [] = []
take (suc n) (c ∷ s) = c ∷ take n s

state_less : LiveIdentityState → LiveIdentityState → Bool
state_less s t = identity_less s.identity t.identity

module _ (x : External) where
  unfoldable pub sized_parts : List Part → Bytes
  unfolding big_endian
  sized_parts [] = []
  sized_parts (p ∷ ps) =
      let payload = x.json p in big_endian 8 (length payload) ++ payload ++ sized_parts ps

  unfoldable pub fingerprint_parts : Bytes → List Part → Bytes
  fingerprint_parts domain parts =
      x.sha256 (bytes "zsh-pro/worktree-operation/v1:" ++ domain ++ 0 ∷ sized_parts parts)

  unfoldable pub new_resolution_token : Bytes → Bytes → Bytes → ℕ → Bytes
  unfolding big_endian hex take
  new_resolution_token prefix operation_id fingerprint revision =
      prefix
      ++ b':'
        ∷ hex (
            take 16 (
              x.sha256 (
                bytes "zsh-pro/worktree-resolution/v1"
                ++ 0 ∷ operation_id
                ++ fingerprint
                ++ big_endian 8 revision)))

  unfoldable pub fingerprint_states : List LiveIdentityState → Bytes
  unfolding state_less
  fingerprint_states ss = x.sha256 (x.json (Part.states (sort state_less ss)))

  unfoldable pub fingerprint_snapshot : LiveSnapshot → Result Error Bytes
  fingerprint_snapshot captured = do
    validate_live_snapshot captured
    normalized ← normalize_live_states captured.states
    ok (fingerprint_states normalized)

  -- `verifier` is replaced by a digest of its own where the shell is missing, so that the
  -- comparison is always made; its outcome does not matter then.
  unfoldable pub authorize_record : ShellCredential → Option ShellState → Result Error ShellState
  authorize_record credential none = err Error.unauthorized
  authorize_record credential (some shell) =
      if verify_shell_capability x.sha256 shell.capability_verifier credential.capability
      then ok shell
      else err Error.unauthorized

  unfoldable pub authorize_shell : State → ShellCredential → Result Error ShellState
  unfolding authorize_record
  authorize_shell s credential =
      if s.materialized
      then authorize_record credential (lookup credential.shell_id s.shells)
      else err Error.unauthorized

unfoldable pub validate_private_request : Bytes → ShellCredential → Checked
validate_private_request operation_id credential = do
  guard (valid_state_token operation_id) Error.invalid_request
  guard (is_ok (validate_credential credential)) Error.unauthorized
