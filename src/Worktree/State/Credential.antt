-- ===== src/Worktree/State/Credential.antt =====
-- Shell capabilities and credentials: core/model/worktree.go. SHA-256 is a parameter.
use zsh_pro.Prelude.{
  Bool, false, Option, none, some, ◌==◌, ◌++◌, nat_eq, length, if◌then◌else◌, ok, err, Result, ◌>>◌,
  guard,
}
use zsh_pro.Data.Bytes.{Bytes, bytes, bytes_eq}
use zsh_pro.Data.Dict.{is_some}
use zsh_pro.Live.Errors.{Error}
use zsh_pro.Live.Validate.{Checked}
use zsh_pro.Worktree.History.{valid_state_token}

-- `none` is a capability without material.
abbrev pub ShellCapability : Type 0
ShellCapability = Option Bytes

pub record ShellCredential : Type 0 where
  pub shell_id : Bytes
  pub capability : ShellCapability

unfoldable pub new_shell_capability : Bytes → Result Error ShellCapability
new_shell_capability raw = if length raw == 32 then ok (some raw) else err Error.capability_size

abbrev shell_capability_domain : Bytes
shell_capability_domain = bytes "zsh-pro/worktree-shell-capability/v1"

module _ (sha256 : Bytes → Bytes) where
  unfoldable pub derive_shell_capability_verifier : ShellCapability → Result Error Bytes
  derive_shell_capability_verifier none = err Error.capability_missing
  derive_shell_capability_verifier (some raw) = ok (sha256 (shell_capability_domain ++ raw))

  same_verifier : Bytes → Result Error Bytes → Bool
  same_verifier verifier (ok derived) = verifier == derived
  same_verifier verifier (err e) = false

  unfoldable pub verify_shell_capability : Bytes → ShellCapability → Bool
  unfolding same_verifier
  verify_shell_capability verifier capability =
      same_verifier verifier (derive_shell_capability_verifier capability)

unfoldable pub validate_credential : ShellCredential → Checked
validate_credential c = do
  guard (valid_state_token c.shell_id) Error.credential
  guard (is_some c.capability) Error.capability_missing
