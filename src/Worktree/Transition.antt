-- ===== src/Worktree/Transition.antt =====
-- The transition table of a shell: core/worktree/state.go.
use zsh_pro.Prelude.{Bool, true, false}
use zsh_pro.Data.Bytes.{Bytes}

-- A Go string type: the empty string, its constants, and every other string.
pub data ShellTransition : Type 0 where
  detached attach capture unpublished publish prepare resolve : ShellTransition
  apply fresh_capture acknowledge : ShellTransition
  unknown : Bytes → ShellTransition

unfoldable pub is_legal_shell_transition : ShellTransition → ShellTransition → Bool
is_legal_shell_transition detached attach = true
is_legal_shell_transition attach capture = true
is_legal_shell_transition attach prepare = true
is_legal_shell_transition capture publish = true
is_legal_shell_transition capture unpublished = true
is_legal_shell_transition capture prepare = true
is_legal_shell_transition unpublished publish = true
is_legal_shell_transition unpublished resolve = true
is_legal_shell_transition publish capture = true
is_legal_shell_transition publish prepare = true
is_legal_shell_transition prepare apply = true
is_legal_shell_transition resolve apply = true
is_legal_shell_transition apply fresh_capture = true
is_legal_shell_transition fresh_capture acknowledge = true
is_legal_shell_transition acknowledge capture = true
is_legal_shell_transition acknowledge prepare = true
is_legal_shell_transition _ _ = false
