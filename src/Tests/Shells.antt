-- ===== src/Tests/Shells.antt =====
-- A worktree with one shell, and a service with stand-ins for SHA-256, the encoding and Git: the
-- inputs of the theorems on the service.
use zsh_pro.Prelude.{◌≡◌, refl, arith, true, false, none, some, [], ◌∷◌, ◌++◌, ok, err}
use zsh_pro.Data.Bytes.{Bytes, bytes}
use zsh_pro.Live.Types.{LiveChange, LiveChangeKind}
use zsh_pro.Live.Values.{is_ok}
use zsh_pro.Activate.Build.Effective.{CommittedWorktree}
use zsh_pro.Worktree.Transition.{ShellTransition}
use zsh_pro.Worktree.Registry.{Registry}
use zsh_pro.Worktree.State.{State, ShellState, AttachState, RecoveredErrorCode}
use zsh_pro.Worktree.State.Credential.{ShellCredential}
use zsh_pro.Worktree.Service.Digest.{External}
use zsh_pro.Worktree.Service.Transaction.{Step, stored}
use zsh_pro.Worktree.Service.Attach.{no_pending}
use zsh_pro.Worktree.Service.Publish.{PublishRequest}
use zsh_pro.Worktree.Service.Pull.{PreparePullRequest}
use zsh_pro.Worktree.Service.Workflow.{Repository, WorktreeCommitResult}
use zsh_pro.Tests.Samples.{editor, git_alias, text, state, change}

abbrev pub outside : External
outside = record { sha256 = λ s. 1 ∷ s; json = λ p. []; state_size = λ s. 1000 }

abbrev pub registry : Registry
registry = record { address = 1; policy = some (λ i. false); owned = []; pinned_secret = [] }

abbrev pub document : CommittedWorktree
document = record {
  schema = bytes "v1";
  source = record { entries = [] };
  projection = record { schema = bytes "v1"; states = []; tombstones = [] };
}

abbrev pub capability : Bytes
capability = bytes "0123456789abcdef0123456789abcdef"

abbrev pub credential : ShellCredential
credential = record { shell_id = bytes "one"; capability = some capability }

-- A shell that has applied the first revision.
abbrev pub shell : ShellState
shell = record {
  capability_verifier = 1 ∷ bytes "zsh-pro/worktree-shell-capability/v1" ++ capability;
  attach_state = AttachState.at_head;
  attached_revision = 1;
  applied_revision = 1;
  applied_baseline = [];
  capture_baseline = [];
  unpublished_delta = [];
  present_at_attach = [];
  exclusions = [];
  transition = ShellTransition.attach;
  pending = no_pending;
  behind = true;
  auto_apply_override = none;
  conflict = none;
  last_recovered_error = RecoveredErrorCode.nothing;
  last_active_revision = 1;
}

abbrev pub vi : LiveChange
vi = change LiveChangeKind.add editor (text (bytes "vi"))

-- Another shell has shared its editor.
abbrev pub worktree : State
worktree = record {
  schema_version = 1;
  materialized = true;
  branch = bytes "main";
  base_oid = bytes "0123456789012345678901234567890123456789";
  committed = document;
  auto_apply_default = true;
  admitted_identities = editor ∷ [];
  shared = state editor (text (bytes "vi")) ∷ [];
  history = record {
    head_revision = 2;
    compaction_floor = 0;
    compaction_baseline = [];
    events =
        record { revision = 1; operation_id = bytes "materialize:1"; shell_id = []; changes = [] }
        ∷ record {
          revision = 2;
          operation_id = bytes "op";
          shell_id = bytes "two";
          changes = vi ∷ [];
        }
        ∷ [];
  };
  shells = (bytes "one", shell) ∷ [];
  operation_receipts = [];
  admitted_identities_missing = false;
}

-- The shell has an editor and an alias of its own.
abbrev pub publication : PublishRequest
publication = record {
  operation_id = bytes "publish:1";
  credential = credential;
  acknowledged_revision = 1;
  delta =
      change LiveChangeKind.add editor (text (bytes "nano"))
      ∷ change LiveChangeKind.add git_alias (text (bytes "git status"))
      ∷ [];
}

abbrev pub pull : PreparePullRequest
pull = record { operation_id = bytes "pull:1"; credential = credential; applied_revision = 1 }

-- What the repository holds: the document with the shared editor.
abbrev pub exact : CommittedWorktree
exact = record document {
  projection = record {
    schema = bytes "v1";
    states = state editor (text (bytes "vi")) ∷ [];
    tombstones = [];
  };
}

abbrev pub oid : Bytes
oid = bytes "0123456789012345678901234567890123456789"

abbrev accepted : WorktreeCommitResult
accepted = record { committed = true; oid = oid; conflict = false; recovery_required = false }

abbrev pub repository : Repository (Unit {0})
repository = record {
  branches = λ r. ok (bytes "main" ∷ []);
  resolve_worktree_revision = λ r branch. ok oid;
  read_worktree_revision = λ r object. ok exact;
  create_from = λ r branch object. (r, ok tt);
  commit_worktree = λ r branch base given message. (r, accepted, none);
}

abbrev pub clean : State
clean = record worktree { committed = exact }

-- The result of a call, or the one given.
abbrev pub result_or {ℓ} : {A : Type ℓ} → A → Step A → A
result_or a (ok (s, b)) = b
result_or a (err e) = a

-- A call that has returned has stored its state and returned its result.
pub returned {ℓ} :
    {A : Type ℓ} (s : State) (a : A) (step : Step A)
    → is_ok step ≡ true
    → step ≡ ok (stored s step, result_or a step)
unfolding is_ok
returned s a (ok (t, b)) h = refl
returned s a (err e) h = absurd (ground arith)
