-- ===== src/Worktree/Service/Workflow/Materialize.antt =====
-- Materialize: core/worktree/service.go. `deep_equal` stands for reflect.DeepEqual, which sees
-- more than the model: it tells a nil slice from an empty one.
use zsh_pro.Prelude.{
  Bool, true, false, not, ◌&&◌, ◌||◌, List, [], ◌∷◌, ◌==◌, nat_eq, if◌then◌else◌, ok, Result, ◌>>=◌,
  ◌>>◌, guard,
}
use zsh_pro.Data.Bytes.{Bytes, bytes, bytes_eq}
use zsh_pro.Live.Types.{LiveIdentityState, LiveChange}
use zsh_pro.Live.Errors.{Error}
use zsh_pro.Activate.Build.Effective.{CommittedWorktree, new_committed_worktree}
use zsh_pro.Worktree.Diff.{diff_snapshot}
use zsh_pro.Worktree.Apply.{apply_state_changes}
use zsh_pro.Worktree.Registry.{Registry}
use zsh_pro.Worktree.State.{State}
use zsh_pro.Worktree.State.Validate.{state_schema_version, validate_state}
use zsh_pro.Worktree.Service.Digest.{External}
use zsh_pro.Worktree.Service.Admission.{seed_registry_from_state}
use zsh_pro.Worktree.Service.Transaction.{Step, with_transaction, recover}
use zsh_pro.Worktree.Service.Publish.{states_of}

unfoldable pub first_state :
    Bytes → Bytes → CommittedWorktree → List LiveChange → List LiveIdentityState → State
first_state branch oid canonical changes shared = record {
  schema_version = state_schema_version;
  materialized = true;
  branch = branch;
  base_oid = oid;
  committed = canonical;
  auto_apply_default = true;
  admitted_identities = [];
  shared = shared;
  history = record {
    head_revision = 1;
    compaction_floor = 0;
    compaction_baseline = [];
    events =
        record {
          revision = 1;
          operation_id = bytes "materialize:1";
          shell_id = [];
          changes = changes;
        }
        ∷ [];
  };
  shells = [];
  operation_receipts = [];
  admitted_identities_missing = false;
}

unfoldable pub new_generation : Bytes → Bytes → CommittedWorktree → Result Error State
new_generation branch oid canonical = recover (do
  changes ← diff_snapshot (states_of []) (states_of canonical.projection.states)
  shared ← apply_state_changes [] changes
  let candidate = first_state branch oid canonical changes shared
  validate_state candidate
  ok candidate)

module _ (x : External) (registry : Registry)
    (deep_equal : CommittedWorktree → CommittedWorktree → Bool) where
  -- A repeated call with the same inputs changes nothing but the migration of old documents.
  unfoldable pub materialize_state :
      Bytes → Bytes → CommittedWorktree → State → State → Step (Unit {0})
  materialize_state branch oid canonical candidate s = do
    guard
        (not s.materialized
          || s.branch == branch && s.base_oid == oid && deep_equal s.committed canonical)
        Error.recovery_required
    (seeded, s') ←
        recover (seed_registry_from_state registry (if s.materialized then s else candidate))
    ok (s', tt)

  unfoldable pub materialize : Bytes → Bytes → CommittedWorktree → Bool → State → Step (Unit {0})
  materialize branch oid given marked s =
      let canonical = new_committed_worktree given.source given.projection in
      do
        candidate ← new_generation branch oid canonical
        with_transaction x marked (materialize_state branch oid canonical candidate) s
