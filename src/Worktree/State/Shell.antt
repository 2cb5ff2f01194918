-- ===== src/Worktree/State/Shell.antt =====
-- The validation of shell records: core/worktree/state.go.
use zsh_pro.Prelude.{
  ℕ, Bool, true, false, not, ◌&&◌, ◌||◌, Option, none, some, List, [], ◌∷◌, ◌==◌, nat_eq, ltb, leb,
  contains, length, ok, err, ◌>>=◌, ◌>>◌, guard,
}
use zsh_pro.Data.Bytes.{Bytes, bytes_eq}
use zsh_pro.Data.Dict.{is_some}
use zsh_pro.Live.Types.{Identity, identity_eq, LiveIdentityState}
use zsh_pro.Live.Errors.{Error}
use zsh_pro.Live.Validate.{Checked, validate_identity, max_snapshot_records}
use zsh_pro.Live.Values.{is_ok}
use zsh_pro.Live.Normalize.{normalize_live_states}
use zsh_pro.Worktree.Apply.{validate_changes}
use zsh_pro.Worktree.History.{valid_state_token}
use zsh_pro.Worktree.Transition.{ShellTransition}
use zsh_pro.Worktree.Registry.{AdmissionReason, Exclusion}
use zsh_pro.Worktree.State.{
  Conflict, ConflictKind, PendingKind, PendingTransition, AttachState, RecoveredErrorCode,
  ShellState,
}

unfoldable pub all_present : List LiveIdentityState → Checked
all_present [] = ok tt
all_present (s ∷ ss) = do guard s.value.present Error.absent_state; all_present ss

unfoldable pub validate_present_states : List LiveIdentityState → Checked
validate_present_states states = do
  guard (leb (length states) max_snapshot_records) Error.state_records
  normalized ← normalize_live_states states
  guard (length normalized == length states) Error.duplicate_state
  all_present states

unfoldable pub validate_unique : List Identity → List Identity → Checked
validate_unique seen [] = ok tt
validate_unique seen (i ∷ is) = do
  guard (is_ok (validate_identity i) && not (contains i seen)) Error.identity_list
  validate_unique (i ∷ seen) is

unfoldable pub validate_identity_list : List Identity → Checked
validate_identity_list is = validate_unique [] is

-- The reasons of the registry are valid tokens.
valid_state_reason : AdmissionReason → Bool
valid_state_reason (AdmissionReason.unknown reason) = valid_state_token reason
valid_state_reason _ = true

unfoldable pub validate_token : Bytes → Checked
validate_token token = guard (valid_state_token token) Error.token_invalid

unfoldable pub validate_exclusions : List Exclusion → Checked
unfolding valid_state_reason
validate_exclusions [] = ok tt
validate_exclusions (x ∷ xs) = do
  guard (is_ok (validate_identity x.identity) && valid_state_reason x.reason) Error.exclusion
  validate_exclusions xs

abbrev pub zero_digest : Bytes
zero_digest =
    0 ∷ 0 ∷ 0 ∷ 0 ∷ 0 ∷ 0 ∷ 0 ∷ 0 ∷ 0 ∷ 0 ∷ 0 ∷ 0 ∷ 0 ∷ 0 ∷ 0 ∷ 0 ∷ 0 ∷ 0 ∷ 0 ∷ 0 ∷ 0 ∷ 0 ∷ 0 ∷ 0
    ∷ 0 ∷ 0 ∷ 0 ∷ 0 ∷ 0 ∷ 0 ∷ 0 ∷ 0 ∷ []

-- `SnapshotFingerprint{}` and `ShellCapabilityVerifier{}`
unfoldable pub is_zero : Bytes → Bool
is_zero digest = digest == zero_digest

abbrev pub is_empty {ℓ} : {A : Type ℓ} → List A → Bool
is_empty [] = true
is_empty (x ∷ xs) = false

validate_pull : PendingTransition → Checked
validate_pull p = guard (not (is_some p.conflict)) Error.pull_conflict

unfoldable pub validate_resolution : PendingTransition → ShellState → Checked
validate_resolution p s =
    guard (is_some p.conflict && is_some s.conflict && not (is_empty s.unpublished_delta))
      Error.resolution_unbacked

-- The checks that both kinds of transition share.
unfoldable pub validate_pending_target : PendingTransition → ShellState → ℕ → Checked
validate_pending_target p s head = do
  guard
      (not (
        p.revision == 0
        || ltb head p.revision
        || ltb p.revision s.applied_revision
        || is_zero p.fingerprint
        || not (is_ok (validate_token p.token))))
      Error.pending_target
  validate_changes p.changes

unfoldable pub validate_pending_kind : PendingKind → PendingTransition → ShellState → ℕ → Checked
unfolding validate_pull validate_resolution validate_pending_target
validate_pending_kind PendingKind.nothing p s head =
    guard
      (p.revision == 0
        && is_zero p.fingerprint
        && is_empty p.token
        && not (is_some p.conflict)
        && is_empty p.changes)
      Error.empty_pending
validate_pending_kind PendingKind.pull p s head = do
  validate_pending_target p s head
  validate_pull p
validate_pending_kind PendingKind.resolution p s head = do
  validate_pending_target p s head
  validate_resolution p s
validate_pending_kind (PendingKind.unknown k) p s head = err Error.pending_kind

unfoldable pub validate_pending : PendingTransition → ShellState → ℕ → Checked
unfolding validate_pending_kind
validate_pending p s head = validate_pending_kind p.kind p s head

known_conflict : ConflictKind → Bool
known_conflict (ConflictKind.unknown k) = false
known_conflict _ = true

unfoldable pub validate_conflict : Conflict → ℕ → Checked
unfolding known_conflict
validate_conflict c head = do
  guard (known_conflict c.kind) Error.conflict_kind
  validate_identity c.identity
  guard
      (not (
        c.shared_revision == 0
        || ltb head c.shared_revision
        || ltb c.shared_revision c.base_revision
        || not (is_ok (validate_token c.token))))
      Error.conflict_causality

unfoldable pub validate_own_conflict : Option Conflict → ℕ → Checked
validate_own_conflict none head = ok tt
validate_own_conflict (some c) head = validate_conflict c head

unfoldable pub valid_transition_value : ShellTransition → Bool
valid_transition_value ShellTransition.detached = false
valid_transition_value (ShellTransition.unknown t) = false
valid_transition_value _ = true

unfoldable pub validate_attach_state : AttachState → ShellState → Checked
validate_attach_state AttachState.at_head s =
    guard (not (s.attached_revision == 0)) Error.no_attachment
validate_attach_state AttachState.clean_reconcile s =
    guard (s.applied_revision == 0 && is_empty s.applied_baseline) Error.reconcile_baseline
validate_attach_state (AttachState.unknown a) s = ok tt

unfoldable pub known_attach_state : AttachState → Bool
known_attach_state (AttachState.unknown a) = false
known_attach_state _ = true

is_pull : PendingKind → Bool
is_pull PendingKind.pull = true
is_pull _ = false

unfoldable pub is_resolution : PendingKind → Bool
is_resolution PendingKind.resolution = true
is_resolution _ = false

unfoldable pub validate_transition : ShellTransition → ShellState → Checked
unfolding is_pull is_resolution
validate_transition ShellTransition.unpublished s =
    guard (is_some s.conflict && not (is_empty s.unpublished_delta)) Error.unpublished_incomplete
validate_transition ShellTransition.prepare s =
    guard (is_pull s.pending.kind) Error.prepare_without_pull
validate_transition ShellTransition.resolve s =
    guard (is_resolution s.pending.kind) Error.resolve_without_resolution
validate_transition _ s = ok tt

unfoldable pub known_code : RecoveredErrorCode → Bool
known_code (RecoveredErrorCode.unknown c) = false
known_code _ = true

-- The unpublished changes and the conflict stand or fall together.
unfoldable pub validate_delta_conflict : ShellState → Checked
validate_delta_conflict s = do
  guard (is_empty s.unpublished_delta || is_some s.conflict) Error.delta_without_conflict
  guard (not (is_some s.conflict && is_empty s.unpublished_delta)) Error.conflict_without_delta

unfoldable pub validate_shell_state : Bytes → ShellState → ℕ → Checked
unfolding validate_attach_state known_attach_state validate_own_conflict validate_transition
    known_code
validate_shell_state id s head = do
  guard (valid_state_token id) Error.shell_state_id
  guard (not (is_zero s.capability_verifier)) Error.verifier_missing
  guard (known_attach_state s.attach_state) Error.attach_state
  guard
      (leb s.attached_revision head
        && leb s.applied_revision head
        && leb s.last_active_revision head)
      Error.shell_revision
  validate_attach_state s.attach_state s
  validate_present_states s.applied_baseline
  validate_present_states s.capture_baseline
  validate_changes s.unpublished_delta
  validate_identity_list s.present_at_attach
  validate_exclusions s.exclusions
  guard (valid_transition_value s.transition) Error.transition_state
  validate_pending s.pending s head
  validate_own_conflict s.conflict head
  validate_delta_conflict s
  validate_transition s.transition s
  guard (known_code s.last_recovered_error) Error.recovered_code
