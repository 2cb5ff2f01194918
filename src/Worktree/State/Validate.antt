-- ===== src/Worktree/State/Validate.antt =====
-- ValidateState: core/worktree/state.go.
pub mod Coherent
use zsh_pro.Prelude.{
  ℕ, ◌+◌, Bool, true, false, not, ◌&&◌, ◌||◌, Option, none, some, List, [], ◌∷◌, ◌==◌, nat_eq, ltb,
  leb, if◌then◌else◌, contains, length, ok, err, Result, ◌>>=◌, ◌>>◌, guard,
}
use zsh_pro.Data.Bytes.{Bytes, bytes, bytes_eq, bytes_lt}
use zsh_pro.Data.Dict.{Dict}
use zsh_pro.Live.Types.{LiveKind, Identity, identity_eq}
use zsh_pro.Live.Errors.{Error}
use zsh_pro.Live.Validate.{
  Checked, validate_identity, kind_text, is_letter, is_digit, all_in, max_uint64,
  max_snapshot_bytes, max_snapshot_records,
}
use zsh_pro.Live.Values.{is_ok}
use zsh_pro.Activate.Build.Effective.{CommittedWorktree}
use zsh_pro.Worktree.History.{max_state_events, validate_event_sequence, validate_shared_generation}
use zsh_pro.Worktree.State.{State, ShellState}
use zsh_pro.Worktree.State.Shell.{validate_present_states, validate_shell_state, is_empty}
use zsh_pro.Worktree.State.Receipts.{validate_receipts}

abbrev pub state_schema_version : ℕ
state_schema_version = 1

abbrev pub max_shell_records : ℕ
max_shell_records = 128

abbrev pub max_state_bytes : ℕ
max_state_bytes = 16777216

is_lower_hex : ℕ → Bool
is_lower_hex c = is_digit c || leb b'a' c && leb c b'f'

-- `^[0-9a-f]{40}([0-9a-f]{24})?$`
unfoldable pub state_oid_re : Bytes → Bool
unfolding is_lower_hex is_digit all_in
state_oid_re s = (length s == 40 || length s == 64) && all_in is_lower_hex s

branch_byte : ℕ → Bool
unfolding is_letter is_digit
branch_byte c = is_letter c || is_digit c || contains c (bytes "._/-")

-- `^[A-Za-z0-9][A-Za-z0-9._/-]*$`
state_branch_re : Bytes → Bool
unfolding branch_byte is_letter is_digit all_in
state_branch_re [] = false
state_branch_re (c ∷ s) = (is_letter c || is_digit c) && all_in branch_byte s

has_two_dots : Bytes → Bool
has_two_dots [] = false
has_two_dots (c ∷ []) = false
has_two_dots (c ∷ d ∷ s) = c == b'.' && d == b'.' || has_two_dots (d ∷ s)

ends_in_slash : Bytes → Bool
ends_in_slash [] = false
ends_in_slash (c ∷ []) = c == b'/'
ends_in_slash (c ∷ d ∷ s) = ends_in_slash (d ∷ s)

unfoldable pub valid_state_branch : Bytes → Bool
unfolding has_two_dots ends_in_slash state_branch_re
valid_state_branch s =
    leb (length s) 255 && not (has_two_dots s) && not (ends_in_slash s) && state_branch_re s

-- The tombstones; `seen` holds those met so far.
validate_tombstones : List Identity → List Identity → Checked
validate_tombstones seen [] = ok tt
validate_tombstones seen (i ∷ is) = do
  validate_identity i
  guard (not (contains i seen)) Error.duplicate_tombstone
  validate_tombstones (i ∷ seen) is

unfoldable pub validate_committed : CommittedWorktree → Checked
unfolding validate_tombstones
validate_committed c = do
  guard (c.schema == bytes "v1" && c.projection.schema == bytes "v1") Error.committed_schema
  validate_present_states c.projection.states
  validate_tombstones [] c.projection.tombstones

unfoldable pub admitted_identity_less : Identity → Identity → Bool
admitted_identity_less i j =
    if kind_text i.kind == kind_text j.kind
    then bytes_lt i.name j.name
    else bytes_lt (kind_text i.kind) (kind_text j.kind)

-- The comparison with the identity before, at every index but the first.
validate_after : Option Identity → Identity → Checked
validate_after none i = ok tt
validate_after (some previous) i = do
  guard (not (previous == i)) Error.admitted_duplicate
  guard (admitted_identity_less previous i) Error.admitted_order

-- The sum stays far below 2^64: each identity is added to at most the limit.
unfoldable pub validate_admitted : ℕ → Option Identity → List Identity → Checked
unfolding validate_after
validate_admitted total previous [] = ok tt
validate_admitted total previous (i ∷ is) =
    let sum = total + length (kind_text i.kind) + length i.name + 2 in
    do
      guard (is_ok (validate_identity i)) Error.admitted_identity
      guard (leb sum max_snapshot_bytes) Error.admitted_payload
      validate_after previous i
      validate_admitted sum (some i) is

unfoldable pub validate_admitted_identities : List Identity → Checked
validate_admitted_identities is = do
  guard (leb (length is) max_snapshot_records) Error.admitted_records
  validate_admitted 0 none is

-- The order of the range over the map decides only which error is reported.
unfoldable pub validate_shells : ℕ → Dict Bytes ShellState → Checked
validate_shells head [] = ok tt
validate_shells head ((id, s) ∷ ss) = do validate_shell_state id s head; validate_shells head ss

unfoldable pub validate_unmaterialized : State → Checked
validate_unmaterialized s =
    guard
      (s.branch == []
        && s.base_oid == []
        && s.head_revision == 0
        && is_empty s.admitted_identities
        && is_empty s.shared
        && is_empty s.events
        && is_empty s.shells
        && is_empty s.operation_receipts)
      Error.causal_data

unfoldable pub validate_materialized : State → Checked
validate_materialized s = do
  guard (valid_state_branch s.branch && state_oid_re s.base_oid) Error.branch_or_base
  guard
      (not (
        s.head_revision == 0
        || s.head_revision == max_uint64
        || ltb s.head_revision s.compaction_floor))
      Error.revision_bounds
  validate_committed s.committed
  validate_admitted_identities s.admitted_identities
  validate_present_states s.shared
  validate_present_states s.compaction_baseline
  guard (leb (length s.events) max_state_events) Error.event_count
  validate_event_sequence s.compaction_floor s.head_revision s.events
  validate_shared_generation s.compaction_baseline s.events s.shared
  guard (leb (length s.shells) max_shell_records) Error.shell_count
  validate_shells s.head_revision s.shells
  validate_receipts s.shells s.operation_receipts

unfoldable pub validate_state : State → Checked
validate_state s = do
  guard (s.schema_version == state_schema_version) Error.schema_version
  if s.materialized then validate_materialized s else validate_unmaterialized s
