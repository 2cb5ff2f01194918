-- ===== src/Worktree/History.antt =====
-- The revision history of the canonical state, and its compaction: core/worktree/state.go.
pub mod Compaction
pub mod Head
use zsh_pro.Prelude.{
  ℕ, zero, suc, ◌+◌, Bool, true, false, not, ◌&&◌, ◌||◌, List, [], ◌∷◌, ◌==◌, nat_eq, ltb, leb,
  if◌then◌else◌, contains, length, ok, err, Result, ◌>>=◌, ◌>>◌, guard,
}
use zsh_pro.Data.Bytes.{Bytes, bytes, bytes_eq}
use zsh_pro.Live.Types.{LiveIdentityState, LiveChange}
use zsh_pro.Live.Errors.{Error}
use zsh_pro.Live.Validate.{Checked, is_letter, is_digit, all_in, max_uint64}
use zsh_pro.Live.Normalize.{clone_live_states}
use zsh_pro.Worktree.Apply.{validate_changes, apply_state_changes, equal_live_states}

pub record StateEvent : Type 0 where
  pub revision : ℕ
  pub operation_id : Bytes
  pub shell_id : Bytes
  pub changes : List LiveChange

-- The fields of State that hold its history.
pub record History : Type 0 where
  pub head_revision : ℕ
  pub compaction_floor : ℕ
  pub compaction_baseline : List LiveIdentityState
  pub events : List StateEvent

abbrev pub max_state_events : ℕ
max_state_events = 128

abbrev max_token_bytes : ℕ
max_token_bytes = 128

-- `^[A-Za-z0-9][A-Za-z0-9._:-]*$`
state_token_re : Bytes → Bool
unfolding is_letter is_digit all_in
state_token_re [] = false
state_token_re (c ∷ s) =
    (is_letter c || is_digit c)
    && all_in (λ d. is_letter d || is_digit d || contains d (bytes "._:-")) s

unfoldable pub valid_state_token : Bytes → Bool
unfolding state_token_re
valid_state_token s = ltb 0 (length s) && leb (length s) max_token_bytes && state_token_re s

-- `expected + 1` on uint64.
abbrev pub next_expected : ℕ → ℕ
next_expected n = if n == max_uint64 then 0 else n + 1

unfoldable pub validate_event : ℕ → StateEvent → Checked
validate_event expected e = do
  guard (e.revision == expected && not (e.revision == 0)) Error.nonmonotonic
  guard (valid_state_token e.operation_id) Error.operation_id
  guard (e.shell_id == [] || valid_state_token e.shell_id) Error.shell_id
  validate_changes e.changes

-- The loop, with the comparison of the last revision behind it.
unfoldable pub validate_events : ℕ → ℕ → StateEvent → List StateEvent → Checked
validate_events expected head e [] = do
  validate_event expected e
  guard (e.revision == head) Error.history_end
validate_events expected head e (f ∷ es) = do
  validate_event expected e
  validate_events (next_expected expected) head f es

unfoldable pub validate_event_sequence : ℕ → ℕ → List StateEvent → Checked
validate_event_sequence floor head [] = guard (floor == head) Error.empty_history
validate_event_sequence floor head (e ∷ es) = validate_events (next_expected floor) head e es

-- The loop of validateSharedGeneration.
unfoldable pub replay :
    List LiveIdentityState → List StateEvent → Result Error (List LiveIdentityState)
replay current [] = ok current
replay current (e ∷ es) = do next ← apply_state_changes current e.changes; replay next es

unfoldable pub validate_shared_generation :
    List LiveIdentityState → List StateEvent → List LiveIdentityState → Checked
validate_shared_generation baseline events shared = do
  current ← replay (clone_live_states baseline) events
  guard (equal_live_states current shared) Error.shared_mismatch

-- The loop of CompactStateHistory. The state that a failure leaves half compacted is not returned.
unfoldable pub drop_events : ℕ → ℕ → List LiveIdentityState → List StateEvent → Result Error History
drop_events head floor baseline [] = ok (record {
  head_revision = head;
  compaction_floor = floor;
  compaction_baseline = baseline;
  events = [];
})
drop_events head floor baseline (e ∷ es) = elim (ltb max_state_events (suc (length es))) [
  | true ↦ apply_state_changes baseline e.changes >>= λ next. drop_events head e.revision next es
  | false ↦ ok (record {
    head_revision = head;
    compaction_floor = floor;
    compaction_baseline = baseline;
    events = e ∷ es;
  })
]

unfoldable pub compact_state_history : History → Result Error History
compact_state_history h = do
  guard (leb h.compaction_floor h.head_revision) Error.not_compactable
  validate_event_sequence h.compaction_floor h.head_revision h.events
  drop_events h.head_revision h.compaction_floor h.compaction_baseline h.events
