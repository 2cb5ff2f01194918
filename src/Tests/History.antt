-- ===== src/Tests/History.antt =====
-- Compaction of a history with one event too many.
use zsh_pro.Prelude.{ℕ, zero, suc, ◌+◌, List, [], ◌∷◌, ◌≡◌, refl, ok, arith}
use zsh_pro.Data.Bytes.{bytes}
use zsh_pro.Live.Types.{LiveIdentityState, LiveChange}
use zsh_pro.Worktree.History.{
  StateEvent, History, validate_event_sequence, validate_events, validate_event, valid_state_token,
  replay, compact_state_history,
}
use zsh_pro.Worktree.History.Compaction.{IsCompaction, compact_state_history-IsCompaction}
use zsh_pro.Tests.Samples.{
  opened, before_normal, changes, state, editor, path_list, nomatch, text, items, switch,
}
use zsh_pro.Prelude.{false}

abbrev event : ℕ → List LiveChange → StateEvent
event r cs = record { revision = r; operation_id = bytes "op"; shell_id = bytes "s1"; changes = cs }

-- Events without changes, from a revision on.
abbrev idle : ℕ → ℕ → List StateEvent
idle r zero = []
idle r (suc n) = event r [] ∷ idle (r + 1) n

abbrev long : History
long = record {
  head_revision = 129;
  compaction_floor = 0;
  compaction_baseline = before_normal;
  events = event 1 changes ∷ idle 2 128;
}

abbrev reached : List LiveIdentityState
reached =
    state path_list (items (bytes "/bin" ∷ bytes "/opt" ∷ []))
    ∷ state editor (text (bytes "nano"))
    ∷ state nomatch (switch false)
    ∷ []

long_valid : validate_event_sequence 0 129 long.events ≡ ok tt
unfolding opened validate_event_sequence validate_events validate_event valid_state_token
long_valid = refl

long_replays : replay before_normal long.events ≡ ok reached
unfolding opened replay
long_replays = refl

compact_state_history-IsCompaction_example :
    (h : History) × (compact_state_history long ≡ ok h) × IsCompaction 129 reached h
compact_state_history-IsCompaction_example =
    compact_state_history-IsCompaction long reached (omega arith) long_valid long_replays
