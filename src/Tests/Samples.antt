-- ===== src/Tests/Samples.antt =====
-- Two captures of a shell: an editor that changes, a path that grows, an alias that goes and an
-- option that comes. The first capture lists the editor twice, and its last occurrence counts.
use zsh_pro.Prelude.{ℕ, Bool, true, false, none, some, List, [], ◌∷◌}
use zsh_pro.Data.Bytes.{Bytes, bytes, bytes_eq, has_nul, bytes_lt}
use zsh_pro.Data.Dict.{keys, lookup, insert}
use zsh_pro.Data.LastWins.{last_wins, last_of, first_of_key, finals}
use zsh_pro.Data.Slots.{set, deactivate, active_items, append_all, put, drop}
use zsh_pro.Data.Sort.{sort}
use zsh_pro.Prelude.{select, contains}
use zsh_pro.Live.Types.{
  LiveKind, Identity, identity_eq, LiveValue, LiveIdentityState, LiveSnapshot, LiveChange,
  LiveChangeKind, OverlayEntry,
}
use zsh_pro.Live.Validate.{
  validate_identity, validate_live_value, validate_live_identity_state, validate_live_snapshot,
  count_states, add_state, checked_live_add, live_value_bytes,
}
use zsh_pro.Live.Values.{
  clone_live_value, equal_live_value, scalar_live_value, list_live_value, option_live_value,
  removed_live_value,
}
use zsh_pro.Live.Normalize.{
  normalize, normalize_live_states, normalize_overlay, clone_state, clone_entry, validate_entry,
  clone_live_states,
}
use zsh_pro.Live.Observed.{observed}
use zsh_pro.Worktree.Order.{sort_identities, identity_less}
use zsh_pro.Worktree.Diff.{
  diff_snapshot, diff_states, present_state_map, all_identities, validate_live_change,
}
use zsh_pro.Worktree.Apply.{
  apply_state_changes, validate_changes, apply_changes, apply_change, equal_live_states,
}
use zsh_pro.Worktree.Overlay.{
  apply_overlay, apply_normalized_overlay, apply_entries, apply_entry, build_projection,
  categorize_diff,
}

-- What a run has to see through.
unfoldable pub opened : ℕ
unfolding bytes_eq has_nul bytes_lt keys lookup insert last_wins last_of first_of_key finals set
    deactivate active_items append_all put drop sort select contains identity_eq validate_identity
    validate_live_value validate_live_identity_state validate_live_snapshot count_states add_state
    checked_live_add live_value_bytes clone_live_value equal_live_value scalar_live_value
    list_live_value option_live_value removed_live_value normalize normalize_live_states
    normalize_overlay clone_state clone_entry validate_entry clone_live_states observed
    sort_identities identity_less diff_snapshot diff_states present_state_map all_identities
    validate_live_change apply_state_changes validate_changes apply_changes apply_change
    equal_live_states apply_overlay apply_normalized_overlay apply_entries apply_entry
    build_projection categorize_diff
opened = 0

abbrev pub editor : Identity
editor = record { kind = LiveKind.env; name = bytes "EDITOR" }

abbrev pub path_list : Identity
path_list = record { kind = LiveKind.path; name = bytes "PATH" }

abbrev pub git_alias : Identity
git_alias = record { kind = LiveKind.alias; name = bytes "gs" }

abbrev pub nomatch : Identity
nomatch = record { kind = LiveKind.option; name = bytes "nomatch" }

abbrev pub text : Bytes → LiveValue
text s = record { present = true; scalar = some s; list = none; option = none }

abbrev pub items : List Bytes → LiveValue
items xs = record { present = true; scalar = none; list = some xs; option = none }

abbrev pub switch : Bool → LiveValue
switch b = record { present = true; scalar = none; list = none; option = some b }

abbrev pub absent : LiveValue
absent = record { present = false; scalar = none; list = none; option = none }

abbrev pub state : Identity → LiveValue → LiveIdentityState
state i v = record { identity = i; value = v }

abbrev pub before : List LiveIdentityState
before =
    state editor (text (bytes "ed"))
    ∷ state path_list (items (bytes "/bin" ∷ []))
    ∷ state git_alias (text (bytes "git status"))
    ∷ state editor (text (bytes "vi"))
    ∷ []

abbrev pub before_normal : List LiveIdentityState
before_normal =
    state path_list (items (bytes "/bin" ∷ []))
    ∷ state git_alias (text (bytes "git status"))
    ∷ state editor (text (bytes "vi"))
    ∷ []

abbrev pub after : List LiveIdentityState
after =
    state editor (text (bytes "nano"))
    ∷ state path_list (items (bytes "/bin" ∷ bytes "/opt" ∷ []))
    ∷ state nomatch (switch false)
    ∷ []

abbrev pub snapshot : List LiveIdentityState → LiveSnapshot
snapshot states = record { byte_size = 100; states = states }

abbrev pub change : LiveChangeKind → Identity → LiveValue → LiveChange
change kind i v = record { kind = kind; identity = i; value = v }

abbrev pub changes : List LiveChange
changes =
    change LiveChangeKind.update editor (text (bytes "nano"))
    ∷ change LiveChangeKind.remove git_alias absent
    ∷ change LiveChangeKind.update path_list (items (bytes "/bin" ∷ bytes "/opt" ∷ []))
    ∷ change LiveChangeKind.add nomatch (switch false)
    ∷ []

abbrev pub overlay : List OverlayEntry
overlay =
    record { identity = editor; value = text (bytes "nano"); tombstone = false }
    ∷ record { identity = git_alias; value = absent; tombstone = true }
    ∷ []

abbrev pub overlaid_states : List LiveIdentityState
overlaid_states =
    state path_list (items (bytes "/bin" ∷ [])) ∷ state editor (text (bytes "nano")) ∷ []
