-- ===== src/Tests/Live.antt =====
-- Values, normalisation and snapshots: the theorems at inputs that meet their hypotheses.
use mathlib.Core.Option
use zsh_pro.Prelude.{◌≡◌, ◌≤◌, refl, true, ok, [], ◌∷◌, ◌↔◌, map, length, All}
use zsh_pro.Data.Dict.{IsDistinct}
use zsh_pro.Data.LastWins.{first_of_key, last_of}
use zsh_pro.Live.Types.{LiveKind, Identity, identity_eq}
use zsh_pro.Live.Validate.{
  validate_live_value, validate_live_identity_state, validate_live_snapshot, max_snapshot_bytes,
  max_snapshot_records,
}
use zsh_pro.Live.Values.{clone_live_value, equal_live_value}
use zsh_pro.Live.Values.Laws.{equal_live_value_iff}
use zsh_pro.Live.Normalize.{
  normalize_live_states, normalize_overlay, state_key, entry_key, clone_state, clone_entry,
  validate_entry,
}
use zsh_pro.Live.Normalize.Laws.{Passes}
use zsh_pro.Live.Normalize.States.{normalize_live_states_ok, normalize_overlay_ok}
use zsh_pro.Live.Snapshot.{validate_live_snapshot_iff, total_size}
use zsh_pro.Data.Bytes.{bytes}
use zsh_pro.Tests.Samples.{opened, before, before_normal, items, snapshot, overlay}

normalize_before : normalize_live_states before ≡ ok before_normal
unfolding opened
normalize_before = refl

normalize_overlay_sample : normalize_overlay overlay ≡ ok overlay
unfolding opened
normalize_overlay_sample = refl

normalize_live_states_ok_example :
    Passes validate_live_identity_state before
    × Passes validate_live_identity_state before_normal
    × IsDistinct (map state_key before_normal)
    × ((k : Identity)
        → first_of_key state_key k before_normal
          ≡ Option.map clone_state (last_of state_key k before))
    × (normalize_live_states before_normal ≡ ok before_normal)
normalize_live_states_ok_example = normalize_live_states_ok before before_normal normalize_before

normalize_overlay_ok_example :
    Passes validate_entry overlay
    × Passes validate_entry overlay
    × IsDistinct (map entry_key overlay)
    × ((k : Identity)
        → first_of_key entry_key k overlay ≡ Option.map clone_entry (last_of entry_key k overlay))
    × (normalize_overlay overlay ≡ ok overlay)
normalize_overlay_ok_example = normalize_overlay_ok overlay overlay normalize_overlay_sample

equal_live_value_iff_example :
    (equal_live_value LiveKind.path (items (bytes "/a" ∷ [])) (items (bytes "/b" ∷ [])) ≡ true) ↔ (
      (validate_live_value LiveKind.path (items (bytes "/a" ∷ [])) ≡ ok tt)
      × (validate_live_value LiveKind.path (items (bytes "/b" ∷ [])) ≡ ok tt)
      × (clone_live_value (items (bytes "/a" ∷ [])) ≡ clone_live_value (items (bytes "/b" ∷ []))))
equal_live_value_iff_example =
    equal_live_value_iff LiveKind.path (items (bytes "/a" ∷ [])) (items (bytes "/b" ∷ []))

validate_live_snapshot_iff_example : (validate_live_snapshot (snapshot before) ≡ ok tt) ↔ (
    (100 ≤ max_snapshot_bytes)
    × (length before ≤ max_snapshot_records)
    × All (λ s. validate_live_identity_state s ≡ ok tt) before
    × (total_size before ≤ max_snapshot_bytes))
validate_live_snapshot_iff_example = validate_live_snapshot_iff (snapshot before)

-- An empty path that is not nil equals a nil one.
empty_paths : equal_live_value LiveKind.path (items []) (clone_live_value (items [])) ≡ true
unfolding opened
empty_paths = refl
