-- ===== src/Tests/Worktree.antt =====
-- Diffs, overlays and projections: the theorems at inputs that meet their hypotheses.
use zsh_pro.Prelude.{◌≡◌, refl, true, none, ok, [], ◌∷◌, ◌↔◌, List, map, contains}
use zsh_pro.Data.Bytes.{bytes}
use zsh_pro.Data.Dict.{IsDistinct}
use zsh_pro.Data.LastWins.{first_of_key, last_of}
use zsh_pro.Data.Sort.{IsAscending}
use zsh_pro.Live.Types.{Identity, identity_eq, LiveIdentityState, LiveProjection}
use zsh_pro.Live.Validate.{validate_live_identity_state}
use zsh_pro.Live.Normalize.{state_key, entry_key}
use zsh_pro.Live.Normalize.Laws.{Passes}
use zsh_pro.Live.Observed.{observed, SameState}
use zsh_pro.Worktree.Order.{identity_less}
use zsh_pro.Worktree.Diff.{diff_snapshot, change_of}
use zsh_pro.Worktree.Diff.Changes.{change_key}
use zsh_pro.Worktree.Diff.Laws.{diff_snapshot_exact, diff_snapshot-eq-nil}
use zsh_pro.Worktree.Apply.{apply_state_changes, equal_live_states}
use zsh_pro.Worktree.Apply.RoundTrip.{apply_state_changes-diff_snapshot}
use zsh_pro.Worktree.Apply.Equal.{equal_live_states_sound}
use zsh_pro.Worktree.Overlay.{apply_overlay, build_projection}
use zsh_pro.Worktree.Overlay.Laws.{overlaid}
use zsh_pro.Worktree.Overlay.Authority.{
  apply_overlay-observed, build_projection-observed, is_tombstone,
}
use zsh_pro.Tests.Samples.{
  opened, before, before_normal, after, snapshot, changes, overlay, overlaid_states, git_alias,
}

diff_sample : diff_snapshot (snapshot before) (snapshot after) ≡ ok changes
unfolding opened
diff_sample = refl

diff_snapshot_exact_example :
    IsAscending identity_less (map change_key changes)
    × ((k : Identity)
        → first_of_key change_key k changes ≡ change_of k (observed k before) (observed k after))
diff_snapshot_exact_example =
    diff_snapshot_exact (snapshot before) (snapshot after) changes diff_sample

diff_snapshot-eq-nil_example : (changes ≡ []) ↔ SameState before after
diff_snapshot-eq-nil_example =
    diff_snapshot-eq-nil (snapshot before) (snapshot after) changes diff_sample

apply_state_changes-diff_snapshot_example :
    (out : List LiveIdentityState) × (apply_state_changes before changes ≡ ok out)
    × SameState out after
apply_state_changes-diff_snapshot_example =
    apply_state_changes-diff_snapshot (snapshot before) (snapshot after) changes diff_sample

equal_sample : equal_live_states before_normal before_normal ≡ true
unfolding opened
equal_sample = refl

equal_live_states_sound_example :
    (Passes validate_live_identity_state before_normal
      × Passes validate_live_identity_state before_normal)
    × IsDistinct (map state_key before_normal)
    × IsDistinct (map state_key before_normal)
    × SameState before_normal before_normal
equal_live_states_sound_example = equal_live_states_sound before_normal before_normal equal_sample

overlay_sample : apply_overlay before overlay ≡ ok overlaid_states
unfolding opened
overlay_sample = refl

apply_overlay-observed_example :
    IsDistinct (map state_key overlaid_states)
    × ((k : Identity)
        → observed k overlaid_states ≡ overlaid (last_of entry_key k overlay) (observed k before))
apply_overlay-observed_example =
    apply_overlay-observed before overlay overlaid_states overlay_sample

abbrev projection : LiveProjection
projection = record { schema = bytes "v1"; states = overlaid_states; tombstones = git_alias ∷ [] }

projection_sample : build_projection before overlay ≡ ok projection
unfolding opened
projection_sample = refl

build_projection-observed_example :
    (projection.schema ≡ bytes "v1")
    × ((k : Identity)
        → observed k projection.states ≡ overlaid (last_of entry_key k overlay) (observed k before))
    × ((k : Identity)
        → contains k projection.tombstones ≡ is_tombstone (last_of entry_key k overlay))
    × ((k : Identity)
        → contains k projection.tombstones ≡ true
        → observed k projection.states ≡ none)
build_projection-observed_example =
    build_projection-observed before overlay projection projection_sample
