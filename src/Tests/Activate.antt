-- ===== src/Tests/Activate.antt =====
-- Live patches: the theorems at inputs that meet their hypotheses.
use zsh_pro.Prelude.{◌≡◌, refl, true, false, ok, [], ◌∷◌}
use zsh_pro.Data.Bytes.{bytes}
use zsh_pro.Live.Normalize.{normalize_live_states}
use zsh_pro.Live.Observed.{observed}
use zsh_pro.Worktree.Diff.{diff_snapshot, collect_changes}
use zsh_pro.Activate.Plan.{Op, LivePatch}
use zsh_pro.Activate.Patch.{
  build_live_patch, diff_live_states, live_state_values, live_identity_less, live_changes_to_ops,
  change_ops,
}
use zsh_pro.Activate.Patch.Agree.{diff_live_states-diff_snapshot}
use zsh_pro.Activate.Patch.Run.{Shell, run}
use zsh_pro.Activate.Patch.RoundTrip.{Moves, build_live_patch-Moves, build_live_patch_undo}
use zsh_pro.Tests.Samples.{
  opened, before, before_normal, after, snapshot, changes, editor, git_alias, path_list, nomatch,
}

normalize_before : normalize_live_states before ≡ ok before_normal
unfolding opened
normalize_before = refl

normalize_after : normalize_live_states after ≡ ok after
unfolding opened
normalize_after = refl

diff_sample : diff_snapshot (snapshot before) (snapshot after) ≡ ok changes
unfolding opened
diff_sample = refl

diff_live_states-diff_snapshot_example : diff_live_states before_normal after ≡ changes
diff_live_states-diff_snapshot_example =
    diff_live_states-diff_snapshot (snapshot before) (snapshot after) before_normal after changes
      normalize_before normalize_after diff_sample

abbrev patch : LivePatch
patch = record {
  forward =
      Op.set_live_scalar editor (bytes "nano")
      ∷ Op.remove_live_scalar git_alias
      ∷ Op.transition_live_list path_list true true (bytes "/bin" ∷ [])
          (bytes "/bin" ∷ bytes "/opt" ∷ [])
      ∷ Op.set_live_option_state nomatch false
      ∷ [];
  replacement_reverse =
      Op.set_live_scalar editor (bytes "vi")
      ∷ Op.set_live_scalar git_alias (bytes "git status")
      ∷ Op.transition_live_list path_list true true (bytes "/bin" ∷ bytes "/opt" ∷ [])
          (bytes "/bin" ∷ [])
      ∷ Op.remove_live_option_state nomatch
      ∷ [];
}

patch_sample : build_live_patch before after ≡ ok patch
unfolding opened build_live_patch diff_live_states live_state_values live_identity_less
    live_changes_to_ops change_ops collect_changes
patch_sample = refl

build_live_patch-Moves_example :
    (p : LivePatch) × (build_live_patch before after ≡ ok p)
    × Moves p.forward before after
    × Moves p.replacement_reverse after before
build_live_patch-Moves_example =
    build_live_patch-Moves before before_normal after after normalize_before normalize_after

-- A shell that holds the values of the first capture.
abbrev shell : Shell
shell k = observed k before

build_live_patch_undo_example :
    run patch.replacement_reverse (run patch.forward shell) editor ≡ shell editor
build_live_patch_undo_example =
    build_live_patch_undo before before_normal after after patch shell normalize_before
      normalize_after patch_sample (λ k m. refl) editor
