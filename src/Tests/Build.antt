-- ===== src/Tests/Build.antt =====
-- Manifests and projections of two small profiles: the theorems at these inputs.
use zsh_pro.Prelude.{
  Bool, true, false, Option, none, some, List, [], ◌∷◌, ◌≡◌, ok, map, ◌>>=◌, ◌||◌, if◌then◌else◌,
}
use zsh_pro.Data.Bytes.{Bytes, bytes, bytes_eq}
use zsh_pro.Model.Profile.{ManagedOverride, ValueMode, BlockKind, Category, Entry, Profile}
use zsh_pro.Model.Manifest.{Scalar}
use zsh_pro.Activate.Manifest.{diff, deactivate, activate, normalize_scalars}
use zsh_pro.Activate.Manifest.Scalars.{scalar_name, merged, normalize_scalars-finals}
use zsh_pro.Activate.Build.Entries.{build}
use zsh_pro.Activate.Build.Accepted.{diff-build}
use zsh_pro.Data.LastWins.{finals, first_of_key}
use zsh_pro.Data.Dict.{IsDistinct}
use zsh_pro.Live.Normalize.{state_key}
use zsh_pro.Live.Types.{identity_eq, OverlayEntry}
use zsh_pro.Worktree.Overlay.{build_projection}
use zsh_pro.Activate.Build.Entries.{name_key, option_key}
use zsh_pro.Activate.Build.Effective.{build_effective, live_states_from_manifest}
use zsh_pro.Activate.Build.Projected.{build_effective-build_projection}
use zsh_pro.Activate.Build.Order.{declared_functions, declared_options, build-finals}
use zsh_pro.Activate.Build.Held.{held}
use zsh_pro.Activate.Build.Offered.{state_of, is_named, is_listed, live_states_from_manifest-held}
use zsh_pro.Tests.Samples.{editor, git_alias, text, absent}

-- A legacy entry that is managed and that the parser has seen whole.
abbrev pub entry : BlockKind → Category → Bytes → List Bytes → Bytes → Entry
entry kind category cmd names value = record {
  text = [];
  start_line = 1;
  category = category;
  kind = kind;
  cmd_name = cmd;
  names = names;
  value = value;
  exported = true;
  managed = true;
  override = ManagedOverride.auto;
  dynamic = false;
  structural_fidelity_known = true;
  append = false;
  array = false;
  flagged = false;
  indexed = false;
  alias_assignment = true;
  declaration_flags = [];
  option_flags = [];
  secret = none;
  value_mode = ValueMode.legacy;
  runtime_value = none;
  function_body = some value;
  list_value = none;
}

abbrev assign : Bytes → Bytes → Entry
assign n v = entry BlockKind.assignment Category.environment (bytes "export") (n ∷ []) v

abbrev work : Profile
work = record {
  entries =
      assign (bytes "EDITOR") (bytes "vi")
      ∷ entry BlockKind.assignment Category.path (bytes "export") (bytes "PATH" ∷ [])
          (bytes "/opt/bin:$PATH")
      ∷ entry BlockKind.alias Category.aliases [] (bytes "gs" ∷ []) (bytes "git status")
      ∷ assign (bytes "EDITOR") (bytes "nano")
      ∷ [];
}

abbrev home : Profile
home = record {
  entries =
      entry BlockKind.func_decl Category.functions [] (bytes "up" ∷ []) (bytes "cd ..")
      ∷ entry BlockKind.command Category.options (bytes "setopt") (bytes "nomatch" ∷ []) []
      ∷ [];
}

diff-build_example :
    diff (some (build work)) (some (build home))
    ≡ ok (record { deactivate = deactivate (build work); activate = activate (build home) })
diff-build_example = diff-build work home

abbrev marked : Bytes → Option Bool → Scalar
marked v e = record {
  name = bytes "EDITOR";
  applied = v;
  original = none;
  exported = e;
  dynamic = none;
}

abbrev editors : List Scalar
editors = marked (bytes "vi") (some true) ∷ marked (bytes "nano") (some false) ∷ []

normalize_scalars-finals_example :
    normalize_scalars editors ≡ map (merged editors) (finals scalar_name editors)
normalize_scalars-finals_example = normalize_scalars-finals editors

build-finals_example :
    ((build home).functions.added ≡ finals name_key (declared_functions home.entries))
    × ((build home).options ≡ finals option_key (declared_options home.entries))
build-finals_example = build-finals home

-- An editor that the shell has overridden, and an alias that it has dropped.
abbrev live_overlay : List OverlayEntry
live_overlay =
    record { identity = editor; value = text (bytes "ed"); tombstone = false }
    ∷ record { identity = git_alias; value = absent; tombstone = true }
    ∷ []

build_effective-build_projection_example : build_effective work live_overlay ≡ (
    build_projection (live_states_from_manifest work (build work)) live_overlay >>= λ p.
    ok (record { schema = bytes "v1"; source = work; projection = p }))
build_effective-build_projection_example = build_effective-build_projection work live_overlay

live_states_from_manifest-held_example :
    IsDistinct (map state_key (live_states_from_manifest work (build work)))
    × (first_of_key state_key editor (live_states_from_manifest work (build work)) ≡ (
        if is_named editor work.entries || is_listed editor (build work)
        then state_of editor (held (build work) editor)
        else none))
live_states_from_manifest-held_example = live_states_from_manifest-held work (build work) editor
