-- ===== src/Activate/Build/Effective.antt =====
-- BuildEffective and its helpers: core/activate/builder.go.
use zsh_pro.Prelude.{
  Bool, true, false, not, ◌&&◌, ◌||◌, Option, none, some, List, [], ◌∷◌, ◌++◌, ◌==◌, map,
  if◌then◌else◌, contains, ok, Result, ◌>>=◌,
}
use zsh_pro.Data.Bytes.{Bytes, bytes, bytes_eq}
use zsh_pro.Data.Dict.{Dict, lookup, insert, is_some}
use zsh_pro.Data.Ordered.{Ordered, no_items, move_to_end}
use zsh_pro.Live.Types.{
  LiveKind, Identity, identity_eq, LiveValue, LiveIdentityState, OverlayEntry, LiveProjection,
}
use zsh_pro.Live.Errors.{Error}
use zsh_pro.Live.Values.{clone_live_value, scalar_live_value, list_live_value, option_live_value}
use zsh_pro.Live.Normalize.{
  state_key, clone_live_projection, normalize_live_states, normalize_overlay,
}
use zsh_pro.Model.Profile.{BlockKind, Category, Entry, Profile, effective_managed, representable}
use zsh_pro.Model.Manifest.{Scalar, ListDelta, OptionSet, Manifest}
use zsh_pro.Activate.Build.Projection.{effective_projection}
use zsh_pro.Activate.Build.Lists.{canonical_list}
use zsh_pro.Activate.Build.Entries.{build}

abbrev pub Values : Type 0
Values = Dict Identity LiveValue

abbrev pub identity : LiveKind → Bytes → Identity
identity k n = record { kind = k; name = n }

unfoldable pub list_identity : Bytes → Identity
list_identity n = identity (if n == bytes "FPATH" then LiveKind.fpath else LiveKind.path) n

unfoldable pub scalar_values : List Scalar → Values → Values
scalar_values [] vs = vs
scalar_values (s ∷ ss) vs =
    scalar_values ss (insert (identity LiveKind.env s.name) (scalar_live_value s.applied) vs)

-- Each key of the map occurs once, so the order of the range does not matter.
unfoldable pub alias_values : Dict Bytes Bytes → Values → Values
alias_values [] vs = vs
alias_values ((n, body) ∷ d) vs =
    alias_values d (insert (identity LiveKind.alias n) (scalar_live_value body) vs)

unfoldable pub store_body : Bytes → Option Bytes → Values → Values
store_body n none vs = vs
store_body n (some body) vs = insert (identity LiveKind.function n) (scalar_live_value body) vs

unfoldable pub function_values : Dict Bytes Bytes → List Bytes → Values → Values
unfolding store_body
function_values bodies [] vs = vs
function_values bodies (n ∷ ns) vs = function_values bodies ns (store_body n (lookup n bodies) vs)

unfoldable pub list_values : List ListDelta → Values → Values
unfolding list_identity
list_values [] vs = vs
list_values (l ∷ ls) vs =
    list_values ls (insert (list_identity l.name) (list_live_value l.additions) vs)

unfoldable pub option_values : List OptionSet → Values → Values
option_values [] vs = vs
option_values (o ∷ os) vs =
    option_values os (insert (identity LiveKind.option o.name) (option_live_value o.enabled) vs)

unfoldable pub manifest_values : Manifest → Values
unfolding scalar_values alias_values function_values list_values option_values
manifest_values m = option_values m.options (
    list_values m.lists (
      function_values m.functions.bodies m.functions.added
        (alias_values m.aliases.added (scalar_values m.env []))))

unfoldable pub list_identities : Bytes → List Identity
list_identities name =
    if name == bytes "PATH"
    then identity LiveKind.path name ∷ []
    else if name == bytes "FPATH"
    then identity LiveKind.fpath name ∷ []
    else []

unfoldable pub assignment_identities : Bytes → Category → List Identity
unfolding list_identities
assignment_identities n Category.path = list_identities (canonical_list n)
assignment_identities n Category.environment = identity LiveKind.env n ∷ []
assignment_identities n Category.secrets = identity LiveKind.env n ∷ []
assignment_identities n _ = []

is_options : Category → Bool
is_options Category.options = true
is_options _ = false

unfoldable pub identities_by_kind : Entry → BlockKind → List Bytes → List Identity
unfolding assignment_identities is_options
identities_by_kind e BlockKind.assignment (n ∷ []) = assignment_identities n e.category
identities_by_kind e BlockKind.alias (n ∷ []) = identity LiveKind.alias n ∷ []
identities_by_kind e BlockKind.func_decl names = map (identity LiveKind.function) names
identities_by_kind e BlockKind.command names =
    if is_options e.category && (e.cmd_name == bytes "setopt" || e.cmd_name == bytes "unsetopt")
    then map (identity LiveKind.option) names
    else []
identities_by_kind e _ _ = []

unfoldable pub live_entry_identities : Entry → List Identity
unfolding identities_by_kind
live_entry_identities e =
    if not (effective_managed e) || not (representable e) || is_some e.secret
    then []
    else identities_by_kind e e.kind e.names

abbrev pub identity_key : Identity → Identity
identity_key i = i

unfoldable pub note_identities :
    Values → Ordered Identity Identity → List Identity → Ordered Identity Identity
note_identities vs t [] = t
note_identities vs t (i ∷ is) =
    note_identities vs (if is_some (lookup i vs) then move_to_end identity_key t i else t) is

unfoldable pub note_entries :
    Values → Ordered Identity Identity → List Entry → Ordered Identity Identity
unfolding note_identities
note_entries vs t [] = t
note_entries vs t (e ∷ es) = note_entries vs (note_identities vs t (live_entry_identities e)) es

-- appendState; `seen` holds the identities of the states.
unfoldable pub append_state : Values → List LiveIdentityState → Identity → List LiveIdentityState
append_state vs states i = elim (lookup i vs) [
  | none ↦ states
  | some v ↦
      if contains i (map state_key states)
      then states
      else states ++ record { identity = i; value = clone_live_value v } ∷ []
]

unfoldable pub append_states :
    Values → List LiveIdentityState → List Identity → List LiveIdentityState
append_states vs states [] = states
append_states vs states (i ∷ is) = append_states vs (append_state vs states i) is

-- The identities in the order in which they are appended.
unfoldable pub appended_identities : Profile → Manifest → List Identity
unfolding list_identity
appended_identities source m =
    (note_entries (manifest_values m) no_items source.entries).items
    ++ map (λ s. identity LiveKind.env s.name) m.env
    ++ map (λ l. list_identity l.name) m.lists
    ++ map (identity LiveKind.function) m.functions.added
    ++ map (λ o. identity LiveKind.option o.name) m.options

unfoldable pub live_states_from_manifest : Profile → Manifest → List LiveIdentityState
live_states_from_manifest source m =
    append_states (manifest_values m) [] (appended_identities source m)

pub record CommittedWorktree : Type 0 where
  pub schema : Bytes
  pub source : Profile
  pub projection : LiveProjection

-- The source profile is a value here, so its copy is itself.
unfoldable pub new_committed_worktree : Profile → LiveProjection → CommittedWorktree
new_committed_worktree source projection = record {
  schema = bytes "v1";
  source = source;
  projection = clone_live_projection (record projection { schema = bytes "v1" });
}

unfoldable pub build_effective : Profile → List OverlayEntry → Result Error CommittedWorktree
build_effective base overlay = do
  states ← normalize_live_states (live_states_from_manifest base (build base))
  normalized_overlay ← normalize_overlay overlay
  ok (new_committed_worktree base (effective_projection states normalized_overlay))
