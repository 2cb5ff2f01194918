-- ===== src/Activate/Build/Entries.antt =====
-- Build: core/activate/builder.go. Each managed, representable entry adds to the manifest.
use zsh_pro.Prelude.{
  ℕ, zero, suc, Bool, true, false, not, ◌&&◌, ◌||◌, Option, none, some, List, [], ◌∷◌, ◌++◌, ◌==◌,
  nat_eq, if◌then◌else◌, map,
}
use zsh_pro.Data.Bytes.{Bytes, bytes, bytes_eq}
use zsh_pro.Data.Dict.{Dict, lookup, insert, is_some}
use zsh_pro.Data.Ordered.{Ordered, no_items, move_to_end, move_all}
use zsh_pro.Live.Validate.{live_env_name_re, live_symbol_name_re}
use zsh_pro.Model.Profile.{
  ValueMode, BlockKind, Category, Entry, Profile, effective_managed, representable,
}
use zsh_pro.Model.Manifest.{schema_v1, Scalar, OptionSet, Manifest}
use zsh_pro.Activate.Manifest.{or_false}
use zsh_pro.Activate.Build.Legacy.{compose_legacy_list}
use zsh_pro.Activate.Build.Lists.{ListToken, compose_list, list_delta}

-- The value that is activated, and whether it is dynamic.
unfoldable pub activation_value : Entry → ValueMode → Option (Bytes × Bool)
activation_value e ValueMode.legacy = some (e.value, e.dynamic)
activation_value e ValueMode.literal = elim e.runtime_value [
  | some v ↦ some (v, false)
  | none ↦ none
]
activation_value e ValueMode.dynamic = if e.dynamic then some (e.value, true) else none
activation_value e ValueMode.unsupported = none
activation_value e (ValueMode.unknown mode) = none

-- The manifest under construction, with the local index maps.
pub record Builder : Type 0 where
  pub env : Ordered Scalar Bytes
  pub alias_bodies : Dict Bytes Bytes
  pub alias_dynamic : Dict Bytes Bool
  pub functions : Ordered Bytes Bytes
  pub bodies : Dict Bytes Bytes
  pub options : Ordered OptionSet Bytes
  pub lists : Dict Bytes (List ListToken)
  pub list_order : List Bytes

abbrev pub new_builder : Builder
new_builder = record {
  env = no_items;
  alias_bodies = [];
  alias_dynamic = [];
  functions = no_items;
  bodies = [];
  options = no_items;
  lists = [];
  list_order = [];
}

abbrev pub scalar_key : Scalar → Bytes
scalar_key s = s.name

abbrev pub name_key : Bytes → Bytes
name_key n = n

abbrev pub option_key : OptionSet → Bytes
option_key o = o.name

-- `*m.Env[i].Exported`; Build stores no scalar without it.
exported_at : List Scalar → ℕ → Bool
exported_at [] i = false
exported_at (s ∷ ss) zero = or_false s.exported
exported_at (s ∷ ss) (suc i) = exported_at ss i

-- Once exported, a scalar stays exported.
exported_again : Ordered Scalar Bytes → Option ℕ → Bool → Bool
unfolding exported_at
exported_again t none b = b
exported_again t (some i) b = exported_at t.items i || b

unfoldable pub add_scalar :
    Ordered Scalar Bytes → Bytes → Bytes → Bool → Bool → Ordered Scalar Bytes
unfolding exported_again
add_scalar t name value dynamic exported = move_to_end scalar_key t (record {
  name = name;
  applied = value;
  original = none;
  exported = some (exported_again t (lookup name t.indexes) exported);
  dynamic = some dynamic;
})

remove_first : Bytes → List Bytes → List Bytes
remove_first n [] = []
remove_first n (x ∷ xs) = let rest = remove_first n xs in if x == n then xs else x ∷ rest

unfoldable pub store_list : Builder → Option (Bytes × List ListToken) → Builder
unfolding remove_first
store_list b none = b
store_list b (some (name, next)) = record b {
  lists = insert name next b.lists;
  list_order =
      (if is_some (lookup name b.lists) then remove_first name b.list_order else b.list_order)
      ++ name ∷ [];
}

is_legacy : ValueMode → Bool
is_legacy ValueMode.legacy = true
is_legacy _ = false

-- composeList, or the historical form where there is no list value.
unfoldable pub entry_list :
    Entry → Bytes → Dict Bytes (List ListToken) → Option (Bytes × List ListToken)
unfolding is_legacy
entry_list e name lists = elim (compose_list name e.list_value lists) [
  | some composed ↦ some composed
  | none ↦
      if not (is_some e.list_value) && is_legacy e.value_mode
      then compose_legacy_list name e.value lists
      else none
]

unfoldable pub put_scalar : Builder → Entry → Bytes → Option (Bytes × Bool) → Builder
unfolding add_scalar
put_scalar b e name none = b
put_scalar b e name (some (value, dynamic)) = record b {
  env = add_scalar b.env name value dynamic e.exported;
}

unfoldable pub add_assignment : Builder → Entry → Bytes → Category → Builder
unfolding put_scalar store_list
add_assignment b e name Category.environment = put_scalar b e name (activation_value e e.value_mode)
add_assignment b e name Category.secrets = put_scalar b e name (activation_value e e.value_mode)
add_assignment b e name Category.path = store_list b (entry_list e name b.lists)
add_assignment b e name _ = b

unfoldable pub put_alias : Builder → Bytes → Option (Bytes × Bool) → Builder
put_alias b name none = b
put_alias b name (some (value, dynamic)) = record b {
  alias_bodies = insert name value b.alias_bodies;
  alias_dynamic = insert name dynamic b.alias_dynamic;
}

unfoldable pub add_alias : Builder → Entry → Bytes → Builder
unfolding put_alias
add_alias b e name =
    if live_symbol_name_re name then put_alias b name (activation_value e e.value_mode) else b

unfoldable pub all_names : (Bytes → Bool) → List Bytes → Bool
all_names p [] = true
all_names p (n ∷ ns) = p n && all_names p ns

unfoldable pub insert_all : Bytes → List Bytes → Dict Bytes Bytes → Dict Bytes Bytes
insert_all body [] d = d
insert_all body (n ∷ ns) d = insert_all body ns (insert n body d)

unfoldable pub add_functions : Builder → List Bytes → Option Bytes → Builder
unfolding all_names insert_all
add_functions b names none = b
add_functions b names (some body) =
    if all_names live_symbol_name_re names
    then record b {
      functions = move_all name_key b.functions names;
      bodies = insert_all body names b.bodies;
    }
    else b

unfoldable pub add_options : Ordered OptionSet Bytes → Bool → List Bytes → Ordered OptionSet Bytes
add_options t enabled [] = t
add_options t enabled (n ∷ ns) =
    add_options
      (if live_env_name_re n
        then move_to_end option_key t (record { name = n; enabled = enabled; was_on = false })
        else t)
      enabled ns

unfoldable pub is_options : Category → Bool
is_options Category.options = true
is_options _ = false

-- The switch on Kind.
unfoldable pub add_by_kind : Builder → Entry → BlockKind → List Bytes → Builder
unfolding add_assignment add_alias add_functions is_options
add_by_kind b e BlockKind.assignment (n ∷ []) = add_assignment b e n e.category
add_by_kind b e BlockKind.alias (n ∷ []) = add_alias b e n
add_by_kind b e BlockKind.func_decl names = add_functions b names e.function_body
add_by_kind b e BlockKind.command names =
    if not (is_options e.category)
      || not (e.cmd_name == bytes "setopt") && not (e.cmd_name == bytes "unsetopt")
    then b
    else record b { options = add_options b.options (e.cmd_name == bytes "setopt") names }
add_by_kind b e _ _ = b

unfoldable pub add_entry : Builder → Entry → Builder
unfolding add_by_kind
add_entry b e =
    if not (effective_managed e) || not (representable e) then b else add_by_kind b e e.kind e.names

unfoldable pub add_entries : Builder → List Entry → Builder
add_entries b [] = b
add_entries b (e ∷ es) = add_entries (add_entry b e) es

tokens_of : Option (List ListToken) → List ListToken
tokens_of none = []
tokens_of (some ts) = ts

-- The manifest, from the state behind the last entry.
unfoldable pub finish : Builder → Manifest
unfolding tokens_of
finish b = record {
  profile = [];
  schema = schema_v1;
  env = b.env.items;
  lists = map (λ n. list_delta n (tokens_of (lookup n b.lists))) b.list_order;
  aliases = record { added = b.alias_bodies; shadowed = []; dynamic = b.alias_dynamic };
  functions = record { added = b.functions.items; shadowed = []; bodies = b.bodies };
  options = b.options.items;
}

unfoldable pub build : Profile → Manifest
build p = finish (add_entries new_builder p.entries)
