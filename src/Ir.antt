-- ===== src/Ir.antt =====
-- The intermediate representation: core/ir/route.go, build.go and regen.go. The classifier and the
-- regenerator of the shell are parameters, as they are interfaces there.
pub mod Gates
use zsh_pro.Prelude.{
  ℕ, suc, Bool, true, false, not, ◌&&◌, ◌||◌, Option, none, some, List, [], ◌∷◌, ◌++◌, ◌==◌, nat_eq,
  ltb, if◌then◌else◌, length, map,
}
use zsh_pro.Data.Bytes.{Bytes, bytes, bytes_eq}
use zsh_pro.Model.Profile.{
  BlockKind, Category, ManagedOverride, ListValue, valid_list, Entry, Profile, effective_managed,
  representable,
}
use zsh_pro.Model.Block.{Block, Confidence}

-- The commands whose attributes an entry cannot represent.
abbrev declares_scope : Bytes → Bool
declares_scope name =
    name == bytes "typeset"
    || name == bytes "declare"
    || name == bytes "local"
    || name == bytes "readonly"

is_exported_category : Category → Bool
is_exported_category Category.environment = true
is_exported_category Category.path = true
is_exported_category Category.secrets = true
is_exported_category _ = false

is_options : Category → Bool
is_options Category.options = true
is_options _ = false

-- The switch on Kind.
unfoldable pub route_kind : Block → Category → BlockKind → Bool
unfolding is_exported_category is_options
route_kind b category BlockKind.alias = length b.names == 1 && not b.flagged
route_kind b category BlockKind.func_decl = true
route_kind b category BlockKind.assignment =
    if not (length b.names == 1) || b.append
    then false
    else if declares_scope b.cmd_name
    then false
    else if b.array
    then false
    else is_exported_category category
route_kind b category BlockKind.command =
    is_options category
    && (b.cmd_name == bytes "setopt" || b.cmd_name == bytes "unsetopt")
    && ltb 0 (length b.names)
route_kind b category _ = false

unfoldable pub route_managed : Block → Category → Bool
route_managed b category = if b.opaque then false else route_kind b category b.kind

unfoldable pub clone_list_value : Option ListValue → Option ListValue
clone_list_value none = none
clone_list_value (some v) = if valid_list v then some v else none

unfoldable pub entry_of : Block → Category → Entry
entry_of b category = record {
  text = b.text;
  start_line = b.start_line;
  category = category;
  kind = b.kind;
  cmd_name = b.cmd_name;
  names = b.names;
  value = b.value;
  exported = b.exported;
  managed = route_managed b category;
  override = ManagedOverride.auto;
  dynamic = b.dynamic;
  structural_fidelity_known = not b.opaque;
  append = b.append;
  array = b.array;
  flagged = b.flagged;
  indexed = b.indexed;
  alias_assignment = b.alias_assignment;
  declaration_flags = b.declaration_flags;
  option_flags = b.option_flags;
  secret = none;
  value_mode = b.value_mode;
  runtime_value = b.runtime_value;
  function_body = b.function_body;
  list_value = clone_list_value b.list_value;
}

unfoldable pub build_profile : (Block → Category × Confidence) → List Block → Profile
build_profile classify blocks = record { entries = map (λ b. entry_of b (classify b).0) blocks }

unfoldable pub regenerate_line : (Entry → Bytes) → Entry → Bytes
regenerate_line render e = if effective_managed e && representable e then render e else e.text

regenerate_entries : (Entry → Bytes) → List Entry → Bytes
regenerate_entries render [] = []
regenerate_entries render (e ∷ es) = regenerate_line render e ++ 10 ∷ regenerate_entries render es

unfoldable pub regenerate : (Entry → Bytes) → Profile → Bytes
unfolding regenerate_entries
regenerate render p = regenerate_entries render p.entries
