-- ===== src/Activate/Build/Order.antt =====
-- Functions and options of a built manifest: the last occurrence of each name, in source order.
use zsh_pro.Prelude.{
  ◌≡◌, refl, sym, ◌∙◌, ap, Bool, false, not, ◌||◌, ◌&&◌, Option, none, some, List, [], ◌∷◌, ◌++◌,
  arith, ◌==◌, if◌then◌else◌, map, select, Bool-cases, inl, inr,
}
use zsh_pro.Data.Bytes.{Bytes, bytes, bytes_eq}
use zsh_pro.Data.LastWins.{finals}
use zsh_pro.Data.Ordered.{Ordered, move_to_end, move_all}
use zsh_pro.Data.Ordered.Exact.{move_all-finals, move_all-append}
use zsh_pro.Live.Validate.{live_env_name_re, live_symbol_name_re}
use zsh_pro.Model.Profile.{BlockKind, Category, Entry, Profile, effective_managed, representable}
use zsh_pro.Model.Manifest.{OptionSet}
use zsh_pro.Activate.Build.Entries.{
  Builder, new_builder, name_key, option_key, all_names, add_functions, add_options, add_by_kind,
  add_entry, add_entries, finish, build, is_options, put_scalar, store_list, add_assignment,
  put_alias, add_alias, entry_list, activation_value,
}
use zsh_pro.Activate.Build.Lists.{ListToken}

-- The entries that Build looks at.
abbrev taken : {A : Type 0} → Entry → List A → List A
taken e xs = if not (effective_managed e) || not (representable e) then [] else xs

-- The names of an entry that declares functions that can be built.
function_names : BlockKind → Option Bytes → List Bytes → List Bytes
function_names BlockKind.func_decl (some body) names =
    if all_names live_symbol_name_re names then names else []
function_names _ _ _ = []

pub declared_functions : List Entry → List Bytes
declared_functions [] = []
declared_functions (e ∷ es) =
    taken e (function_names e.kind e.function_body e.names) ++ declared_functions es

-- The settings of an entry that runs setopt or unsetopt.
option_set : Bool → Bytes → OptionSet
option_set enabled n = record { name = n; enabled = enabled; was_on = false }

option_sets : BlockKind → Category → Bytes → List Bytes → List OptionSet
option_sets BlockKind.command Category.options cmd names =
    if cmd == bytes "setopt" || cmd == bytes "unsetopt"
    then map (option_set (cmd == bytes "setopt")) (select live_env_name_re names)
    else []
option_sets _ _ _ _ = []

pub declared_options : List Entry → List OptionSet
declared_options [] = []
declared_options (e ∷ es) =
    taken e (option_sets e.kind e.category e.cmd_name e.names) ++ declared_options es

-- What a step leaves alone.
abbrev Keeps : Builder → Builder → Type 0
Keeps b b' = (b'.functions ≡ b.functions) × (b'.options ≡ b.options)

put_scalar-Keeps :
    (b : Builder) (e : Entry) (n : Bytes) (o : Option (Bytes × Bool)) → Keeps b (put_scalar b e n o)
unfolding put_scalar
put_scalar-Keeps b e n none = (refl, refl)
put_scalar-Keeps b e n (some (value, dynamic)) = (refl, refl)

store_list-Keeps : (b : Builder) (o : Option (Bytes × List ListToken)) → Keeps b (store_list b o)
unfolding store_list
store_list-Keeps b none = (refl, refl)
store_list-Keeps b (some (name, next)) = (refl, refl)

add_assignment-Keeps :
    (b : Builder) (e : Entry) (n : Bytes) (c : Category) → Keeps b (add_assignment b e n c)
unfolding add_assignment
add_assignment-Keeps b e n Category.environment =
    put_scalar-Keeps b e n (activation_value e e.value_mode)
add_assignment-Keeps b e n Category.secrets =
    put_scalar-Keeps b e n (activation_value e e.value_mode)
add_assignment-Keeps b e n Category.path = store_list-Keeps b (entry_list e n b.lists)
add_assignment-Keeps b e n _ = (refl, refl)

put_alias-Keeps : (b : Builder) (n : Bytes) (o : Option (Bytes × Bool)) → Keeps b (put_alias b n o)
unfolding put_alias
put_alias-Keeps b n none = (refl, refl)
put_alias-Keeps b n (some (value, dynamic)) = (refl, refl)

add_alias-Keeps : (b : Builder) (e : Entry) (n : Bytes) → Keeps b (add_alias b e n)
unfolding add_alias
add_alias-Keeps b e n = ground (arith, put_alias-Keeps b n (activation_value e e.value_mode))

add_options-move_all :
    (t : Ordered OptionSet Bytes) (enabled : Bool) (ns : List Bytes)
    → add_options t enabled ns
      ≡ move_all option_key t (map (option_set enabled) (select live_env_name_re ns))
unfolding add_options move_all select option_set
add_options-move_all t enabled [] = refl
add_options-move_all t enabled (n ∷ ns) = elim (Bool-cases (live_env_name_re n)) [
  | inl accepted ↦
      rw (accepted, add_options, select)
        (add_options-move_all (move_to_end option_key t (option_set enabled n)) enabled ns)
  | inr refused ↦ rw (refused, add_options, select) (add_options-move_all t enabled ns)
]

-- What an entry does to the functions and the options.
abbrev Moves : Builder → Builder → List Bytes → List OptionSet → Type 0
Moves b b' fs os =
    (b'.functions ≡ move_all name_key b.functions fs)
    × (b'.options ≡ move_all option_key b.options os)

add_functions-Moves :
    (b : Builder) (e : Entry) (names : List Bytes) (o : Option Bytes) (c : Category)
    → Moves b
        (add_functions b names o)
        (function_names BlockKind.func_decl o names)
        (option_sets BlockKind.func_decl c e.cmd_name names)
unfolding add_functions move_all function_names option_sets
add_functions-Moves b e names none c = (refl, refl)
add_functions-Moves b e names (some body) c =
    elim (Bool-cases (all_names live_symbol_name_re names)) [
      | inl accepted ↦ rw (accepted, add_functions, function_names) (refl, refl)
      | inr refused ↦ rw (refused, add_functions, function_names) (refl, refl)
    ]

command-Moves :
    (b : Builder) (c : Category) (cmd : Bytes) (names : List Bytes)
    → Moves b
        (if not (is_options c) || not (cmd == bytes "setopt") && not (cmd == bytes "unsetopt")
          then b
          else record b { options = add_options b.options (cmd == bytes "setopt") names })
        []
        (option_sets BlockKind.command c cmd names)
unfolding is_options option_sets move_all
command-Moves b Category.options cmd names =
    ground (arith, add_options-move_all b.options (cmd == bytes "setopt") names)
command-Moves b _ cmd names = (refl, refl)

add_by_kind-Moves :
    (b : Builder) (e : Entry) (k : BlockKind) (names : List Bytes)
    → Moves b
        (add_by_kind b e k names)
        (function_names k e.function_body names)
        (option_sets k e.category e.cmd_name names)
unfolding add_by_kind move_all function_names option_sets
add_by_kind-Moves b e BlockKind.assignment [] = (refl, refl)
add_by_kind-Moves b e BlockKind.assignment (n ∷ []) = add_assignment-Keeps b e n e.category
add_by_kind-Moves b e BlockKind.assignment (n ∷ m ∷ ns) = (refl, refl)
add_by_kind-Moves b e BlockKind.alias [] = (refl, refl)
add_by_kind-Moves b e BlockKind.alias (n ∷ []) = add_alias-Keeps b e n
add_by_kind-Moves b e BlockKind.alias (n ∷ m ∷ ns) = (refl, refl)
add_by_kind-Moves b e BlockKind.func_decl names =
    add_functions-Moves b e names e.function_body e.category
add_by_kind-Moves b e BlockKind.command names = command-Moves b e.category e.cmd_name names
add_by_kind-Moves b e _ names = (refl, refl)

add_entry-Moves :
    (b : Builder) (e : Entry)
    → Moves b
        (add_entry b e)
        (taken e (function_names e.kind e.function_body e.names))
        (taken e (option_sets e.kind e.category e.cmd_name e.names))
unfolding add_entry move_all
add_entry-Moves b e = elim (Bool-cases (not (effective_managed e) || not (representable e))) [
  | inl skipped ↦ rw (skipped, add_entry) (refl, refl)
  | inr seen ↦ rw (seen, add_entry) (add_by_kind-Moves b e e.kind e.names)
]

add_entries-Moves :
    (b : Builder) (es : List Entry)
    → Moves b (add_entries b es) (declared_functions es) (declared_options es)
unfolding add_entries declared_functions declared_options move_all
add_entries-Moves b [] = (refl, refl)
add_entries-Moves b (e ∷ es) =
    let (fs, os) = add_entry-Moves b e in
    let (gs, qs) = add_entries-Moves (add_entry b e) es in
    (
      gs
          ∙ ap (λ t. move_all name_key t (declared_functions es)) fs
          ∙ sym (
              move_all-append name_key b.functions
                (taken e (function_names e.kind e.function_body e.names)) (declared_functions es)),
      qs
          ∙ ap (λ t. move_all option_key t (declared_options es)) os
          ∙ sym (
              move_all-append option_key b.options
                (taken e (option_sets e.kind e.category e.cmd_name e.names)) (declared_options es)),
    )

-- A built manifest adds the functions that the managed entries declare, each name once and at its
-- last declaration, and sets the options of their setopt and unsetopt commands, where the last
-- command on an option decides whether it is enabled and where it stands.
pub build-finals :
    (p : Profile)
    → ((build p).functions.added ≡ finals name_key (declared_functions p.entries))
      × ((build p).options ≡ finals option_key (declared_options p.entries))
unfolding build finish
build-finals p =
    let (fs, os) = add_entries-Moves new_builder p.entries in
    (
      ap (λ t. t.items) fs ∙ (move_all-finals name_key (declared_functions p.entries)).1,
      ap (λ t. t.items) os ∙ (move_all-finals option_key (declared_options p.entries)).1,
    )
