-- ===== src/Activate/Build/Invariant.antt =====
-- What holds of the manifest under construction after every entry.
use zsh_pro.Prelude.{
  ◌≡◌, refl, Bool, true, false, ◌||◌, Option, none, some, List, [], ◌∷◌, arith, ◌==◌, if◌then◌else◌,
  contains, map, Bool-cases, inl, inr,
}
use zsh_pro.Data.Bytes.{Bytes, bytes, bytes_eq}
use zsh_pro.Data.Dict.{Dict, lookup, lookup-insert, is_some, insert}
use zsh_pro.Data.Ordered.{Ordered, move_to_end}
use zsh_pro.Data.Ordered.Exact.{
  IsExact, no_items-IsExact, move_to_end-IsExact, move_all-IsExact, contains-move_all,
}
use zsh_pro.Live.Validate.{live_env_name_re}
use zsh_pro.Model.Profile.{BlockKind, Category, Entry}
use zsh_pro.Model.Manifest.{OptionSet}
use zsh_pro.Activate.Build.Lists.{ListToken}
use zsh_pro.Activate.Build.Entries.{
  Builder, new_builder, scalar_key, name_key, option_key, activation_value, add_scalar, store_list,
  put_scalar, put_alias, add_assignment, add_alias, insert_all, add_functions, add_options,
  add_by_kind, add_entry, add_entries, entry_list,
}

pub record IsBuilt (b : Builder) : Type 0 where
  pub env : IsExact scalar_key b.env
  pub functions : IsExact name_key b.functions
  pub options : IsExact option_key b.options
  pub has_bodies :
      (n : Bytes)
      → contains n (map name_key b.functions.items) ≡ true
      → is_some (lookup n b.bodies) ≡ true

new_builder-IsBuilt : IsBuilt new_builder
unfolding contains
new_builder-IsBuilt = record {
  env = no_items-IsExact scalar_key;
  functions = no_items-IsExact name_key;
  options = no_items-IsExact option_key;
  has_bodies = λ n h. ground arith;
}

store_list-IsBuilt :
    (b : Builder) (o : Option (Bytes × List ListToken)) → IsBuilt b → IsBuilt (store_list b o)
unfolding store_list
store_list-IsBuilt b none h = h
store_list-IsBuilt b (some (name, next)) h = record {
  env = h.env;
  functions = h.functions;
  options = h.options;
  has_bodies = h.has_bodies;
}

put_scalar-IsBuilt :
    (b : Builder) (e : Entry) (name : Bytes) (o : Option (Bytes × Bool))
    → IsBuilt b
    → IsBuilt (put_scalar b e name o)
unfolding put_scalar add_scalar
put_scalar-IsBuilt b e name none h = h
put_scalar-IsBuilt b e name (some (value, dynamic)) h = record {
  env = (move_to_end-IsExact scalar_key b.env _ h.env).0;
  functions = h.functions;
  options = h.options;
  has_bodies = h.has_bodies;
}

add_assignment-IsBuilt :
    (b : Builder) (e : Entry) (name : Bytes) (c : Category)
    → IsBuilt b
    → IsBuilt (add_assignment b e name c)
unfolding add_assignment
add_assignment-IsBuilt b e name Category.environment h =
    put_scalar-IsBuilt b e name (activation_value e e.value_mode) h
add_assignment-IsBuilt b e name Category.secrets h =
    put_scalar-IsBuilt b e name (activation_value e e.value_mode) h
add_assignment-IsBuilt b e name Category.path h = store_list-IsBuilt b (entry_list e name b.lists) h
add_assignment-IsBuilt b e name _ h = h

put_alias-IsBuilt :
    (b : Builder) (name : Bytes) (o : Option (Bytes × Bool))
    → IsBuilt b
    → IsBuilt (put_alias b name o)
unfolding put_alias
put_alias-IsBuilt b name none h = h
put_alias-IsBuilt b name (some (value, dynamic)) h = record {
  env = h.env;
  functions = h.functions;
  options = h.options;
  has_bodies = h.has_bodies;
}

choose : (P : Builder → Type 0) (c : Bool) (b b' : Builder) → P b → P b' → P (if c then b else b')
choose P true b b' h h' = h
choose P false b b' h h' = h'

add_alias-IsBuilt :
    (b : Builder) (e : Entry) (name : Bytes) → IsBuilt b → IsBuilt (add_alias b e name)
unfolding add_alias
add_alias-IsBuilt b e name h =
    choose IsBuilt _ _ _ (put_alias-IsBuilt b name (activation_value e e.value_mode) h) h

lookup-insert_all :
    (n body : Bytes) (names : List Bytes) (d : Dict Bytes Bytes)
    → is_some (lookup n (insert_all body names d))
      ≡ (contains n (map name_key names) || is_some (lookup n d))
unfolding insert_all contains
lookup-insert_all n body [] d = refl
lookup-insert_all n body (m ∷ names) d =
    ground (arith, lookup-insert_all n body names (insert m body d), lookup-insert m n body d)

add_functions-IsBuilt :
    (b : Builder) (names : List Bytes) (o : Option Bytes)
    → IsBuilt b
    → IsBuilt (add_functions b names o)
unfolding add_functions
add_functions-IsBuilt b names none h = h
add_functions-IsBuilt b names (some body) h =
    choose IsBuilt _ _ _
      (record {
        env = h.env;
        functions = move_all-IsExact name_key b.functions names h.functions;
        options = h.options;
        has_bodies = λ n held. ground (
          arith,
          lookup-insert_all n body names b.bodies,
          contains-move_all name_key n b.functions names h.functions,
          h.has_bodies n,
        );
      })
      h

add_options-IsExact :
    (t : Ordered OptionSet Bytes) (enabled : Bool) (names : List Bytes)
    → IsExact option_key t
    → IsExact option_key (add_options t enabled names)
unfolding add_options
add_options-IsExact t enabled [] h = h
add_options-IsExact t enabled (n ∷ ns) h = elim (Bool-cases (live_env_name_re n)) [
  | inl accepted ↦
      rw (accepted, add_options)
        (add_options-IsExact
          (move_to_end option_key t (record { name = n; enabled = enabled; was_on = false }))
          enabled ns (move_to_end-IsExact option_key t _ h).0)
  | inr refused ↦ rw (refused, add_options) (add_options-IsExact t enabled ns h)
]

add_by_kind-IsBuilt :
    (b : Builder) (e : Entry) (k : BlockKind) (names : List Bytes)
    → IsBuilt b
    → IsBuilt (add_by_kind b e k names)
unfolding add_by_kind
add_by_kind-IsBuilt b e BlockKind.assignment (n ∷ []) h = add_assignment-IsBuilt b e n e.category h
add_by_kind-IsBuilt b e BlockKind.alias (n ∷ []) h = add_alias-IsBuilt b e n h
add_by_kind-IsBuilt b e BlockKind.func_decl names h =
    add_functions-IsBuilt b names e.function_body h
add_by_kind-IsBuilt b e BlockKind.command names h = choose IsBuilt _ _ _ h (record {
  env = h.env;
  functions = h.functions;
  options = add_options-IsExact b.options (e.cmd_name == bytes "setopt") names h.options;
  has_bodies = h.has_bodies;
})
add_by_kind-IsBuilt b e _ _ h = h

add_entry-IsBuilt : (b : Builder) (e : Entry) → IsBuilt b → IsBuilt (add_entry b e)
unfolding add_entry
add_entry-IsBuilt b e h = choose IsBuilt _ _ _ h (add_by_kind-IsBuilt b e e.kind e.names h)

add_entries-IsBuilt : (b : Builder) (es : List Entry) → IsBuilt b → IsBuilt (add_entries b es)
unfolding add_entries
add_entries-IsBuilt b [] h = h
add_entries-IsBuilt b (e ∷ es) h = add_entries-IsBuilt (add_entry b e) es (add_entry-IsBuilt b e h)

-- After any entries, each index map is exact, no name is held twice, and every function has a body.
pub build-IsBuilt : (es : List Entry) → IsBuilt (add_entries new_builder es)
build-IsBuilt es = add_entries-IsBuilt new_builder es new_builder-IsBuilt
