-- ===== src/Activate/Manifest.antt =====
-- Diff and its helpers: core/activate/diff.go, the part on manifests.
pub mod Scalars
use zsh_pro.Prelude.{
  ℕ, suc, Bool, true, false, not, ◌&&◌, ◌||◌, Option, none, some, List, [], ◌∷◌, ◌++◌, map, Eq,
  ◌==◌, nat_eq, ltb, length, if◌then◌else◌, ok, err, Result, ◌>>=◌, ◌>>◌, guard, contains,
}
use zsh_pro.Data.Bytes.{Bytes, bytes_eq, bytes_lt}
use zsh_pro.Data.Dict.{Dict, insert, lookup, keys, is_some}
use zsh_pro.Data.LastWins.{last_wins, or_zero}
use zsh_pro.Data.Sort.{sort}
use zsh_pro.Live.Errors.{Error}
use zsh_pro.Live.Validate.{Checked}
use zsh_pro.Model.Manifest.{
  ℤ, pos, negsuc, schema_v1, Scalar, ListDelta, AliasSet, FuncSet, OptionSet, Manifest,
}
use zsh_pro.Activate.Plan.{Op, Plan}

abbrev pub or_false : Option Bool → Bool
or_false none = false
or_false (some b) = b

abbrev pub or_empty : Option Bytes → Bytes
or_empty none = []
or_empty (some s) = s

-- The three maps of normalizeScalars.
pub record ScalarMaps : Type 0 where
  pub last : Dict Bytes ℕ
  pub exported : Dict Bytes Bool
  pub explicit : Dict Bytes Bool

unfoldable pub note_scalar : ScalarMaps → ℕ → Scalar → Option Bool → ScalarMaps
note_scalar t i s none = record t { last = insert s.name i t.last }
note_scalar t i s (some b) = record {
  last = insert s.name i t.last;
  exported = insert s.name (or_false (lookup s.name t.exported) || b) t.exported;
  explicit = insert s.name true t.explicit;
}

unfoldable pub note_scalars : ℕ → List Scalar → ScalarMaps → ScalarMaps
unfolding note_scalar
note_scalars i [] t = t
note_scalars i (s ∷ ss) t = note_scalars (suc i) ss (note_scalar t i s s.exported)

-- The second loop.
unfoldable pub keep_scalars : ScalarMaps → ℕ → List Scalar → List Scalar
keep_scalars t i [] = []
keep_scalars t i (s ∷ ss) =
    let rest = keep_scalars t (suc i) ss in
    if not (or_zero (lookup s.name t.last) == i)
    then rest
    else if or_false (lookup s.name t.explicit)
    then record s { exported = some (or_false (lookup s.name t.exported)) } ∷ rest
    else s ∷ rest

abbrev pub no_scalars : ScalarMaps
no_scalars = record { last = []; exported = []; explicit = [] }

unfoldable pub normalize_scalars : List Scalar → List Scalar
normalize_scalars ss = keep_scalars (note_scalars 0 ss no_scalars) 0 ss

unfoldable pub normalize_names : List Bytes → List Bytes
normalize_names = last_wins (λ n. n)

unfoldable pub normalize_options : List OptionSet → List OptionSet
normalize_options = last_wins (λ o. o.name)

unfoldable pub normalize_manifest : Manifest → Manifest
normalize_manifest m = record m {
  env = normalize_scalars m.env;
  functions = record m.functions { added = normalize_names m.functions.added };
  options = normalize_options m.options;
}

-- `*list.BaseIndex < 0 || *list.BaseIndex > len(list.Additions)`
base_outside : ℤ → ℕ → Bool
base_outside (pos i) n = ltb n i
base_outside (negsuc i) n = true

unfoldable pub validate_list_delta : ListDelta → Checked
unfolding base_outside
validate_list_delta l = elim l.base_index [
  | none ↦ guard (length l.addition_dynamic == 0) Error.dynamic_without_base
  | some b ↦ (do
    guard (not (base_outside b (length l.additions))) Error.base_index
    guard (length l.addition_dynamic == length l.additions) Error.addition_dynamic)
]

unfoldable pub validate_lists : List ListDelta → Checked
validate_lists [] = ok tt
validate_lists (l ∷ ls) = do validate_list_delta l; validate_lists ls

unfoldable pub validate_bodies : Dict Bytes Bytes → List Bytes → Checked
validate_bodies bodies [] = ok tt
validate_bodies bodies (n ∷ ns) = do
  guard (is_some (lookup n bodies)) Error.missing_body
  validate_bodies bodies ns

unfoldable pub contains_dynamic : Bytes → Bool
contains_dynamic s = contains b'$' s || contains b'`' s

unfoldable pub scalar_dynamic : Scalar → Bool
scalar_dynamic s = elim s.dynamic [ some d ↦ d | none ↦ contains_dynamic s.applied ]

unset_op : Scalar → Op
unset_op s = elim s.original [
  | some o ↦ Op.restore_scalar s.name s.applied (scalar_dynamic s) o
  | none ↦ Op.unset_scalar s.name s.applied (scalar_dynamic s)
]

-- Two operations for each name, in the order of the names.
pairs : (Bytes → Op) → (Bytes → Op) → List Bytes → List Op
pairs f g [] = []
pairs f g (n ∷ ns) = f n ∷ g n ∷ pairs f g ns

-- `sort.Strings` of the keys of a map.
unfoldable pub sorted_keys {ℓ} : {V : Type ℓ} → Dict Bytes V → List Bytes
sorted_keys d = sort bytes_lt (keys d)

unfoldable pub deactivate : Manifest → List Op
unfolding unset_op pairs
deactivate m =
    map unset_op m.env
    ++ map (λ l. Op.rebuild_list_from_base l.name) m.lists
    ++ pairs Op.unalias Op.restore_shadowed_alias (sorted_keys m.aliases.added)
    ++ pairs Op.unset_func Op.restore_shadowed_func m.functions.added
    ++ map (λ o. Op.restore_option o.name) m.options

-- A missing field is a legacy manifest, whose scalars were exported.
exported_op : Option Bool → Bool
exported_op none = true
exported_op (some b) = b

set_op : Scalar → Op
unfolding exported_op
set_op s = Op.set_scalar s.name s.applied (scalar_dynamic s) (exported_op s.exported)

list_op : ListDelta → Op
list_op l = Op.apply_list_delta l.name l.additions l.deletions l.base_index l.addition_dynamic

alias_dynamic : AliasSet → Bytes → Bool
alias_dynamic a k = elim (lookup k a.dynamic) [
  | some d ↦ d
  | none ↦ contains_dynamic (or_empty (lookup k a.added))
]

alias_op : AliasSet → Bytes → Op
unfolding alias_dynamic
alias_op a k = Op.add_alias k (or_empty (lookup k a.added)) (alias_dynamic a k)

unfoldable pub activate : Manifest → List Op
unfolding set_op list_op alias_op
activate m =
    map set_op m.env
    ++ map list_op m.lists
    ++ map (alias_op m.aliases) (sorted_keys m.aliases.added)
    ++ map (λ k. Op.add_func k (or_empty (lookup k m.functions.bodies))) m.functions.added
    ++ map (λ o. Op.set_option o.name o.enabled) m.options

schema_supported : Option Manifest → Error → Checked
schema_supported none e = ok tt
schema_supported (some m) e = guard (m.schema == schema_v1) e

-- `if active != nil { ... }`
optional_ops : (Manifest → List Op) → Option Manifest → List Op
optional_ops f none = []
optional_ops f (some m) = f (normalize_manifest m)

validate_target : Option Manifest → Checked
validate_target none = ok tt
validate_target (some m) =
    let n = normalize_manifest m in
    do validate_lists n.lists; validate_bodies n.functions.bodies n.functions.added

-- A nil manifest is `none`.
unfoldable pub diff : Option Manifest → Option Manifest → Result Error Plan
unfolding schema_supported validate_target optional_ops
diff active target = do
  schema_supported active Error.active_schema
  schema_supported target Error.target_schema
  validate_target target
  ok (record {
    deactivate = optional_ops deactivate active;
    activate = optional_ops activate target;
  })
