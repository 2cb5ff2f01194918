-- ===== src/Model/Profile.antt =====
-- Profiles and their entries: core/model/profile.go, block.go, category.go and secretref.go.
use zsh_pro.Prelude.{
  ℕ, suc, Bool, true, false, not, ◌&&◌, ◌||◌, Option, List, [], ◌∷◌, ◌==◌, nat_eq, ltb,
  if◌then◌else◌, length,
}
use zsh_pro.Data.Bytes.{Bytes, bytes, bytes_eq}

-- Go string types: their constants, and `unknown` for every other string.
pub data ValueMode : Type 0 where
  legacy literal dynamic unsupported : ValueMode
  unknown : Bytes → ValueMode

pub record ListSegment : Type 0 where
  pub value : Bytes
  pub source : Bytes
  pub dynamic : Bool
  pub is_self : Bool

pub record ListValue : Type 0 where
  pub segments : List ListSegment

is_empty : Bytes → Bool
is_empty [] = true
is_empty (c ∷ s) = false

-- The loop of Valid; the count of self markers goes along.
unfoldable pub valid_segments : ℕ → List ListSegment → Bool
unfolding is_empty
valid_segments self_count [] = self_count == 1
valid_segments self_count (s ∷ ss) =
    let rest = valid_segments (if s.is_self then suc self_count else self_count) ss in
    if s.is_self
    then (if s.dynamic || not (is_empty s.value) || not (is_empty s.source) then false else rest)
    else if s.dynamic
    then (if not (is_empty s.value) || is_empty s.source then false else rest)
    else if not (is_empty s.source)
    then false
    else rest

unfoldable pub valid_list : ListValue → Bool
valid_list v = valid_segments 0 v.segments

pub data ManagedOverride : Type 0 where
  auto managed unmanaged : ManagedOverride
  unknown : Bytes → ManagedOverride

pub data BlockKind : Type 0 where
  assignment alias func_decl command compound other : BlockKind
  unknown : Bytes → BlockKind

pub data Category : Type 0 where
  environment path secrets plugins options keybindings functions aliases local misc : Category
  unknown : Bytes → Category

pub data SecretRefKind : Type 0 where
  keychain file cmd : SecretRefKind
  unknown : Bytes → SecretRefKind

pub record SecretRef : Type 0 where
  pub kind : SecretRefKind
  pub key : Bytes

pub record Entry : Type 0 where
  pub text : Bytes
  pub start_line : ℕ
  pub category : Category
  pub kind : BlockKind
  pub cmd_name : Bytes
  pub names : List Bytes
  pub value : Bytes
  pub exported : Bool
  pub managed : Bool
  pub override : ManagedOverride
  pub dynamic : Bool
  pub structural_fidelity_known : Bool
  pub append : Bool
  pub array : Bool
  pub flagged : Bool
  pub indexed : Bool
  pub alias_assignment : Bool
  pub declaration_flags : List Bytes
  pub option_flags : List Bytes
  pub secret : Option SecretRef
  pub value_mode : ValueMode
  pub runtime_value : Option Bytes
  pub function_body : Option Bytes
  pub list_value : Option ListValue

pub record Profile : Type 0 where
  pub entries : List Entry

override_verdict : ManagedOverride → Bool → Bool
override_verdict ManagedOverride.managed b = true
override_verdict ManagedOverride.unmanaged b = false
override_verdict _ b = b

unfoldable pub effective_managed : Entry → Bool
unfolding override_verdict
effective_managed e = override_verdict e.override e.managed

unfoldable pub declaration_representable : Entry → Bool
declaration_representable e = elim e.kind [
  | BlockKind.assignment ↦ not (
      e.cmd_name == bytes "typeset"
      || e.cmd_name == bytes "declare"
      || e.cmd_name == bytes "local"
      || e.cmd_name == bytes "readonly")
  | _ ↦ true
]

unfoldable pub option_syntax_representable : List Bytes → Bool
option_syntax_representable [] = true
option_syntax_representable (f ∷ []) = f == bytes "--" || f == bytes "-o"
option_syntax_representable (f ∷ g ∷ fs) = false

-- The switch on Kind.
unfoldable pub shape_representable : Entry → BlockKind → Bool
unfolding option_syntax_representable
shape_representable e BlockKind.assignment = length e.names == 1 && not e.append && not e.array
shape_representable e BlockKind.alias = length e.names == 1 && e.alias_assignment && not e.flagged
shape_representable e BlockKind.command =
    if not (e.cmd_name == bytes "setopt") && not (e.cmd_name == bytes "unsetopt")
    then false
    else ltb 0 (length e.names) && option_syntax_representable e.option_flags
shape_representable e _ = true

unfoldable pub representable : Entry → Bool
unfolding declaration_representable shape_representable
representable e =
    if not e.structural_fidelity_known
    then false
    else if not (declaration_representable e)
    then false
    else if e.indexed || ltb 0 (length e.declaration_flags)
    then false
    else shape_representable e e.kind
