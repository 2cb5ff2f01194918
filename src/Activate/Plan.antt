-- ===== src/Activate/Plan.antt =====
-- The operations of an activation plan: core/activate/plan.go.
use zsh_pro.Prelude.{Bool, Option, List}
use zsh_pro.Data.Bytes.{Bytes}
use zsh_pro.Model.Manifest.{ℤ}
use zsh_pro.Live.Types.{Identity}

-- The types that implement Op, with their fields.
pub data Op : Type 0 where
  set_live_scalar : (identity : Identity) (value : Bytes) → Op
  remove_live_scalar : (identity : Identity) → Op
  transition_live_list :
      (identity : Identity) (before_present after_present : Bool) (before after : List Bytes) → Op
  set_live_option_state : (identity : Identity) (enabled : Bool) → Op
  remove_live_option_state : (identity : Identity) → Op
  restore_scalar : (name applied : Bytes) (dynamic : Bool) (original : Bytes) → Op
  unset_scalar : (name applied : Bytes) (dynamic : Bool) → Op
  rebuild_list_from_base : (name : Bytes) → Op
  unalias restore_shadowed_alias unset_func restore_shadowed_func : (name : Bytes) → Op
  restore_option : (name : Bytes) → Op
  set_scalar : (name applied : Bytes) (dynamic exported : Bool) → Op
  apply_list_delta :
      (name : Bytes) (additions deletions : List Bytes) (base_index : Option ℤ)
      (addition_dynamic : List Bool)
      → Op
  add_alias : (name body : Bytes) (dynamic : Bool) → Op
  add_func : (name body : Bytes) → Op
  set_option : (name : Bytes) (enabled : Bool) → Op

pub record LivePatch : Type 0 where
  pub forward : List Op
  pub replacement_reverse : List Op

-- All reverse operations, to be followed by all forward operations.
pub record Plan : Type 0 where
  pub deactivate : List Op
  pub activate : List Op
