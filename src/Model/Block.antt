-- ===== src/Model/Block.antt =====
-- The blocks that a provider's parser returns: core/model/block.go.
use zsh_pro.Prelude.{ℕ, Bool, Option, List}
use zsh_pro.Data.Bytes.{Bytes}
use zsh_pro.Model.Profile.{BlockKind, Category, ValueMode, ListValue}

pub data Confidence : Type 0 where
  low medium high : Confidence

pub record Block : Type 0 where
  pub text : Bytes
  pub start_line : ℕ
  pub kind : BlockKind
  pub cmd_name : Bytes
  pub names : List Bytes
  pub exported : Bool
  pub opaque : Bool
  pub category : Category
  pub confidence : Confidence
  pub value : Bytes
  pub dynamic : Bool
  pub append : Bool
  pub flagged : Bool
  pub array : Bool
  pub indexed : Bool
  pub alias_assignment : Bool
  pub declaration_flags : List Bytes
  pub option_flags : List Bytes
  pub value_mode : ValueMode
  pub runtime_value : Option Bytes
  pub function_body : Option Bytes
  pub list_value : Option ListValue
