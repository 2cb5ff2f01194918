-- ===== src/Model/Manifest.antt =====
-- The reversible record of a profile: core/model/manifest.go.
use zsh_pro.Prelude.{ℕ, Bool, Option, List}
use zsh_pro.Data.Bytes.{Bytes, bytes}
use zsh_pro.Data.Dict.{Dict}

-- Go's signed int: `pos n` is n and `negsuc n` is -1 - n.
pub data ℤ : Type 0 where
  pos : ℕ → ℤ
  negsuc : ℕ → ℤ

abbrev pub schema_v1 : Bytes
schema_v1 = bytes "v1"

pub record Scalar : Type 0 where
  pub name : Bytes
  pub applied : Bytes
  pub original : Option Bytes
  pub exported : Option Bool
  pub dynamic : Option Bool

pub record ListDelta : Type 0 where
  pub name : Bytes
  pub additions : List Bytes
  pub deletions : List Bytes
  pub base_index : Option ℤ
  pub addition_dynamic : List Bool

pub record AliasSet : Type 0 where
  pub added : Dict Bytes Bytes
  pub shadowed : Dict Bytes Bytes
  pub dynamic : Dict Bytes Bool

pub record FuncSet : Type 0 where
  pub added : List Bytes
  pub shadowed : Dict Bytes Bytes
  pub bodies : Dict Bytes Bytes

pub record OptionSet : Type 0 where
  pub name : Bytes
  pub enabled : Bool
  pub was_on : Bool

pub record Manifest : Type 0 where
  pub profile : Bytes
  pub schema : Bytes
  pub env : List Scalar
  pub lists : List ListDelta
  pub aliases : AliasSet
  pub functions : FuncSet
  pub options : List OptionSet
