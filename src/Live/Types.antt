-- ===== src/Live/Types.antt =====
-- The data of core/model/worktree.go: kinds, identities, values, changes, overlays, projections.
use zsh_pro.Prelude.{ℕ, Bool, Option, List, Eq, ℕ_discrete}
use zsh_pro.Data.Bytes.{Bytes, Bytes-discrete}

-- A Go string type with six declared constants; `unsupported` stands for every other string.
pub data LiveKind : Type 0 where
  env alias function path fpath option : LiveKind
  unsupported : Bytes → LiveKind

pub record Identity : Type 0 where
  pub kind : LiveKind
  pub name : Bytes

LiveKind-discrete : Discrete LiveKind
LiveKind-discrete = hlevel Bytes-discrete

Identity-discrete : Discrete Identity
Identity-discrete = hlevel (Bytes-discrete, LiveKind-discrete)

instance unfoldable pub identity_eq : Eq Identity
unfolding Identity-discrete LiveKind-discrete Bytes-discrete ℕ_discrete
identity_eq = record { dec = Identity-discrete }

-- A nil pointer or a nil slice is `none`; an empty slice that is not nil is `some []`.
pub record LiveValue : Type 0 where
  pub present : Bool
  pub scalar : Option Bytes
  pub list : Option (List Bytes)
  pub option : Option Bool

pub record LiveIdentityState : Type 0 where
  pub identity : Identity
  pub value : LiveValue

pub record LiveSnapshot : Type 0 where
  pub byte_size : ℕ
  pub states : List LiveIdentityState

pub data LiveChangeKind : Type 0 where
  add update remove : LiveChangeKind
  unsupported : Bytes → LiveChangeKind

pub record LiveChange : Type 0 where
  pub kind : LiveChangeKind
  pub identity : Identity
  pub value : LiveValue

pub record OverlayEntry : Type 0 where
  pub identity : Identity
  pub value : LiveValue
  pub tombstone : Bool

pub record LiveProjection : Type 0 where
  pub schema : Bytes
  pub states : List LiveIdentityState
  pub tombstones : List Identity
