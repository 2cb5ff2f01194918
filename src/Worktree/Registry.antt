-- ===== src/Worktree/Registry.antt =====
-- The registry of owned live identities: core/worktree/registry.go. A registry here is not nil.
pub mod Laws
pub mod Seed
pub mod Seeded
use zsh_pro.Prelude.{
  ℕ, suc, ◌-◌, Bool, true, false, not, ◌&&◌, ◌||◌, Option, none, some, List, [], ◌∷◌, ◌++◌, ◌==◌,
  nat_eq, leb, if◌then◌else◌, contains, ok, err, Result, ◌>>=◌, ◌>>◌, guard,
}
use zsh_pro.Data.Bytes.{Bytes, bytes, bytes_eq}
use zsh_pro.Data.Dict.{Dict, insert, lookup, is_some}
use zsh_pro.Data.LastWins.{last_indexes, or_zero}
use zsh_pro.Live.Types.{LiveKind, Identity, identity_eq, LiveIdentityState, LiveSnapshot}
use zsh_pro.Live.Errors.{Error}
use zsh_pro.Live.Validate.{Checked, validate_identity, validate_live_snapshot}
use zsh_pro.Live.Values.{is_ok}
use zsh_pro.Live.Normalize.{state_key, clone_state}
use zsh_pro.Model.Profile.{
  BlockKind, Category, SecretRefKind, SecretRef, ValueMode, Entry, Profile, effective_managed,
  representable,
}

-- A Go string type: its constants, and `unknown` for a string that a stored state may hold.
pub data AdmissionReason : Type 0 where
  unsupported unsafe_name bookkeeping volatile live_secret pinned_secret : AdmissionReason
  present_at_attach policy_missing not_attached : AdmissionReason
  unknown : Bytes → AdmissionReason

pub record AdmissionResult : Type 0 where
  pub identity : Identity
  pub admitted : Bool
  pub reason : Option AdmissionReason

pub record Exclusion : Type 0 where
  pub identity : Identity
  pub reason : AdmissionReason

-- Sets of identities are lists. `address` tells registries apart, as their pointers do, and the
-- policy is the classifier of the shell, or `none` where there is no policy.
pub record Registry : Type 0 where
  pub address : ℕ
  pub policy : Option (Identity → Bool)
  pub owned : List Identity
  pub pinned_secret : List Identity

pub record AttachmentResult : Type 0 where
  pub baseline : List LiveIdentityState
  pub exclusions : List Exclusion
  pub present_at_attach : List Identity
  pub registry : ℕ

-- The identity is validated first, so that its name is ASCII.
to_upper : Bytes → Bytes
to_upper [] = []
to_upper (c ∷ s) = (if leb b'a' c && leb c b'z' then c - 32 else c) ∷ to_upper s

has_prefix : Bytes → Bytes → Bool
has_prefix s [] = true
has_prefix [] (c ∷ p) = false
has_prefix (c ∷ s) (d ∷ p) = c == d && has_prefix s p

unfoldable pub is_bookkeeping_identity : Identity → Bool
unfolding to_upper has_prefix
is_bookkeeping_identity i =
    let upper = to_upper i.name in
    has_prefix upper (bytes "ZP_")
    || has_prefix upper (bytes "_ZP_")
    || has_prefix upper (bytes "__ZP_")
    || has_prefix upper (bytes "ZSHPRO_")
    || upper == bytes "ZSH-PRO"

is_env : LiveKind → Bool
is_env LiveKind.env = true
is_env _ = false

volatile_names : List Bytes
volatile_names =
    bytes "_"
    ∷ bytes "ARGC"
    ∷ bytes "COLUMNS"
    ∷ bytes "EPOCHREALTIME"
    ∷ bytes "EPOCHSECONDS"
    ∷ bytes "HISTCMD"
    ∷ bytes "LINENO"
    ∷ bytes "LINES"
    ∷ bytes "OLDPWD"
    ∷ bytes "PPID"
    ∷ bytes "PWD"
    ∷ bytes "RANDOM"
    ∷ bytes "SECONDS"
    ∷ bytes "SHLVL"
    ∷ bytes "TTY"
    ∷ bytes "TTYIDLE"
    ∷ bytes "pipestatus"
    ∷ bytes "status"
    ∷ bytes "ZSH_SUBSHELL"
    ∷ []

unfoldable pub is_volatile_identity : Identity → Bool
unfolding is_env volatile_names
is_volatile_identity i = is_env i.kind && contains i.name volatile_names

unfoldable pub owns : Registry → Identity → Bool
owns r i = contains i r.owned

unfoldable pub is_pinned_secret : Registry → Identity → Bool
is_pinned_secret r i = contains i r.pinned_secret

unsupported_kind : LiveKind → Bool
unsupported_kind (LiveKind.unsupported k) = true
unsupported_kind _ = false

by_policy : Option (Identity → Bool) → Identity → Option AdmissionReason
by_policy none i = some AdmissionReason.policy_missing
by_policy (some is_secret) i = if is_secret i then some AdmissionReason.live_secret else none

unfoldable pub exclusion_reason : Registry → Identity → Option AdmissionReason
unfolding unsupported_kind by_policy
exclusion_reason r i =
    if unsupported_kind i.kind
    then some AdmissionReason.unsupported
    else if not (is_ok (validate_identity i))
    then some AdmissionReason.unsafe_name
    else if is_pinned_secret r i
    then some AdmissionReason.pinned_secret
    else if is_bookkeeping_identity i
    then some AdmissionReason.bookkeeping
    else if is_volatile_identity i
    then some AdmissionReason.volatile
    else by_policy r.policy i

unfoldable pub allows_live_value : Registry → Identity → Bool
allows_live_value r i = owns r i && not (is_some (exclusion_reason r i))

-- What Attach does with one state that stands at the last index of its identity.
add_exclusion : AttachmentResult → Identity → AdmissionReason → AttachmentResult
add_exclusion a i reason = record a {
  exclusions = a.exclusions ++ record { identity = i; reason = reason } ∷ [];
}

add_baseline : AttachmentResult → LiveIdentityState → AttachmentResult
add_baseline a s = record a { baseline = a.baseline ++ clone_state s ∷ [] }

attach_present :
    Registry → AttachmentResult → LiveIdentityState → Option AdmissionReason → AttachmentResult
unfolding add_exclusion add_baseline
attach_present r a s (some reason) = add_exclusion a s.identity reason
attach_present r a s none =
    if allows_live_value r s.identity
    then add_baseline a s
    else add_exclusion a s.identity AdmissionReason.present_at_attach

unfoldable pub attach_state : Registry → AttachmentResult → LiveIdentityState → AttachmentResult
unfolding attach_present add_baseline
attach_state r a s =
    if not s.value.present
    then (if allows_live_value r s.identity then add_baseline a s else a)
    else attach_present r (record a { present_at_attach = s.identity ∷ a.present_at_attach }) s
        (exclusion_reason r s.identity)

unfoldable pub attach_states :
    Registry → Dict Identity ℕ → ℕ → AttachmentResult → List LiveIdentityState → AttachmentResult
attach_states r last i a [] = a
attach_states r last i a (s ∷ ss) =
    attach_states r last (suc i)
      (if not (or_zero (lookup s.identity last) == i) then a else attach_state r a s) ss

unfoldable pub attach : Registry → LiveSnapshot → Result Error AttachmentResult
attach r snapshot = do
  validate_live_snapshot snapshot
  ok (
      attach_states r (last_indexes state_key 0 snapshot.states []) 0
        (record { baseline = []; exclusions = []; present_at_attach = []; registry = r.address })
        snapshot.states)

refuse : Registry → Identity → AdmissionReason → Registry × AdmissionResult
refuse r i reason = (r, record { identity = i; admitted = false; reason = some reason })

admit_safe :
    Registry → AttachmentResult → Identity → Option AdmissionReason → Registry × AdmissionResult
unfolding refuse
admit_safe r a i (some reason) = refuse r i reason
admit_safe r a i none =
    if contains i a.present_at_attach
    then refuse r i AdmissionReason.present_at_attach
    else (record r { owned = i ∷ r.owned }, record { identity = i; admitted = true; reason = none })

-- The registry after the call, and the result.
unfoldable pub admit : Registry → AttachmentResult → Identity → Registry × AdmissionResult
unfolding admit_safe refuse
admit r a i =
    if not (a.registry == r.address)
    then refuse r i AdmissionReason.not_attached
    else admit_safe r a i (exclusion_reason r i)

unfoldable pub check_admitted : Registry → List Identity → List Identity → Checked
check_admitted r seen [] = ok tt
check_admitted r seen (i ∷ is) = do
  guard (not (contains i seen)) Error.durable_duplicate
  guard (not (is_some (exclusion_reason r i))) Error.durable_unsafe
  check_admitted r (i ∷ seen) is

unfoldable pub restore_admitted : Registry → List Identity → Result Error Registry
restore_admitted r is = do check_admitted r [] is; ok (record r { owned = is ++ r.owned })
