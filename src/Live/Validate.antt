-- ===== src/Live/Validate.antt =====
-- The checks of core/model/worktree.go on identities, values and snapshots.
use zsh_pro.Prelude.{
  ℕ, ◌+◌, ◌-◌, Bool, true, false, not, ◌&&◌, ◌||◌, Option, none, some, List, [], ◌∷◌, ◌==◌, nat_eq,
  if◌then◌else◌, leb, ltb, length, Result, ok, err, ◌>>=◌, ◌>>◌, guard,
}
use zsh_pro.Data.Bytes.{Bytes, bytes, bytes_eq, has_nul}
use zsh_pro.Data.Dict.{is_some}
use zsh_pro.Live.Types.{
  LiveKind, env, alias, function, path, fpath, option, unsupported, Identity, LiveValue,
  LiveIdentityState, LiveSnapshot,
}
use zsh_pro.Live.Errors.{Error}

abbrev pub Checked : Type 0
Checked = Result Error (Unit {0})

abbrev pub max_snapshot_bytes : ℕ
max_snapshot_bytes = 2097152

abbrev pub max_snapshot_records : ℕ
max_snapshot_records = 10000

abbrev pub max_uint64 : ℕ
max_uint64 = 18446744073709551615

unfoldable pub is_letter : ℕ → Bool
is_letter c = (leb b'A' c && leb c b'Z') || (leb b'a' c && leb c b'z')

unfoldable pub is_digit : ℕ → Bool
is_digit c = leb b'0' c && leb c b'9'

-- `[...]*$`
unfoldable pub all_in : (ℕ → Bool) → Bytes → Bool
all_in p [] = true
all_in p (c ∷ s) = p c && all_in p s

-- `^[A-Za-z_][A-Za-z0-9_]*$`
unfoldable pub live_env_name_re : Bytes → Bool
unfolding is_letter is_digit all_in
live_env_name_re [] = false
live_env_name_re (c ∷ s) =
    (is_letter c || c == b'_') && all_in (λ d. is_letter d || is_digit d || d == b'_') s

-- `^[A-Za-z0-9_][A-Za-z0-9_.-]*$`
unfoldable pub live_symbol_name_re : Bytes → Bool
unfolding is_letter is_digit all_in
live_symbol_name_re [] = false
live_symbol_name_re (c ∷ s) =
    (is_letter c || is_digit c || c == b'_')
    && all_in (λ d. is_letter d || is_digit d || d == b'_' || d == b'.' || d == b'-') s

validate_name : LiveKind → Bytes → Checked
unfolding live_env_name_re live_symbol_name_re
validate_name env name = guard (live_env_name_re name) Error.invalid_env
validate_name alias name = guard (live_symbol_name_re name) Error.invalid_symbol
validate_name function name = guard (live_symbol_name_re name) Error.invalid_symbol
validate_name path name = guard (name == bytes "PATH") Error.invalid_path
validate_name fpath name = guard (name == bytes "FPATH") Error.invalid_fpath
validate_name option name = guard (live_env_name_re name) Error.invalid_option
validate_name (unsupported kind) name = err Error.unsupported_kind

unfoldable pub validate_identity : Identity → Checked
unfolding validate_name
validate_identity i = do
  guard (not (i.name == [] || has_nul i.name)) Error.invalid_name
  validate_name i.kind i.name

-- The loop over the elements of a list.
validate_elements : List Bytes → Checked
validate_elements [] = ok tt
validate_elements (x ∷ xs) = do guard (not (has_nul x)) Error.element_nul; validate_elements xs

-- A nil slice has no elements.
abbrev pub elements : Option (List Bytes) → List Bytes
elements none = []
elements (some xs) = xs

abbrev pub or_empty : Option Bytes → Bytes
or_empty none = []
or_empty (some s) = s

validate_scalar : LiveValue → Checked
validate_scalar v = do
  guard (is_some v.scalar && not (is_some v.list) && not (is_some v.option)) Error.scalar_required
  guard (not (has_nul (or_empty v.scalar))) Error.scalar_nul

validate_list : LiveValue → Checked
unfolding validate_elements
validate_list v = do
  guard (not (is_some v.scalar) && not (is_some v.option)) Error.list_required
  validate_elements (elements v.list)

validate_option : LiveValue → Checked
validate_option v =
    guard (is_some v.option && not (is_some v.scalar) && not (is_some v.list)) Error.option_required

validate_payload : LiveKind → LiveValue → Checked
unfolding validate_scalar validate_list validate_option
validate_payload env v = validate_scalar v
validate_payload alias v = validate_scalar v
validate_payload function v = validate_scalar v
validate_payload path v = validate_list v
validate_payload fpath v = validate_list v
validate_payload option v = validate_option v
validate_payload (unsupported kind) v = err Error.unsupported_value_kind

unfoldable pub validate_live_value : LiveKind → LiveValue → Checked
unfolding validate_payload
validate_live_value kind v =
    if v.present
    then validate_payload kind v
    else guard (not (is_some v.scalar) && not (is_some v.list) && not (is_some v.option))
        Error.removed_payload

unfoldable pub validate_live_identity_state : LiveIdentityState → Checked
validate_live_identity_state s = do
  validate_identity s.identity
  validate_live_value s.identity.kind s.value

-- `len(kind)`
abbrev pub kind_text : LiveKind → Bytes
kind_text env = bytes "env"
kind_text alias = bytes "alias"
kind_text function = bytes "function"
kind_text path = bytes "path"
kind_text fpath = bytes "fpath"
kind_text option = bytes "option"
kind_text (unsupported kind) = kind

unfoldable pub checked_live_add : ℕ → ℕ → Result Error ℕ
checked_live_add left right =
    if ltb (max_uint64 - left) right then err Error.size_overflow else ok (left + right)

-- The loop over a list's elements; an early return gives the largest number.
unfoldable pub element_bytes : ℕ → List Bytes → ℕ
element_bytes size [] = size
element_bytes size (x ∷ xs) =
    let rest = element_bytes (size + length x + 1) xs in
    if ltb (max_uint64 - size) (length x + 1) then max_uint64 else rest

-- The bytes of a present value, by the first payload that is there.
unfoldable pub payload_bytes : Option Bytes → Option Bool → List Bytes → ℕ
unfolding element_bytes
payload_bytes (some s) o xs = length s
payload_bytes none (some b) xs = 1
payload_bytes none none xs = element_bytes 0 xs

unfoldable pub live_value_bytes : LiveValue → ℕ
unfolding payload_bytes
live_value_bytes v = if v.present then payload_bytes v.scalar v.option (elements v.list) else 0

-- One round of the loop of ValidateLiveSnapshot.
unfoldable pub add_state : ℕ → LiveIdentityState → Result Error ℕ
add_state n s = do
  n ← checked_live_add n (length (kind_text s.identity.kind))
  n ← checked_live_add n (length s.identity.name)
  checked_live_add n (live_value_bytes s.value)

-- `err != nil || semanticBytes > MaxSnapshotBytes`
unfoldable pub within_limit : Result Error ℕ → Result Error ℕ
within_limit (err e) = err Error.snapshot_payload
within_limit (ok n) = if ltb max_snapshot_bytes n then err Error.snapshot_payload else ok n

unfoldable pub count_states : ℕ → List LiveIdentityState → Result Error ℕ
unfolding add_state within_limit
count_states n [] = ok n
count_states n (s ∷ ss) = do
  validate_live_identity_state s
  n' ← within_limit (add_state n s)
  count_states n' ss

unfoldable pub validate_live_snapshot : LiveSnapshot → Checked
validate_live_snapshot p = do
  guard (leb p.byte_size max_snapshot_bytes) Error.snapshot_bytes
  guard (leb (length p.states) max_snapshot_records) Error.snapshot_records
  _ ← count_states 0 p.states
  ok tt
