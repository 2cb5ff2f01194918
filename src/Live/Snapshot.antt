-- ===== src/Live/Snapshot.antt =====
-- The bounds that ValidateLiveSnapshot enforces, against sizes counted without any overflow.
use zsh_pro.Prelude.{
  ℕ, ◌+◌, ◌≤◌, ◌≡◌, ◌↔◌, Bool, Option, none, some, List, [], ◌∷◌, arith, if◌then◌else◌, leb, length,
  ok, err, guard, All, ◌⊎◌, check-returns, step-returns,
}
use zsh_pro.Data.Bytes.{Bytes}
use zsh_pro.Live.Types.{LiveValue, LiveIdentityState, LiveSnapshot}
use zsh_pro.Live.Errors.{Error}
use zsh_pro.Live.Validate.{
  max_uint64, max_snapshot_bytes, max_snapshot_records, elements, kind_text, element_bytes,
  live_value_bytes, checked_live_add, add_state, count_states, validate_live_identity_state,
  validate_live_snapshot, within_limit,
}

-- Each element is counted with one separator.
list_size : List Bytes → ℕ
list_size [] = 0
list_size (x ∷ xs) = length x + 1 + list_size xs

payload_size : Option Bytes → Option Bool → List Bytes → ℕ
payload_size (some s) o xs = length s
payload_size none (some b) xs = 1
payload_size none none xs = list_size xs

value_size : LiveValue → ℕ
unfolding payload_size
value_size v = if v.present then payload_size v.scalar v.option (elements v.list) else 0

state_size : LiveIdentityState → ℕ
state_size s = length (kind_text s.identity.kind) + length s.identity.name + value_size s.value

pub total_size : List LiveIdentityState → ℕ
total_size [] = 0
total_size (s ∷ ss) = state_size s + total_size ss

-- The loop saturates where the sum no longer fits in 64 bits.
element_bytes_lem :
    (n : ℕ) (xs : List Bytes)
    → n ≤ max_uint64
    → element_bytes n xs
      ≡ (if leb (n + list_size xs) max_uint64 then n + list_size xs else max_uint64)
unfolding element_bytes list_size
element_bytes_lem n [] h = ground arith
element_bytes_lem n (x ∷ xs) h = ground (arith, element_bytes_lem (n + length x + 1) xs)

-- Counting is exact, or both counts are past every bound.
live_value_bytes_lem :
    (v : LiveValue)
    → (live_value_bytes v ≡ value_size v)
      ⊎ ((max_uint64 ≤ live_value_bytes v) × (max_uint64 ≤ value_size v))
unfolding live_value_bytes value_size
live_value_bytes_lem v = ground (arith, element_bytes_lem 0 (elements v.list))

within_limit-add_state :
    (n : ℕ) (s : LiveIdentityState)
    → n ≤ max_snapshot_bytes
    → within_limit (add_state n s) ≡ (
        if leb (n + state_size s) max_snapshot_bytes
        then ok (n + state_size s)
        else err Error.snapshot_payload)
unfolding within_limit add_state checked_live_add state_size
within_limit-add_state n s h = ground (arith, live_value_bytes_lem s.value)

abbrev AllValid : List LiveIdentityState → Type 0
AllValid = All (λ s. validate_live_identity_state s ≡ ok tt)

count_states_sound :
    (n : ℕ) (ss : List LiveIdentityState) (m : ℕ)
    → n ≤ max_snapshot_bytes
    → count_states n ss ≡ ok m
    → AllValid ss × (n + total_size ss ≤ max_snapshot_bytes)
unfolding count_states total_size
count_states_sound n [] m h e = ground arith
count_states_sound n (s ∷ ss) m h e =
    ground (arith, within_limit-add_state n s h, count_states_sound (n + state_size s) ss m)

count_states_complete :
    (n : ℕ) (ss : List LiveIdentityState)
    → n + total_size ss ≤ max_snapshot_bytes
    → AllValid ss
    → count_states n ss ≡ ok (n + total_size ss)
unfolding count_states total_size
count_states_complete n [] h v = ground arith
count_states_complete n (s ∷ ss) h v =
    ground (arith, within_limit-add_state n s, count_states_complete (n + state_size s) ss)

accepted :
    (p : LiveSnapshot)
    → validate_live_snapshot p ≡ ok tt
    → (p.byte_size ≤ max_snapshot_bytes)
      × (length p.states ≤ max_snapshot_records)
      × AllValid p.states
      × (total_size p.states ≤ max_snapshot_bytes)
unfolding validate_live_snapshot
accepted p h =
    let (frame, h₁) =
      check-returns (guard (leb p.byte_size max_snapshot_bytes) Error.snapshot_bytes) _ h in
    let (records, h₂) =
      check-returns (guard (leb (length p.states) max_snapshot_records) Error.snapshot_records) _
        h₁ in
    let (m, counted, _) = step-returns (count_states 0 p.states) _ h₂ in
    let (valid, fits) = count_states_sound 0 p.states m (omega arith) counted in
    (ground (arith, frame), ground (arith, records), valid, omega (arith, fits))

-- A snapshot is accepted exactly if its frame and its number of records are within their limits,
-- every state is valid, and the sizes of all states, added without overflow, are within the limit.
pub validate_live_snapshot_iff :
    (p : LiveSnapshot)
    → (validate_live_snapshot p ≡ ok tt) ↔ (
        (p.byte_size ≤ max_snapshot_bytes)
        × (length p.states ≤ max_snapshot_records)
        × AllValid p.states
        × (total_size p.states ≤ max_snapshot_bytes))
unfolding validate_live_snapshot
validate_live_snapshot_iff p =
    (λ h. accepted p h, λ h. ground (arith, count_states_complete 0 p.states))
