-- ===== src/Worktree/Apply.antt =====
-- validateChanges, applyStateChanges and equalLiveStates: core/worktree/state.go.
pub mod Laws
pub mod RoundTrip
pub mod Equal
pub mod Effect
use zsh_pro.Prelude.{
  ℕ, ◌≡◌, Bool, true, false, not, ◌&&◌, Option, none, some, List, [], ◌∷◌, Eq, ◌==◌, nat_eq, length,
  if◌then◌else◌, ok, err, Result, ◌>>=◌, ◌>>◌, guard, contains,
}
use zsh_pro.Data.Slots.{Slots, append_all, put, drop, active_items}
use zsh_pro.Data.Slots.Ops.{empty}
use zsh_pro.Live.Types.{
  Identity, identity_eq, LiveIdentityState, LiveSnapshot, LiveChange, LiveChangeKind,
}
use zsh_pro.Live.Errors.{Error}
use zsh_pro.Live.Validate.{Checked}
use zsh_pro.Live.Values.{clone_live_value}
use zsh_pro.Live.Normalize.{state_key, normalize_live_states}
use zsh_pro.Worktree.Diff.{validate_live_change, diff_snapshot}

-- The loop of validateChanges; `seen` holds the identities met so far.
unfoldable pub validate_unseen : List Identity → List LiveChange → Checked
validate_unseen seen [] = ok tt
validate_unseen seen (c ∷ cs) = do
  guard (not (contains c.identity seen)) Error.duplicate_change
  validate_live_change c
  validate_unseen (c.identity ∷ seen) cs

unfoldable pub validate_changes : List LiveChange → Checked
unfolding validate_unseen
validate_changes cs = validate_unseen [] cs

abbrev pub is_remove : LiveChangeKind → Bool
is_remove LiveChangeKind.remove = true
is_remove _ = false

-- `current`, `active` and `index` are one sequence of slots with its index.
abbrev pub StateSlots : Type 0
StateSlots = Slots LiveIdentityState Identity

unfoldable pub apply_change : StateSlots → LiveChange → StateSlots
apply_change t c =
    if is_remove c.kind
    then drop state_key t c.identity
    else put state_key t (record { identity = c.identity; value = clone_live_value c.value })

unfoldable pub apply_changes : StateSlots → List LiveChange → StateSlots
apply_changes t [] = t
apply_changes t (c ∷ cs) = apply_changes (apply_change t c) cs

unfoldable pub apply_state_changes :
    List LiveIdentityState → List LiveChange → Result Error (List LiveIdentityState)
apply_state_changes states changes = do
  validate_changes changes
  current ← normalize_live_states states
  ok (
      active_items
        (apply_changes (append_all state_key (λ s. s.value.present) (empty state_key) current)
          changes).slots)

-- `err == nil && len(normalized) == len(states)`
abbrev same_length : Result Error (List LiveIdentityState) → List LiveIdentityState → Bool
same_length (ok normalized) states = length normalized == length states
same_length (err e) states = false

no_changes : Result Error (List LiveChange) → Bool
no_changes (ok []) = true
no_changes (ok (c ∷ cs)) = false
no_changes (err e) = false

compare_normalized :
    Result Error (List LiveIdentityState) → Result Error (List LiveIdentityState) → Bool
unfolding no_changes
compare_normalized (ok left) (ok right) = no_changes (
    diff_snapshot (record { byte_size = 0; states = left })
      (record { byte_size = 0; states = right }))
compare_normalized _ _ = false

unfoldable pub equal_live_states : List LiveIdentityState → List LiveIdentityState → Bool
unfolding compare_normalized
equal_live_states left right =
    same_length (normalize_live_states left) left
    && same_length (normalize_live_states right) right
    && compare_normalized (normalize_live_states left) (normalize_live_states right)
