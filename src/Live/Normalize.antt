-- ===== src/Live/Normalize.antt =====
-- Normalisation of captured states and overlays, copies, and the revision counter:
-- core/model/worktree.go.
pub mod Laws
pub mod States
use zsh_pro.Prelude.{
  ℕ, suc, ◌+◌, not, ◌&&◌, List, [], ◌∷◌, ◌==◌, nat_eq, map, if◌then◌else◌, ok, err, Result, ◌>>=◌,
  ◌>>◌, guard,
}
use zsh_pro.Data.Dict.{Dict, insert}
use zsh_pro.Data.LastWins.{keep_last}
use zsh_pro.Live.Types.{
  Identity, identity_eq, LiveIdentityState, LiveChange, OverlayEntry, LiveProjection,
}
use zsh_pro.Live.Errors.{Error}
use zsh_pro.Live.Validate.{
  Checked, max_uint64, validate_identity, validate_live_value, validate_live_identity_state,
}
use zsh_pro.Live.Values.{clone_live_value, is_ok}

-- NormalizeLiveStates and NormalizeOverlay have one shape, over a check, a key and a copy.
module _ {A : Type 0} (check : A → Checked) (key : A → Identity) (copy : A → A) where
  -- The first loop: every element is checked, and its index noted.
  unfoldable pub note_checked : ℕ → List A → Dict Identity ℕ → Result Error (Dict Identity ℕ)
  note_checked i [] last = ok last
  note_checked i (x ∷ xs) last = do check x; note_checked (suc i) xs (insert (key x) i last)

  -- The second loop: a copy of each element that stands at its key's last index.
  unfoldable pub normalize : List A → Result Error (List A)
  unfolding note_checked
  normalize xs = do last ← note_checked 0 xs []; ok (map copy (keep_last key last 0 xs))

abbrev pub state_key : LiveIdentityState → Identity
state_key s = s.identity

unfoldable pub clone_state : LiveIdentityState → LiveIdentityState
clone_state s = record s { value = clone_live_value s.value }

unfoldable pub normalize_live_states :
    List LiveIdentityState → Result Error (List LiveIdentityState)
normalize_live_states = normalize validate_live_identity_state state_key clone_state

abbrev pub entry_key : OverlayEntry → Identity
entry_key o = o.identity

unfoldable pub clone_entry : OverlayEntry → OverlayEntry
clone_entry o = record o { value = clone_live_value o.value }

-- The branches on Tombstone.
validate_entry_value : OverlayEntry → Checked
unfolding is_ok
validate_entry_value o =
    if o.tombstone
    then guard (is_ok (validate_live_value o.identity.kind o.value) && not o.value.present)
        Error.tombstone_value
    else (do
      validate_live_value o.identity.kind o.value
      guard o.value.present Error.overlay_absent)

unfoldable pub validate_entry : OverlayEntry → Checked
unfolding validate_entry_value
validate_entry o = do validate_identity o.identity; validate_entry_value o

unfoldable pub normalize_overlay : List OverlayEntry → Result Error (List OverlayEntry)
normalize_overlay = normalize validate_entry entry_key clone_entry

unfoldable pub next_revision : ℕ → Result Error ℕ
next_revision r = if r == max_uint64 then err Error.revision_overflow else ok (r + 1)

unfoldable pub clone_live_states : List LiveIdentityState → List LiveIdentityState
unfolding clone_state
clone_live_states = map clone_state

clone_change : LiveChange → LiveChange
clone_change c = record c { value = clone_live_value c.value }

unfoldable pub clone_live_changes : List LiveChange → List LiveChange
unfolding clone_change
clone_live_changes = map clone_change

unfoldable pub clone_live_projection : LiveProjection → LiveProjection
unfolding clone_live_states
clone_live_projection p = record p { states = clone_live_states p.states }
