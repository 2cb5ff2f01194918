-- ===== src/Live/Normalize/States.antt =====
-- The laws of normalisation for captured states and for overlays.
use mathlib.Core.Option
use zsh_pro.Prelude.{◌≡◌, refl, List, arith, map, ok, length}
use zsh_pro.Data.Dict.{IsDistinct}
use zsh_pro.Data.LastWins.{first_of_key, last_of}
use zsh_pro.Live.Types.{Identity, identity_eq, LiveValue, LiveIdentityState, OverlayEntry}
use zsh_pro.Live.Validate.{validate_live_identity_state}
use zsh_pro.Live.Values.{clone_live_value, is_ok}
use zsh_pro.Live.Values.Laws.{validate-clone, clone_live_value_idem}
use zsh_pro.Live.Normalize.{
  state_key, clone_state, normalize_live_states, entry_key, clone_entry, validate_entry,
  normalize_overlay,
}
use zsh_pro.Live.Normalize.Laws.{normalize_ok, normalize-length, Passes}

present-clone : (v : LiveValue) → (clone_live_value v).present ≡ v.present
unfolding clone_live_value
present-clone v = refl

clone_state_idem : (s : LiveIdentityState) → clone_state (clone_state s) ≡ clone_state s
unfolding clone_state
clone_state_idem s = ground (arith, clone_live_value_idem s.value)

clone_state-valid :
    (s : LiveIdentityState)
    → validate_live_identity_state s ≡ ok tt
    → validate_live_identity_state (clone_state s) ≡ ok tt
unfolding clone_state validate_live_identity_state
clone_state-valid s h = ground (arith, validate-clone s.identity.kind s.value)

clone_entry_idem : (o : OverlayEntry) → clone_entry (clone_entry o) ≡ clone_entry o
unfolding clone_entry
clone_entry_idem o = ground (arith, clone_live_value_idem o.value)

clone_entry-valid :
    (o : OverlayEntry) → validate_entry o ≡ ok tt → validate_entry (clone_entry o) ≡ ok tt
unfolding clone_entry validate_entry is_ok
clone_entry-valid o h =
    ground (arith, validate-clone o.identity.kind o.value, present-clone o.value)

state_copy_key : (s : LiveIdentityState) → state_key (clone_state s) ≡ state_key s
unfolding clone_state
state_copy_key s = refl

entry_copy_key : (o : OverlayEntry) → entry_key (clone_entry o) ≡ entry_key o
unfolding clone_entry
entry_copy_key o = refl

-- A successful normalisation of captured states: every state given and every state returned is
-- valid, no identity is returned twice, each identity has a copy of its last occurrence, and
-- normalising again changes nothing.
pub normalize_live_states_ok :
    (xs ys : List LiveIdentityState)
    → normalize_live_states xs ≡ ok ys
    → Passes validate_live_identity_state xs
      × Passes validate_live_identity_state ys
      × IsDistinct (map state_key ys)
      × ((k : Identity)
          → first_of_key state_key k ys ≡ Option.map clone_state (last_of state_key k xs))
      × (normalize_live_states ys ≡ ok ys)
unfolding normalize_live_states
normalize_live_states_ok xs ys h =
    normalize_ok validate_live_identity_state state_key clone_state state_copy_key clone_state-valid
      clone_state_idem xs ys h

-- The same for overlays.
pub normalize_overlay_ok :
    (xs ys : List OverlayEntry)
    → normalize_overlay xs ≡ ok ys
    → Passes validate_entry xs
      × Passes validate_entry ys
      × IsDistinct (map entry_key ys)
      × ((k : Identity)
          → first_of_key entry_key k ys ≡ Option.map clone_entry (last_of entry_key k xs))
      × (normalize_overlay ys ≡ ok ys)
unfolding normalize_overlay
normalize_overlay_ok xs ys h =
    normalize_ok validate_entry entry_key clone_entry entry_copy_key clone_entry-valid
      clone_entry_idem xs ys h

pub normalize_live_states-IsDistinct :
    (xs ys : List LiveIdentityState)
    → normalize_live_states xs ≡ ok ys
    → length ys ≡ length xs
    → IsDistinct (map state_key xs)
unfolding normalize_live_states
normalize_live_states-IsDistinct xs ys h e =
    normalize-length validate_live_identity_state state_key clone_state xs ys h e
