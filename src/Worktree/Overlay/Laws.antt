-- ===== src/Worktree/Overlay/Laws.antt =====
-- What ApplyOverlay and BuildProjection leave of each identity.
use mathlib.Core.Option
use zsh_pro.Prelude.{
  ◌≡◌, refl, ◌∙◌, ap, true, false, Option, none, some, List, [], ◌∷◌, arith, ◌==◌, map,
  if◌then◌else◌, contains, select,
}
use zsh_pro.Data.Dict.{IsDistinct}
use zsh_pro.Data.LastWins.{first_of_key, first_of_key-absent}
use zsh_pro.Data.Slots.{append_all, value, IsIndexed}
use zsh_pro.Data.Slots.Laws.{first_of_key-active_items, active_items-IsDistinct}
use zsh_pro.Data.Slots.Ops.{empty, put-IsIndexed, drop-IsIndexed, value-put, value-drop}
use zsh_pro.Data.Slots.Seed.{seeded-IsIndexed, value-seeded, found}
use zsh_pro.Live.Types.{Identity, identity_eq, LiveValue, LiveIdentityState, OverlayEntry}
use zsh_pro.Live.Values.{clone_live_value}
use zsh_pro.Live.Normalize.{state_key, entry_key, clone_state}
use zsh_pro.Live.Observed.{held, present_value}
use zsh_pro.Worktree.Apply.{StateSlots}
use zsh_pro.Worktree.Overlay.{apply_entry, apply_entries, apply_normalized_overlay}

-- The state that an entry gives an identity, from the one that it had.
abbrev entry_state : Option OverlayEntry → Option LiveIdentityState → Option LiveIdentityState
entry_state none old = old
entry_state (some o) old =
    if o.tombstone
    then none
    else some (record { identity = o.identity; value = clone_live_value o.value })

apply_entry-IsIndexed :
    (t : StateSlots) (o : OverlayEntry)
    → IsIndexed state_key t
    → IsIndexed state_key (apply_entry t o)
unfolding apply_entry
apply_entry-IsIndexed t o h = ground (
  arith,
  put-IsIndexed state_key t (record { identity = o.identity; value = clone_live_value o.value }) h,
  drop-IsIndexed state_key t o.identity h,
)

value-apply_entry :
    (t : StateSlots) (o : OverlayEntry) (k : Identity)
    → IsIndexed state_key t
    → value state_key k (apply_entry t o).slots ≡ (
        if o.identity == k
        then entry_state (some o) (value state_key k t.slots)
        else value state_key k t.slots)
unfolding apply_entry
value-apply_entry t o k h = ground (
  arith,
  value-put state_key t (record { identity = o.identity; value = clone_live_value o.value }) k h,
  value-drop state_key t o.identity k h,
)

apply_entries-IsIndexed :
    (t : StateSlots) (os : List OverlayEntry)
    → IsIndexed state_key t
    → IsIndexed state_key (apply_entries t os)
unfolding apply_entries
apply_entries-IsIndexed t [] h = h
apply_entries-IsIndexed t (o ∷ os) h =
    apply_entries-IsIndexed (apply_entry t o) os (apply_entry-IsIndexed t o h)

value-apply_entries :
    (t : StateSlots) (os : List OverlayEntry) (k : Identity)
    → IsIndexed state_key t
    → IsDistinct (map entry_key os)
    → value state_key k (apply_entries t os).slots
      ≡ entry_state (first_of_key entry_key k os) (value state_key k t.slots)
unfolding apply_entries first_of_key
value-apply_entries t [] k h u = refl
value-apply_entries t (o ∷ os) k h (new, u) = ground (
  arith,
  value-apply_entries (apply_entry t o) os k (apply_entry-IsIndexed t o h) u,
  value-apply_entry t o k h,
  first_of_key-absent entry_key o.identity os new,
)

-- The value that an entry gives an identity, from the one that it had.
abbrev pub overlaid : Option OverlayEntry → Option LiveValue → Option LiveValue
overlaid none old = old
overlaid (some o) old =
    if o.tombstone
    then none
    else if (clone_live_value o.value).present
    then some (clone_live_value o.value)
    else none

overlaid-entry_state :
    (o : Option OverlayEntry) (s : Option LiveIdentityState)
    → present_value (entry_state o s) ≡ overlaid o (present_value s)
overlaid-entry_state none s = refl
overlaid-entry_state (some o) s = ground arith

-- The present states of the base, copied.
abbrev present_copies : List LiveIdentityState → List LiveIdentityState
present_copies base = map clone_state (select (λ s. s.value.present) base)

contains-present_copies :
    (k : Identity) (xs : List LiveIdentityState)
    → contains k (map state_key xs) ≡ false
    → contains k (map state_key (present_copies xs)) ≡ false
unfolding contains select clone_state
contains-present_copies k [] h = refl
contains-present_copies k (x ∷ xs) h = ground (arith, contains-present_copies k xs)

present_copies-IsDistinct :
    (xs : List LiveIdentityState)
    → IsDistinct (map state_key xs)
    → IsDistinct (map state_key (present_copies xs))
unfolding select clone_state
present_copies-IsDistinct [] u = tt
present_copies-IsDistinct (x ∷ xs) (new, u) =
    ground (arith, present_copies-IsDistinct xs u, contains-present_copies x.identity xs new)

held-present_copies :
    (k : Identity) (xs : List LiveIdentityState)
    → IsDistinct (map state_key xs)
    → held k (present_copies xs) ≡ Option.map clone_live_value (held k xs)
unfolding held first_of_key select clone_state clone_live_value
held-present_copies k [] u = refl
held-present_copies k (x ∷ xs) (new, u) = ground (
  arith,
  held-present_copies k xs u,
  first_of_key-absent state_key x.identity (present_copies xs)
      (contains-present_copies x.identity xs new),
)

present_value-found :
    (o : Option LiveIdentityState) → present_value (found (λ _. true) o none) ≡ present_value o
present_value-found none = refl
present_value-found (some s) = refl

module _ (base : List LiveIdentityState) (os : List OverlayEntry)
    (u : IsDistinct (map state_key base)) where
  abbrev slots_of_base : StateSlots
  slots_of_base = append_all state_key (λ _. true) (empty state_key) (present_copies base)

  base-IsIndexed : IsIndexed state_key slots_of_base
  base-IsIndexed =
      seeded-IsIndexed state_key (λ _. true) (present_copies base)
        (present_copies-IsDistinct base u)

  slots-IsIndexed : IsIndexed state_key (apply_entries slots_of_base os)
  slots-IsIndexed = apply_entries-IsIndexed slots_of_base os base-IsIndexed

  pub apply_normalized_overlay-IsDistinct :
      IsDistinct (map state_key (apply_normalized_overlay base os))
  unfolding apply_normalized_overlay
  apply_normalized_overlay-IsDistinct =
      active_items-IsDistinct state_key (apply_entries slots_of_base os).slots
        slots-IsIndexed.distinct

  pub held-apply_normalized_overlay :
      (k : Identity)
      → IsDistinct (map entry_key os)
      → held k (apply_normalized_overlay base os)
        ≡ overlaid (first_of_key entry_key k os) (Option.map clone_live_value (held k base))
  unfolding apply_normalized_overlay held
  held-apply_normalized_overlay k w =
      ap present_value (
        first_of_key-active_items state_key k (apply_entries slots_of_base os).slots
          slots-IsIndexed.distinct
        ∙ value-apply_entries slots_of_base os k base-IsIndexed w
        ∙ ap (entry_state (first_of_key entry_key k os)) (
            value-seeded state_key (λ _. true) (present_copies base) k
              (present_copies-IsDistinct base u)))
      ∙ overlaid-entry_state (first_of_key entry_key k os) _
      ∙ ap (overlaid (first_of_key entry_key k os)) (
          present_value-found (first_of_key state_key k (present_copies base))
          ∙ held-present_copies k base u)
