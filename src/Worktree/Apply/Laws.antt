-- ===== src/Worktree/Apply/Laws.antt =====
-- What applyStateChanges leaves of each identity.
use zsh_pro.Prelude.{
  ◌≡◌, refl, ◌∙◌, ap, false, Option, none, some, List, [], ◌∷◌, arith, ◌==◌, map, ok, if◌then◌else◌,
  All, contains,
}
use zsh_pro.Data.Dict.{IsDistinct}
use zsh_pro.Data.LastWins.{first_of_key, first_of_key-absent}
use zsh_pro.Data.Slots.{append_all, active_items, value, IsIndexed}
use zsh_pro.Data.Slots.Laws.{first_of_key-active_items, active_items-IsDistinct}
use zsh_pro.Data.Slots.Ops.{empty, put-IsIndexed, drop-IsIndexed, value-put, value-drop}
use zsh_pro.Data.Slots.Seed.{seeded-IsIndexed, value-seeded, found}
use zsh_pro.Live.Types.{Identity, identity_eq, LiveValue, LiveIdentityState, LiveChange}
use zsh_pro.Live.Values.{clone_live_value}
use zsh_pro.Live.Normalize.{state_key}
use zsh_pro.Live.Observed.{held, present_value}
use zsh_pro.Worktree.Diff.{validate_live_change}
use zsh_pro.Worktree.Diff.Changes.{change_key}
use zsh_pro.Worktree.Apply.{
  StateSlots, is_remove, apply_change, apply_changes, validate_unseen, validate_changes,
}

unseen_step :
    (seen : List Identity) (i : Identity) (cs : List LiveChange)
    → All (λ c. contains c.identity seen ≡ false) cs
    → contains i (map change_key cs) ≡ false
    → All (λ c. contains c.identity (i ∷ seen) ≡ false) cs
unfolding contains
unseen_step seen i [] h e = tt
unseen_step seen i (c ∷ cs) h e = ground (arith, unseen_step seen i cs)

validate_unseen_ok :
    (seen : List Identity) (cs : List LiveChange)
    → All (λ c. validate_live_change c ≡ ok tt) cs
    → All (λ c. contains c.identity seen ≡ false) cs
    → IsDistinct (map change_key cs)
    → validate_unseen seen cs ≡ ok tt
unfolding validate_unseen
validate_unseen_ok seen [] v n u = refl
validate_unseen_ok seen (c ∷ cs) (vc, v) (nc, n) (new, u) =
    rw (nc, vc)
      (validate_unseen_ok (c.identity ∷ seen) cs v (unseen_step seen c.identity cs n new) u)

unseen_nothing : (cs : List LiveChange) → All (λ c. contains c.identity [] ≡ false) cs
unfolding contains
unseen_nothing [] = tt
unseen_nothing (c ∷ cs) = (refl, unseen_nothing cs)

-- Valid changes of distinct identities are accepted.
pub validate_changes_ok :
    (cs : List LiveChange)
    → All (λ c. validate_live_change c ≡ ok tt) cs
    → IsDistinct (map change_key cs)
    → validate_changes cs ≡ ok tt
unfolding validate_changes
validate_changes_ok cs v u = validate_unseen_ok [] cs v (unseen_nothing cs) u

-- The state that a change gives an identity, from the one that it had.
abbrev effect_state : Option LiveChange → Option LiveIdentityState → Option LiveIdentityState
effect_state none old = old
effect_state (some c) old =
    if is_remove c.kind
    then none
    else some (record { identity = c.identity; value = clone_live_value c.value })

apply_change-IsIndexed :
    (t : StateSlots) (c : LiveChange)
    → IsIndexed state_key t
    → IsIndexed state_key (apply_change t c)
unfolding apply_change
apply_change-IsIndexed t c h = ground (
  arith,
  put-IsIndexed state_key t (record { identity = c.identity; value = clone_live_value c.value }) h,
  drop-IsIndexed state_key t c.identity h,
)

value-apply_change :
    (t : StateSlots) (c : LiveChange) (k : Identity)
    → IsIndexed state_key t
    → value state_key k (apply_change t c).slots ≡ (
        if c.identity == k
        then effect_state (some c) (value state_key k t.slots)
        else value state_key k t.slots)
unfolding apply_change
value-apply_change t c k h = ground (
  arith,
  value-put state_key t (record { identity = c.identity; value = clone_live_value c.value }) k h,
  value-drop state_key t c.identity k h,
)

pub apply_changes-IsIndexed :
    (t : StateSlots) (cs : List LiveChange)
    → IsIndexed state_key t
    → IsIndexed state_key (apply_changes t cs)
unfolding apply_changes
apply_changes-IsIndexed t [] h = h
apply_changes-IsIndexed t (c ∷ cs) h =
    apply_changes-IsIndexed (apply_change t c) cs (apply_change-IsIndexed t c h)

value-apply_changes :
    (t : StateSlots) (cs : List LiveChange) (k : Identity)
    → IsIndexed state_key t
    → IsDistinct (map change_key cs)
    → value state_key k (apply_changes t cs).slots
      ≡ effect_state (first_of_key change_key k cs) (value state_key k t.slots)
unfolding apply_changes first_of_key
value-apply_changes t [] k h u = refl
value-apply_changes t (c ∷ cs) k h (new, u) = ground (
  arith,
  value-apply_changes (apply_change t c) cs k (apply_change-IsIndexed t c h) u,
  value-apply_change t c k h,
  first_of_key-absent change_key c.identity cs new,
)

-- The value that a change gives an identity, from the one that it had.
abbrev pub effect : Option LiveChange → Option LiveValue → Option LiveValue
effect none old = old
effect (some c) old =
    if is_remove c.kind
    then none
    else if (clone_live_value c.value).present
    then some (clone_live_value c.value)
    else none

effect-effect_state :
    (o : Option LiveChange) (s : Option LiveIdentityState)
    → present_value (effect_state o s) ≡ effect o (present_value s)
effect-effect_state none s = refl
effect-effect_state (some c) s = ground arith

present_value-found :
    (o : Option LiveIdentityState)
    → present_value (found (λ s. s.value.present) o none) ≡ present_value o
present_value-found none = refl
present_value-found (some s) = ground arith

-- The slots of a normalised sequence with the changes applied.
abbrev pub applied : List LiveIdentityState → List LiveChange → List LiveIdentityState
applied current cs =
    active_items
      (apply_changes (append_all state_key (λ s. s.value.present) (empty state_key) current)
        cs).slots

module _ (current : List LiveIdentityState) (cs : List LiveChange)
    (u : IsDistinct (map state_key current)) where
  applied_slots-IsIndexed :
      IsIndexed state_key
        (apply_changes (append_all state_key (λ s. s.value.present) (empty state_key) current) cs)
  applied_slots-IsIndexed =
      apply_changes-IsIndexed _ cs (seeded-IsIndexed state_key (λ s. s.value.present) current u)

  pub applied-IsDistinct : IsDistinct (map state_key (applied current cs))
  applied-IsDistinct = active_items-IsDistinct state_key _ applied_slots-IsIndexed.distinct

  -- Each identity holds what its change gives it, or what it held if it has none.
  pub held-applied :
      (k : Identity)
      → IsDistinct (map change_key cs)
      → held k (applied current cs) ≡ effect (first_of_key change_key k cs) (held k current)
  unfolding held
  held-applied k w =
      ap present_value (
        first_of_key-active_items state_key k _ applied_slots-IsIndexed.distinct
        ∙ value-apply_changes _ cs k (seeded-IsIndexed state_key (λ s. s.value.present) current u) w
        ∙ ap (effect_state (first_of_key change_key k cs))
            (value-seeded state_key (λ s. s.value.present) current k u))
      ∙ effect-effect_state (first_of_key change_key k cs) _
      ∙ ap (effect (first_of_key change_key k cs))
          (present_value-found (first_of_key state_key k current))
