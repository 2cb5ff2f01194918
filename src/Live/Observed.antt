-- ===== src/Live/Observed.antt =====
-- What a sequence of captured states says of an identity: a copy of the value that its last
-- occurrence presents. Two sequences that agree on this stand for the same shell state.
use mathlib.Core.Option
use zsh_pro.Prelude.{
  ◌≡◌, refl, ◌∙◌, ap, true, Option, none, some, List, [], ◌∷◌, arith, map, if◌then◌else◌, ok,
}
use zsh_pro.Data.Dict.{IsDistinct}
use zsh_pro.Data.LastWins.{first_of_key, last_of, last_of-first_of_key}
use zsh_pro.Live.Types.{Identity, identity_eq, LiveValue, LiveIdentityState}
use zsh_pro.Live.Validate.{validate_identity, validate_live_value, validate_live_identity_state}
use zsh_pro.Live.Values.{clone_live_value}
use zsh_pro.Live.Values.Laws.{clone_live_value_idem}
use zsh_pro.Live.Normalize.{state_key, clone_state, normalize_live_states}
use zsh_pro.Live.Normalize.Laws.{Passes}
use zsh_pro.Live.Normalize.States.{normalize_live_states_ok}

abbrev pub present_value : Option LiveIdentityState → Option LiveValue
present_value none = none
present_value (some s) = if s.value.present then some s.value else none

-- The value that an identity holds in a sequence in which it occurs once.
unfoldable pub held : Identity → List LiveIdentityState → Option LiveValue
held k states = present_value (first_of_key state_key k states)

unfoldable pub observed : Identity → List LiveIdentityState → Option LiveValue
observed k states = Option.map clone_live_value (present_value (last_of state_key k states))

abbrev pub SameState : List LiveIdentityState → List LiveIdentityState → Type 0
SameState xs ys = (k : Identity) → observed k xs ≡ observed k ys

present_value-map :
    (o : Option LiveIdentityState)
    → present_value (Option.map clone_state o) ≡ Option.map clone_live_value (present_value o)
unfolding clone_state clone_live_value
present_value-map none = refl
present_value-map (some s) = ground arith

-- In a normalised sequence an identity holds what was observed of it before.
pub held-observed :
    (k : Identity) (xs ys : List LiveIdentityState)
    → normalize_live_states xs ≡ ok ys
    → held k ys ≡ observed k xs
unfolding held observed
held-observed k xs ys h =
    ap present_value ((normalize_live_states_ok xs ys h).3 k)
    ∙ present_value-map (last_of state_key k xs)

-- An identity with a value is valid, and so is the value, which is present.
pub record IsSound (k : Identity) (v : LiveValue) : Type 0 where
  pub identity : validate_identity k ≡ ok tt
  pub value : validate_live_value k.kind v ≡ ok tt
  pub present : v.present ≡ true

pub held-IsSound :
    (k : Identity) (xs : List LiveIdentityState) (v : LiveValue)
    → Passes validate_live_identity_state xs
    → held k xs ≡ some v
    → IsSound k v
unfolding held first_of_key validate_live_identity_state
held-IsSound k [] v p h = ground arith
held-IsSound k (x ∷ xs) v p h = ground (arith, held-IsSound k xs v)

map-clone_idem :
    (o : Option LiveValue)
    → Option.map clone_live_value (Option.map clone_live_value o) ≡ Option.map clone_live_value o
map-clone_idem none = refl
map-clone_idem (some v) = ap some (clone_live_value_idem v)

pub observed_again :
    (k : Identity) (xs : List LiveIdentityState)
    → Option.map clone_live_value (observed k xs) ≡ observed k xs
unfolding observed
observed_again k xs = map-clone_idem (present_value (last_of state_key k xs))

-- Where no identity occurs twice, what is observed is a copy of what is held.
pub observed-held :
    (k : Identity) (xs : List LiveIdentityState)
    → IsDistinct (map state_key xs)
    → observed k xs ≡ Option.map clone_live_value (held k xs)
unfolding observed held
observed-held k xs u =
    ap (λ o. Option.map clone_live_value (present_value o)) (last_of-first_of_key state_key k xs u)
