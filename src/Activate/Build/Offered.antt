-- ===== src/Activate/Build/Offered.antt =====
-- The states that are read from a manifest: liveStatesFromManifest of core/activate/builder.go.
use zsh_pro.Prelude.{
  ◌≡◌, refl, sym, ap, ◌∙◌, subst, Bool, true, false, ◌||◌, ◌&&◌, Option, none, some, List, [], ◌∷◌,
  ◌++◌, arith, ◌==◌, if◌then◌else◌, contains, map, select, ◌≢◌, Option-cases, Bool-cases, inl, inr,
  contains-append, contains-select,
}
use zsh_pro.Data.Bytes.{bytes_eq}
use zsh_pro.Data.Dict.{lookup, is_some, IsDistinct}
use zsh_pro.Data.LastWins.{first_of_key}
use zsh_pro.Data.Slots.Laws.{snoc-IsDistinct}
use zsh_pro.Data.Ordered.{Ordered, no_items, move_to_end, move_all}
use zsh_pro.Data.Ordered.Exact.{IsExact, no_items-IsExact, contains-move_all, move_all-IsExact}
use zsh_pro.Live.Types.{LiveKind, Identity, identity_eq, LiveValue, LiveIdentityState}
use zsh_pro.Live.Values.{clone_live_value}
use zsh_pro.Live.Normalize.{state_key}
use zsh_pro.Model.Profile.{Entry, Profile}
use zsh_pro.Model.Manifest.{Manifest}
use zsh_pro.Activate.Build.Held.{held, env_key, list_key, option_key, lookup-manifest_values}
use zsh_pro.Activate.Build.Effective.{
  Values, identity, manifest_values, append_state, append_states, appended_identities,
  list_identity, identity_key, note_identities, note_entries, live_entry_identities,
  live_states_from_manifest,
}

abbrev pub state_of : Identity → Option LiveValue → Option LiveIdentityState
state_of i none = none
state_of i (some v) = some (record { identity = i; value = clone_live_value v })

keys-snoc :
    (xs : List LiveIdentityState) (s : LiveIdentityState)
    → map state_key (xs ++ s ∷ []) ≡ map state_key xs ++ s.identity ∷ []
keys-snoc [] s = refl
keys-snoc (x ∷ xs) s = ground (arith, keys-snoc xs s)

first_of_key-snoc :
    (k : Identity) (xs : List LiveIdentityState) (s : LiveIdentityState)
    → contains s.identity (map state_key xs) ≡ false
    → first_of_key state_key k (xs ++ s ∷ [])
      ≡ (if s.identity == k then some s else first_of_key state_key k xs)
unfolding first_of_key contains
first_of_key-snoc k [] s h = refl
first_of_key-snoc k (x ∷ xs) s h = ground (arith, first_of_key-snoc k xs s)

append_state-IsDistinct :
    (vs : Values) (xs : List LiveIdentityState) (i : Identity)
    → IsDistinct (map state_key xs)
    → IsDistinct (map state_key (append_state vs xs i))
unfolding append_state
append_state-IsDistinct vs xs i u = elim (Option-cases (lookup i vs)) [
  | inl absent ↦ rw (absent, append_state) u
  | inr (v, held) ↦ elim (Bool-cases (contains i (map state_key xs))) [
    | inl seen ↦ rw (held, seen, append_state) u
    | inr new ↦ rw (held, new, append_state, keys-snoc) (snoc-IsDistinct i (map state_key xs) new u)
  ]
]

first_of_key-present :
    (k : Identity) (xs : List LiveIdentityState)
    → contains k (map state_key xs) ≡ true
    → first_of_key state_key k xs ≢ none
unfolding first_of_key contains
first_of_key-present k [] h = ground arith
first_of_key-present k (x ∷ xs) h = ground (arith, first_of_key-present k xs)

-- An identity shows its value once it has been offered.
module _ (vs : Values) (k : Identity) where
  abbrev shown : Bool → Option LiveIdentityState
  shown offered = if offered then state_of k (lookup k vs) else none

  first_of_key-append_state :
      (xs : List LiveIdentityState) (i : Identity) (offered : Bool)
      → first_of_key state_key k xs ≡ shown offered
      → first_of_key state_key k (append_state vs xs i) ≡ shown (i == k || offered)
  unfolding append_state
  first_of_key-append_state xs i offered h = elim (Option-cases (lookup i vs)) [
    | inl absent ↦ rw (absent, append_state) (ground arith)
    | inr (v, held) ↦ elim (Bool-cases (contains i (map state_key xs))) [
      | inl seen ↦ rw (held, seen, append_state) (ground (arith, first_of_key-present k xs))
      | inr new ↦
          rw (held, new, append_state)
            (ground (
              arith,
              first_of_key-snoc k xs (record { identity = i; value = clone_live_value v }) new,
            ))
    ]
  ]

  first_of_key-append_states :
      (xs : List LiveIdentityState) (is : List Identity) (offered : Bool)
      → first_of_key state_key k xs ≡ shown offered
      → first_of_key state_key k (append_states vs xs is) ≡ shown (contains k is || offered)
  unfolding append_states contains
  first_of_key-append_states xs [] offered h = h
  first_of_key-append_states xs (i ∷ is) offered h = ground (
    arith,
    first_of_key-append_states (append_state vs xs i) is (i == k || offered)
        (first_of_key-append_state xs i offered h),
  )

append_states-IsDistinct :
    (vs : Values) (xs : List LiveIdentityState) (is : List Identity)
    → IsDistinct (map state_key xs)
    → IsDistinct (map state_key (append_states vs xs is))
unfolding append_states
append_states-IsDistinct vs xs [] u = u
append_states-IsDistinct vs xs (i ∷ is) u =
    append_states-IsDistinct vs (append_state vs xs i) is (append_state-IsDistinct vs xs i u)

-- An entry of the profile names the identity.
unfoldable pub is_named : Identity → List Entry → Bool
is_named k [] = false
is_named k (e ∷ es) = contains k (live_entry_identities e) || is_named k es

-- A field of the manifest names the identity; aliases are not looked at.
unfoldable pub is_listed : Identity → Manifest → Bool
is_listed k m =
    contains k (map env_key m.env)
    || contains k (map list_key m.lists)
    || contains k (map (identity LiveKind.function) m.functions.added)
    || contains k (map option_key m.options)

module _ (vs : Values) (k : Identity) where
  abbrev has_value : Identity → Bool
  has_value i = is_some (lookup i vs)

  note_identities-move_all :
      (t : Ordered Identity Identity) (is : List Identity)
      → note_identities vs t is ≡ move_all identity_key t (select has_value is)
  unfolding note_identities move_all select
  note_identities-move_all t [] = refl
  note_identities-move_all t (i ∷ is) = elim (Bool-cases (has_value i)) [
    | inl held ↦
        rw (held, note_identities, select)
          (note_identities-move_all (move_to_end identity_key t i) is)
    | inr absent ↦ rw (absent, note_identities, select) (note_identities-move_all t is)
  ]

  map-key : (is : List Identity) → map identity_key is ≡ is
  map-key [] = refl
  map-key (i ∷ is) = ap (λ js. i ∷ js) (map-key is)

  contains-note_entries :
      (t : Ordered Identity Identity) (es : List Entry)
      → IsExact identity_key t
      → contains k (note_entries vs t es).items
        ≡ (contains k t.items || has_value k && is_named k es)
  unfolding note_entries is_named
  contains-note_entries t [] h = ground arith
  contains-note_entries t (e ∷ es) h =
      let is = live_entry_identities e in
      let chosen = select has_value is in
      let next = note_identities vs t is in
      let same = note_identities-move_all t is in
      let exact =
        subst (IsExact identity_key) (sym same) (move_all-IsExact identity_key t chosen h) in
      let here : contains k next.items ≡ (contains k t.items || contains k chosen) =
        ap (λ u. contains k u.items) same
        ∙ ap (contains k) (sym (map-key (move_all identity_key t chosen).items))
        ∙ contains-move_all identity_key k t chosen h
        ∙ ground (arith, map-key t.items, map-key chosen) in
      contains-note_entries next es exact ∙ ground (arith, here, contains-select has_value k is)

contains-appended_identities :
    (source : Profile) (m : Manifest) (k : Identity)
    → contains k (appended_identities source m)
      ≡ (is_some (lookup k (manifest_values m)) && is_named k source.entries || is_listed k m)
unfolding appended_identities is_listed list_identity contains
contains-appended_identities source m k =
    let noted = (note_entries (manifest_values m) no_items source.entries).items in
    let env = map env_key m.env in
    let lists = map list_key m.lists in
    let functions = map (identity LiveKind.function) m.functions.added in
    let options = map option_key m.options in
    contains-append k (noted ++ env ++ lists ++ functions) options
    ∙ ground (
      arith,
      contains-append k (noted ++ env ++ lists) functions,
      contains-append k (noted ++ env) lists,
      contains-append k noted env,
      contains-note_entries (manifest_values m) k no_items source.entries
          (no_items-IsExact identity_key),
    )

shown-value :
    (k : Identity) (o : Option LiveValue) (named listed c : Bool)
    → c ≡ (is_some o && named || listed)
    → (if c || false then state_of k o else none) ≡ (if named || listed then state_of k o else none)
shown-value k none named listed c h = ground (arith, h)
shown-value k (some v) named listed c h = ground (arith, h)

-- The states read from a manifest hold no identity twice. An identity has a state just if the
-- manifest has a value for it and an entry of the profile names it or a field other than the
-- aliases lists it; the state is then a copy of that value. The value is that of the last option,
-- list, function with a body, alias or variable of the name, whichever the kind of the identity
-- tells.
pub live_states_from_manifest-held :
    (source : Profile) (m : Manifest) (k : Identity)
    → IsDistinct (map state_key (live_states_from_manifest source m))
      × (first_of_key state_key k (live_states_from_manifest source m)
          ≡ (if is_named k source.entries || is_listed k m then state_of k (held m k) else none))
unfolding live_states_from_manifest first_of_key is_listed
live_states_from_manifest-held source m k = (
  append_states-IsDistinct (manifest_values m) [] (appended_identities source m) tt,
  first_of_key-append_states (manifest_values m) k [] (appended_identities source m) false refl
      ∙ shown-value k (lookup k (manifest_values m)) (is_named k source.entries) (is_listed k m) _
          (contains-appended_identities source m k)
      ∙ ap (λ o. if is_named k source.entries || is_listed k m then state_of k o else none)
          (lookup-manifest_values k m),
)
