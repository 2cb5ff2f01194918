-- ===== src/Worktree/Overlay/Authority.antt =====
-- The last overlay entry of an identity decides its final state: ApplyOverlay and BuildProjection.
use mathlib.Core.Option
use zsh_pro.Prelude.{
  ◌≡◌, refl, sym, ◌∙◌, ap, Bool, true, false, Option, none, some, List, [], ◌∷◌, arith, map, ok,
  contains, select, step-returns,
}
use zsh_pro.Data.Bytes.{bytes}
use zsh_pro.Data.Dict.{IsDistinct}
use zsh_pro.Data.LastWins.{first_of_key, last_of}
use zsh_pro.Live.Types.{
  Identity, identity_eq, LiveValue, LiveIdentityState, OverlayEntry, LiveProjection,
}
use zsh_pro.Live.Values.{clone_live_value}
use zsh_pro.Live.Values.Laws.{clone_live_value_idem}
use zsh_pro.Live.Normalize.{
  state_key, entry_key, clone_state, clone_entry, clone_live_states, normalize_live_states,
  normalize_overlay,
}
use zsh_pro.Live.Normalize.States.{normalize_live_states_ok, normalize_overlay_ok}
use zsh_pro.Live.Observed.{held, observed, observed-held, held-observed, observed_again}
use zsh_pro.Worktree.Overlay.{apply_normalized_overlay, apply_overlay, build_projection}
use zsh_pro.Worktree.Overlay.Laws.{
  overlaid, apply_normalized_overlay-IsDistinct, held-apply_normalized_overlay,
}

overlaid-clone_entry :
    (o : Option OverlayEntry) (old : Option LiveValue)
    → overlaid (Option.map clone_entry o) old ≡ overlaid o old
unfolding clone_entry
overlaid-clone_entry none old = refl
overlaid-clone_entry (some o) old = rw (clone_live_value_idem o.value)

clone-overlaid :
    (o : Option OverlayEntry) (old : Option LiveValue)
    → Option.map clone_live_value old ≡ old
    → Option.map clone_live_value (overlaid o old) ≡ overlaid o old
clone-overlaid none old h = h
clone-overlaid (some o) old h = ground (arith, clone_live_value_idem o.value)

module _ (base base' : List LiveIdentityState) (ov ov' : List OverlayEntry)
    (hb : normalize_live_states base ≡ ok base') (ho : normalize_overlay ov ≡ ok ov') where
  -- What each identity holds after the overlay, from what was given.
  pub held-overlay :
      (k : Identity)
      → held k (apply_normalized_overlay base' ov')
        ≡ overlaid (last_of entry_key k ov) (observed k base)
  held-overlay k =
      let o = normalize_overlay_ok ov ov' ho in
      let b = normalize_live_states_ok base base' hb in
      held-apply_normalized_overlay base' ov' b.2 k o.2
      ∙ rw (o.3 k, held-observed k base base' hb, observed_again k base)
          (overlaid-clone_entry (last_of entry_key k ov) (observed k base))

  overlay-IsDistinct : IsDistinct (map state_key (apply_normalized_overlay base' ov'))
  overlay-IsDistinct =
      apply_normalized_overlay-IsDistinct base' ov' (normalize_live_states_ok base base' hb).2

  pub observed-overlay :
      (k : Identity)
      → observed k (apply_normalized_overlay base' ov')
        ≡ overlaid (last_of entry_key k ov) (observed k base)
  observed-overlay k =
      observed-held k (apply_normalized_overlay base' ov') overlay-IsDistinct
      ∙ ap (Option.map clone_live_value) (held-overlay k)
      ∙ clone-overlaid (last_of entry_key k ov) (observed k base) (observed_again k base)

-- Where ApplyOverlay succeeds no identity is returned twice, and each identity shows what its last
-- overlay entry says: nothing for a tombstone, else that entry's value; without an entry it shows
-- what the base shows.
pub apply_overlay-observed :
    (base : List LiveIdentityState) (ov : List OverlayEntry) (out : List LiveIdentityState)
    → apply_overlay base ov ≡ ok out
    → IsDistinct (map state_key out)
      × ((k : Identity) → observed k out ≡ overlaid (last_of entry_key k ov) (observed k base))
unfolding apply_overlay
apply_overlay-observed base ov out h =
    let (base', hb, h₁) = step-returns (normalize_live_states base) _ h in
    let (ov', ho, h₂) = step-returns (normalize_overlay ov) _ h₁ in
    let same : apply_normalized_overlay base' ov' ≡ out = ground (arith, h₂) in
    rw (← same)
      (overlay-IsDistinct base base' ov ov' hb ho, observed-overlay base base' ov ov' hb ho)

held-clone_live_states :
    (k : Identity) (xs : List LiveIdentityState)
    → held k (clone_live_states xs) ≡ Option.map clone_live_value (held k xs)
unfolding held first_of_key clone_live_states clone_state clone_live_value
held-clone_live_states k [] = refl
held-clone_live_states k (x ∷ xs) = ground (arith, held-clone_live_states k xs)

keys-clone_live_states :
    (xs : List LiveIdentityState) → map state_key (clone_live_states xs) ≡ map state_key xs
unfolding clone_live_states clone_state
keys-clone_live_states [] = refl
keys-clone_live_states (x ∷ xs) = ground (arith, keys-clone_live_states xs)

-- The identities whose entry is a tombstone.
abbrev tombstones_of : List OverlayEntry → List Identity
tombstones_of os = map (λ o. o.identity) (select (λ o. o.tombstone) os)

abbrev pub is_tombstone : Option OverlayEntry → Bool
is_tombstone none = false
is_tombstone (some o) = o.tombstone

absent-tombstones_of :
    (k : Identity) (os : List OverlayEntry)
    → contains k (map entry_key os) ≡ false
    → contains k (tombstones_of os) ≡ false
unfolding contains select
absent-tombstones_of k [] h = refl
absent-tombstones_of k (o ∷ os) h = ground (arith, absent-tombstones_of k os)

contains-tombstones_of :
    (k : Identity) (os : List OverlayEntry)
    → IsDistinct (map entry_key os)
    → contains k (tombstones_of os) ≡ is_tombstone (first_of_key entry_key k os)
unfolding contains select first_of_key
contains-tombstones_of k [] u = refl
contains-tombstones_of k (o ∷ os) (new, u) =
    ground (arith, contains-tombstones_of k os u, absent-tombstones_of o.identity os new)

is_tombstone-clone_entry :
    (o : Option OverlayEntry) → is_tombstone (Option.map clone_entry o) ≡ is_tombstone o
unfolding clone_entry
is_tombstone-clone_entry none = refl
is_tombstone-clone_entry (some o) = refl

overlaid-tombstone :
    (o : Option OverlayEntry) (old : Option LiveValue)
    → is_tombstone o ≡ true
    → overlaid o old ≡ none
overlaid-tombstone none old h = ground arith
overlaid-tombstone (some o) old h = ground arith

module _ (base base' : List LiveIdentityState) (ov ov' : List OverlayEntry)
    (hb : normalize_live_states base ≡ ok base') (ho : normalize_overlay ov ≡ ok ov') where
  observed-projection :
      (k : Identity)
      → observed k (clone_live_states (apply_normalized_overlay base' ov'))
        ≡ overlaid (last_of entry_key k ov) (observed k base)
  observed-projection k =
      let states = apply_normalized_overlay base' ov' in
      observed-held k (clone_live_states states)
        (rw keys-clone_live_states (overlay-IsDistinct base base' ov ov' hb ho))
      ∙ ap (Option.map clone_live_value) (
          held-clone_live_states k states
          ∙ sym (observed-held k states (overlay-IsDistinct base base' ov ov' hb ho))
          ∙ observed-overlay base base' ov ov' hb ho k)
      ∙ clone-overlaid (last_of entry_key k ov) (observed k base) (observed_again k base)

  contains-projection :
      (k : Identity) → contains k (tombstones_of ov') ≡ is_tombstone (last_of entry_key k ov)
  contains-projection k =
      let o = normalize_overlay_ok ov ov' ho in
      contains-tombstones_of k ov' o.2
      ∙ rw (o.3 k) (is_tombstone-clone_entry (last_of entry_key k ov))

-- Where BuildProjection succeeds the projection has schema v1; each identity shows in its states
-- what its last overlay entry, or else the base, says; and its tombstones are just the identities
-- whose last entry is a tombstone, none of which shows in the states.
pub build_projection-observed :
    (base : List LiveIdentityState) (ov : List OverlayEntry) (p : LiveProjection)
    → build_projection base ov ≡ ok p
    → (p.schema ≡ bytes "v1")
      × ((k : Identity) → observed k p.states ≡ overlaid (last_of entry_key k ov) (observed k base))
      × ((k : Identity) → contains k p.tombstones ≡ is_tombstone (last_of entry_key k ov))
      × ((k : Identity) → contains k p.tombstones ≡ true → observed k p.states ≡ none)
unfolding build_projection
build_projection-observed base ov p h =
    let (base', hb, h₁) = step-returns (normalize_live_states base) _ h in
    let (ov', ho, h₂) = step-returns (normalize_overlay ov) _ h₁ in
    let states : p.states ≡ clone_live_states (apply_normalized_overlay base' ov') =
      ground (arith, h₂) in
    let tombs : p.tombstones ≡ tombstones_of ov' = ground (arith, h₂) in
    let shown : (k : Identity)
        → observed k p.states ≡ overlaid (last_of entry_key k ov) (observed k base) =
      λ k. ap (observed k) states ∙ observed-projection base base' ov ov' hb ho k in
    let listed : (k : Identity) → contains k p.tombstones ≡ is_tombstone (last_of entry_key k ov) =
      λ k. ap (contains k) tombs ∙ contains-projection base base' ov ov' hb ho k in
    (
      ground (arith, h₂),
      shown,
      listed,
      λ k t.
          shown k
          ∙ overlaid-tombstone (last_of entry_key k ov) (observed k base) (sym (listed k) ∙ t),
    )
