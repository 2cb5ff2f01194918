-- ===== src/Activate/Build/Projection/Agree.antt =====
-- The loop of effectiveProjection in core/activate/builder.go against that of
-- applyNormalizedOverlay in core/worktree/diff.go.
use zsh_pro.Prelude.{
  ℕ, zero, suc, ◌≡◌, refl, sym, ap, ◌∙◌, Bool, true, false, Option, none, some, List, [], ◌∷◌, ◌++◌,
  length, map, select, if◌then◌else◌, subst,
}
use zsh_pro.Data.Bytes.{bytes}
use zsh_pro.Data.Dict.{lookup, insert}
use zsh_pro.Data.Slots.{Slot, set, deactivate, active_items, append_slot, append_all, put, drop}
use zsh_pro.Data.Slots.Ops.{empty}
use zsh_pro.Live.Types.{Identity, identity_eq, LiveIdentityState, OverlayEntry}
use zsh_pro.Live.Values.{clone_live_value}
use zsh_pro.Live.Normalize.{state_key, clone_state}
use zsh_pro.Worktree.Apply.{StateSlots}
use zsh_pro.Worktree.Overlay.{apply_entry, apply_entries, apply_normalized_overlay}
use zsh_pro.Activate.Build.Projection.Tombstones.{
  buried, project_entries-tombstones, project_base-tombstones,
}
use zsh_pro.Activate.Build.Projection.{
  Projecting, append_projected, project_base, bury, put_projected, project_entry, project_entries,
  active_states, nothing_projected, effective_projection,
}

abbrev item_of : Slot LiveIdentityState → LiveIdentityState
item_of s = s.item

abbrev active_of : Slot LiveIdentityState → Bool
active_of s = s.active

-- The slots, taken apart.
record Mirrors (t : StateSlots) (p : Projecting) : Type 0 where
  positions : p.positions ≡ t.index
  states : p.states ≡ map item_of t.slots
  active : p.active ≡ map active_of t.slots

module _ {ℓ} {A : Type ℓ} (f : Slot LiveIdentityState → A) where
  map-snoc :
      (ss : List (Slot LiveIdentityState)) (s : Slot LiveIdentityState)
      → map f (ss ++ s ∷ []) ≡ map f ss ++ f s ∷ []
  map-snoc [] s = refl
  map-snoc (x ∷ ss) s = ap (λ ys. f x ∷ ys) (map-snoc ss s)

  map-set :
      (ss : List (Slot LiveIdentityState)) (n : ℕ) (s : Slot LiveIdentityState)
      → map f (set ss n s) ≡ set (map f ss) n (f s)
  unfolding set
  map-set [] n s = refl
  map-set (x ∷ ss) zero s = refl
  map-set (x ∷ ss) (suc n) s = ap (λ ys. f x ∷ ys) (map-set ss n s)

  length-map-slots : (ss : List (Slot LiveIdentityState)) → length (map f ss) ≡ length ss
  length-map-slots [] = refl
  length-map-slots (x ∷ ss) = ap suc (length-map-slots ss)

items-deactivate :
    (ss : List (Slot LiveIdentityState)) (n : ℕ) → map item_of (deactivate ss n) ≡ map item_of ss
unfolding deactivate
items-deactivate [] n = refl
items-deactivate (x ∷ ss) zero = refl
items-deactivate (x ∷ ss) (suc n) = ap (λ ys. x.item ∷ ys) (items-deactivate ss n)

active-deactivate :
    (ss : List (Slot LiveIdentityState)) (n : ℕ)
    → map active_of (deactivate ss n) ≡ set (map active_of ss) n false
unfolding deactivate set
active-deactivate [] n = refl
active-deactivate (x ∷ ss) zero = refl
active-deactivate (x ∷ ss) (suc n) = ap (λ ys. x.active ∷ ys) (active-deactivate ss n)

append_slot-Mirrors :
    (t : StateSlots) (p : Projecting) (s : LiveIdentityState)
    → Mirrors t p
    → Mirrors (append_slot state_key t s true) (append_projected p s)
unfolding append_slot append_projected
append_slot-Mirrors t p s h = record {
  positions =
      ap (λ ss. insert s.identity (length ss) p.positions) h.states
      ∙ ap (λ n. insert s.identity n p.positions) (length-map-slots item_of t.slots)
      ∙ ap (insert s.identity (length t.slots)) h.positions;
  states = ap (λ ss. ss ++ s ∷ []) h.states ∙ sym (map-snoc item_of t.slots _);
  active = ap (λ bs. bs ++ true ∷ []) h.active ∙ sym (map-snoc active_of t.slots _);
}

abbrev present : List LiveIdentityState → List LiveIdentityState
present = select (λ s. s.value.present)

abbrev appended : StateSlots → List LiveIdentityState → StateSlots
appended t ss = append_all state_key (λ _. true) t (map clone_state ss)

base_step-Mirrors :
    (b : Bool) (t : StateSlots) (p : Projecting) (s : LiveIdentityState)
    (ss : List LiveIdentityState)
    → ((u : StateSlots) (q : Projecting)
        → Mirrors u q
        → Mirrors (appended u (present ss)) (project_base q ss))
    → Mirrors t p
    → Mirrors
        (appended t (if b then s ∷ present ss else present ss))
        (project_base (if b then append_projected p (clone_state s) else p) ss)
unfolding append_all
base_step-Mirrors true t p s ss go h = go _ _ (append_slot-Mirrors t p (clone_state s) h)
base_step-Mirrors false t p s ss go h = go t p h

project_base-Mirrors :
    (t : StateSlots) (p : Projecting) (base : List LiveIdentityState)
    → Mirrors t p
    → Mirrors (appended t (present base)) (project_base p base)
unfolding project_base select append_all
project_base-Mirrors t p [] h = h
project_base-Mirrors t p (s ∷ ss) h =
    base_step-Mirrors s.value.present t p s ss (λ u q k. project_base-Mirrors u q ss k) h

put_at-Mirrors :
    (o : Option ℕ) (t : StateSlots) (p : Projecting) (s : LiveIdentityState)
    → Mirrors t p
    → Mirrors
        (elim o as (λ _. StateSlots) [
          | some n ↦ record t { slots = set t.slots n (record { item = s; active = true }) }
          | none ↦ append_slot state_key t s true
        ])
        (put_projected o p s)
unfolding put_projected
put_at-Mirrors none t p s h = append_slot-Mirrors t p s h
put_at-Mirrors (some n) t p s h = record {
  positions = h.positions;
  states = ap (λ ss. set ss n s) h.states ∙ sym (map-set item_of t.slots n _);
  active = ap (λ bs. set bs n true) h.active ∙ sym (map-set active_of t.slots n _);
}

put-Mirrors :
    (t : StateSlots) (p : Projecting) (s : LiveIdentityState)
    → Mirrors t p
    → Mirrors (put state_key t s) (put_projected (lookup s.identity p.positions) p s)
unfolding put
put-Mirrors t p s h =
    subst (λ o. Mirrors (put state_key t s) (put_projected o p s))
      (sym (ap (lookup s.identity) h.positions))
      (put_at-Mirrors (lookup s.identity t.index) t p s h)

drop_at-Mirrors :
    (o : Option ℕ) (t : StateSlots) (p : Projecting) (i : Identity)
    → Mirrors t p
    → Mirrors
        (elim o as (λ _. StateSlots) [
          | some n ↦ record t { slots = deactivate t.slots n }
          | none ↦ t
        ])
        (bury o p i)
unfolding bury
drop_at-Mirrors none t p i h = record {
  positions = h.positions;
  states = h.states;
  active = h.active;
}
drop_at-Mirrors (some n) t p i h = record {
  positions = h.positions;
  states = h.states ∙ sym (items-deactivate t.slots n);
  active = ap (λ bs. set bs n false) h.active ∙ sym (active-deactivate t.slots n);
}

drop-Mirrors :
    (t : StateSlots) (p : Projecting) (i : Identity)
    → Mirrors t p
    → Mirrors (drop state_key t i) (bury (lookup i p.positions) p i)
unfolding drop
drop-Mirrors t p i h =
    subst (λ o. Mirrors (drop state_key t i) (bury o p i)) (sym (ap (lookup i) h.positions))
      (drop_at-Mirrors (lookup i t.index) t p i h)

if-Mirrors :
    (b : Bool) (t u : StateSlots) (p q : Projecting)
    → Mirrors t p
    → Mirrors u q
    → Mirrors (if b then t else u) (if b then p else q)
if-Mirrors true t u p q h k = h
if-Mirrors false t u p q h k = k

project_entry-Mirrors :
    (t : StateSlots) (p : Projecting) (o : OverlayEntry)
    → Mirrors t p
    → Mirrors (apply_entry t o) (project_entry p o)
unfolding apply_entry project_entry
project_entry-Mirrors t p o h =
    if-Mirrors o.tombstone _ _ _ _ (drop-Mirrors t p o.identity h)
      (put-Mirrors t p (record { identity = o.identity; value = clone_live_value o.value }) h)

project_entries-Mirrors :
    (t : StateSlots) (p : Projecting) (os : List OverlayEntry)
    → Mirrors t p
    → Mirrors (apply_entries t os) (project_entries p os)
unfolding apply_entries project_entries
project_entries-Mirrors t p [] h = h
project_entries-Mirrors t p (o ∷ os) h =
    project_entries-Mirrors (apply_entry t o) (project_entry p o) os (project_entry-Mirrors t p o h)

active_states-slots :
    (ss : List (Slot LiveIdentityState))
    → active_states (map item_of ss) (map active_of ss) ≡ active_items ss
unfolding active_states active_items
active_states-slots [] = refl
active_states-slots (s ∷ ss) =
    ap (λ rest. if s.active then s.item ∷ rest else rest) (active_states-slots ss)

pub effective_projection-apply_normalized_overlay :
    (base : List LiveIdentityState) (overlay : List OverlayEntry)
    → effective_projection base overlay ≡ record {
      schema = bytes "v1";
      states = apply_normalized_overlay base overlay;
      tombstones = buried overlay;
    }
unfolding effective_projection apply_normalized_overlay
effective_projection-apply_normalized_overlay base overlay =
    let started = project_base nothing_projected base in
    let h = project_entries-Mirrors _ started overlay (
      project_base-Mirrors (empty state_key) nothing_projected base
        (record { positions = refl; states = refl; active = refl })) in
    let p = project_entries started overlay in
    let slots = (apply_entries (appended (empty state_key) (present base)) overlay).slots in
    ap
      (λ ss. record {
        schema = bytes "v1";
        states = active_states ss p.active;
        tombstones = p.tombstones;
      })
      h.states
    ∙ ap
        (λ bs. record {
          schema = bytes "v1";
          states = active_states (map item_of slots) bs;
          tombstones = p.tombstones;
        })
        h.active
    ∙ ap (λ ss. record { schema = bytes "v1"; states = ss; tombstones = p.tombstones })
        (active_states-slots slots)
    ∙ ap
        (λ is. record {
          schema = bytes "v1";
          states = apply_normalized_overlay base overlay;
          tombstones = is;
        })
        (project_entries-tombstones started overlay
          ∙ ap (λ is. is ++ buried overlay) (project_base-tombstones nothing_projected base))
