-- ===== src/Activate/Build/Projection.antt =====
-- effectiveProjection of core/activate/builder.go: the states in one slice and whether they are
-- active in another, and the tombstones collected on the way.
pub mod Tombstones
pub mod Agree
use zsh_pro.Prelude.{
  ℕ, Bool, true, false, Option, none, some, List, [], ◌∷◌, ◌++◌, length, if◌then◌else◌,
}
use zsh_pro.Data.Bytes.{Bytes, bytes}
use zsh_pro.Data.Dict.{Dict, lookup, insert}
use zsh_pro.Data.Slots.{set}
use zsh_pro.Live.Types.{Identity, identity_eq, LiveIdentityState, OverlayEntry, LiveProjection}
use zsh_pro.Live.Values.{clone_live_value}
use zsh_pro.Live.Normalize.{clone_state}

pub record Projecting : Type 0 where
  pub positions : Dict Identity ℕ
  pub states : List LiveIdentityState
  pub active : List Bool
  pub tombstones : List Identity

unfoldable pub append_projected : Projecting → LiveIdentityState → Projecting
append_projected p s = record p {
  positions = insert s.identity (length p.states) p.positions;
  states = p.states ++ s ∷ [];
  active = p.active ++ true ∷ [];
}

-- The loop over the base.
unfoldable pub project_base : Projecting → List LiveIdentityState → Projecting
project_base p [] = p
project_base p (s ∷ ss) =
    project_base (if s.value.present then append_projected p (clone_state s) else p) ss

unfoldable pub bury : Option ℕ → Projecting → Identity → Projecting
bury none p i = record p { tombstones = p.tombstones ++ i ∷ [] }
bury (some n) p i = record p { active = set p.active n false; tombstones = p.tombstones ++ i ∷ [] }

unfoldable pub put_projected : Option ℕ → Projecting → LiveIdentityState → Projecting
put_projected none p s = append_projected p s
put_projected (some n) p s = record p { states = set p.states n s; active = set p.active n true }

unfoldable pub project_entry : Projecting → OverlayEntry → Projecting
project_entry p o =
    let position = lookup o.identity p.positions in
    if o.tombstone
    then bury position p o.identity
    else put_projected position p
        (record { identity = o.identity; value = clone_live_value o.value })

unfoldable pub project_entries : Projecting → List OverlayEntry → Projecting
project_entries p [] = p
project_entries p (o ∷ os) = project_entries (project_entry p o) os

unfoldable pub active_states : List LiveIdentityState → List Bool → List LiveIdentityState
active_states [] bs = []
active_states (s ∷ ss) [] = []
active_states (s ∷ ss) (b ∷ bs) = let rest = active_states ss bs in if b then s ∷ rest else rest

abbrev pub nothing_projected : Projecting
nothing_projected = record { positions = []; states = []; active = []; tombstones = [] }

unfoldable pub effective_projection : List LiveIdentityState → List OverlayEntry → LiveProjection
effective_projection base overlay =
    let p = project_entries (project_base nothing_projected base) overlay in
    record {
      schema = bytes "v1";
      states = active_states p.states p.active;
      tombstones = p.tombstones;
    }
